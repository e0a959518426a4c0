-- ===== src/Bookend/Parse.antt =====
-- The parsers of the replies, in firmware/src/bookend.cpp.
use cardiag.Base.{
  Bool, List, [], drop, false, get_or, if◌then◌else◌, leb, length, ltb, not, set, suc, take, true,
  zero, ℕ, ◌%◌, ◌&&◌, ◌*◌, ◌++◌, ◌+◌, ◌-◌, ◌/◌, ◌==◌, ◌^◌, ◌||◌, ◌∷◌,
}
use cardiag.Bookend.{
  bookend_max_stored, bookend_max_pending, bookend_max_m06, BookendDtc, BookendM06, BookendData,
}

abbrev pub at : List ℕ → ℕ → ℕ
at p k = get_or p k 0

-- Two bytes, the high one first.
abbrev pub be16 : List ℕ → ℕ → ℕ
be16 p k = at p k * 256 + at p (k + 1)

-- `bookendParsePid01`
unfoldable pub parse_pid01 : BookendData → List ℕ → Bool × BookendData
parse_pid01 d p =
    if ltb (length p) 6 || (not (at p 0 == 0x41) || not (at p 1 == 1))
    then (false, d)
    else (true, record d { pid01 = take 4 (drop 2 p) })

-- The loop of `bookendParseDtcs` over the codes from `q` on, of which `n` are left: the list, and
-- whether the cap cut it.
unfoldable pub dtcs_loop : ℕ → ℕ → ℕ → List ℕ → List BookendDtc → List BookendDtc × Bool
dtcs_loop zero cap ecu q have = (have, false)
dtcs_loop (suc n) cap ecu q have =
    let dtc = be16 q 0 in
    let rest =
      dtcs_loop n cap ecu (drop 2 q)
        (if dtc == 0 then have else have ++ (record { ecu = ecu; dtc = dtc } ∷ [])) in
    if not (dtc == 0) && leb cap (length have) then (have, true) else rest

-- The number of codes that are read: the count byte, and no more than there are bytes for.
abbrev pub dtc_count : List ℕ → ℕ
dtc_count p = let n = (length p - 2) / 2 in if ltb n (at p 1) then n else at p 1

-- `bookendParseDtcs` of stored codes
unfoldable pub parse_stored : BookendData → ℕ → List ℕ → Bool × BookendData
unfolding dtcs_loop
parse_stored d ecu p =
    let (l, cut) = dtcs_loop (dtc_count p) bookend_max_stored ecu (drop 2 p) d.stored in
    if ltb (length p) 2 || not (at p 0 == 0x43)
    then (false, d)
    else (true, record d { stored = l; truncated = d.truncated || cut })

-- `bookendParseDtcs` of pending codes
unfoldable pub parse_pending : BookendData → ℕ → List ℕ → Bool × BookendData
unfolding dtcs_loop
parse_pending d ecu p =
    let (l, cut) = dtcs_loop (dtc_count p) bookend_max_pending ecu (drop 2 p) d.pending in
    if ltb (length p) 2 || not (at p 0 == 0x47)
    then (false, d)
    else (true, record d { pending = l; truncated = d.truncated || cut })

-- Bit `bit` of the map that starts at byte 2, the highest bit of a byte first.
abbrev pub map_bit : List ℕ → ℕ → Bool
map_bit p bit = at p (2 + bit / 8) / 2 ^ (7 - bit % 8) % 2 == 1

-- The loop of `bookendParseM06Support`, with `n` bits left; `supported` has a Boolean for each MID.
unfoldable pub support_loop : ℕ → ℕ → List ℕ → List Bool → List Bool
support_loop zero base p supported = supported
support_loop (suc n) base p supported =
    let bit = 31 - n in
    let mid = base + 1 + bit in
    support_loop n base p
      (if map_bit p bit && leb mid 0xFF then set supported mid true else supported)

-- `bookendParseM06Support`
unfoldable pub parse_m06_support : ℕ → List ℕ → List Bool → Bool × List Bool
unfolding support_loop
parse_m06_support base p supported =
    if ltb (length p) 6 || (not (at p 0 == 0x46) || not (at p 1 == base))
    then (false, supported)
    else (true, support_loop 32 base p supported)

-- The result that starts a list of bytes.
abbrev pub result_at : ℕ → List ℕ → BookendM06
result_at ecu q = record {
  ecu = ecu;
  mid = at q 0;
  tid = at q 1;
  uasid = at q 2;
  value = be16 q 3;
  low = be16 q 5;
  high = be16 q 7;
}

-- The loop of `bookendParseM06Results` over the bytes from `q` on; a result takes 9 of them.
unfoldable pub results_loop : ℕ → ℕ → List ℕ → List BookendM06 → List BookendM06 × Bool
results_loop zero ecu q have = (have, false)
results_loop (suc fuel) ecu q have =
    let rest = results_loop fuel ecu (drop 9 q) (have ++ (result_at ecu q ∷ [])) in
    if ltb (length q) 9
    then (have, false)
    else if leb bookend_max_m06 (length have)
    then (have, true)
    else rest

-- `bookendParseM06Results`; a round takes 9 bytes, so their number is fuel enough.
unfoldable pub parse_m06_results : BookendData → ℕ → List ℕ → Bool × BookendData
unfolding results_loop
parse_m06_results d ecu p =
    let (l, cut) = results_loop (length p) ecu (drop 1 p) d.m06 in
    if ltb (length p) 10 || not (at p 0 == 0x46)
    then (false, d)
    else (true, record d { m06 = l; truncated = d.truncated || cut })
