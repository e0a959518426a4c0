-- ===== src/CredStore/Net.antt =====
-- The addresses and host names that firmware/src/credstore.cpp accepts.
pub mod Ipv4
use cardiag.Base.{
  ◌>>=◌, Option, some, none, ◌>>=◌, Bool, List, Option, [], get_or, if◌then◌else◌, leb, length, ltb,
  none, not, some, suc, true, zero, ℕ, ◌&&◌, ◌*◌, ◌+◌, ◌-◌, ◌==◌, ◌||◌, ◌∷◌, false,
}

abbrev pub is_digit : ℕ → Bool
is_digit c = leb b'0' c && leb c b'9'

-- The digits of one part, at most `n` more of them: its value, and what is left.
unfoldable pub octet_loop : ℕ → ℕ → List ℕ → ℕ × List ℕ
octet_loop zero val s = (val, s)
octet_loop (suc n) val [] = (val, [])
octet_loop (suc n) val (c ∷ s) =
    let rest = octet_loop n (val * 10 + (c - b'0')) s in if is_digit c then rest else (val, c ∷ s)

-- One part of the address.
unfoldable pub octet : List ℕ → Option (ℕ × List ℕ)
unfolding octet_loop
octet s =
    let (val, rest) = octet_loop 3 0 s in
    let len = length s - length rest in
    if len == 0 || ltb 255 val
    then none
    else if ltb 1 len && get_or s 0 0 == b'0'
    then none
    else some (val, rest)

-- The dot before a part.
unfoldable pub dot : List ℕ → Option (List ℕ)
dot [] = none
dot (c ∷ s) = if c == b'.' then some s else none

-- The loop over the parts, of which `n` are left; each but the first has a dot before it.
unfoldable pub parts : ℕ → Bool → List ℕ → Option (List ℕ × List ℕ)
parts zero first s = some ([], s)
parts (suc n) first s = do
  q ← (if first then some s else dot s)
  (a, r) ← octet q
  (out, rest) ← parts n false r
  some (a ∷ out, rest)

-- The 32-bit value of the parts.
abbrev pub be32 : ℕ → List ℕ → ℕ
be32 all [] = all
be32 all (a ∷ out) = be32 (all * 256 + a) out

-- The tests after the loop.
unfoldable pub usable : List ℕ → List ℕ → Option (List ℕ)
usable out rest =
    let all = be32 0 out in
    if not (length rest == 0) || (all == 0 || all == 0xFFFFFFFF) then none else some out

-- `credParseIPv4`
unfoldable pub cred_parse_ipv4 : List ℕ → Option (List ℕ)
cred_parse_ipv4 v = do (out, rest) ← parts 4 true v; usable out rest

-- `credValidHostLabel`
abbrev pub label_char : ℕ → Bool
label_char c = (leb b'a' c && leb c b'z') || ((leb b'0' c && leb c b'9') || c == b'-')

unfoldable pub all_chars : (ℕ → Bool) → List ℕ → Bool
all_chars p [] = true
all_chars p (c ∷ s) = p c && all_chars p s

unfoldable pub cred_valid_host_label : List ℕ → Bool
unfolding all_chars
cred_valid_host_label v =
    if length v == 0 || ltb 32 (length v)
    then false
    else if get_or v 0 0 == b'-' || get_or v (length v - 1) 0 == b'-'
    then false
    else all_chars label_char v
