-- ===== src/HubProto/Chunk.antt =====
-- firmware/src/hubchunk.cpp: the rows of a snapshot, split into datagrams. A packet is its header
-- and its records, the serialised buffer is not laid out in bytes. Null pointers are left out.
use mathlib.Core.Path.{subst}
use cardiag.Base.{
  codes, replicate, ◌++◌, ◌-◌, Bool, Bool-cases, List, [], ap, arith, drop, false, if◌then◌else◌,
  inl, inr, length, length-drop, ltb, map, min, refl, suc, sym, take, true, u16, u32, zero, ℕ, ◌*◌,
  ◌+◌, ◌/◌, ◌<◌, ◌∷◌, ◌≡◌, ◌≤◌,
}
use cardiag.HubProto.{
  hub_max_records, hub_header_len, hub_record_len, hub_max_packet, HubHeader, HubCanRecord,
  hub_header_init, hub_can_record,
}

-- `struct SnifferRow`
pub record SnifferRow : Type 0 where
  pub id : ℕ
  pub last_ms : ℕ
  pub changed_at_ms : ℕ
  pub data_ : List ℕ
  pub dlc : ℕ
  pub changed_mask : ℕ
  pub ext : Bool

pub record Packet : Type 0 where
  pub header : HubHeader
  pub records : List HubCanRecord
  pub len : ℕ

-- `struct HubChunkResult`
pub record HubChunkResult : Type 0 where
  pub packets : ℕ
  pub records : ℕ
  pub aborted : Bool

-- The arguments that all packets of a call share.
pub record Stamp : Type 0 where
  pub device_id : ℕ
  pub boot_id : ℕ
  pub uptime_ms : ℕ
  pub flags : ℕ

abbrev pub to_record : SnifferRow → HubCanRecord
to_record row = hub_can_record row.id row.ext row.dlc row.data_ row.changed_mask row.last_ms

-- The packet of the rows given, as the loop's body fills the buffer.
unfoldable pub make_packet : Stamp → ℕ → List SnifferRow → Packet
make_packet st seq rows = record {
  header = hub_header_init st.device_id st.boot_id seq st.uptime_ms st.flags (length rows);
  records = map to_record rows;
  len = hub_header_len + length rows * hub_record_len;
}

abbrev pub chunk_of : ℕ → ℕ
chunk_of remaining = if ltb hub_max_records remaining then hub_max_records else remaining

-- A record that tells of a row: its identifier, its time, its changes and at most 8 bytes of data,
-- with zeros behind them.
abbrev pub Tells : SnifferRow → HubCanRecord → Type 0
Tells row r =
    (r.rec_type ≡ 1)
    × (r.can_id ≡ row.id)
    × (r.flags ≡ (if row.ext then 1 else 0))
    × (r.ms ≡ row.last_ms)
    × (r.changed ≡ row.changed_mask)
    × (r.dlc ≡ min 8 row.dlc)
    × (r.data_ ≡ take (min 8 row.dlc) row.data_ ++ replicate (8 - min 8 row.dlc) 0)

-- One record for each row, in the order of the rows.
abbrev pub TellsAll : List SnifferRow → List HubCanRecord → Type 0
TellsAll [] rs = rs ≡ []
TellsAll (row ∷ rows) [] = ⊥
TellsAll (row ∷ rows) (r ∷ rs) = Tells row r × TellsAll rows rs

-- A datagram of the protocol that holds the rows under a number.
pub record Carries (st : Stamp) (number : ℕ) (rows : List SnifferRow) (k : Packet) : Type 0 where
  pub magic : k.header.magic ≡ codes "CDGH"
  pub layout : (k.header.version ≡ 1) × (k.header.header_len ≡ 32) × (k.header.record_len ≡ 20)
  pub numbered : k.header.seq ≡ number
  pub counted : k.header.count ≡ length rows
  pub stamped :
      (k.header.device_id ≡ st.device_id)
      × (k.header.boot_id ≡ st.boot_id)
      × (k.header.uptime_ms ≡ st.uptime_ms)
      × (k.header.flags ≡ st.flags)
  pub told : TellsAll rows k.records
  pub size : k.len ≡ 32 + 20 * length rows

to_record-Tells : (row : SnifferRow) → Tells row (to_record row)
unfolding hub_can_record
to_record-Tells row =
    let n : (if ltb 8 row.dlc then 8 else row.dlc) ≡ min 8 row.dlc = ground arith in
    (refl, refl, refl, refl, refl, n, ap (λ m. take m row.data_ ++ replicate (8 - m) 0) n)

map-to_record-TellsAll : (rows : List SnifferRow) → TellsAll rows (map to_record rows)
map-to_record-TellsAll [] = refl
map-to_record-TellsAll (row ∷ rows) = (to_record-Tells row, map-to_record-TellsAll rows)

make_packet-Carries :
    (st : Stamp) (seq : ℕ) (rows : List SnifferRow) → Carries st seq rows (make_packet st seq rows)
unfolding make_packet hub_header_init
make_packet-Carries st seq rows = record {
  magic = refl;
  layout = (refl, refl, refl);
  numbered = refl;
  counted = refl;
  stamped = (refl, refl, refl, refl);
  told = map-to_record-TellsAll rows;
  size = omega arith;
}

module _ {C : Type 0} (emit : C → Packet → Bool × C) (st : Stamp) where
  -- The loop of `hubChunkRows` over the rows not sent yet: what is left of `rows` at `sent`.
  unfoldable pub chunk_loop : ℕ → List SnifferRow → ℕ → C → HubChunkResult → HubChunkResult × ℕ × C
  chunk_loop zero rest seq c r = (r, seq, c)
  chunk_loop (suc fuel) [] seq c r = (r, seq, c)
  chunk_loop (suc fuel) (x ∷ xs) seq c r =
      let rest = x ∷ xs in
      let chunk = chunk_of (length rest) in
      let out = emit c (make_packet st seq (take chunk rest)) in
      elim out.0 [
        | true ↦
            chunk_loop fuel (drop chunk rest) (u32 (seq + 1)) out.1
              (record r { packets = u16 (r.packets + 1); records = u16 (r.records + chunk) })
        | false ↦ (record r { aborted = true }, u32 (seq + 1), out.1)
      ]

  -- `hubChunkRows`: the result, the sequence number and the transport's state afterwards. One round
  -- for each row is enough.
  unfoldable pub chunk_rows : ℕ → List SnifferRow → ℕ → C → HubChunkResult × ℕ × C
  chunk_rows buf_cap rows seq c =
      let none_sent : HubChunkResult = record { packets = 0; records = 0; aborted = false } in
      if ltb buf_cap hub_max_packet
      then (none_sent, seq, c)
      else chunk_loop (length rows) rows seq c none_sent

  -- What a call may do to the transport: it emits a packet of the next rows under the next number,
  -- full unless it holds the last rows, and stops at a refusal or when no row is left. The indexes
  -- are the rows left, the sequence number and the transport's state before, those after, the
  -- packets and rows accepted, and whether the call was refused.
  pub data Sends : List SnifferRow → ℕ → C → ℕ → C → ℕ → ℕ → Bool → Type 0 where
    all_sent : {seq : ℕ} {c : C} → Sends [] seq c seq c 0 0 false
    refused :
        {rows : List SnifferRow} {n seq : ℕ} {c c' : C} {k : Packet}
        → 0 < n
        → n ≡ min hub_max_records (length rows)
        → Carries st seq (take n rows) k
        → emit c k ≡ (false, c')
        → Sends rows seq c (u32 (seq + 1)) c' 0 0 true
    accepted :
        {rows : List SnifferRow} {n seq seq' p m : ℕ} {c c' c'' : C} {a : Bool} {k : Packet}
        → 0 < n
        → n ≡ min hub_max_records (length rows)
        → Carries st seq (take n rows) k
        → emit c k ≡ (true, c')
        → Sends (drop n rows) (u32 (seq + 1)) c' seq' c'' p m a
        → Sends rows seq c seq' c'' (p + 1) (m + n) a

  -- The loop's body after the transport's answer.
  abbrev answered : ℕ → List SnifferRow → ℕ → C → HubChunkResult → Bool → HubChunkResult × ℕ × C
  answered fuel rest seq c r ok = elim ok as (λ b. HubChunkResult × ℕ × C) [
    | true ↦ chunk_loop fuel (drop (chunk_of (length rest)) rest) (u32 (seq + 1)) c (record r {
      packets = u16 (r.packets + 1);
      records = u16 (r.records + chunk_of (length rest));
    })
    | false ↦ (record r { aborted = true }, u32 (seq + 1), c)
  ]

  answered-chunk_loop :
      (fuel : ℕ) (x : SnifferRow) (xs : List SnifferRow) (seq : ℕ) (c : C) (r : HubChunkResult)
      → let rest = x ∷ xs in
        let out = emit c (make_packet st seq (take (chunk_of (length rest)) rest)) in
        chunk_loop (suc fuel) rest seq c r ≡ answered fuel rest seq out.1 r out.0
  unfolding chunk_loop
  answered-chunk_loop fuel x xs seq c r = refl

  -- What a run of the loop from `r` to `o` did.
  abbrev Did : List SnifferRow → ℕ → C → HubChunkResult → HubChunkResult × ℕ × C → Type 0
  Did rest seq c r o =
      (p : ℕ) × (m : ℕ) × Sends rest seq c o.1 o.2 p m o.0.aborted
      × (o.0.packets ≡ r.packets + p)
      × (o.0.records ≡ r.records + m)

  chunk_loop-Did :
      (fuel : ℕ) (rest : List SnifferRow) (seq : ℕ) (c : C) (r : HubChunkResult)
      → length rest ≤ fuel
      → r.records + length rest < 65536
      → r.packets + length rest < 65536
      → r.aborted ≡ false
      → Did rest seq c r (chunk_loop fuel rest seq c r)
  unfolding chunk_loop
  chunk_loop-Did zero [] seq c r h k j a = (0, 0, rw a all_sent, omega arith, omega arith)
  chunk_loop-Did zero (x ∷ xs) seq c r h k j a = absurd (omega arith)
  chunk_loop-Did (suc fuel) [] seq c r h k j a = (0, 0, rw a all_sent, omega arith, omega arith)
  chunk_loop-Did (suc fuel) (x ∷ xs) seq c r h k j a =
      let rest = x ∷ xs in
      let n = chunk_of (length rest) in
      let out = emit c (make_packet st seq (take n rest)) in
      let size : n ≡ min hub_max_records (length rest) = ground arith in
      let some_rows : 0 < n = omega arith in
      subst (Did rest seq c r) (sym (answered-chunk_loop fuel x xs seq c r))
        (elim (Bool-cases out.0) [
          | inl y ↦
              let r1 : HubChunkResult = record r {
                packets = u16 (r.packets + 1);
                records = u16 (r.records + n);
              } in
              let cut = length-drop n rest in
              let (p, m, s, e1, e2) =
                chunk_loop-Did fuel (drop n rest) (u32 (seq + 1)) out.1 r1 (omega arith)
                  (omega arith) (omega arith) a in
              subst (λ b. Did rest seq c r (answered fuel rest seq out.1 r b)) (sym y)
                (
                  p + 1,
                  m + n,
                  accepted some_rows size (make_packet-Carries st seq (take n rest))
                      (ap (λ b. (b, out.1)) y) s,
                  omega arith,
                  omega arith,
                )
          | inr y ↦
              subst (λ b. Did rest seq c r (answered fuel rest seq out.1 r b)) (sym y)
                (
                  0,
                  0,
                  refused some_rows size (make_packet-Carries st seq (take n rest))
                      (ap (λ b. (b, out.1)) y),
                  omega arith,
                  omega arith,
                )
        ])

  Sends-all :
      {rows : List SnifferRow} {seq seq' p m : ℕ} {c c' : C}
      → Sends rows seq c seq' c' p m false
      → (m ≡ length rows) × (p ≡ (length rows + 63) / 64)
  Sends-all all_sent = (refl, refl)
  Sends-all (accepted {rows = rows} {n = n} z e k g s) =
      let (a, b) = Sends-all s in let cut = length-drop n rows in (omega arith, omega arith)

  abbrev fresh : HubChunkResult
  fresh = record { packets = 0; records = 0; aborted = false }

  chunk_loop-chunk_rows :
      (buf_cap : ℕ) (rows : List SnifferRow) (seq : ℕ) (c : C)
      → hub_max_packet ≤ buf_cap
      → chunk_loop (length rows) rows seq c fresh ≡ chunk_rows buf_cap rows seq c
  unfolding chunk_rows
  chunk_loop-chunk_rows buf_cap rows seq c h =
      let t : ltb buf_cap hub_max_packet ≡ false = ground arith in rw t refl

  abbrev Counted : List SnifferRow → ℕ → C → HubChunkResult × ℕ × C → Type 0
  Counted rows seq c o = Sends rows seq c o.1 o.2 o.0.packets o.0.records o.0.aborted

  Did-Counted :
      (rows : List SnifferRow) (seq : ℕ) (c : C) (o : HubChunkResult × ℕ × C)
      → Did rows seq c fresh o
      → Counted rows seq c o
  Did-Counted rows seq c o (p, m, s, e1, e2) =
      let a : p ≡ o.0.packets = omega arith in
      let b : m ≡ o.0.records = omega arith in
      subst (λ x. Sends rows seq c o.1 o.2 x o.0.records o.0.aborted) a
        (subst (λ y. Sends rows seq c o.1 o.2 p y o.0.aborted) b s)

  -- A snapshot goes out as the protocol's sequence of datagrams: each has the header of the format,
  -- with a number that is one more than that of the one before and the count of its records, and one
  -- record for each of the next rows; it is full unless it is the last. The call ends at a refusal or
  -- when no row is left. The counts returned are those of what the transport accepted.
  pub chunk_rows-Sends :
      (buf_cap : ℕ) (rows : List SnifferRow) (seq : ℕ) (c : C)
      → hub_max_packet ≤ buf_cap
      → length rows < 65536
      → let (r, seq', c') = chunk_rows buf_cap rows seq c in
        Sends rows seq c seq' c' r.packets r.records r.aborted
  chunk_rows-Sends buf_cap rows seq c h k =
      subst (Counted rows seq c) (chunk_loop-chunk_rows buf_cap rows seq c h) (
        Did-Counted rows seq c (chunk_loop (length rows) rows seq c fresh) (
          chunk_loop-Did (length rows) rows seq c fresh (omega arith) (omega arith) (omega arith)
            refl))

  -- Unless the transport refuses one, the datagrams hold all rows, and there are as few of them as
  -- 64 records each allow.
  pub chunk_rows_all :
      (buf_cap : ℕ) (rows : List SnifferRow) (seq : ℕ) (c : C)
      → hub_max_packet ≤ buf_cap
      → length rows < 65536
      → (chunk_rows buf_cap rows seq c).0.aborted ≡ false
      → ((chunk_rows buf_cap rows seq c).0.records ≡ length rows)
        × ((chunk_rows buf_cap rows seq c).0.packets ≡ (length rows + 63) / 64)
  chunk_rows_all buf_cap rows seq c h k a =
      let (r, seq', c') = chunk_rows buf_cap rows seq c in
      Sends-all (
        subst (λ b. Sends rows seq c seq' c' r.packets r.records b) a
          (chunk_rows-Sends buf_cap rows seq c h k))
