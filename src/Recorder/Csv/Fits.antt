-- ===== src/Recorder/Csv/Fits.antt =====
-- A chunk stays within its buffer, so that no `snprintf` of it is cut.
use cardiag.Base.{
  List, Option, [], arith, false, if_both, if_split, if◌then◌else◌, length, length-append, ltb,
  ltb→lt, none, some, suc, true, zero, ℕ, ◌%◌, ◌*◌, ◌++◌, ◌+◌, ◌-◌, ◌/◌, ◌<◌, ◌==◌, ◌∷◌, ◌≤◌,
}
use cardiag.PollPlan.Hash.{decimal, decimal_loop}
use cardiag.Recorder.{Rec, Recorder, raw_stored, raw_base, raw_at}
use cardiag.Recorder.Csv.{
  hex3, columns, mask_column, emit_row, RecCsvCursor, chunk_rows, csv_chunk, raw_header,
  raw_csv_chunk,
}

length-decimal_loop : (fuel n : ℕ) → length (decimal_loop fuel n) ≤ fuel
unfolding decimal_loop
length-decimal_loop zero n = omega arith
length-decimal_loop (suc fuel) n =
    let h = length-decimal_loop fuel (n / 10) in
    let k = length-append (decimal_loop fuel (n / 10)) ((b'0' + n % 10) ∷ []) in
    if_split (λ (l : List ℕ). length l ≤ suc fuel) (ltb n 10) {x = (b'0' + n) ∷ []}
      {y = decimal_loop fuel (n / 10) ++ ((b'0' + n % 10) ∷ [])} (λ t. omega arith)
      (λ t. omega (arith, h, k))

length-columns : (l : List ℕ) (i dlc : ℕ) → length (columns l i dlc) ≤ 3 * length l
unfolding columns
length-columns [] i dlc = omega arith
length-columns (x ∷ xs) i dlc = let h = length-columns xs (i + 1) dlc in ground (arith, h)

length-hex3 : (n : ℕ) → length (hex3 n) ≤ 4
length-hex3 n = if_both (λ l. length l ≤ 4) (ltb n 4096) (omega arith) (omega arith)

length-mask_column : (mask : Option ℕ) → length (mask_column mask) ≤ 3
length-mask_column none = omega arith
length-mask_column (some m) = omega arith

-- A row has no more than 96 bytes, the room that the loop asks for.
length-emit_row : (r : Rec) (mask : Option ℕ) → length r.bytes ≤ 8 → length (emit_row r mask) ≤ 96
unfolding emit_row
length-emit_row r mask h =
    let a = length-decimal_loop 10 r.ms in
    let b = length-hex3 r.id in
    let c = length-decimal_loop 10 (r.flags % 2) in
    let d = length-decimal_loop 10 r.dlc in
    let m = length-mask_column mask in
    let e = length-columns r.bytes 0 r.dlc in
    let tail = columns r.bytes 0 r.dlc ++ (10 ∷ []) in
    let t = length-append (columns r.bytes 0 r.dlc) (10 ∷ []) in
    let t4 = length-append (mask_column mask) tail in
    let t3 = length-append (b',' ∷ decimal r.dlc) (mask_column mask ++ tail) in
    let t2 =
      length-append (b',' ∷ decimal (r.flags % 2))
        ((b',' ∷ decimal r.dlc) ++ (mask_column mask ++ tail)) in
    let t1 =
      length-append (b',' ∷ hex3 r.id) (
        (b',' ∷ decimal (r.flags % 2)) ++ ((b',' ∷ decimal r.dlc) ++ (mask_column mask ++ tail))) in
    let t0 = length-append (decimal r.ms) (
      (b',' ∷ hex3 r.id)
      ++ ((b',' ∷ decimal (r.flags % 2))
          ++ ((b',' ∷ decimal r.dlc) ++ (mask_column mask ++ tail)))) in
    omega arith

module _ (text : ℕ → List ℕ) (short : (row : ℕ) → length (text row) ≤ 96) where
  chunk_rows_fits :
      (left row room n : ℕ) → n ≤ room → n + length (chunk_rows text left row room n).0 ≤ room
  unfolding chunk_rows
  chunk_rows_fits zero row room n h = omega arith
  chunk_rows_fits (suc left) row room n h =
      let s = short row in
      let m = n + length (text row) in
      let rest = chunk_rows text left (row + 1) room m in
      let k = length-append (text row) rest.0 in
      if_split (λ (r : List ℕ × ℕ). n + length r.0 ≤ room) (ltb 96 (room - n))
        (λ t.
          let l = ltb→lt _ _ t in
          let i = chunk_rows_fits left (row + 1) room m (omega arith) in omega arith)
        (λ t. omega arith)

  csv_chunk_fits :
      (header : List ℕ) (stored room : ℕ) (cur : RecCsvCursor)
      → length header ≤ room
      → length (csv_chunk header text stored room cur).0 ≤ room
  unfolding csv_chunk
  csv_chunk_fits header stored room cur h =
      let head = if cur.header_done then [] else header in
      let l : length head ≤ room =
        elim cur.header_done as (λ b. length (if b then [] else header) ≤ room) [
          | true ↦ omega arith
          | false ↦ h
        ] in
      let k = chunk_rows_fits (stored - cur.row) cur.row room (length head) l in
      omega (
        arith,
        length-append head (chunk_rows text (stored - cur.row) cur.row room (length head)).0,
        k,
      )

-- With eight bytes to a row, a chunk of the raw ring never needs more than its buffer.
pub raw_csv_chunk_fits :
    (r : Recorder) (room : ℕ) (cur : RecCsvCursor)
    → ((i : ℕ) → length (r.raw i).bytes ≤ 8)
    → 96 < room
    → length (raw_csv_chunk r room cur).0 ≤ room
unfolding raw_csv_chunk
raw_csv_chunk_fits r room cur h l =
    if_both (λ (x : List ℕ × RecCsvCursor). length x.0 ≤ room) (r.raw_cap == 0) (omega arith)
      (csv_chunk_fits (λ row. emit_row (raw_at r row) none)
        (λ row. length-emit_row (raw_at r row) none (h ((raw_base r + row) % r.raw_cap))) raw_header
        (raw_stored r) room cur (omega arith))
