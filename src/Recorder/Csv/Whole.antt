-- ===== src/Recorder/Csv/Whole.antt =====
-- The chunks of a download put together.
use mathlib.Core.Path.{subst}
use cardiag.Base.{
  Bool-cases, List, Option, [], ap, append_assoc, arith, if◌then◌else◌, inl, inr, length, ltb, none,
  refl, some, suc, zero, ℕ, ◌++◌, ◌+◌, ◌-◌, ◌<◌, ◌==◌, ◌>>=◌, ◌∙◌, ◌≡◌, ◌≤◌, true, length-append,
  false, sym,
}
use cardiag.Recorder.Csv.{RecCsvCursor, chunk_rows, csv_chunk}

-- What a client does: it asks for chunks until one is empty, at most `fuel` times.
unfoldable pub download :
    (RecCsvCursor → List ℕ × RecCsvCursor) → ℕ → RecCsvCursor → Option (List ℕ)
download chunk zero cur = none
download chunk (suc fuel) cur =
    let (t, next) = chunk cur in
    let rest = download chunk fuel next in
    if length t == 0 then some [] else rest >>= (λ more. some (t ++ more))

download_stops :
    (chunk : RecCsvCursor → List ℕ × RecCsvCursor) (fuel : ℕ) (cur : RecCsvCursor)
    → length (chunk cur).0 ≡ 0
    → download chunk (suc fuel) cur ≡ some []
unfolding download
download_stops chunk fuel cur e =
    let t : (length (chunk cur).0 == 0) ≡ true = ground arith in rw t refl

download_goes_on :
    (chunk : RecCsvCursor → List ℕ × RecCsvCursor) (fuel : ℕ) (cur : RecCsvCursor) (more : List ℕ)
    → 0 < length (chunk cur).0
    → download chunk fuel (chunk cur).1 ≡ some more
    → download chunk (suc fuel) cur ≡ some ((chunk cur).0 ++ more)
unfolding download
download_goes_on chunk fuel cur more l e =
    let t : (length (chunk cur).0 == 0) ≡ false = ground arith in rw (t, e) refl

-- The text of `n` rows from `row` on.
unfoldable pub texts : (ℕ → List ℕ) → ℕ → ℕ → List ℕ
texts text row zero = []
texts text row (suc n) = text row ++ texts text (row + 1) n

module _ (text : ℕ → List ℕ) (some_text : (row : ℕ) → 0 < length (text row)) where
  -- The rows that a chunk writes are the next ones, and what is left is from its cursor on.
  chunk_rows-texts :
      (left row cap n : ℕ)
      → let (t, next) = chunk_rows text left row cap n in
        (row ≤ next)
        × (next ≤ row + left)
        × (t ++ texts text next (row + left - next) ≡ texts text row left)
  unfolding chunk_rows texts
  chunk_rows-texts zero row cap n =
      (omega arith, omega arith, (let z : row + 0 - row ≡ 0 = omega arith in rw z refl))
  chunk_rows-texts (suc left) row cap n =
      let m = n + length (text row) in
      let (lo, hi, e) = chunk_rows-texts left (row + 1) cap m in
      let next = (chunk_rows text left (row + 1) cap m).1 in
      elim (Bool-cases (ltb 96 (cap - n))) [
        | inl b ↦ rw b (
          omega arith,
          omega arith,
          (let z : row + suc left - next ≡ row + 1 + left - next = omega arith in
              rw z (append_assoc (text row) _ _ ∙ ap (λ l. text row ++ l) e)),
        )
        | inr b ↦ rw b (
          omega arith,
          omega arith,
          (let z : row + suc left - row ≡ suc left = omega arith in rw z refl),
        )
      ]

  -- A chunk with room and a row left writes one at least.
  chunk_rows_first :
      (left row cap n : ℕ)
      → 96 < cap - n
      → (row + 1 ≤ (chunk_rows text (suc left) row cap n).1)
        × (0 < length (chunk_rows text (suc left) row cap n).0)
  unfolding chunk_rows
  chunk_rows_first left row cap n room =
      let m = n + length (text row) in
      let (lo, hi, e) = chunk_rows-texts left (row + 1) cap m in
      let t : ltb 96 (cap - n) ≡ true = ground arith in
      let s = some_text row in
      let k = length-append (text row) (chunk_rows text left (row + 1) cap m).0 in
      rw t (lo, omega (arith, k, s))

  chunk_rows_none : (row cap n : ℕ) → chunk_rows text 0 row cap n ≡ ([], row)
  unfolding chunk_rows
  chunk_rows_none row cap n = refl

  texts_none : (row : ℕ) → texts text row 0 ≡ []
  unfolding texts
  texts_none row = refl

  -- From a row on, the chunks are the rows that are left.
  download_rows :
      (header : List ℕ) (stored cap fuel left row : ℕ)
      → 96 < cap
      → row + left ≡ stored
      → left < fuel
      → download (csv_chunk header text stored cap) fuel (record { row = row; header_done = true })
        ≡ some (texts text row left)
  unfolding csv_chunk
  download_rows header stored cap zero left row c l f = absurd (omega arith)
  download_rows header stored cap (suc fuel) zero row c l f =
      let e : stored - row ≡ 0 = omega arith in
      let cur : RecCsvCursor = record { row = row; header_done = true } in
      let chunk = λ (k : ℕ). chunk_rows text k row cap 0 in
      download_stops (csv_chunk header text stored cap) fuel cur
        (ap (λ k. length (chunk k).0) e ∙ ap (λ r. length r.0) (chunk_rows_none row cap 0))
      ∙ ap some (sym (texts_none row))
  download_rows header stored cap (suc fuel) (suc left) row c l f =
      let e : stored - row ≡ suc left = omega arith in
      let cur : RecCsvCursor = record { row = row; header_done = true } in
      let chunk = chunk_rows text (stored - row) row cap 0 in
      let (lo, some_bytes) =
        subst
          (λ k.
            (row + 1 ≤ (chunk_rows text k row cap 0).1)
            × (0 < length (chunk_rows text k row cap 0).0))
          (sym e) (chunk_rows_first left row cap 0 (omega arith)) in
      let (ge, hi, same) = chunk_rows-texts (stored - row) row cap 0 in
      download_goes_on (csv_chunk header text stored cap) fuel cur
        (texts text chunk.1 (row + (stored - row) - chunk.1)) some_bytes
        (download_rows header stored cap fuel (row + (stored - row) - chunk.1) chunk.1 c
          (omega arith) (omega arith))
      ∙ ap some (same ∙ ap (texts text row) e)

  -- A download asks for chunks until one is empty. With room for more than 96 bytes, a header and
  -- rows that are not empty, it ends within as many chunks as there are rows and two more, and the
  -- chunks put together are the header and the text of every stored row, once and in order.
  pub csv_chunk-download :
      (header : List ℕ) (stored cap : ℕ)
      → 96 < cap
      → 0 < length header
      → download
          (csv_chunk header text stored cap)
          (stored + 2)
          (record { row = 0; header_done = false })
        ≡ some (header ++ texts text 0 stored)
  unfolding csv_chunk
  csv_chunk-download header stored cap c h =
      let cur : RecCsvCursor = record { row = 0; header_done = false } in
      let chunk = chunk_rows text (stored - 0) 0 cap (length header) in
      let (ge, hi, same) = chunk_rows-texts (stored - 0) 0 cap (length header) in
      let n = length-append header chunk.0 in
      let y : stored - 0 ≡ stored = omega arith in
      let m : stored + 2 ≡ suc (stored + 1) = omega arith in
      ap (λ k. download (csv_chunk header text stored cap) k cur) m
      ∙ download_goes_on (csv_chunk header text stored cap) (stored + 1) cur
          (texts text chunk.1 (0 + (stored - 0) - chunk.1)) (omega (arith, n, h))
          (download_rows header stored cap (stored + 1) (0 + (stored - 0) - chunk.1) chunk.1 c
            (omega arith) (omega arith))
      ∙ ap some (append_assoc header _ _ ∙ ap (λ l. header ++ l) (same ∙ ap (texts text 0) y))
