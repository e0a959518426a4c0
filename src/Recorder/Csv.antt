-- ===== src/Recorder/Csv.antt =====
-- The download of the two records as text, in chunks, in firmware/src/recorder.cpp.
pub mod Whole
pub mod Frames
pub mod Fits
use cardiag.Base.{
  Bool, List, Option, [], if◌then◌else◌, length, ltb, none, some, suc, true, zero, ℕ, ◌%◌, ◌++◌,
  ◌+◌, ◌-◌, ◌/◌, ◌==◌, ◌∷◌, codes,
}
use cardiag.PollPlan.Hash.{decimal}
use cardiag.SpscRing.{SpscRing, spsc_count, spsc_slot}
use cardiag.SpscRing.Refine.{Log}
use cardiag.Recorder.{
  Rec, TwaiMessage, Recorder, rec_size, rec_raw_bytes_psram, rec_chg_bytes_psram,
  rec_raw_bytes_fallback, recorder_begin, raw_stored, fill_rec, raw_row, note_raw, noted_at,
  note_change, freeze_raw, set_running, recorder_clear, discard_through, raw_base, raw_at, raw_rows,
}

-- A digit of `%X`.
abbrev pub upper_digit : ℕ → ℕ
upper_digit n = if ltb n 10 then b'0' + n else b'A' + (n - 10)

-- `%02X` of a byte, and `%03X` of a uint16_t.
abbrev pub hex2 : ℕ → List ℕ
hex2 n = upper_digit (n / 16 % 16) ∷ upper_digit (n % 16) ∷ []

abbrev pub hex3 : ℕ → List ℕ
hex3 n =
    let low = upper_digit (n / 256 % 16) ∷ hex2 n in
    if ltb n 4096 then low else upper_digit (n / 4096 % 16) ∷ low

-- The eight columns of bytes from column `i` on: those past `dlc` stay blank.
unfoldable pub columns : List ℕ → ℕ → ℕ → List ℕ
columns [] i dlc = []
columns (x ∷ xs) i dlc =
    let rest = columns xs (i + 1) dlc in if ltb i dlc then b',' ∷ (hex2 x ++ rest) else b',' ∷ rest

abbrev pub mask_column : Option ℕ → List ℕ
mask_column none = []
mask_column (some mask) = b',' ∷ hex2 mask

-- `emitRow`; a mask of -1 is `none`.
unfoldable pub emit_row : Rec → Option ℕ → List ℕ
unfolding columns
emit_row r mask =
    decimal r.ms
    ++ ((b',' ∷ hex3 r.id)
        ++ ((b',' ∷ decimal (r.flags % 2))
            ++ ((b',' ∷ decimal r.dlc)
                ++ (mask_column mask ++ (columns r.bytes 0 r.dlc ++ (10 ∷ []))))))

-- `struct RecCsvCursor`
pub record RecCsvCursor : Type 0 where
  pub row : ℕ
  pub header_done : Bool

-- The loop of a chunk: `left` rows are stored from the cursor on, `n` bytes are written so far.
unfoldable pub chunk_rows : (ℕ → List ℕ) → ℕ → ℕ → ℕ → ℕ → List ℕ × ℕ
chunk_rows text zero row cap n = ([], row)
chunk_rows text (suc left) row cap n =
    let t = text row in
    let rest = chunk_rows text left (row + 1) cap (n + length t) in
    if ltb 96 (cap - n) then (t ++ rest.0, rest.1) else ([], row)

-- The body of both chunk functions, for a header, the text of a row and the rows stored.
unfoldable pub csv_chunk : List ℕ → (ℕ → List ℕ) → ℕ → ℕ → RecCsvCursor → List ℕ × RecCsvCursor
unfolding chunk_rows
csv_chunk header text stored cap cur =
    let h = if cur.header_done then [] else header in
    let r = chunk_rows text (stored - cur.row) cur.row cap (length h) in
    (h ++ r.0, record { row = r.1; header_done = true })

abbrev pub raw_header : List ℕ
raw_header = codes "ms,id,ext,dlc,d0,d1,d2,d3,d4,d5,d6,d7\n"

-- `recorderRawCsvChunk`
unfoldable pub raw_csv_chunk : Recorder → ℕ → RecCsvCursor → List ℕ × RecCsvCursor
raw_csv_chunk r cap cur =
    if r.raw_cap == 0
    then ([], cur)
    else csv_chunk raw_header (λ row. emit_row (raw_at r row) none) (raw_stored r) cap cur

abbrev pub change_header : List ℕ
change_header = codes "ms,id,ext,dlc,changed,d0,d1,d2,d3,d4,d5,d6,d7\n"

-- The row of the change log at the cursor.
abbrev pub change_text : Recorder → ℕ → List ℕ
change_text r row = let (x, mask) = r.chg.rows (spsc_slot r.chg.ring row) in emit_row x (some mask)

-- `recorderChangeCsvChunk`
unfoldable pub change_csv_chunk : Recorder → ℕ → RecCsvCursor → List ℕ × RecCsvCursor
change_csv_chunk r cap cur =
    if r.chg_cap == 0
    then ([], cur)
    else csv_chunk change_header (change_text r) (spsc_count r.chg.ring) cap cur
