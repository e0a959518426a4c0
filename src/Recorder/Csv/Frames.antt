-- ===== src/Recorder/Csv/Frames.antt =====
-- What a download of the raw ring holds.
use mathlib.Core.Path.{subst}
use cardiag.Base.{
  Bool, List, Option, [], ap, arith, false, if◌then◌else◌, length, length-append, none, refl, some,
  suc, sym, true, zero, ℕ, ◌++◌, ◌+◌, ◌<◌, ◌==◌, ◌^◌, ◌∙◌, ◌∷◌, ◌≡◌,
}
use cardiag.PollPlan.Hash.{decimal}
use cardiag.Recorder.{Rec, Recorder, recorder_begin, raw_stored, raw_at, raw_rows}
use cardiag.Recorder.Raw.{raw_contents}
use cardiag.Recorder.Raw.Last.{Offer, offers, kept, last_of, raw_contents-offers, offers_cap}
use cardiag.Recorder.Csv.{emit_row, csv_chunk, raw_header, raw_csv_chunk}
use cardiag.Recorder.Csv.Whole.{download, texts, csv_chunk-download}

-- The lines of some frames.
unfoldable pub raw_lines : List Rec → List ℕ
raw_lines [] = []
raw_lines (x ∷ xs) = emit_row x none ++ raw_lines xs

texts-raw_lines :
    (r : Recorder) (row n : ℕ)
    → texts (λ i. emit_row (raw_at r i) none) row n ≡ raw_lines (raw_rows r row n)
unfolding texts raw_lines
texts-raw_lines r row zero = refl
texts-raw_lines r row (suc n) =
    ap (λ l. emit_row (raw_at r row) none ++ l) (texts-raw_lines r (row + 1) n)

some_after : (a b : List ℕ) → 0 < length b → 0 < length (a ++ b)
some_after a b h = omega (arith, length-append a b)

emit_row_some : (r : Rec) (mask : Option ℕ) → 0 < length (emit_row r mask)
unfolding emit_row
emit_row_some r mask = some_after (decimal r.ms) _ (omega arith)

-- The text of a download of a ring with slots.
raw_csv-download :
    (r : Recorder) (cap : ℕ)
    → (r.raw_cap == 0) ≡ false
    → 96 < cap
    → download (raw_csv_chunk r cap) (raw_stored r + 2) (record { row = 0; header_done = false })
      ≡ some (raw_header ++ raw_lines (raw_contents r))
unfolding raw_csv_chunk
raw_csv-download r cap z c =
    let text = λ (i : ℕ). emit_row (raw_at r i) none in
    subst
      (λ b.
        download (λ cur. if b then ([], cur) else csv_chunk raw_header text (raw_stored r) cap cur)
          (raw_stored r + 2) (record { row = 0; header_done = false })
        ≡ some (raw_header ++ raw_lines (raw_contents r)))
      (sym z)
      (csv_chunk-download text (λ i. emit_row_some (raw_at r i) none) raw_header (raw_stored r) cap
          c (omega arith)
        ∙ ap (λ l. some (raw_header ++ l)) (texts-raw_lines r 0 (raw_stored r)))

begin-slots :
    (psram chg_ok : Bool) (raw : ℕ → Rec) (chg : ℕ → Rec × ℕ) (os : List Offer)
    → ((offers (recorder_begin psram true chg_ok raw chg) os).raw_cap == 0) ≡ false
unfolding recorder_begin
begin-slots true chg_ok raw chg os =
    ap (λ n. n == 0) (offers_cap (recorder_begin true true chg_ok raw chg) os)
begin-slots false chg_ok raw chg os =
    ap (λ n. n == 0) (offers_cap (recorder_begin false true chg_ok raw chg) os)

-- From the start with memory for the raw ring, after any frames and freezes in which fewer than
-- 2^32 - 1 frames were kept: a download in chunks of more than 96 bytes ends, and its text is the
-- header and a line for each of the last kept frames that fit the ring, oldest first, each once.
pub raw_csv-offers :
    (psram chg_ok : Bool) (raw : ℕ → Rec) (chg : ℕ → Rec × ℕ) (os : List Offer) (cap : ℕ)
    → length (kept false os) + 1 < 2 ^ 32
    → 96 < cap
    → download
        (raw_csv_chunk (offers (recorder_begin psram true chg_ok raw chg) os) cap)
        (raw_stored (offers (recorder_begin psram true chg_ok raw chg) os) + 2)
        (record { row = 0; header_done = false })
      ≡ some (
          raw_header
          ++ raw_lines (last_of (recorder_begin psram true chg_ok raw chg).raw_cap (kept false os)))
raw_csv-offers psram chg_ok raw chg os cap l c =
    raw_csv-download (offers (recorder_begin psram true chg_ok raw chg) os) cap
      (begin-slots psram chg_ok raw chg os) c
    ∙ ap (λ q. some (raw_header ++ raw_lines q)) (raw_contents-offers psram chg_ok raw chg os l)
