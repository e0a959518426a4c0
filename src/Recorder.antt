-- ===== src/Recorder.antt =====
-- The two records of firmware/src/recorder.cpp: the raw ring, which overwrites its oldest frame, and
-- the change log, which refuses what does not fit.
pub mod Raw
pub mod Csv
use cardiag.Base.{
  Bool, List, Option, [], false, if◌then◌else◌, leb, ltb, none, not, replicate, some, suc, take,
  u16, u32, zero, ℕ, ◌%◌, ◌&&◌, ◌*◌, ◌++◌, ◌+◌, ◌/◌, ◌==◌, ◌||◌, ◌∷◌,
}
use cardiag.SpscRing.{SpscRing, spsc_pow2_floor, spsc_init, spsc_reserve, spsc_count, spsc_consume}
use cardiag.SpscRing.Queue.{fill}
use cardiag.SpscRing.Refine.{Log, append_at}

-- `struct Rec`
pub record Rec : Type 0 where
  pub ms : ℕ
  pub id : ℕ
  pub dlc : ℕ
  pub flags : ℕ
  pub bytes : List ℕ

-- What is read of a `twai_message_t`.
pub record TwaiMessage : Type 0 where
  pub identifier : ℕ
  pub extd : Bool
  pub rtr : Bool
  pub data_length_code : ℕ
  pub bytes : List ℕ

-- The variables of the file. The change log's rows come with their mask of changed bytes.
pub record Recorder : Type 0 where
  pub raw : ℕ → Rec
  pub raw_cap : ℕ
  pub raw_head : ℕ
  pub raw_total : ℕ
  pub raw_busy : ℕ
  pub frozen : Bool
  pub chg : Log (Rec × ℕ)
  pub chg_cap : ℕ
  pub chg_drop : ℕ
  pub running : Bool
  pub psram : Bool

abbrev pub rec_size : ℕ
rec_size = 16

abbrev pub rec_raw_bytes_psram : ℕ
rec_raw_bytes_psram = 4 * 1024 * 1024

abbrev pub rec_chg_bytes_psram : ℕ
rec_chg_bytes_psram = 2 * 1024 * 1024

abbrev pub rec_raw_bytes_fallback : ℕ
rec_raw_bytes_fallback = 64 * 1024

-- `recorderBegin`, on what malloc left in the rows; whether each allocation works is an argument.
unfoldable pub recorder_begin : Bool → Bool → Bool → (ℕ → Rec) → (ℕ → Rec × ℕ) → Recorder
recorder_begin psram raw_ok chg_ok raw chg =
    let raw_bytes = if psram then rec_raw_bytes_psram else rec_raw_bytes_fallback in
    let rows = spsc_pow2_floor (rec_chg_bytes_psram / rec_size) in
    let cap = if psram && chg_ok then rows else 0 in
    record {
      raw = raw;
      raw_cap = if raw_ok then raw_bytes / rec_size else 0;
      raw_head = 0;
      raw_total = 0;
      raw_busy = 0;
      frozen = false;
      chg = record { ring = spsc_init cap; rows = chg };
      chg_cap = cap;
      chg_drop = 0;
      running = false;
      psram = psram;
    }

-- `recorderRawStored`
abbrev pub raw_stored : Recorder → ℕ
raw_stored r = if ltb r.raw_total r.raw_cap then r.raw_total else r.raw_cap

-- `fill`
abbrev pub fill_rec : ℕ → ℕ → Bool → ℕ → List ℕ → Rec
fill_rec ms id extd dlc bytes = record {
  ms = ms;
  id = u16 id;
  dlc = dlc;
  flags = if extd then 1 else 0;
  bytes = take 8 (take (if ltb 8 dlc then 8 else dlc) bytes ++ replicate 8 0);
}

-- The row of a frame that `recorderNoteRaw` keeps.
abbrev pub raw_row : TwaiMessage → ℕ → Rec
raw_row m ms = fill_rec ms m.identifier m.extd m.data_length_code m.bytes

-- `recorderNoteRaw`; `free` says whether the lock was got at the first try.
unfoldable pub note_raw : Recorder → TwaiMessage → ℕ → Bool → Recorder
note_raw r m ms free =
    if r.raw_cap == 0 || (r.frozen || m.rtr)
    then r
    else if not free
    then record r { raw_busy = u32 (r.raw_busy + 1) }
    else record r {
      raw = fill r.raw r.raw_head (raw_row m ms);
      raw_head = (r.raw_head + 1) % r.raw_cap;
      raw_total = u32 (r.raw_total + 1);
    }

-- `recorderNoteChange`, with the slot that `spscReserve` gave as an argument of its own.
unfoldable pub noted_at : Recorder → Rec × ℕ → Option ℕ → Recorder
noted_at r row none = if r.chg_cap == 0 then r else record r { chg_drop = u32 (r.chg_drop + 1) }
noted_at r row (some slot) = record r { chg = append_at r.chg row (some slot) }

unfoldable pub note_change : Recorder → ℕ → Bool → ℕ → List ℕ → ℕ → ℕ → Recorder
unfolding noted_at
note_change r id extd dlc bytes changed ms =
    if not r.running
    then r
    else noted_at r (fill_rec ms id extd dlc bytes, changed) (spsc_reserve r.chg.ring)

-- `recorderFreezeRaw`, `recorderStart` and `recorderStop`
abbrev pub freeze_raw : Recorder → Bool → Recorder
freeze_raw r freeze = record r { frozen = freeze }

abbrev pub set_running : Recorder → Bool → Recorder
set_running r run = record r { running = run }

-- `recorderClear`
unfoldable pub recorder_clear : Recorder → Recorder
recorder_clear r = record r {
  chg = record r.chg { ring = spsc_consume r.chg.ring (spsc_count r.chg.ring) };
  chg_drop = 0;
}

-- `recorderChangeDiscardThrough`, without the number that it returns.
unfoldable pub discard_through : Recorder → ℕ → Recorder
discard_through r rows =
    if r.chg_cap == 0 || rows == 0
    then r
    else record r { chg = record r.chg { ring = spsc_consume r.chg.ring rows } }

-- The row that the raw download reads for its cursor.
unfoldable pub raw_base : Recorder → ℕ
raw_base r = if leb r.raw_total r.raw_cap then 0 else r.raw_head

abbrev pub raw_at : Recorder → ℕ → Rec
raw_at r row = r.raw ((raw_base r + row) % r.raw_cap)

-- The next `n` rows of the download.
abbrev pub raw_rows : Recorder → ℕ → ℕ → List Rec
raw_rows r row zero = []
raw_rows r row (suc n) = raw_at r row ∷ raw_rows r (row + 1) n
