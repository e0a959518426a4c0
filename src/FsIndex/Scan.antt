-- ===== src/FsIndex/Scan.antt =====
-- The boot scan of fsindex.cpp: one call for each directory entry, by its name alone.
pub mod Complete
pub mod Run
use cardiag.Base.{
  Bool, List, Option, [], false, get_or, if◌then◌else◌, none, not, set, some, true, u32, ℕ, ◌&&◌,
  ◌+◌, ◌==◌, ◌||◌, ◌∷◌,
}
use cardiag.FsIndex.Table.{
  FsEntry, FsTable, count, Grow, table_hard_max, entry_size, init, blank, find, grow_table, add,
  remove_at, drop_entry, sort, make_room, place, add_or_evict,
}

-- `enum FsExt`, without FS_EXT_NONE, which no parsed name has.
pub data FsExt : Type 0 where
  log part meta : FsExt

-- `struct FsName`
pub record FsName : Type 0 where
  pub index : ℕ
  pub boot_id : ℕ
  pub kind : ℕ
  pub tier_in_name : ℕ
  pub ext : FsExt

-- What one `sscanf` call with the format "%6lu_%c%c_%8lX.%7s%n" leaves behind: the number of
-- conversions, the converted values and the characters consumed.
pub record Scanned : Type 0 where
  pub converted : ℕ
  pub idx : ℕ
  pub tier : ℕ
  pub kind : ℕ
  pub boot : ℕ
  pub ext : List ℕ
  pub consumed : ℕ

abbrev pub kind_raw : ℕ
kind_raw = b'r'

abbrev pub kind_changes : ℕ
kind_changes = b'c'

abbrev pub kind_snapshot : ℕ
kind_snapshot = b's'

abbrev pub kind_bookend : ℕ
kind_bookend = b'b'

abbrev pub mode_unknown : ℕ
mode_unknown = 0xff

-- `strcmp(a, b) == 0`
abbrev pub same_text : List ℕ → List ℕ → Bool
same_text [] [] = true
same_text [] (c ∷ cs) = false
same_text (c ∷ cs) [] = false
same_text (c ∷ cs) (d ∷ ds) = c == d && same_text cs ds

ext_of : List ℕ → Option FsExt
ext_of e =
    if same_text e (b'l' ∷ b'o' ∷ b'g' ∷ [])
    then some log
    else if same_text e (b'p' ∷ b'a' ∷ b'r' ∷ b't' ∷ [])
    then some part
    else if same_text e (b'm' ∷ b'e' ∷ b't' ∷ b'a' ∷ [])
    then some meta
    else none

abbrev known_kind : ℕ → Bool
known_kind k = k == kind_raw || k == kind_changes || k == kind_snapshot || k == kind_bookend

-- `struct FsScanStats`
pub record FsScanStats : Type 0 where
  pub entries : ℕ
  pub files : ℕ
  pub metas : ℕ
  pub unparsed : ℕ
  pub duplicates : ℕ
  pub evicted_for_room : ℕ

-- `enum FsScanResult`; an eviction carries what was evicted.
pub data FsScanResult : Type 0 where
  skip added : FsScanResult
  evict : FsEntry → FsScanResult

abbrev pub no_stats : FsScanStats
no_stats = record {
  entries = 0;
  files = 0;
  metas = 0;
  unparsed = 0;
  duplicates = 0;
  evicted_for_room = 0;
}

abbrev pub is_log : FsExt → Bool
is_log log = true
is_log _ = false

abbrev pub is_meta : FsExt → Bool
is_meta meta = true
is_meta _ = false

-- `in` of `fsScanFeed`: everything the name says, the rest unread.
abbrev pub from_name : FsName → FsEntry
from_name n = record (blank n.index) {
  boot_id = n.boot_id;
  kind = n.kind;
  closed = is_log n.ext;
  mode = mode_unknown;
}

-- The entry with index `i` at a position, completed by its .log.
complete_at : FsTable → ℕ → FsExt → FsTable
complete_at t i ext =
    let have = get_or t.v i (blank 0) in
    if have.closed || not (is_log ext)
    then t
    else record t { v = set t.v i (record have { closed = true; hydrated = false }) }

-- What a feed makes of the answer of `fsTableAddOrEvict`.
abbrev pub report :
    FsTable × Option ℕ × Option FsEntry → FsScanStats → FsScanResult × FsTable × FsScanStats
report (t, slot, none) st = (added, t, st)
report (t, slot, some x) st =
    (evict x, t, record st { evicted_for_room = u32 (st.evicted_for_room + 1) })

-- A file's name, once it is known to be one of ours and no sidecar.
unfoldable pub feed_file :
    Grow → FsTable → FsName → FsScanStats → FsScanResult × FsTable × FsScanStats
unfolding complete_at
feed_file grow t n st = elim (find t n.index) [
  | some i ↦ (added, complete_at t i n.ext, record st { duplicates = u32 (st.duplicates + 1) })
  | none ↦ report (add_or_evict grow t (from_name n)) st
]

-- `sscanf` is the C library's.
module _ (sscanf : List ℕ → Scanned) where
  -- `fsParseName`; past the end of the text stands its terminating 0.
  unfoldable pub parse_name : List ℕ → Option FsName
  unfolding ext_of
  parse_name base =
      let s = sscanf base in
      if not (s.converted == 5)
      then none
      else if not (get_or base s.consumed 0 == 0)
      then none
      else if not (known_kind s.kind)
      then none
      else elim (ext_of s.ext) [
        | none ↦ none
        | some ext ↦ some (record {
          index = u32 s.idx;
          boot_id = u32 s.boot;
          kind = s.kind;
          tier_in_name = s.tier;
          ext = ext;
        })
      ]

  -- `fsScanFeed`
  unfoldable pub scan_feed :
      Grow → FsTable → List ℕ → FsScanStats → FsScanResult × FsTable × FsScanStats
  scan_feed grow t base stats =
      let st = record stats { entries = u32 (stats.entries + 1) } in
      elim (parse_name base) [
        | none ↦ (skip, t, record st { unparsed = u32 (st.unparsed + 1) })
        | some n ↦
            if is_meta n.ext
            then (skip, t, record st { metas = u32 (st.metas + 1) })
            else feed_file grow t n (record st { files = u32 (st.files + 1) })
      ]
