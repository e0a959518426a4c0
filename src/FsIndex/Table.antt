-- ===== src/FsIndex/Table.antt =====
-- The index table of fsindex.cpp. `v` holds the `count` live entries of the array; a pointer to an
-- entry is its position.
pub mod Add
pub mod Evict
pub mod Sort
use cardiag.Base.{
  Bool, List, Option, [], false, get_or, if◌then◌else◌, leb, length, ltb, none, replicate, set,
  some, suc, true, u16, u32, zero, ℕ, ◌*◌, ◌++◌, ◌+◌, ◌-◌, ◌==◌, ◌∷◌,
}

-- `struct FsEntry`; characters are byte values.
pub record FsEntry : Type 0 where
  pub index : ℕ
  pub bytes : ℕ
  pub boot_id : ℕ
  pub sha : List ℕ
  pub kind : ℕ
  pub mode : ℕ
  pub closed : Bool
  pub has_sha : Bool
  pub active : Bool
  pub hydrated : Bool

-- `struct FsTable`; its allocator is an argument of the calls that reach it.
pub record FsTable : Type 0 where
  pub v : List FsEntry
  pub cap : ℕ

abbrev pub count : FsTable → ℕ
count t = length t.v

-- `FsGrowFn`: whether the allocator finds `new_bytes` for a table of `old_bytes` during one call, or
-- no allocator at all.
abbrev pub Grow : Type 0
Grow = Option (ℕ → ℕ → Bool)

abbrev pub table_hard_max : ℕ
table_hard_max = 60000

-- `sizeof(FsEntry)` on the board
abbrev pub entry_size : ℕ
entry_size = 52

unfoldable pub init : FsTable
init = record { v = []; cap = 0 }

-- `memset(e, 0, sizeof(*e))` and the index
abbrev pub blank : ℕ → FsEntry
blank i = record {
  index = i;
  bytes = 0;
  boot_id = 0;
  sha = replicate 32 0;
  kind = 0;
  mode = 0;
  closed = false;
  has_sha = false;
  active = false;
  hydrated = false;
}

find_from : List FsEntry → ℕ → ℕ → Option ℕ
find_from [] index i = none
find_from (e ∷ v) index i = if e.index == index then some i else find_from v index (i + 1)

-- `fsTableFind`
unfoldable pub find : FsTable → ℕ → Option ℕ
unfolding find_from
find t index = find_from t.v index 0

-- The capacity that `growTable` asks for.
abbrev wanted : ℕ → ℕ
wanted cap =
    let want = if cap == 0 then 32 else u32 (cap * 2) in
    if ltb table_hard_max want then table_hard_max else want

-- `growTable`
unfoldable pub grow_table : Grow → FsTable → Bool × FsTable
grow_table none t = (false, t)
grow_table (some alloc) t =
    if leb table_hard_max t.cap
    then (false, t)
    else if alloc (t.cap * entry_size) (wanted t.cap * entry_size)
    then (true, record t { cap = u16 (wanted t.cap) })
    else (false, t)

abbrev push : FsTable → ℕ → FsTable × Option ℕ
push t index = (record t { v = t.v ++ (blank index ∷ []) }, some (count t))

-- `fsTableAdd`
unfoldable pub add : Grow → FsTable → ℕ → FsTable × Option ℕ
unfolding grow_table
add grow t index = elim (find t index) [
  | some i ↦ (t, some i)
  | none ↦
      if leb t.cap (count t)
      then (let (ok, t') = grow_table grow t in if ok then push t' index else (t', none))
      else push t index
]

-- The list with one position taken out, as `memmove` closes the gap.
abbrev pub remove_at : List FsEntry → ℕ → List FsEntry
remove_at [] i = []
remove_at (e ∷ v) zero = v
remove_at (e ∷ v) (suc i) = e ∷ remove_at v i

-- `fsTableDrop`
unfoldable pub drop_entry : FsTable → ℕ → FsTable
drop_entry t i = if leb (count t) i then t else record t { v = remove_at t.v i }

-- The inner loop of `fsTableSort`: the hole at the third argument moves down until `tmp` fits.
shift : List FsEntry → FsEntry → ℕ → List FsEntry
shift v tmp zero = set v 0 tmp
shift v tmp (suc j) = elim (ltb tmp.index (get_or v j tmp).index) [
  | true ↦ shift (set v (suc j) (get_or v j tmp)) tmp j
  | false ↦ set v (suc j) tmp
]

-- The outer loop, over the rounds left.
sort_from : List FsEntry → ℕ → ℕ → List FsEntry
unfolding shift
sort_from v i zero = v
sort_from v i (suc n) = sort_from (shift v (get_or v i (blank 0)) i) (i + 1) n

-- `fsTableSort`
unfoldable pub sort : FsTable → FsTable
unfolding sort_from
sort t = record t { v = sort_from t.v 1 (count t - 1) }

-- The scan for the oldest entry that is not active: its position and the entry.
oldest_from : List FsEntry → ℕ → Option (ℕ × FsEntry) → Option (ℕ × FsEntry)
oldest_from [] i best = best
oldest_from (e ∷ v) i best = oldest_from v (i + 1) (
    if e.active then best else elim best [
      | none ↦ some (i, e)
      | some (o, x) ↦ if ltb e.index x.index then some (i, e) else some (o, x)
    ])

-- The full table's choice: the older of the oldest entry and the newcomer loses its slot.
unfoldable pub make_room : FsTable → FsEntry → FsTable × Option ℕ × Option FsEntry
unfolding oldest_from
make_room t incoming = elim (oldest_from t.v 0 none) [
  | none ↦ (t, none, some incoming)
  | some (o, x) ↦
      if ltb incoming.index x.index
      then (t, none, some incoming)
      else (record t { v = set t.v o incoming }, some o, some x)
]

-- What follows the call of `fsTableAdd`.
abbrev pub place : FsTable × Option ℕ → FsEntry → FsTable × Option ℕ × Option FsEntry
place (t, some i) incoming = (record t { v = set t.v i incoming }, some i, none)
place (t, none) incoming = make_room t incoming

-- `fsTableAddOrEvict`: the new table, the newcomer's slot, and what lost its slot, if anything did.
unfoldable pub add_or_evict : Grow → FsTable → FsEntry → FsTable × Option ℕ × Option FsEntry
add_or_evict grow t incoming = place (add grow t incoming.index) incoming
