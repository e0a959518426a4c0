-- ===== src/FsIndex/Table/Add.antt =====
-- Adding to the index: the table stays well formed, and nothing is lost without being reported.
use cardiag.Base.{
  Bool, Bool-cases, List, [], arith, false, inl, inr, length, none, refl, some, suc, true, ℕ, ◌++◌,
  ◌+◌, ◌<◌, ◌==◌, ◌||◌, ◌∷◌, ◌≡◌, ◌≤◌, ◌⊎◌, Option, leb, ◌*◌, u16, get_elem?, zero,
}
use cardiag.FsIndex.Table.{
  FsEntry, FsTable, count, table_hard_max, init, find_from, grow_table, add, Grow, blank, find,
  entry_size, wanted,
}

-- Whether some entry of the table has this index.
abbrev pub has : ℕ → List FsEntry → Bool
has i [] = false
has i (e ∷ v) = e.index == i || has i v

-- No two entries share an index.
abbrev pub Distinct : List FsEntry → Type 0
Distinct [] = Unit
Distinct (e ∷ v) = (has e.index v ≡ false) × Distinct v

-- What every operation keeps: the array is not overrun, its capacity stays under the ceiling, and
-- the indexes are distinct.
pub record IsValid (t : FsTable) : Type 0 where
  pub fits : count t ≤ t.cap
  pub small : t.cap ≤ table_hard_max
  pub distinct : Distinct t.v

pub init-IsValid : IsValid init
unfolding init
init-IsValid = ground arith

pub has-append : (i : ℕ) (v w : List FsEntry) → has i (v ++ w) ≡ (has i v || has i w)
has-append i [] w = refl
has-append i (e ∷ v) w = ground (arith, has-append i v w)

pub Distinct-append :
    (v : List FsEntry) (e : FsEntry) → Distinct v → has e.index v ≡ false → Distinct (v ++ (e ∷ []))
Distinct-append [] e d h = (refl, tt)
Distinct-append (x ∷ v) e d h =
    (ground (arith, has-append x.index v (e ∷ [])), Distinct-append v e d.1 (ground arith))

pub has-get_elem? :
    (v : List FsEntry) (k : ℕ) {x : FsEntry} → get_elem? v k ≡ some x → has x.index v ≡ true
has-get_elem? [] k h = ground arith
has-get_elem? (y ∷ v) zero h = ground arith
has-get_elem? (y ∷ v) (suc k) h = ground (arith, has-get_elem? v k h)

pub lt_of_get_elem? :
    (v : List FsEntry) (k : ℕ) {x : FsEntry} → get_elem? v k ≡ some x → k < length v
lt_of_get_elem? [] k h = ground arith
lt_of_get_elem? (y ∷ v) zero h = omega arith
lt_of_get_elem? (y ∷ v) (suc k) h = omega (arith, lt_of_get_elem? v k h)

-- `find` finds an entry that has the index, and fails exactly when there is none.
find_from_lem :
    (v : List FsEntry) (index i : ℕ)
    → ((find_from v index i ≡ none) × (has index v ≡ false))
      ⊎ ((k : ℕ) × (x : FsEntry) × (find_from v index i ≡ some (i + k))
          × (get_elem? v k ≡ some x)
          × (x.index ≡ index))
unfolding find_from
find_from_lem [] index i = inl (refl, refl)
find_from_lem (e ∷ v) index i = elim (Bool-cases (e.index == index)) [
  | inl t ↦ inr (0, e, ground arith, refl, ground arith)
  | inr f ↦ elim (find_from_lem v index (i + 1)) [
    | inl (p, q) ↦ inl (ground arith, ground arith)
    | inr (k, x, p, q, r) ↦ inr (suc k, x, ground arith, q, r)
  ]
]

-- A table that has to grow either gains room under the ceiling or is left as it was.
pub grow_table_lem :
    (grow : Grow) (t : FsTable)
    → t.cap ≤ table_hard_max
    → ((bigger : ℕ) × (grow_table grow t ≡ (true, record t { cap = bigger }))
        × (t.cap < bigger)
        × (bigger ≤ table_hard_max))
      ⊎ (grow_table grow t ≡ (false, t))
unfolding grow_table
grow_table_lem none t h = inr refl
grow_table_lem (some alloc) t h = elim (Bool-cases (leb table_hard_max t.cap)) [
  | inl top ↦ inr (rw top)
  | inr room ↦ elim (Bool-cases (alloc (t.cap * entry_size) (wanted t.cap * entry_size))) [
    | inl given ↦ inl (u16 (wanted t.cap), rw (room, given), ground arith, ground arith)
    | inr refused ↦ inr (rw (room, refused))
  ]
]

-- What `fsTableAdd` does on each branch.
pub data Added (t : FsTable) (index : ℕ) (r : FsTable × Option ℕ) : Type 0 where
  found :
      (k : ℕ) (x : FsEntry)
      → r ≡ (t, some k)
      → get_elem? t.v k ≡ some x
      → x.index ≡ index
      → Added t index r
  appended :
      (room : ℕ)
      → r ≡ (record { v = t.v ++ (blank index ∷ []); cap = room }, some (count t))
      → count t < room
      → room ≤ table_hard_max
      → has index t.v ≡ false
      → Added t index r
  full : r ≡ (t, none) → has index t.v ≡ false → t.cap ≤ count t → Added t index r

pub add-Added :
    (grow : Grow) (t : FsTable) (index : ℕ) → IsValid t → Added t index (add grow t index)
unfolding add find
add-Added grow t index v = elim (find_from_lem t.v index 0) [
  | inr (k, x, e, at, same) ↦ found k x (ground arith) at same
  | inl (e, h) ↦ elim (Bool-cases (leb t.cap (count t))) [
    | inr room ↦ appended t.cap (ground arith) (ground arith) v.small h
    | inl no_room ↦ elim (grow_table_lem grow t v.small) [
      | inl (bigger, g, lt, le) ↦ appended bigger (ground arith) (ground arith) le h
      | inr g ↦ full (ground arith) h (ground arith)
    ]
  ]
]

-- The two answers of `fsTableFind`.
pub find_cases :
    (t : FsTable) (index : ℕ)
    → ((find t index ≡ none) × (has index t.v ≡ false))
      ⊎ ((k : ℕ) × (x : FsEntry) × (find t index ≡ some k)
          × (get_elem? t.v k ≡ some x)
          × (x.index ≡ index))
unfolding find
find_cases t index = elim (find_from_lem t.v index 0) [
  | inl (e, h) ↦ inl (e, h)
  | inr (k, x, e, g, same) ↦ inr (k, x, ground arith, g, same)
]
