-- ===== src/FsIndex/Table/Evict.antt =====
-- `fsTableAddOrEvict`: nothing leaves the index without being handed back, and what leaves is oldest.
use cardiag.Base.{
  All, Bool, Bool-cases, List, Option, [], ap, arith, false, get_elem?, inl, inr, length,
  length-append, length-set, ltb, none, not, refl, set, some, suc, true, zero, ℕ, ◌&&◌, ◌++◌, ◌+◌,
  ◌<◌, ◌==◌, ◌||◌, ◌∷◌, ◌≡◌, ◌≤◌, ◌⊎◌,
}
use cardiag.FsIndex.Table.{
  FsEntry, FsTable, count, Grow, table_hard_max, blank, add_or_evict, oldest_from, make_room,
}
use mathlib.Core.Path.{subst}
use cardiag.FsIndex.Table.Add.{
  has, Distinct, IsValid, add-Added, found, appended, full, has-get_elem?, Distinct-append,
  has-append,
}

-- Writing an entry over one of a list with distinct indexes swaps the indexes.
pub has-set :
    (v : List FsEntry) (k j : ℕ) (e x : FsEntry)
    → Distinct v
    → get_elem? v k ≡ some x
    → has j (set v k e) ≡ (e.index == j || (has j v && not (x.index == j)))
has-set [] k j e x d h = ground arith
has-set (y ∷ v) zero j e x d h = ground arith
has-set (y ∷ v) (suc k) j e x d h = ground (arith, has-set v k j e x d.1 h, has-get_elem? v k h)

pub Distinct-set :
    (v : List FsEntry) (k : ℕ) (e x : FsEntry)
    → Distinct v
    → get_elem? v k ≡ some x
    → (e.index ≡ x.index) ⊎ (has e.index v ≡ false)
    → Distinct (set v k e)
Distinct-set [] k e x d h s = tt
Distinct-set (y ∷ v) zero e x d h s = (ground arith, d.1)
Distinct-set (y ∷ v) (suc k) e x d h s = (
  ground (arith, has-set v k y.index e x d.1 h, has-get_elem? v k h),
  Distinct-set v k e x d.1 h (ground arith),
)

-- The entries that may be evicted are all at least as young as this index.
abbrev pub Oldest : ℕ → List FsEntry → Type 0
Oldest n = All (λ e. (e.active ≡ true) ⊎ (n ≤ e.index))

-- The scan for the oldest stands at position `i` with a candidate at hand.
oldest_from-some :
    (v : List FsEntry) (i o : ℕ) (x : FsEntry)
    → (p : ℕ) × (y : FsEntry) × (oldest_from v i (some (o, x)) ≡ some (p, y))
      × (y.index ≤ x.index)
      × Oldest y.index v
      × (((p ≡ o) × (y ≡ x))
          ⊎ ((k : ℕ) × (p ≡ i + k) × (get_elem? v k ≡ some y) × (y.active ≡ false)))
unfolding oldest_from
oldest_from-some [] i o x = (o, x, refl, omega arith, tt, inl (refl, refl))
oldest_from-some (e ∷ v) i o x = elim (Bool-cases (e.active || not (ltb e.index x.index))) [
  | inl kept ↦
      let (p, y, r, le, all, from) = oldest_from-some v (i + 1) o x in
      (
        p,
        y,
        ground arith,
        le,
        (ground arith, all),
        elim from [ inl same ↦ inl same | inr (k, at, g, off) ↦ inr (suc k, omega arith, g, off) ],
      )
  | inr older ↦
      let (p, y, r, le, all, from) = oldest_from-some v (i + 1) i e in
      (
        p,
        y,
        ground arith,
        ground arith,
        (ground arith, all),
        elim from [
          | inl (at, same) ↦ inr (0, omega arith, ground arith, ground arith)
          | inr (k, at, g, off) ↦ inr (suc k, omega arith, g, off)
        ],
      )
]

-- The scan with no candidate yet: every entry is active, or an oldest evictable entry is found.
oldest_from-none :
    (v : List FsEntry) (i : ℕ)
    → ((oldest_from v i none ≡ none) × All (λ e. e.active ≡ true) v)
      ⊎ ((k : ℕ) × (y : FsEntry) × (oldest_from v i none ≡ some (i + k, y))
          × Oldest y.index v
          × (get_elem? v k ≡ some y)
          × (y.active ≡ false))
unfolding oldest_from
oldest_from-none [] i = inl (refl, tt)
oldest_from-none (e ∷ v) i = elim (Bool-cases e.active) [
  | inl on ↦ elim (oldest_from-none v (i + 1)) [
    | inl (r, all) ↦ inl (ground arith, (on, all))
    | inr (k, y, r, all, g, off) ↦ inr (suc k, y, ground arith, (ground arith, all), g, off)
  ]
  | inr off ↦
      let (p, y, r, le, all, from) = oldest_from-some v (i + 1) i e in
      elim from [
        | inl (at, same) ↦ inr (0, y, ground arith, (ground arith, all), ground arith, ground arith)
        | inr (k, at, g, off') ↦ inr (suc k, y, ground arith, (ground arith, all), g, off')
      ]
]

set-append_last :
    (v : List FsEntry) (b e : FsEntry) → set (v ++ (b ∷ [])) (length v) e ≡ v ++ (e ∷ [])
set-append_last [] b e = refl
set-append_last (x ∷ v) b e = ap (◌∷◌ x) (set-append_last v b e)

Oldest-of_active : (n : ℕ) (v : List FsEntry) → All (λ e. e.active ≡ true) v → Oldest n v
Oldest-of_active n [] a = tt
Oldest-of_active n (e ∷ v) a = (inl a.0, Oldest-of_active n v a.1)

Oldest-below : (m n : ℕ) (v : List FsEntry) → m ≤ n → Oldest n v → Oldest m v
Oldest-below m n [] h a = tt
Oldest-below m n (e ∷ v) h a = (ground arith, Oldest-below m n v h a.1)

-- What `fsTableAddOrEvict` does on each branch.
pub data Outcome (t : FsTable) (e : FsEntry) (r : FsTable × Option ℕ × Option FsEntry)
    : Type 0 where
  replaced :
      (k : ℕ) (x : FsEntry)
      → r ≡ (record t { v = set t.v k e }, some k, none)
      → get_elem? t.v k ≡ some x
      → x.index ≡ e.index
      → Outcome t e r
  appended_last :
      (room : ℕ)
      → r ≡ (record { v = t.v ++ (e ∷ []); cap = room }, some (count t), none)
      → count t < room
      → room ≤ table_hard_max
      → has e.index t.v ≡ false
      → Outcome t e r
  bounced : r ≡ (t, none, some e) → has e.index t.v ≡ false → Oldest e.index t.v → Outcome t e r
  swapped :
      (k : ℕ) (x : FsEntry)
      → r ≡ (record t { v = set t.v k e }, some k, some x)
      → get_elem? t.v k ≡ some x
      → has e.index t.v ≡ false
      → x.active ≡ false
      → Oldest x.index t.v
      → x.index ≤ e.index
      → Outcome t e r

make_room-Outcome :
    (t : FsTable) (e : FsEntry) → has e.index t.v ≡ false → Outcome t e (make_room t e)
unfolding make_room
make_room-Outcome t e h = elim (oldest_from-none t.v 0) [
  | inl (r, all) ↦ bounced (ground arith) h (Oldest-of_active e.index t.v all)
  | inr (k, y, r, all, g, off) ↦ elim (Bool-cases (ltb e.index y.index)) [
    | inl older ↦ bounced (ground arith) h (Oldest-below e.index y.index t.v (ground arith) all)
    | inr younger ↦ swapped k y (ground arith) g h off all (ground arith)
  ]
]

pub add_or_evict-Outcome :
    (grow : Grow) (t : FsTable) (e : FsEntry) → IsValid t → Outcome t e (add_or_evict grow t e)
unfolding add_or_evict
add_or_evict-Outcome grow t e v = elim (add-Added grow t e.index v) [
  | found k x r g same ↦ replaced k x (rw r) g same
  | appended room r lt le h ↦
      appended_last room (rw (r, set-append_last t.v (blank e.index) e)) lt le h
  | full r h le ↦ rw r (make_room-Outcome t e h)
]

-- Whether what lost its slot, if anything did, has this index.
abbrev pub gave : ℕ → Option FsEntry → Bool
gave j none = false
gave j (some x) = x.index == j

-- Adding keeps the array within its capacity, the capacity under its ceiling and the indexes
-- distinct, whatever the allocator answers.
pub add_or_evict-IsValid :
    (grow : Grow) (t : FsTable) (e : FsEntry) → IsValid t → IsValid (add_or_evict grow t e).0
add_or_evict-IsValid grow t e v = elim (add_or_evict-Outcome grow t e v) [
  | replaced k x r g same ↦
      rw r (ground (arith, length-set t.v k e, Distinct-set t.v k e x v.distinct g))
  | appended_last room r lt le h ↦
      rw r (ground (arith, length-append t.v (e ∷ []), Distinct-append t.v e v.distinct h))
  | bounced r h o ↦ rw r v
  | swapped k x r g h off o le ↦
      rw r (ground (arith, length-set t.v k e, Distinct-set t.v k e x v.distinct g))
]

-- Nothing is lost silently: the indexes of the table and of the newcomer are those of the new table
-- and of what is reported as evicted, and what is reported is no longer in the table.
pub add_or_evict_accounts :
    (grow : Grow) (t : FsTable) (e : FsEntry) (j : ℕ)
    → IsValid t
    → let (t', slot, lost) = add_or_evict grow t e in
      ((e.index == j || has j t.v) ≡ (has j t'.v || gave j lost))
      × ((gave j lost && has j t'.v) ≡ false)
add_or_evict_accounts grow t e j v = elim (add_or_evict-Outcome grow t e v) [
  | replaced k x r g same ↦ rw r (ground (arith, has-set t.v k j e x v.distinct g))
  | appended_last room r lt le h ↦ rw r (ground (arith, has-append j t.v (e ∷ [])))
  | bounced r h o ↦ rw r (ground arith)
  | swapped k x r g h off o le ↦
      rw r (ground (arith, has-set t.v k j e x v.distinct g, has-get_elem? t.v k g))
]

-- A rightful loser of a slot: the newcomer or an entry of the table that is not active, and none
-- that could have been evicted, the newcomer included, is older.
abbrev pub Loser : FsTable → FsEntry → FsEntry → Type 0
Loser t e x =
    ((x ≡ e) ⊎ ((k : ℕ) × (get_elem? t.v k ≡ some x) × (x.active ≡ false)))
    × Oldest x.index t.v
    × (x.index ≤ e.index)

-- What loses its slot is the newcomer or an entry of the table that is not active, and no entry
-- that could have been evicted, the newcomer included, is older.
pub add_or_evict_oldest :
    (grow : Grow) (t : FsTable) (e x : FsEntry)
    → IsValid t
    → (add_or_evict grow t e).2 ≡ some x
    → Loser t e x
add_or_evict_oldest grow t e x v h = elim (add_or_evict-Outcome grow t e v) [
  | replaced k y r g same ↦ absurd (ground arith)
  | appended_last room r lt le n ↦ absurd (ground arith)
  | bounced r n o ↦ let same : e ≡ x = cc in subst (Loser t e) same (inl refl, o, omega arith)
  | swapped k y r g n off o le ↦
      let same : y ≡ x = cc in subst (Loser t e) same (inr (k, g, off), o, le)
]
