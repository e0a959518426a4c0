-- ===== src/FsIndex/Table/Sort.antt =====
-- `fsTableSort` puts the entries in ascending order of their index and keeps each of them.
use cardiag.Base.{
  All, Bool-cases, List, [], ap, arith, false, get_or, inl, inr, length, ltb, refl, set, suc, sym,
  true, ℕ, ◌++◌, ◌+◌, ◌-◌, ◌<◌, ◌∙◌, ◌∷◌, ◌≡◌, ◌≤◌,
}
use cardiag.FsIndex.Table.{FsEntry, FsTable, blank, sort, shift, sort_from}
use mathlib.Core.List.{append-nil, Perm, perm_middle}
use mathlib.Core.List.Perm

-- The array with the sorted part reversed in front of the rest: position `length rp` is the first
-- entry of the rest.
abbrev rev_append : List FsEntry → List FsEntry → List FsEntry
rev_append [] zs = zs
rev_append (y ∷ rp) zs = rev_append rp (y ∷ zs)

get_or-rev_append :
    (rp zs : List FsEntry) (k n : ℕ) (d : FsEntry)
    → n ≡ length rp + k
    → get_or (rev_append rp zs) n d ≡ get_or zs k d
get_or-rev_append [] zs k n d e = ap (λ m. get_or zs m d) (omega arith)
get_or-rev_append (x ∷ rp) zs k n d e = get_or-rev_append rp (x ∷ zs) (suc k) n d (omega arith)

set-rev_append :
    (rp zs : List FsEntry) (k n : ℕ) (e : FsEntry)
    → n ≡ length rp + k
    → set (rev_append rp zs) n e ≡ rev_append rp (set zs k e)
set-rev_append [] zs k n e h = ap (λ m. set zs m e) (omega arith)
set-rev_append (x ∷ rp) zs k n e h = set-rev_append rp (x ∷ zs) (suc k) n e (omega arith)

-- Insertion into the reversed sorted part.
insert : FsEntry → List FsEntry → List FsEntry
insert tmp [] = tmp ∷ []
insert tmp (y ∷ rp) = elim (ltb tmp.index y.index) [
  | true ↦ y ∷ insert tmp rp
  | false ↦ tmp ∷ y ∷ rp
]

insert-down :
    (tmp y : FsEntry) (rp : List FsEntry)
    → ltb tmp.index y.index ≡ true
    → insert tmp (y ∷ rp) ≡ y ∷ insert tmp rp
unfolding insert
insert-down tmp y rp h = ground arith

insert-here :
    (tmp y : FsEntry) (rp : List FsEntry)
    → ltb tmp.index y.index ≡ false
    → insert tmp (y ∷ rp) ≡ tmp ∷ y ∷ rp
unfolding insert
insert-here tmp y rp h = ground arith

-- To reason about an insertion: it goes further down, or stops here.
insert_cases {κ} :
    (P : List FsEntry → Type κ) (tmp y : FsEntry) (rp : List FsEntry)
    → (tmp.index < y.index → P (y ∷ insert tmp rp))
    → (y.index ≤ tmp.index → P (tmp ∷ y ∷ rp))
    → P (insert tmp (y ∷ rp))
insert_cases P tmp y rp down here = elim (Bool-cases (ltb tmp.index y.index)) [
  | inl t ↦ rw (insert-down tmp y rp t) (down (ground arith))
  | inr f ↦ rw (insert-here tmp y rp f) (here (ground arith))
]

length-insert : (tmp : FsEntry) (rp : List FsEntry) → length (insert tmp rp) ≡ suc (length rp)
unfolding insert
length-insert tmp [] = refl
length-insert tmp (y ∷ rp) = ground (arith, length-insert tmp rp)

shift-down :
    (v : List FsEntry) (y tmp : FsEntry) (j : ℕ)
    → get_or v j tmp ≡ y
    → ltb tmp.index y.index ≡ true
    → shift v tmp (suc j) ≡ shift (set v (suc j) y) tmp j
unfolding shift
shift-down v y tmp j e h = ground arith

shift-here :
    (v : List FsEntry) (y tmp : FsEntry) (j : ℕ)
    → get_or v j tmp ≡ y
    → ltb tmp.index y.index ≡ false
    → shift v tmp (suc j) ≡ set v (suc j) tmp
unfolding shift
shift-here v y tmp j e h = ground arith

-- One round of the sort inserts the entry behind the sorted part into it.
shift-insert :
    (rp zs : List FsEntry) (x tmp : FsEntry)
    → shift (rev_append rp (x ∷ zs)) tmp (length rp) ≡ rev_append (insert tmp rp) zs
shift-insert [] zs x tmp = unfold shift insert in refl
shift-insert (y ∷ rp) zs x tmp = elim (Bool-cases (ltb tmp.index y.index)) [
  | inl t ↦
      shift-down array y tmp k at t
      ∙ ap (λ a. shift a tmp k) (set-rev_append rp (y ∷ x ∷ zs) 1 (suc k) y (omega arith))
      ∙ shift-insert rp (y ∷ zs) y tmp
      ∙ ap (λ l. rev_append l zs) (sym (insert-down tmp y rp t))
  | inr f ↦
      shift-here array y tmp k at f
      ∙ set-rev_append rp (y ∷ x ∷ zs) 1 (suc k) tmp (omega arith)
      ∙ ap (λ l. rev_append l zs) (sym (insert-here tmp y rp f))
]
  where
    k : ℕ
    k = length rp

    array : List FsEntry
    array = rev_append rp (y ∷ x ∷ zs)

    at : get_or array k tmp ≡ y
    at = get_or-rev_append rp (y ∷ x ∷ zs) 0 k tmp (omega arith)

abbrev insert_all : List FsEntry → List FsEntry → List FsEntry
insert_all rp [] = rp
insert_all rp (z ∷ zs) = insert_all (insert z rp) zs

sort_from-insert_all :
    (rp zs : List FsEntry) (i : ℕ)
    → i ≡ length rp
    → sort_from (rev_append rp zs) i (length zs) ≡ rev_append (insert_all rp zs) []
unfolding sort_from
sort_from-insert_all rp [] i e = refl
sort_from-insert_all rp (z ∷ zs) i e =
    ap (λ w. sort_from w (i + 1) (length zs)) round
    ∙ sort_from-insert_all (insert z rp) zs (i + 1) (omega (arith, length-insert z rp))
  where
    array : List FsEntry
    array = rev_append rp (z ∷ zs)

    round : shift array (get_or array i (blank 0)) i ≡ rev_append (insert z rp) zs
    round =
        ap (λ x. shift array x i) (get_or-rev_append rp (z ∷ zs) 0 i (blank 0) (omega arith))
        ∙ ap (shift array z) e
        ∙ shift-insert rp zs z z

-- Descending order, for the reversed part; ascending order, for the table.
abbrev Descending : List FsEntry → Type 0
Descending [] = Unit
Descending (e ∷ v) = All (λ x. x.index ≤ e.index) v × Descending v

abbrev pub Ascending : List FsEntry → Type 0
Ascending [] = Unit
Ascending (e ∷ v) = All (λ x. e.index ≤ x.index) v × Ascending v

All-insert {κ} :
    (P : FsEntry → Type κ) (tmp : FsEntry) (rp : List FsEntry)
    → P tmp
    → All P rp
    → All P (insert tmp rp)
All-insert P tmp [] p h = unfold insert in (p, tt)
All-insert P tmp (y ∷ rp) p h =
    insert_cases (All P) tmp y rp (λ _. (h.0, All-insert P tmp rp p h.1)) (λ _. (p, h))

All-below :
    (m n : ℕ) (v : List FsEntry) → m ≤ n → All (λ x. x.index ≤ m) v → All (λ x. x.index ≤ n) v
All-below m n [] h a = tt
All-below m n (x ∷ v) h a = (omega arith, All-below m n v h a.1)

All-above :
    (m n : ℕ) (v : List FsEntry) → n ≤ m → All (λ x. m ≤ x.index) v → All (λ x. n ≤ x.index) v
All-above m n [] h a = tt
All-above m n (x ∷ v) h a = (omega arith, All-above m n v h a.1)

insert-Descending : (tmp : FsEntry) (rp : List FsEntry) → Descending rp → Descending (insert tmp rp)
insert-Descending tmp [] d = unfold insert in (tt, tt)
insert-Descending tmp (y ∷ rp) d =
    insert_cases Descending tmp y rp
      (λ lt. (
        All-insert (λ x. x.index ≤ y.index) tmp rp (omega arith) d.0,
        insert-Descending tmp rp d.1,
      ))
      (λ le. ((le, All-below y.index tmp.index rp le d.0), d))

insert_all-Descending : (rp zs : List FsEntry) → Descending rp → Descending (insert_all rp zs)
insert_all-Descending rp [] d = d
insert_all-Descending rp (z ∷ zs) d =
    insert_all-Descending (insert z rp) zs (insert-Descending z rp d)

-- `bound` is an index that lies between the reversed part and the rest.
rev_append-Ascending :
    (rp zs : List FsEntry)
    → Descending rp
    → Ascending zs
    → All (λ z. All (λ y. y.index ≤ z.index) rp) zs
    → Ascending (rev_append rp zs)
rev_append-Ascending [] zs d a b = a
rev_append-Ascending (y ∷ rp) zs d a b =
    rev_append-Ascending rp (y ∷ zs) d.1 (heads zs b, a) (d.0, tails zs b)
  where
    heads :
        (zs : List FsEntry)
        → All (λ z. All (λ x. x.index ≤ z.index) (y ∷ rp)) zs
        → All (λ z. y.index ≤ z.index) zs
    heads [] b = tt
    heads (z ∷ zs) b = (b.0.0, heads zs b.1)

    tails :
        (zs : List FsEntry)
        → All (λ z. All (λ x. x.index ≤ z.index) (y ∷ rp)) zs
        → All (λ z. All (λ x. x.index ≤ z.index) rp) zs
    tails [] b = tt
    tails (z ∷ zs) b = (b.0.1, tails zs b.1)

insert-perm : (tmp : FsEntry) (rp : List FsEntry) → Perm (insert tmp rp) (tmp ∷ rp)
insert-perm tmp [] = unfold insert in Perm.refl _
insert-perm tmp (y ∷ rp) =
    insert_cases (λ l. Perm l (tmp ∷ y ∷ rp)) tmp y rp
      (λ _. Perm.trans (Perm.cons y (insert-perm tmp rp)) (Perm.swap tmp y rp)) (λ _. Perm.refl _)

rev_append-perm : (rp zs : List FsEntry) → Perm (rev_append rp zs) (rp ++ zs)
rev_append-perm [] zs = Perm.refl zs
rev_append-perm (y ∷ rp) zs = Perm.trans (rev_append-perm rp (y ∷ zs)) (perm_middle rp zs)

insert_all-perm : (rp zs : List FsEntry) → Perm (insert_all rp zs) (zs ++ rp)
insert_all-perm rp [] = Perm.refl rp
insert_all-perm rp (z ∷ zs) =
    Perm.trans (insert_all-perm (insert z rp) zs)
      (Perm.trans (Perm.append (Perm.refl zs) (insert-perm z rp)) (perm_middle zs rp))

sort_from-lem :
    (v : List FsEntry)
    → Ascending (sort_from v 1 (length v - 1)) × Perm (sort_from v 1 (length v - 1)) v
sort_from-lem [] = unfold sort_from in (tt, Perm.refl [])
sort_from-lem (e ∷ v) =
    rw (rounds, sort_from-insert_all (e ∷ []) v 1 refl)
      (rev_append-Ascending (insert_all (e ∷ []) v) [] sorted tt tt, same)
  where
    rounds : length (e ∷ v) - 1 ≡ length v
    rounds = omega arith

    sorted : Descending (insert_all (e ∷ []) v)
    sorted = insert_all-Descending (e ∷ []) v (tt, tt)

    same : Perm (rev_append (insert_all (e ∷ []) v) []) (e ∷ v)
    same = Perm.trans (rev_append-perm (insert_all (e ∷ []) v) []) (
        rw append-nil
          (Perm.trans (insert_all-perm (e ∷ []) v) (rw append-nil at (perm_middle {a = e} v []))))

-- The sorted table holds the entries of the table, each as often, in ascending order of their
-- index, in a table of the same capacity.
pub sort_lem : (t : FsTable) → Ascending (sort t).v × Perm (sort t).v t.v × ((sort t).cap ≡ t.cap)
unfolding sort
sort_lem t = (((sort_from-lem t.v).0), (sort_from-lem t.v).1, refl)
