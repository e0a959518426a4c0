-- ===== src/PollPlan/Contract/Sorted.antt =====
-- Inserting an entry keeps the entries in order, each once.
use mathlib.Core.Path.{subst}
use Prim.Native.Nat.{Ordering, lt, eq, gt}
use cardiag.Base.{
  List, Option, [], ap, arith, bind_some, length, none, refl, some, suc, true, ◌>>=◌, ◌∷◌, ◌≡◌, ◌≤◌,
}
use cardiag.PollPlan.{
  poll_period_min_ms, poll_period_max_ms, PollEntry, cmp_entry, is_lt, after, entries_valid,
}
use cardiag.PollPlan.Contract.{insert}

cmp_entry_flip : (a b : PollEntry) → cmp_entry a b ≡ gt → is_lt (cmp_entry b a) ≡ true
unfolding cmp_entry
cmp_entry_flip a b h = ground arith

-- An entry that may stand in a plan.
pub record Sound (e : PollEntry) : Type 0 where
  pub mode : e.mode ≡ 1
  pub low : poll_period_min_ms ≤ e.period_ms
  pub high : e.period_ms ≤ poll_period_max_ms

cons-valid :
    (p : Option PollEntry) (e : PollEntry) (es : List PollEntry)
    → Sound e
    → after p e ≡ true
    → entries_valid (some e) es ≡ true
    → entries_valid p (e ∷ es) ≡ true
unfolding entries_valid
cons-valid p e es v a h = let m = v.mode in let l = v.low in let k = v.high in ground arith

valid-cons :
    (p : Option PollEntry) (e : PollEntry) (es : List PollEntry)
    → entries_valid p (e ∷ es) ≡ true
    → Sound e × (after p e ≡ true) × (entries_valid (some e) es ≡ true)
unfolding entries_valid
valid-cons p e es h = (
  record { mode = ground arith; low = ground arith; high = ground arith },
  ground arith,
  ground arith,
)

-- What inserting does to a valid rest of a plan behind `p`.
pub record Inserted (p : Option PollEntry) (xs ys : List PollEntry) : Type 0 where
  pub valid : entries_valid p ys ≡ true
  pub count : length ys ≡ suc (length xs)

empty_valid : (e : PollEntry) → entries_valid (some e) [] ≡ true
unfolding entries_valid
empty_valid e = refl

pub insert-valid :
    (p : Option PollEntry) (e : PollEntry) (xs ys : List PollEntry)
    → Sound e
    → after p e ≡ true
    → entries_valid p xs ≡ true
    → insert e xs ≡ some ys
    → Inserted p xs ys
unfolding insert
insert-valid p e [] ys v a h i =
    let y : e ∷ [] ≡ ys = ground arith in
    subst (λ z. Inserted p [] z) y
      (record { valid = cons-valid p e [] v a (empty_valid e); count = refl })
insert-valid p e (x ∷ xs) ys v a h i =
    let (w, b, r) = valid-cons p x xs h in
    go w b r (λ zs k c. insert-valid (some x) e xs zs v (cmp_entry_flip e x c) r k) (cmp_entry e x)
      refl i
  where
    go :
        Sound x
        → after p x ≡ true
        → entries_valid (some x) xs ≡ true
        → ((zs : List PollEntry)
            → insert e xs ≡ some zs
            → cmp_entry e x ≡ gt
            → Inserted (some x) xs zs)
        → (o : Ordering) → cmp_entry e x ≡ o
        → elim o [ eq ↦ none | lt ↦ some (e ∷ x ∷ xs) | gt ↦ (insert e xs >>= λ ys. some (x ∷ ys)) ]
          ≡ some ys
        → Inserted p (x ∷ xs) ys
    go w b r f lt c i =
        let y : e ∷ x ∷ xs ≡ ys = ground arith in
        let t : is_lt (cmp_entry e x) ≡ true = rw c refl in
        subst (λ z. Inserted p (x ∷ xs) z) y
          (record {
            valid = cons-valid p e (x ∷ xs) v a (cons-valid (some e) x xs w t r);
            count = refl;
          })
    go w b r f eq c i = absurd (ground arith)
    go w b r f gt c i =
        let (zs, k, q) = bind_some (insert e xs) _ _ i in
        let d = f zs k c in
        let y : x ∷ zs ≡ ys = ground arith in
        subst (λ z. Inserted p (x ∷ xs) z) y
          (record { valid = cons-valid p x zs w b d.valid; count = ap suc d.count })
