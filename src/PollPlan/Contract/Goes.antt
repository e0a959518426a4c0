-- ===== src/PollPlan/Contract/Goes.antt =====
-- A round of the parser that goes on shortens the text, and a loop of such rounds ends.
use cardiag.Base.{
  List, Option, arith, if_both, if◌then◌else◌, length, none, some, suc, zero, ℕ, ◌<◌, ◌>>=◌, ◌≤◌,
}
use cardiag.PollPlan.Json.{Eat, eat, left, JNum, jnum, ate, kept}
use cardiag.PollPlan.Json.Total.{EatBounds, eat-bounds, Shorter, num_rest, jnum-Shorter}
use cardiag.PollPlan.Contract.{
  Step, run, round_end, jint, failed, more, last, no_fuel, Field, Fields, field_value, invalid_type,
  put, duplicate_field, seen,
}

-- A round that did not run out of fuel, and went on.
abbrev pub Goes : {A : Type 0} → List ℕ → Step A → Type 0
Goes s (failed e) = Unit
Goes s (more a r) = length r < length s
Goes s (last a r) = length r ≤ length s
Goes s no_fuel = ⊥

-- A loop that came to its end.
abbrev pub Done : {A : Type 0} → List ℕ → Step A → Type 0
Done s (failed e) = Unit
Done s (more a r) = ⊥
Done s (last a r) = length r ≤ length s
Done s no_fuel = ⊥

pub Done-weaken :
    {A : Type 0} (s t : List ℕ) (x : Step A) → length s ≤ length t → Done s x → Done t x
Done-weaken s t (failed e) l h = tt
Done-weaken s t (more a r) l h = h
Done-weaken s t (last a r) l h = omega arith
Done-weaken s t no_fuel l h = h

pub run-Done :
    {A : Type 0} (step : A → List ℕ → Step A)
    → ((a : A) (s : List ℕ) → Goes s (step a s))
    → (n : ℕ) (a : A) (s : List ℕ) → length s < n
    → Done s (run step n a s)
unfolding run
run-Done step f zero a s h = absurd (omega arith)
run-Done {A = A} step f (suc n) a s h = go (step a s) (f a s) (λ b r l. run-Done step f n b r l)
  where
    go :
        (x : Step A)
        → Goes s x
        → ((b : A) (r : List ℕ) → length r < n → Done r (run step n b r))
        → Done s (elim x [
          | more b r ↦ run step n b r
          | last b r ↦ last b r
          | failed e ↦ failed e
          | no_fuel ↦ no_fuel
        ])
    go (more b r) k g = Done-weaken r s (run step n b r) (omega arith) (g b r (omega arith))
    go (last b r) k g = k
    go (failed e) k g = tt
    go no_fuel k g = k

pub left_le : (ch : ℕ) (s : List ℕ) → length (left (eat ch s)) ≤ length s
left_le ch s = go (eat ch s) (eat-bounds ch s)
  where
    go : (x : Eat) → EatBounds s x → length (left x) ≤ length s
    go (ate r) h = omega arith
    go (kept r) h = h

pub round_end-Goes :
    {A : Type 0} (close : ℕ) (a : A) (s t : List ℕ)
    → length s ≤ length t
    → Goes t (round_end close a s)
round_end-Goes close a s t l = go (eat b',' s) (eat-bounds b',' s)
  where
    go :
        (x : Eat)
        → EatBounds s x
        → Goes t (elim x [ ate r ↦ more a r | kept r ↦ last a (left (eat close r)) ])
    go (ate r) h = omega arith
    go (kept r) h = omega (arith, left_le close r)

pub jint-Shorter : (s : List ℕ) → Shorter num_rest s (jint s)
jint-Shorter s = go (jnum s) (jnum-Shorter s)
  where
    go :
        (o : Option JNum)
        → Shorter num_rest s o
        → Shorter num_rest s (o >>= λ k. if k.integer then some k else none)
    go none h = tt
    go (some k) h = if_both (Shorter num_rest s) k.integer h tt

pub field_value-Goes :
    (f : Field) (fs : Fields) (s t : List ℕ) → length s ≤ length t → Goes t (field_value f fs s)
field_value-Goes f fs s t l = outer (seen f fs)
  where
    inner :
        (o : Option JNum)
        → Shorter num_rest s o
        → Goes t
            (elim o [ none ↦ failed invalid_type | some v ↦ round_end b'}' (put f v fs) v.rest ])
    inner none h = tt
    inner (some v) h = round_end-Goes b'}' (put f v fs) v.rest t (omega arith)

    outer :
        (o : Option JNum)
        → Goes t (elim o [
          | some v ↦ failed duplicate_field
          | none ↦ elim (jint s) [
            | none ↦ failed invalid_type
            | some v ↦ round_end b'}' (put f v fs) v.rest
          ]
        ])
    outer (some v) = tt
    outer none = inner (jint s) (jint-Shorter s)
