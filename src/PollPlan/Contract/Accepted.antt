-- ===== src/PollPlan/Contract/Accepted.antt =====
-- A body that is accepted gives a valid plan.
use mathlib.Core.Path.{subst}
use Prim.Native.Nat.{Ordering, lt, eq, gt}
use cardiag.Base.{
  List, Option, arith, if_both, if_split, if◌then◌else◌, inl, inr, leb, length, none, not, refl,
  some, suc, true, zero, ℕ, ◌<◌, ◌≡◌, ◌≤◌, ◌⊎◌, codes, All, ◌∷◌, ◌>>=◌, bind_some, [],
}
use cardiag.PollPlan.{poll_plan_max, PollEntry, entries_valid, plan_valid, Ordering, cmp_entry}
use cardiag.PollPlan.Json.{Eat, eat, left, JStr, jstr, JNum, ate, kept}
use cardiag.PollPlan.Json.Skip.{round, no_fuel}
use cardiag.PollPlan.Contract.{
  PlanError, Step, run, round_end, jint, key_is, Fields, within, entry_checks, check_entry, insert,
  add_entry, fields_of, one_entry, Body, entries_of, add_entries, entries_key, version_key, one_key,
  empty_body, keys_of, plan_of, contract, poll_plan_parse, not_an_object, invalid_type_version,
  unsupported_version, invalid_type_entries, invalid_type_entry, unknown_field, missing_field,
  duplicate_entry, plan_ok, plan_invalid, failed, more, last, no_fuel,
}
use cardiag.PollPlan.Contract.Sorted.{Sound, insert-valid}

-- What a step's value satisfies, when it has one.
abbrev Holds : {A : Type 0} → (A → Type 0) → Step A → Type 0
Holds P (failed e) = Unit
Holds P (more a r) = P a
Holds P (last a r) = P a
Holds P no_fuel = Unit

run-Holds :
    {A : Type 0} (P : A → Type 0) (round : A → List ℕ → Step A)
    → ((a : A) (s : List ℕ) → P a → Holds P (round a s))
    → (n : ℕ) (a : A) (s : List ℕ) → P a
    → Holds P (run round n a s)
unfolding run
run-Holds P round f zero a s h = tt
run-Holds {A = A} P round f (suc n) a s h =
    go (round a s) (f a s h) (λ b r k. run-Holds P round f n b r k)
  where
    go :
        (x : Step A)
        → Holds P x
        → ((b : A) (r : List ℕ) → P b → Holds P (run round n b r))
        → Holds P (elim x [
          | more b r ↦ run round n b r
          | last b r ↦ last b r
          | failed e ↦ failed e
          | no_fuel ↦ no_fuel
        ])
    go (more b r) k g = g b r k
    go (last b r) k g = k
    go (failed e) k g = tt
    go no_fuel k g = tt

round_end-Holds :
    {A : Type 0} (P : A → Type 0) (close : ℕ) (a : A) (s : List ℕ)
    → P a
    → Holds P (round_end close a s)
round_end-Holds P close a s h = go (eat b',' s)
  where
    go : (x : Eat) → Holds P (elim x [ ate r ↦ more a r | kept r ↦ last a (left (eat close r)) ])
    go (ate r) = h
    go (kept r) = h

-- A pid of one byte.
abbrev pub PidByte : PollEntry → Type 0
PidByte e = e.pid ≤ 255

-- The plan so far.
abbrev Plan : List PollEntry → Type 0
Plan out = (entries_valid none out ≡ true) × (length out ≤ poll_plan_max) × All PidByte out

-- An entry that passed the tests.
abbrev Right : PollEntry → Type 0
Right e = Sound e × PidByte e

insert-PidByte :
    (e : PollEntry) (out out' : List PollEntry)
    → PidByte e
    → All PidByte out
    → insert e out ≡ some out'
    → All PidByte out'
unfolding insert
insert-PidByte e [] out' b a i =
    let h : e ∷ [] ≡ out' = ground arith in subst (All PidByte) h (b, tt)
insert-PidByte e (x ∷ xs) out' b a i = go (λ ys k. insert-PidByte e xs ys b a.1 k) (cmp_entry e x) i
  where
    go :
        ((ys : List PollEntry) → insert e xs ≡ some ys → All PidByte ys)
        → (o : Ordering)
        → elim o [ eq ↦ none | lt ↦ some (e ∷ x ∷ xs) | gt ↦ (insert e xs >>= λ ys. some (x ∷ ys)) ]
          ≡ some out'
        → All PidByte out'
    go rest eq j = absurd (ground arith)
    go rest lt j = let h : e ∷ x ∷ xs ≡ out' = ground arith in subst (All PidByte) h (b, a)
    go rest gt j =
        let (ys, k, m) = bind_some (insert e xs) (λ ys. some (x ∷ ys)) out' j in
        let h : x ∷ ys ≡ out' = ground arith in subst (All PidByte) h (a.0, rest ys k)

entry_checks-Sound :
    (mode pid period : JNum) (e : PollEntry) → entry_checks mode pid period ≡ inl e → Right e
entry_checks-Sound mode pid period e h =
    (record { mode = ground arith; low = ground arith; high = ground arith }, ground arith)

check_entry-Sound : (fs : Fields) (e : PollEntry) → check_entry fs ≡ inl e → Right e
unfolding check_entry
check_entry-Sound fs e h = go fs.mode fs.pid fs.period h
  where
    go :
        (m p q : Option JNum)
        → elim m [
          | none ↦ inr missing_field
          | some mode ↦ elim p [
            | none ↦ inr missing_field
            | some pid ↦ elim q [
              | none ↦ inr missing_field
              | some period ↦ entry_checks mode pid period
            ]
          ]
        ]
          ≡ inl e
        → Right e
    go none p q h = absurd (ground arith)
    go (some m) none q h = absurd (ground arith)
    go (some m) (some p) none h = absurd (ground arith)
    go (some m) (some p) (some q) h = entry_checks-Sound m p q e h

inserted-Holds :
    (out : List PollEntry) (e : PollEntry) (r : List ℕ) (o : Option (List PollEntry))
    → insert e out ≡ o
    → Right e
    → Plan out
    → length out < poll_plan_max
    → Holds Plan (elim o [ none ↦ failed duplicate_entry | some out' ↦ round_end b']' out' r ])
inserted-Holds out e r none i v h l = tt
inserted-Holds out e r (some out') i v h l =
    let w = insert-valid none e out out' v.0 refl h.0 i in
    let c = w.count in
    let b = insert-PidByte e out out' v.1 h.2 i in
    round_end-Holds Plan b']' out' r (w.valid, omega arith, b)

add_entry-Holds :
    (out : List PollEntry) (x : Step Fields)
    → Plan out
    → length out < poll_plan_max
    → Holds Plan (add_entry out x)
add_entry-Holds out (failed e) h l = tt
add_entry-Holds out no_fuel h l = tt
add_entry-Holds out (more fs r) h l = tt
add_entry-Holds out (last fs r) h l = go (check_entry fs) refl
  where
    go :
        (x : PollEntry ⊎ PlanError)
        → check_entry fs ≡ x
        → Holds Plan (elim x [
          | inr e ↦ failed e
          | inl e ↦ elim (insert e out) [
            | none ↦ failed duplicate_entry
            | some out' ↦ round_end b']' out' r
          ]
        ])
    go (inr e) c = tt
    go (inl e) c = inserted-Holds out e r (insert e out) refl (check_entry-Sound fs e c) h l

one_entry-Holds : (out : List PollEntry) (s : List ℕ) → Plan out → Holds Plan (one_entry out s)
unfolding one_entry
one_entry-Holds out s h =
    if_split (Holds Plan) (leb poll_plan_max (length out)) (λ l. tt)
      (λ l. go (eat b'{' s) (ground arith))
  where
    go :
        (x : Eat)
        → length out < poll_plan_max
        → Holds Plan (elim x [
          | kept r ↦ failed invalid_type_entry
          | ate r ↦ add_entry out (fields_of (eat b'}' r))
        ])
    go (kept r) l = tt
    go (ate r) l = add_entry-Holds out (fields_of (eat b'}' r)) h l

-- The body so far.
abbrev Good : Body → Type 0
Good b = Plan b.out

add_entries-Holds :
    (b : Body) (x : Step (List PollEntry)) → Holds Plan x → Holds Good (add_entries b x)
add_entries-Holds b (failed e) h = tt
add_entries-Holds b no_fuel h = tt
add_entries-Holds b (more out r) h = tt
add_entries-Holds b (last out r) h =
    round_end-Holds Good b'}' (record b { has_entries = true; out = out }) r h

entries_of-Holds : (out : List PollEntry) (x : Eat) → Plan out → Holds Plan (entries_of out x)
entries_of-Holds out (ate r) h = h
entries_of-Holds out (kept r) h = run-Holds Plan one_entry one_entry-Holds (suc (length r)) out r h

entries_key-Holds : (b : Body) (s : List ℕ) → Good b → Holds Good (entries_key b s)
entries_key-Holds b s h = go (eat b'[' s)
  where
    go :
        (x : Eat)
        → Holds Good (elim x [
          | kept r ↦ failed invalid_type_entries
          | ate r ↦ add_entries b (entries_of b.out (eat b']' r))
        ])
    go (kept r) = tt
    go (ate r) =
        add_entries-Holds b (entries_of b.out (eat b']' r)) (entries_of-Holds b.out (eat b']' r) h)

version_key-Holds : (b : Body) (s : List ℕ) → Good b → Holds Good (version_key b s)
version_key-Holds b s h = go (jint s)
  where
    go :
        (x : Option JNum)
        → Holds Good (elim x [
          | none ↦ failed invalid_type_version
          | some v ↦
              if not (within v 1 1)
              then failed unsupported_version
              else round_end b'}' (record b { has_version = true }) v.rest
        ])
    go none = tt
    go (some v) =
        if_both (Holds Good) (not (within v 1 1)) tt
          (round_end-Holds Good b'}' (record b { has_version = true }) v.rest h)

one_key-Holds : (b : Body) (s : List ℕ) → Good b → Holds Good (one_key b s)
unfolding one_key
one_key-Holds b s h = go (jstr 16 s)
  where
    go :
        (x : Option JStr)
        → Holds Good (elim x [
          | none ↦ failed unknown_field
          | some k ↦
              let r = left (eat b':' k.rest) in
              if key_is k (codes "version")
              then version_key b r
              else if key_is k (codes "entries")
              then entries_key b r
              else failed unknown_field
        ])
    go none = tt
    go (some k) =
        let r = left (eat b':' k.rest) in
        if_both (Holds Good) (key_is k (codes "version")) (version_key-Holds b r h)
          (if_both (Holds Good) (key_is k (codes "entries")) (entries_key-Holds b r h) tt)

keys_of-Holds : (x : Eat) → Holds Good (keys_of x)
unfolding entries_valid
keys_of-Holds (ate r) = (refl, omega arith, tt)
keys_of-Holds (kept r) =
    run-Holds Good one_key one_key-Holds (suc (length r)) empty_body r (refl, omega arith, tt)

plan_of-valid : (x : Step Body) (p : List PollEntry) → Holds Good x → plan_of x ≡ plan_ok p → Plan p
plan_of-valid (failed e) p h i = absurd (ground arith)
plan_of-valid no_fuel p h i = absurd (ground arith)
plan_of-valid (more b r) p h i = absurd (ground arith)
plan_of-valid (last b r) p h i = let e : b.out ≡ p = ground arith in subst Plan e h

contract-valid : (s : List ℕ) (p : List PollEntry) → contract s ≡ plan_ok p → Plan p
unfolding contract
contract-valid s p h = go (eat b'{' s) h
  where
    go :
        (x : Eat)
        → elim x [ kept r ↦ plan_invalid not_an_object | ate r ↦ plan_of (keys_of (eat b'}' r)) ]
          ≡ plan_ok p
        → Plan p
    go (kept r) i = absurd (ground arith)
    go (ate r) i = plan_of-valid (keys_of (eat b'}' r)) p (keys_of-Holds (eat b'}' r)) i

-- A body that the parser accepts gives a plan that the rest of the logger accepts: at most 32
-- entries of mode 1, sorted and each once, with periods in range; and every pid is at most 255.
pub poll_plan_parse-plan_valid :
    (s : List ℕ) (p : List PollEntry)
    → poll_plan_parse s ≡ plan_ok p
    → (plan_valid p ≡ true) × All PidByte p
unfolding poll_plan_parse plan_valid
poll_plan_parse-plan_valid s p h =
    let (v, l, b) = contract-valid s p (ground arith) in (ground arith, b)
