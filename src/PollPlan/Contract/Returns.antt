-- ===== src/PollPlan/Contract/Returns.antt =====
-- The parser of a plan always comes to an end.
use cardiag.Base.{
  List, Option, arith, if_both, if◌then◌else◌, length, none, some, suc, ℕ, ◌<◌, ◌≤◌, ◌≢◌, true, leb,
  not, ltb, codes, ◌⊎◌, inr, inl,
}
use cardiag.PollPlan.Json.{Eat, eat, left, JNum, ate, kept}
use cardiag.PollPlan.Json.Total.{EatBounds, eat-bounds, Shorter, num_rest, str_rest, jstr-Shorter}
use cardiag.PollPlan.Contract.{
  Step, round_end, jint, failed, more, last, no_fuel, Field, one_field, fields_of, PollEntry,
  one_entry, Body, one_key, keys_of, contract, poll_plan_parse, Fields, looped, invalid_type_entry,
  entries_of, add_entries, entries_key, version_key, JStr, plan_of, field_value, unknown_field,
  no_fields, add_entry, invalid_type_entries, invalid_type_version, empty_body, plan_no_fuel,
  field_of, duplicate_entry, key_is, plan_invalid, jstr, poll_plan_max, within, not_an_object,
  poll_json_max, PlanError, unsupported_version, well_formed, insert, check_entry,
}
use cardiag.PollPlan.Contract.Goes.{
  Goes, Done, Done-weaken, run-Done, left_le, round_end-Goes, jint-Shorter, field_value-Goes,
}

one_field-Goes : (fs : Fields) (s : List ℕ) → Goes s (one_field fs s)
unfolding one_field
one_field-Goes fs s = go (jstr 16 s) (jstr-Shorter 16 s)
  where
    inner :
        (k : JStr) (o : Option Field)
        → length k.rest < length s
        → Goes s (elim o [
          | none ↦ failed unknown_field
          | some f ↦ field_value f fs (left (eat b':' k.rest))
        ])
    inner k none h = tt
    inner k (some f) h =
        field_value-Goes f fs (left (eat b':' k.rest)) s (omega (arith, left_le b':' k.rest))

    go :
        (o : Option JStr)
        → Shorter str_rest s o
        → Goes s (elim o [
          | none ↦ failed unknown_field
          | some k ↦ elim (field_of k) [
            | none ↦ failed unknown_field
            | some f ↦ field_value f fs (left (eat b':' k.rest))
          ]
        ])
    go none h = tt
    go (some k) h = inner k (field_of k) h

fields_of-Done : (s : List ℕ) (x : Eat) → EatBounds s x → Done s (fields_of x)
fields_of-Done s (ate r) h = omega arith
fields_of-Done s (kept r) h =
    Done-weaken r s (looped one_field no_fields r) h
      (run-Done one_field one_field-Goes (suc (length r)) no_fields r (omega arith))

add_entry-Goes :
    (out : List PollEntry) (s t : List ℕ) (x : Step Fields)
    → length s ≤ length t
    → Done s x
    → Goes t (add_entry out x)
add_entry-Goes out s t (failed e) l h = tt
add_entry-Goes out s t no_fuel l h = h
add_entry-Goes out s t (more fs r) l h = absurd h
add_entry-Goes out s t (last fs r) l h = outer (check_entry fs)
  where
    inner :
        (o : Option (List PollEntry))
        → Goes t (elim o [ none ↦ failed duplicate_entry | some out' ↦ round_end b']' out' r ])
    inner none = tt
    inner (some out') = round_end-Goes b']' out' r t (omega arith)

    outer :
        (x : PollEntry ⊎ PlanError)
        → Goes t (elim x [
          | inr e ↦ failed e
          | inl e ↦ elim (insert e out) [
            | none ↦ failed duplicate_entry
            | some out' ↦ round_end b']' out' r
          ]
        ])
    outer (inr e) = tt
    outer (inl e) = inner (insert e out)

one_entry-Goes : (out : List PollEntry) (s : List ℕ) → Goes s (one_entry out s)
unfolding one_entry
one_entry-Goes out s =
    if_both (Goes s) (leb poll_plan_max (length out)) tt (go (eat b'{' s) (eat-bounds b'{' s))
  where
    go :
        (x : Eat)
        → EatBounds s x
        → Goes s (elim x [
          | kept r ↦ failed invalid_type_entry
          | ate r ↦ add_entry out (fields_of (eat b'}' r))
        ])
    go (kept r) h = tt
    go (ate r) h =
        add_entry-Goes out r s (fields_of (eat b'}' r)) (omega arith)
          (fields_of-Done r (eat b'}' r) (eat-bounds b'}' r))

entries_of-Done :
    (out : List PollEntry) (s : List ℕ) (x : Eat) → EatBounds s x → Done s (entries_of out x)
entries_of-Done out s (ate r) h = omega arith
entries_of-Done out s (kept r) h =
    Done-weaken r s (looped one_entry out r) h
      (run-Done one_entry one_entry-Goes (suc (length r)) out r (omega arith))

add_entries-Goes :
    (b : Body) (s t : List ℕ) (x : Step (List PollEntry))
    → length s ≤ length t
    → Done s x
    → Goes t (add_entries b x)
add_entries-Goes b s t (failed e) l h = tt
add_entries-Goes b s t no_fuel l h = h
add_entries-Goes b s t (more out r) l h = absurd h
add_entries-Goes b s t (last out r) l h =
    round_end-Goes b'}' (record b { has_entries = true; out = out }) r t (omega arith)

entries_key-Goes : (b : Body) (s t : List ℕ) → length s ≤ length t → Goes t (entries_key b s)
entries_key-Goes b s t l = go (eat b'[' s) (eat-bounds b'[' s)
  where
    go :
        (x : Eat)
        → EatBounds s x
        → Goes t (elim x [
          | kept r ↦ failed invalid_type_entries
          | ate r ↦ add_entries b (entries_of b.out (eat b']' r))
        ])
    go (kept r) h = tt
    go (ate r) h =
        add_entries-Goes b r t (entries_of b.out (eat b']' r)) (omega arith)
          (entries_of-Done b.out r (eat b']' r) (eat-bounds b']' r))

version_key-Goes : (b : Body) (s t : List ℕ) → length s ≤ length t → Goes t (version_key b s)
version_key-Goes b s t l = go (jint s) (jint-Shorter s)
  where
    go :
        (o : Option JNum)
        → Shorter num_rest s o
        → Goes t (elim o [
          | none ↦ failed invalid_type_version
          | some v ↦
              if not (within v 1 1)
              then failed unsupported_version
              else round_end b'}' (record b { has_version = true }) v.rest
        ])
    go none h = tt
    go (some v) h =
        if_both (Goes t) (not (within v 1 1)) tt
          (round_end-Goes b'}' (record b { has_version = true }) v.rest t (omega arith))

one_key-Goes : (b : Body) (s : List ℕ) → Goes s (one_key b s)
unfolding one_key
one_key-Goes b s = go (jstr 16 s) (jstr-Shorter 16 s)
  where
    go :
        (o : Option JStr)
        → Shorter str_rest s o
        → Goes s (elim o [
          | none ↦ failed unknown_field
          | some k ↦
              let r = left (eat b':' k.rest) in
              if key_is k (codes "version")
              then version_key b r
              else if key_is k (codes "entries")
              then entries_key b r
              else failed unknown_field
        ])
    go none h = tt
    go (some k) h =
        let r = left (eat b':' k.rest) in
        let l : length r ≤ length s = omega (arith, left_le b':' k.rest) in
        if_both (Goes s) (key_is k (codes "version")) (version_key-Goes b r s l)
          (if_both (Goes s) (key_is k (codes "entries")) (entries_key-Goes b r s l) tt)

keys_of-Done : (s : List ℕ) (x : Eat) → EatBounds s x → Done s (keys_of x)
keys_of-Done s (ate r) h = omega arith
keys_of-Done s (kept r) h =
    Done-weaken r s (looped one_key empty_body r) h
      (run-Done one_key one_key-Goes (suc (length r)) empty_body r (omega arith))

plan_of-returns : (s : List ℕ) (x : Step Body) → Done s x → plan_of x ≢ plan_no_fuel
plan_of-returns s (failed e) h = ground arith
plan_of-returns s no_fuel h = absurd h
plan_of-returns s (more b r) h = absurd h
plan_of-returns s (last b r) h = ground arith

contract-returns : (s : List ℕ) → contract s ≢ plan_no_fuel
unfolding contract
contract-returns s = go (eat b'{' s)
  where
    go :
        (x : Eat)
        → elim x [ kept r ↦ plan_invalid not_an_object | ate r ↦ plan_of (keys_of (eat b'}' r)) ]
          ≢ plan_no_fuel
    go (kept r) = ground arith
    go (ate r) =
        plan_of-returns r (keys_of (eat b'}' r)) (keys_of-Done r (eat b'}' r) (eat-bounds b'}' r))

-- The parser comes to a result for every body: a plan, or one of its errors; none of its loops runs
-- out of fuel.
pub poll_plan_parse-returns : (s : List ℕ) → poll_plan_parse s ≢ plan_no_fuel
unfolding poll_plan_parse
poll_plan_parse-returns s =
    let c = contract-returns s in
    if_both (λ x. x ≢ plan_no_fuel) (ltb poll_json_max (length s)) (ground arith)
      (if_both (λ x. x ≢ plan_no_fuel) (not (well_formed s)) (ground arith) c)
