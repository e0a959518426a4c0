-- ===== src/PollPlan/Json/Ends.antt =====
-- The syntax walk ends: its fuel is enough for every text.
use cardiag.Base.{
  List, Option, [], arith, if_both, length, length-drop, ltb, none, refl, some, suc, take, zero, ℕ,
  ◌*◌, ◌+◌, ◌<◌, ◌>>=◌, ◌∷◌, ◌≡◌, ◌≤◌, same, codes,
}
use cardiag.PollPlan.Json.{ws, Eat, eat, JStr, jstr, jnum, jlit, ate, kept}
use cardiag.PollPlan.Json.Skip.{
  Part, Skip, Kind, kind_of, of_option, scalar, Start, open_with, start_kind, start_first, close_of,
  Next, next_of, key_of, skip_json, fuel_for, value, members, elements, skipped, malformed, no_fuel,
  k_string, k_true, k_false, k_null, k_object, k_array, k_number, now, inside, again, closed,
  broken, begin, follow, round, finish,
}
use cardiag.PollPlan.Json.Total.{
  EatBounds, eat-bounds, Shorter, str_rest, num_rest, jstr-Shorter, jnum-Shorter, ws_le,
}

-- A walk that did not run out of fuel, and went back nowhere.
abbrev pub Ended : List ℕ → Skip → Type 0
Ended s (skipped r) = length r ≤ length s
Ended s malformed = Unit
Ended s no_fuel = ⊥

Ended-weaken : (s t : List ℕ) (x : Skip) → length s ≤ length t → Ended s x → Ended t x
Ended-weaken s t (skipped r) h e = omega arith
Ended-weaken s t malformed h e = tt
Ended-weaken s t no_fuel h e = e

jlit_le : (lit s : List ℕ) → Ended s (of_option (jlit lit s))
unfolding jlit
jlit_le lit s =
    if_both (λ o. Ended s (of_option o)) (same (take (length lit) (ws s)) lit)
      (omega (arith, length-drop (length lit) (ws s), ws_le s)) tt

rest_Ended {ℓ} :
    {A : Type ℓ} (rest : A → List ℕ) (s : List ℕ) (o : Option A)
    → Shorter rest s o
    → Ended s (of_option (o >>= λ k. some (rest k)))
rest_Ended rest s none h = tt
rest_Ended rest s (some k) h = omega arith

scalar-Ended : (k : Kind) (s : List ℕ) → Ended s (scalar k s)
scalar-Ended k_string s = rest_Ended str_rest s (jstr 0 s) (jstr-Shorter 0 s)
scalar-Ended k_true s = jlit_le (codes "true") s
scalar-Ended k_false s = jlit_le (codes "false") s
scalar-Ended k_null s = jlit_le (codes "null") s
scalar-Ended k_object s = rest_Ended num_rest s (jnum s) (jnum-Shorter s)
scalar-Ended k_array s = rest_Ended num_rest s (jnum s) (jnum-Shorter s)
scalar-Ended k_number s = rest_Ended num_rest s (jnum s) (jnum-Shorter s)

abbrev StartBounds : List ℕ → Start → Type 0
StartBounds s (now x) = Ended s x
StartBounds s (inside part r) = length r < length s

open_with-bounds :
    (close : ℕ) (part : Part) (depth c : ℕ) (s : List ℕ)
    → StartBounds (c ∷ s) (open_with close part depth s)
open_with-bounds close part depth c s =
    if_both (StartBounds (c ∷ s)) (ltb 16 (depth + 1)) tt (go (eat close s) (eat-bounds close s))
  where
    go :
        (x : Eat)
        → EatBounds s x
        → StartBounds (c ∷ s) (elim x [ ate r ↦ now (skipped r) | kept r ↦ inside part r ])
    go (ate r) h = omega arith
    go (kept r) h = omega arith

start_kind-bounds :
    (k : Kind) (depth c : ℕ) (s : List ℕ) → StartBounds (c ∷ s) (start_kind k depth c s)
start_kind-bounds k_object depth c s = open_with-bounds b'}' members depth c s
start_kind-bounds k_array depth c s = open_with-bounds b']' elements depth c s
start_kind-bounds k_string depth c s = scalar-Ended k_string (c ∷ s)
start_kind-bounds k_true depth c s = scalar-Ended k_true (c ∷ s)
start_kind-bounds k_false depth c s = scalar-Ended k_false (c ∷ s)
start_kind-bounds k_null depth c s = scalar-Ended k_null (c ∷ s)
start_kind-bounds k_number depth c s = scalar-Ended k_number (c ∷ s)

start_first-bounds : (depth : ℕ) (s : List ℕ) → StartBounds s (start_first depth s)
start_first-bounds depth [] = tt
start_first-bounds depth (c ∷ s) = start_kind-bounds (kind_of c) depth c s

colon_le :
    (s : List ℕ) (o : Option JStr)
    → Shorter str_rest s o
    → (r : List ℕ) → (o >>= λ k. elim (eat b':' k.rest) [ ate r ↦ some r | kept r ↦ none ]) ≡ some r
    → length r ≤ length s
colon_le s none b r h = absurd (ground arith)
colon_le s (some k) b r h = go (eat b':' k.rest) (eat-bounds b':' k.rest) h
  where
    go :
        (x : Eat)
        → EatBounds k.rest x
        → elim x [ ate r ↦ some r | kept r ↦ none ] ≡ some r
        → length r ≤ length s
    go (ate q) e h = ground arith
    go (kept q) e h = absurd (ground arith)

key_le : (part : Part) (s r : List ℕ) → key_of part s ≡ some r → length r ≤ length s
key_le value s r h = ground arith
key_le elements s r h = ground arith
key_le members s r h = colon_le s (jstr 0 s) (jstr-Shorter 0 s) r h

abbrev NextBounds : List ℕ → Next → Type 0
NextBounds s (again r) = length r < length s
NextBounds s (closed r) = length r ≤ length s
NextBounds s broken = Unit

next_of-bounds : (part : Part) (s : List ℕ) → NextBounds s (next_of part s)
next_of-bounds part s = go (eat b',' s) (eat-bounds b',' s)
  where
    inner :
        (r : List ℕ) (x : Eat)
        → length r ≤ length s
        → EatBounds r x
        → NextBounds s (elim x [ ate q ↦ closed q | kept q ↦ broken ])
    inner r (ate q) h e = omega arith
    inner r (kept q) h e = tt

    go :
        (x : Eat)
        → EatBounds s x
        → NextBounds s (elim x [
          | ate r ↦ again r
          | kept r ↦ elim (eat (close_of part) r) [ ate q ↦ closed q | kept q ↦ broken ]
        ])
    go (ate r) h = h
    go (kept r) h = inner r (eat (close_of part) r) h (eat-bounds (close_of part) r)

-- A value inside an array starts where its array's inside does, so it takes a round more.
abbrev pub weight : Part → ℕ
weight value = 0
weight _ = 1

weight_le : (part : Part) → weight part ≤ 1
weight_le value = omega arith
weight_le members = omega arith
weight_le elements = omega arith

begin-Ended :
    (s : List ℕ) (x : Start) (walk : Part → List ℕ → Skip)
    → StartBounds s x
    → ((part : Part) (r : List ℕ) → length r < length s → Ended r (walk part r))
    → Ended s (begin x walk)
begin-Ended s (now x) walk b f = b
begin-Ended s (inside part r) walk b f = Ended-weaken r s (walk part r) (omega arith) (f part r b)

follow-Ended :
    (s r : List ℕ) (part : Part) (x : Skip) (more : List ℕ → Skip)
    → length r ≤ length s
    → Ended r x
    → ((q : List ℕ) → length q < length s → Ended q (more q))
    → Ended s (follow part x more)
follow-Ended s r part malformed more l e f = tt
follow-Ended s r part no_fuel more l e f = e
follow-Ended s r part (skipped r') more l e f = go (next_of part r') (next_of-bounds part r')
  where
    go : (x : Next) → NextBounds r' x → Ended s (finish x more)
    go (again q) h = Ended-weaken q s (more q) (omega arith) (f q (omega arith))
    go (closed q) h = omega arith
    go broken h = tt

round-Ended :
    (s : List ℕ) (part : Part) (walk more : List ℕ → Skip)
    → ((r : List ℕ) → length r ≤ length s → Ended r (walk r))
    → ((q : List ℕ) → length q < length s → Ended q (more q))
    → Ended s (round part (key_of part s) walk more)
round-Ended s part walk more f g = go (key_of part s) (λ r h. key_le part s r h)
  where
    go :
        (o : Option (List ℕ))
        → ((r : List ℕ) → o ≡ some r → length r ≤ length s)
        → Ended s (round part o walk more)
    go none h = tt
    go (some r) h = follow-Ended s r part (walk r) more (h r refl) (f r (h r refl)) g

skip_json-Ended :
    (n : ℕ) (part : Part) (depth : ℕ) (s : List ℕ)
    → weight part + 2 * length s < n
    → Ended s (skip_json n part depth s)
unfolding skip_json
skip_json-Ended zero part depth s h = absurd (omega arith)
skip_json-Ended (suc n) value depth s h =
    let walk = λ (part : Part) (r : List ℕ). skip_json n part (depth + 1) r in
    let shorter = ws_le s in
    Ended-weaken (ws s) s (begin (start_first depth (ws s)) walk) shorter (
      begin-Ended (ws s) (start_first depth (ws s)) walk (start_first-bounds depth (ws s))
        (λ part r l. let w = weight_le part in skip_json-Ended n part (depth + 1) r (omega arith)))
skip_json-Ended (suc n) members depth s h =
    round-Ended s members (λ r. skip_json n value depth r) (λ q. skip_json n members depth q)
      (λ r l. skip_json-Ended n value depth r (omega arith))
      (λ q l. skip_json-Ended n members depth q (omega arith))
skip_json-Ended (suc n) elements depth s h =
    round-Ended s elements (λ r. skip_json n value depth r) (λ q. skip_json n elements depth q)
      (λ r l. skip_json-Ended n value depth r (omega arith))
      (λ q l. skip_json-Ended n elements depth q (omega arith))

-- The syntax walk of any text ends with the fuel that the parser gives it, and what it leaves is no
-- longer than the text.
pub skip_json-fuel_for : (s : List ℕ) → Ended s (skip_json (fuel_for s) value 0 s)
skip_json-fuel_for s = skip_json-Ended (fuel_for s) value 0 s (omega arith)
