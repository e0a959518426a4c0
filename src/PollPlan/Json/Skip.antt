-- ===== src/PollPlan/Json/Skip.antt =====
-- `jskip` of firmware/src/pollplan.cpp: the syntax of any JSON value.
use cardiag.Base.{
  Bool, List, Option, [], false, if◌then◌else◌, length, ltb, none, some, suc, zero, ℕ, ◌*◌, ◌+◌,
  ◌==◌, ◌>>=◌, ◌∷◌, codes,
}
use cardiag.PollPlan.Json.{ws, eat, jstr, jnum, jlit, ate, kept}

-- What follows is a value, the members of an object or the elements of an array.
pub data Part : Type 0 where
  value members elements : Part

pub data Skip : Type 0 where
  skipped : List ℕ → Skip
  malformed no_fuel : Skip

-- The case of the switch on the first byte.
pub data Kind : Type 0 where
  k_string k_true k_false k_null k_object k_array k_number : Kind

abbrev pub kind_of : ℕ → Kind
kind_of c =
    if c == b'"'
    then k_string
    else if c == b't'
    then k_true
    else if c == b'f'
    then k_false
    else if c == b'n'
    then k_null
    else if c == b'{'
    then k_object
    else if c == b'['
    then k_array
    else k_number

-- The end of a scalar.
abbrev pub of_option : Option (List ℕ) → Skip
of_option none = malformed
of_option (some r) = skipped r

abbrev pub scalar : Kind → List ℕ → Skip
scalar k_string s = of_option (jstr 0 s >>= λ k. some k.rest)
scalar k_true s = of_option (jlit (codes "true") s)
scalar k_false s = of_option (jlit (codes "false") s)
scalar k_null s = of_option (jlit (codes "null") s)
scalar _ s = of_option (jnum s >>= λ k. some k.rest)

-- What `jskip` starts with: a scalar, or the inside of an object or an array.
pub data Start : Type 0 where
  now : Skip → Start
  inside : Part → List ℕ → Start

abbrev pub open_with : ℕ → Part → ℕ → List ℕ → Start
open_with close part depth s =
    if ltb 16 (depth + 1)
    then now malformed
    else elim (eat close s) [ ate r ↦ now (skipped r) | kept r ↦ inside part r ]

abbrev pub start_kind : Kind → ℕ → ℕ → List ℕ → Start
start_kind k_object depth c s = open_with b'}' members depth s
start_kind k_array depth c s = open_with b']' elements depth s
start_kind k depth c s = now (scalar k (c ∷ s))

abbrev pub start_first : ℕ → List ℕ → Start
start_first depth [] = now malformed
start_first depth (c ∷ s) = start_kind (kind_of c) depth c s

-- After a member or an element: another one, the end, or neither.
abbrev pub close_of : Part → ℕ
close_of members = b'}'
close_of _ = b']'

pub data Next : Type 0 where
  again closed : List ℕ → Next
  broken : Next

abbrev pub next_of : Part → List ℕ → Next
next_of part s = elim (eat b',' s) [
  | ate r ↦ again r
  | kept r ↦ elim (eat (close_of part) r) [ ate q ↦ closed q | kept q ↦ broken ]
]

-- The key of a member and its colon; an element has none.
abbrev pub key_of : Part → List ℕ → Option (List ℕ)
key_of members s = (jstr 0 s >>= λ k. elim (eat b':' k.rest) [ ate r ↦ some r | kept r ↦ none ])
key_of _ s = some s

-- `jskip`, with the walk of what is inside an object or an array.
abbrev pub begin : Start → (Part → List ℕ → Skip) → Skip
begin (now x) walk = x
begin (inside part r) walk = walk part r

-- One round of the loops in `jskip`, with the walk of the value and of the rounds that follow.
abbrev pub finish : Next → (List ℕ → Skip) → Skip
finish (again q) more = more q
finish (closed q) more = skipped q
finish broken more = malformed

abbrev pub follow : Part → Skip → (List ℕ → Skip) → Skip
follow part malformed more = malformed
follow part no_fuel more = no_fuel
follow part (skipped r) more = finish (next_of part r) more

abbrev pub round : Part → Option (List ℕ) → (List ℕ → Skip) → (List ℕ → Skip) → Skip
round part none walk more = malformed
round part (some r) walk more = follow part (walk r) more

-- `jskip` and the loops in it. Each round goes one byte on at least, and a value inside an array
-- takes a round more: twice the bytes, and one, is fuel enough.
unfoldable pub skip_json : ℕ → Part → ℕ → List ℕ → Skip
skip_json zero part depth s = no_fuel
skip_json (suc n) value depth s =
    begin (start_first depth (ws s)) (λ part r. skip_json n part (depth + 1) r)
skip_json (suc n) part depth s =
    round part (key_of part s) (λ r. skip_json n value depth r) (λ q. skip_json n part depth q)

abbrev pub fuel_for : List ℕ → ℕ
fuel_for s = 2 * length s + 1

-- Whether a whole body is one well-formed value.
abbrev pub all_read : Skip → Bool
all_read (skipped r) = length (ws r) == 0
all_read _ = false

unfoldable pub well_formed : List ℕ → Bool
well_formed s = all_read (skip_json (fuel_for s) value 0 s)
