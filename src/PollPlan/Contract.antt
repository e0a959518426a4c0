-- ===== src/PollPlan/Contract.antt =====
-- `pollPlanParse` of firmware/src/pollplan.cpp: the one shape of a body that the contract allows.
pub mod Sorted
pub mod Accepted
pub mod Goes
pub mod Returns
use Prim.Native.Nat.{Ordering, lt, eq, gt}
use cardiag.Base.{
  Bool, List, Option, [], false, if◌then◌else◌, inl, inr, leb, length, ltb, none, not, some, suc,
  true, zero, ℕ, ◌&&◌, ◌>>=◌, ◌||◌, ◌∷◌, ◌⊎◌, same, codes,
}
use cardiag.PollPlan.{
  poll_plan_max, poll_period_min_ms, poll_period_max_ms, PollEntry, cmp_entry, is_lt, after,
  entries_valid, plan_valid,
}
use cardiag.PollPlan.Json.{
  ws, Eat, eat_first, eat, left, is_digit, is_hex, StrAt, JStr, StrStep, is_escape, str_step,
  str_loop, jstr, skip_digits, digits_value, some_digits, JNum, sign, whole, fraction, skip_sign,
  exponent, jnum, jlit, ate, kept, in_text, in_escape, in_hex, str_more, str_end, str_bad,
}
use cardiag.PollPlan.Json.Skip.{
  Part, Skip, Kind, kind_of, of_option, scalar, Start, open_with, start_kind, start_first, close_of,
  Next, next_of, key_of, begin, finish, follow, round, skip_json, fuel_for, all_read, well_formed,
  value, members, elements, skipped, malformed, k_string, k_true, k_false, k_null, k_object,
  k_array, k_number, now, inside, again, closed, broken,
}

-- The texts of the POLLPLAN_INVALID results.
pub data PlanError : Type 0 where
  not_an_object invalid_type_version unsupported_version invalid_type_entries : PlanError
  too_many_entries invalid_type_entry unknown_field duplicate_field invalid_type : PlanError
  missing_field unsupported_mode pid_out_of_range period_out_of_range : PlanError
  duplicate_entry : PlanError

-- `PollPlanResult`, with the plan that is written on success.
pub data PlanResult : Type 0 where
  plan_ok : List PollEntry → PlanResult
  plan_malformed : PlanResult
  plan_invalid : PlanError → PlanResult
  plan_no_fuel : PlanResult

-- What a round of one of the three loops does, and what the loop comes to.
pub data Step (A : Type 0) : Type 0 where
  failed : PlanError → Step A
  more last : A → List ℕ → Step A
  no_fuel : Step A

-- A loop; each round goes one byte on at least.
unfoldable pub run : {A : Type 0} → (A → List ℕ → Step A) → ℕ → A → List ℕ → Step A
run round zero a s = no_fuel
run round (suc n) a s = elim (round a s) [
  | more b r ↦ run round n b r
  | last b r ↦ last b r
  | failed e ↦ failed e
  | no_fuel ↦ no_fuel
]

abbrev pub looped : {A : Type 0} → (A → List ℕ → Step A) → A → List ℕ → Step A
looped round a s = run round (suc (length s)) a s

-- The end of a round: a comma, or whatever closes.
abbrev pub round_end : {A : Type 0} → ℕ → A → List ℕ → Step A
round_end close a s = elim (eat b',' s) [ ate r ↦ more a r | kept r ↦ last a (left (eat close r)) ]

-- `jint`
abbrev pub jint : List ℕ → Option JNum
jint s = jnum s >>= λ k. if k.integer then some k else none

-- A key, and where its value starts; the answers of `jstr` and `eat` are not looked at.
abbrev pub key_is : JStr → List ℕ → Bool
key_is k text = k.fits && same k.text text

-- The three fields of an entry, with `seen`.
pub record Fields : Type 0 where
  pub mode : Option JNum
  pub pid : Option JNum
  pub period : Option JNum

pub data Field : Type 0 where
  f_mode f_pid f_period : Field

abbrev pub field_of : JStr → Option Field
field_of k =
    if key_is k (codes "mode")
    then some f_mode
    else if key_is k (codes "pid")
    then some f_pid
    else if key_is k (codes "period_ms")
    then some f_period
    else none

abbrev pub seen : Field → Fields → Option JNum
seen f_mode fs = fs.mode
seen f_pid fs = fs.pid
seen f_period fs = fs.period

abbrev pub put : Field → JNum → Fields → Fields
put f_mode v fs = record fs { mode = some v }
put f_pid v fs = record fs { pid = some v }
put f_period v fs = record fs { period = some v }

-- A round of the loop over the fields of an entry, behind the key.
abbrev pub field_value : Field → Fields → List ℕ → Step Fields
field_value f fs s = elim (seen f fs) [
  | some v ↦ failed duplicate_field
  | none ↦ elim (jint s) [
    | none ↦ failed invalid_type
    | some v ↦ round_end b'}' (put f v fs) v.rest
  ]
]

unfoldable pub one_field : Fields → List ℕ → Step Fields
one_field fs s = elim (jstr 16 s) [
  | none ↦ failed unknown_field
  | some k ↦ elim (field_of k) [
    | none ↦ failed unknown_field
    | some f ↦ field_value f fs (left (eat b':' k.rest))
  ]
]

-- A number that is not below zero.
abbrev pub natural : JNum → Option ℕ
natural v = if v.negative && ltb 0 v.size then none else some v.size

abbrev pub within : JNum → ℕ → ℕ → Bool
within v low high = elim (natural v) [ none ↦ false | some n ↦ leb low n && leb n high ]

-- The tests on a whole entry.
abbrev pub entry_checks : JNum → JNum → JNum → PollEntry ⊎ PlanError
entry_checks mode pid period =
    if not (within mode 1 1)
    then inr unsupported_mode
    else if not (within pid 0 255)
    then inr pid_out_of_range
    else if not (within period poll_period_min_ms poll_period_max_ms)
    then inr period_out_of_range
    else inl (record { mode = mode.size; pid = pid.size; period_ms = period.size })

unfoldable pub check_entry : Fields → PollEntry ⊎ PlanError
check_entry fs = elim fs.mode [
  | none ↦ inr missing_field
  | some mode ↦ elim fs.pid [
    | none ↦ inr missing_field
    | some pid ↦ elim fs.period [
      | none ↦ inr missing_field
      | some period ↦ entry_checks mode pid period
    ]
  ]
]

-- Inserted in order; none when its key is there already.
unfoldable pub insert : PollEntry → List PollEntry → Option (List PollEntry)
insert e [] = some (e ∷ [])
insert e (x ∷ xs) = elim (cmp_entry e x) [
  | eq ↦ none
  | lt ↦ some (e ∷ x ∷ xs)
  | gt ↦ (insert e xs >>= λ ys. some (x ∷ ys))
]

-- A round of the loop over the entries, behind the fields; a loop never comes to `more`.
abbrev pub add_entry : List PollEntry → Step Fields → Step (List PollEntry)
add_entry out (failed e) = failed e
add_entry out no_fuel = no_fuel
add_entry out (more fs r) = no_fuel
add_entry out (last fs r) = elim (check_entry fs) [
  | inr e ↦ failed e
  | inl e ↦ elim (insert e out) [
    | none ↦ failed duplicate_entry
    | some out' ↦ round_end b']' out' r
  ]
]

abbrev pub no_fields : Fields
no_fields = record { mode = none; pid = none; period = none }

abbrev pub fields_of : Eat → Step Fields
fields_of (ate r) = last no_fields r
fields_of (kept r) = looped one_field no_fields r

unfoldable pub one_entry : List PollEntry → List ℕ → Step (List PollEntry)
one_entry out s =
    if leb poll_plan_max (length out) then failed too_many_entries else elim (eat b'{' s) [
      | kept r ↦ failed invalid_type_entry
      | ate r ↦ add_entry out (fields_of (eat b'}' r))
    ]

-- The state of the outer loop.
pub record Body : Type 0 where
  pub has_version : Bool
  pub has_entries : Bool
  pub out : List PollEntry

abbrev pub entries_of : List PollEntry → Eat → Step (List PollEntry)
entries_of out (ate r) = last out r
entries_of out (kept r) = looped one_entry out r

abbrev pub add_entries : Body → Step (List PollEntry) → Step Body
add_entries b (failed e) = failed e
add_entries b no_fuel = no_fuel
add_entries b (more out r) = no_fuel
add_entries b (last out r) = round_end b'}' (record b { has_entries = true; out = out }) r

abbrev pub entries_key : Body → List ℕ → Step Body
entries_key b s = elim (eat b'[' s) [
  | kept r ↦ failed invalid_type_entries
  | ate r ↦ add_entries b (entries_of b.out (eat b']' r))
]

abbrev pub version_key : Body → List ℕ → Step Body
version_key b s = elim (jint s) [
  | none ↦ failed invalid_type_version
  | some v ↦
      if not (within v 1 1)
      then failed unsupported_version
      else round_end b'}' (record b { has_version = true }) v.rest
]

-- A round of the outer loop.
unfoldable pub one_key : Body → List ℕ → Step Body
one_key b s = elim (jstr 16 s) [
  | none ↦ failed unknown_field
  | some k ↦
      let r = left (eat b':' k.rest) in
      if key_is k (codes "version")
      then version_key b r
      else if key_is k (codes "entries")
      then entries_key b r
      else failed unknown_field
]

abbrev pub empty_body : Body
empty_body = record { has_version = false; has_entries = false; out = [] }

abbrev pub keys_of : Eat → Step Body
keys_of (ate r) = last empty_body r
keys_of (kept r) = looped one_key empty_body r

abbrev pub plan_of : Step Body → PlanResult
plan_of (failed e) = plan_invalid e
plan_of no_fuel = plan_no_fuel
plan_of (more b r) = plan_no_fuel
plan_of (last b r) =
    if not b.has_version || not b.has_entries then plan_invalid missing_field else plan_ok b.out

-- Layer 2 of `pollPlanParse`.
unfoldable pub contract : List ℕ → PlanResult
contract s = elim (eat b'{' s) [
  | kept r ↦ plan_invalid not_an_object
  | ate r ↦ plan_of (keys_of (eat b'}' r))
]

abbrev pub poll_json_max : ℕ
poll_json_max = 4096

-- `pollPlanParse`
unfoldable pub poll_plan_parse : List ℕ → PlanResult
poll_plan_parse s =
    if ltb poll_json_max (length s)
    then plan_malformed
    else if not (well_formed s)
    then plan_malformed
    else contract s
