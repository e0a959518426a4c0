-- ===== src/PollPlan/Json.antt =====
-- The JSON scanner of firmware/src/pollplan.cpp. A cursor is the list of the bytes that are left.
pub mod Skip
pub mod Total
pub mod Ends
use cardiag.Base.{
  Bool, List, Option, [], drop, false, if◌then◌else◌, leb, length, ltb, none, not, some, suc, take,
  true, zero, ℕ, ◌&&◌, ◌*◌, ◌++◌, ◌+◌, ◌-◌, ◌==◌, ◌>>=◌, ◌^◌, ◌||◌, ◌∷◌, same,
}

-- `ws`
unfoldable pub ws : List ℕ → List ℕ
ws [] = []
ws (c ∷ s) = elim (c == b' ' || (c == 9 || (c == 13 || c == 10))) [ true ↦ ws s | false ↦ c ∷ s ]

-- What `eat` does: the white space is passed either way.
pub data Eat : Type 0 where
  ate kept : List ℕ → Eat

abbrev pub eat_first : ℕ → List ℕ → Eat
eat_first ch [] = kept []
eat_first ch (c ∷ s) = if c == ch then ate s else kept (c ∷ s)

-- `eat`
unfoldable pub eat : ℕ → List ℕ → Eat
eat ch s = eat_first ch (ws s)

-- Where it stands after an `eat` whose answer is not looked at.
abbrev pub left : Eat → List ℕ
left (ate s) = s
left (kept s) = s

-- `isDigit` and `isHex`
abbrev pub is_digit : ℕ → Bool
is_digit c = leb b'0' c && leb c b'9'

abbrev pub is_hex : ℕ → Bool
is_hex c = is_digit c || ((leb b'a' c && leb c b'f') || (leb b'A' c && leb c b'F'))

-- Where the loop of `jstr` is: in the text, behind a backslash, or with hex digits to come.
pub data StrAt : Type 0 where
  in_text in_escape : StrAt
  in_hex : ℕ → StrAt

-- The text so far, and whether it is all of it.
pub record JStr : Type 0 where
  pub text : List ℕ
  pub fits : Bool
  pub rest : List ℕ

pub data StrStep : Type 0 where
  str_more : StrAt → Bool → List ℕ → StrStep
  str_end str_bad : StrStep

-- `strchr` finds the end of its string too, so a NUL behind a backslash is let through.
abbrev pub is_escape : ℕ → Bool
is_escape e =
    e == b'"'
    || (e == 92
        || (e == b'/'
            || (e == b'b' || (e == b'f' || (e == b'n' || (e == b'r' || (e == b't' || e == 0)))))))

-- What one byte does in `jstr`, with room for `cap` bytes.
unfoldable pub str_step : ℕ → StrAt → Bool → List ℕ → ℕ → StrStep
str_step cap in_text ok out c =
    if c == b'"'
    then str_end
    else if ltb c 0x20
    then str_bad
    else if c == 92
    then str_more in_escape false out
    else if ltb (length out + 1) cap
    then str_more in_text ok (out ++ (c ∷ []))
    else str_more in_text false out
str_step cap in_escape ok out c =
    if c == b'u'
    then str_more (in_hex 3) ok out
    else if is_escape c
    then str_more in_text ok out
    else str_bad
str_step cap (in_hex zero) ok out c = if is_hex c then str_more in_text ok out else str_bad
str_step cap (in_hex (suc k)) ok out c = if is_hex c then str_more (in_hex k) ok out else str_bad

unfoldable pub str_loop : ℕ → StrAt → Bool → List ℕ → List ℕ → Option JStr
str_loop cap at ok out [] = none
str_loop cap at ok out (c ∷ s) = elim (str_step cap at ok out c) [
  | str_more at' ok' out' ↦ str_loop cap at' ok' out' s
  | str_end ↦ some (record { text = out; fits = ok; rest = s })
  | str_bad ↦ none
]

-- `jstr`; without a buffer `cap` is 0.
unfoldable pub jstr : ℕ → List ℕ → Option JStr
jstr cap s = elim (eat b'"' s) [ ate r ↦ str_loop cap in_text true [] r | kept r ↦ none ]

unfoldable pub skip_digits : List ℕ → List ℕ
skip_digits [] = []
skip_digits (c ∷ s) = elim (is_digit c) [ true ↦ skip_digits s | false ↦ c ∷ s ]

-- The value of the digits, which saturates.
unfoldable pub digits_value : ℕ → List ℕ → ℕ
digits_value x [] = x
digits_value x (c ∷ s) =
    let rest = digits_value (if ltb x (2 ^ 40) then x * 10 + (c - b'0') else x) s in
    if is_digit c then rest else x

-- At least one digit.
abbrev pub some_digits : List ℕ → Option (List ℕ)
some_digits [] = none
some_digits (c ∷ s) = if is_digit c then some (skip_digits s) else none

-- `struct` of the results of `jnum`: an int64_t as its sign and its size.
pub record JNum : Type 0 where
  pub integer : Bool
  pub negative : Bool
  pub size : ℕ
  pub rest : List ℕ

abbrev pub sign : List ℕ → Bool × List ℕ
sign [] = (false, [])
sign (c ∷ s) = if c == b'-' then (true, s) else (false, c ∷ s)

-- The digits before the point; a leading zero stands alone.
abbrev pub whole : List ℕ → Option (ℕ × List ℕ)
whole [] = none
whole (c ∷ s) =
    if not (is_digit c)
    then none
    else if c == b'0'
    then some (0, s)
    else some (digits_value 0 (c ∷ s), skip_digits (c ∷ s))

-- The fraction and the exponent: whether there is none, and what is left.
abbrev pub fraction : List ℕ → Option (Bool × List ℕ)
fraction [] = some (true, [])
fraction (c ∷ s) =
    if c == b'.' then (some_digits s >>= λ r. some (false, r)) else some (true, c ∷ s)

abbrev pub skip_sign : List ℕ → List ℕ
skip_sign [] = []
skip_sign (c ∷ s) = if c == b'+' || c == b'-' then s else c ∷ s

abbrev pub exponent : List ℕ → Option (Bool × List ℕ)
exponent [] = some (true, [])
exponent (c ∷ s) =
    if c == b'e' || c == b'E'
    then (some_digits (skip_sign s) >>= λ r. some (false, r))
    else some (true, c ∷ s)

-- `jnum`
unfoldable pub jnum : List ℕ → Option JNum
jnum s = do
  let (neg, s1) = sign (ws s)
  (x, s2) ← whole s1
  (no_fraction, s3) ← fraction s2
  (no_exponent, s4) ← exponent s3
  some (record { integer = no_fraction && no_exponent; negative = neg; size = x; rest = s4 })

-- `jlit`
unfoldable pub jlit : List ℕ → List ℕ → Option (List ℕ)
jlit lit s =
    let t = ws s in if same (take (length lit) t) lit then some (drop (length lit) t) else none
