-- ===== src/PollPlan/Json/Total.antt =====
-- How far each token of the scanner goes on.
use cardiag.Base.{
  Bool, List, Option, Option-cases, [], arith, if_both, inl, inr, length, none, some, true, ℕ, ◌<◌,
  ◌==◌, ◌∷◌, ◌≡◌, ◌≤◌,
}
use cardiag.PollPlan.Json.{
  ws, Eat, eat_first, eat, StrAt, JStr, StrStep, str_step, str_loop, jstr, skip_digits, some_digits,
  JNum, sign, whole, fraction, skip_sign, exponent, jnum, ate, kept, in_text, str_more, str_end,
  str_bad,
}

pub ws_le : (s : List ℕ) → length (ws s) ≤ length s
unfolding ws
ws_le [] = omega arith
ws_le (c ∷ s) = ground (arith, ws_le s)

-- An `eat` that succeeds goes on, and one that does not goes back nowhere.
abbrev pub EatBounds : List ℕ → Eat → Type 0
EatBounds s (ate r) = length r < length s
EatBounds s (kept r) = length r ≤ length s

pub eat-bounds : (ch : ℕ) (s : List ℕ) → EatBounds s (eat ch s)
unfolding eat
eat-bounds ch s = go (ws s) (ws_le s)
  where
    go : (t : List ℕ) → length t ≤ length s → EatBounds s (eat_first ch t)
    go [] h = h
    go (c ∷ t) h = if_both (EatBounds s) (c == ch) (omega arith) h

-- What is left behind a token is shorter than what it stood in.
abbrev pub Shorter {ℓ} : {A : Type ℓ} → (A → List ℕ) → List ℕ → Option A → Type 0
Shorter rest s none = Unit
Shorter rest s (some k) = length (rest k) < length s

abbrev pub str_rest : JStr → List ℕ
str_rest k = k.rest

abbrev pub num_rest : JNum → List ℕ
num_rest k = k.rest

Shorter-weaken {ℓ} :
    {A : Type ℓ} (rest : A → List ℕ) (s t : List ℕ) (o : Option A)
    → length s ≤ length t
    → Shorter rest s o
    → Shorter rest t o
Shorter-weaken rest s t none h k = tt
Shorter-weaken rest s t (some a) h k = omega arith

str_loop-Shorter :
    (cap : ℕ) (at : StrAt) (ok : Bool) (out s : List ℕ)
    → Shorter str_rest s (str_loop cap at ok out s)
unfolding str_loop
str_loop-Shorter cap at ok out [] = tt
str_loop-Shorter cap at ok out (c ∷ s) =
    go (str_step cap at ok out c) (λ at' ok' out'. str_loop-Shorter cap at' ok' out' s)
  where
    go :
        (x : StrStep)
        → ((a : StrAt) (b : Bool) (o : List ℕ) → Shorter str_rest s (str_loop cap a b o s))
        → Shorter str_rest (c ∷ s) (elim x [
          | str_more at' ok' out' ↦ str_loop cap at' ok' out' s
          | str_end ↦ some (record { text = out; fits = ok; rest = s })
          | str_bad ↦ none
        ])
    go (str_more at' ok' out') f =
        Shorter-weaken str_rest s (c ∷ s) (str_loop cap at' ok' out' s) (omega arith)
          (f at' ok' out')
    go str_end f = omega arith
    go str_bad f = tt

pub jstr-Shorter : (cap : ℕ) (s : List ℕ) → Shorter str_rest s (jstr cap s)
unfolding jstr
jstr-Shorter cap s = go (eat b'"' s) (eat-bounds b'"' s)
  where
    go :
        (x : Eat)
        → EatBounds s x
        → Shorter str_rest s (elim x [ ate r ↦ str_loop cap in_text true [] r | kept r ↦ none ])
    go (ate r) h =
        Shorter-weaken str_rest r s (str_loop cap in_text true [] r) (omega arith)
          (str_loop-Shorter cap in_text true [] r)
    go (kept r) h = tt

skip_digits_le : (s : List ℕ) → length (skip_digits s) ≤ length s
unfolding skip_digits
skip_digits_le [] = omega arith
skip_digits_le (c ∷ s) = ground (arith, skip_digits_le s)

whole_lt : (s : List ℕ) (r : ℕ × List ℕ) → whole s ≡ some r → length r.1 < length s
unfolding skip_digits
whole_lt [] r h = absurd (ground arith)
whole_lt (c ∷ s) r h = ground (arith, skip_digits_le s)

fraction_le : (s : List ℕ) (r : Bool × List ℕ) → fraction s ≡ some r → length r.1 ≤ length s
fraction_le [] r h = ground arith
fraction_le (c ∷ []) r h = ground arith
fraction_le (c ∷ d ∷ s) r h = ground (arith, skip_digits_le s)

skip_sign_le : (s : List ℕ) → length (skip_sign s) ≤ length s
skip_sign_le [] = omega arith
skip_sign_le (c ∷ s) = ground arith

some_digits_lt : (s r : List ℕ) → some_digits s ≡ some r → length r < length s
unfolding skip_digits
some_digits_lt [] r h = absurd (ground arith)
some_digits_lt (c ∷ s) r h = ground (arith, skip_digits_le s)

exponent_le : (s : List ℕ) (r : Bool × List ℕ) → exponent s ≡ some r → length r.1 ≤ length s
exponent_le [] r h = ground arith
exponent_le (c ∷ s) r h = elim (Option-cases (some_digits (skip_sign s))) [
  | inl e ↦ ground arith
  | inr (q, e) ↦ ground (arith, some_digits_lt (skip_sign s) q e, skip_sign_le s)
]

sign_le : (s : List ℕ) → length (sign s).1 ≤ length s
sign_le [] = omega arith
sign_le (c ∷ s) = ground arith

pub jnum-Shorter : (s : List ℕ) → Shorter num_rest s (jnum s)
unfolding jnum
jnum-Shorter s = elim (Option-cases (whole (sign (ws s)).1)) [
  | inl e ↦ rw e tt
  | inr ((x, s2), e) ↦ elim (Option-cases (fraction s2)) [
    | inl f ↦ rw e (rw f tt)
    | inr ((b, s3), f) ↦ elim (Option-cases (exponent s3)) [
      | inl g ↦ rw e (rw f (rw g tt))
      | inr ((d, s4), g) ↦ rw e (
          rw f (
            rw g (
              omega (
                arith,
                ws_le s,
                sign_le (ws s),
                whole_lt (sign (ws s)).1 (x, s2) e,
                fraction_le s2 (b, s3) f,
                exponent_le s3 (d, s4) g,
              ))))
    ]
  ]
]
