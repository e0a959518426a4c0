-- ===== src/CredStore/Token.antt =====
-- `credTokenEqual` of firmware/src/credstore.cpp: the compare of a request's token.
use Prim.Native.Nat.{bit_or, bit_xor}
use mathlib.Core.Path.{subst}
use cardiag.Base.{
  ==_iff, Bool, List, [], arith, false, if◌then◌else◌, length, refl, sym, true, ℕ, ◌==◌, ◌↔◌, ◌∙◌,
  ◌∷◌, ◌≡◌, ◌≢◌, bit_or-zero, bit_xor_self, bit_xor-zero,
}

-- The loop over the wanted bytes; past the end of the other list it compares with 0.
unfoldable pub diff_loop : ℕ → List ℕ → List ℕ → ℕ
diff_loop diff [] got = diff
diff_loop diff (w ∷ ws) [] = diff_loop (bit_or diff (bit_xor 0 w)) ws []
diff_loop diff (w ∷ ws) (c ∷ cs) = diff_loop (bit_or diff (bit_xor c w)) ws cs

-- `credTokenEqual`
unfoldable pub cred_token_equal : List ℕ → List ℕ → Bool
unfolding diff_loop
cred_token_equal want got =
    let diff = diff_loop (if length got == length want then 0 else 1) want got in
    if length want == 0 then false else diff == 0

diff_loop-zero_start : (diff : ℕ) (want got : List ℕ) → diff_loop diff want got ≡ 0 → diff ≡ 0
unfolding diff_loop
diff_loop-zero_start diff [] got h = h
diff_loop-zero_start diff (w ∷ ws) [] h =
    (bit_or-zero diff (bit_xor 0 w) (diff_loop-zero_start (bit_or diff (bit_xor 0 w)) ws [] h)).0
diff_loop-zero_start diff (w ∷ ws) (c ∷ cs) h =
    (bit_or-zero diff (bit_xor c w) (diff_loop-zero_start (bit_or diff (bit_xor c w)) ws cs h)).0

diff_loop-zero :
    (diff : ℕ) (want got : List ℕ)
    → length got ≡ length want
    → diff_loop diff want got ≡ 0
    → want ≡ got
unfolding diff_loop
diff_loop-zero diff [] [] l h = refl
diff_loop-zero diff [] (c ∷ cs) l h = absurd (omega arith)
diff_loop-zero diff (w ∷ ws) [] l h = absurd (omega arith)
diff_loop-zero diff (w ∷ ws) (c ∷ cs) l h =
    let e =
      (bit_or-zero diff (bit_xor c w)
        (diff_loop-zero_start (bit_or diff (bit_xor c w)) ws cs h)).1 in
    let x = bit_xor-zero c w e in
    let y = diff_loop-zero (bit_or diff (bit_xor c w)) ws cs (omega arith) h in cc

diff_loop_self : (want : List ℕ) → diff_loop 0 want want ≡ 0
unfolding diff_loop
diff_loop_self [] = refl
diff_loop_self (w ∷ ws) = rw (bit_xor_self w) (diff_loop_self ws)

diff_start-zero :
    (b : Bool) (want got : List ℕ)
    → (length got == length want) ≡ b
    → diff_loop (if b then 0 else 1) want got ≡ 0
    → want ≡ got
diff_start-zero true want got l h = diff_loop-zero 0 want got ((==_iff _ _).0 l) h
diff_start-zero false want got l h =
    let e = diff_loop-zero_start 1 want got h in absurd (omega arith)

accepts : (want : List ℕ) → diff_loop (if length want == length want then 0 else 1) want want ≡ 0
accepts want = let e = (==_iff (length want) (length want)).1 refl in rw e (diff_loop_self want)

some_wanted :
    (w : ℕ) (ws got : List ℕ)
    → cred_token_equal (w ∷ ws) got
      ≡ (diff_loop (if length got == length (w ∷ ws) then 0 else 1) (w ∷ ws) got == 0)
unfolding cred_token_equal
some_wanted w ws got = ground arith

-- The compare accepts a token exactly when it is the wanted one, byte for byte and of the same
-- length, and a token is wanted at all.
pub cred_token_equal_iff :
    (want got : List ℕ) → (cred_token_equal want got ≡ true) ↔ ((want ≢ []) × (want ≡ got))
unfolding cred_token_equal
cred_token_equal_iff [] got = (λ h. absurd (ground arith), λ h. absurd (h.0 refl))
cred_token_equal_iff (w ∷ ws) got = (
  λ h. (
    λ e. absurd (ground arith),
    diff_start-zero (length got == length (w ∷ ws)) (w ∷ ws) got refl
        ((==_iff _ 0).0 (sym (some_wanted w ws got) ∙ h)),
  ),
  λ (n, e).
      subst (λ g. cred_token_equal (w ∷ ws) g ≡ true) e
        (some_wanted w ws (w ∷ ws) ∙ (==_iff _ 0).1 (accepts (w ∷ ws))),
)
