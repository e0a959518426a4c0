-- ===== src/Bookend/Seq/Truth/Lists.antt =====
-- The lists of a bookend's record only grow, and are cut at their caps, in the parsers of
-- firmware/src/bookend.cpp.
use cardiag.Base.{
  Bool, List, [], arith, drop, if_both, if_split, if◌then◌else◌, inl, leb, length, length-append,
  ltb, not, suc, true, zero, ℕ, ◌&&◌, ◌++◌, ◌==◌, ◌||◌, ◌∷◌, ◌≡◌, ◌≤◌, ◌⊎◌,
}
use cardiag.Bookend.{
  bookend_max_stored, bookend_max_pending, bookend_max_m06, BookendDtc, BookendM06, BookendData,
}
use cardiag.Bookend.Parse.{
  be16, result_at, parse_pid01, dtcs_loop, dtc_count, parse_stored, parse_pending, results_loop,
  parse_m06_results,
}

-- Whether one of the record's lists is as long as it may be.
abbrev pub at_cap : BookendData → Bool
at_cap d =
    leb bookend_max_stored (length d.stored)
    || (leb bookend_max_pending (length d.pending) || leb bookend_max_m06 (length d.m06))

-- A list that has grown, and is at its cap where it was cut.
abbrev Grown {ℓ} : {A : Type ℓ} → ℕ → List A → List A × Bool → Type 0
Grown limit have o = (length have ≤ length o.0) × (o.1 ≡ true → limit ≤ length o.0)

dtcs_loop-Grown :
    (n limit ecu : ℕ) (q : List ℕ) (have : List BookendDtc)
    → Grown limit have (dtcs_loop n limit ecu q have)
unfolding dtcs_loop
dtcs_loop-Grown zero limit ecu q have = (omega arith, λ e. absurd (ground arith))
dtcs_loop-Grown (suc n) limit ecu q have =
    let dtc = be16 q 0 in
    let one : List BookendDtc = record { ecu = ecu; dtc = dtc } ∷ [] in
    let have' = if dtc == 0 then have else have ++ one in
    let longer = length-append have one in
    let k : length have ≤ length have' =
      if_both (λ (l : List BookendDtc). length have ≤ length l) (dtc == 0) (omega arith)
        (omega arith) in
    let (g, c) = dtcs_loop-Grown n limit ecu (drop 2 q) have' in
    if_split (Grown limit have) (not (dtc == 0) && leb limit (length have))
      (λ t. (omega arith, λ e. ground arith)) (λ t. (omega arith, c))

results_loop-Grown :
    (fuel ecu : ℕ) (q : List ℕ) (have : List BookendM06)
    → Grown bookend_max_m06 have (results_loop fuel ecu q have)
unfolding results_loop
results_loop-Grown zero ecu q have = (omega arith, λ e. absurd (ground arith))
results_loop-Grown (suc fuel) ecu q have =
    let one : List BookendM06 = result_at ecu q ∷ [] in
    let longer = length-append have one in
    let (g, c) = results_loop-Grown fuel ecu (drop 9 q) (have ++ one) in
    if_both (Grown bookend_max_m06 have) (ltb (length q) 9)
      (omega arith, λ e. absurd (ground arith))
      (if_split (Grown bookend_max_m06 have) (leb bookend_max_m06 (length have))
        (λ t. (omega arith, λ e. ground arith)) (λ t. (omega arith, c)))

-- What a parser does to the record: the lists grow, and it is cut only at a cap.
pub record Parsed (d e : BookendData) : Type 0 where
  pub limit : at_cap d ≡ true → at_cap e ≡ true
  pub cut : e.truncated ≡ true → (d.truncated ≡ true) ⊎ (at_cap e ≡ true)

same-Parsed : (d : BookendData) → Parsed d d
same-Parsed d = record { limit = λ h. h; cut = λ h. inl h }

pub parse_pid01-Parsed : (d : BookendData) (p : List ℕ) → Parsed d (parse_pid01 d p).1
unfolding parse_pid01
parse_pid01-Parsed d p = record { limit = λ h. ground arith; cut = λ h. ground arith }

pub parse_stored-Parsed :
    (d : BookendData) (ecu : ℕ) (p : List ℕ) → Parsed d (parse_stored d ecu p).1
unfolding parse_stored
parse_stored-Parsed d ecu p =
    let (g, c) = dtcs_loop-Grown (dtc_count p) bookend_max_stored ecu (drop 2 p) d.stored in
    record { limit = λ h. ground arith; cut = λ h. ground arith }

pub parse_pending-Parsed :
    (d : BookendData) (ecu : ℕ) (p : List ℕ) → Parsed d (parse_pending d ecu p).1
unfolding parse_pending
parse_pending-Parsed d ecu p =
    let (g, c) = dtcs_loop-Grown (dtc_count p) bookend_max_pending ecu (drop 2 p) d.pending in
    record { limit = λ h. ground arith; cut = λ h. ground arith }

pub parse_m06_results-Parsed :
    (d : BookendData) (ecu : ℕ) (p : List ℕ) → Parsed d (parse_m06_results d ecu p).1
unfolding parse_m06_results
parse_m06_results-Parsed d ecu p =
    let (g, c) = results_loop-Grown (length p) ecu (drop 1 p) d.m06 in
    record { limit = λ h. ground arith; cut = λ h. ground arith }
