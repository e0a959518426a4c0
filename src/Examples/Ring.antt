-- ===== src/Examples/Ring.antt =====
-- A ring of four slots whose indexes are about to wrap.
use native.Mathlib.Nat.{dvd_of_mod-eq-zero}
use cardiag.Base.{List, [], arith, refl, ℕ, ◌*◌, ◌∷◌, ◌≡◌}
use cardiag.SpscRing.{SpscRing, double_loop, spsc_pow2_floor}
use cardiag.SpscRing.Queue.{IsValid}
use cardiag.SpscRing.Refine.{
  Log, Op, perform_all, queued_all, rows_of, perform_all-queued_all, append, consume,
}

abbrev wrapping : SpscRing
wrapping = record { head = 1; tail = 4294967295; cap = 4 }

wrapping-IsValid : IsValid wrapping
wrapping-IsValid = record {
  divides = dvd_of_mod-eq-zero 4 refl;
  some_slot = omega arith;
  small = omega arith;
  head_word = omega arith;
  tail_word = omega arith;
  fits = omega arith;
}

abbrev log : Log ℕ
log = record { ring = wrapping; rows = λ i. i * 10 }

abbrev ops : List (Op ℕ)
ops = append 7 ∷ append 8 ∷ append 9 ∷ consume 3 ∷ append 5 ∷ []

perform_all-queued_all_example : rows_of (perform_all log ops) ≡ queued_all 4 (rows_of log) ops
perform_all-queued_all_example = perform_all-queued_all log ops wrapping-IsValid

rows_left : queued_all 4 (rows_of log) ops ≡ 8 ∷ 5 ∷ []
unfolding queued_all
rows_left = refl

floor_of_1000 : spsc_pow2_floor 1000 ≡ 512
unfolding spsc_pow2_floor double_loop
floor_of_1000 = refl
