-- ===== src/SleepGuard/Order.antt =====
-- The go-to-sleep invariant: what a verdict needs, and the order of the calls that carry it out.
use cardiag.Base.{
  ℕ, zero, suc, ◌≤◌, ◌<◌, ◌≡◌, refl, ◌≢◌, ◌↔◌, ◌⊎◌, Bool, true, false, List, [], ◌∷◌, ◌++◌, arith,
}
use cardiag.SleepGuard.{
  SleepVerdict, SleepIo, sleep_verdict, sleep_needs_close, sleep_should_sleep, sleep_execute,
  sleep_ok, backstop_close_then_sleep,
}

-- The board ends up asleep exactly when the backstop is armed and reached, or when the store is
-- mounted, nothing is open and the bus has been quiet long enough.
pub sleep_should_sleep-sleep_verdict :
    (files : ℕ) (mounted : Bool) (quiet need max_awake : ℕ)
    → (sleep_should_sleep (sleep_verdict files mounted quiet need max_awake) ≡ true) ↔ (
        ((max_awake ≢ 0) × (max_awake ≤ quiet)) ⊎ ((mounted ≡ true) × (files ≡ 0) × (need ≤ quiet)))
unfolding sleep_verdict sleep_should_sleep
sleep_should_sleep-sleep_verdict files mounted quiet need max_awake = ground arith

-- With a file open the plain go-ahead is never given: the verdict either closes first or refuses.
pub sleep_verdict_open :
    (files : ℕ) (mounted : Bool) (quiet need max_awake : ℕ)
    → 0 < files
    → (sleep_needs_close (sleep_verdict files mounted quiet need max_awake) ≡ true)
      ⊎ (sleep_should_sleep (sleep_verdict files mounted quiet need max_awake) ≡ false)
unfolding sleep_verdict sleep_should_sleep sleep_needs_close
sleep_verdict_open files mounted quiet need max_awake h = ground arith

-- What the guard calls, in order; `counted n` is a reading of the open-file count.
pub data Act : Type 0 where
  counted : ℕ → Act
  closed announced slept : Act

-- The same interface, with each call written down behind the caller's state.
abbrev pub logged : {C : Type 0} → SleepIo C → SleepIo (C × List Act)
logged io = record {
  open_files = λ s. let (n, c) = io.open_files s.0 in (n, (c, s.1 ++ (counted n ∷ [])));
  close_all = λ s. (io.close_all s.0, s.1 ++ (closed ∷ []));
  announce_safe = λ s. (io.announce_safe s.0, s.1 ++ (announced ∷ []));
  command_sleep = λ s. (io.command_sleep s.0, s.1 ++ (slept ∷ []));
}

-- What may be seen of one power-down, and whether the board is asleep after it: sleep comes only
-- behind the announcement, and that only behind a count of 0, read after any close.
pub data Orderly (close : Bool) (t : List Act) (asleep : Bool) : Type 0 where
  untouched : close ≡ false → t ≡ [] → asleep ≡ false → Orderly close t asleep
  down :
      close ≡ false
      → t ≡ counted 0 ∷ announced ∷ slept ∷ []
      → asleep ≡ true
      → Orderly close t asleep
  held :
      (n : ℕ) → close ≡ false → t ≡ counted (suc n) ∷ [] → asleep ≡ false → Orderly close t asleep
  close_down :
      close ≡ true
      → t ≡ closed ∷ counted 0 ∷ announced ∷ slept ∷ []
      → asleep ≡ true
      → Orderly close t asleep
  close_held :
      (n : ℕ)
      → close ≡ true
      → t ≡ closed ∷ counted (suc n) ∷ []
      → asleep ≡ false
      → Orderly close t asleep

module _ {C : Type 0} (io : SleepIo C) (c : C) where
  abbrev pub outcome : SleepVerdict → SleepVerdict × (C × List Act)
  outcome v = sleep_execute (logged io) v (c, [])

  sleep_ok-Orderly :
      (n : ℕ)
      → (io.open_files c).0 ≡ n
      → Orderly false (outcome sleep_ok).1.1 (sleep_should_sleep (outcome sleep_ok).0)
  unfolding sleep_execute sleep_should_sleep
  sleep_ok-Orderly zero e = rw e (down refl refl refl)
  sleep_ok-Orderly (suc n) e = rw e (held n refl (ground arith) (ground arith))

  backstop-Orderly :
      (n : ℕ)
      → (io.open_files (io.close_all c)).0 ≡ n
      → let o = outcome backstop_close_then_sleep in Orderly true o.1.1 (sleep_should_sleep o.0)
  unfolding sleep_execute sleep_should_sleep
  backstop-Orderly zero e = rw e (close_down refl refl refl)
  backstop-Orderly (suc n) e = rw e (close_held n refl (ground arith) (ground arith))

  -- Whatever the caller's functions do, the calls of one power-down are orderly, a close happens
  -- exactly for the backstop, and the verdict returned says whether the sleep command was given.
  pub sleep_execute-Orderly :
      (v : SleepVerdict)
      → Orderly (sleep_needs_close v) (outcome v).1.1 (sleep_should_sleep (outcome v).0)
  unfolding sleep_execute sleep_should_sleep sleep_needs_close
  sleep_execute-Orderly sleep_ok = sleep_ok-Orderly _ refl
  sleep_execute-Orderly backstop_close_then_sleep = backstop-Orderly _ refl
  sleep_execute-Orderly _ = untouched refl refl refl
