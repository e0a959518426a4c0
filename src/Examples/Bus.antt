-- ===== src/Examples/Bus.antt =====
-- The bus: quiet times, the recovery of a stuck controller, and the order of a power-down.
use cardiag.Base.{
  [], arith, false, inl, later, refl, replicate, true, ℕ, ◌++◌, ◌+◌, ◌^◌, ◌∷◌, ◌≡◌, ◌⊎◌,
}
use cardiag.BusIdle.{bus_idle_for, bus_idle_for_never}
use cardiag.SleepGuard.{
  sleep_verdict, sleep_needs_close, sleep_should_sleep, SleepIo, sleep_execute,
  backstop_close_then_sleep,
}
use cardiag.SleepGuard.Order.{
  sleep_verdict_open, logged, Orderly, outcome, sleep_execute-Orderly, counted, closed, announced,
  slept,
}
use cardiag.CanRecov.{canbus_bus_off, CanRecov, init, step, idle, recover, restart}
use cardiag.CanRecov.Invariant.{init-Inv, step-Inv, bus_off_stale}
use cardiag.CanRecov.Traces.{Sample, step_at, run, restart_holds_off, recovery_ends}

bus_idle_for_never_example : (bus_idle_for 1000 1001 1 ≡ false) × (bus_idle_for 1000 0 1 ≡ false)
bus_idle_for_never_example =
    bus_idle_for_never 1000 1001 1 1 (omega arith) (omega arith) (omega arith) refl

-- A board with two open files, all of which a close closes.
abbrev board : SleepIo ℕ
board = record {
  open_files = λ n. (n, n);
  close_all = λ n. 0;
  announce_safe = λ n. n;
  command_sleep = λ n. n;
}

backstop_runs :
    sleep_execute (logged board) backstop_close_then_sleep (2, [])
    ≡ (backstop_close_then_sleep, (0, closed ∷ counted 0 ∷ announced ∷ slept ∷ []))
unfolding sleep_execute
backstop_runs = refl

sleep_execute-Orderly_example :
    let o = outcome board 2 backstop_close_then_sleep in
    Orderly (sleep_needs_close backstop_close_then_sleep) o.1.1 (sleep_should_sleep o.0)
sleep_execute-Orderly_example = sleep_execute-Orderly board 2 backstop_close_then_sleep

sleep_verdict_open_example :
    (sleep_needs_close (sleep_verdict 2 true 10 30 900) ≡ true)
    ⊎ (sleep_should_sleep (sleep_verdict 2 true 10 30 900) ≡ false)
sleep_verdict_open_example = sleep_verdict_open 2 true 10 30 900 (omega arith)

abbrev sample : ℕ → ℕ → Sample
sample state now = record { state = state; tec = 200; tx_fails = 0; now = now }

-- Bus-off at 1 s, still recovering at 2 s, stopped at 3 s.
recovery_runs :
    run (init 0) (sample 2 1000 ∷ sample 3 2000 ∷ sample 0 3000 ∷ [])
    ≡ recover ∷ idle ∷ restart ∷ []
unfolding run step init
recovery_runs = refl

abbrev recovering : CanRecov
recovering = (step_at (init 0) (sample 2 1000)).0

recovery_ends_example :
    run recovering ((sample 3 2000 ∷ []) ++ (sample 0 3000 ∷ []))
    ≡ replicate 1 idle ++ (restart ∷ [])
unfolding step init
recovery_ends_example =
    recovery_ends (init 0) (sample 2 1000) (sample 3 2000 ∷ []) (sample 0 3000) 2000 (omega arith)
      refl (((1000, omega arith, refl), omega arith), tt) (omega arith) refl (inl refl)

restart_holds_off_example :
    run (step_at recovering (sample 0 3000)).0 (sample 2 3500 ∷ []) ≡ replicate 1 idle
unfolding step init
restart_holds_off_example =
    restart_holds_off recovering (sample 0 3000) (sample 2 3500 ∷ [])
      (step-Inv (init 0) 2 200 0 1000 (init-Inv 0)) (omega arith) refl
      ((500, omega arith, refl), tt)

-- Up for 25 days with no action so far: bus-off is left alone.
bus_off_stale_example : (step (init 0) canbus_bus_off 200 0 (later 0 (2 ^ 31 + 12516352))).1 ≡ idle
unfolding init
bus_off_stale_example =
    bus_off_stale (init 0) (2 ^ 31 + 12516352) 200 0 refl (omega arith) (omega arith) (omega arith)
