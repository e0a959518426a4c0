-- ===== src/CanRecov/Invariant.antt =====
-- What holds of the recovery state between two steps, and when a step acts.
use cardiag.Base.{
  arith, false, if◌then◌else◌, later, sub32, true, u32, ℕ, ◌+◌, ◌<◌, ◌^◌, ◌↔◌, ◌≡◌, ◌≢◌, ◌≤◌, ◌⊎◌,
}
use cardiag.CanRecov.{
  passive_ms, recover_timeout_ms, backoff_min_ms, backoff_max_ms, tec_passive, canbus_stopped,
  canbus_running, canbus_bus_off, CanRecov, init, next_backoff, may_act, step, idle, recover,
  restart,
}

-- The backoff stays within its limits, and a running recovery excludes the failing timer.
pub record Inv (r : CanRecov) : Type 0 where
  pub backoff_low : backoff_min_ms ≤ r.backoff_ms
  pub backoff_high : r.backoff_ms ≤ backoff_max_ms
  pub exclusive : r.recovering ≡ true → r.failing ≡ false

pub init-Inv : (now : ℕ) → Inv (init now)
unfolding init
init-Inv now = ground arith

-- Every step, at any inputs, keeps the invariant.
pub step-Inv :
    (r : CanRecov) (state tec tx_fails now : ℕ) → Inv r → Inv (step r state tec tx_fails now).0
unfolding step
step-Inv r state tec tx_fails now v = ground arith

-- An error-passive controller whose transmits fail, since when in the state's own terms.
abbrev pub failing_since : CanRecov → ℕ → ℕ
failing_since r now = if r.failing then r.failing_since_ms else now

-- A step asks for a bus recovery exactly when the controller is bus-off, no recovery is running and
-- the backoff allows it; it restarts the driver exactly when a running recovery has stopped or
-- timed out, or when error-passive transmit failures have lasted and the backoff allows it.
pub step_actions :
    (r : CanRecov) (state tec tx_fails now : ℕ)
    → (((step r state tec tx_fails now).1 ≡ recover)
        ↔ ((r.recovering ≡ false) × (state ≡ canbus_bus_off) × (may_act r now ≡ true)))
      × (((step r state tec tx_fails now).1 ≡ restart) ↔ (
          ((r.recovering ≡ true)
            × ((state ≡ canbus_stopped) ⊎ (recover_timeout_ms ≤ sub32 now r.recover_start_ms)))
          ⊎ ((r.recovering ≡ false)
              × (state ≡ canbus_running)
              × (tec_passive ≤ tec)
              × (tx_fails ≢ r.last_tx_fails)
              × (passive_ms ≤ sub32 now (failing_since r now))
              × (may_act r now ≡ true))))
unfolding step
step_actions r state tec tx_fails now = (ground arith, ground arith)

-- A step that acts counts the action, records it, starts the current backoff from now and doubles
-- it up to the limit; one that does not act leaves the count, the record and the backoff's end.
pub step_accounts :
    (r : CanRecov) (state tec tx_fails now : ℕ)
    → let (r', a) = step r state tec tx_fails now in
      ((a ≢ idle)
        × (r'.recoveries ≡ u32 (r.recoveries + 1))
        × (r'.last_action ≡ a)
        × (r'.last_action_ms ≡ now)
        × (r'.next_allowed_ms ≡ u32 (now + r.backoff_ms))
        × (r'.backoff_ms ≡ next_backoff r.backoff_ms))
      ⊎ ((a ≡ idle)
          × (r'.recoveries ≡ r.recoveries)
          × (r'.last_action ≡ r.last_action)
          × (r'.next_allowed_ms ≡ r.next_allowed_ms))
unfolding step
step_accounts r state tec tx_fails now = ground arith

-- A stale deadline reads as a future one: once the clock is 2^31 ms or more past the end of the
-- backoff (as it is from the 25th day of an uptime with no action, since the end starts at 0), a
-- bus-off controller gets no recovery.
pub bus_off_stale :
    (r : CanRecov) (k tec tx_fails : ℕ)
    → r.recovering ≡ false
    → r.next_allowed_ms < 2 ^ 32
    → 2 ^ 31 ≤ k
    → k < 2 ^ 32
    → (step r canbus_bus_off tec tx_fails (later r.next_allowed_ms k)).1 ≡ idle
unfolding step
bus_off_stale r k tec tx_fails h hn hk hk' = ground arith
