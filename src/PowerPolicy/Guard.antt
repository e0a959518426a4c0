-- ===== src/PowerPolicy/Guard.antt =====
-- firmware/include/powerpolicy.h with firmware/include/sleepguard.h: what the ignition policy's
-- clock lets the filestore and the sleep guard do.
use cardiag.Base.{Bool, arith, false, later, sub32, true, ℕ, ◌+◌, ◌<◌, ◌^◌, ◌≡◌}
use cardiag.PowerPolicy.{
  IgnDebounce, settle, ign_debounce, ign_off_for_ms, power_quiet_ms, power_thresholds,
  power_may_record, ignition,
}
use cardiag.SleepGuard.{sleep_verdict, sleep_should_sleep}

-- Under the ignition policy an ignition that is on keeps the filestore open and the board awake for
-- as long as the sleep threshold is not 0, whatever the bus does and the table of files holds.
pub ignition_on_stays_awake :
    (d : IgnDebounce) (now bus bus_close bus_sleep off_ms sleep_ms open_files max_awake : ℕ)
    (mounted : Bool)
    → d.on ≡ true
    → 0 < sleep_ms
    → let q = power_quiet_ms ignition bus d now in
      let t = power_thresholds ignition bus_close bus_sleep off_ms sleep_ms in
      (q ≡ 0)
      × (power_may_record ignition q t ≡ true)
      × (sleep_should_sleep (sleep_verdict open_files mounted q t.sleep_ms max_awake) ≡ false)
unfolding power_quiet_ms ign_off_for_ms power_thresholds power_may_record sleep_should_sleep
    sleep_verdict
ignition_on_stays_awake d now bus bc bs off_ms sleep_ms n ma mounted h lt = ground arith

-- When the ignition is believed off, the quiet time already covers the window: no file opens from
-- that sample on, for as long as the clock difference to the edge stays below 2 ^ 31 ms.
pub off_closes :
    (d : IgnDebounce) (now on_ms off_ms bus bus_close bus_sleep sleep_ms k : ℕ)
    → d.init ≡ true
    → d.on ≡ true
    → 0 < off_ms
    → off_ms < 2 ^ 31
    → now < 2 ^ 32
    → d.edge_ms < 2 ^ 32
    → (ign_debounce d false now on_ms off_ms).on ≡ false
    → sub32 now (ign_debounce d false now on_ms off_ms).since_ms + k < 2 ^ 31
    → power_may_record ignition
        (power_quiet_ms ignition bus (ign_debounce d false now on_ms off_ms) (later now k))
        (power_thresholds ignition bus_close bus_sleep off_ms sleep_ms)
      ≡ false
unfolding ign_debounce settle power_quiet_ms ign_off_for_ms power_thresholds power_may_record
off_closes d now on_ms off_ms bus bc bs sl k i o p lt hn he f hk = ground arith
