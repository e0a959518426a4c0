-- ===== src/SleepGuard.antt =====
-- firmware/include/sleepguard.h: when the board may command sleep, and the order in which it does.
pub mod Order
use cardiag.Base.{ℕ, Bool, true, false, not, ◌&&◌, ltb, leb, ◌==◌, if◌then◌else◌}

-- `enum SleepVerdict`
pub data SleepVerdict : Type 0 where
  sleep_ok refused_files_open refused_bus_active refused_fs_unknown : SleepVerdict
  backstop_close_then_sleep : SleepVerdict

unfoldable pub sleep_verdict : ℕ → Bool → ℕ → ℕ → ℕ → SleepVerdict
sleep_verdict open_files mounted bus_quiet_ms quiet_need_ms max_awake_ms =
    if not (max_awake_ms == 0) && leb max_awake_ms bus_quiet_ms
    then (if ltb 0 open_files then backstop_close_then_sleep else sleep_ok)
    else if not mounted
    then refused_fs_unknown
    else if ltb 0 open_files
    then refused_files_open
    else if ltb bus_quiet_ms quiet_need_ms
    then refused_bus_active
    else sleep_ok

unfoldable pub sleep_needs_close : SleepVerdict → Bool
sleep_needs_close backstop_close_then_sleep = true
sleep_needs_close _ = false

unfoldable pub sleep_should_sleep : SleepVerdict → Bool
sleep_should_sleep sleep_ok = true
sleep_should_sleep backstop_close_then_sleep = true
sleep_should_sleep _ = false

-- `struct SleepIo`: the caller's functions, over the state that their `ctx` stands for.
pub record SleepIo (C : Type 0) : Type 0 where
  pub open_files : C → ℕ × C
  pub close_all : C → C
  pub announce_safe : C → C
  pub command_sleep : C → C

module _ {C : Type 0} where
  -- The tail of `sleepExecute`, once the close is done.
  unfoldable pub power_down : SleepIo C → SleepVerdict → C → SleepVerdict × C
  unfolding sleep_should_sleep
  power_down io v c =
      let (n, c') = io.open_files c in
      if not (sleep_should_sleep v)
      then (v, c)
      else if ltb 0 n
      then (refused_files_open, c')
      else (v, io.command_sleep (io.announce_safe c'))

  unfoldable pub sleep_execute : SleepIo C → SleepVerdict → C → SleepVerdict × C
  unfolding power_down sleep_needs_close
  sleep_execute io v c = power_down io v (if sleep_needs_close v then io.close_all c else c)
