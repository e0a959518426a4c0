-- ===== src/CanRecov.antt =====
-- firmware/include/canrecov.h: the recovery of a stuck CAN controller, one step a second.
-- Bus states are the numbers of `enum CanBusState`, as the code compares them.
pub mod Invariant
pub mod Traces
use cardiag.Base.{
  ℕ, Bool, false, if◌then◌else◌, u32, not, leb, true, ◌+◌, nonneg32, ◌==◌, ◌/◌, sub32, ◌&&◌, ◌*◌,
  ltb,
}

abbrev pub passive_ms : ℕ
passive_ms = 5000

abbrev pub recover_timeout_ms : ℕ
recover_timeout_ms = 5000

abbrev pub backoff_min_ms : ℕ
backoff_min_ms = 1000

abbrev pub backoff_max_ms : ℕ
backoff_max_ms = 60000

abbrev pub stable_ms : ℕ
stable_ms = 60000

abbrev pub tec_passive : ℕ
tec_passive = 128

abbrev pub canbus_stopped : ℕ
canbus_stopped = 0

abbrev pub canbus_running : ℕ
canbus_running = 1

abbrev pub canbus_bus_off : ℕ
canbus_bus_off = 2

abbrev pub canbus_recovering : ℕ
canbus_recovering = 3

-- `enum CanRecovAction`
pub data Action : Type 0 where
  idle recover restart : Action

-- `struct CanRecov`
pub record CanRecov : Type 0 where
  pub recovering : Bool
  pub recover_start_ms : ℕ
  pub failing : Bool
  pub failing_since_ms : ℕ
  pub last_tx_fails : ℕ
  pub healthy_since_ms : ℕ
  pub backoff_ms : ℕ
  pub next_allowed_ms : ℕ
  pub recoveries : ℕ
  pub last_action : Action
  pub last_action_ms : ℕ

unfoldable pub init : ℕ → CanRecov
init now = record {
  recovering = false;
  recover_start_ms = 0;
  failing = false;
  failing_since_ms = 0;
  last_tx_fails = 0;
  healthy_since_ms = now;
  backoff_ms = backoff_min_ms;
  next_allowed_ms = 0;
  recoveries = 0;
  last_action = idle;
  last_action_ms = 0;
}

-- the doubling of the backoff
abbrev pub next_backoff : ℕ → ℕ
next_backoff b = if leb (backoff_max_ms / 2) b then backoff_max_ms else u32 (b * 2)

abbrev is_recover : Action → Bool
is_recover recover = true
is_recover _ = false

-- `canRecovAct`
unfoldable pub act : CanRecov → Action → ℕ → CanRecov × Action
act r a now = (
  record r {
    recoveries = u32 (r.recoveries + 1);
    last_action = a;
    last_action_ms = now;
    next_allowed_ms = u32 (now + r.backoff_ms);
    backoff_ms = next_backoff r.backoff_ms;
    failing = false;
    recovering = is_recover a;
    recover_start_ms = if is_recover a then now else r.recover_start_ms;
  },
  a,
)

-- `mayAct`
abbrev pub may_act : CanRecov → ℕ → Bool
may_act r now = nonneg32 (sub32 now r.next_allowed_ms)

-- The branch under `if (r->recovering)`.
step_recovering : CanRecov → ℕ → ℕ → CanRecov × Action
unfolding act
step_recovering r state now =
    if state == canbus_stopped
    then act (record r { recovering = false }) restart now
    else if leb recover_timeout_ms (sub32 now r.recover_start_ms)
    then act (record r { recovering = false }) restart now
    else (r, idle)

step_bus_off : CanRecov → ℕ → CanRecov × Action
unfolding act
step_bus_off r now =
    let r' = record r { healthy_since_ms = now } in
    if may_act r now then act r' recover now else (r', idle)

-- The branch of an error-passive controller with failing transmits.
step_failing : CanRecov → ℕ → CanRecov × Action
unfolding act
step_failing r now =
    let since = if r.failing then r.failing_since_ms else now in
    let r' = record r { failing = true; failing_since_ms = since; healthy_since_ms = now } in
    if leb passive_ms (sub32 now since) && may_act r now then act r' restart now else (r', idle)

-- The tail: healthy, or error-passive with nothing failing.
step_healthy : CanRecov → Bool → ℕ → CanRecov × Action
step_healthy r well now = (
  if well
      then record r {
        failing = false;
        backoff_ms =
            if leb stable_ms (sub32 now r.healthy_since_ms) then backoff_min_ms else r.backoff_ms;
      }
      else record r { failing = false; healthy_since_ms = now },
  idle,
)

-- `canRecovStep`
unfoldable pub step : CanRecov → ℕ → ℕ → ℕ → ℕ → CanRecov × Action
unfolding step_recovering step_bus_off step_failing step_healthy
step s state tec tx_fails now =
    let new_fails = not (tx_fails == s.last_tx_fails) in
    let r = record s { last_tx_fails = tx_fails } in
    if s.recovering
    then step_recovering r state now
    else if state == canbus_bus_off
    then step_bus_off r now
    else if (state == canbus_running && leb tec_passive tec) && new_fails
    then step_failing r now
    else step_healthy r ((state == canbus_running && ltb tec tec_passive) && not new_fails) now
