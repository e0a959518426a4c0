-- ===== src/PowerPolicy.antt =====
-- firmware/include/powerpolicy.h: what ends a trip. The policy picks the clock that the sleep guard
-- reads, debounces the ignition input, gates transmission and remembers the mode to restore.
pub mod Ignition
pub mod Guard
use cardiag.Base.{
  Bool, false, iff, if◌then◌else◌, le_i32, ltb, not, pos32, sub32, true, ℕ, ◌&&◌, ◌==◌, ◌||◌,
}

-- `enum PowerPolicy`
pub data PowerPolicy : Type 0 where
  bus_quiet ignition : PowerPolicy

-- `struct IgnDebounce`
pub record IgnDebounce : Type 0 where
  pub init : Bool
  pub on : Bool
  pub pending : Bool
  pub edge_ms : ℕ
  pub since_ms : ℕ

-- A sample that differs from the debounced level: the tail of `ignDebounce`.
unfoldable pub settle : IgnDebounce → Bool → ℕ → ℕ → ℕ → IgnDebounce
settle d raw now on_ms off_ms =
    let edge = if d.pending then d.edge_ms else now in
    let need = if raw then on_ms else off_ms in
    if le_i32 need (sub32 now edge)
    then record d { pending = false; on = raw; edge_ms = edge; since_ms = edge }
    else record d { pending = true; edge_ms = edge }

-- `ignDebounce`; the level returned is the field `on` of the new state.
unfoldable pub ign_debounce : IgnDebounce → Bool → ℕ → ℕ → ℕ → IgnDebounce
unfolding settle
ign_debounce d raw now on_ms off_ms =
    if not d.init
    then record d { init = true; on = raw; pending = false; since_ms = now }
    else if iff raw d.on
    then record d { pending = false }
    else settle d raw now on_ms off_ms

-- `ignOffForMs`
unfoldable pub ign_off_for_ms : IgnDebounce → ℕ → ℕ
ign_off_for_ms d now =
    let t = sub32 now d.since_ms in if not d.init || d.on then 0 else if pos32 t then t else 0

-- `powerQuietMs`
unfoldable pub power_quiet_ms : PowerPolicy → ℕ → IgnDebounce → ℕ → ℕ
unfolding ign_off_for_ms
power_quiet_ms ignition bus_quiet_ms ign now = ign_off_for_ms ign now
power_quiet_ms bus_quiet bus_quiet_ms ign now = bus_quiet_ms

-- `struct PowerThresholds`
pub record PowerThresholds : Type 0 where
  pub close_ms : ℕ
  pub sleep_ms : ℕ

-- `powerThresholds`
unfoldable pub power_thresholds : PowerPolicy → ℕ → ℕ → ℕ → ℕ → PowerThresholds
power_thresholds ignition bus_close_ms bus_sleep_ms ign_off_ms ign_sleep_ms = record {
  close_ms = if ign_off_ms == 0 then 1 else ign_off_ms;
  sleep_ms = ign_sleep_ms;
}
power_thresholds bus_quiet bus_close_ms bus_sleep_ms ign_off_ms ign_sleep_ms = record {
  close_ms = bus_close_ms;
  sleep_ms = bus_sleep_ms;
}

abbrev pub is_ignition : PowerPolicy → Bool
is_ignition ignition = true
is_ignition bus_quiet = false

-- `powerMayRecord`
unfoldable pub power_may_record : PowerPolicy → ℕ → PowerThresholds → Bool
power_may_record p quiet_ms t = not (is_ignition p) || ltb quiet_ms t.close_ms

-- `canTxGate`
unfoldable pub can_tx_gate : PowerPolicy → Bool → Bool
can_tx_gate p ignition_on = not (is_ignition p) || ignition_on

-- `enum WakeSource`
pub data WakeSource : Type 0 where
  wake_na wake_ignition wake_bus wake_usb_bench : WakeSource

-- `wakeSourceAtBoot`
unfoldable pub wake_source_at_boot : PowerPolicy → Bool → Bool → WakeSource
wake_source_at_boot p ignition_on usb_host =
    if not (is_ignition p)
    then wake_na
    else if ignition_on
    then wake_ignition
    else if usb_host
    then wake_usb_bench
    else wake_bus

-- `ignSleepAfterMs`
unfoldable pub ign_sleep_after_ms : Bool → Bool → ℕ → ℕ → ℕ
ign_sleep_after_ms seen_on_this_boot watchdog_boot off_sleep_ms bus_wake_ms =
    if seen_on_this_boot then off_sleep_ms else if watchdog_boot then 0 else bus_wake_ms

-- `enum XcvrMode`
pub data XcvrMode : Type 0 where
  standby silent go_to_sleep : XcvrMode

-- `struct XcvrPins`
pub record XcvrPins : Type 0 where
  pub en : Bool
  pub nstb : Bool

-- `xcvrPinsFor`
unfoldable pub xcvr_pins_for : XcvrMode → XcvrPins
xcvr_pins_for silent = record { en = false; nstb = true }
xcvr_pins_for go_to_sleep = record { en = true; nstb = false }
xcvr_pins_for _ = record { en = false; nstb = false }

abbrev pub mode_restore_none : ℕ
mode_restore_none = 0xff

-- `modeRestoreOnOff`, over the field `mode` of `struct ModeRestore`
unfoldable pub mode_restore_on_off : ℕ → ℕ → Bool → ℕ
mode_restore_on_off mode current current_transmits =
    if current_transmits && mode == mode_restore_none then current else mode

-- `modeRestoreOnOn`: the new field and the mode returned.
unfoldable pub mode_restore_on_on : ℕ → Bool → ℕ × ℕ
mode_restore_on_on mode tx_allowed =
    if mode == mode_restore_none || not tx_allowed
    then (mode, mode_restore_none)
    else (mode_restore_none, mode)

-- `modeRestoreCancel`
unfoldable pub mode_restore_cancel : ℕ → ℕ
mode_restore_cancel mode = mode_restore_none
