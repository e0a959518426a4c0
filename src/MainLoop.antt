-- ===== src/MainLoop.antt =====
-- The modes in firmware/src/main.cpp and the ignition in firmware/src/power.cpp: how a pass of
-- `loop` samples the ignition, changes the mode by it, by keys, by the button and by the web page,
-- restarts the controller, and runs the poller.
pub mod Events
pub mod Gap
pub mod Trip
use cardiag.Base.{
  Bool, List, Option, [], false, if◌then◌else◌, ltb, none, not, some, sub32, true, ℕ, ◌&&◌, ◌==◌,
  ◌||◌, ◌∷◌,
}
use cardiag.PowerPolicy.{
  PowerPolicy, IgnDebounce, ign_debounce, is_ignition, can_tx_gate, mode_restore_none,
  mode_restore_on_off, mode_restore_on_on, mode_restore_cancel,
}
use cardiag.PollPlan.{PollEntry}
use cardiag.Poller.{
  RxMessage, poller_note_frame, adopt, Poller, Inputs, Out, poller_enter, poller_exit,
}
use cardiag.Poller.Tick.{poller_tick, ign_off_debounce_ms, join}

abbrev pub mode_selftest : ℕ
mode_selftest = 0

abbrev pub mode_listen : ℕ
mode_listen = 1

abbrev pub mode_poll : ℕ
mode_poll = 2

abbrev pub mode_sniff : ℕ
mode_sniff = 3

abbrev pub ign_on_debounce_ms : ℕ
ign_on_debounce_ms = 200

abbrev pub poll_confirm_window_ms : ℕ
poll_confirm_window_ms = 5000

-- The variables of the two files that decide the mode, and the poller. The pending mode is `none`
-- for 0xFF.
pub record Main : Type 0 where
  pub policy : PowerPolicy
  pub ign : IgnDebounce
  pub mode : ℕ
  pub twai_up : Bool
  pub mode_restore : ℕ
  pub was_on : Bool
  pub pending_mode : Option ℕ
  pub pending_at_ms : ℕ
  pub poller : Poller

-- When a mode is applied: the time, the identity of the session and whether the controller starts.
pub record Moment : Type 0 where
  pub now : ℕ
  pub device_id : ℕ
  pub boot_id : ℕ
  pub starts : Bool

-- `modeTransmits`
abbrev pub mode_transmits : ℕ → Bool
mode_transmits m = m == mode_selftest || m == mode_poll

-- `powerIgnitionOn`
abbrev pub power_ignition_on : Main → Bool
power_ignition_on x = not (is_ignition x.policy) || x.ign.on

-- `powerIgnitionOffPending`, with the edge it reports.
abbrev pub power_ignition_off_pending : Main → Option ℕ
power_ignition_off_pending x =
    if not (is_ignition x.policy) || (not x.ign.init || (not x.ign.on || not x.ign.pending))
    then none
    else some x.ign.edge_ms

-- `canTxAllowed`
abbrev pub can_tx_allowed : Main → Bool
can_tx_allowed x = can_tx_gate x.policy (power_ignition_on x)

-- `powerLoop`
unfoldable pub power_loop : Main → Bool → ℕ → Main
power_loop x raw now =
    if not (is_ignition x.policy)
    then x
    else record x { ign = ign_debounce x.ign raw now ign_on_debounce_ms ign_off_debounce_ms }

-- Leaving a mode reads only the time and the identity.
abbrev pub leaving : Moment → Inputs
leaving m = record {
  now = m.now;
  write_ms = m.now;
  ignition_on = false;
  off_pending = none;
  device_id = m.device_id;
  boot_id = m.boot_id;
  sends = λ k. false;
}

-- `applyMode`, for the mode, the controller and the poller.
unfoldable pub apply_mode : Main → ℕ → Bool → Moment → Main × List Out
apply_mode x mode persist m =
    let (p, out) = poller_exit x.poller (leaving m) in
    (
      record x {
        mode_restore = if persist then mode_restore_cancel x.mode_restore else x.mode_restore;
        mode = mode;
        twai_up = m.starts;
        poller = if m.starts && mode == mode_poll then poller_enter p m.now else p;
      },
      out,
    )

-- `ignitionPowerTick` with the ignition on.
unfoldable pub ignition_is_on : Main → Moment → Main × List Out
unfolding apply_mode
ignition_is_on x m =
    let (kept, back) = mode_restore_on_on x.mode_restore (can_tx_allowed x) in
    let a = record x { mode_restore = kept; was_on = true } in
    if x.was_on
    then (x, [])
    else if back == mode_restore_none || back == x.mode
    then (a, [])
    else apply_mode a back false m

-- `ignitionPowerTick` with the ignition off, up to the power-down.
unfoldable pub ignition_is_off : Main → Moment → Main × List Out
unfolding apply_mode
ignition_is_off x m =
    let a = record x { was_on = false } in
    if mode_transmits x.mode
    then apply_mode (record a { mode_restore = mode_restore_on_off x.mode_restore x.mode true })
        mode_listen false m
    else (a, [])

-- `ignitionPowerTick`, which `loop` calls under the ignition policy.
unfoldable pub ignition_power_tick : Main → Moment → Main × List Out
unfolding ignition_is_on ignition_is_off
ignition_power_tick x m =
    if not (is_ignition x.policy)
    then (x, [])
    else if power_ignition_on x
    then ignition_is_on x m
    else ignition_is_off x m

-- `requestMode`
unfoldable pub request_mode : Main → ℕ → Moment → Main × List Out
unfolding apply_mode
request_mode x mode m =
    if mode_transmits mode && not (can_tx_allowed x)
    then (x, [])
    else if mode == x.mode
    then (x, [])
    else if mode_transmits mode
    then (record x { pending_mode = some mode; pending_at_ms = m.now }, [])
    else apply_mode x mode true m

-- The keys that ask for a mode.
unfoldable pub pressed : Main → ℕ → Moment → Main × List Out
unfolding request_mode
pressed x ch m =
    if ch == b'1'
    then request_mode x mode_listen m
    else if ch == b'2'
    then request_mode x mode_sniff m
    else if ch == b'3'
    then request_mode x mode_selftest m
    else if ch == b'4'
    then request_mode x mode_poll m
    else (x, [])

-- `handleKeys` for one character that the credential console leaves, with the pending mode as an
-- argument of its own.
unfoldable pub key_at : Option ℕ → Main → ℕ × Moment → Main × List Out
unfolding pressed
key_at none x (ch, m) = pressed x ch m
key_at (some mode) x (ch, m) =
    let a = record x { pending_mode = none } in
    if ch == b'y' || ch == b'Y' then apply_mode a mode true m else (a, [])

-- `handleButton`, on a release.
unfoldable pub on_button : Main → Moment → Main × List Out
unfolding apply_mode
on_button x m = apply_mode x (if x.mode == mode_sniff then mode_listen else mode_sniff) true m

-- `cardiagSetPassiveMode`
unfoldable pub set_passive_mode : Main → ℕ → Moment → Bool × Main × List Out
unfolding apply_mode
set_passive_mode x mode m =
    if not (mode == mode_listen) && not (mode == mode_sniff)
    then (false, x, [])
    else if mode == x.mode
    then (true, x, [])
    else let (y, out) = apply_mode x mode true m in (true, y, out)

-- What can come up between the ignition and the poller in a pass; the restart is the end of
-- `canRecoveryTick`, a received frame is the part of `canTask` for the poller, and a stored plan is
-- one that `pollerSetFromJson` accepted and wrote. A frame of the other task that comes before the
-- ignition's turn is as one after it: that turn does not read the queue, and it either leaves the
-- mode as it is, or the queue is emptied before it is read.
pub data Event : Type 0 where
  key : ℕ → Moment → Event
  expire : ℕ → Event
  button : Moment → Event
  web : ℕ → Moment → Event
  restart : Moment → Event
  received : RxMessage → Event
  plan_stored : List PollEntry → ℕ → Event

-- `canTask` for one frame: `pollerNoteFrame` in MODE_POLL.
unfoldable pub note_received : Main → RxMessage → Main
note_received x rx = record x {
  poller = if x.mode == mode_poll then poller_note_frame x.poller rx else x.poller;
}

abbrev pub on_event : Main → Event → Main × List Out
on_event x (key ch m) = key_at x.pending_mode x (ch, m)
on_event x (expire now) = (
  record x {
    pending_mode =
        if ltb poll_confirm_window_ms (sub32 now x.pending_at_ms) then none else x.pending_mode;
  },
  [],
)
on_event x (button m) = on_button x m
on_event x (web mode m) = let (ok, y, out) = set_passive_mode x mode m in (y, out)
on_event x (restart m) = if x.twai_up then apply_mode x x.mode false m else (x, [])
on_event x (received rx) = (note_received x rx, [])
on_event x (plan_stored plan now) = (record x { poller = adopt x.poller plan now }, [])

unfoldable pub on_events : Main → List Event → Main × List Out
on_events x [] = (x, [])
on_events x (e ∷ es) = let (y, out) = on_event x e in join out (on_events y es)

-- What a pass finds: the ignition input, then the events, then what the poller reads.
pub record Pass : Type 0 where
  pub raw : Bool
  pub sampled_ms : ℕ
  pub ignition : Moment
  pub events : List Event
  pub now : ℕ
  pub write_ms : ℕ
  pub device_id : ℕ
  pub boot_id : ℕ
  pub driver : ℕ → Bool

-- What the poller is told; `canTransmit` asks the gate, then the driver.
abbrev pub inputs : Main → Pass → Inputs
inputs x p = record {
  now = p.now;
  write_ms = p.write_ms;
  ignition_on = power_ignition_on x;
  off_pending = power_ignition_off_pending x;
  device_id = p.device_id;
  boot_id = p.boot_id;
  sends = λ k. can_tx_allowed x && p.driver k;
}

-- The end of the pass.
unfoldable pub poll_mode : Main → Pass → Main × List Out
poll_mode x p =
    let (q, out) = poller_tick x.poller (inputs x p) in
    if x.twai_up && x.mode == mode_poll then (record x { poller = q }, out) else (x, [])

-- `loop`
unfoldable pub loop : Main → Pass → Main × List Out
unfolding power_loop ignition_power_tick on_events poll_mode
loop x p =
    let (a, out) = ignition_power_tick (power_loop x p.raw p.sampled_ms) p.ignition in
    let (b, more) = on_events a p.events in join out (join more (poll_mode b p))

unfoldable pub loops : Main → List Pass → Main × List Out
unfolding loop
loops x [] = (x, [])
loops x (p ∷ ps) = let (y, out) = loop x p in join out (loops y ps)
