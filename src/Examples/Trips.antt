-- ===== src/Examples/Trips.antt =====
-- A plan that survives a reboot, and the loop over two ignition cycles.
use cardiag.Base.{
  All, Bool, List, Option, [], ap, arith, false, length, none, refl, some, take, true, ℕ, ◌∷◌, ◌≡◌,
  ◌≤◌, codes,
}
use cardiag.PowerPolicy.{
  ignition, ign_debounce, can_tx_gate, mode_restore_on_off, mode_restore_on_on, mode_restore_cancel,
}
use cardiag.PollPlan.{PollEntry, cmp_entry}
use cardiag.PollPlan.Json.{ws, eat, str_step, str_loop, jstr, skip_digits, digits_value, jnum, jlit}
use cardiag.PollPlan.Json.Skip.{skip_json, well_formed}
use cardiag.PollPlan.Contract.{
  run, one_field, check_entry, insert, one_entry, one_key, contract, poll_plan_parse, plan_ok,
}
use cardiag.PollPlan.Hash.{poll_plan_hash}
use cardiag.PollPlan.Codec.{poll_plan_encode}
use cardiag.PollPlan.Sched.{
  poll_sched_init, better, pick_from, poll_sched_pick, poll_sched_sent, poll_sched_tx_failed,
  on_frame_for, offered, poll_sched_on_frame, backoff_loop, poll_backoff_ms, timed_out, waited,
  poll_sched_check_timeout,
}
use cardiag.Bookend.{kind_end, bookend_init}
use cardiag.Poller.{
  RxMessage, Poller, poller_zero, Preferences, save_nvs, poller_begin, poller_enter, Inputs,
  bookend_start, set_plan, poller_set_from_json, began, applied, bookend_write, poller_exit, noted,
  adopt,
}
use cardiag.Poller.Tick.{
  try_end, trip_boundary, bookend_triggers, on_reply, on_replies, drained, act_on, bookend_rounds,
  bookend_tick, send_pick, plan_tick, serve, poller_tick,
}
use cardiag.Poller.Trips.{started, Trips}
use cardiag.Poller.Stored.{Keeps, set_from_json-poller_begin}
use cardiag.Poller.Valid.{Sound}
use cardiag.Poller.Valid.Runs.{
  Call, call_all, poller_begin-call_all, ticks, notes, enters, exits, sets,
}
use cardiag.Poller.Window.{Timely, bookend_triggers-Timely}
use cardiag.MainLoop.{
  received, plan_stored, mode_listen, mode_poll, Main, Moment, Event, Pass, loops, key, expire,
  button, web, restart, power_loop, apply_mode, ignition_is_on, ignition_is_off,
  ignition_power_tick, note_received, on_events, poll_mode, loop,
}
use cardiag.Bookend.Seq.{
  seq_start, seq_poll, poll_request, next_request, next_request_at, request, first_set,
  seq_on_frame, seq_tx_failed, finish, on_iso_tp, handle_message, seq_should_write, step_done_at,
}
use cardiag.Bookend.Encode.{bookend_encode}
use cardiag.MainLoop.Events.{confirms, transmitted}
use cardiag.MainLoop.Gap.{Passive, Unconfirmed, loops-Passive}
use cardiag.MainLoop.Trip.{loops_one_start}

-- A key-value store with the one key.
abbrev Store : Type 0
Store = Option (List ℕ)

abbrev held : Store → List ℕ
held none = []
held (some b) = b

abbrev has : Store → Bool
has none = false
has (some b) = true

abbrev memory : Preferences Store
memory = record {
  begin = λ s. true;
  is_key = has;
  get_bytes_length = λ s. length (held s);
  get_bytes = λ s n. take n (held s);
  put_bytes = λ s b. (length b, some b);
  remove = λ s. (true, none);
}

take-length : (b : List ℕ) → take (length b) b ≡ b
take-length [] = refl
take-length (x ∷ xs) = ap (λ l. x ∷ l) (take-length xs)

memory-Keeps : Keeps memory
memory-Keeps = record { put = λ s b e. (refl, refl, take-length b); removed = λ s e. refl }

abbrev body : List ℕ
body = codes "{\"version\":1,\"entries\":[{\"mode\":1,\"pid\":12,\"period_ms\":1000}]}"

abbrev one_plan : List PollEntry
one_plan = record { mode = 1; pid = 12; period_ms = 1000 } ∷ []

body_accepted : poll_plan_parse body ≡ plan_ok one_plan
unfolding poll_plan_parse well_formed skip_json ws eat jstr str_loop str_step jnum skip_digits
    contract run one_key digits_value one_entry one_field check_entry insert jlit cmp_entry
body_accepted = refl

applied_plan :
    (poller_set_from_json memory none poller_zero body 0).0 ≡ applied (poll_plan_hash one_plan)
unfolding poller_set_from_json set_plan save_nvs poll_plan_encode
applied_plan = rw body_accepted refl

opens : memory.begin (poller_set_from_json memory none poller_zero body 0).1 ≡ true
opens = refl

set_from_json-poller_begin_example :
    let x = poller_set_from_json memory none poller_zero body 0 in
    let b = poller_begin memory x.1 true poller_zero in
    (b.plan ≡ x.2.plan)
    × (b.has_plan ≡ x.2.has_plan)
    × (b.nvs_ok ≡ true)
    × (poll_plan_hash b.plan ≡ poll_plan_hash one_plan)
set_from_json-poller_begin_example =
    set_from_json-poller_begin memory memory-Keeps none poller_zero body (poll_plan_hash one_plan) 0
      true applied_plan opens

abbrev answer : RxMessage
answer = record {
  extd = false;
  identifier = 0x7E8;
  data_length_code = 8;
  bytes = 4 ∷ 0x41 ∷ 12 ∷ 0x1A ∷ 0xF8 ∷ 0 ∷ 0 ∷ 0 ∷ [];
}

abbrev moment : ℕ → Inputs
moment time = record {
  now = time;
  write_ms = time;
  ignition_on = true;
  off_pending = none;
  device_id = 7;
  boot_id = 3;
  sends = λ k. true;
}

abbrev calls : List Call
calls =
    sets body 0
    ∷ enters 10
    ∷ ticks (moment 20)
    ∷ notes answer
    ∷ ticks (moment 40)
    ∷ ticks (moment 60)
    ∷ exits (moment 80)
    ∷ []

poller_begin-call_all_example :
    Sound (call_all memory (none, poller_begin memory none true poller_zero) calls).1
poller_begin-call_all_example = poller_begin-call_all memory none true calls

-- The ignition is off for longer than the debounce in the middle of the run.
abbrev input : Bool → ℕ → List Event → Pass
input raw time events = record {
  raw = raw;
  sampled_ms = time;
  ignition = record { now = time; device_id = 7; boot_id = 3; starts = true };
  events = events;
  now = time;
  write_ms = time;
  device_id = 7;
  boot_id = 3;
  driver = λ k. true;
}

abbrev step_of : ℕ → Moment
step_of time = record { now = time; device_id = 7; boot_id = 3; starts = true }

-- Each time the ignition is on, a request is answered; a plan is stored between the two trips.
abbrev two_cycles : List Pass
two_cycles =
    input true 100 []
    ∷ input true 140 (received answer ∷ [])
    ∷ input true 150 []
    ∷ input false 1000 []
    ∷ input false 3100 (expire 3100 ∷ [])
    ∷ input false 3200 (plan_stored one_plan 3200 ∷ [])
    ∷ input true 4000 []
    ∷ input true 4300 (restart (step_of 4300) ∷ [])
    ∷ input true 4340 (received answer ∷ [])
    ∷ input true 4350 []
    ∷ []

abbrev at_boot : ℕ → Main
at_boot mode = record {
  policy = ignition;
  ign = record { init = false; on = false; pending = false; edge_ms = 0; since_ms = 0 };
  mode = mode;
  twai_up = true;
  mode_restore = 0xff;
  was_on = true;
  pending_mode = none;
  pending_at_ms = 0;
  poller = poller_enter (record poller_zero { plan = one_plan; has_plan = true; q = some [] }) 50;
}

two_cycles-Unconfirmed : All Unconfirmed two_cycles
unfolding confirms
two_cycles-Unconfirmed = (
  tt,
  ((refl, tt), (tt, (tt, ((refl, tt), ((refl, tt), (tt, ((refl, tt), ((refl, tt), (tt, tt))))))))),
)

-- The first trip is begun, once the first request is answered; the second is not, although a request
-- is answered again.
start_of_first : started (loops (at_boot mode_poll) (take 3 two_cycles)).1 ≡ 1
unfolding power_loop apply_mode ignition_is_on ignition_is_off ignition_power_tick note_received
    on_events poll_mode loop loops poller_enter bookend_write bookend_start poller_exit noted adopt
    on_reply on_replies drained try_end trip_boundary bookend_triggers act_on bookend_rounds
    bookend_tick send_pick plan_tick serve poller_tick poll_sched_init better pick_from
    poll_sched_pick poll_sched_sent poll_sched_tx_failed on_frame_for offered poll_sched_on_frame
    backoff_loop poll_backoff_ms timed_out waited poll_sched_check_timeout ign_debounce can_tx_gate
    mode_restore_on_off mode_restore_on_on mode_restore_cancel seq_start seq_poll poll_request
    next_request next_request_at request first_set seq_on_frame seq_tx_failed finish on_iso_tp
    handle_message seq_should_write step_done_at started Trips bookend_init
start_of_first = refl

no_start_of_second :
    let (x, out) = loops (at_boot mode_poll) two_cycles in
    (started out ≡ 1) × (x.poller.sched.any_ok ≡ true) × (x.mode ≡ mode_poll)
unfolding power_loop apply_mode ignition_is_on ignition_is_off ignition_power_tick note_received
    on_events poll_mode loop loops poller_enter bookend_write bookend_start poller_exit noted adopt
    on_reply on_replies drained try_end trip_boundary bookend_triggers act_on bookend_rounds
    bookend_tick send_pick plan_tick serve poller_tick poll_sched_init better pick_from
    poll_sched_pick poll_sched_sent poll_sched_tx_failed on_frame_for offered poll_sched_on_frame
    backoff_loop poll_backoff_ms timed_out waited poll_sched_check_timeout ign_debounce can_tx_gate
    mode_restore_on_off mode_restore_on_on mode_restore_cancel seq_start seq_poll poll_request
    next_request next_request_at request first_set seq_on_frame seq_tx_failed finish on_iso_tp
    handle_message seq_should_write step_done_at started Trips bookend_init bookend_encode
no_start_of_second = (refl, refl, refl)

loops_one_start_example :
    (started (loops (at_boot mode_poll) two_cycles).1 ≤ 1)
    × ((at_boot mode_poll).poller.trip_started ≡ true
        → started (loops (at_boot mode_poll) two_cycles).1 ≡ 0)
loops_one_start_example = loops_one_start (at_boot mode_poll) two_cycles two_cycles-Unconfirmed

-- Keys, the button and the web page, with no confirmation.
abbrev touched : List Pass
touched =
    input true 100 (key b'4' (step_of 110) ∷ key b'n' (step_of 120) ∷ [])
    ∷ input true 200 (button (step_of 210) ∷ web 2 (step_of 220) ∷ [])
    ∷ input false 300 (web 1 (step_of 310) ∷ key b'3' (step_of 320) ∷ expire 9000 ∷ [])
    ∷ []

touched-Unconfirmed : All Unconfirmed touched
unfolding confirms
touched-Unconfirmed = ((refl, (refl, tt)), ((refl, (refl, tt)), ((refl, (refl, (refl, tt))), tt)))

loops-Passive_example :
    (transmitted (loops (at_boot mode_listen) touched).1 ≡ 0)
    × Passive (loops (at_boot mode_listen) touched).0
loops-Passive_example =
    loops-Passive (at_boot mode_listen) touched touched-Unconfirmed
      (record { mode = refl; restore = refl })

-- The key goes off 400 ms before the pass, in a trip whose start was recorded.
abbrev leaving_car : Poller
leaving_car = record poller_zero { trip_started = true }

abbrev key_off : Inputs
key_off = record (moment 10400) { off_pending = some 10000 }

key_off-began : (bookend_triggers leaving_car key_off).1 ≡ began kind_end 1300 ∷ []
unfolding bookend_triggers trip_boundary try_end bookend_start poll_sched_init
key_off-began = refl

bookend_triggers-Timely_example :
    Timely 10000 400 1300 (bookend_triggers leaving_car key_off).0.bk.deadline
bookend_triggers-Timely_example =
    bookend_triggers-Timely leaving_car key_off 10000 400 1300 (omega arith) (omega arith) refl refl
      key_off-began
