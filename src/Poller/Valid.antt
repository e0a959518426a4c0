-- ===== src/Poller/Valid.antt =====
-- What holds of the poller between any two of its calls, and the steps that keep it.
mod Tick
pub mod Runs
use mathlib.Core.Path.{subst}
use cardiag.Base.{
  Bool, List, Option, Option-cases, [], arith, false, if_split, inl, inr, length, ltb, none, refl,
  some, true, ℕ, ◌-◌, ◌∙◌, ◌∷◌, ◌≡◌, ◌≤◌,
}
use cardiag.PollPlan.{plan_valid}
use cardiag.PollPlan.Sched.{
  PollPidStats, no_stats, PollSched, reached, poll_sched_init, later_than, better, pick_from,
  is_none, position, poll_sched_pick, stats_at, entry_of, poll_sched_sent, holds,
  poll_sched_tx_failed, PollRx, answered, byte, first_frame_matches, single_frame_matches,
  on_frame_for, offered, poll_sched_on_frame, backoff_loop, poll_backoff_ms, timed_out, waited,
  poll_sched_check_timeout, rx_ignored, rx_ok, rx_multiframe,
}
use cardiag.PollPlan.Sched.Account.{IsValid}
use cardiag.PollPlan.Sched.Runs.{Event, tick, frame, check, on_event-IsValid, send_picked}
use cardiag.Bookend.Seq.{
  bookend_responders, BookendTiming, BookendTx, BookendAct, BookendStep, BookendSeq, mid_supported,
  seq_start, finish, step_done_at, step_done, padding, request_bytes, pid_or_0, request, first_set,
  next_mid, next_request_at, is_end, next_request, any_active, answered_or_capped, poll_request,
  seq_poll, handle_at, handle_message, on_iso_tp, seq_on_frame, seq_tx_failed, seq_should_write,
  bk_wait, bk_done, bk_send, step_pid01, step_m03, step_m07, step_m06_support, step_m06_mid,
  step_end,
}
use cardiag.Bookend.Seq.Flags.{Honest, seq_poll-Honest}
use cardiag.Bookend.Seq.Runs.{seq_on_frame-Honest, seq_tx_failed-Honest, seq_start-Honest}
use cardiag.Poller.{
  obd_resp_id_first, obd_resp_id_last, poll_rx_queue_len, pollplan_blob_max, bookend_rec_max,
  PollFrame, RxMessage, Poller, bk_timing, poller_zero, Out, Preferences, load_nvs, save_nvs,
  poller_begin, poller_enter, Inputs, bookend_write, bookend_start, poller_exit, poller_note_frame,
  SetResult, adopt, set_plan, poller_set_from_json, poller_entries, poller_any_reply, tx, began,
  wrote, refused, nvs_failed, applied, Kind, kind_end, kind_start,
}
use cardiag.Poller.Tick.{
  ign_off_debounce_ms, bookend_end_margin_ms, bookend_min_start_ms, bookend_start_budget_ms,
  obd_response_timeout_ms, obd_inter_request_ms, poll_backoff_max_ms, on_reply, on_replies, drain,
  is_end_kind, end_left, try_end, trip_boundary, bookend_triggers, emit, after_send, bookend_rounds,
  bookend_tick, plan_request, send_pick, plan_tick, serve, join, poller_tick, drained, act_on,
}

abbrev pub Room : Option (List PollFrame) → Type 0
Room none = Unit {0}
Room (some l) = length l ≤ poll_rx_queue_len

-- The plan is a valid one, and the one the schedule runs; a bookend runs only in MODE_POLL and
-- while the schedule has no request in flight; the queue holds no more than its size.
pub record Sound (p : Poller) : Type 0 where
  pub plan : plan_valid p.plan ≡ true
  pub has : p.has_plan ≡ ltb 0 (length p.plan)
  pub used : p.active ≡ true → p.sched.plan ≡ p.plan
  pub sched : IsValid p.sched
  pub honest : Honest p.bk
  pub alone : p.bk_active ≡ true → p.sched.inflight ≡ none
  pub idle : p.active ≡ false → p.bk_active ≡ false
  pub room : Room p.q

-- In MODE_POLL.
abbrev pub Live : Poller → Type 0
Live p = Sound p × (p.active ≡ true)

abbrev pub LiveAfter : Poller × List Out → Type 0
LiveAfter r = Live r.0

-- A step of the schedule that runs the same plan while no bookend runs.
pub with_sched :
    (p : Poller) (s : PollSched)
    → p.bk_active ≡ false
    → IsValid s
    → s.plan ≡ p.sched.plan
    → Live p
    → Live (record p { sched = s })
with_sched p s b v e (h, a) = (
  record {
    plan = h.plan;
    has = h.has;
    used = λ x. e ∙ h.used x;
    sched = v;
    honest = h.honest;
    alone = λ x. absurd (ground arith);
    idle = h.idle;
    room = h.room;
  },
  a,
)

-- A step of the bookend.
pub with_bk : (p : Poller) (s : BookendSeq) → Honest s → Sound p → Sound (record p { bk = s })
with_bk p s o h = record {
  plan = h.plan;
  has = h.has;
  used = h.used;
  sched = h.sched;
  honest = o;
  alone = h.alone;
  idle = h.idle;
  room = h.room;
}

-- A bookend that is over, or one that starts while the schedule waits.
pub with_running :
    (p : Poller) (b t x : Bool)
    → (b ≡ true → p.sched.inflight ≡ none)
    → (p.active ≡ false → b ≡ false)
    → Sound p
    → Sound (record p { bk_active = b; trip_started = t; end_tried = x })
with_running p b t x f i h = record {
  plan = h.plan;
  has = h.has;
  used = h.used;
  sched = h.sched;
  honest = h.honest;
  alone = f;
  idle = i;
  room = h.room;
}

pub on_frame-plan :
    (s : PollSched) (bytes : List ℕ) (dlc now : ℕ)
    → (poll_sched_on_frame s bytes dlc now).1.plan ≡ s.plan
unfolding poll_sched_on_frame offered on_frame_for
on_frame-plan s bytes dlc now = elim (Option-cases s.inflight) [
  | inl e ↦ rw e refl
  | inr (i, e) ↦ rw e (ground arith)
]

pub check_timeout-plan :
    (s : PollSched) (now t m : ℕ) → (poll_sched_check_timeout s now t m).1.plan ≡ s.plan
unfolding poll_sched_check_timeout waited timed_out
check_timeout-plan s now t m = elim (Option-cases s.inflight) [
  | inl e ↦ rw e refl
  | inr (i, e) ↦ rw e (ground arith)
]

pub sent-plan : (s : PollSched) (i now : ℕ) → (poll_sched_sent s i now).plan ≡ s.plan
unfolding poll_sched_sent
sent-plan s i now = ground arith

pub tx_failed-plan : (s : PollSched) (i now : ℕ) → (poll_sched_tx_failed s i now).plan ≡ s.plan
unfolding poll_sched_tx_failed
tx_failed-plan s i now = ground arith

on_reply-Live : (p : Poller) (now : ℕ) (f : PollFrame) → Live p → Live (on_reply p now f)
unfolding on_reply
on_reply-Live p now f (h, a) =
    if_split Live p.bk_active
      (λ b. (
        with_bk p (seq_on_frame p.bk f.id f.bytes f.dlc now)
            (seq_on_frame-Honest p.bk f.id f.bytes f.dlc now h.honest) h,
        a,
      ))
      (λ b.
        with_sched p (poll_sched_on_frame p.sched f.bytes f.dlc now).1 b
          (on_event-IsValid p.sched (now, frame f.bytes f.dlc) h.sched)
          (on_frame-plan p.sched f.bytes f.dlc now) (h, a))

on_replies-Live : (p : Poller) (now : ℕ) (l : List PollFrame) → Live p → Live (on_replies p now l)
unfolding on_replies
on_replies-Live p now [] h = h
on_replies-Live p now (f ∷ fs) h =
    on_replies-Live (on_reply p now f) now fs (on_reply-Live p now f h)

pub with_queue :
    (p : Poller) (q : Option (List PollFrame)) → Room q → Sound p → Sound (record p { q = q })
with_queue p q r h = record {
  plan = h.plan;
  has = h.has;
  used = h.used;
  sched = h.sched;
  honest = h.honest;
  alone = h.alone;
  idle = h.idle;
  room = r;
}

pub drained-Live :
    (p : Poller) (now : ℕ) (q : Option (List PollFrame)) → Live p → Live (drained q p now)
unfolding drained
drained-Live p now none h = h
drained-Live p now (some l) (h, a) =
    on_replies-Live (record p { q = some [] }) now l (with_queue p (some []) (omega arith) h, a)
