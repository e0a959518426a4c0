-- ===== src/Poller/Valid/Tick.antt =====
-- A pass of the poller keeps it sound.
use mathlib.Core.Path.{subst}
use cardiag.Base.{
  Bool, Bool-cases, List, Option, [], arith, false, if_both, if_split, if◌then◌else◌, inl, inr,
  lt_i32, none, not, refl, some, suc, sym, true, zero, ℕ, ◌&&◌, ◌+◌, ◌≡◌,
}
use cardiag.PollPlan.Sched.{PollSched, is_none, poll_sched_pick, poll_sched_check_timeout}
use cardiag.PollPlan.Sched.Account.{IsValid}
use cardiag.PollPlan.Sched.Runs.{tick, check, on_event-IsValid, send_picked}
use cardiag.Bookend.Seq.{BookendAct, seq_poll, seq_tx_failed, bk_wait, bk_done, bk_send}
use cardiag.Bookend.Seq.Flags.{Honest, seq_poll-Honest}
use cardiag.Bookend.Seq.Runs.{seq_tx_failed-Honest, seq_start-Honest}
use cardiag.Poller.{
  Poller, bk_timing, Out, Inputs, bookend_write, bookend_start, Kind, kind_end, kind_start,
}
use cardiag.Poller.Tick.{
  bookend_min_start_ms, bookend_start_budget_ms, obd_response_timeout_ms, obd_inter_request_ms,
  poll_backoff_max_ms, drain, is_end_kind, end_left, try_end, trip_boundary, bookend_triggers,
  after_send, bookend_rounds, bookend_tick, send_pick, plan_tick, serve, join, poller_tick, act_on,
}
use cardiag.Poller.Valid.{
  Sound, Live, LiveAfter, with_sched, with_bk, with_running, check_timeout-plan, sent-plan,
  tx_failed-plan, drained-Live,
}

bookend_start-Live :
    (p : Poller) (k : Kind) (now budget_ms : ℕ)
    → p.sched.inflight ≡ none
    → Live p
    → Live (bookend_start p k now budget_ms).0
unfolding bookend_start
bookend_start-Live p k now budget_ms f (h, a) = (
  record {
    plan = h.plan;
    has = h.has;
    used = h.used;
    sched = h.sched;
    honest = seq_start-Honest k now budget_ms bk_timing;
    alone = λ x. f;
    idle = λ x. absurd (ground arith);
    room = h.room;
  },
  a,
)

with_ends : (p : Poller) (t x : Bool) → Live p → Live (record p { trip_started = t; end_tried = x })
with_ends p t x (h, a) = (with_running p p.bk_active t x h.alone h.idle h, a)

try_end-Live :
    (p : Poller) (edge now : ℕ) → p.sched.inflight ≡ none → Live p → Live (try_end p edge now).0
unfolding try_end
try_end-Live p edge now f h =
    let q = record p { end_tried = true } in
    if_both LiveAfter (lt_i32 (end_left edge now) bookend_min_start_ms)
      (with_ends p p.trip_started true h)
      (bookend_start-Live q kind_end now (end_left edge now) f (with_ends p p.trip_started true h))

is_none-none {ℓ} : {A : Type ℓ} (o : Option A) → not (is_none o) ≡ false → o ≡ none
is_none-none none h = refl
is_none-none (some a) h = absurd (ground arith)

trip_boundary-Live : (p : Poller) (o : Option ℕ) (now : ℕ) → Live p → Live (trip_boundary p o now).0
unfolding trip_boundary
trip_boundary-Live p none now h =
    let a = record p { end_tried = false } in
    let va = with_ends p p.trip_started false h in
    if_split LiveAfter (not (is_none p.sched.inflight)) (λ x. va)
      (λ f.
        if_both LiveAfter (not p.trip_started && p.sched.any_ok)
          (bookend_start-Live (record a { trip_started = true }) kind_start now
            bookend_start_budget_ms (is_none-none p.sched.inflight f) (with_ends p true false h))
          va)
trip_boundary-Live p (some edge) now h =
    if_split LiveAfter (not (is_none p.sched.inflight)) (λ x. h)
      (λ f.
        if_both LiveAfter (p.trip_started && not p.end_tried)
          (try_end-Live p edge now (is_none-none p.sched.inflight f) h) h)

bookend_triggers-Live : (p : Poller) (e : Inputs) → Live p → Live (bookend_triggers p e).0
unfolding bookend_triggers
bookend_triggers-Live p e (h, a) =
    if_both LiveAfter p.bk_active
      (if_both Live (is_end_kind p.bk.d.kind && (is_none e.off_pending && e.ignition_on))
        (with_running p false p.trip_started false (λ x. absurd (ground arith)) (λ x. refl) h, a)
        (h, a))
      (if_both LiveAfter (not e.ignition_on) (with_ends p false false (h, a))
        (trip_boundary-Live p e.off_pending e.now (h, a)))

bookend_write-Sound : (p : Poller) (e : Inputs) → Sound p → Sound (bookend_write p e).0
unfolding bookend_write
bookend_write-Sound p e h =
    with_running p false p.trip_started p.end_tried (λ x. absurd (ground arith)) (λ x. refl) h

bookend_write-Live : (p : Poller) (e : Inputs) → Live p → Live (bookend_write p e).0
unfolding bookend_write
bookend_write-Live p e (h, a) = (bookend_write-Sound p e h, a)

act_on-Live :
    (act : BookendAct) (q : Poller) (e : Inputs) (ok : Bool) (rest : Poller × List Out)
    → Live q
    → Live rest.0
    → Live (act_on act q e ok rest).0
unfolding act_on
act_on-Live bk_done q e ok rest h r = bookend_write-Live q e h
act_on-Live bk_wait q e ok rest h r = h
act_on-Live (bk_send t) q e ok rest h r = r

bookend_rounds-Live : (n k : ℕ) (p : Poller) (e : Inputs) → Live p → Live (bookend_rounds n k p e).0
unfolding bookend_rounds
bookend_rounds-Live zero k p e h = h
bookend_rounds-Live (suc n) k p e (h, a) =
    let (act, s) = seq_poll p.bk e.now in
    let o = seq_poll-Honest p.bk e.now h.honest in
    let sent =
      with_bk p (if e.sends k then s else seq_tx_failed s)
        (if_both Honest (e.sends k) o (seq_tx_failed-Honest s o)) h in
    let rest = bookend_rounds n (k + 1) (after_send p s (e.sends k)) e in
    act_on-Live act (record p { bk = s }) e (e.sends k) rest (with_bk p s o h, a)
      (bookend_rounds-Live n (k + 1) (after_send p s (e.sends k)) e (sent, a))

send_pick-Live :
    (p : Poller) (e : Inputs) (o : Option ℕ)
    → p.bk_active ≡ false
    → IsValid (send_picked p.sched e.now (e.sends 0) o)
    → Live p
    → Live (send_pick p e o).0
unfolding send_pick send_picked
send_pick-Live p e none b v h = h
send_pick-Live p e (some i) b v h =
    with_sched p _ b v
      (if_both (λ (s : PollSched). s.plan ≡ p.sched.plan) (e.sends 0) (sent-plan p.sched i e.now)
        (tx_failed-plan p.sched i e.now))
      h

plan_tick-Live : (p : Poller) (e : Inputs) → p.bk_active ≡ false → Live p → Live (plan_tick p e).0
unfolding plan_tick
plan_tick-Live p e b (h, a) =
    let s =
      (poll_sched_check_timeout p.sched e.now obd_response_timeout_ms poll_backoff_max_ms).1 in
    let v =
      on_event-IsValid p.sched (e.now, check obd_response_timeout_ms poll_backoff_max_ms) h.sched in
    let f = check_timeout-plan p.sched e.now obd_response_timeout_ms poll_backoff_max_ms in
    send_pick-Live (record p { sched = s }) e (poll_sched_pick s e.now obd_inter_request_ms) b
      (on_event-IsValid s (e.now, tick obd_inter_request_ms (e.sends 0)) v)
      (with_sched p s b v f (h, a))

serve-Live : (p : Poller) (e : Inputs) → Live p → Live (serve p e).0
unfolding serve bookend_tick
serve-Live p e h =
    if_split LiveAfter p.bk_active (λ b. bookend_rounds-Live 4 0 p e h)
      (λ b. plan_tick-Live p e b h)

pub poller_tick-Sound : (p : Poller) (e : Inputs) → Sound p → Sound (poller_tick p e).0
unfolding poller_tick
poller_tick-Sound p e h = elim (Bool-cases p.active) [
  | inl a ↦
      let d = drain p e.now in
      let l = drained-Live p e.now p.q (h, a) in
      let b = if d.has_plan then bookend_triggers d e else (d, []) in
      let r = serve-Live b.0 e (if_both LiveAfter d.has_plan (bookend_triggers-Live d e l) l) in
      subst (λ x. Sound (if not x then (p, []) else join b.1 (serve b.0 e)).0) (sym a) r.0
  | inr a ↦
      let d = drain p e.now in
      let b = if d.has_plan then bookend_triggers d e else (d, []) in
      subst (λ x. Sound (if not x then (p, []) else join b.1 (serve b.0 e)).0) (sym a) h
]
