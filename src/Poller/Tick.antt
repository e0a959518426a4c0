-- ===== src/Poller/Tick.antt =====
-- A pass of `pollerTick` in firmware/src/poller.cpp: the replies, the trip boundaries, then either
-- the bookend or the plan.
use cardiag.Base.{
  Bool, List, Option, [], false, if◌then◌else◌, lt_i32, none, not, replicate, some, sub32, suc,
  true, u32, zero, ℕ, ◌&&◌, ◌++◌, ◌+◌, ◌-◌, ◌∷◌,
}
use cardiag.PollPlan.Sched.{
  poll_sched_on_frame, poll_sched_check_timeout, poll_sched_pick, poll_sched_sent,
  poll_sched_tx_failed, is_none, entry_of,
}
use cardiag.Bookend.{Kind, kind_start, kind_end}
use cardiag.Bookend.Seq.{
  BookendSeq, seq_poll, seq_on_frame, seq_tx_failed, bk_wait, bk_done, bk_send, BookendAct,
}
use cardiag.Poller.{Poller, PollFrame, Inputs, Out, tx, bookend_write, bookend_start}

abbrev pub ign_off_debounce_ms : ℕ
ign_off_debounce_ms = 2000

abbrev pub bookend_end_margin_ms : ℕ
bookend_end_margin_ms = 300

abbrev pub bookend_min_start_ms : ℕ
bookend_min_start_ms = 150

abbrev pub bookend_start_budget_ms : ℕ
bookend_start_budget_ms = 5000

abbrev pub obd_response_timeout_ms : ℕ
obd_response_timeout_ms = 100

abbrev pub obd_inter_request_ms : ℕ
obd_inter_request_ms = 5

abbrev pub poll_backoff_max_ms : ℕ
poll_backoff_max_ms = 30000

-- A queued reply goes to the bookend while one runs, else to the schedule.
unfoldable pub on_reply : Poller → ℕ → PollFrame → Poller
on_reply p now f =
    if p.bk_active
    then record p { bk = seq_on_frame p.bk f.id f.bytes f.dlc now }
    else record p { sched = (poll_sched_on_frame p.sched f.bytes f.dlc now).1 }

unfoldable pub on_replies : Poller → ℕ → List PollFrame → Poller
on_replies p now [] = p
on_replies p now (f ∷ fs) = on_replies (on_reply p now f) now fs

-- The loop over the queue.
unfoldable pub drained : Option (List PollFrame) → Poller → ℕ → Poller
drained none p now = p
drained (some l) p now = on_replies (record p { q = some [] }) now l

abbrev pub drain : Poller → ℕ → Poller
drain p now = drained p.q p now

abbrev pub is_end_kind : Kind → Bool
is_end_kind kind_start = false
is_end_kind kind_end = true

-- The time left for an END read: the `uint32_t` whose sign the source looks at.
abbrev pub end_left : ℕ → ℕ → ℕ
end_left edge now = sub32 (u32 (edge + ign_off_debounce_ms - bookend_end_margin_ms)) now

-- The tail of `bookendTriggers`: the OFF at `edge` is pending and no END was tried for it.
unfoldable pub try_end : Poller → ℕ → ℕ → Poller × List Out
try_end p edge now =
    let q = record p { end_tried = true } in
    if lt_i32 (end_left edge now) bookend_min_start_ms
    then (q, [])
    else bookend_start q kind_end now (end_left edge now)

-- `bookendTriggers` with the ignition on and no bookend running.
unfoldable pub trip_boundary : Poller → Option ℕ → ℕ → Poller × List Out
unfolding try_end
trip_boundary p none now =
    let a = record p { end_tried = false } in
    if not (is_none p.sched.inflight)
    then (a, [])
    else if not p.trip_started && p.sched.any_ok
    then bookend_start (record a { trip_started = true }) kind_start now bookend_start_budget_ms
    else (a, [])
trip_boundary p (some edge) now =
    if not (is_none p.sched.inflight)
    then (p, [])
    else if p.trip_started && not p.end_tried
    then try_end p edge now
    else (p, [])

-- `bookendTriggers`
unfoldable pub bookend_triggers : Poller → Inputs → Poller × List Out
unfolding trip_boundary
bookend_triggers p e =
    if p.bk_active
    then (
      if is_end_kind p.bk.d.kind && (is_none e.off_pending && e.ignition_on)
          then record p { bk_active = false; end_tried = false }
          else p,
      [],
    )
    else if not e.ignition_on
    then (record p { trip_started = false; end_tried = false }, [])
    else trip_boundary p e.off_pending e.now

abbrev pub emit : Out → Poller × List Out → Poller × List Out
emit o (p, out) = (p, o ∷ out)

-- The state after the bookend's frame was handed over.
abbrev pub after_send : Poller → BookendSeq → Bool → Poller
after_send p s ok = record p { bk = if ok then s else seq_tx_failed s }

-- What a round does with the answer of `bookendSeqPoll`, before the rest of the loop.
unfoldable pub act_on : BookendAct → Poller → Inputs → Bool → Poller × List Out → Poller × List Out
act_on bk_done q e ok rest = bookend_write q e
act_on bk_wait q e ok rest = (q, [])
act_on (bk_send t) q e ok rest = emit (tx t.id t.bytes ok) rest

-- The loop of `bookendTick`, with `n` rounds left after `k`.
unfoldable pub bookend_rounds : ℕ → ℕ → Poller → Inputs → Poller × List Out
unfolding act_on
bookend_rounds zero k p e = (p, [])
bookend_rounds (suc n) k p e =
    let (act, s) = seq_poll p.bk e.now in
    let rest = bookend_rounds n (k + 1) (after_send p s (e.sends k)) e in
    act_on act (record p { bk = s }) e (e.sends k) rest

-- `bookendTick`
unfoldable pub bookend_tick : Poller → Inputs → Poller × List Out
unfolding bookend_rounds
bookend_tick p e = bookend_rounds 4 0 p e

abbrev pub plan_request : ℕ → ℕ → List ℕ
plan_request mode pid = 2 ∷ mode ∷ pid ∷ replicate 5 0x55

-- The end of `pollerTick`: the picked request is sent.
unfoldable pub send_pick : Poller → Inputs → Option ℕ → Poller × List Out
send_pick p e none = (p, [])
send_pick p e (some i) =
    let x = entry_of p.sched i in
    (
      record p {
        sched =
            if e.sends 0
            then poll_sched_sent p.sched i e.now
            else poll_sched_tx_failed p.sched i e.now;
      },
      tx 0x7DF (plan_request x.mode x.pid) (e.sends 0) ∷ [],
    )

-- `pollerTick` when no bookend runs.
unfoldable pub plan_tick : Poller → Inputs → Poller × List Out
unfolding send_pick
plan_tick p e =
    let s =
      (poll_sched_check_timeout p.sched e.now obd_response_timeout_ms poll_backoff_max_ms).1 in
    send_pick (record p { sched = s }) e (poll_sched_pick s e.now obd_inter_request_ms)

-- `pollerTick`, after the trip boundaries.
unfoldable pub serve : Poller → Inputs → Poller × List Out
serve p e = if p.bk_active then bookend_tick p e else plan_tick p e

abbrev pub join : {A : Type 0} → List Out → A × List Out → A × List Out
join o (p, out) = (p, o ++ out)

-- `pollerTick`
unfoldable pub poller_tick : Poller → Inputs → Poller × List Out
poller_tick p e =
    let a = drain p e.now in
    let (b, out) = if a.has_plan then bookend_triggers a e else (a, []) in
    if not p.active then (p, []) else join out (serve b e)
