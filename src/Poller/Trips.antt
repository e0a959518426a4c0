-- ===== src/Poller/Trips.antt =====
-- How many trip starts a pass of the poller begins.
use cardiag.Base.{
  Bool, List, Option, [], arith, false, if_both, if_split, if◌then◌else◌, length, lt_i32, none, not,
  refl, some, suc, true, zero, ℕ, ◌&&◌, ◌++◌, ◌+◌, ◌==◌, ◌||◌, ◌∙◌, ◌∷◌, ◌≡◌,
}
use cardiag.PollPlan.Sched.{is_none, poll_sched_check_timeout, poll_sched_pick}
use cardiag.Bookend.{kind_start, kind_end}
use cardiag.Bookend.Seq.{BookendAct, seq_poll, seq_should_write, bk_wait, bk_done, bk_send}
use cardiag.Bookend.Encode.{bookend_encode}
use cardiag.Poller.{
  bookend_rec_max, PollFrame, Poller, Out, Inputs, bookend_write, bookend_start, tx, began, wrote,
}
use cardiag.Poller.Tick.{
  bookend_min_start_ms, bookend_start_budget_ms, obd_response_timeout_ms, obd_inter_request_ms,
  poll_backoff_max_ms, on_reply, on_replies, drained, drain, is_end_kind, end_left, try_end,
  trip_boundary, bookend_triggers, after_send, act_on, bookend_rounds, bookend_tick, send_pick,
  plan_tick, serve, join, poller_tick,
}

abbrev pub flag : Bool → ℕ
flag b = if b then 1 else 0

abbrev pub is_start : Out → Bool
is_start (tx id bytes ok) = false
is_start (began kind_start budget_ms) = true
is_start (began kind_end budget_ms) = false
is_start (wrote rec) = false

-- The trip starts that were begun.
unfoldable pub started : List Out → ℕ
started [] = 0
started (o ∷ os) = flag (is_start o) + started os

pub started-append : (a b : List Out) → started (a ++ b) ≡ started a + started b
unfolding started
started-append [] b = omega arith
started-append (o ∷ os) b = omega (arith, started-append os b)

-- The flag of the trip start went up by as much as was begun.
unfoldable pub Trips : Poller → Poller × List Out → Type 0
Trips p r = started r.1 + flag p.trip_started ≡ flag r.0.trip_started

pub join-Trips :
    (p q : Poller) (out : List Out) (r : Poller × List Out)
    → Trips p (q, out)
    → Trips q r
    → Trips p (join out r)
unfolding Trips
join-Trips p q out r h k = omega (arith, started-append out r.1)

on_replies-trip :
    (p : Poller) (now : ℕ) (l : List PollFrame) → (on_replies p now l).trip_started ≡ p.trip_started
unfolding on_replies on_reply
on_replies-trip p now [] = refl
on_replies-trip p now (f ∷ fs) =
    on_replies-trip (on_reply p now f) now fs
    ∙ if_both (λ (q : Poller). q.trip_started ≡ p.trip_started) p.bk_active refl refl

drained-trip :
    (p : Poller) (now : ℕ) (q : Option (List PollFrame))
    → (drained q p now).trip_started ≡ p.trip_started
unfolding drained
drained-trip p now none = refl
drained-trip p now (some l) = on_replies-trip (record p { q = some [] }) now l

-- Nothing is begun.
pub none_begun :
    (p q : Poller) (out : List Out)
    → started out ≡ 0
    → q.trip_started ≡ p.trip_started
    → Trips p (q, out)
unfolding Trips
none_begun p q out n e = rw (n, e) (omega arith)

pub same_flag :
    (p q : Poller) (r : Poller × List Out) → q.trip_started ≡ p.trip_started → Trips q r → Trips p r
unfolding Trips
same_flag p q r e t = rw⁻¹ e t

pub bookend_write-Trips : (p : Poller) (e : Inputs) → Trips p (bookend_write p e)
unfolding bookend_write started
bookend_write-Trips p e =
    let rec = bookend_encode p.bk.d e.device_id e.boot_id e.write_ms bookend_rec_max in
    none_begun p (record p { bk_active = false }) _
      (if_both (λ l. started l ≡ 0) (not (seq_should_write p.bk) || length rec == 0) refl refl) refl

act_on-Trips :
    (act : BookendAct) (q : Poller) (e : Inputs) (ok : Bool) (rest : Poller × List Out)
    → Trips q rest
    → Trips q (act_on act q e ok rest)
unfolding act_on Trips started
act_on-Trips bk_done q e ok rest h = bookend_write-Trips q e
act_on-Trips bk_wait q e ok rest h = none_begun q q [] refl refl
act_on-Trips (bk_send t) q e ok rest h = omega (arith, h)

bookend_rounds-Trips : (n k : ℕ) (p : Poller) (e : Inputs) → Trips p (bookend_rounds n k p e)
unfolding bookend_rounds started
bookend_rounds-Trips zero k p e = none_begun p p [] refl refl
bookend_rounds-Trips (suc n) k p e =
    let (act, s) = seq_poll p.bk e.now in
    let next = after_send p s (e.sends k) in
    let rest = bookend_rounds n (k + 1) next e in
    same_flag p (record p { bk = s }) _ refl
      (act_on-Trips act (record p { bk = s }) e (e.sends k) rest
        (same_flag (record p { bk = s }) next rest refl (bookend_rounds-Trips n (k + 1) next e)))

send_pick-Trips : (p : Poller) (e : Inputs) (o : Option ℕ) → Trips p (send_pick p e o)
unfolding send_pick started
send_pick-Trips p e none = none_begun p p [] refl refl
send_pick-Trips p e (some i) = none_begun p _ _ refl refl

serve-Trips : (p : Poller) (e : Inputs) → Trips p (serve p e)
unfolding serve bookend_tick plan_tick
serve-Trips p e =
    let s =
      (poll_sched_check_timeout p.sched e.now obd_response_timeout_ms poll_backoff_max_ms).1 in
    let q = record p { sched = s } in
    if_both (Trips p) p.bk_active (bookend_rounds-Trips 4 0 p e)
      (same_flag p q _ refl (send_pick-Trips q e (poll_sched_pick s e.now obd_inter_request_ms)))

try_end-Trips : (p : Poller) (edge now : ℕ) → Trips p (try_end p edge now)
unfolding try_end bookend_start started
try_end-Trips p edge now =
    if_both (Trips p) (lt_i32 (end_left edge now) bookend_min_start_ms) (none_begun p _ _ refl refl)
      (none_begun p _ _ refl refl)

-- A trip start is begun only with the flag clear, and sets it.
begin-Trips :
    (p : Poller) (b : Bool) (now : ℕ)
    → not p.trip_started && b ≡ true
    → Trips p (
        bookend_start
          (record p { end_tried = false; trip_started = true })
          kind_start
          now
          bookend_start_budget_ms)
unfolding bookend_start Trips started
begin-Trips p b now t = ground arith

trip_boundary-Trips : (p : Poller) (o : Option ℕ) (now : ℕ) → Trips p (trip_boundary p o now)
unfolding trip_boundary started
trip_boundary-Trips p none now =
    let q = record p { end_tried = false } in
    if_both (Trips p) (not (is_none p.sched.inflight)) (none_begun p q [] refl refl) (
      if_split (Trips p) (not p.trip_started && p.sched.any_ok)
        (λ t. begin-Trips p p.sched.any_ok now t) (λ t. none_begun p q [] refl refl))
trip_boundary-Trips p (some edge) now =
    if_both (Trips p) (not (is_none p.sched.inflight)) (none_begun p p [] refl refl) (
      if_both (Trips p) (p.trip_started && not p.end_tried) (try_end-Trips p edge now)
        (none_begun p p [] refl refl))

bookend_triggers-Trips :
    (p : Poller) (e : Inputs) → e.ignition_on ≡ true → Trips p (bookend_triggers p e)
unfolding bookend_triggers started
bookend_triggers-Trips p e on =
    if_both (Trips p) p.bk_active
      (if_both (λ (q : Poller). Trips p (q, []))
        (is_end_kind p.bk.d.kind && (is_none e.off_pending && e.ignition_on))
        (none_begun p _ [] refl refl) (none_begun p p [] refl refl))
      (if_split (Trips p) (not e.ignition_on) (λ x. absurd (ground arith))
        (λ x. trip_boundary-Trips p e.off_pending e.now))

-- While the ignition is on, a pass begins a trip start only when the flag says none was begun, and
-- the flag then says so.
pub poller_tick-Trips : (p : Poller) (e : Inputs) → e.ignition_on ≡ true → Trips p (poller_tick p e)
unfolding poller_tick started
poller_tick-Trips p e on =
    let d = drain p e.now in
    let b = if d.has_plan then bookend_triggers d e else (d, []) in
    let t =
      if_both (Trips d) d.has_plan (bookend_triggers-Trips d e on) (none_begun d d [] refl refl) in
    if_both (Trips p) (not p.active) (none_begun p p [] refl refl) (
      same_flag p d (join b.1 (serve b.0 e)) (drained-trip p e.now p.q)
        (join-Trips d b.0 b.1 (serve b.0 e) t (serve-Trips b.0 e)))
