-- ===== src/Poller/Window.antt =====
-- The time a trip end has: it must be over before the ignition's OFF is believed.
use mathlib.Core.Path.{subst}
use cardiag.Base.{
  List, [], arith, false, if_both, if_split, if◌then◌else◌, later, lt_i32, not, some, true, u32, ℕ,
  ◌&&◌, ◌+◌, ◌-◌, ◌<◌, ◌^◌, ◌∷◌, ◌≡◌, ◌≤◌,
}
use cardiag.PollPlan.Sched.{is_none}
use cardiag.Bookend.{kind_end}
use cardiag.Bookend.Seq.{seq_start}
use cardiag.Poller.{Poller, Out, Inputs, bookend_start, began}
use cardiag.Poller.Tick.{
  bookend_min_start_ms, is_end_kind, end_left, try_end, trip_boundary, bookend_triggers,
}

-- What a trip end says that was begun `t` ms after the edge of its OFF.
pub record Timely (edge t left deadline : ℕ) : Type 0 where
  pub soon : t ≤ 1550
  pub enough : 150 ≤ left
  pub exact : t + left + 300 ≡ 2000
  pub deadline_at : deadline ≡ later edge 1700

-- The budget is what is left of the window, whenever it is enough.
end_left-Timely :
    (edge t : ℕ)
    → edge < 2 ^ 32
    → t < 2 ^ 31
    → lt_i32 (end_left edge (later edge t)) bookend_min_start_ms ≡ false
    → Timely edge t
        (end_left edge (later edge t))
        (u32 (later edge t + end_left edge (later edge t)))
end_left-Timely edge t l m h =
    let x : edge + 2000 - 300 ≡ edge + 1700 = omega arith in
    record {
      soon = ground arith;
      enough = ground arith;
      exact = ground arith;
      deadline_at = ground arith;
    }

-- What holds if `r` began a trip end with the budget `left`.
Ended : ℕ → ℕ → ℕ → Poller × List Out → Type 0
Ended edge t left r = r.1 ≡ began kind_end left ∷ [] → Timely edge t left r.0.bk.deadline

-- Nothing was begun.
nothing-Ended : (edge t left : ℕ) (p : Poller) → Ended edge t left (p, [])
unfolding Ended
nothing-Ended edge t left p h = absurd (ground arith)

try_end-Ended :
    (p : Poller) (edge t left : ℕ)
    → edge < 2 ^ 32
    → t < 2 ^ 31
    → Ended edge t left (try_end p edge (later edge t))
unfolding try_end bookend_start seq_start Ended
try_end-Ended p edge t left l m =
    if_split (Ended edge t left) (lt_i32 (end_left edge (later edge t)) bookend_min_start_ms)
      (λ x. nothing-Ended edge t left (record p { end_tried = true }))
      (λ x h.
        let v = end_left-Timely edge t l m x in
        let e : end_left edge (later edge t) ≡ left = ground arith in
        subst (λ n. Timely edge t n (u32 (later edge t + end_left edge (later edge t)))) e v)

trip_boundary-Ended :
    (p : Poller) (edge t left : ℕ)
    → edge < 2 ^ 32
    → t < 2 ^ 31
    → Ended edge t left (trip_boundary p (some edge) (later edge t))
unfolding trip_boundary
trip_boundary-Ended p edge t left l m =
    if_both (Ended edge t left) (not (is_none p.sched.inflight)) (nothing-Ended edge t left p) (
      if_both (Ended edge t left) (p.trip_started && not p.end_tried)
        (try_end-Ended p edge t left l m) (nothing-Ended edge t left p))

-- A trip end that is begun for an OFF seen at `edge`, `t` ms after it, is begun within 1550 ms. Its
-- deadline is 300 ms before the 2000 ms of the debounce are over, and its budget is exactly what is
-- left until then, no less than the 150 ms a request needs.
pub bookend_triggers-Timely :
    (p : Poller) (e : Inputs) (edge t left : ℕ)
    → edge < 2 ^ 32
    → t < 2 ^ 31
    → e.now ≡ later edge t
    → e.off_pending ≡ some edge
    → (bookend_triggers p e).1 ≡ began kind_end left ∷ []
    → Timely edge t left (bookend_triggers p e).0.bk.deadline
unfolding bookend_triggers Ended
bookend_triggers-Timely p e edge t left l m n o =
    let dropped = is_end_kind p.bk.d.kind && (is_none e.off_pending && e.ignition_on) in
    if_both (Ended edge t left) p.bk_active
      (nothing-Ended edge t left
        (if dropped then record p { bk_active = false; end_tried = false } else p))
      (if_both (Ended edge t left) (not e.ignition_on)
        (nothing-Ended edge t left (record p { trip_started = false; end_tried = false }))
        (rw (n, o) (trip_boundary-Ended p edge t left l m)))
