-- ===== src/PollPlan/Sched/Runs.antt =====
-- What happens to every request, over any run of events.
use mathlib.Core.Path.{subst}
use cardiag.Base.{
  Bool, Bool-cases, List, Option, Option-cases, [], arith, false, if◌then◌else◌, inl, inr, leb,
  length, length-set, lt_i32, ltb, none, refl, some, sub32, sym, true, u32, ℕ, ◌+◌, ◌<◌, ◌∙◌, ◌∷◌,
  ◌≡◌,
}
use cardiag.PollPlan.{PollEntry}
use cardiag.PollPlan.Sched.{
  PollSched, poll_sched_init, is_none, poll_sched_pick, stats_at, entry_of, poll_sched_sent, holds,
  poll_sched_tx_failed, on_frame_for, offered, poll_sched_on_frame, timed_out, waited,
  poll_sched_check_timeout,
}
use cardiag.PollPlan.Sched.Pick.{poll_sched_pick-most_overdue}
use cardiag.PollPlan.Sched.Account.{
  Accounted, InRange, IsValid, poll_sched_init-IsValid, sent-Accounted, tx_failed-Accounted,
  on_frame_for-Retired, timed_out-Retired, Retired-IsValid, get_elem?-lt,
}

-- What the poller does to the scheduler, at a time.
pub data Event : Type 0 where
  -- the pick, and whether the frame could be sent
  tick : (gap_ms : ℕ) → (sent : Bool) → Event
  frame : List ℕ → ℕ → Event
  check : (timeout_ms backoff_max_ms : ℕ) → Event

-- The end of `pollerTick`.
unfoldable pub send_picked : PollSched → ℕ → Bool → Option ℕ → PollSched
send_picked s now sent none = s
send_picked s now sent (some i) =
    if sent then poll_sched_sent s i now else poll_sched_tx_failed s i now

abbrev pub on_event : PollSched → ℕ × Event → PollSched
on_event s (now, tick gap_ms sent) = send_picked s now sent (poll_sched_pick s now gap_ms)
on_event s (now, frame bytes dlc) = (poll_sched_on_frame s bytes dlc now).1
on_event s (now, check timeout_ms max_ms) = (poll_sched_check_timeout s now timeout_ms max_ms).1

unfoldable pub on_events : PollSched → List (ℕ × Event) → PollSched
on_events s [] = s
on_events s (e ∷ es) = on_events (on_event s e) es

Shaped : PollSched → Type 0
Shaped s =
    (length s.due ≡ length s.plan)
    × (length s.st ≡ length s.plan)
    × InRange (length s.plan) s.inflight

sent-Shaped :
    (s : PollSched) (i now : ℕ) → i < length s.plan → Shaped s → Shaped (poll_sched_sent s i now)
unfolding poll_sched_sent Shaped
sent-Shaped s i now l h =
    let x = stats_at s i in
    let e = length-set s.st i (record x { requests = u32 (x.requests + 1) }) in
    let t : leb (length s.plan) i ≡ false = ground arith in rw t (h.0, e ∙ h.1, l)

tx_failed-Shaped :
    (s : PollSched) (i now : ℕ)
    → s.inflight ≡ none
    → Shaped s
    → Shaped (poll_sched_tx_failed s i now)
unfolding poll_sched_tx_failed Shaped
tx_failed-Shaped s i now f h =
    let x = stats_at s i in
    let e = length-set s.st i (record x { tx_failed = u32 (x.tx_failed + 1) }) in
    let d = length-set s.due i (u32 (now + (entry_of s i).period_ms)) in
    let flying : InRange (length s.plan) (if holds s.inflight i then none else s.inflight) =
      rw f tt in
    elim (Bool-cases (leb (length s.plan) i)) [
      | inl t ↦ rw t h
      | inr t ↦ rw t (d ∙ h.0, e ∙ h.1, flying)
    ]

Shaped-IsValid : (s : PollSched) → Shaped s → ((i : ℕ) → Accounted s i) → IsValid s
unfolding Shaped
Shaped-IsValid s h a = record { dues = h.0; stats = h.1; flying = h.2; accounted = a }

IsValid-Shaped : (s : PollSched) → IsValid s → Shaped s
unfolding Shaped
IsValid-Shaped s v = (v.dues, v.stats, v.flying)

send_picked-IsValid :
    (s : PollSched) (now : ℕ) (sent : Bool) (o : Option ℕ)
    → (is_none o ≡ false → s.inflight ≡ none)
    → InRange (length s.plan) o
    → IsValid s
    → IsValid (send_picked s now sent o)
unfolding send_picked
send_picked-IsValid s now sent none f l v = v
send_picked-IsValid s now true (some i) f l v =
    Shaped-IsValid (poll_sched_sent s i now) (sent-Shaped s i now l (IsValid-Shaped s v))
      (λ j. sent-Accounted s i now j v.stats (f refl) (v.accounted j))
send_picked-IsValid s now false (some i) f l v =
    Shaped-IsValid (poll_sched_tx_failed s i now)
      (tx_failed-Shaped s i now (f refl) (IsValid-Shaped s v))
      (λ j. tx_failed-Accounted s i now j v.stats (f refl) (v.accounted j))

pick-InRange :
    (s : PollSched) (now gap_ms : ℕ)
    → length s.due ≡ length s.plan
    → (is_none (poll_sched_pick s now gap_ms) ≡ false → s.inflight ≡ none)
      × InRange (length s.plan) (poll_sched_pick s now gap_ms)
pick-InRange s now gap_ms e = elim (Option-cases (poll_sched_pick s now gap_ms)) [
  | inl n ↦ rw n ((λ h. absurd (ground arith)), tt)
  | inr (i, n) ↦
      let (free, (d, g, due, rest)) = poll_sched_pick-most_overdue s now gap_ms i n in
      rw n ((λ h. free), (let l = get_elem?-lt s.due i g in omega arith))
]

offered-IsValid :
    (s : PollSched) (bytes : List ℕ) (dlc now : ℕ) (o : Option ℕ)
    → s.inflight ≡ o
    → IsValid s
    → IsValid (offered o s bytes dlc now).1
unfolding offered
offered-IsValid s bytes dlc now none f v = v
offered-IsValid s bytes dlc now (some i) f v = elim (Bool-cases (ltb dlc 3)) [
  | inl e ↦ rw e v
  | inr e ↦ rw e (elim (on_frame_for-Retired s i bytes dlc now) [
    | inl same ↦ subst IsValid (sym same) v
    | inr r ↦ Retired-IsValid s (on_frame_for s i bytes dlc now).1 i f r v
  ])
]

waited-IsValid :
    (s : PollSched) (now timeout_ms max_ms : ℕ) (o : Option ℕ)
    → s.inflight ≡ o
    → IsValid s
    → IsValid (waited o s now timeout_ms max_ms).1
unfolding waited
waited-IsValid s now timeout_ms max_ms none f v = v
waited-IsValid s now timeout_ms max_ms (some i) f v =
    elim (Bool-cases (lt_i32 (sub32 now s.sent_ms) timeout_ms)) [
      | inl e ↦ rw e v
      | inr e ↦
          rw e
            (Retired-IsValid s (timed_out s i now max_ms) i f (timed_out-Retired s i now max_ms) v)
    ]

pub on_event-IsValid : (s : PollSched) (e : ℕ × Event) → IsValid s → IsValid (on_event s e)
unfolding poll_sched_on_frame poll_sched_check_timeout
on_event-IsValid s (now, tick gap_ms sent) v =
    let (f, l) = pick-InRange s now gap_ms v.dues in
    send_picked-IsValid s now sent (poll_sched_pick s now gap_ms) f l v
on_event-IsValid s (now, frame bytes dlc) v = offered-IsValid s bytes dlc now s.inflight refl v
on_event-IsValid s (now, check timeout_ms max_ms) v =
    waited-IsValid s now timeout_ms max_ms s.inflight refl v

-- Whatever frames, timeouts and send failures come, every request that was sent is one that was
-- answered, one that timed out or the one in flight, which is one of the plan's entries.
pub on_events-IsValid :
    (s : PollSched) (es : List (ℕ × Event)) → IsValid s → IsValid (on_events s es)
unfolding on_events
on_events-IsValid s [] v = v
on_events-IsValid s (e ∷ es) v = on_events-IsValid (on_event s e) es (on_event-IsValid s e v)

-- A plan's schedule starts with nothing asked. Whatever frames, timeouts and send failures come
-- after that, the requests of every entry are those answered, those timed out and the one in
-- flight, up to the wrap of the counters at 2^32, and the one in flight is of an entry of the plan.
pub poll_sched_init-on_events :
    (p : List PollEntry) (now : ℕ) (es : List (ℕ × Event))
    → IsValid (on_events (poll_sched_init p now) es)
poll_sched_init-on_events p now es =
    on_events-IsValid (poll_sched_init p now) es (poll_sched_init-IsValid p now)
