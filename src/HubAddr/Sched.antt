-- ===== src/HubAddr/Sched.antt =====
-- When the hub's address is asked for again.
use cardiag.Base.{
  All, Bool, Bool-cases, List, [], arith, false, inl, inr, later, ltb, ltb→lt, max, min, nonneg32,
  refl, sub32, sub32-later, suc, true, u32, zero, ℕ, ◌%◌, ◌*◌, ◌+◌, ◌-◌, ◌<◌, ◌^◌, ◌∙◌, ◌∷◌, ◌≡◌,
  ◌≤◌, ◌⊎◌,
}
use cardiag.HubAddr.{
  HubResolveSched, kick_at, hub_resolve_kick, hub_resolve_due, hub_resolve_started, backoff_loop,
  hub_resolve_backoff_ms, hub_resolve_finished,
}

-- `b` doubled `n` times.
unfoldable pub doubled : ℕ → ℕ → ℕ
doubled zero b = b
doubled (suc n) b = doubled n (b * 2)

doubled_ge : (n b : ℕ) → b ≤ doubled n b
unfolding doubled
doubled_ge zero b = omega arith
doubled_ge (suc n) b = let h = doubled_ge n (b * 2) in omega arith

backoff_loop_lem :
    (n max_ms b : ℕ)
    → max_ms < 2 ^ 32
    → b < 2 ^ 33
    → (backoff_loop n max_ms b ≡ doubled n b)
      ⊎ (max_ms ≤ backoff_loop n max_ms b × backoff_loop n max_ms b ≤ doubled n b)
unfolding backoff_loop doubled
backoff_loop_lem zero max_ms b h k = inl refl
backoff_loop_lem (suc n) max_ms b h k =
    let fits : b < max_ms → b * 2 % 2 ^ 64 ≡ b * 2 = λ l. omega arith in
    elim (Bool-cases (ltb b max_ms)) [
      | inl p ↦
          let same = fits (ltb→lt b max_ms p) in
          let r = backoff_loop_lem n max_ms (b * 2) h (let l = ltb→lt b max_ms p in omega arith) in
          rw p (rw same r)
      | inr p ↦ let g = doubled_ge n (b * 2) in rw p (inr (ground arith, omega arith))
    ]

-- The wait after `fails` failures in a row is the base doubled `fails - 1` times, and never more
-- than the maximum: the 64-bit shift does not overflow on the way.
pub hub_resolve_backoff_ms_lem :
    (fails base_ms max_ms : ℕ)
    → base_ms < 2 ^ 32
    → max_ms < 2 ^ 32
    → hub_resolve_backoff_ms fails base_ms max_ms ≡ min (doubled (fails - 1) base_ms) max_ms
unfolding hub_resolve_backoff_ms
hub_resolve_backoff_ms_lem fails base_ms max_ms hb hm =
    let c = backoff_loop_lem (fails - 1) max_ms base_ms hm (omega arith) in ground arith

nonneg32-later :
    (t k n : ℕ)
    → t < 2 ^ 32
    → k < 2 ^ 31
    → n < 2 ^ 31
    → nonneg32 (sub32 (later t k) (later t n)) ≡ true
    → n ≤ k
nonneg32-later t k n ht hk hn h = ground arith

-- What happens to the scheduler between two queries.
pub data Event : Type 0 where
  kick : Event
  finished : Bool → Event

pub record Timed : Type 0 where
  pub event : Event
  pub ms : ℕ

module _ (min_gap base_ms max_ms : ℕ) where
  -- The scheduler after an event `k` ms after `t`.
  abbrev pub on_event : ℕ → HubResolveSched → Timed → HubResolveSched
  on_event t s e = elim e.event [
    | kick ↦ hub_resolve_kick s (later t e.ms) min_gap
    | finished ok ↦ hub_resolve_finished s (later t e.ms) ok base_ms max_ms
  ]

  unfoldable pub on_events : ℕ → HubResolveSched → List Timed → HubResolveSched
  on_events t s [] = s
  on_events t s (e ∷ es) = on_events t (on_event t s e) es

  abbrev pub Soon : Timed → Type 0
  Soon e = e.ms < 2 ^ 30

  -- The gap that a query keeps from the one before it.
  abbrev pub gap : ℕ
  gap = min min_gap (min base_ms max_ms)

  -- A query started at `t`, and the next one is not wanted within the gap.
  record Paced (t : ℕ) (s : HubResolveSched) : Type 0 where
    started : s.ever_started ≡ true
    last : s.last_start_ms ≡ t
    spaced : (s.armed ≡ false) ⊎ ((n : ℕ) × (s.next_ms ≡ later t n) × (gap ≤ n) × (n < 2 ^ 31))

  kick_at-later :
      (t : ℕ) (s : HubResolveSched) (k : ℕ)
      → t < 2 ^ 32
      → min_gap < 2 ^ 30
      → k < 2 ^ 30
      → s.ever_started ≡ true
      → s.last_start_ms ≡ t
      → kick_at s (later t k) min_gap ≡ later t (max k min_gap)
  kick_at-later t s k ht hg hk e l =
      let d = sub32-later t k ht (omega arith) in rw e (rw l (rw d (ground arith)))

  -- A kick keeps the wanted time or asks for its own.
  hub_resolve_kick-cases :
      (s : HubResolveSched) (now : ℕ)
      → let s' = hub_resolve_kick s now min_gap in
        (s'.ever_started ≡ s.ever_started)
        × (s'.last_start_ms ≡ s.last_start_ms)
        × (((s'.armed ≡ s.armed) × (s'.next_ms ≡ s.next_ms)) ⊎ (s'.next_ms ≡ kick_at s now min_gap))
  unfolding hub_resolve_kick
  hub_resolve_kick-cases s now = ground arith

  kick-Paced :
      (t : ℕ) (s : HubResolveSched) (k : ℕ)
      → t < 2 ^ 32
      → min_gap < 2 ^ 30
      → k < 2 ^ 30
      → Paced t s
      → Paced t (hub_resolve_kick s (later t k) min_gap)
  kick-Paced t s k ht hg hk p =
      let (e, l, c) = hub_resolve_kick-cases s (later t k) in
      let at = kick_at-later t s k ht hg hk p.started p.last in
      record {
        started = e ∙ p.started;
        last = l ∙ p.last;
        spaced = elim c [
          | inl (a, n) ↦ elim p.spaced [
            | inl off ↦ inl (a ∙ off)
            | inr (m, x, g, b) ↦ inr (m, n ∙ x, g, b)
          ]
          | inr n ↦ inr (max k min_gap, n ∙ at, omega arith, omega arith)
        ];
      }

  -- A failure asks again no sooner than the smaller of the base and the maximum.
  hub_resolve_backoff_ms-bounds :
      (fails : ℕ)
      → base_ms < 2 ^ 32
      → max_ms < 2 ^ 32
      → (min base_ms max_ms ≤ hub_resolve_backoff_ms fails base_ms max_ms)
        × (hub_resolve_backoff_ms fails base_ms max_ms ≤ max_ms)
  hub_resolve_backoff_ms-bounds fails hb hm =
      let e = hub_resolve_backoff_ms_lem fails base_ms max_ms hb hm in
      let g = doubled_ge (fails - 1) base_ms in (omega arith, omega arith)

  finished-cases :
      (s : HubResolveSched) (now : ℕ) (ok : Bool)
      → let s' = hub_resolve_finished s now ok base_ms max_ms in
        (s'.ever_started ≡ s.ever_started)
        × (s'.last_start_ms ≡ s.last_start_ms)
        × ((s'.armed ≡ false)
            ⊎ ((fails : ℕ) × (s'.next_ms
                  ≡ u32 (now + hub_resolve_backoff_ms fails base_ms max_ms))))
  unfolding hub_resolve_finished
  finished-cases s now true = (refl, refl, inl refl)
  finished-cases s now false = (refl, refl, inr (_, refl))

  finished-Paced :
      (t : ℕ) (s : HubResolveSched) (k : ℕ) (ok : Bool)
      → base_ms < 2 ^ 32
      → max_ms < 2 ^ 30
      → k < 2 ^ 30
      → Paced t s
      → Paced t (hub_resolve_finished s (later t k) ok base_ms max_ms)
  finished-Paced t s k ok hb hm hk p =
      let (e, l, c) = finished-cases s (later t k) ok in
      record {
        started = e ∙ p.started;
        last = l ∙ p.last;
        spaced = elim c [
          | inl off ↦ inl off
          | inr (fails, n) ↦
              let w = hub_resolve_backoff_ms fails base_ms max_ms in
              let (lo, hi) = hub_resolve_backoff_ms-bounds fails hb (omega arith) in
              inr (k + w, n ∙ omega arith, omega arith, omega arith)
        ];
      }

  on_events-Paced :
      (t : ℕ) (s : HubResolveSched) (es : List Timed)
      → t < 2 ^ 32
      → min_gap < 2 ^ 30
      → base_ms < 2 ^ 32
      → max_ms < 2 ^ 30
      → All Soon es
      → Paced t s
      → Paced t (on_events t s es)
  unfolding on_events
  on_events-Paced t s [] ht hg hb hm a p = p
  on_events-Paced t s (e ∷ es) ht hg hb hm a p =
      on_events-Paced t (on_event t s e) es ht hg hb hm a.1 (step e a.0)
    where
      step : (e : Timed) → Soon e → Paced t (on_event t s e)
      step e soon = elim e.event as (λ x. Paced t (on_event t s (record e { event = x }))) [
        | kick ↦ kick-Paced t s e.ms ht hg soon p
        | finished ok ↦ finished-Paced t s e.ms ok hb hm soon p
      ]

  Paced-due :
      (t : ℕ) (s : HubResolveSched) (k : ℕ)
      → t < 2 ^ 32
      → k < 2 ^ 31
      → Paced t s
      → hub_resolve_due s (later t k) ≡ true
      → gap ≤ k
  unfolding hub_resolve_due
  Paced-due t s k ht hk p h = elim p.spaced [
    | inl off ↦ absurd (ground arith)
    | inr (n, e, g, b) ↦
        let q : nonneg32 (sub32 (later t k) (later t n)) ≡ true = ground arith in
        let o = nonneg32-later t k n ht hk b q in omega arith
  ]

  -- Whatever kicks and answers follow a query, all within 2 ^ 30 ms of it, the next one is not due
  -- before the gap has passed: the smallest of the kick's minimum gap, the base and the maximum wait.
  pub next_query_waits :
      (t : ℕ) (s : HubResolveSched) (es : List Timed) (k : ℕ)
      → t < 2 ^ 32
      → min_gap < 2 ^ 30
      → base_ms < 2 ^ 32
      → max_ms < 2 ^ 30
      → All Soon es
      → k < 2 ^ 31
      → hub_resolve_due (on_events t (hub_resolve_started s t) es) (later t k) ≡ true
      → gap ≤ k
  unfolding hub_resolve_started
  next_query_waits t s es k ht hg hb hm a hk h =
      Paced-due t (on_events t (hub_resolve_started s t) es) k ht hk
        (on_events-Paced t (hub_resolve_started s t) es ht hg hb hm a
          (record { started = refl; last = refl; spaced = inl refl }))
        h
