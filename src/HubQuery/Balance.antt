-- ===== src/HubQuery/Balance.antt =====
-- No query and no result is leaked or freed twice.
use cardiag.Base.{
  Bool-cases, List, Option, Option-cases, [], arith, if◌then◌else◌, inl, inr, none, refl, some, ℕ,
  ◌+◌, ◌∷◌, ◌≡◌, ◌≤◌,
}
use cardiag.HubQuery.{
  HubQueryApi, HubQuery, hub_query_busy, hub_query_retire, hub_query_start, polled, hub_query_poll,
  hub_query_cancel, retry_delete, reap_parked, hub_query_reap,
}

-- The state behind `ctx`, with counts of what its functions did.
pub record Ledger (C : Type 0) : Type 0 where
  pub under : C
  pub started : ℕ
  pub destroyed : ℕ
  pub finished : ℕ
  pub freed : ℕ

abbrev count_if {ℓ} : {A : Type ℓ} → Option A → ℕ → ℕ
count_if none n = n
count_if (some a) n = n + 1

-- The handles that are kept.
abbrev pub held : {Q : Type 0} → HubQuery Q → ℕ
held h = count_if h.active 0 + count_if h.parked 0 + count_if h.undeleted 0

-- Every query started is destroyed or the one that is held, and every result is freed.
pub record Balanced {C Q : Type 0} (s : HubQuery Q × Ledger C) : Type 0 where
  pub queries : s.1.started ≡ s.1.destroyed + held s.0
  pub results : s.1.finished ≡ s.1.freed
  pub one : held s.0 ≤ 1

-- A query that finished and is no longer held, with its result.
record Owing {C Q : Type 0} (h : HubQuery Q) (l : Ledger C) : Type 0 where
  queries : l.started ≡ l.destroyed + 1
  results : l.finished ≡ l.freed + 1
  empty : held h ≡ 0

module _ {C Q R : Type 0} where
  -- The functions, counted.
  abbrev pub counted : HubQueryApi C Q R → HubQueryApi (Ledger C) Q R
  counted a = record {
    start = λ l.
        let (q, c) = a.start l.under in (q, record l { under = c; started = count_if q l.started });
    poll = λ l q.
        let (r, c) = a.poll l.under q in
        (r, record l { under = c; finished = count_if r l.finished });
    free_results = λ l r. record l { under = a.free_results l.under r; freed = l.freed + 1 };
    destroy = λ l q.
        let (ok, c) = a.destroy l.under q in
        (ok, record l { under = c; destroyed = if ok then l.destroyed + 1 else l.destroyed });
  }

  module _ (a : HubQueryApi C Q R) where
    retire-Balanced :
        (h : HubQuery Q) (q : Q) (r : R) (l : Ledger C)
        → Owing h l
        → Balanced (hub_query_retire (counted a) h q r l)
    unfolding hub_query_retire
    retire-Balanced h q r l w = elim (Bool-cases (a.destroy (a.free_results l.under r) q).0) [
      | inl e ↦ record { queries = ground arith; results = ground arith; one = ground arith }
      | inr e ↦ record { queries = ground arith; results = ground arith; one = ground arith }
    ]

    retry_delete-Balanced :
        (h : HubQuery Q) (l : Ledger C) → Balanced (h, l) → Balanced (retry_delete (counted a) h l)
    unfolding retry_delete
    retry_delete-Balanced h l b = elim (Option-cases h.undeleted) [
      | inl e ↦
          let n : count_if h.undeleted 0 ≡ 0 = rw e refl in
          rw e (record { queries = omega arith; results = b.results; one = omega arith })
      | inr (q, e) ↦
          let n : count_if h.undeleted 0 ≡ 1 = rw e refl in
          rw e (elim (Bool-cases (a.destroy l.under q).0) [
            | inl y ↦
                rw y (record { queries = omega arith; results = b.results; one = omega arith })
            | inr y ↦
                rw y (record { queries = omega arith; results = b.results; one = omega arith })
          ])
    ]

    -- A query taken out of its slot, and what a poll says of it.
    polled-Balanced :
        (consume : C → R → C) (h running : HubQuery Q) (q : Q) (l : Ledger C)
        → held h ≡ 0
        → held running ≡ 1
        → Balanced (running, l)
        → Balanced (
            polled
              (counted a)
              (λ m r. record m { under = consume m.under r })
              h
              running
              q
              ((counted a).poll l q))
    polled-Balanced consume h running q l z one b = elim (Option-cases (a.poll l.under q).0) [
      | inl e ↦ rw e (record { queries = b.queries; results = b.results; one = b.one })
      | inr (r, e) ↦ rw e (
          retire-Balanced h q r _
            (record { queries = omega arith; results = omega arith; empty = z }))
    ]

    start-Balanced :
        (h : HubQuery Q) (l : Ledger C)
        → Balanced (h, l)
        → Balanced (hub_query_start (counted a) h l)
    unfolding hub_query_start hub_query_busy
    start-Balanced h l b = ground arith

    poll-Balanced :
        (consume : C → R → C) (h : HubQuery Q) (l : Ledger C)
        → Balanced (h, l)
        → Balanced (hub_query_poll (counted a) (λ m r. record m { under = consume m.under r }) h l)
    unfolding hub_query_poll
    poll-Balanced consume h l b = elim (Option-cases h.active) [
      | inl e ↦
          let n : count_if h.active 0 ≡ 0 = rw e refl in
          rw e (record { queries = omega arith; results = b.results; one = omega arith })
      | inr (q, e) ↦
          let n : count_if h.active 0 ≡ 1 = rw e refl in
          rw e (
            polled-Balanced consume (record h { active = none }) (record h { active = some q }) q l
              (omega arith) (omega arith)
              (record { queries = omega arith; results = b.results; one = omega arith }))
    ]

    cancel-Balanced :
        (h : HubQuery Q) (l : Ledger C)
        → Balanced (h, l)
        → Balanced (hub_query_cancel (counted a) h l)
    unfolding hub_query_cancel
    cancel-Balanced h l b = elim (Option-cases h.active) [
      | inl e ↦
          let n : count_if h.active 0 ≡ 0 = rw e refl in
          rw e (record { queries = omega arith; results = b.results; one = omega arith })
      | inr (q, e) ↦
          let n : count_if h.active 0 ≡ 1 = rw e refl in
          rw e (
            polled-Balanced (λ m r. m) (record h { active = none })
              (record h { active = none; parked = some q }) q l (omega arith) (omega arith)
              (record { queries = omega arith; results = b.results; one = omega arith }))
    ]

    reap_parked-Balanced :
        (h : HubQuery Q) (l : Ledger C) → Balanced (h, l) → Balanced (reap_parked (counted a) h l)
    unfolding reap_parked
    reap_parked-Balanced h l b = elim (Option-cases h.parked) [
      | inl e ↦
          let n : count_if h.parked 0 ≡ 0 = rw e refl in
          rw e (record { queries = omega arith; results = b.results; one = omega arith })
      | inr (q, e) ↦
          let n : count_if h.parked 0 ≡ 1 = rw e refl in
          rw e (
            polled-Balanced (λ m r. m) (record h { parked = none }) (record h { parked = some q }) q
              l (omega arith) (omega arith)
              (record { queries = omega arith; results = b.results; one = omega arith }))
    ]

    -- The operations of the link's loop.
    pub data Op : Type 0 where
      start poll cancel reap : Op

    abbrev pub perform : (C → R → C) → Op → HubQuery Q × Ledger C → HubQuery Q × Ledger C
    perform consume start s = hub_query_start (counted a) s.0 s.1
    perform consume poll s =
        hub_query_poll (counted a) (λ m r. record m { under = consume m.under r }) s.0 s.1
    perform consume cancel s = hub_query_cancel (counted a) s.0 s.1
    perform consume reap s = hub_query_reap (counted a) s.0 s.1

    unfoldable pub perform_all :
        (C → R → C) → List Op → HubQuery Q × Ledger C → HubQuery Q × Ledger C
    perform_all consume [] s = s
    perform_all consume (o ∷ os) s = perform_all consume os (perform consume o s)

    perform-Balanced :
        (consume : C → R → C) (o : Op) (s : HubQuery Q × Ledger C)
        → Balanced s
        → Balanced (perform consume o s)
    unfolding hub_query_reap
    perform-Balanced consume start s b = start-Balanced s.0 s.1 b
    perform-Balanced consume poll s b = poll-Balanced consume s.0 s.1 b
    perform-Balanced consume cancel s b = cancel-Balanced s.0 s.1 b
    perform-Balanced consume reap s b =
        let m = retry_delete (counted a) s.0 s.1 in
        reap_parked-Balanced m.0 m.1 (retry_delete-Balanced s.0 s.1 b)

    -- In every order of starts, polls, cancels and reaps, and whatever the network component
    -- answers, at most one query is held, every other one started has been destroyed, and every
    -- result was freed exactly once.
    pub perform_all-Balanced :
        (consume : C → R → C) (os : List Op) (s : HubQuery Q × Ledger C)
        → Balanced s
        → Balanced (perform_all consume os s)
    unfolding perform_all
    perform_all-Balanced consume [] s b = b
    perform_all-Balanced consume (o ∷ os) s b =
        perform_all-Balanced consume os (perform consume o s) (perform-Balanced consume o s b)
