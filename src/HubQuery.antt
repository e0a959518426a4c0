-- ===== src/HubQuery.antt =====
-- firmware/include/hubquery.h: the life of the one asynchronous query for the hub's address. Its
-- pointers are options, and the query functions are the network component's.
pub mod Balance
use cardiag.Base.{Bool, Option, false, if◌then◌else◌, none, some, true, ◌||◌}

abbrev pub is_some {ℓ} : {A : Type ℓ} → Option A → Bool
is_some none = false
is_some (some a) = true

-- `struct HubQueryApi` over the state `C` behind `ctx`, queries `Q` and results `R`. A poll gives
-- the results when the query has finished.
pub record HubQueryApi (C Q R : Type 0) : Type 0 where
  pub start : C → Option Q × C
  pub poll : C → Q → Option R × C
  pub free_results : C → R → C
  pub destroy : C → Q → Bool × C

-- `struct HubQuery`
pub record HubQuery (Q : Type 0) : Type 0 where
  pub active : Option Q
  pub parked : Option Q
  pub undeleted : Option Q

unfoldable pub hub_query_busy : {Q : Type 0} → HubQuery Q → Bool
hub_query_busy h = is_some h.active || (is_some h.parked || is_some h.undeleted)

module _ {C Q R : Type 0} where
  module _ (a : HubQueryApi C Q R) where
    -- `hubQueryRetire_`
    unfoldable pub hub_query_retire : HubQuery Q → Q → R → C → HubQuery Q × C
    hub_query_retire h q results c =
        let (ok, c') = a.destroy (a.free_results c results) q in
        (if ok then h else record h { undeleted = some q }, c')

    -- `hubQueryStart`
    unfoldable pub hub_query_start : HubQuery Q → C → HubQuery Q × C
    unfolding hub_query_busy
    hub_query_start h c =
        let (q, c') = a.start c in
        if hub_query_busy h then (h, c) else (record h { active = q }, c')

    -- The rest of `hubQueryPoll` and `hubQueryCancel` for a query that was active: the one leaves
    -- it active while it runs, the other parks it.
    abbrev pub polled : (C → R → C) → HubQuery Q → HubQuery Q → Q → Option R × C → HubQuery Q × C
    polled consume h running q o = elim o.0 [
      | none ↦ (running, o.1)
      | some r ↦ hub_query_retire h q r (consume o.1 r)
    ]

    -- `hubQueryPoll`; it finished when `active` was set and no longer is.
    unfoldable pub hub_query_poll : (C → R → C) → HubQuery Q → C → HubQuery Q × C
    unfolding hub_query_retire
    hub_query_poll consume h c = elim h.active [
      | none ↦ (h, c)
      | some q ↦ polled consume (record h { active = none }) h q (a.poll c q)
    ]

    -- `hubQueryCancel`
    unfoldable pub hub_query_cancel : HubQuery Q → C → HubQuery Q × C
    unfolding hub_query_retire
    hub_query_cancel h c = elim h.active [
      | none ↦ (h, c)
      | some q ↦
          polled (λ x r. x) (record h { active = none })
            (record h { active = none; parked = some q }) q (a.poll c q)
    ]

    -- The first line of `hubQueryReap`: the delete is tried again.
    unfoldable pub retry_delete : HubQuery Q → C → HubQuery Q × C
    retry_delete h c = elim h.undeleted [
      | none ↦ (h, c)
      | some q ↦
          let (ok, c') = a.destroy c q in (if ok then record h { undeleted = none } else h, c')
    ]

    -- The rest of `hubQueryReap`.
    unfoldable pub reap_parked : HubQuery Q → C → HubQuery Q × C
    unfolding hub_query_retire
    reap_parked h c = elim h.parked [
      | none ↦ (h, c)
      | some q ↦ polled (λ x r. x) (record h { parked = none }) h q (a.poll c q)
    ]

    -- `hubQueryReap`
    unfoldable pub hub_query_reap : HubQuery Q → C → HubQuery Q × C
    unfolding retry_delete reap_parked
    hub_query_reap h c = let (h', c') = retry_delete h c in reap_parked h' c'
