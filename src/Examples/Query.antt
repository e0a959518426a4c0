-- ===== src/Examples/Query.antt =====
-- A query that the link's drop cancels while it runs, and the component's refusal to delete it.
use cardiag.Base.{List, [], arith, if◌then◌else◌, ltb, none, refl, some, ℕ, ◌+◌, ◌∷◌, ◌≡◌}
use cardiag.HubQuery.{
  HubQueryApi, HubQuery, hub_query_busy, hub_query_retire, hub_query_start, hub_query_cancel,
  retry_delete, reap_parked, hub_query_reap,
}
use cardiag.HubQuery.Balance.{
  Ledger, Balanced, Op, perform_all, perform_all-Balanced, start, cancel, reap,
}

-- Query 5 finishes at the third poll; its first delete is refused. The state counts the calls.
abbrev mdns : HubQueryApi ℕ ℕ ℕ
mdns = record {
  start = λ c. (some 5, c + 1);
  poll = λ c q. (if ltb c 3 then none else some 9, c + 1);
  free_results = λ c r. c + 1;
  destroy = λ c q. (ltb 5 c, c + 1);
}

abbrev idle : HubQuery ℕ × Ledger ℕ
idle = (
  record { active = none; parked = none; undeleted = none },
  record { under = 0; started = 0; destroyed = 0; finished = 0; freed = 0 },
)

idle-Balanced : Balanced idle
idle-Balanced = record { queries = refl; results = refl; one = omega arith }

abbrev drop_and_reap : List (Op mdns)
drop_and_reap = start ∷ cancel ∷ reap ∷ reap ∷ reap ∷ []

all_gone : perform_all mdns (λ c r. c) drop_and_reap idle ≡ (
  record { active = none; parked = none; undeleted = none },
  record { under = 7; started = 1; destroyed = 1; finished = 1; freed = 1 },
)
unfolding perform_all hub_query_start hub_query_cancel hub_query_reap retry_delete reap_parked
    hub_query_retire hub_query_busy
all_gone = refl

perform_all-Balanced_example : Balanced (perform_all mdns (λ c r. c) drop_and_reap idle)
perform_all-Balanced_example = perform_all-Balanced mdns (λ c r. c) drop_and_reap idle idle-Balanced
