-- ===== src/Examples/Poll.antt =====
-- Poll plans and their schedule.
use cardiag.Base.{
  All, List, [], arith, false, get_elem?, none, refl, some, sub32, true, ℕ, ◌∷◌, ◌≡◌, ◌≢◌, ◌≤◌, ◌⊎◌,
  codes,
}
use cardiag.PollPlan.{cmp_entry, PollEntry, cmp_entry, plan_valid}
use cardiag.PollPlan.Codec.{poll_plan_encode, poll_plan_decode, poll_plan_decode-poll_plan_encode}
use cardiag.PollPlan.Sched.{
  no_stats, PollSched, reached, poll_sched_init, pick_from, poll_sched_pick,
}
use cardiag.PollPlan.Sched.Pick.{poll_sched_pick-most_overdue}
use cardiag.PollPlan.Sched.Account.{IsValid}
use cardiag.PollPlan.Sched.Runs.{Event, on_events, poll_sched_init-on_events, tick, frame, check}
use cardiag.PollPlan.Json.{ws, eat, jstr, str_loop, str_step, jnum, skip_digits, digits_value, jlit}
use cardiag.PollPlan.Json.Skip.{skip_json, fuel_for, well_formed, value}
use cardiag.PollPlan.Json.Ends.{Ended, skip_json-fuel_for}
use cardiag.PollPlan.Contract.{
  run, one_field, check_entry, insert, one_entry, one_key, contract, poll_plan_parse, plan_ok,
  plan_no_fuel,
}
use cardiag.PollPlan.Contract.Accepted.{PidByte, poll_plan_parse-plan_valid}
use cardiag.PollPlan.Contract.Returns.{poll_plan_parse-returns}

abbrev body : List ℕ
body =
    codes
      "{\"version\":1,\"entries\":[{\"mode\":1,\"pid\":12,\"period_ms\":500},{\"mode\":1,\"pid\":5,\"period_ms\":1000}]}"

abbrev two_entries : List PollEntry
two_entries =
    record { mode = 1; pid = 5; period_ms = 1000 }
    ∷ record { mode = 1; pid = 12; period_ms = 500 }
    ∷ []

two_entries-valid : plan_valid two_entries ≡ true
unfolding plan_valid
two_entries-valid = refl

poll_plan_decode-poll_plan_encode_example :
    poll_plan_decode (poll_plan_encode two_entries 194) ≡ some two_entries
poll_plan_decode-poll_plan_encode_example =
    poll_plan_decode-poll_plan_encode two_entries 194 two_entries-valid (omega arith)

body-accepted : poll_plan_parse body ≡ plan_ok two_entries
unfolding poll_plan_parse well_formed skip_json ws eat jstr str_loop str_step jnum skip_digits
    contract run one_key digits_value one_entry one_field check_entry insert jlit cmp_entry
body-accepted = refl

poll_plan_parse-plan_valid_example : (plan_valid two_entries ≡ true) × All PidByte two_entries
poll_plan_parse-plan_valid_example = poll_plan_parse-plan_valid body two_entries body-accepted

poll_plan_parse-returns_example : poll_plan_parse body ≢ plan_no_fuel
poll_plan_parse-returns_example = poll_plan_parse-returns body

skip_json-fuel_for_example : Ended body (skip_json (fuel_for body) value 0 body)
skip_json-fuel_for_example = skip_json-fuel_for body

-- The second entry has waited longer.
abbrev waiting : PollSched
waiting = record {
  plan = two_entries;
  due = 900 ∷ 400 ∷ [];
  st = no_stats ∷ no_stats ∷ [];
  inflight = none;
  sent_ms = 0;
  last_tx_ms = 0;
  any_tx = false;
  any_ok = false;
}

second-picked : poll_sched_pick waiting 1000 20 ≡ some 1
unfolding poll_sched_pick pick_from
second-picked = refl

poll_sched_pick-most_overdue_example :
    (waiting.inflight ≡ none)
    × ((d : ℕ) × (get_elem? waiting.due 1 ≡ some d)
        × (reached 1000 d ≡ true)
        × All (λ e. (reached 1000 e ≡ false) ⊎ (sub32 1000 e ≤ sub32 1000 d)) waiting.due)
poll_sched_pick-most_overdue_example = poll_sched_pick-most_overdue waiting 1000 20 1 second-picked

abbrev one_round : List (ℕ × Event)
one_round =
    (1000, tick 20 true)
    ∷ (1010, frame (4 ∷ 0x41 ∷ 5 ∷ 90 ∷ 0 ∷ []) 8)
    ∷ (1500, check 200 5000)
    ∷ []

poll_sched_init-on_events_example : IsValid (on_events (poll_sched_init two_entries 1000) one_round)
poll_sched_init-on_events_example = poll_sched_init-on_events two_entries 1000 one_round
