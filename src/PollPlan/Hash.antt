-- ===== src/PollPlan/Hash.antt =====
-- The canonical text of a plan and its hash, in firmware/src/pollplan.cpp.
use cardiag.Base.{
  Bool, List, [], false, if◌then◌else◌, leb, length, ltb, suc, take, true, zero, ℕ, ◌%◌, ◌++◌, ◌+◌,
  ◌/◌, ◌∷◌, codes,
}
use cardiag.PollPlan.{PollEntry}
use cardiag.CredStore.Sha256.{cred_sha256, hex}

-- `%u`: the decimal digits, with fuel for each; a 32-bit number has at most ten.
unfoldable pub decimal_loop : ℕ → ℕ → List ℕ
decimal_loop zero n = []
decimal_loop (suc fuel) n =
    let high = decimal_loop fuel (n / 10) in
    if ltb n 10 then (b'0' + n) ∷ [] else high ++ ((b'0' + n % 10) ∷ [])

abbrev pub decimal : ℕ → List ℕ
decimal n = decimal_loop 10 n

-- One entry; `%s` is the comma before all but the first.
abbrev pub entry_text : PollEntry → List ℕ
entry_text e =
    codes "{\"mode\":"
    ++ decimal e.mode
    ++ codes ",\"pid\":"
    ++ decimal e.pid
    ++ codes ",\"period_ms\":"
    ++ decimal e.period_ms
    ++ codes "}"

unfoldable pub entries_text : Bool → List PollEntry → List ℕ
entries_text first [] = []
entries_text first (e ∷ es) =
    (if first then [] else codes ",") ++ entry_text e ++ entries_text false es

-- `pollPlanCanonical`: empty when the text and its NUL do not fit. The source looks after each piece;
-- the pieces only add, so the last look decides.
unfoldable pub poll_plan_canonical : List PollEntry → ℕ → List ℕ
poll_plan_canonical p cap =
    let text = codes "{\"version\":1,\"entries\":[" ++ entries_text true p ++ codes "]}" in
    if leb cap (length text) then [] else text

abbrev pub pollplan_canon_max : ℕ
pollplan_canon_max = 1536

-- `pollPlanHash`
unfoldable pub poll_plan_hash : List PollEntry → List ℕ
poll_plan_hash p = hex (take 8 (cred_sha256 (poll_plan_canonical p pollplan_canon_max)))
