-- ===== src/PollPlan.antt =====
-- firmware/include/pollplan.h and firmware/src/pollplan.cpp: what the logger asks the car for, and
-- how often. A plan is the list of its entries; the array's count is the list's length.
pub mod Codec
pub mod Hash
pub mod Sched
pub mod Json
pub mod Contract
use Prim.Native.Nat.{Ordering, lt, eq, gt}
use cardiag.Base.{
  Bool, List, Option, [], false, if◌then◌else◌, length, ltb, none, not, some, true, ℕ, ◌==◌, ◌||◌,
  ◌∷◌,
}

abbrev pub poll_plan_max : ℕ
poll_plan_max = 32

abbrev pub poll_period_min_ms : ℕ
poll_period_min_ms = 100

abbrev pub poll_period_max_ms : ℕ
poll_period_max_ms = 60000

-- `struct PollEntry`
pub record PollEntry : Type 0 where
  pub mode : ℕ
  pub pid : ℕ
  pub period_ms : ℕ

-- `cmpEntry`
unfoldable pub cmp_entry : PollEntry → PollEntry → Ordering
cmp_entry a b =
    if not (a.mode == b.mode)
    then (if ltb a.mode b.mode then lt else gt)
    else if not (a.pid == b.pid)
    then (if ltb a.pid b.pid then lt else gt)
    else eq

abbrev pub is_lt : Ordering → Bool
is_lt lt = true
is_lt _ = false

abbrev pub after : Option PollEntry → PollEntry → Bool
after none e = true
after (some p) e = is_lt (cmp_entry p e)

-- The loop of `planValid`, with the entry before.
unfoldable pub entries_valid : Option PollEntry → List PollEntry → Bool
unfolding cmp_entry
entries_valid p [] = true
entries_valid p (e ∷ es) =
    let rest = entries_valid (some e) es in
    if not (e.mode == 1)
    then false
    else if ltb e.period_ms poll_period_min_ms || ltb poll_period_max_ms e.period_ms
    then false
    else if not (after p e)
    then false
    else rest

-- `planValid`
unfoldable pub plan_valid : List PollEntry → Bool
unfolding entries_valid
plan_valid p = if ltb poll_plan_max (length p) then false else entries_valid none p
