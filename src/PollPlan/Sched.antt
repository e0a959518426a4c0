-- ===== src/PollPlan/Sched.antt =====
-- The poll scheduler of firmware/src/pollplan.cpp: one request in flight, the most overdue entry
-- next. The request in flight is an option, `none` for -1.
pub mod Pick
pub mod Account
pub mod Runs
use cardiag.Base.{
  Bool, List, Option, [], drop, false, get_or, if◌then◌else◌, leb, length, lt_i32, ltb, none,
  nonneg32, not, replicate, set, some, sub32, suc, take, true, u32, u8, zero, ℕ, ◌%◌, ◌&&◌, ◌*◌,
  ◌+◌, ◌-◌, ◌/◌, ◌==◌, ◌^◌, ◌||◌, ◌∷◌,
}
use cardiag.PollPlan.{
  poll_plan_max, poll_period_min_ms, poll_period_max_ms, PollEntry, cmp_entry, is_lt, after,
  entries_valid, plan_valid,
}

-- `struct PollPidStats`
pub record PollPidStats : Type 0 where
  pub requests : ℕ
  pub replies : ℕ
  pub timeouts : ℕ
  pub multiframe : ℕ
  pub tx_failed : ℕ
  pub last_latency_ms : ℕ
  pub misses : ℕ

abbrev pub no_stats : PollPidStats
no_stats = record {
  requests = 0;
  replies = 0;
  timeouts = 0;
  multiframe = 0;
  tx_failed = 0;
  last_latency_ms = 0;
  misses = 0;
}

-- `struct PollSched`; the arrays `due` and `st` have an element for each entry of the plan.
pub record PollSched : Type 0 where
  pub plan : List PollEntry
  pub due : List ℕ
  pub st : List PollPidStats
  pub inflight : Option ℕ
  pub sent_ms : ℕ
  pub last_tx_ms : ℕ
  pub any_tx : Bool
  pub any_ok : Bool

-- `reached`
abbrev pub reached : ℕ → ℕ → Bool
reached now t = nonneg32 (sub32 now t)

-- `pollSchedInit`
unfoldable pub poll_sched_init : List PollEntry → ℕ → PollSched
poll_sched_init p now = record {
  plan = p;
  due = replicate (length p) now;
  st = replicate (length p) no_stats;
  inflight = none;
  sent_ms = 0;
  last_tx_ms = 0;
  any_tx = false;
  any_ok = false;
}

-- Whether an entry that is `late` overdue goes before the best so far.
abbrev pub later_than : Option (ℕ × ℕ) → ℕ → Bool
later_than none late = true
later_than (some b) late = ltb b.1 late

-- One round of the loop of `pollSchedPick`.
unfoldable pub better : ℕ → ℕ → ℕ → Option (ℕ × ℕ) → Option (ℕ × ℕ)
better now d i best =
    let late = sub32 now d in
    if not (reached now d) then best else if later_than best late then some (i, late) else best

-- The loop from position `i` on: the best entry and how late it is.
unfoldable pub pick_from : ℕ → List ℕ → ℕ → Option (ℕ × ℕ) → Option (ℕ × ℕ)
unfolding better
pick_from now [] i best = best
pick_from now (d ∷ ds) i best = pick_from now ds (i + 1) (better now d i best)

abbrev pub is_none {ℓ} : {A : Type ℓ} → Option A → Bool
is_none none = true
is_none (some a) = false

abbrev pub position : Option (ℕ × ℕ) → Option ℕ
position none = none
position (some b) = some b.0

-- `pollSchedPick`
unfoldable pub poll_sched_pick : PollSched → ℕ → ℕ → Option ℕ
poll_sched_pick s now gap_ms =
    if not (is_none s.inflight) || length s.plan == 0
    then none
    else if s.any_tx && lt_i32 (sub32 now s.last_tx_ms) gap_ms
    then none
    else position (pick_from now s.due 0 none)

abbrev pub stats_at : PollSched → ℕ → PollPidStats
stats_at s i = get_or s.st i no_stats

abbrev pub entry_of : PollSched → ℕ → PollEntry
entry_of s i = get_or s.plan i (record { mode = 0; pid = 0; period_ms = 0 })

-- `pollSchedSent`
unfoldable pub poll_sched_sent : PollSched → ℕ → ℕ → PollSched
poll_sched_sent s i now =
    let x = stats_at s i in
    if leb (length s.plan) i then s else record s {
      inflight = some i;
      sent_ms = now;
      last_tx_ms = now;
      any_tx = true;
      st = set s.st i (record x { requests = u32 (x.requests + 1) });
    }

abbrev pub holds : Option ℕ → ℕ → Bool
holds none i = false
holds (some j) i = j == i

-- `pollSchedTxFailed`
unfoldable pub poll_sched_tx_failed : PollSched → ℕ → ℕ → PollSched
poll_sched_tx_failed s i now =
    let x = stats_at s i in
    if leb (length s.plan) i then s else record s {
      st = set s.st i (record x { tx_failed = u32 (x.tx_failed + 1) });
      due = set s.due i (u32 (now + (entry_of s i).period_ms));
      inflight = if holds s.inflight i then none else s.inflight;
    }

-- `enum PollRx`
pub data PollRx : Type 0 where
  rx_ignored rx_ok rx_multiframe : PollRx

-- The request `i` is answered: what both kinds of answer do.
abbrev pub answered : PollSched → ℕ → ℕ → PollPidStats → PollSched
answered s i now x = record s {
  st = set s.st i (record x { misses = 0; last_latency_ms = sub32 now s.sent_ms });
  due = set s.due i (u32 (s.sent_ms + (entry_of s i).period_ms));
  inflight = none;
  any_ok = true;
}

abbrev pub byte : List ℕ → ℕ → ℕ
byte bytes k = get_or bytes k 0

-- Whether a first frame answers an entry.
abbrev pub first_frame_matches : PollEntry → List ℕ → ℕ → Bool
first_frame_matches e bytes dlc =
    leb 4 dlc && (byte bytes 2 == u8 (e.mode + 0x40) && byte bytes 3 == e.pid)

-- Whether a single frame does.
abbrev pub single_frame_matches : PollEntry → List ℕ → ℕ → Bool
single_frame_matches e bytes dlc =
    let pci = byte bytes 0 in
    not (ltb pci 2 || (ltb 7 pci || ltb dlc (pci + 1)))
    && (byte bytes 1 == u8 (e.mode + 0x40) && byte bytes 2 == e.pid)

-- `pollSchedOnFrame` for the request `i` in flight: the verdict, the new state and the payload. The
-- high half of the first byte is its quotient by 16.
unfoldable pub on_frame_for : PollSched → ℕ → List ℕ → ℕ → ℕ → PollRx × PollSched × List ℕ
on_frame_for s i bytes dlc now =
    let x = stats_at s i in
    let kind = byte bytes 0 / 16 in
    if kind == 1
    then (if first_frame_matches (entry_of s i) bytes dlc
        then (
          rx_multiframe,
          answered s i now (record x { multiframe = u32 (x.multiframe + 1) }),
          [],
        )
        else (rx_ignored, s, []))
    else if not (kind == 0) || not (single_frame_matches (entry_of s i) bytes dlc)
    then (rx_ignored, s, [])
    else (
      rx_ok,
      answered s i now (record x { replies = u32 (x.replies + 1) }),
      take (byte bytes 0 - 2) (drop 3 bytes),
    )

-- `pollSchedOnFrame`, with the request in flight as an argument of its own.
unfoldable pub offered : Option ℕ → PollSched → List ℕ → ℕ → ℕ → PollRx × PollSched × List ℕ
offered none s bytes dlc now = (rx_ignored, s, [])
offered (some i) s bytes dlc now =
    if ltb dlc 3 then (rx_ignored, s, []) else on_frame_for s i bytes dlc now

unfoldable pub poll_sched_on_frame : PollSched → List ℕ → ℕ → ℕ → PollRx × PollSched × List ℕ
unfolding offered on_frame_for
poll_sched_on_frame s bytes dlc now = offered s.inflight s bytes dlc now

-- The loop of `pollBackoffMs` on a uint64_t, with `n` of the `misses` rounds left.
unfoldable pub backoff_loop : ℕ → ℕ → ℕ → ℕ
backoff_loop zero cap b = b
backoff_loop (suc n) cap b =
    let rest = backoff_loop n cap (b * 2 % 2 ^ 64) in if ltb b cap then rest else b

unfoldable pub poll_backoff_ms : ℕ → ℕ → ℕ → ℕ
unfolding backoff_loop
poll_backoff_ms period_ms misses max_ms =
    let cap = if ltb period_ms max_ms then max_ms else period_ms in
    let b = backoff_loop misses cap period_ms in if ltb cap b then cap else u32 b

-- The request `i` in flight has waited too long.
unfoldable pub timed_out : PollSched → ℕ → ℕ → ℕ → PollSched
unfolding poll_backoff_ms
timed_out s i now backoff_max_ms =
    let x = stats_at s i in
    let misses = if ltb x.misses 16 then u8 (x.misses + 1) else x.misses in
    record s {
      st = set s.st i (record x { timeouts = u32 (x.timeouts + 1); misses = misses });
      due =
          set s.due i (u32 (now + poll_backoff_ms (entry_of s i).period_ms misses backoff_max_ms));
      inflight = none;
    }

-- `pollSchedCheckTimeout`, likewise.
unfoldable pub waited : Option ℕ → PollSched → ℕ → ℕ → ℕ → Bool × PollSched
waited none s now timeout_ms backoff_max_ms = (false, s)
waited (some i) s now timeout_ms backoff_max_ms =
    if lt_i32 (sub32 now s.sent_ms) timeout_ms
    then (false, s)
    else (true, timed_out s i now backoff_max_ms)

unfoldable pub poll_sched_check_timeout : PollSched → ℕ → ℕ → ℕ → Bool × PollSched
unfolding waited timed_out
poll_sched_check_timeout s now timeout_ms backoff_max_ms =
    waited s.inflight s now timeout_ms backoff_max_ms
