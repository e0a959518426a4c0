-- ===== src/Bookend/Seq.antt =====
-- The sequencer of firmware/src/bookend.cpp: one request at a time. Past its deadline, only the flow
-- controls it owes are still sent. Bit masks are lists of Booleans, one for each responder or MID.
pub mod Flags
pub mod Truth
pub mod Runs
pub mod Deadline
use cardiag.Base.{
  Bool, List, Option, [], false, get_or, if◌then◌else◌, leb, length, lt_i32, ltb, none, nonneg32,
  not, replicate, set, some, sub32, suc, true, u32, u8, zero, ℕ, ◌%◌, ◌&&◌, ◌+◌, ◌-◌, ◌==◌, ◌||◌,
  ◌∷◌,
}
use cardiag.IsoTp.{
  IsoTpRx, IsoTpEv, idle_rx, iso_tp_feed, iso_none, iso_done, iso_need_fc, iso_error,
}
use cardiag.Bookend.{
  bookend_max_stored, bookend_max_pending, bookend_max_m06, Kind, BookendDtc, BookendM06,
  BookendData, bookend_init, kind_start, kind_end,
}
use cardiag.Bookend.Parse.{
  at, be16, parse_pid01, dtcs_loop, dtc_count, parse_stored, parse_pending, map_bit, support_loop,
  parse_m06_support, result_at, results_loop, parse_m06_results,
}

abbrev pub bookend_responders : ℕ
bookend_responders = 8

-- `struct BookendTiming`
pub record BookendTiming : Type 0 where
  pub quiet_ms : ℕ
  pub req_max_ms : ℕ
  pub min_start_ms : ℕ

-- `struct BookendTx`
pub record BookendTx : Type 0 where
  pub id : ℕ
  pub bytes : List ℕ

-- `enum BookendAct`, with what is to be sent.
pub data BookendAct : Type 0 where
  bk_wait bk_done : BookendAct
  bk_send : BookendTx → BookendAct

-- `enum BookendStep`
pub data BookendStep : Type 0 where
  step_pid01 step_m03 step_m07 step_m06_support step_m06_mid step_end : BookendStep

-- `struct BookendSeq`
pub record BookendSeq : Type 0 where
  pub d : BookendData
  pub t : BookendTiming
  pub deadline : ℕ
  pub step : BookendStep
  pub inflight : Bool
  pub req_mode : ℕ
  pub req_pid : ℕ
  pub sent_ms : ℕ
  pub last_rx_ms : ℕ
  pub rx : List IsoTpRx
  pub fc_pending : List Bool
  pub m06_support : List Bool
  pub m06_next : ℕ
  pub m06_base : ℕ
  pub any : Bool
  pub pid01_ecu0 : Bool
  pub steps_done : ℕ
  pub out_of_time : Bool
  pub tx_failed : Bool
  pub finished : Bool

-- `midSupported`
abbrev pub mid_supported : BookendSeq → ℕ → Bool
mid_supported s mid = leb mid 0xFF && get_or s.m06_support mid false

-- `bookendSeqStart`
unfoldable pub seq_start : Kind → ℕ → ℕ → BookendTiming → BookendSeq
unfolding bookend_init
seq_start kind now budget_ms t = record {
  d = bookend_init kind;
  t = t;
  deadline = u32 (now + budget_ms);
  step = step_pid01;
  inflight = false;
  req_mode = 0;
  req_pid = 0;
  sent_ms = 0;
  last_rx_ms = 0;
  rx = replicate bookend_responders idle_rx;
  fc_pending = replicate bookend_responders false;
  m06_support = replicate 256 false;
  m06_next = 0;
  m06_base = 0;
  any = false;
  pid01_ecu0 = false;
  steps_done = 0;
  out_of_time = false;
  tx_failed = false;
  finished = false;
}

-- `finish`
unfoldable pub finish : BookendSeq → BookendSeq
finish s =
    let cut = s.d.truncated || (s.out_of_time || s.tx_failed) in
    record s {
      finished = true;
      d = record s.d {
        no_response = s.d.no_response || not s.pid01_ecu0;
        truncated = cut;
        complete = s.d.complete || (s.steps_done == 4 && not cut);
      };
    }

-- `stepDone`, by the step.
unfoldable pub step_done_at : BookendStep → BookendSeq → BookendSeq
step_done_at step_pid01 s = record s { steps_done = u8 (s.steps_done + 1); step = step_m03 }
step_done_at step_m03 s = record s { steps_done = u8 (s.steps_done + 1); step = step_m07 }
step_done_at step_m07 s = record s {
  steps_done = u8 (s.steps_done + 1);
  step = step_m06_support;
  m06_base = 0;
}
step_done_at step_m06_support s =
    if ltb s.m06_base 0xE0 && mid_supported s (s.m06_base + 0x20)
    then record s { m06_base = u8 (s.m06_base + 0x20) }
    else record s { step = step_m06_mid; m06_next = 1 }
step_done_at step_m06_mid s = record s { m06_next = s.req_pid + 1 }
step_done_at step_end s = s

abbrev pub step_done : BookendSeq → BookendSeq
step_done s = step_done_at s.step s

abbrev pub padding : ℕ → List ℕ
padding n = replicate n 0x55

-- `request`; a `pid` of -1 is `none`.
abbrev pub request_bytes : ℕ → Option ℕ → List ℕ
request_bytes mode none = 1 ∷ mode ∷ padding 6
request_bytes mode (some pid) = 2 ∷ mode ∷ u8 pid ∷ padding 5

abbrev pub pid_or_0 : Option ℕ → ℕ
pid_or_0 none = 0
pid_or_0 (some pid) = u8 pid

unfoldable pub request : BookendSeq → ℕ → Option ℕ → ℕ → BookendAct × BookendSeq
request s mode pid now = (
  bk_send (record { id = 0x7DF; bytes = request_bytes mode pid }),
  record s {
    req_mode = mode;
    req_pid = pid_or_0 pid;
    inflight = true;
    sent_ms = now;
    last_rx_ms = now;
    rx = replicate bookend_responders idle_rx;
    fc_pending = replicate bookend_responders false;
  },
)

-- The first responder that is owed a flow control; the number of responders when none is.
unfoldable pub first_set : List Bool → ℕ
first_set [] = 0
first_set (b ∷ bs) = let rest = first_set bs in if b then 0 else suc rest

-- The search for the next supported MID, with the fuel 256 - mid; 256 when there is none.
unfoldable pub next_mid : ℕ → BookendSeq → ℕ → ℕ
next_mid zero s mid = mid
next_mid (suc n) s mid =
    let rest = next_mid n s (mid + 1) in
    if leb mid 0xFF && (mid % 0x20 == 0 || not (mid_supported s mid)) then rest else mid

-- The switch at the end of `bookendSeqPoll`: the next request. When the MIDs are used up the loop
-- goes round once more and ends.
unfoldable pub next_request_at : BookendStep → BookendSeq → ℕ → BookendAct × BookendSeq
next_request_at step_pid01 s now = request s 1 (some 1) now
next_request_at step_m03 s now = request s 3 none now
next_request_at step_m07 s now = request s 7 none now
next_request_at step_m06_support s now = request s 6 (some s.m06_base) now
next_request_at step_m06_mid s now =
    let mid = next_mid (256 - s.m06_next) s s.m06_next in
    if ltb 0xFF mid
    then (bk_done, finish (record s { steps_done = u8 (s.steps_done + 1); step = step_end }))
    else request s 6 (some mid) now
next_request_at step_end s now = (bk_done, finish s)

-- The loop at the end of `bookendSeqPoll`.
abbrev pub is_end : BookendStep → Bool
is_end step_end = true
is_end _ = false

unfoldable pub next_request : BookendSeq → ℕ → BookendAct × BookendSeq
next_request s now =
    if not (is_end s.step) && lt_i32 (sub32 s.deadline now) s.t.min_start_ms
    then (bk_done, finish (record s { out_of_time = true }))
    else next_request_at s.step s now

abbrev pub any_active : List IsoTpRx → Bool
any_active [] = false
any_active (r ∷ rs) = r.active || any_active rs

-- Whether the request in flight is over: quiet for long enough, or at its cap.
abbrev pub answered_or_capped : BookendSeq → ℕ → Bool
answered_or_capped s now =
    (leb s.t.quiet_ms (sub32 now s.last_rx_ms) && not (any_active s.rx))
    || leb s.t.req_max_ms (sub32 now s.sent_ms)

-- `bookendSeqPoll`, once no flow control is owed.
unfoldable pub poll_request : BookendSeq → ℕ → BookendAct × BookendSeq
poll_request s now =
    if not s.inflight
    then next_request s now
    else if answered_or_capped s now
    then next_request (step_done (record s { inflight = false })) now
    else if nonneg32 (sub32 now s.deadline)
    then (bk_done, finish (record s { inflight = false; out_of_time = true }))
    else (bk_wait, s)

-- `bookendSeqPoll`
unfoldable pub seq_poll : BookendSeq → ℕ → BookendAct × BookendSeq
seq_poll s now =
    let i = first_set s.fc_pending in
    if s.finished
    then (bk_done, s)
    else if ltb i (length s.fc_pending)
    then (
      bk_send (record { id = 0x7E0 + i; bytes = 0x30 ∷ 0 ∷ 0 ∷ padding 5 }),
      record s { fc_pending = set s.fc_pending i false },
    )
    else poll_request s now

-- `handleMessage`, by the step.
unfoldable pub handle_at : BookendStep → BookendSeq → ℕ → List ℕ → BookendSeq
handle_at step_pid01 s ecu p =
    let (ok, d) = parse_pid01 s.d p in
    if not (ecu == 0) || (s.pid01_ecu0 || not ok) then s else record s { d = d; pid01_ecu0 = true }
handle_at step_m03 s ecu p = record s { d = (parse_stored s.d ecu p).1 }
handle_at step_m07 s ecu p = record s { d = (parse_pending s.d ecu p).1 }
handle_at step_m06_support s ecu p = record s {
  m06_support = (parse_m06_support s.m06_base p s.m06_support).1;
}
handle_at step_m06_mid s ecu p =
    if leb 2 (length p) && at p 1 == s.req_pid
    then record s { d = (parse_m06_results s.d ecu p).1 }
    else s
handle_at step_end s ecu p = s

unfoldable pub handle_message : BookendSeq → ℕ → List ℕ → BookendSeq
handle_message s ecu p =
    if ltb (length p) 1 || not (at p 0 == u8 (s.req_mode + 0x40))
    then s
    else handle_at s.step (record s { any = true }) ecu p

-- What `bookendSeqOnFrame` does with the event of its responder's receiver.
unfoldable pub on_iso_tp : IsoTpEv → BookendSeq → ℕ → List ℕ → BookendSeq
on_iso_tp iso_need_fc s i buf = record s { fc_pending = set s.fc_pending i true }
on_iso_tp iso_done s i buf = handle_message s i buf
on_iso_tp iso_none s i buf = s
on_iso_tp iso_error s i buf = s

-- `bookendSeqOnFrame`
unfoldable pub seq_on_frame : BookendSeq → ℕ → List ℕ → ℕ → ℕ → BookendSeq
seq_on_frame s id bytes dlc now =
    let i = id - 0x7E8 in
    let (ev, r) = iso_tp_feed (get_or s.rx i idle_rx) bytes dlc in
    if not s.inflight || (s.finished || (ltb id 0x7E8 || ltb 0x7EF id))
    then s
    else on_iso_tp ev (record s { last_rx_ms = now; rx = set s.rx i r }) i r.buf

-- `bookendSeqTxFailed`
unfoldable pub seq_tx_failed : BookendSeq → BookendSeq
seq_tx_failed s = if s.finished then s else finish (record s { inflight = false; tx_failed = true })

-- `bookendSeqShouldWrite`, without the reason.
unfoldable pub seq_should_write : BookendSeq → Bool
seq_should_write s = elim s.d.kind [ kind_start ↦ true | kind_end ↦ ltb 0 s.steps_done ]
