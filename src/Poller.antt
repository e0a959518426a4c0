-- ===== src/Poller.antt =====
-- The state of firmware/src/poller.cpp and the calls that other code makes of it: the stored plan,
-- entering and leaving MODE_POLL, the queue of replies and a new plan from the hub.
pub mod Tick
pub mod Valid
pub mod Stored
pub mod Trips
pub mod Window
use cardiag.Base.{
  Bool, List, Option, [], false, if◌then◌else◌, leb, length, ltb, none, not, some, take, true, u32,
  ℕ, ◌&&◌, ◌*◌, ◌++◌, ◌+◌, ◌==◌, ◌||◌, ◌∷◌,
}
use cardiag.PollPlan.{PollEntry}
use cardiag.PollPlan.Codec.{poll_plan_encode, poll_plan_decode}
use cardiag.PollPlan.Hash.{poll_plan_hash}
use cardiag.PollPlan.Contract.{
  PlanResult, poll_plan_parse, plan_ok, plan_malformed, plan_invalid, plan_no_fuel,
}
use cardiag.PollPlan.Sched.{PollSched, poll_sched_init}
use cardiag.Bookend.Seq.{BookendTiming, BookendSeq, seq_start, seq_tx_failed, seq_should_write}
use cardiag.Bookend.{Kind, kind_start, kind_end}
use cardiag.Bookend.Encode.{bookend_encode}

abbrev pub obd_resp_id_first : ℕ
obd_resp_id_first = 0x7E8

abbrev pub obd_resp_id_last : ℕ
obd_resp_id_last = 0x7EF

abbrev pub poll_rx_queue_len : ℕ
poll_rx_queue_len = 16

abbrev pub pollplan_blob_max : ℕ
pollplan_blob_max = 2 + 32 * 6

abbrev pub bookend_rec_max : ℕ
bookend_rec_max = 16 + (4 + 4 + 1 + 3 * 32 + 1 + 3 * 32 + 1 + 10 * 64)

-- `struct PollFrame`
pub record PollFrame : Type 0 where
  pub id : ℕ
  pub dlc : ℕ
  pub bytes : List ℕ

-- A received `twai_message_t`
pub record RxMessage : Type 0 where
  pub extd : Bool
  pub identifier : ℕ
  pub data_length_code : ℕ
  pub bytes : List ℕ

-- The variables of the file; the queue is `none` until it was created.
pub record Poller : Type 0 where
  pub plan : List PollEntry
  pub has_plan : Bool
  pub nvs_ok : Bool
  pub sched : PollSched
  pub active : Bool
  pub q : Option (List PollFrame)
  pub rx_dropped : ℕ
  pub bk : BookendSeq
  pub bk_active : Bool
  pub trip_started : Bool
  pub end_tried : Bool

-- `kBkTiming`
abbrev pub bk_timing : BookendTiming
bk_timing = record { quiet_ms = 100; req_max_ms = 500; min_start_ms = 150 }

-- The values before `pollerBegin`. Nothing reads the sequence or the schedule before it is started.
abbrev pub poller_zero : Poller
poller_zero = record {
  plan = [];
  has_plan = false;
  nvs_ok = false;
  sched = poll_sched_init [] 0;
  active = false;
  q = none;
  rx_dropped = 0;
  bk = seq_start kind_start 0 0 bk_timing;
  bk_active = false;
  trip_started = false;
  end_tried = false;
}

-- What the poller hands to other parts: a frame to `canTransmit` and whether it was taken, a
-- sequence that starts and its budget, and a record to `filestoreWriteBookend`.
pub data Out : Type 0 where
  tx : ℕ → List ℕ → Bool → Out
  began : Kind → ℕ → Out
  wrote : List ℕ → Out

-- The calls of the key-value store of the ESP32 core, on the key "plan" of the namespace
-- "pollplan", over a store of type `S`.
pub record Preferences (S : Type 0) : Type 0 where
  pub begin : S → Bool
  pub is_key : S → Bool
  pub get_bytes_length : S → ℕ
  pub get_bytes : S → ℕ → List ℕ
  pub put_bytes : S → List ℕ → ℕ × S
  pub remove : S → Bool × S

-- The stored plan as `loadNvs` takes it: `none` when there is nothing it can read.
abbrev stored_blob : {S : Type 0} → Preferences S → S → Option (List ℕ)
stored_blob prefs s =
    let n = if prefs.is_key s then prefs.get_bytes_length s else 0 in
    let blob = prefs.get_bytes s n in
    if (ltb 0 n && leb n pollplan_blob_max) && length blob == n then some blob else none

-- What the decoded blob does to the state.
abbrev take_plan : Poller → Option (List PollEntry) → Poller
take_plan p none = record p { plan = []; nvs_ok = false }
take_plan p (some []) = record p { plan = []; nvs_ok = false }
take_plan p (some (e ∷ es)) = record p { plan = e ∷ es; has_plan = true; nvs_ok = true }

abbrev take_blob : Poller → Option (List ℕ) → Poller
take_blob p none = record p { nvs_ok = true }
take_blob p (some blob) = take_plan p (poll_plan_decode blob)

-- `loadNvs`
unfoldable pub load_nvs : {S : Type 0} → Preferences S → S → Poller → Poller
load_nvs prefs s p = if not (prefs.begin s) then p else take_blob p (stored_blob prefs s)

-- `saveNvs`: whether the plan is stored, and the store.
unfoldable pub save_nvs : {S : Type 0} → Preferences S → S → List PollEntry → Bool × S
save_nvs prefs s plan =
    let blob = poll_plan_encode plan pollplan_blob_max in
    let (n, s') = prefs.put_bytes s blob in
    if not (prefs.begin s)
    then (false, s)
    else if length plan == 0
    then (if not (prefs.is_key s) then (true, s) else prefs.remove s)
    else if length blob == 0
    then (false, s)
    else (n == length blob, s')

-- `pollerBegin`; `created` says whether the queue could be made, when there is none yet.
abbrev queue_of : Bool → Option (List PollFrame) → Option (List PollFrame)
queue_of created (some l) = some l
queue_of true none = some []
queue_of false none = none

unfoldable pub poller_begin : {S : Type 0} → Preferences S → S → Bool → Poller → Poller
unfolding load_nvs
poller_begin prefs s created p = load_nvs prefs s (record p { q = queue_of created p.q })

-- `xQueueReset`, when there is a queue.
abbrev emptied : Option (List PollFrame) → Option (List PollFrame)
emptied none = none
emptied (some l) = some []

-- `pollerEnter`
unfoldable pub poller_enter : Poller → ℕ → Poller
poller_enter p now = record p { q = emptied p.q; sched = poll_sched_init p.plan now; active = true }

-- What the rest of the firmware tells a pass of the poller: the time, the time of a write, the
-- ignition, the edge of a pending OFF, the identity of the session, and which of the frames it
-- hands over `canTransmit` takes.
pub record Inputs : Type 0 where
  pub now : ℕ
  pub write_ms : ℕ
  pub ignition_on : Bool
  pub off_pending : Option ℕ
  pub device_id : ℕ
  pub boot_id : ℕ
  pub sends : ℕ → Bool

-- `bookendWrite`
unfoldable pub bookend_write : Poller → Inputs → Poller × List Out
bookend_write p e =
    let rec = bookend_encode p.bk.d e.device_id e.boot_id e.write_ms bookend_rec_max in
    (
      record p { bk_active = false },
      if not (seq_should_write p.bk) || length rec == 0 then [] else wrote rec ∷ [],
    )

-- `bookendStart`
unfoldable pub bookend_start : Poller → Kind → ℕ → ℕ → Poller × List Out
bookend_start p kind now budget_ms = (
  record p { bk = seq_start kind now budget_ms bk_timing; bk_active = true },
  began kind budget_ms ∷ [],
)

abbrev pub deactivated : Poller × List Out → Poller × List Out
deactivated (p, out) = (record p { active = false }, out)

-- `pollerExit`
unfoldable pub poller_exit : Poller → Inputs → Poller × List Out
poller_exit p e =
    deactivated
      (if p.bk_active then bookend_write (record p { bk = seq_tx_failed p.bk }) e else (p, []))

-- The frame kept for a reply.
abbrev frame_of : RxMessage → PollFrame
frame_of rx = record {
  id = rx.identifier;
  dlc = if ltb 8 rx.data_length_code then 8 else rx.data_length_code;
  bytes = take 8 rx.bytes;
}

-- `xQueueSend`, which counts what a full queue refuses.
abbrev enqueue : Poller → PollFrame → List PollFrame → Poller
enqueue p f l =
    if leb poll_rx_queue_len (length l)
    then record p { rx_dropped = u32 (p.rx_dropped + 1) }
    else record p { q = some (l ++ (f ∷ [])) }

-- `pollerNoteFrame`, with the queue as an argument of its own.
unfoldable pub noted : Option (List PollFrame) → Poller → RxMessage → Poller
noted none p rx = p
noted (some l) p rx =
    if not p.active
      || (rx.extd || (ltb rx.identifier obd_resp_id_first || ltb obd_resp_id_last rx.identifier))
    then p
    else enqueue p (frame_of rx) l

abbrev pub poller_note_frame : Poller → RxMessage → Poller
poller_note_frame p rx = noted p.q p rx

-- What `pollerSetFromJson` returns: the parser's refusal, a store that could not be written, or the
-- hash of the plan.
pub data SetResult : Type 0 where
  refused : PlanResult → SetResult
  nvs_failed : SetResult
  applied : List ℕ → SetResult

-- The plan is stored: it is now the poller's.
unfoldable pub adopt : Poller → List PollEntry → ℕ → Poller
unfolding poller_enter
adopt p plan now =
    let a = record p { plan = plan; has_plan = ltb 0 (length plan); nvs_ok = true } in
    if p.active then poller_enter a now else a

unfoldable pub set_plan :
    {S : Type 0} → Preferences S → S → Poller → PlanResult → ℕ → SetResult × S × Poller
set_plan prefs s p (plan_ok plan) now =
    let (ok, s') = save_nvs prefs s plan in
    if not ok then (nvs_failed, s', p) else (applied (poll_plan_hash plan), s', adopt p plan now)
set_plan prefs s p r now = (refused r, s, p)

-- `pollerSetFromJson`
unfoldable pub poller_set_from_json :
    {S : Type 0} → Preferences S → S → Poller → List ℕ → ℕ → SetResult × S × Poller
unfolding set_plan
poller_set_from_json prefs s p json now = set_plan prefs s p (poll_plan_parse json) now

-- `pollerEntries`
abbrev pub poller_entries : Poller → ℕ
poller_entries p = if p.has_plan then length p.plan else 0

-- `pollerAnyReply`
abbrev pub poller_any_reply : Poller → Bool
poller_any_reply p = p.active && p.sched.any_ok
