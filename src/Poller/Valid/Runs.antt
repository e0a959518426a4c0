-- ===== src/Poller/Valid/Runs.antt =====
-- The poller from its start, over any run of its calls.
use mathlib.Core.Path.{subst}
use cardiag.Base.{
  Bool, Bool-cases, List, Option, [], arith, false, if_both, if_split, if◌then◌else◌, inl, inr, leb,
  length, length-append, ltb, none, not, refl, some, sym, true, u32, ℕ, ◌++◌, ◌+◌, ◌||◌, ◌∷◌, ◌≡◌,
}
use cardiag.PollPlan.{PollEntry, plan_valid}
use cardiag.PollPlan.Codec.{poll_plan_decode, poll_plan_decode-plan_valid}
use cardiag.PollPlan.Contract.{
  PlanResult, poll_plan_parse, plan_ok, plan_malformed, plan_invalid, plan_no_fuel,
}
use cardiag.PollPlan.Contract.Accepted.{poll_plan_parse-plan_valid}
use cardiag.PollPlan.Sched.{poll_sched_init}
use cardiag.PollPlan.Sched.Account.{poll_sched_init-IsValid}
use cardiag.Bookend.Seq.{seq_tx_failed}
use cardiag.Bookend.Seq.Runs.{seq_start-Honest, seq_tx_failed-Honest}
use cardiag.Poller.{
  obd_resp_id_first, obd_resp_id_last, poll_rx_queue_len, PollFrame, RxMessage, Poller, bk_timing,
  poller_zero, Preferences, load_nvs, save_nvs, poller_begin, poller_enter, Inputs, bookend_write,
  poller_exit, noted, poller_note_frame, adopt, set_plan, poller_set_from_json, frame_of, emptied,
  deactivated, take_plan, take_blob, queue_of, stored_blob, kind_start,
}
use cardiag.Poller.Tick.{poller_tick}
use cardiag.Poller.Valid.{Room, Sound, with_bk, with_queue, Honest}
use cardiag.Poller.Valid.Tick.{poller_tick-Sound}

emptied-Room : (q : Option (List PollFrame)) → Room (emptied q)
emptied-Room none = tt
emptied-Room (some l) = omega arith

-- Entering MODE_POLL makes the schedule run the plan, whatever it ran before.
poller_enter-Sound :
    (p : Poller) (now : ℕ)
    → plan_valid p.plan ≡ true
    → p.has_plan ≡ ltb 0 (length p.plan)
    → Honest p.bk
    → Sound (poller_enter p now)
unfolding poller_enter poll_sched_init
poller_enter-Sound p now v e o = record {
  plan = v;
  has = e;
  used = λ x. refl;
  sched = poll_sched_init-IsValid p.plan now;
  honest = o;
  alone = λ x. refl;
  idle = λ x. absurd (ground arith);
  room = emptied-Room p.q;
}

left : (p : Poller) → Sound p → Sound (record p { active = false; bk_active = false })
left p h = record {
  plan = h.plan;
  has = h.has;
  used = λ x. absurd (ground arith);
  sched = h.sched;
  honest = h.honest;
  alone = λ x. absurd (ground arith);
  idle = λ x. refl;
  room = h.room;
}

poller_exit-Sound : (p : Poller) (e : Inputs) → Sound p → Sound (poller_exit p e).0
unfolding poller_exit bookend_write
poller_exit-Sound p e h = elim (Bool-cases p.bk_active) [
  | inl b ↦ rw b (
      left (record p { bk = seq_tx_failed p.bk })
        (with_bk p (seq_tx_failed p.bk) (seq_tx_failed-Honest p.bk h.honest) h))
  | inr b ↦
      subst
        (λ x.
          Sound
            (deactivated
              (if x then bookend_write (record p { bk = seq_tx_failed p.bk }) e else (p, []))).0)
        (sym b) (subst (λ x. Sound (record p { active = false; bk_active = x })) (sym b) (left p h))
]

with_dropped : (p : Poller) (n : ℕ) → Sound p → Sound (record p { rx_dropped = n })
with_dropped p n h = record {
  plan = h.plan;
  has = h.has;
  used = h.used;
  sched = h.sched;
  honest = h.honest;
  alone = h.alone;
  idle = h.idle;
  room = h.room;
}

noted-Sound :
    (p : Poller) (rx : RxMessage) (q : Option (List PollFrame))
    → p.q ≡ q
    → Sound p
    → Sound (noted q p rx)
unfolding noted
noted-Sound p rx none e h = h
noted-Sound p rx (some l) e h =
    let f = frame_of rx in
    if_both Sound
      (not p.active
        || (rx.extd || (ltb rx.identifier obd_resp_id_first || ltb obd_resp_id_last rx.identifier)))
      h
      (if_split Sound (leb poll_rx_queue_len (length l))
        (λ x. with_dropped p (u32 (p.rx_dropped + 1)) h)
        (λ x.
          with_queue p (some (l ++ (f ∷ []))) (let n = length-append l (f ∷ []) in ground arith) h))

-- A new plan, outside MODE_POLL.
with_plan :
    (p : Poller) (plan : List PollEntry) (has ok : Bool)
    → plan_valid plan ≡ true
    → has ≡ ltb 0 (length plan)
    → p.active ≡ false
    → Sound p
    → Sound (record p { plan = plan; has_plan = has; nvs_ok = ok })
with_plan p plan has ok v e a h = record {
  plan = v;
  has = e;
  used = λ x. absurd (ground arith);
  sched = h.sched;
  honest = h.honest;
  alone = h.alone;
  idle = h.idle;
  room = h.room;
}

adopt-Sound :
    (p : Poller) (plan : List PollEntry) (now : ℕ)
    → plan_valid plan ≡ true
    → Sound p
    → Sound (adopt p plan now)
unfolding adopt
adopt-Sound p plan now v h =
    let has = ltb 0 (length plan) in
    if_split Sound p.active
      (λ a.
        poller_enter-Sound (record p { plan = plan; has_plan = has; nvs_ok = true }) now v refl
          h.honest)
      (λ a. with_plan p plan has true v refl a h)

take_plan-Sound :
    (p : Poller) (o : Option (List PollEntry))
    → ((l : List PollEntry) → o ≡ some l → plan_valid l ≡ true)
    → p.has_plan ≡ false
    → p.active ≡ false
    → Sound p
    → Sound (take_plan p o)
unfolding plan_valid
take_plan-Sound p none v n a h = with_plan p [] p.has_plan false refl n a h
take_plan-Sound p (some []) v n a h = with_plan p [] p.has_plan false refl n a h
take_plan-Sound p (some (e ∷ es)) v n a h =
    with_plan p (e ∷ es) true true (v (e ∷ es) refl) (ground arith) a h

take_blob-Sound :
    (p : Poller) (o : Option (List ℕ))
    → p.has_plan ≡ false
    → p.active ≡ false
    → Sound p
    → Sound (take_blob p o)
take_blob-Sound p none n a h = with_plan p p.plan p.has_plan true h.plan h.has a h
take_blob-Sound p (some blob) n a h =
    take_plan-Sound p (poll_plan_decode blob) (poll_plan_decode-plan_valid blob) n a h

zero-Sound : (created : Bool) → Sound (record poller_zero { q = queue_of created none })
unfolding plan_valid poll_sched_init
zero-Sound created = record {
  plan = refl;
  has = refl;
  used = λ x. refl;
  sched = poll_sched_init-IsValid [] 0;
  honest = seq_start-Honest kind_start 0 0 bk_timing;
  alone = λ x. refl;
  idle = λ x. refl;
  room = elim created as (λ x. Room (queue_of x none)) [ true ↦ omega arith | false ↦ tt ];
}

-- The calls of the rest of the firmware.
pub data Call : Type 0 where
  ticks : Inputs → Call
  notes : RxMessage → Call
  enters : ℕ → Call
  exits : Inputs → Call
  sets : List ℕ → ℕ → Call

module _ {S : Type 0} (prefs : Preferences S) where
  unfoldable pub call : S × Poller → Call → S × Poller
  call (s, p) (ticks e) = (s, (poller_tick p e).0)
  call (s, p) (notes rx) = (s, poller_note_frame p rx)
  call (s, p) (enters now) = (s, poller_enter p now)
  call (s, p) (exits e) = (s, (poller_exit p e).0)
  call (s, p) (sets json now) = let (r, t, q) = poller_set_from_json prefs s p json now in (t, q)

  unfoldable pub call_all : S × Poller → List Call → S × Poller
  unfolding call
  call_all a [] = a
  call_all a (c ∷ cs) = call_all (call a c) cs

  set_plan-Sound :
      (s : S) (p : Poller) (r : PlanResult) (now : ℕ)
      → ((l : List PollEntry) → r ≡ plan_ok l → plan_valid l ≡ true)
      → Sound p
      → Sound (set_plan prefs s p r now).2
  unfolding set_plan
  set_plan-Sound s p (plan_ok l) now v h = elim (Bool-cases (save_nvs prefs s l).0) [
    | inl e ↦ rw e (adopt-Sound p l now (v l refl) h)
    | inr e ↦ rw e h
  ]
  set_plan-Sound s p plan_malformed now v h = h
  set_plan-Sound s p (plan_invalid x) now v h = h
  set_plan-Sound s p plan_no_fuel now v h = h

  load_nvs-Sound :
      (s : S) (p : Poller)
      → p.has_plan ≡ false
      → p.active ≡ false
      → Sound p
      → Sound (load_nvs prefs s p)
  unfolding load_nvs
  load_nvs-Sound s p n a h =
      if_both Sound (not (prefs.begin s)) h (take_blob-Sound p (stored_blob prefs s) n a h)

  call-Sound : (a : S × Poller) (c : Call) → Sound a.1 → Sound (call a c).1
  unfolding call poller_set_from_json
  call-Sound (s, p) (ticks e) h = poller_tick-Sound p e h
  call-Sound (s, p) (notes rx) h = noted-Sound p rx p.q refl h
  call-Sound (s, p) (enters now) h = poller_enter-Sound p now h.plan h.has h.honest
  call-Sound (s, p) (exits e) h = poller_exit-Sound p e h
  call-Sound (s, p) (sets json now) h =
      set_plan-Sound s p (poll_plan_parse json) now (λ l e. (poll_plan_parse-plan_valid json l e).0)
        h

  call_all-Sound : (a : S × Poller) (cs : List Call) → Sound a.1 → Sound (call_all a cs).1
  unfolding call_all
  call_all-Sound a [] h = h
  call_all-Sound a (c ∷ cs) h = call_all-Sound (call a c) cs (call-Sound a c h)

  -- From `pollerBegin` on, with whatever the store holds, any passes, received frames, changes of
  -- mode and plans from the hub keep the poller sound: its plan is a valid one and has_plan says
  -- whether it is empty; in MODE_POLL the schedule runs that plan and accounts for its requests; a
  -- bookend runs only in MODE_POLL and only while the schedule has no request in flight, its flags
  -- honest; and the queue of replies stays within its size.
  pub poller_begin-call_all :
      (s : S) (created : Bool) (cs : List Call)
      → Sound (call_all (s, poller_begin prefs s created poller_zero) cs).1
  unfolding poller_begin
  poller_begin-call_all s created cs =
      call_all-Sound (s, poller_begin prefs s created poller_zero) cs
        (load_nvs-Sound s (record poller_zero { q = queue_of created none }) refl refl
          (zero-Sound created))
