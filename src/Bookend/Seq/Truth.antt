-- ===== src/Bookend/Seq/Truth.antt =====
-- Where the flags of a record come from in the sequencer of firmware/src/bookend.cpp: the frames
-- heard, the time, the sends, and lists at their caps.
pub mod Lists
use cardiag.Base.{
  Bool, List, Option, [], ap, arith, drop, false, get_or, if_both, if_split, if◌then◌else◌, inl,
  inr, leb, length, length-append, lt_i32, ltb, none, nonneg32, not, refl, set, some, sub32, suc,
  sym, true, u8, zero, ℕ, ◌&&◌, ◌++◌, ◌+◌, ◌-◌, ◌==◌, ◌||◌, ◌∙◌, ◌∷◌, ◌≡◌, ◌≤◌, ◌⊎◌,
}
use cardiag.IsoTp.{IsoTpEv, idle_rx, iso_tp_feed, iso_none, iso_done, iso_need_fc, iso_error}
use cardiag.Bookend.{
  bookend_max_stored, bookend_max_pending, bookend_max_m06, BookendDtc, BookendM06, BookendData,
}
use cardiag.Bookend.Parse.{
  be16, result_at, at, parse_pid01, dtcs_loop, dtc_count, parse_stored, parse_pending, results_loop,
  parse_m06_results,
}
use cardiag.Bookend.Seq.Truth.Lists.{
  at_cap, Parsed, parse_pid01-Parsed, parse_stored-Parsed, parse_pending-Parsed,
  parse_m06_results-Parsed,
}
use cardiag.Bookend.Seq.{
  BookendAct, BookendStep, BookendSeq, mid_supported, finish, step_done_at, step_done, request,
  first_set, next_mid, next_request_at, is_end, next_request, answered_or_capped, poll_request,
  seq_poll, handle_at, handle_message, on_iso_tp, seq_on_frame, seq_tx_failed, step_pid01, step_m03,
  step_m07, step_m06_support, step_m06_mid, step_end,
}

-- A step of the sequencer; `heard` says whether it is a frame of the engine.
pub record Goes (heard : Bool) (s t : BookendSeq) : Type 0 where
  pub engine : t.pid01_ecu0 ≡ true → (s.pid01_ecu0 ≡ true) ⊎ (heard ≡ true)
  pub limit : at_cap s.d ≡ true → at_cap t.d ≡ true
  pub cut :
      t.d.truncated ≡ true
      → (s.d.truncated ≡ true)
        ⊎ ((t.out_of_time ≡ true) ⊎ ((t.tx_failed ≡ true) ⊎ (at_cap t.d ≡ true)))
  pub late : s.out_of_time ≡ true → t.out_of_time ≡ true
  pub failed : s.tx_failed ≡ true → t.tx_failed ≡ true

-- Nothing of that is touched.
still-Goes :
    (b : Bool) (s t : BookendSeq)
    → t.d ≡ s.d
    → t.pid01_ecu0 ≡ s.pid01_ecu0
    → t.out_of_time ≡ s.out_of_time
    → t.tx_failed ≡ s.tx_failed
    → Goes b s t
still-Goes b s t d p o f = record {
  engine = λ h. inl (sym p ∙ h);
  limit = λ h. ap at_cap d ∙ h;
  cut = λ h. inl (ap (λ (x : BookendData). x.truncated) (sym d) ∙ h);
  late = λ h. o ∙ h;
  failed = λ h. f ∙ h;
}

finish-Goes :
    (s t : BookendSeq)
    → t.d ≡ s.d
    → t.pid01_ecu0 ≡ s.pid01_ecu0
    → (s.out_of_time ≡ true → t.out_of_time ≡ true)
    → (s.tx_failed ≡ true → t.tx_failed ≡ true)
    → Goes false s (finish t)
unfolding finish
finish-Goes s t d p o f =
    let c : t.d.truncated ≡ s.d.truncated = ap (λ (x : BookendData). x.truncated) d in
    let k : at_cap t.d ≡ at_cap s.d = ap at_cap d in
    record {
      engine = λ h. inl (sym p ∙ h);
      limit = λ h. k ∙ h;
      cut = λ h. ground arith;
      late = o;
      failed = f;
    }

step_done_at-Goes : (x : BookendStep) (s : BookendSeq) → Goes false s (step_done_at x s)
unfolding step_done_at
step_done_at-Goes step_pid01 s = still-Goes false s _ refl refl refl refl
step_done_at-Goes step_m03 s = still-Goes false s _ refl refl refl refl
step_done_at-Goes step_m07 s = still-Goes false s _ refl refl refl refl
step_done_at-Goes step_m06_support s =
    if_both (Goes false s) (ltb s.m06_base 0xE0 && mid_supported s (s.m06_base + 0x20))
      (still-Goes false s _ refl refl refl refl) (still-Goes false s _ refl refl refl refl)
step_done_at-Goes step_m06_mid s = still-Goes false s _ refl refl refl refl
step_done_at-Goes step_end s = still-Goes false s _ refl refl refl refl

Goes-trans : (s t u : BookendSeq) → Goes false s t → Goes false t u → Goes false s u
Goes-trans s t u h k = record {
  engine = λ e. let a = h.engine in let b = k.engine in ground arith;
  limit = λ e. k.limit (h.limit e);
  cut = λ e.
      let a = h.cut in
      let b = k.cut in let c = k.limit in let l = k.late in let f = k.failed in ground arith;
  late = λ e. k.late (h.late e);
  failed = λ e. k.failed (h.failed e);
}

abbrev AfterGoes : BookendSeq → BookendAct × BookendSeq → Type 0
AfterGoes s r = Goes false s r.1

request-Goes :
    (s : BookendSeq) (mode : ℕ) (pid : Option ℕ) (now : ℕ) → AfterGoes s (request s mode pid now)
unfolding request
request-Goes s mode pid now = still-Goes false s _ refl refl refl refl

next_request_at-Goes :
    (x : BookendStep) (s : BookendSeq) (now : ℕ) → AfterGoes s (next_request_at x s now)
unfolding next_request_at
next_request_at-Goes step_pid01 s now = request-Goes s 1 (some 1) now
next_request_at-Goes step_m03 s now = request-Goes s 3 none now
next_request_at-Goes step_m07 s now = request-Goes s 7 none now
next_request_at-Goes step_m06_support s now = request-Goes s 6 (some s.m06_base) now
next_request_at-Goes step_m06_mid s now =
    let mid = next_mid (256 - s.m06_next) s s.m06_next in
    if_both (AfterGoes s) (ltb 0xFF mid) (finish-Goes s _ refl refl (λ h. h) (λ h. h))
      (request-Goes s 6 (some mid) now)
next_request_at-Goes step_end s now = finish-Goes s s refl refl (λ h. h) (λ h. h)

next_request-Goes : (s : BookendSeq) (now : ℕ) → AfterGoes s (next_request s now)
unfolding next_request
next_request-Goes s now =
    if_both (AfterGoes s) (not (is_end s.step) && lt_i32 (sub32 s.deadline now) s.t.min_start_ms)
      (finish-Goes s (record s { out_of_time = true }) refl refl (λ h. refl) (λ h. h))
      (next_request_at-Goes s.step s now)

poll_request-Goes : (s : BookendSeq) (now : ℕ) → AfterGoes s (poll_request s now)
unfolding poll_request
poll_request-Goes s now =
    let idle = record s { inflight = false } in
    let t = step_done idle in
    if_both (AfterGoes s) (not s.inflight) (next_request-Goes s now) (
      if_both (AfterGoes s) (answered_or_capped s now)
        (Goes-trans s idle (next_request t now).1 (still-Goes false s idle refl refl refl refl) (
          Goes-trans idle t (next_request t now).1 (step_done_at-Goes s.step idle)
            (next_request-Goes t now)))
        (if_both (AfterGoes s) (nonneg32 (sub32 now s.deadline))
          (finish-Goes s (record s { inflight = false; out_of_time = true }) refl refl (λ h. refl)
            (λ h. h))
          (still-Goes false s s refl refl refl refl)))

pub seq_poll-Goes : (s : BookendSeq) (now : ℕ) → Goes false s (seq_poll s now).1
unfolding seq_poll
seq_poll-Goes s now = if_both (AfterGoes s) s.finished (still-Goes false s s refl refl refl refl) (
    if_both (AfterGoes s) (ltb (first_set s.fc_pending) (length s.fc_pending))
      (still-Goes false s _ refl refl refl refl) (poll_request-Goes s now))

pub seq_tx_failed-Goes : (s : BookendSeq) → Goes false s (seq_tx_failed s)
unfolding seq_tx_failed
seq_tx_failed-Goes s =
    if_both (Goes false s) s.finished (still-Goes false s s refl refl refl refl) (
      finish-Goes s (record s { inflight = false; tx_failed = true }) refl refl (λ h. h)
        (λ h. refl))

-- A reply that a parser has read.
reply-Goes :
    (b : Bool) (s : BookendSeq) (d : BookendData) → Parsed s.d d → Goes b s (record s { d = d })
reply-Goes b s d h = record {
  engine = λ e. inl e;
  limit = h.limit;
  cut = λ e. let c = h.cut e in ground arith;
  late = λ e. e;
  failed = λ e. e;
}

handle_at-Goes :
    (x : BookendStep) (s : BookendSeq) (ecu : ℕ) (p : List ℕ)
    → Goes (ecu == 0) s (handle_at x s ecu p)
unfolding handle_at
handle_at-Goes step_pid01 s ecu p =
    let b = ecu == 0 in
    if_split (Goes b s) (not b || (s.pid01_ecu0 || not (parse_pid01 s.d p).0))
      (λ t. still-Goes b s s refl refl refl refl)
      (λ t.
        let h = parse_pid01-Parsed s.d p in
        record {
          engine = λ e. inr (ground arith);
          limit = h.limit;
          cut = λ e. let c = h.cut e in ground arith;
          late = λ e. e;
          failed = λ e. e;
        })
handle_at-Goes step_m03 s ecu p = reply-Goes (ecu == 0) s _ (parse_stored-Parsed s.d ecu p)
handle_at-Goes step_m07 s ecu p = reply-Goes (ecu == 0) s _ (parse_pending-Parsed s.d ecu p)
handle_at-Goes step_m06_support s ecu p = still-Goes (ecu == 0) s _ refl refl refl refl
handle_at-Goes step_m06_mid s ecu p =
    if_both (Goes (ecu == 0) s) (leb 2 (length p) && at p 1 == s.req_pid)
      (reply-Goes (ecu == 0) s _ (parse_m06_results-Parsed s.d ecu p))
      (still-Goes (ecu == 0) s s refl refl refl refl)
handle_at-Goes step_end s ecu p = still-Goes (ecu == 0) s s refl refl refl refl

-- The same from a state with other bookkeeping.
based : (b : Bool) (s s' t : BookendSeq) → Goes false s s' → Goes b s' t → Goes b s t
based b s s' t h k = record {
  engine = λ e. let a = h.engine in let c = k.engine in ground arith;
  limit = λ e. k.limit (h.limit e);
  cut = λ e.
      let a = h.cut in
      let c = k.cut in let d = k.limit in let l = k.late in let f = k.failed in ground arith;
  late = λ e. k.late (h.late e);
  failed = λ e. k.failed (h.failed e);
}

on_iso_tp-Goes :
    (ev : IsoTpEv) (s : BookendSeq) (i : ℕ) (buf : List ℕ) → Goes (i == 0) s (on_iso_tp ev s i buf)
unfolding on_iso_tp handle_message
on_iso_tp-Goes iso_need_fc s i buf = still-Goes (i == 0) s _ refl refl refl refl
on_iso_tp-Goes iso_done s i buf =
    let s' = record s { any = true } in
    if_both (Goes (i == 0) s) (ltb (length buf) 1 || not (at buf 0 == u8 (s.req_mode + 0x40)))
      (still-Goes (i == 0) s s refl refl refl refl)
      (based (i == 0) s s' _ (still-Goes false s s' refl refl refl refl)
        (handle_at-Goes s.step s' i buf))
on_iso_tp-Goes iso_none s i buf = still-Goes (i == 0) s s refl refl refl refl
on_iso_tp-Goes iso_error s i buf = still-Goes (i == 0) s s refl refl refl refl

-- The engine's controller is the first responder.
other_id : (b c : Bool) (s t : BookendSeq) → (b ≡ true → c ≡ true) → Goes b s t → Goes c s t
other_id b c s t h k = record {
  engine = λ e. elim (k.engine e) [ inl a ↦ inl a | inr a ↦ inr (h a) ];
  limit = k.limit;
  cut = k.cut;
  late = k.late;
  failed = k.failed;
}

pub seq_on_frame-Goes :
    (s : BookendSeq) (id : ℕ) (bytes : List ℕ) (dlc now : ℕ)
    → Goes (id == 0x7E8) s (seq_on_frame s id bytes dlc now)
unfolding seq_on_frame
seq_on_frame-Goes s id bytes dlc now =
    let i = id - 0x7E8 in
    let e = iso_tp_feed (get_or s.rx i idle_rx) bytes dlc in
    let s' = record s { last_rx_ms = now; rx = set s.rx i e.1 } in
    if_split (Goes (id == 0x7E8) s)
      (not s.inflight || (s.finished || (ltb id 0x7E8 || ltb 0x7EF id)))
      (λ t. still-Goes (id == 0x7E8) s s refl refl refl refl)
      (λ t.
        other_id (i == 0) (id == 0x7E8) s _ (λ z. ground arith)
          (based (i == 0) s s' _ (still-Goes false s s' refl refl refl refl)
            (on_iso_tp-Goes e.0 s' i e.1.buf)))

-- What the flags rest on, when `heard` says whether a frame of the engine has come.
pub record Truthful (heard : Bool) (s : BookendSeq) : Type 0 where
  pub engine : s.pid01_ecu0 ≡ true → heard ≡ true
  pub cut :
      s.d.truncated ≡ true → (s.out_of_time ≡ true) ⊎ ((s.tx_failed ≡ true) ⊎ (at_cap s.d ≡ true))

pub Truthful-Goes :
    (a b : Bool) (s t : BookendSeq) → Truthful a s → Goes b s t → Truthful (a || b) t
Truthful-Goes a b s t h k = record {
  engine = λ e. let x = h.engine in let y = k.engine in ground arith;
  cut = λ e.
      let x = h.cut in
      let y = k.cut in let c = k.limit in let l = k.late in let f = k.failed in ground arith;
}
