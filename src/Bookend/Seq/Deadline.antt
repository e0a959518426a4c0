-- ===== src/Bookend/Seq/Deadline.antt =====
-- What is left to do for the sequencer of firmware/src/bookend.cpp once its deadline is past.
use mathlib.Core.Path.{subst}
use cardiag.Base.{
  All, Bool, List, [], ap, arith, false, if◌then◌else◌, inl, inr, length, lt_i32, ltb, ltb→lt,
  nonneg32, not, refl, set, sub32, sym, true, ℕ, ◌+◌, ◌<◌, ◌^◌, ◌∙◌, ◌∷◌, ◌≡◌, ◌⊎◌, if_both,
  if_split,
}
use cardiag.Bookend.Seq.{
  BookendAct, BookendStep, BookendSeq, finish, step_done_at, step_done, first_set, next_request_at,
  next_request, answered_or_capped, poll_request, seq_poll, step_pid01, step_m03, step_m07,
  step_m06_support, step_m06_mid, step_end,
}

-- A time at or after the deadline.
abbrev pub PastDeadline : BookendSeq → ℕ → Type 0
PastDeadline s now = (now < 2 ^ 32) × (nonneg32 (sub32 now s.deadline) ≡ true)

-- What the sequencer's timing has to be.
pub record Timed (s : BookendSeq) : Type 0 where
  pub deadline : s.deadline < 2 ^ 32
  pub some_start : 0 < s.t.min_start_ms
  pub small_start : s.t.min_start_ms < 2 ^ 31

finish_lem : (s : BookendSeq) → (finish s).finished ≡ true
unfolding finish
finish_lem s = refl

no_time :
    (deadline now need : ℕ)
    → deadline < 2 ^ 32
    → now < 2 ^ 32
    → nonneg32 (sub32 now deadline) ≡ true
    → 0 < need
    → need < 2 ^ 31
    → lt_i32 (sub32 deadline now) need ≡ true
no_time deadline now need hd hn p lo hi = ground arith

next_request_past :
    (s : BookendSeq) (now : ℕ)
    → lt_i32 (sub32 s.deadline now) s.t.min_start_ms ≡ true
    → (next_request s now).1.finished ≡ true
unfolding next_request finish next_request_at
next_request_past s now late = go s.step refl
  where
    go : (x : BookendStep) → s.step ≡ x → (next_request s now).1.finished ≡ true
    go step_end e = rw e refl
    go step_pid01 e = rw e (rw late refl)
    go step_m03 e = rw e (rw late refl)
    go step_m07 e = rw e (rw late refl)
    go step_m06_support e = rw e (rw late refl)
    go step_m06_mid e = rw e (rw late refl)

-- The number of responders that are owed a flow control.
unfoldable pub owed : List Bool → ℕ
owed [] = 0
owed (b ∷ bs) = (if b then 1 else 0) + owed bs

step_done_at_lem :
    (x : BookendStep) (s : BookendSeq)
    → ((step_done_at x s).deadline ≡ s.deadline) × ((step_done_at x s).t ≡ s.t)
unfolding step_done_at
step_done_at_lem step_pid01 s = (refl, refl)
step_done_at_lem step_m03 s = (refl, refl)
step_done_at_lem step_m07 s = (refl, refl)
step_done_at_lem step_m06_support s = ground arith
step_done_at_lem step_m06_mid s = (refl, refl)
step_done_at_lem step_end s = (refl, refl)

poll_request_past :
    (s : BookendSeq) (now : ℕ)
    → Timed s
    → PastDeadline s now
    → (poll_request s now).1.finished ≡ true
unfolding poll_request
poll_request_past s now v p =
    let late : lt_i32 (sub32 s.deadline now) s.t.min_start_ms ≡ true =
      no_time s.deadline now s.t.min_start_ms v.deadline p.0 p.1 v.some_start v.small_start in
    let next = step_done (record s { inflight = false }) in
    let (d, t) = step_done_at_lem s.step (record s { inflight = false }) in
    let late' : lt_i32 (sub32 next.deadline now) next.t.min_start_ms ≡ true = rw d (rw t late) in
    let Over = λ (o : BookendAct × BookendSeq). o.1.finished ≡ true in
    if_both Over (not s.inflight) (next_request_past s now late) (
      if_both Over (answered_or_capped s now) (next_request_past next now late')
        (rw (p.1) (finish_lem (record s { inflight = false; out_of_time = true }))))

-- A poll that owes a flow control sends it and changes nothing else.
owed-set :
    (bs : List Bool) → first_set bs < length bs → owed (set bs (first_set bs) false) + 1 ≡ owed bs
unfolding first_set owed
owed-set [] h = absurd (omega arith)
owed-set (true ∷ bs) h = omega arith
owed-set (false ∷ bs) h = let e = owed-set bs (omega arith) in omega arith

-- The states of polls at the times given.
unfoldable pub polls : BookendSeq → List ℕ → BookendSeq
polls s [] = s
polls s (now ∷ times) = polls (seq_poll s now).1 times

-- What a poll after the deadline does to `s`.
abbrev Late : BookendSeq → BookendAct × BookendSeq → Type 0
Late s o =
    (o.1.finished ≡ true)
    ⊎ ((owed o.1.fc_pending + 1 ≡ owed s.fc_pending) × (o.1.deadline ≡ s.deadline) × (o.1.t ≡ s.t))

poll_past : (s : BookendSeq) (now : ℕ) → Timed s → PastDeadline s now → Late s (seq_poll s now)
unfolding seq_poll
poll_past s now v p =
    if_split (Late s) s.finished (λ f. inl f)
      (λ f.
        if_split (Late s) (ltb (first_set s.fc_pending) (length s.fc_pending))
          (λ l. inr (owed-set s.fc_pending (ltb→lt _ _ l), refl, refl))
          (λ l. inl (poll_request_past s now v p)))

seq_poll_finished : (s : BookendSeq) (now : ℕ) → s.finished ≡ true → (seq_poll s now).1 ≡ s
unfolding seq_poll
seq_poll_finished s now f = simp (f)

polls_finished :
    (s : BookendSeq) (times : List ℕ) → s.finished ≡ true → (polls s times).finished ≡ true
unfolding polls
polls_finished s [] f = f
polls_finished s (now ∷ times) f =
    ap (λ x. (polls x times).finished) (seq_poll_finished s now f) ∙ polls_finished s times f

-- When a sequence's deadline is a 32-bit time and its least time to start a read is positive and
-- below 2^31 ms, polls at or after the deadline (less than 2^31 ms), with no frame between them,
-- finish it, whatever it was waiting for, when there are more of them than flow controls owed at the
-- first one.
pub polls_past :
    (s : BookendSeq) (times : List ℕ)
    → Timed s
    → All (PastDeadline s) times
    → owed s.fc_pending < length times
    → (polls s times).finished ≡ true
unfolding polls
polls_past s [] v a h = absurd (omega arith)
polls_past s (now ∷ times) v a h = elim (poll_past s now v a.0) [
  | inl f ↦ polls_finished (seq_poll s now).1 times f
  | inr (o, d, t) ↦
      let s' = (seq_poll s now).1 in
      let v' : Timed s' = record {
        deadline = rw d v.deadline;
        some_start = rw t v.some_start;
        small_start = rw t v.small_start;
      } in
      polls_past s' times v'
        (subst (λ x. All (λ n. (n < 2 ^ 32) × (nonneg32 (sub32 n x) ≡ true)) times) (sym d) a.1)
        (omega arith)
]
