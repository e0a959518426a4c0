-- ===== src/Bookend/Seq/Flags.antt =====
-- What the flags of a finished record say.
use cardiag.Base.{
  Option, arith, false, if_both, if_split, inl, inr, length, lt_i32, ltb, none, nonneg32, not, refl,
  some, sub32, true, u8, ℕ, ◌&&◌, ◌+◌, ◌-◌, ◌==◌, ◌||◌, ◌≡◌, ◌⊎◌,
}
use cardiag.Bookend.Seq.{
  BookendAct, BookendStep, BookendSeq, finish, step_done_at, step_done, request, first_set,
  next_mid, next_request_at, is_end, next_request, answered_or_capped, poll_request, seq_poll,
  step_pid01, step_m03, step_m07, step_m06_support, step_m06_mid, step_end,
}

-- The reads that are behind a step.
abbrev pub reads_before : BookendStep → ℕ
reads_before step_pid01 = 0
reads_before step_m03 = 1
reads_before step_m07 = 2
reads_before step_m06_support = 3
reads_before step_m06_mid = 3
reads_before step_end = 4

-- A sequence that goes on: its final flags are still clear.
pub record Open (s : BookendSeq) : Type 0 where
  pub running : s.finished ≡ false
  pub incomplete : s.d.complete ≡ false
  pub responding : s.d.no_response ≡ false
  pub steps : s.steps_done ≡ reads_before s.step

-- A finished one: complete says that all four reads were done and nothing was cut short, truncated
-- that time ran out, a frame could not be sent or a cap was hit, and no-response that the engine's
-- first answer never came.
pub record Closed (s : BookendSeq) : Type 0 where
  pub over : s.finished ≡ true
  pub complete : s.d.complete ≡ (s.steps_done == 4 && not s.d.truncated)
  pub cut : not (s.out_of_time || s.tx_failed) || s.d.truncated ≡ true
  pub silent : s.d.no_response ≡ not s.pid01_ecu0
  pub steps : s.steps_done ≡ reads_before s.step

abbrev pub Honest : BookendSeq → Type 0
Honest s = Open s ⊎ Closed s

pub finish-Closed : (s : BookendSeq) → Open s → Closed (finish s)
unfolding finish
finish-Closed s o = record {
  over = refl;
  complete = ground arith;
  cut = ground arith;
  silent = ground arith;
  steps = o.steps;
}

step_done_at-Open :
    (x : BookendStep) (s : BookendSeq) → s.step ≡ x → Open s → Open (step_done_at x s)
unfolding step_done_at
step_done_at-Open step_pid01 s e o = ground arith
step_done_at-Open step_m03 s e o = ground arith
step_done_at-Open step_m07 s e o = ground arith
step_done_at-Open step_m06_support s e o = ground arith
step_done_at-Open step_m06_mid s e o = ground arith
step_done_at-Open step_end s e o = o

request-Open :
    (s : BookendSeq) (mode : ℕ) (pid : Option ℕ) (now : ℕ)
    → Open s
    → Open (request s mode pid now).1
unfolding request
request-Open s mode pid now o = ground arith

next_request_at-Honest :
    (x : BookendStep) (s : BookendSeq) (now : ℕ)
    → s.step ≡ x
    → Open s
    → Honest (next_request_at x s now).1
unfolding next_request_at
next_request_at-Honest step_pid01 s now e o = inl (request-Open s 1 (some 1) now o)
next_request_at-Honest step_m03 s now e o = inl (request-Open s 3 none now o)
next_request_at-Honest step_m07 s now e o = inl (request-Open s 7 none now o)
next_request_at-Honest step_m06_support s now e o = inl (request-Open s 6 (some s.m06_base) now o)
next_request_at-Honest step_m06_mid s now e o =
    let mid = next_mid (256 - s.m06_next) s s.m06_next in
    let s' = record s { steps_done = u8 (s.steps_done + 1); step = step_end } in
    if_both (λ (r : BookendAct × BookendSeq). Honest r.1) (ltb 0xFF mid)
      (inr (finish-Closed s' (ground arith))) (inl (request-Open s 6 (some mid) now o))
next_request_at-Honest step_end s now e o = inr (finish-Closed s o)

next_request-Honest : (s : BookendSeq) (now : ℕ) → Open s → Honest (next_request s now).1
unfolding next_request
next_request-Honest s now o =
    if_both (λ (r : BookendAct × BookendSeq). Honest r.1)
      (not (is_end s.step) && lt_i32 (sub32 s.deadline now) s.t.min_start_ms)
      (inr (finish-Closed (record s { out_of_time = true }) (ground arith)))
      (next_request_at-Honest s.step s now refl o)

poll_request-Honest : (s : BookendSeq) (now : ℕ) → Open s → Honest (poll_request s now).1
unfolding poll_request
poll_request-Honest s now o =
    let idle : Open (record s { inflight = false }) = ground arith in
    let H = λ (r : BookendAct × BookendSeq). Honest r.1 in
    if_both H (not s.inflight) (next_request-Honest s now o) (
      if_both H (answered_or_capped s now)
        (next_request-Honest (step_done (record s { inflight = false })) now
          (step_done_at-Open s.step (record s { inflight = false }) refl idle))
        (if_both H (nonneg32 (sub32 now s.deadline))
          (inr (finish-Closed (record s { inflight = false; out_of_time = true }) (ground arith)))
          (inl o)))

pub seq_poll-Honest : (s : BookendSeq) (now : ℕ) → Honest s → Honest (seq_poll s now).1
unfolding seq_poll
seq_poll-Honest s now (inr c) =
    if_split (λ (r : BookendAct × BookendSeq). Honest r.1) s.finished (λ f. inr c)
      (λ f. let o = c.over in cc)
seq_poll-Honest s now (inl o) =
    let H = λ (r : BookendAct × BookendSeq). Honest r.1 in
    if_both H s.finished (inl o) (
      if_both H (ltb (first_set s.fc_pending) (length s.fc_pending)) (inl (ground arith))
        (poll_request-Honest s now o))
