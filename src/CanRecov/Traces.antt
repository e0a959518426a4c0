-- ===== src/CanRecov/Traces.antt =====
-- Runs of the recovery over the samples that the main loop feeds it.

use cardiag.Base.{
  All, List, [], ap, arith, false, later, length, refl, replicate, true, u32, ℕ, ◌++◌, ◌+◌, ◌<◌,
  ◌^◌, ◌∷◌, ◌≡◌, ◌≢◌, ◌≤◌, ◌⊎◌,
}
use cardiag.CanRecov.{
  recover_timeout_ms, backoff_max_ms, canbus_stopped, Action, CanRecov, step, idle, recover,
  restart,
}
use cardiag.CanRecov.Invariant.{Inv}

-- One call of `canRecovStep`: what the driver reported, and when.
pub record Sample : Type 0 where
  pub state : ℕ
  pub tec : ℕ
  pub tx_fails : ℕ
  pub now : ℕ

abbrev pub step_at : CanRecov → Sample → CanRecov × Action
step_at r s = step r s.state s.tec s.tx_fails s.now

-- The actions that a run of samples asks for.
unfoldable pub run : CanRecov → List Sample → List Action
run r [] = []
run r (s ∷ ss) = let (r', a) = step_at r s in a ∷ run r' ss

-- A sample taken less than `limit` ms after `start`.
abbrev pub Within : ℕ → ℕ → Sample → Type 0
Within start limit s = (k : ℕ) × (k < limit) × (s.now ≡ later start k)

-- A state that may not act before `b` ms have passed since `t`.
record Held (t b : ℕ) (r : CanRecov) : Type 0 where
  quiet : r.recovering ≡ false
  until : r.next_allowed_ms ≡ u32 (t + b)

step-Held :
    {t b : ℕ} {r : CanRecov} (s : Sample) (k : ℕ)
    → b ≤ backoff_max_ms
    → t < 2 ^ 32
    → k < b
    → s.now ≡ later t k
    → Held t b r
    → Held t b (step_at r s).0 × ((step_at r s).1 ≡ idle)
unfolding step
step-Held s k hb ht hk e h = ground arith

run-Held :
    {t b : ℕ} (r : CanRecov) (ss : List Sample)
    → b ≤ backoff_max_ms
    → t < 2 ^ 32
    → All (Within t b) ss
    → Held t b r
    → run r ss ≡ replicate (length ss) idle
unfolding run
run-Held r [] hb ht a h = refl
run-Held r (s ∷ ss) hb ht a h =
    let (k, lt, e) = a.0 in
    let (h', still) = step-Held s k hb ht lt e h in
    rw still (ap (◌∷◌ idle) (run-Held (step_at r s).0 ss hb ht a.1 h'))

restart-Held :
    (r : CanRecov) (s : Sample)
    → (step_at r s).1 ≡ restart
    → Held s.now r.backoff_ms (step_at r s).0
unfolding step
restart-Held r s h = ground arith

-- After a restart, no sample taken before the backoff in force has passed asks for any action,
-- whatever the controller reports.
pub restart_holds_off :
    (r : CanRecov) (s : Sample) (ss : List Sample)
    → Inv r
    → s.now < 2 ^ 32
    → (step_at r s).1 ≡ restart
    → All (Within s.now r.backoff_ms) ss
    → run (step_at r s).0 ss ≡ replicate (length ss) idle
restart_holds_off r s ss v hn h a =
    run-Held (step_at r s).0 ss v.backoff_high hn a (restart-Held r s h)

-- A bus recovery that was started at `t` and has not been answered yet.
record Waiting (t : ℕ) (r : CanRecov) : Type 0 where
  recovering : r.recovering ≡ true
  started : r.recover_start_ms ≡ t

abbrev pub StillOff : ℕ → Sample → Type 0
StillOff t s = Within t recover_timeout_ms s × (s.state ≢ canbus_stopped)

step-Waiting :
    {t : ℕ} {r : CanRecov} (s : Sample) (k : ℕ)
    → t < 2 ^ 32
    → k < recover_timeout_ms
    → s.now ≡ later t k
    → s.state ≢ canbus_stopped
    → Waiting t r
    → Waiting t (step_at r s).0 × ((step_at r s).1 ≡ idle)
unfolding step
step-Waiting s k ht hk e hs w = ground arith

Waiting-restart :
    {t : ℕ} {r : CanRecov} (s : Sample) (k : ℕ)
    → t < 2 ^ 32
    → k < 2 ^ 32
    → s.now ≡ later t k
    → (s.state ≡ canbus_stopped) ⊎ (recover_timeout_ms ≤ k)
    → Waiting t r
    → (step_at r s).1 ≡ restart
unfolding step
Waiting-restart s k ht hk e hs w = ground arith

run-Waiting :
    {t : ℕ} (r : CanRecov) (ss : List Sample) (s : Sample) (k : ℕ)
    → t < 2 ^ 32
    → k < 2 ^ 32
    → All (StillOff t) ss
    → s.now ≡ later t k
    → (s.state ≡ canbus_stopped) ⊎ (recover_timeout_ms ≤ k)
    → Waiting t r
    → run r (ss ++ (s ∷ [])) ≡ replicate (length ss) idle ++ (restart ∷ [])
unfolding run
run-Waiting r [] s k ht hk a e hs w = rw (Waiting-restart s k ht hk e hs w)
run-Waiting r (x ∷ ss) s k ht hk a e hs w =
    let ((j, lt, ex), ne) = a.0 in
    let (w', still) = step-Waiting x j ht lt ex ne w in
    rw still (ap (◌∷◌ idle) (run-Waiting (step_at r x).0 ss s k ht hk a.1 e hs w'))

recover-Waiting :
    (r : CanRecov) (s : Sample) → (step_at r s).1 ≡ recover → Waiting s.now (step_at r s).0
unfolding step
recover-Waiting r s h = ground arith

-- A bus recovery always ends in a restart of the driver: it waits while the controller is not
-- stopped and 5 s have not passed, and the first sample that shows either asks for the restart.
pub recovery_ends :
    (r : CanRecov) (first : Sample) (ss : List Sample) (s : Sample) (k : ℕ)
    → first.now < 2 ^ 32
    → (step_at r first).1 ≡ recover
    → All (StillOff first.now) ss
    → k < 2 ^ 32
    → s.now ≡ later first.now k
    → (s.state ≡ canbus_stopped) ⊎ (recover_timeout_ms ≤ k)
    → run (step_at r first).0 (ss ++ (s ∷ [])) ≡ replicate (length ss) idle ++ (restart ∷ [])
recovery_ends r first ss s k hn h a hk e hs =
    run-Waiting (step_at r first).0 ss s k hn hk a e hs (recover-Waiting r first h)
