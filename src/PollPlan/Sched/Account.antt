-- ===== src/PollPlan/Sched/Account.antt =====
-- What a request that is over leaves in the counters.
use mathlib.Core.Path.{subst}
use cardiag.Base.{
  List, Option, arith, get_or, get_or-set, if◌then◌else◌, length, length-replicate, none, refl,
  replicate, some, suc, u32, zero, ℕ, ◌+◌, ◌<◌, ◌≡◌, set, length-set, ◌⊎◌, sub32, ◌/◌, Bool-cases,
  ◌==◌, inl, inr, not, ◌||◌, get_elem?, ◌∷◌, ◌∙◌, sym, [], ap,
}
use cardiag.PollPlan.{PollEntry}
use cardiag.PollPlan.Sched.{
  no_stats, PollSched, poll_sched_init, stats_at, poll_sched_sent, holds, poll_sched_tx_failed,
  PollPidStats, on_frame_for, timed_out, entry_of, byte, first_frame_matches, single_frame_matches,
}

abbrev pub answers : PollPidStats → ℕ
answers x = x.replies + x.timeouts + x.multiframe

-- The requests of entry `i` are those answered, those timed out and the one in flight.
abbrev pub Accounted : PollSched → ℕ → Type 0
Accounted s i =
    let x = stats_at s i in x.requests ≡ u32 (answers x + (if holds s.inflight i then 1 else 0))

abbrev pub InRange : ℕ → Option ℕ → Type 0
InRange n none = Unit {0}
InRange n (some i) = i < n

pub record IsValid (s : PollSched) : Type 0 where
  pub dues : length s.due ≡ length s.plan
  pub stats : length s.st ≡ length s.plan
  pub flying : InRange (length s.plan) s.inflight
  pub accounted : (i : ℕ) → Accounted s i

replicate_same : (n i : ℕ) → get_or (replicate n no_stats) i no_stats ≡ no_stats
replicate_same zero i = refl
replicate_same (suc n) zero = refl
replicate_same (suc n) (suc i) = replicate_same n i

pub poll_sched_init-IsValid : (p : List PollEntry) (now : ℕ) → IsValid (poll_sched_init p now)
unfolding poll_sched_init
poll_sched_init-IsValid p now = record {
  dues = length-replicate (length p) now;
  stats = length-replicate (length p) no_stats;
  flying = tt;
  accounted = λ i. rw (replicate_same (length p) i) refl;
}

pub sent-Accounted :
    (s : PollSched) (i now j : ℕ)
    → length s.st ≡ length s.plan
    → s.inflight ≡ none
    → Accounted s j
    → Accounted (poll_sched_sent s i now) j
unfolding poll_sched_sent
sent-Accounted s i now j l f a =
    let x = stats_at s i in
    let y = record x { requests = u32 (x.requests + 1) } in
    ground (arith, get_or-set s.st i j y no_stats)

pub tx_failed-Accounted :
    (s : PollSched) (i now j : ℕ)
    → length s.st ≡ length s.plan
    → s.inflight ≡ none
    → Accounted s j
    → Accounted (poll_sched_tx_failed s i now) j
unfolding poll_sched_tx_failed
tx_failed-Accounted s i now j l f a =
    let x = stats_at s i in
    let y = record x { tx_failed = u32 (x.tx_failed + 1) } in
    ground (arith, get_or-set s.st i j y no_stats)

-- A request in flight that ends in one more reply, or multi-frame answer.
abbrev OneMore : PollPidStats → PollPidStats → Type 0
OneMore x y =
    (y.requests ≡ x.requests)
    × (u32 (y.replies + y.timeouts + y.multiframe)
        ≡ u32 (x.replies + x.timeouts + x.multiframe + 1))

retired-Accounted :
    (s : PollSched) (i j : ℕ) (y : PollPidStats)
    → i < length s.st
    → s.inflight ≡ some i
    → OneMore (stats_at s i) y
    → Accounted s j
    → (get_or (set s.st i y) j no_stats).requests
      ≡ u32 (
          (get_or (set s.st i y) j no_stats).replies
          + (get_or (set s.st i y) j no_stats).timeouts
          + (get_or (set s.st i y) j no_stats).multiframe
          + 0)
retired-Accounted s i j y l f m a = ground (arith, get_or-set s.st i j y no_stats)

-- What ends a request: the entry's counts show one more answer or timeout, and nothing is in flight.
pub record Retired (s : PollSched) (i : ℕ) (s' : PollSched) : Type 0 where
  pub counts : PollPidStats
  pub one : OneMore (stats_at s i) counts
  pub st : s'.st ≡ set s.st i counts
  pub plan : s'.plan ≡ s.plan
  pub due : length s'.due ≡ length s.due
  pub inflight : s'.inflight ≡ none

pub on_frame_for-Retired :
    (s : PollSched) (i : ℕ) (bytes : List ℕ) (dlc now : ℕ)
    → ((on_frame_for s i bytes dlc now).1 ≡ s) ⊎ Retired s i (on_frame_for s i bytes dlc now).1
unfolding on_frame_for
on_frame_for-Retired s i bytes dlc now =
    let x = stats_at s i in
    let e = length-set s.due i (u32 (s.sent_ms + (entry_of s i).period_ms)) in
    let many = record x {
      multiframe = u32 (x.multiframe + 1);
      misses = 0;
      last_latency_ms = sub32 now s.sent_ms;
    } in
    let single = record x {
      replies = u32 (x.replies + 1);
      misses = 0;
      last_latency_ms = sub32 now s.sent_ms;
    } in
    let kind = byte bytes 0 / 16 in
    elim (Bool-cases (kind == 1)) [
      | inl k ↦ elim (Bool-cases (first_frame_matches (entry_of s i) bytes dlc)) [
        | inl m ↦ rw k (
            rw m (
              inr (record {
                counts = many;
                one = omega arith;
                st = refl;
                plan = refl;
                due = e;
                inflight = refl;
              })))
        | inr m ↦ rw k (rw m (inl refl))
      ]
      | inr k ↦
          elim (Bool-cases
            (not (kind == 0) || not (single_frame_matches (entry_of s i) bytes dlc))) [
              | inl m ↦ rw k (rw m (inl refl))
              | inr m ↦ rw k (
                  rw m (
                    inr (record {
                      counts = single;
                      one = omega arith;
                      st = refl;
                      plan = refl;
                      due = e;
                      inflight = refl;
                    })))
            ]
    ]

pub timed_out-Retired : (s : PollSched) (i now max_ms : ℕ) → Retired s i (timed_out s i now max_ms)
unfolding timed_out
timed_out-Retired s i now max_ms = record {
  counts = _;
  one = omega arith;
  st = refl;
  plan = refl;
  due = length-set s.due i _;
  inflight = refl;
}

pub Retired-IsValid :
    (s s' : PollSched) (i : ℕ) → s.inflight ≡ some i → Retired s i s' → IsValid s → IsValid s'
Retired-IsValid s s' i f r v =
    let l = length-set s.st i r.counts in
    let fly : i < length s.plan = subst (InRange (length s.plan)) f v.flying in
    record {
      dues = r.due ∙ v.dues ∙ sym (ap length r.plan);
      stats = ap length r.st ∙ l ∙ v.stats ∙ sym (ap length r.plan);
      flying = subst (InRange (length s'.plan)) (sym r.inflight) tt;
      accounted = λ j.
          let e = retired-Accounted s i j r.counts (omega arith) f r.one (v.accounted j) in
          subst
            (λ o.
              (get_or s'.st j no_stats).requests
              ≡ u32 (answers (get_or s'.st j no_stats) + (if holds o j then 1 else 0)))
            (sym r.inflight)
            (subst (λ t. (get_or t j no_stats).requests ≡ u32 (answers (get_or t j no_stats) + 0))
              (sym r.st) e);
    }

pub get_elem?-lt : (xs : List ℕ) (i : ℕ) {d : ℕ} → get_elem? xs i ≡ some d → i < length xs
get_elem?-lt [] i h = absurd (ground arith)
get_elem?-lt (x ∷ xs) zero h = omega arith
get_elem?-lt (x ∷ xs) (suc i) h = let l = get_elem?-lt xs i h in omega arith
