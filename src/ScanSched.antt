-- ===== src/ScanSched.antt =====
-- firmware/include/scansched.h: when the logger scans for the hub's network, and on which channel.
use cardiag.Base.{
  Bool, List, [], arith, false, if◌then◌else◌, later, leb, length, not, refl, sub32, sub32-later,
  true, u32, ℕ, ◌%◌, ◌&&◌, ◌+◌, ◌<◌, ◌==◌, ◌^◌, ◌||◌, ◌∷◌, ◌≡◌, ◌≤◌,
}

-- `struct ScanSched`
pub record ScanSched : Type 0 where
  pub fast_ms : ℕ
  pub slow_ms : ℕ
  pub slow_after_ms : ℕ
  pub full_every : ℕ
  pub search_since_ms : ℕ
  pub last_scan_ms : ℕ
  pub scans : ℕ
  pub scanned_once : Bool

-- `scanSchedInit`
unfoldable pub scan_sched_init : ℕ → ℕ → ℕ → ℕ → ScanSched
scan_sched_init fast_ms slow_ms slow_after_ms full_every = record {
  fast_ms = fast_ms;
  slow_ms = slow_ms;
  slow_after_ms = slow_after_ms;
  full_every = if full_every == 0 then 1 else full_every;
  search_since_ms = 0;
  last_scan_ms = 0;
  scans = 0;
  scanned_once = false;
}

-- `scanSchedReset`
unfoldable pub scan_sched_reset : ScanSched → ℕ → ScanSched
scan_sched_reset s now = record s { search_since_ms = now; scans = 0; scanned_once = false }

-- `scanSchedSighted`
unfoldable pub scan_sched_sighted : ScanSched → ℕ → ScanSched
scan_sched_sighted s now = record s { search_since_ms = now }

-- `scanSchedInterval`
unfoldable pub scan_sched_interval : ScanSched → ℕ → ℕ
scan_sched_interval s now =
    if leb s.slow_after_ms (sub32 now s.search_since_ms) then s.slow_ms else s.fast_ms

-- `scanSchedDue`
unfoldable pub scan_sched_due : ScanSched → ℕ → Bool
unfolding scan_sched_interval
scan_sched_due s now =
    if not s.scanned_once then true else leb (scan_sched_interval s now) (sub32 now s.last_scan_ms)

-- `scanSchedStart`: the new state and the channel.
unfoldable pub scan_sched_start : ScanSched → ℕ → ℕ → ScanSched × ℕ
scan_sched_start s now known =
    let full = known == 0 || s.scans % s.full_every == 0 in
    (
      record s { last_scan_ms = now; scanned_once = true; scans = u32 (s.scans + 1) },
      if full then 0 else known,
    )

-- The state after scans that start at the given times, with the channels known then.
unfoldable pub scan_all : ScanSched → List (ℕ × ℕ) → ScanSched
scan_all s [] = s
scan_all s (x ∷ xs) = scan_all (scan_sched_start s x.0 x.1).0 xs

scan_all_lem :
    (s : ScanSched) (xs : List (ℕ × ℕ))
    → s.scans + length xs < 2 ^ 32
    → ((scan_all s xs).scans ≡ s.scans + length xs) × ((scan_all s xs).full_every ≡ s.full_every)
unfolding scan_all scan_sched_start
scan_all_lem s [] h = (omega arith, refl)
scan_all_lem s (x ∷ xs) h =
    let next = (scan_sched_start s x.0 x.1).0 in
    let fits : next.scans ≡ s.scans + 1 = omega arith in
    let (a, b) = scan_all_lem next xs (omega arith) in (omega arith, b)

-- After a reset, every `full_every`th scan, the first one included, sweeps all channels, as does
-- each scan while the hub's channel is unknown; the others look at the known channel only.
pub scan_sched_start_sweeps :
    (s : ScanSched) (t : ℕ) (xs : List (ℕ × ℕ)) (now known : ℕ)
    → length xs < 2 ^ 32
    → (scan_sched_start (scan_all (scan_sched_reset s t) xs) now known).1
      ≡ (if known == 0 || length xs % s.full_every == 0 then 0 else known)
unfolding scan_sched_start scan_sched_reset
scan_sched_start_sweeps s t xs now known h =
    let s' = scan_all (scan_sched_reset s t) xs in
    let (a, b) = scan_all_lem (scan_sched_reset s t) xs (omega arith) in
    let n : s'.scans ≡ length xs = omega arith in rw n (rw b refl)

-- A scan that starts at `t` delays the next one by the fast interval at least and by the slow
-- interval at most, and right after a reset a scan is due at once.
pub scan_sched_due_window :
    (s : ScanSched) (t k known : ℕ)
    → t < 2 ^ 32
    → k < 2 ^ 32
    → s.fast_ms ≤ s.slow_ms
    → let due = scan_sched_due (scan_sched_start s t known).0 (later t k) in
      (leb s.slow_ms k ≡ (due && leb s.slow_ms k))
      × (due ≡ (due && leb s.fast_ms k))
      × (scan_sched_due (scan_sched_reset s t) (later t k) ≡ true)
unfolding scan_sched_due scan_sched_start scan_sched_reset scan_sched_interval
scan_sched_due_window s t k known ht hk le = let e = sub32-later t k ht hk in ground arith
