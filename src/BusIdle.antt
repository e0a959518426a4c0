-- ===== src/BusIdle.antt =====
-- firmware/include/busidle.h: how long the bus has been quiet, with a timestamp another task writes.
use cardiag.Base.{
  leb, ◌==◌, if◌then◌else◌, sub32, pos32, later, ℕ, ◌^◌, ◌≤◌, ◌<◌, ◌≡◌, ◌↔◌, Bool, true, false, not,
  ◌&&◌, arith,
}

unfoldable pub bus_quiet_ms : ℕ → ℕ → ℕ
bus_quiet_ms now last = let d = sub32 now last in if last == 0 then 0 else if pos32 d then d else 0

unfoldable pub bus_idle_for : ℕ → ℕ → ℕ → Bool
unfolding bus_quiet_ms
bus_idle_for now last threshold_ms = not (last == 0) && leb threshold_ms (bus_quiet_ms now last)

-- A bus last heard k < 2^31 ms ago has been quiet for exactly k ms, across the wrap of the clock;
-- a stamp up to 2^31 ms newer than the sampled clock counts as 0 ms.
pub bus_quiet_ms_exact :
    (last k j now : ℕ)
    → 0 < last
    → last < 2 ^ 32
    → k < 2 ^ 31
    → now < 2 ^ 32
    → j ≤ 2 ^ 31
    → (bus_quiet_ms (later last k) last ≡ k) × (bus_quiet_ms now (later now j) ≡ 0)
unfolding bus_quiet_ms
bus_quiet_ms_exact last k j now h0 h hk hn hj = (ground arith, ground arith)

-- A bus last heard k < 2^31 ms ago is idle exactly when k has reached the threshold.
pub bus_idle_for_iff :
    (last k threshold_ms : ℕ)
    → 0 < last
    → last < 2 ^ 32
    → k < 2 ^ 31
    → (bus_idle_for (later last k) last threshold_ms ≡ true) ↔ (threshold_ms ≤ k)
unfolding bus_idle_for
bus_idle_for_iff last k t h0 h hk = ground arith

-- A board that never saw a frame, or whose last frame is newer than the sampled clock, is not idle
-- for any threshold above 0.
pub bus_idle_for_never :
    (now last threshold_ms k : ℕ)
    → 0 < threshold_ms
    → now < 2 ^ 32
    → k ≤ 2 ^ 31
    → last ≡ later now k
    → (bus_idle_for now last threshold_ms ≡ false) × (bus_idle_for now 0 threshold_ms ≡ false)
unfolding bus_idle_for
bus_idle_for_never now last t k ht hn hk e = (ground arith, ground arith)
