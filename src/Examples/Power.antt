-- ===== src/Examples/Power.antt =====
-- The ignition policy: a start, a switch-off, and what follows for files and sleep.
use cardiag.Base.{[], arith, false, le_i32, refl, sub32, true, ℕ, ◌+◌, ◌<◌, ◌^◌, ◌∷◌, ◌≡◌, ◌≢◌}
use cardiag.PowerPolicy.{IgnDebounce, ign_debounce}
use cardiag.PowerPolicy.Ignition.{Sample, RunSince, window, after, flip_needs_window}

abbrev running : IgnDebounce
running = record { init = true; on = true; pending = false; edge_ms = 0; since_ms = 0 }

abbrev stopping : IgnDebounce
stopping = record { init = true; on = true; pending = true; edge_ms = 1000; since_ms = 0 }

abbrev off_at : ℕ → Sample
off_at t = record { raw = false; now = t }

flips :
    (after 200 2000 running (off_at 3000 ∷ off_at 1000 ∷ [])).on
    ≢ (after 200 2000 running (off_at 1000 ∷ [])).on
unfolding after ign_debounce
flips h = ground arith

flip_needs_window_example :
    let d' = after 200 2000 running (off_at 3000 ∷ off_at 1000 ∷ []) in
    (d'.on ≡ false)
    × RunSince d'.on d'.since_ms (off_at 3000 ∷ off_at 1000 ∷ [])
    × (le_i32 (window 200 2000 false) (sub32 3000 d'.since_ms) ≡ true)
flip_needs_window_example =
    flip_needs_window 200 2000 running (off_at 1000 ∷ []) (off_at 3000) refl refl flips

stopped : (ign_debounce stopping false 3000 200 2000).on ≡ false
unfolding ign_debounce
stopped = refl

stopped_since : sub32 3000 (ign_debounce stopping false 3000 200 2000).since_ms + 7 < 2 ^ 31
unfolding ign_debounce
stopped_since = omega arith
