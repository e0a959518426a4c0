-- ===== src/MainLoop/Trip.antt =====
-- The trip starts of a whole run of the loop.
use cardiag.Base.{
  All, List, [], arith, if_both, if_split, inl, inr, not, refl, sym, true, ◌&&◌, ◌++◌, ◌==◌, ◌∙◌,
  ◌∷◌, ◌≡◌, ◌≤◌,
}
use cardiag.PowerPolicy.{is_ignition}
use cardiag.Poller.{Out}
use cardiag.Poller.Trips.{started, Trips, join-Trips, none_begun, same_flag, poller_tick-Trips}
use cardiag.MainLoop.{
  mode_poll, Main, Moment, mode_transmits, power_ignition_on, power_loop, apply_mode,
  ignition_is_on, ignition_is_off, ignition_power_tick, on_events, Pass, inputs, poll_mode, loop,
  loops,
}
use cardiag.MainLoop.Events.{Calm, Tame, on_events-Calm, on_events-Tame}
use cardiag.MainLoop.Gap.{ignition_power_tick-Calm, Unconfirmed, ignition_is_on-Calm}

-- MODE_POLL only with the ignition on.
Guarded : Main → Type 0
Guarded x = x.mode ≡ mode_poll → power_ignition_on x ≡ true

on_kept :
    (x : Main) (r : Main × List Out)
    → Calm x r
    → power_ignition_on x ≡ true
    → power_ignition_on r.0 ≡ true
on_kept x r c on = rw (c.ign, c.policy) on

abbrev AfterGuarded : Main × List Out → Type 0
AfterGuarded r = Guarded r.0

-- After the ignition's turn, a mode that transmits is left only with the ignition on.
ignition_power_tick-Guarded : (x : Main) (m : Moment) → Guarded (ignition_power_tick x m).0
unfolding ignition_power_tick ignition_is_off apply_mode Guarded
ignition_power_tick-Guarded x m =
    if_split AfterGuarded (not (is_ignition x.policy)) (λ b e. ground arith)
      (λ b.
        if_split AfterGuarded (power_ignition_on x)
          (λ on e. on_kept x (ignition_is_on x m) (ignition_is_on-Calm x m) on)
          (λ off.
            if_split AfterGuarded (mode_transmits x.mode) (λ t e. absurd (ground arith))
              (λ t e. absurd (ground arith))))

-- With the same ignition and a mode that is the same or passive.
events-Guarded :
    (x y : Main) → y.ign ≡ x.ign → y.policy ≡ x.policy → Tame x y → Guarded x → Guarded y
unfolding Guarded
events-Guarded x y i q t g e = elim t.mode [
  | inl s ↦ (let on = g (sym s ∙ e) in rw (i, q) on)
  | inr s ↦ absurd (ground arith)
]

poll_mode-Trips :
    (x : Main) (p : Pass) → Guarded x → Trips x.poller ((poll_mode x p).0.poller, (poll_mode x p).1)
unfolding poll_mode Guarded started
poll_mode-Trips x p g =
    if_split (λ (r : Main × List Out). Trips x.poller (r.0.poller, r.1))
      (x.twai_up && x.mode == mode_poll)
      (λ t. poller_tick-Trips x.poller (inputs x p) (g (ground arith)))
      (λ t. none_begun x.poller x.poller [] refl refl)

-- The flag of the poller goes up by the trip starts that are begun.
abbrev Counted : Main → Main × List Out → Type 0
Counted x r = Trips x.poller (r.0.poller, r.1)

loop-Counted : (x : Main) (p : Pass) → Unconfirmed p → Counted x (loop x p)
unfolding loop power_loop
loop-Counted x p u =
    let x' = power_loop x p.raw p.sampled_ms in
    let (a, out) = ignition_power_tick x' p.ignition in
    let (b, more) = on_events a p.events in
    let ca = ignition_power_tick-Calm x' p.ignition in
    let cb = on_events-Calm a p.events in
    let g =
      events-Guarded a b cb.ign cb.policy (on_events-Tame a p.events u)
        (ignition_power_tick-Guarded x' p.ignition) in
    let t = poll_mode-Trips b p g in
    let (c, last) = poll_mode b p in
    same_flag x.poller x'.poller _
      (if_both (λ (z : Main). z.poller.trip_started ≡ x.poller.trip_started)
        (not (is_ignition x.policy)) refl refl)
      (join-Trips x'.poller a.poller out (c.poller, more ++ last) ca.trips
        (join-Trips a.poller b.poller more (c.poller, last) cb.trips t))

loops-Counted : (x : Main) (ps : List Pass) → All Unconfirmed ps → Counted x (loops x ps)
unfolding loops started
loops-Counted x [] u = none_begun x.poller x.poller [] refl refl
loops-Counted x (p ∷ ps) u =
    let (y, out) = loop x p in
    let (z, more) = loops y ps in
    join-Trips x.poller y.poller out (z.poller, more) (loop-Counted x p u.0)
      (loops-Counted y ps u.1)

-- Whatever the ignition does, whatever frames are received and plans are stored, as long as no mode
-- is confirmed on the serial port, the passes of the loop begin at most one trip start, and none when
-- one was begun before: turning the ignition off and on again does not lead to another.
pub loops_one_start :
    (x : Main) (ps : List Pass)
    → All Unconfirmed ps
    → (started (loops x ps).1 ≤ 1) × (x.poller.trip_started ≡ true → started (loops x ps).1 ≡ 0)
unfolding Trips
loops_one_start x ps u = let c = loops-Counted x ps u in (ground arith, λ t. ground arith)
