-- ===== src/MainLoop/Gap.antt =====
-- The air gap: nothing but a mode that was asked for and confirmed on the serial port transmits.
use cardiag.Base.{
  All, Bool, List, [], ap, arith, false, if_both, inl, inr, not, refl, true, ℕ, ◌&&◌, ◌++◌, ◌==◌,
  ◌||◌, ◌∙◌, ◌∷◌, ◌≡◌,
}
use cardiag.PowerPolicy.{is_ignition, mode_restore_none, mode_restore_on_off, mode_restore_on_on}
use cardiag.Poller.{Out}
use cardiag.MainLoop.{
  mode_listen, mode_poll, Main, Moment, mode_transmits, power_ignition_on, can_tx_allowed,
  power_loop, ignition_is_on, ignition_is_off, ignition_power_tick, on_events, Pass, poll_mode,
  loop, loops,
}
use cardiag.MainLoop.Events.{
  transmitted, transmitted-append, Calm, Tame, apply_mode-Calm, still-Calm, confirms,
  on_events-Calm, on_events-Tame,
}

-- A step from a state that has the same poller, ignition and policy.
based :
    (x a : Main) (r : Main × List Out)
    → a.poller ≡ x.poller
    → a.ign ≡ x.ign
    → a.policy ≡ x.policy
    → Calm a r
    → Calm x r
based x a r p i q c = record {
  unsent = c.unsent;
  trips = let t = c.trips in rw⁻¹ p t;
  ign = c.ign ∙ i;
  policy = c.policy ∙ q;
}

pub ignition_is_on-Calm : (x : Main) (m : Moment) → Calm x (ignition_is_on x m)
unfolding ignition_is_on
ignition_is_on-Calm x m =
    let (kept, back) = mode_restore_on_on x.mode_restore (can_tx_allowed x) in
    let a = record x { mode_restore = kept; was_on = true } in
    if_both (Calm x) x.was_on (still-Calm x x refl refl refl) (
      if_both (Calm x) (back == mode_restore_none || back == x.mode) (still-Calm x a refl refl refl)
        (based x a _ refl refl refl (apply_mode-Calm a back false m)))

ignition_is_off-Calm : (x : Main) (m : Moment) → Calm x (ignition_is_off x m)
unfolding ignition_is_off
ignition_is_off-Calm x m =
    let a = record x { was_on = false } in
    let b = record a { mode_restore = mode_restore_on_off x.mode_restore x.mode true } in
    if_both (Calm x) (mode_transmits x.mode)
      (based x b _ refl refl refl (apply_mode-Calm b mode_listen false m))
      (still-Calm x a refl refl refl)

-- The ignition sends nothing and begins no trip start.
pub ignition_power_tick-Calm : (x : Main) (m : Moment) → Calm x (ignition_power_tick x m)
unfolding ignition_power_tick
ignition_power_tick-Calm x m =
    if_both (Calm x) (not (is_ignition x.policy)) (still-Calm x x refl refl refl)
      (if_both (Calm x) (power_ignition_on x) (ignition_is_on-Calm x m) (ignition_is_off-Calm x m))

-- A passive mode, and none to bring back.
pub record Passive (x : Main) : Type 0 where
  pub mode : mode_transmits x.mode ≡ false
  pub restore : x.mode_restore ≡ mode_restore_none

abbrev AfterPassive : Main × List Out → Type 0
AfterPassive r = Passive r.0

Tame-Passive : (x y : Main) → Tame x y → Passive x → Passive y
Tame-Passive x y t h = record {
  mode = elim t.mode [ inl e ↦ ap mode_transmits e ∙ h.mode | inr e ↦ e ];
  restore = elim t.restore [ inl e ↦ e ∙ h.restore | inr e ↦ e ];
}

power_loop-Passive : (x : Main) (raw : Bool) (now : ℕ) → Passive x → Passive (power_loop x raw now)
unfolding power_loop
power_loop-Passive x raw now h =
    if_both Passive (not (is_ignition x.policy)) h (record { mode = h.mode; restore = h.restore })

ignition_power_tick-Passive :
    (x : Main) (m : Moment) → Passive x → Passive (ignition_power_tick x m).0
unfolding ignition_power_tick ignition_is_on ignition_is_off mode_restore_on_on
ignition_power_tick-Passive x m h =
    let (kept, back) = mode_restore_on_on x.mode_restore (can_tx_allowed x) in
    let r = h.restore in
    let t = h.mode in
    let k : kept ≡ mode_restore_none = ground arith in
    let b : (back == mode_restore_none || back == x.mode) ≡ true = ground arith in
    if_both AfterPassive (not (is_ignition x.policy)) h (
      if_both AfterPassive (power_ignition_on x)
        (if_both AfterPassive x.was_on h (rw b (record { mode = h.mode; restore = k })))
        (rw t (record { mode = h.mode; restore = h.restore })))

poll_mode-Passive : (x : Main) (p : Pass) → Passive x → (poll_mode x p ≡ (x, []))
unfolding poll_mode
poll_mode-Passive x p h =
    let t = h.mode in let e : (x.twai_up && x.mode == mode_poll) ≡ false = ground arith in rw e refl

-- Whether a pass confirms no mode.
abbrev pub Unconfirmed : Pass → Type 0
Unconfirmed p = All (λ e. confirms e ≡ false) p.events

-- Silence and a passive mode after it.
abbrev Silent : Main × List Out → Type 0
Silent r = (transmitted r.1 ≡ 0) × Passive r.0

loop-Silent : (x : Main) (p : Pass) → Unconfirmed p → Passive x → Silent (loop x p)
unfolding loop transmitted
loop-Silent x p u h =
    let x' = power_loop x p.raw p.sampled_ms in
    let (a, out) = ignition_power_tick x' p.ignition in
    let (b, more) = on_events a p.events in
    let pa =
      ignition_power_tick-Passive x' p.ignition (power_loop-Passive x p.raw p.sampled_ms h) in
    let pb = Tame-Passive a b (on_events-Tame a p.events u) pa in
    let n = (ignition_power_tick-Calm x' p.ignition).unsent in
    let k = (on_events-Calm a p.events).unsent in
    rw (poll_mode-Passive b p pb)
      (omega (arith, transmitted-append out (more ++ []), transmitted-append more [], n, k), pb)

-- In a passive mode with none to be restored, nothing is ever handed to the controller, whatever the
-- ignition, the button, the web page, keys other than a confirmation, received frames, stored plans
-- and restarts of the controller do: the mode stays passive.
pub loops-Passive :
    (x : Main) (ps : List Pass)
    → All Unconfirmed ps
    → Passive x
    → (transmitted (loops x ps).1 ≡ 0) × Passive (loops x ps).0
unfolding loops transmitted
loops-Passive x [] u h = (refl, h)
loops-Passive x (p ∷ ps) u h =
    let (y, out) = loop x p in
    let (n, v) = loop-Silent x p u.0 h in
    let (k, w) = loops-Passive y ps u.1 v in
    (omega (arith, transmitted-append out (loops y ps).1, n, k), w)
