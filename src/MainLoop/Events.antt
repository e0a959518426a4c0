-- ===== src/MainLoop/Events.antt =====
-- What a change of mode leaves alone.
use cardiag.Base.{
  All, Bool, List, Option, [], ap, arith, false, if_both, if_split, if◌then◌else◌, inl, inr, length,
  none, not, refl, some, true, ℕ, ◌&&◌, ◌++◌, ◌+◌, ◌==◌, ◌||◌, ◌∙◌, ◌∷◌, ◌≡◌, ◌⊎◌,
}
use cardiag.PowerPolicy.{mode_restore_none, mode_restore_cancel}
use cardiag.Bookend.Seq.{seq_tx_failed, seq_should_write}
use cardiag.Bookend.Encode.{bookend_encode}
use cardiag.PollPlan.{PollEntry}
use cardiag.Poller.{
  RxMessage, PollFrame, noted, adopt, bookend_rec_max, Poller, Out, poller_enter, Inputs,
  bookend_write, poller_exit, tx, began, wrote, deactivated,
}
use cardiag.Poller.Tick.{join}
use cardiag.Poller.Trips.{flag, started, Trips, join-Trips, bookend_write-Trips, none_begun}
use cardiag.MainLoop.{
  received, plan_stored, note_received, mode_selftest, mode_listen, mode_poll, mode_sniff, Main,
  Moment, mode_transmits, can_tx_allowed, leaving, apply_mode, request_mode, pressed, key_at,
  on_button, set_passive_mode, Event, on_event, on_events, key, expire, button, web, restart,
}

abbrev is_tx : Out → Bool
is_tx (tx id bytes ok) = true
is_tx (began k budget_ms) = false
is_tx (wrote rec) = false

-- The frames handed to `canTransmit`.
unfoldable pub transmitted : List Out → ℕ
transmitted [] = 0
transmitted (o ∷ os) = flag (is_tx o) + transmitted os

pub transmitted-append : (a b : List Out) → transmitted (a ++ b) ≡ transmitted a + transmitted b
unfolding transmitted
transmitted-append [] b = omega arith
transmitted-append (o ∷ os) b = omega (arith, transmitted-append os b)

-- A step between the ignition and the poller: nothing is sent, no trip start begun, and the
-- ignition stays as it was.
pub record Calm (x : Main) (r : Main × List Out) : Type 0 where
  pub unsent : transmitted r.1 ≡ 0
  pub trips : Trips x.poller (r.0.poller, r.1)
  pub ign : r.0.ign ≡ x.ign
  pub policy : r.0.policy ≡ x.policy

-- The mode stays or becomes a passive one, and no mode is kept to be restored that was not.
pub record Tame (x y : Main) : Type 0 where
  pub mode : (y.mode ≡ x.mode) ⊎ (mode_transmits y.mode ≡ false)
  pub restore : (y.mode_restore ≡ x.mode_restore) ⊎ (y.mode_restore ≡ mode_restore_none)

-- What leaving a mode does.
abbrev Left : Poller → Poller × List Out → Type 0
Left p r = (transmitted r.1 ≡ 0) × Trips p r

bookend_write-Left : (p : Poller) (e : Inputs) → Left p (bookend_write p e)
unfolding bookend_write transmitted
bookend_write-Left p e =
    let rec = bookend_encode p.bk.d e.device_id e.boot_id e.write_ms bookend_rec_max in
    (
      if_both (λ l. transmitted l ≡ 0) (not (seq_should_write p.bk) || length rec == 0) refl refl,
      bookend_write-Trips p e,
    )

exit-Left : (p : Poller) (e : Inputs) → Left p (poller_exit p e)
unfolding poller_exit transmitted Trips started
exit-Left p e =
    let q = record p { bk = seq_tx_failed p.bk } in
    let (n, t) = bookend_write-Left q e in
    if_both (λ r. Left p (deactivated r)) p.bk_active (n, t) (refl, none_begun p p [] refl refl)

-- The outputs and the flag of a poller that may be entered again.
entered :
    (p q : Poller) (out : List Out) (b : Bool) (now : ℕ)
    → Trips p (q, out)
    → Trips p (if b then poller_enter q now else q, out)
unfolding Trips poller_enter
entered p q out b now t =
    if_both (λ (x : Poller). started out + flag p.trip_started ≡ flag x.trip_started) b t t

pub apply_mode-Calm :
    (x : Main) (mode : ℕ) (persist : Bool) (m : Moment) → Calm x (apply_mode x mode persist m)
unfolding apply_mode
apply_mode-Calm x mode persist m =
    let (p, out) = poller_exit x.poller (leaving m) in
    let (n, t) = exit-Left x.poller (leaving m) in
    record {
      unsent = n;
      trips = entered x.poller p out (m.starts && mode == mode_poll) m.now t;
      ign = refl;
      policy = refl;
    }

pub apply_mode-Tame :
    (x : Main) (mode : ℕ) (persist : Bool) (m : Moment)
    → (mode ≡ x.mode) ⊎ (mode_transmits mode ≡ false)
    → Tame x (apply_mode x mode persist m).0
unfolding apply_mode mode_restore_cancel
apply_mode-Tame x mode persist m h = record {
  mode = h;
  restore =
      if_both (λ r. (r ≡ x.mode_restore) ⊎ (r ≡ mode_restore_none)) persist (inr refl) (inl refl);
}

-- Nothing that the step reads is changed.
pub still-Calm :
    (x y : Main) → y.poller ≡ x.poller → y.ign ≡ x.ign → y.policy ≡ x.policy → Calm x (y, [])
unfolding transmitted Trips started
still-Calm x y p i q = record {
  unsent = refl;
  trips = rw p (none_begun x.poller x.poller [] refl refl);
  ign = i;
  policy = q;
}

pub still-Tame : (x y : Main) → y.mode ≡ x.mode → y.mode_restore ≡ x.mode_restore → Tame x y
still-Tame x y m r = record { mode = inl m; restore = inl r }

-- Whether an event confirms a mode that was asked for.
unfoldable pub confirms : Event → Bool
confirms (key ch m) = ch == b'y' || ch == b'Y'
confirms (expire now) = false
confirms (button m) = false
confirms (web mode m) = false
confirms (restart m) = false
confirms (received rx) = false
confirms (plan_stored plan now) = false

-- What an event leaves: with no confirmation, the mode too.
abbrev Kept : Main → Bool → Main × List Out → Type 0
Kept x b r = Calm x r × (b ≡ false → Tame x r.0)

still-Kept :
    (x y : Main) (b : Bool)
    → y.poller ≡ x.poller
    → y.ign ≡ x.ign
    → y.policy ≡ x.policy
    → y.mode ≡ x.mode
    → y.mode_restore ≡ x.mode_restore
    → Kept x b (y, [])
still-Kept x y b p i q m r = (still-Calm x y p i q, λ h. still-Tame x y m r)

request_mode-Kept : (x : Main) (mode : ℕ) (m : Moment) (b : Bool) → Kept x b (request_mode x mode m)
unfolding request_mode
request_mode-Kept x mode m b =
    let none_done = still-Kept x x b refl refl refl refl refl in
    if_both (Kept x b) (mode_transmits mode && not (can_tx_allowed x)) none_done (
      if_both (Kept x b) (mode == x.mode) none_done (
        if_split (Kept x b) (mode_transmits mode) (λ t. still-Kept x _ b refl refl refl refl refl)
          (λ t. (apply_mode-Calm x mode true m, λ h. apply_mode-Tame x mode true m (inr t)))))

pressed-Kept : (x : Main) (ch : ℕ) (m : Moment) (b : Bool) → Kept x b (pressed x ch m)
unfolding pressed
pressed-Kept x ch m b = if_both (Kept x b) (ch == b'1') (request_mode-Kept x mode_listen m b) (
    if_both (Kept x b) (ch == b'2') (request_mode-Kept x mode_sniff m b) (
      if_both (Kept x b) (ch == b'3') (request_mode-Kept x mode_selftest m b) (
        if_both (Kept x b) (ch == b'4') (request_mode-Kept x mode_poll m b)
          (still-Kept x x b refl refl refl refl refl))))

key_at-Kept :
    (x : Main) (o : Option ℕ) (ch : ℕ) (m : Moment)
    → Kept x (ch == b'y' || ch == b'Y') (key_at o x (ch, m))
unfolding key_at
key_at-Kept x none ch m = pressed-Kept x ch m (ch == b'y' || ch == b'Y')
key_at-Kept x (some mode) ch m =
    let a = record x { pending_mode = none } in
    let b = ch == b'y' || ch == b'Y' in
    if_split (Kept x b) b
      (λ t.
        let c = apply_mode-Calm a mode true m in
        (
          record { unsent = c.unsent; trips = c.trips; ign = c.ign; policy = c.policy },
          λ h. absurd (ground arith),
        ))
      (λ t. still-Kept x a b refl refl refl refl refl)

on_button-Kept : (x : Main) (m : Moment) (b : Bool) → Kept x b (on_button x m)
unfolding on_button
on_button-Kept x m b =
    let mode = if x.mode == mode_sniff then mode_listen else mode_sniff in
    let passive = if_both (λ y. mode_transmits y ≡ false) (x.mode == mode_sniff) refl refl in
    (apply_mode-Calm x mode true m, λ h. apply_mode-Tame x mode true m (inr passive))

set_passive_mode-Kept :
    (x : Main) (mode : ℕ) (m : Moment) (b : Bool) → Kept x b (on_event x (web mode m))
unfolding set_passive_mode
set_passive_mode-Kept x mode m b =
    let none_done = still-Kept x x b refl refl refl refl refl in
    if_split (λ (r : Bool × Main × List Out). Kept x b (r.1, r.2))
      (not (mode == mode_listen) && not (mode == mode_sniff)) (λ t. none_done)
      (λ t.
        let passive : mode_transmits mode ≡ false = ground arith in
        if_both (λ (r : Bool × Main × List Out). Kept x b (r.1, r.2)) (mode == x.mode) none_done
          (apply_mode-Calm x mode true m, λ h. apply_mode-Tame x mode true m (inr passive)))

-- A poller with the same flag, and nothing else.
flagged-Kept :
    (x : Main) (p : Poller) (b : Bool)
    → p.trip_started ≡ x.poller.trip_started
    → Kept x b (record x { poller = p }, [])
unfolding transmitted started
flagged-Kept x p b e = (
  record { unsent = refl; trips = none_begun x.poller p [] refl e; ign = refl; policy = refl },
  λ h. still-Tame x _ refl refl,
)

noted_flag :
    (o : Option (List PollFrame)) (p : Poller) (rx : RxMessage)
    → (noted o p rx).trip_started ≡ p.trip_started
unfolding noted
noted_flag none p rx = refl
noted_flag (some l) p rx = ground arith

adopt_flag :
    (p : Poller) (plan : List PollEntry) (now : ℕ)
    → (adopt p plan now).trip_started ≡ p.trip_started
unfolding adopt poller_enter
adopt_flag p plan now = ground arith

note_received-Kept : (x : Main) (rx : RxMessage) (b : Bool) → Kept x b (note_received x rx, [])
unfolding note_received
note_received-Kept x rx b = flagged-Kept x _ b (
    if_both (λ (p : Poller). p.trip_started ≡ x.poller.trip_started) (x.mode == mode_poll)
      (noted_flag x.poller.q x.poller rx) refl)

on_event-Kept : (x : Main) (e : Event) → Kept x (confirms e) (on_event x e)
unfolding confirms
on_event-Kept x (key ch m) = key_at-Kept x x.pending_mode ch m
on_event-Kept x (expire now) = still-Kept x _ false refl refl refl refl refl
on_event-Kept x (button m) = on_button-Kept x m false
on_event-Kept x (web mode m) = set_passive_mode-Kept x mode m false
on_event-Kept x (restart m) =
    if_both (Kept x false) x.twai_up
      (apply_mode-Calm x x.mode false m, λ h. apply_mode-Tame x x.mode false m (inl refl))
      (still-Kept x x false refl refl refl refl refl)
on_event-Kept x (received rx) = note_received-Kept x rx false
on_event-Kept x (plan_stored plan now) =
    flagged-Kept x (adopt x.poller plan now) false (adopt_flag x.poller plan now)

pub join-Calm :
    (x y : Main) (out : List Out) (r : Main × List Out)
    → Calm x (y, out)
    → Calm y r
    → Calm x (join out r)
join-Calm x y out r h k = record {
  unsent = let a = h.unsent in let b = k.unsent in omega (arith, transmitted-append out r.1);
  trips = join-Trips x.poller y.poller out (r.0.poller, r.1) h.trips k.trips;
  ign = k.ign ∙ h.ign;
  policy = k.policy ∙ h.policy;
}

pub Tame-trans : (x y z : Main) → Tame x y → Tame y z → Tame x z
Tame-trans x y z h k = record {
  mode = elim k.mode [
    | inl e ↦ elim h.mode [ inl d ↦ inl (e ∙ d) | inr d ↦ inr (ap mode_transmits e ∙ d) ]
    | inr e ↦ inr e
  ];
  restore = elim k.restore [
    | inl e ↦ elim h.restore [ inl d ↦ inl (e ∙ d) | inr d ↦ inr (e ∙ d) ]
    | inr e ↦ inr e
  ];
}

-- Whatever comes between the ignition and the poller sends nothing and begins no trip start.
pub on_events-Calm : (x : Main) (es : List Event) → Calm x (on_events x es)
unfolding on_events
on_events-Calm x [] = still-Calm x x refl refl refl
on_events-Calm x (e ∷ es) =
    let (y, out) = on_event x e in
    join-Calm x y out (on_events y es) (on_event-Kept x e).0 (on_events-Calm y es)

-- With no confirmation, it chooses no mode that transmits.
pub on_events-Tame :
    (x : Main) (es : List Event) → All (λ e. confirms e ≡ false) es → Tame x (on_events x es).0
unfolding on_events
on_events-Tame x [] h = still-Tame x x refl refl
on_events-Tame x (e ∷ es) h =
    let (y, out) = on_event x e in
    Tame-trans x y (on_events y es).0 ((on_event-Kept x e).1 h.0) (on_events-Tame y es h.1)
