-- ===== src/Session/Clock.antt =====
-- Time within and across sessions.
use cardiag.Base.{
  All, true, List, [], arith, false, inl, refl, ℕ, ◌+◌, ◌<◌, ◌^◌, ◌∷◌, ◌≡◌, ◌≤◌, ◌⊎◌, inr, length,
}
use cardiag.Session.{
  Flash, time_none, Session, after_reset, session_begin, session_set_anchor, session_tick,
}

-- What happens to a session: a reset and start, an anchor from the hub or the clock chip, a pass.
pub data Op : Type 0 where
  boot : Flash → List ℕ → ℕ → Op
  anchor : ℕ → ℕ → ℕ → Op
  pass : Flash → ℕ → Op

abbrev pub perform : Session → Op → Session
perform s (boot f mac now) = session_begin (after_reset s) f mac now
perform s (anchor epoch_ms source now) = (session_set_anchor s epoch_ms source now).1
perform s (pass f now) = (session_tick s f now).1

-- Where the operation uses the key-value store, the store reads and writes.
abbrev pub Works : Op → Type 0
Works (boot f mac now) = (f.read ≡ true) × (f.stored ≡ true)
Works (anchor epoch_ms source now) = Unit
Works (pass f now) = (f.read ≡ true) × (f.stored ≡ true)

unfoldable pub perform_all : Session → List Op → Session
perform_all s [] = s
perform_all s (o ∷ os) = perform_all (perform s o) os

-- A later state: of a later session, or of the same one and not before, with an anchor that is no
-- less trusted.
pub record Later (s t : Session) : Type 0 where
  pub time : (s.boot_id < t.boot_id) ⊎ ((s.boot_id ≡ t.boot_id) × (s.last_millis ≤ t.last_millis))
  pub trust : s.boot_id ≡ t.boot_id → s.time_source ≤ t.time_source

-- The counter in flash is the id of the session, and an anchor that is not there is of no source.
pub record IsValid (s : Session) : Type 0 where
  pub stored : s.boot_id ≡ s.stored_boot
  pub unanchored : s.anchor_valid ≡ false → s.time_source ≡ time_none

perform-IsValid : (s : Session) (o : Op) → Works o → IsValid s → IsValid (perform s o)
unfolding session_begin session_set_anchor session_tick
perform-IsValid s (boot f mac now) w v =
    let (r, k) = w in record { stored = ground arith; unanchored = λ h. refl }
perform-IsValid s (anchor epoch_ms source now) w v =
    let a = v.stored in
    let b = v.unanchored in record { stored = ground arith; unanchored = ground arith }
perform-IsValid s (pass f now) w v =
    let (r, k) = w in
    let a = v.stored in
    let b = v.unanchored in record { stored = ground arith; unanchored = ground arith }

perform-Later :
    (s : Session) (o : Op)
    → Works o
    → s.stored_boot + 1 < 2 ^ 32
    → IsValid s
    → Later s (perform s o)
unfolding session_begin session_set_anchor session_tick
perform-Later s (boot f mac now) w l v =
    let (r, k) = w in
    let a = v.stored in record { time = inl (ground arith); trust = λ h. absurd (ground arith) }
perform-Later s (anchor epoch_ms source now) w l v =
    let a = v.stored in let b = v.unanchored in record { time = ground arith; trust = ground arith }
perform-Later s (pass f now) w l v =
    let (r, k) = w in let a = v.stored in record { time = ground arith; trust = ground arith }

Later-refl : (s : Session) → Later s s
Later-refl s = record { time = inr (refl, omega arith); trust = λ h. omega arith }

Later-trans : (s t u : Session) → Later s t → Later t u → Later s u
Later-trans s t u h k =
    let a = h.time in
    let b = k.time in
    let c = h.trust in let d = k.trust in record { time = ground arith; trust = λ e. ground arith }

stored_bound : (s : Session) (o : Op) → Works o → (perform s o).stored_boot ≤ s.stored_boot + 1
unfolding session_begin session_set_anchor session_tick
stored_bound s (boot f mac now) w = let (r, k) = w in ground arith
stored_bound s (anchor epoch_ms source now) w = ground arith
stored_bound s (pass f now) w = let (r, k) = w in ground arith

-- As long as the key-value store reads and writes the counter, any resets, anchors and passes of the
-- loop lead to a later state, until the counter has been used up: to a session with a greater id, or
-- to the same session, at a time that is not before, and with an anchor that is no less trusted.
pub perform_all-Later :
    (s : Session) (os : List Op)
    → All Works os
    → s.stored_boot + length os < 2 ^ 32
    → IsValid s
    → Later s (perform_all s os)
unfolding perform_all
perform_all-Later s [] w l v = Later-refl s
perform_all-Later s (o ∷ os) w l v =
    let t = perform s o in
    let b = stored_bound s o w.0 in
    Later-trans s t (perform_all t os) (perform-Later s o w.0 (omega arith) v)
      (perform_all-Later t os w.1 (omega arith) (perform-IsValid s o w.0 v))
