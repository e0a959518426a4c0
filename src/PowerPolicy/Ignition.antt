-- ===== src/PowerPolicy/Ignition.antt =====
-- The ignition debounce over runs of samples.
use cardiag.Base.{
  Bool, List, [], arith, false, if◌then◌else◌, le_i32, not, sub32, true, ℕ, ◌∷◌, ◌≡◌, ◌≢◌, ◌⊎◌, inl,
  sym, inr, ap, ◌∙◌,
}
use cardiag.PowerPolicy.{IgnDebounce, ign_debounce, settle}

pub record Sample : Type 0 where
  pub raw : Bool
  pub now : ℕ

-- The samples, latest first, have read `raw` without a break back to one taken at `edge`.
pub data RunSince (raw : Bool) (edge : ℕ) : List Sample → Type 0 where
  starts :
      {s : Sample} {past : List Sample} → s.raw ≡ raw → s.now ≡ edge → RunSince raw edge (s ∷ past)
  lasts :
      {s : Sample} {past : List Sample}
      → s.raw ≡ raw
      → RunSince raw edge past
      → RunSince raw edge (s ∷ past)

module _ (on_ms off_ms : ℕ) where
  abbrev pub feed : IgnDebounce → Sample → IgnDebounce
  feed d s = ign_debounce d s.raw s.now on_ms off_ms

  abbrev pub window : Bool → ℕ
  window raw = if raw then on_ms else off_ms

  -- The state after a list of samples, the latest first.
  unfoldable pub after : IgnDebounce → List Sample → IgnDebounce
  after d [] = d
  after d (s ∷ past) = feed (after d past) s

flipped : {a b : Bool} → a ≢ b → not b ≡ a
flipped h = ground arith

module _ (d : IgnDebounce) (raw : Bool) (now on_ms off_ms : ℕ) (i : d.init ≡ true) where
  abbrev next : IgnDebounce
  next = ign_debounce d raw now on_ms off_ms

  ign_debounce-init : next.init ≡ true
  unfolding ign_debounce settle
  ign_debounce-init = ground arith

  ign_debounce-pending :
      next.pending ≡ true
      → raw ≡ not next.on
        × ((d.pending ≡ true × next.edge_ms ≡ d.edge_ms × next.on ≡ d.on) ⊎ (next.edge_ms ≡ now))
  unfolding ign_debounce settle
  ign_debounce-pending h = ground arith

  ign_debounce-flip :
      next.on ≢ d.on
      → next.on ≡ raw
        × next.pending ≡ false
        × le_i32 (if raw then on_ms else off_ms) (sub32 now next.since_ms) ≡ true
        × ((d.pending ≡ true × next.since_ms ≡ d.edge_ms) ⊎ (next.since_ms ≡ now))
  unfolding ign_debounce settle
  ign_debounce-flip h = ground arith

same_run :
    {raw raw' : Bool} {e e' : ℕ} {past : List Sample}
    → raw ≡ raw'
    → e ≡ e'
    → RunSince raw e past
    → RunSince raw' e' past
same_run r e (starts a b) = starts (a ∙ r) (b ∙ e)
same_run r e (lasts a rest) = lasts (a ∙ r) (same_run r e rest)

module _ (on_ms off_ms : ℕ) where
  after-init :
      (d : IgnDebounce) (past : List Sample)
      → d.init ≡ true
      → (after on_ms off_ms d past).init ≡ true
  unfolding after
  after-init d [] i = i
  after-init d (s ∷ past) i =
      ign_debounce-init (after on_ms off_ms d past) s.raw s.now on_ms off_ms (after-init d past i)

  -- While a change is pending, the input has read the other level since the edge.
  pub after-pending :
      (d : IgnDebounce) (past : List Sample)
      → d.init ≡ true
      → d.pending ≡ false
      → (after on_ms off_ms d past).pending ≡ true
      → RunSince (not (after on_ms off_ms d past).on) (after on_ms off_ms d past).edge_ms past
  unfolding after
  after-pending d [] i p h = absurd (ground arith)
  after-pending d (s ∷ past) i p h =
      let before = after on_ms off_ms d past in
      let (r, c) = ign_debounce-pending before s.raw s.now on_ms off_ms (after-init d past i) h in
      elim c [
        | inl (was, e, o) ↦
            lasts r (same_run (sym (ap not o)) (sym e) (after-pending d past i p was))
        | inr e ↦ starts r (sym e)
      ]

  -- The debounced level only changes after the input has read the new level without a break, from a
  -- first sample at `since_ms` to the current one, for at least the window of that level.
  pub flip_needs_window :
      (d : IgnDebounce) (past : List Sample) (s : Sample)
      → d.init ≡ true
      → d.pending ≡ false
      → (after on_ms off_ms d (s ∷ past)).on ≢ (after on_ms off_ms d past).on
      → let d' = after on_ms off_ms d (s ∷ past) in
        (d'.on ≡ s.raw)
        × RunSince d'.on d'.since_ms (s ∷ past)
        × (le_i32 (window on_ms off_ms s.raw) (sub32 s.now d'.since_ms) ≡ true)
  unfolding after
  flip_needs_window d past s i p h =
      let before = after on_ms off_ms d past in
      let (r, q, w, c) =
        ign_debounce-flip before s.raw s.now on_ms off_ms (after-init d past i) h in
      (
        r,
        (elim c [
          | inl (was, e) ↦
              lasts (sym r) (same_run (flipped h) (sym e) (after-pending d past i p was))
          | inr e ↦ starts (sym r) (sym e)
        ]),
        w,
      )
