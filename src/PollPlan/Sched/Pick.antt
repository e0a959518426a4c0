-- ===== src/PollPlan/Sched/Pick.antt =====
-- Which entry is asked for next.
use mathlib.Core.Path.{subst}
use cardiag.Base.{
  All, Bool-cases, List, Option, [], ap, arith, false, get_elem?, inl, inr, ltb, none, refl, some,
  sub32, suc, true, ℕ, ◌+◌, ◌∙◌, ◌∷◌, ◌≡◌, ◌≤◌, ◌⊎◌,
}
use cardiag.PollPlan.Sched.{PollSched, reached, better, pick_from, position, poll_sched_pick}

-- An entry due at `d` is not yet due, or no more overdue than the one picked.
abbrev pub NotLater : ℕ → Option (ℕ × ℕ) → ℕ → Type 0
NotLater now none d = reached now d ≡ false
NotLater now (some x) d = (reached now d ≡ false) ⊎ (sub32 now d ≤ x.1)

AtLeast : Option (ℕ × ℕ) → Option (ℕ × ℕ) → Type 0
AtLeast none r = Unit {0}
AtLeast (some y) none = ⊥
AtLeast (some y) (some x) = y.1 ≤ x.1

AtLeast-trans : (a b c : Option (ℕ × ℕ)) → AtLeast a b → AtLeast b c → AtLeast a c
unfolding AtLeast
AtLeast-trans none b c h k = tt
AtLeast-trans (some y) none c h k = elim h [ ]
AtLeast-trans (some y) (some x) none h k = k
AtLeast-trans (some y) (some x) (some z) h k = omega arith

NotLater-AtLeast :
    (now d : ℕ) (a b : Option (ℕ × ℕ)) → NotLater now a d → AtLeast a b → NotLater now b d
unfolding AtLeast
NotLater-AtLeast now d none none h k = h
NotLater-AtLeast now d none (some x) h k = inl h
NotLater-AtLeast now d (some y) none h k = elim k [ ]
NotLater-AtLeast now d (some y) (some x) (inl h) k = inl h
NotLater-AtLeast now d (some y) (some x) (inr h) k = inr (omega arith)

better_lem :
    (now d i : ℕ) (b : Option (ℕ × ℕ))
    → AtLeast b (better now d i b)
      × NotLater now (better now d i b) d
      × ((better now d i b ≡ b)
          ⊎ ((reached now d ≡ true) × (better now d i b ≡ some (i, sub32 now d))))
unfolding better AtLeast
better_lem now d i none = elim (Bool-cases (reached now d)) [
  | inl e ↦ rw e (tt, inr (omega arith), inr (refl, refl))
  | inr e ↦ rw e (tt, e, inl refl)
]
better_lem now d i (some y) = elim (Bool-cases (reached now d)) [
  | inl e ↦ elim (Bool-cases (ltb y.1 (sub32 now d))) [
    | inl l ↦ rw e (rw l (ground arith, inr (omega arith), inr (refl, refl)))
    | inr l ↦ rw e (rw l (omega arith, inr (ground arith), inl refl))
  ]
  | inr e ↦ rw e (omega arith, inl e, inl refl)
]

-- Where the pick stands among the entries from position `i` on, and that it is at least as overdue.
Picked : ℕ → List ℕ → ℕ → Option (ℕ × ℕ) → Option (ℕ × ℕ) → Type 0
Picked now ds i b r =
    AtLeast b r
    × All (NotLater now r) ds
    × ((r ≡ b)
        ⊎ ((j : ℕ) × (d : ℕ) × (get_elem? ds j ≡ some d)
            × (reached now d ≡ true)
            × (r ≡ some (i + j, sub32 now d))))

AtLeast-refl : (a : Option (ℕ × ℕ)) → AtLeast a a
unfolding AtLeast
AtLeast-refl none = tt
AtLeast-refl (some x) = omega arith

pick_from-Picked :
    (now : ℕ) (ds : List ℕ) (i : ℕ) (b : Option (ℕ × ℕ)) → Picked now ds i b (pick_from now ds i b)
unfolding Picked pick_from
pick_from-Picked now [] i b = (AtLeast-refl b, tt, inl refl)
pick_from-Picked now (d ∷ ds) i b =
    let b' = better now d i b in
    let r = pick_from now ds (i + 1) b' in
    let (up, here, from) = better_lem now d i b in
    let (more, rest, place) = pick_from-Picked now ds (i + 1) b' in
    (
      AtLeast-trans b b' r up more,
      (NotLater-AtLeast now d b' r here more, rest),
      elim place [
        | inl e ↦ elim from [
          | inl f ↦ inl (e ∙ f)
          | inr (due, f) ↦
              inr (0, d, refl, due, e ∙ f ∙ ap (λ n. some (n, sub32 now d)) (omega arith))
        ]
        | inr (j, x, g, due, f) ↦
            inr (suc j, x, g, due, f ∙ ap (λ n. some (n, sub32 now x)) (omega arith))
      ],
    )

pick_open :
    (s : PollSched) (now gap_ms i : ℕ)
    → poll_sched_pick s now gap_ms ≡ some i
    → (s.inflight ≡ none) × (position (pick_from now s.due 0 none) ≡ some i)
unfolding poll_sched_pick
pick_open s now gap_ms i h = ground arith

position-some : (o : Option (ℕ × ℕ)) (i : ℕ) → position o ≡ some i → (l : ℕ) × (o ≡ some (i, l))
position-some none i h = absurd (ground arith)
position-some (some x) i h = (x.1, cc)

-- A pick is made only with no request in flight, and of an entry that is due and that no other
-- entry exceeds in being overdue.
pub poll_sched_pick-most_overdue :
    (s : PollSched) (now gap_ms i : ℕ)
    → poll_sched_pick s now gap_ms ≡ some i
    → (s.inflight ≡ none)
      × ((d : ℕ) × (get_elem? s.due i ≡ some d)
          × (reached now d ≡ true)
          × All (λ e. (reached now e ≡ false) ⊎ (sub32 now e ≤ sub32 now d)) s.due)
unfolding Picked
poll_sched_pick-most_overdue s now gap_ms i h =
    let (free, at) = pick_open s now gap_ms i h in
    let (l, e) = position-some (pick_from now s.due 0 none) i at in
    let (up, rest, place) = pick_from-Picked now s.due 0 none in
    (
      free,
      elim place [
        | inl none' ↦ absurd (ground arith)
        | inr (j, d, g, due, f) ↦ (
          d,
          (let same : i ≡ j = ground arith in rw same g),
          due,
          subst (λ r. All (NotLater now r) s.due) f rest,
        )
      ],
    )
