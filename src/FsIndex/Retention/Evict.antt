-- ===== src/FsIndex/Retention/Evict.antt =====
-- What every eviction of one retention call leaves as it was, and how it is counted.
use cardiag.Base.{
  All, Bool, Bool-cases, List, [], arith, false, get_or, inl, inr, keep_if, leb, length, ltb, refl,
  suc, true, zero, ℕ, ◌+◌, ◌<◌, ◌==◌, ◌∷◌, ◌≡◌, ◌≢◌, ◌≤◌,
}
use cardiag.FsIndex.Table.{FsEntry, FsTable, count, blank, remove_at, drop_entry}
use cardiag.FsIndex.Table.Sort.{Ascending}
use cardiag.FsIndex.Retention.{
  pick_victim, pick_tier_a_victim, FsRetentionCfg, FsRetentionOps, Run, Flow, ◌>>=◌, final,
  count_evicted, evict_at, set_more, set_stuck, add_leftover, is_leftover, leftover_loop,
  evict_while, stages, go, stop, stage_used, stage_tier_a, stage_count, stage_leftovers, entry_at,
}
use cardiag.FsIndex.Retention.Pick.{
  pick_victim_off, pick_tier_a_victim_off, pick_victim-le, pick_tier_a_victim-le,
}

pub length-remove_at :
    (v : List FsEntry) (i : ℕ) → i < length v → length (remove_at v i) + 1 ≡ length v
length-remove_at [] i h = absurd (omega arith)
length-remove_at (e ∷ v) zero h = omega arith
length-remove_at (e ∷ v) (suc i) h = omega (arith, length-remove_at v i (omega arith))

pub length-remove_at-le : (v : List FsEntry) (i : ℕ) → length (remove_at v i) ≤ length v
length-remove_at-le [] i = omega arith
length-remove_at-le (e ∷ v) zero = omega arith
length-remove_at-le (e ∷ v) (suc i) = omega (arith, length-remove_at-le v i)

-- Taking out an entry that fails a test keeps those that pass it, in order.
pub keep_if-remove_at :
    (p : FsEntry → Bool) (v : List FsEntry) (i : ℕ) (d : FsEntry)
    → i < length v
    → p (get_or v i d) ≡ false
    → keep_if p (remove_at v i) ≡ keep_if p v
keep_if-remove_at p [] i d h off = absurd (omega arith)
keep_if-remove_at p (e ∷ v) zero d h off = ground arith
keep_if-remove_at p (e ∷ v) (suc i) d h off =
    ground (arith, keep_if-remove_at p v i d (omega arith) off)

pub All-remove_at {κ} :
    (P : FsEntry → Type κ) (v : List FsEntry) (i : ℕ) → All P v → All P (remove_at v i)
All-remove_at P [] i a = tt
All-remove_at P (e ∷ v) zero a = a.1
All-remove_at P (e ∷ v) (suc i) a = (a.0, All-remove_at P v i a.1)

pub Ascending-remove_at : (v : List FsEntry) (i : ℕ) → Ascending v → Ascending (remove_at v i)
Ascending-remove_at [] i a = tt
Ascending-remove_at (e ∷ v) zero a = a.1
Ascending-remove_at (e ∷ v) (suc i) a =
    (All-remove_at (λ x. e.index ≤ x.index) v i a.0, Ascending-remove_at v i a.1)

module _ {C : Type 0} (ops : FsRetentionOps C) (acked_through budget : ℕ) where
  pub evict_at-t :
      (s : Run C) (i : ℕ)
      → i < count s.t
      → (evict_at ops acked_through i s).t ≡ record s.t { v = remove_at s.t.v i }
  unfolding evict_at drop_entry
  evict_at-t s i h = ground arith

  -- The counters after one eviction: the total goes up by one, and one of the two shares with it.
  pub evict_at-r :
      (s : Run C) (i : ℕ)
      → (acked : Bool) × ((evict_at ops acked_through i s).r ≡ count_evicted s.r acked)
  unfolding evict_at
  evict_at-r s i = (_, refl)

  -- A property that every step of a retention call keeps.
  pub record Keeps (P : Run C → Type 0) : Type 0 where
    pub evicting :
        (s : Run C) (i : ℕ)
        → i < count s.t
        → (entry_at s i).active ≡ false
        → s.r.evicted < budget
        → P s
        → P (evict_at ops acked_through i s)
    pub leftover :
        (s : Run C) (i : ℕ)
        → i < count s.t
        → (entry_at s i).active ≡ false
        → s.r.evicted < budget
        → P s
        → P (add_leftover (evict_at ops acked_through i s))
    pub more : (s : Run C) → P s → P (set_more s)
    pub stuck : (s : Run C) → P s → P (set_stuck s)

  -- A picker that points past the table or at an entry that is not active.
  pub record Picks (pick : FsTable → ℕ → ℕ) : Type 0 where
    pub off :
        (t : FsTable)
        → pick t acked_through < count t
        → (get_or t.v (pick t acked_through) (blank 0)).active ≡ false
    pub le : (t : FsTable) → pick t acked_through ≤ count t

  pub pick_victim-Picks : Picks pick_victim
  pick_victim-Picks = record {
    off = λ t h. pick_victim_off t acked_through (blank 0) h;
    le = λ t. pick_victim-le t acked_through;
  }

  pub pick_tier_a_victim-Picks : Picks pick_tier_a_victim
  pick_tier_a_victim-Picks = record {
    off = λ t h. pick_tier_a_victim_off t acked_through (blank 0) h;
    le = λ t. pick_tier_a_victim-le t acked_through;
  }

  -- The four ways on of a round of stages 1 to 3.
  module _ (over : Run C → Bool) (pick : FsTable → ℕ → ℕ) (none_left : Run C → Run C) where
    abbrev loop : ℕ → Run C → Flow (Run C)
    loop = evict_while ops acked_through budget over pick none_left

    pub data Round (fuel : ℕ) (s : Run C) : Type 0 where
      done : over s ≡ false → loop (suc fuel) s ≡ go s → Round fuel s
      spent :
          over s ≡ true
          → budget ≤ s.r.evicted
          → loop (suc fuel) s ≡ stop (set_more s)
          → Round fuel s
      empty :
          over s ≡ true
          → pick s.t acked_through ≡ count s.t
          → loop (suc fuel) s ≡ go (none_left s)
          → Round fuel s
      evicts :
          s.r.evicted < budget
          → pick s.t acked_through ≢ count s.t
          → loop (suc fuel) s ≡ loop fuel (evict_at ops acked_through (pick s.t acked_through) s)
          → Round fuel s

    pub round : (fuel : ℕ) (s : Run C) → Round fuel s
    unfolding evict_while
    round fuel s = elim (Bool-cases (over s)) [
      | inr o ↦ done o (ground arith)
      | inl o ↦ elim (Bool-cases (leb budget s.r.evicted)) [
        | inl b ↦ spent o (ground arith) (ground arith)
        | inr b ↦ elim (Bool-cases (pick s.t acked_through == count s.t)) [
          | inl e ↦ empty o (ground arith) (ground arith)
          | inr e ↦ evicts (ground arith) (ground arith) (ground arith)
        ]
      ]
    ]

  -- The four ways on of a round of stage 0.
  pub data LeftoverRound (fuel i : ℕ) (s : Run C) : Type 0 where
    past :
        count s.t ≤ i
        → leftover_loop ops acked_through budget (suc fuel) i s ≡ go s
        → LeftoverRound fuel i s
    passes :
        i < count s.t
        → is_leftover acked_through (entry_at s i) ≡ false
        → leftover_loop ops acked_through budget (suc fuel) i s
          ≡ leftover_loop ops acked_through budget fuel (i + 1) s
        → LeftoverRound fuel i s
    over_budget :
        leftover_loop ops acked_through budget (suc fuel) i s ≡ stop (set_more s)
        → LeftoverRound fuel i s
    deletes :
        i < count s.t
        → (entry_at s i).active ≡ false
        → s.r.evicted < budget
        → leftover_loop ops acked_through budget (suc fuel) i s
          ≡ leftover_loop ops acked_through budget fuel i
              (add_leftover (evict_at ops acked_through i s))
        → LeftoverRound fuel i s

  pub leftover_round : (fuel i : ℕ) (s : Run C) → LeftoverRound fuel i s
  unfolding leftover_loop
  leftover_round fuel i s = elim (Bool-cases (ltb i (count s.t))) [
    | inr o ↦ past (ground arith) (ground arith)
    | inl o ↦ elim (Bool-cases (is_leftover acked_through (entry_at s i))) [
      | inr l ↦ passes (ground arith) l (ground arith)
      | inl l ↦ elim (Bool-cases (leb budget s.r.evicted)) [
        | inl b ↦ over_budget (ground arith)
        | inr b ↦ deletes (ground arith) (ground arith) (ground arith) (ground arith)
      ]
    ]
  ]

  module _ (P : Run C → Type 0) (k : Keeps P) where
    pub evict_while-keeps :
        (over : Run C → Bool) (pick : FsTable → ℕ → ℕ) (none_left : Run C → Run C)
        → Picks pick
        → ((s : Run C) → P s → P (none_left s))
        → (fuel : ℕ) (s : Run C) → P s
        → P (final (evict_while ops acked_through budget over pick none_left fuel s))
    evict_while-keeps over pick none_left ok idle zero s h = unfold evict_while in h
    evict_while-keeps over pick none_left ok idle (suc fuel) s h =
        elim (round over pick none_left fuel s) [
          | done o e ↦ rw e h
          | spent o b e ↦ rw e (k.more s h)
          | empty o n e ↦ rw e (idle s h)
          | evicts b n e ↦ rw e (
              evict_while-keeps over pick none_left ok idle fuel _
                (k.evicting s (pick s.t acked_through) (inside n) (ok.off s.t (inside n)) b h))
        ]
      where
        inside : pick s.t acked_through ≢ count s.t → pick s.t acked_through < count s.t
        inside n = omega (arith, ok.le s.t)

    pub leftover_loop-keeps :
        (fuel i : ℕ) (s : Run C) → P s → P (final (leftover_loop ops acked_through budget fuel i s))
    leftover_loop-keeps zero i s h = unfold leftover_loop in h
    leftover_loop-keeps (suc fuel) i s h = elim (leftover_round fuel i s) [
      | past o e ↦ rw e h
      | passes o l e ↦ rw e (leftover_loop-keeps fuel (i + 1) s h)
      | over_budget e ↦ rw e (k.more s h)
      | deletes o off b e ↦ rw e (leftover_loop-keeps fuel i _ (k.leftover s i o off b h))
    ]

  pub bind-final :
      (P : Run C → Type 0) (m : Flow (Run C)) (f : Run C → Flow (Run C))
      → P (final m)
      → ((s : Run C) → m ≡ go s → P s → P (final (f s)))
      → P (final (m >>= f))
  bind-final P (go s) f h next = next s refl h
  bind-final P (stop s) f h next = h

  -- A property that every step keeps holds of the end if it holds of the beginning.
  pub stages-keeps :
      (P : Run C → Type 0)
      → Keeps P
      → (cfg : FsRetentionCfg) (reserve : ℕ) (s : Run C) → P s
      → P (final (stages ops acked_through budget cfg reserve s))
  unfolding stages
  stages-keeps P k cfg reserve s h =
      bind-final P (stage_leftovers ops acked_through budget s) after_leftovers
        (leftover_loop-keeps P k _ 0 s h)
        λ s1 _ h1.
          bind-final P (stage_count ops acked_through budget cfg reserve s1) after_count
            (evict_while-keeps P k _ pick_victim _ pick_victim-Picks k.stuck _ s1 h1)
            λ s2 _ h2.
              bind-final P (stage_tier_a ops acked_through budget cfg s2) after_tier_a
                (evict_while-keeps P k _ pick_tier_a_victim _ pick_tier_a_victim-Picks (λ x p. p) _
                  s2 h2)
                λ s3 _ h3. evict_while-keeps P k _ pick_victim _ pick_victim-Picks k.stuck _ s3 h3
    where
      after_tier_a : Run C → Flow (Run C)
      after_tier_a = stage_used ops acked_through budget cfg

      after_count : Run C → Flow (Run C)
      after_count s = stage_tier_a ops acked_through budget cfg s >>= after_tier_a

      after_leftovers : Run C → Flow (Run C)
      after_leftovers s = stage_count ops acked_through budget cfg reserve s >>= after_count
