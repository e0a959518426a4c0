-- ===== src/FsIndex/Retention/Loops.antt =====
-- How each loop of a retention call ends, with the fuel that it is given.
use native.Mathlib.Numerals.{add-one}
use cardiag.Base.{
  All, Bool, arith, false, suc, zero, ℕ, ◌<◌, ◌≡◌, ◌≢◌, List, ◌+◌, length, take, ◌≤◌, get_or, ◌∷◌,
  ap, [], refl,
}
use cardiag.FsIndex.Table.{FsEntry, FsTable, count}
use cardiag.FsIndex.Retention.{
  FsRetentionOps, Run, Flow, set_more, is_leftover, evict_at, evict_while, go, stop,
  stage_leftovers, remove_at, leftover_loop, blank, add_leftover,
}
use cardiag.FsIndex.Retention.Evict.{
  length-remove_at, evict_at-t, Picks, round, done, spent, empty, evicts, leftover_round, past,
  passes, over_budget, deletes,
}

module _ (P : FsEntry → Type 0) where
  All-take-suc :
      (v : List FsEntry) (i : ℕ) (d : FsEntry)
      → i < length v
      → All P (take i v)
      → P (get_or v i d)
      → All P (take (suc i) v)
  All-take-suc [] i d lt a p = tt
  All-take-suc (e ∷ v) zero d lt a p = (p, tt)
  All-take-suc (e ∷ v) (suc i) d lt a p = (a.0, All-take-suc v i d (omega arith) a.1 p)

  All-of_take : (v : List FsEntry) (i : ℕ) → length v ≤ i → All P (take i v) → All P v
  All-of_take [] i le a = tt
  All-of_take (e ∷ v) zero le a = absurd (omega arith)
  All-of_take (e ∷ v) (suc i) le a = (a.0, All-of_take v i (omega arith) a.1)

take-remove_at : (v : List FsEntry) (i : ℕ) → take i (remove_at v i) ≡ take i v
take-remove_at [] i = refl
take-remove_at (e ∷ v) zero = refl
take-remove_at (e ∷ v) (suc i) = ap (◌∷◌ e) (take-remove_at v i)

module _ {C : Type 0} (ops : FsRetentionOps C) (acked_through budget : ℕ) where
  module _ (over : Run C → Bool) (pick : FsTable → ℕ → ℕ) (none_left : Run C → Run C)
      (ok : Picks ops acked_through budget pick) where
    -- How one of the stages 1 to 3 ends.
    pub data Ended (m : Flow (Run C)) : Type 0 where
      met : (s : Run C) → over s ≡ false → m ≡ go s → Ended m
      nothing : (s : Run C) → pick s.t acked_through ≡ count s.t → m ≡ go (none_left s) → Ended m
      paused : (s : Run C) → m ≡ stop (set_more s) → Ended m

    -- One round more than there are entries is enough.
    pub evict_while-Ended :
        (fuel : ℕ) (s : Run C)
        → count s.t < fuel
        → Ended (evict_while ops acked_through budget over pick none_left fuel s)
    evict_while-Ended zero s h = absurd (omega arith)
    evict_while-Ended (suc fuel) s h =
        elim (round ops acked_through budget over pick none_left fuel s) [
          | done o e ↦ met s o e
          | spent o b e ↦ paused s e
          | empty o n e ↦ nothing s n e
          | evicts b n e ↦ rw e (
              evict_while-Ended fuel (evict_at ops acked_through (pick s.t acked_through) s)
                (fewer n))
        ]
      where
        fewer :
            pick s.t acked_through ≢ count s.t
            → count (evict_at ops acked_through (pick s.t acked_through) s).t < fuel
        fewer n =
            let lt : pick s.t acked_through < count s.t = omega (arith, ok.le s.t) in
            rw (evict_at-t ops acked_through budget s (pick s.t acked_through) lt)
              (omega (arith, length-remove_at s.t.v (pick s.t acked_through) lt))

  abbrev pub NoLeftover : FsEntry → Type 0
  NoLeftover e = is_leftover acked_through e ≡ false

  -- How stage 0 ends: no leftover is left, or the budget is spent.
  pub data Cleared (m : Flow (Run C)) : Type 0 where
    clear : (s : Run C) → All NoLeftover s.t.v → m ≡ go s → Cleared m
    paused_early : (s : Run C) → m ≡ stop (set_more s) → Cleared m

  leftover_loop-Cleared :
      (fuel i : ℕ) (s : Run C)
      → count s.t < fuel + i
      → i ≤ count s.t
      → All NoLeftover (take i s.t.v)
      → Cleared (leftover_loop ops acked_through budget fuel i s)
  leftover_loop-Cleared zero i s h le a = absurd (omega arith)
  leftover_loop-Cleared (suc fuel) i s h le a =
      elim (leftover_round ops acked_through budget fuel i s) [
        | past o e ↦ clear s (All-of_take NoLeftover s.t.v i o a) e
        | passes o l e ↦ rw e (
            leftover_loop-Cleared fuel (i + 1) s (omega arith) (omega arith)
              (rw add-one (All-take-suc NoLeftover s.t.v i (blank 0) o a l)))
        | over_budget e ↦ paused_early s e
        | deletes o off b e ↦
            let at = evict_at-t ops acked_through budget s i o in
            rw e (
              leftover_loop-Cleared fuel i (add_leftover (evict_at ops acked_through i s))
                (rw at (omega (arith, length-remove_at s.t.v i o)))
                (rw at (omega (arith, length-remove_at s.t.v i o)))
                (rw (at, take-remove_at s.t.v i) a))
      ]

  pub stage_leftovers-Cleared : (s : Run C) → Cleared (stage_leftovers ops acked_through budget s)
  stage_leftovers-Cleared s =
      leftover_loop-Cleared (count s.t + 1) 0 s (omega arith) (omega arith) tt
