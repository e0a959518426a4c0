-- ===== src/FsIndex/Retention/Limits.antt =====
-- What a retention call that ran to its end has achieved.
use mathlib.Core.Path.{subst}
use cardiag.Base.{
  All, Bool, List, arith, false, inl, inr, length, refl, true, ℕ, ◌<◌, ◌^◌, ◌≡◌, ◌≤◌, ◌⊎◌,
}
use cardiag.FsIndex.Table.{FsEntry, FsTable, count, remove_at}
use cardiag.FsIndex.Retention.{
  pick_victim, pick_tier_a_victim, FsRetentionCfg, FsRetentionOps, Run, Flow, ◌>>=◌, final,
  set_more, evict_at, count_limit, go, stop, stage_leftovers, stage_count, over_count, set_stuck,
  stage_tier_a, stage_used, stages, enforce_retention, over_tier_a, over_used, is_leftover,
  no_result,
}
use cardiag.FsIndex.Retention.Evict.{
  evict_at-t, Keeps, All-remove_at, length-remove_at-le, Picks, leftover_loop-keeps,
  pick_victim-Picks, evict_while-keeps, pick_tier_a_victim-Picks,
}
use cardiag.FsIndex.Retention.Loops.{
  NoLeftover, Ended, met, stage_leftovers-Cleared, nothing, clear, paused, paused_early,
  evict_while-Ended,
}
use cardiag.FsIndex.Retention.Totals.{
  tier_a_total, tier_a_bytes-total, tier_a_total-remove_at, Active, NoTierA, pick_victim-Active,
  no_tier_a,
}

module _ {C : Type 0} (ops : FsRetentionOps C) (acked_through budget : ℕ) where
  evict_at-stuck : (s : Run C) (i : ℕ) → (evict_at ops acked_through i s).r.stuck ≡ s.r.stuck
  unfolding evict_at
  evict_at-stuck s i = refl

  module _ (Q : List FsEntry → Bool → Type 0)
      (del : (v : List FsEntry) (i : ℕ) (b : Bool) → Q v b → Q (remove_at v i) b)
      (flag : (v : List FsEntry) (b : Bool) → Q v b → Q v true) where
    -- A property of the table and the stuck flag that survives deletions is kept by every step.
    evicting-Q :
        (s : Run C) (i : ℕ)
        → i < count s.t
        → Q s.t.v s.r.stuck
        → Q (evict_at ops acked_through i s).t.v (evict_at ops acked_through i s).r.stuck
    evicting-Q s i lt h =
        rw (evict_at-t ops acked_through budget s i lt, evict_at-stuck s i)
          (del s.t.v i s.r.stuck h)

    survives-Keeps : Keeps ops acked_through budget (λ s. Q s.t.v s.r.stuck)
    survives-Keeps = record {
      evicting = λ s i lt off b h. evicting-Q s i lt h;
      leftover = λ s i lt off b h. evicting-Q s i lt h;
      more = λ s h. h;
      stuck = λ s h. flag s.t.v s.r.stuck h;
    }

  -- The ends of a stage: it went on with a property, or the call returned with work left.
  data Finish (R : Run C → Type 0) (m : Flow (Run C)) : Type 0 where
    on : (s : Run C) → R s → m ≡ go s → Finish R m
    off : (s : Run C) → m ≡ stop (set_more s) → Finish R m

  bind-Finish :
      (R T : Run C → Type 0) (m : Flow (Run C)) (f : Run C → Flow (Run C))
      → Finish R m
      → ((s : Run C) → R s → Finish T (f s))
      → Finish T (m >>= f)
  bind-Finish R T m f (on s r e) next = rw (e, ◌>>=◌) (next s r)
  bind-Finish R T m f (off s e) next = off s (rw (e, ◌>>=◌))

  Finish-more :
      (R : Run C → Type 0) (m : Flow (Run C)) → Finish R m → (final m).r.more ≡ false → R (final m)
  Finish-more R m (on s r e) h = rw (e, final) r
  Finish-more R m (off s e) h = absurd (ground arith)

  module _ (cfg : FsRetentionCfg) (reserve : ℕ) where
    abbrev pub limit : ℕ
    limit = count_limit ops acked_through budget cfg reserve

    -- After stage 0.
    abbrev Q0 : List FsEntry → Bool → Type 0
    Q0 v b = All (NoLeftover ops acked_through budget) v × (tier_a_total v < 2 ^ 32)

    -- After stage 1.
    abbrev Q1 : List FsEntry → Bool → Type 0
    Q1 v b = Q0 v b × ((length v ≤ limit) ⊎ ((b ≡ true) × All Active v))

    -- After stage 2.
    abbrev Q2 : List FsEntry → Bool → Type 0
    Q2 v b = Q1 v b × ((tier_a_total v ≤ cfg.tier_a_cap_bytes) ⊎ All NoTierA v)

    Q0-del : (v : List FsEntry) (i : ℕ) (b : Bool) → Q0 v b → Q0 (remove_at v i) b
    Q0-del v i b q = (
      All-remove_at (NoLeftover ops acked_through budget) v i q.0,
      omega (arith, tier_a_total-remove_at v i),
    )

    Q1-del : (v : List FsEntry) (i : ℕ) (b : Bool) → Q1 v b → Q1 (remove_at v i) b
    Q1-del v i b q = (
      Q0-del v i b q.0,
      elim q.1 [
        | inl le ↦ inl (omega (arith, length-remove_at-le v i))
        | inr (stuck, all) ↦ inr (stuck, All-remove_at Active v i all)
      ],
    )

    Q2-del : (v : List FsEntry) (i : ℕ) (b : Bool) → Q2 v b → Q2 (remove_at v i) b
    Q2-del v i b q = (
      Q1-del v i b q.0,
      elim q.1 [
        | inl le ↦ inl (omega (arith, tier_a_total-remove_at v i))
        | inr all ↦ inr (All-remove_at NoTierA v i all)
      ],
    )

    Q1-flag : (v : List FsEntry) (b : Bool) → Q1 v b → Q1 v true
    Q1-flag v b q = (q.0, elim q.1 [ inl le ↦ inl le | inr (stuck, all) ↦ inr (refl, all) ])

    abbrev Holds : (List FsEntry → Bool → Type 0) → Run C → Type 0
    Holds Q s = Q s.t.v s.r.stuck

    -- From how a loop ends and a property that it keeps, what its end gives.
    Ended-Finish :
        (over : Run C → Bool) (pick : FsTable → ℕ → ℕ) (none_left : Run C → Run C)
        (ok : Picks ops acked_through budget pick) (P R : Run C → Type 0) (m : Flow (Run C))
        → P (final m)
        → ((s : Run C) → over s ≡ false → P s → R s)
        → ((s : Run C) → pick s.t acked_through ≡ count s.t → P (none_left s) → R (none_left s))
        → Ended ops acked_through budget over pick none_left ok m
        → Finish R m
    Ended-Finish over pick none_left ok P R m h below empty (met s o e) =
        on s (below s o (subst (λ x. P (final x)) e h)) e
    Ended-Finish over pick none_left ok P R m h below empty (nothing s n e) =
        on (none_left s) (empty s n (subst (λ x. P (final x)) e h)) e
    Ended-Finish over pick none_left ok P R m h below empty (paused s e) = off s e

    stage_leftovers-Finish :
        (s : Run C)
        → tier_a_total s.t.v < 2 ^ 32
        → Finish (Holds Q0) (stage_leftovers ops acked_through budget s)
    stage_leftovers-Finish s h = elim (stage_leftovers-Cleared ops acked_through budget s) [
      | clear s' all e ↦
          on s' (all, subst (λ (m : Flow (Run C)). tier_a_total (final m).t.v < 2 ^ 32) e kept) e
      | paused_early s' e ↦ off s' e
    ]
      where
        kept : tier_a_total (final (stage_leftovers ops acked_through budget s)).t.v < 2 ^ 32
        kept =
            leftover_loop-keeps ops acked_through budget (λ s. tier_a_total s.t.v < 2 ^ 32)
              (survives-Keeps (λ v b. tier_a_total v < 2 ^ 32)
                (λ v i b q. omega (arith, tier_a_total-remove_at v i)) (λ v b q. q))
              _ 0 s h

    stage_count-Finish :
        (s : Run C)
        → Holds Q0 s
        → Finish (Holds Q1) (stage_count ops acked_through budget cfg reserve s)
    stage_count-Finish s q =
        Ended-Finish over pick_victim set_stuck ok (Holds Q0) (Holds Q1) _
          (evict_while-keeps ops acked_through budget (Holds Q0)
            (survives-Keeps Q0 Q0-del (λ v b q. q)) over pick_victim set_stuck ok (λ s q. q) _ s q)
          (λ s o q. (q, inl (ground arith)))
          (λ s n q. (q, inr (refl, pick_victim-Active s.t acked_through n)))
          (evict_while-Ended ops acked_through budget over pick_victim set_stuck ok _ s
            (omega arith))
      where
        over : Run C → Bool
        over = over_count ops acked_through budget cfg reserve

        ok : Picks ops acked_through budget pick_victim
        ok = pick_victim-Picks ops acked_through budget

    stage_tier_a-Finish :
        (s : Run C) → Holds Q1 s → Finish (Holds Q2) (stage_tier_a ops acked_through budget cfg s)
    stage_tier_a-Finish s q =
        Ended-Finish over pick_tier_a_victim (λ x. x) ok (Holds Q1) (Holds Q2) _
          (evict_while-keeps ops acked_through budget (Holds Q1) (survives-Keeps Q1 Q1-del Q1-flag)
            over pick_tier_a_victim (λ x. x) ok (λ s q. q) _ s q)
          (λ s o q. (q, inl (ground (arith, tier_a_bytes-total s.t q.0.1))))
          (λ s n q. (q, inr (no_tier_a s.t acked_through n)))
          (evict_while-Ended ops acked_through budget over pick_tier_a_victim (λ x. x) ok _ s
            (omega arith))
      where
        over : Run C → Bool
        over = over_tier_a ops acked_through budget cfg

        ok : Picks ops acked_through budget pick_tier_a_victim
        ok = pick_tier_a_victim-Picks ops acked_through budget

    -- The end of the call.
    abbrev Met : Run C → Type 0
    Met s =
        Holds Q2 s
        × ((ops.used_bytes s.ctx ≤ cfg.used_limit_bytes) ⊎ ((s.r.stuck ≡ true) × All Active s.t.v))

    Q2-flag : (v : List FsEntry) (b : Bool) → Q2 v b → Q2 v true
    Q2-flag v b q = (Q1-flag v b q.0, q.1)

    stage_used-Finish :
        (s : Run C) → Holds Q2 s → Finish Met (stage_used ops acked_through budget cfg s)
    stage_used-Finish s q =
        Ended-Finish over pick_victim set_stuck ok (Holds Q2) Met _
          (evict_while-keeps ops acked_through budget (Holds Q2) (survives-Keeps Q2 Q2-del Q2-flag)
            over pick_victim set_stuck ok (λ s q. Q2-flag s.t.v s.r.stuck q) _ s q)
          (λ s o q. (q, inl (ground arith)))
          (λ s n q. (q, inr (refl, pick_victim-Active s.t acked_through n)))
          (evict_while-Ended ops acked_through budget over pick_victim set_stuck ok _ s
            (omega arith))
      where
        over : Run C → Bool
        over = over_used ops acked_through budget cfg

        ok : Picks ops acked_through budget pick_victim
        ok = pick_victim-Picks ops acked_through budget

    stages-Finish :
        (s : Run C)
        → tier_a_total s.t.v < 2 ^ 32
        → Finish Met (stages ops acked_through budget cfg reserve s)
    unfolding stages
    stages-Finish s h =
        bind-Finish (Holds Q0) Met (stage_leftovers ops acked_through budget s) after_leftovers
          (stage_leftovers-Finish s h)
          λ s1 q1.
            bind-Finish (Holds Q1) Met (stage_count ops acked_through budget cfg reserve s1)
              after_count (stage_count-Finish s1 q1)
              λ s2 q2.
                bind-Finish (Holds Q2) Met (stage_tier_a ops acked_through budget cfg s2)
                  after_tier_a (stage_tier_a-Finish s2 q2) stage_used-Finish
      where
        after_tier_a : Run C → Flow (Run C)
        after_tier_a = stage_used ops acked_through budget cfg

        after_count : Run C → Flow (Run C)
        after_count s = stage_tier_a ops acked_through budget cfg s >>= after_tier_a

        after_leftovers : Run C → Flow (Run C)
        after_leftovers s = stage_count ops acked_through budget cfg reserve s >>= after_count

    -- A retention call that does not ask to be called again has deleted every acked crash leftover,
    -- has the known Tier A bytes (below 2^32 at the start) within their share or no Tier A file left
    -- to delete, and meets the limits on the number of files and on the used bytes, or reports that
    -- it is stuck with nothing but active files.
    pub enforce_retention_limits :
        (t : FsTable) (c : C)
        → tier_a_total t.v < 2 ^ 32
        → (enforce_retention ops acked_through budget t c cfg reserve).2.more ≡ false
        → let (t', c', r) = enforce_retention ops acked_through budget t c cfg reserve in
          All (λ e. is_leftover acked_through e ≡ false) t'.v
          × ((tier_a_total t'.v ≤ cfg.tier_a_cap_bytes) ⊎ All NoTierA t'.v)
          × (((count t' ≤ limit) × (ops.used_bytes c' ≤ cfg.used_limit_bytes))
              ⊎ ((r.stuck ≡ true) × All Active t'.v))
    unfolding enforce_retention
    enforce_retention_limits t c h more =
        let q =
          Finish-more Met _ (stages-Finish (record { t = t; ctx = c; r = no_result }) h) more in
        (q.0.0.0.0, q.0.1, both q.0.0.1 q.1)
      where
        both : {A B D : Type 0} → A ⊎ D → B ⊎ D → (A × B) ⊎ D
        both (inl a) (inl b) = inl (a, b)
        both (inl a) (inr d) = inr d
        both (inr d) b = inr d
