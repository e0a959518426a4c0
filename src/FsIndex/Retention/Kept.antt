-- ===== src/FsIndex/Retention/Kept.antt =====
-- What a whole retention call keeps: the active files, the order, and the count of what it deleted.
use cardiag.Base.{Bool, List, ap, arith, false, keep_if, refl, ℕ, ◌+◌, ◌<◌, ◌^◌, ◌∙◌, ◌≡◌, ◌≤◌}
use cardiag.FsIndex.Table.{FsEntry, FsTable, count, blank}
use cardiag.FsIndex.Table.Sort.{Ascending}
use cardiag.FsIndex.Retention.{
  FsRetentionCfg, FsRetentionOps, FsRetentionResult, no_result, Run, count_evicted, evict_at,
  enforce_retention, entry_at,
}
use cardiag.FsIndex.Retention.Evict.{
  length-remove_at, keep_if-remove_at, Ascending-remove_at, evict_at-t, evict_at-r, Keeps,
  stages-keeps,
}

abbrev pub active : List FsEntry → List FsEntry
active = keep_if (λ e. e.active)

module _ {C : Type 0} (ops : FsRetentionOps C) (acked_through budget : ℕ)
    (small : budget < 2 ^ 16) where
  -- The state of a call that began with the table `t`.
  record Kept (t : FsTable) (s : Run C) : Type 0 where
    active_same : active s.t.v ≡ active t.v
    ordered : Ascending t.v → Ascending s.t.v
    same_cap : s.t.cap ≡ t.cap
    counted : s.r.evicted + count s.t ≡ count t
    in_budget : s.r.evicted ≤ budget
    shares : s.r.evicted ≡ s.r.evicted_acked + s.r.evicted_unacked

  -- The flags and the leftover count are not part of it.
  relabel :
      (t : FsTable) (s : Run C) (r : FsRetentionResult)
      → r.evicted ≡ s.r.evicted
      → r.evicted_acked ≡ s.r.evicted_acked
      → r.evicted_unacked ≡ s.r.evicted_unacked
      → Kept t s
      → Kept t (record s { r = r })
  relabel t s r e a u k = record {
    active_same = k.active_same;
    ordered = k.ordered;
    same_cap = k.same_cap;
    counted = omega (arith, k.counted);
    in_budget = omega (arith, k.in_budget);
    shares = omega (arith, k.shares);
  }

  count_evicted_shares :
      (r : FsRetentionResult) (acked : Bool)
      → r.evicted < budget
      → r.evicted ≡ r.evicted_acked + r.evicted_unacked
      → let q = count_evicted r acked in q.evicted ≡ q.evicted_acked + q.evicted_unacked
  count_evicted_shares r acked b h = ground arith

  evict_at-Kept :
      (t : FsTable) (s : Run C) (i : ℕ)
      → i < count s.t
      → (entry_at s i).active ≡ false
      → s.r.evicted < budget
      → Kept t s
      → Kept t (evict_at ops acked_through i s)
  evict_at-Kept t s i lt off b k =
      let at = evict_at-t ops acked_through budget s i lt in
      let (acked, r) = evict_at-r ops acked_through budget s i in
      record {
        active_same =
            ap (λ x. active x.v) at
            ∙ keep_if-remove_at (λ e. e.active) s.t.v i (blank 0) lt off
            ∙ k.active_same;
        ordered = λ a. rw at (Ascending-remove_at s.t.v i (k.ordered a));
        same_cap = ap (λ x. x.cap) at ∙ k.same_cap;
        counted = rw (at, r) (omega (arith, length-remove_at s.t.v i lt, k));
        in_budget = rw r (omega arith);
        shares = rw r (count_evicted_shares s.r acked b k.shares);
      }

  Kept-Keeps : (t : FsTable) → Keeps ops acked_through budget (Kept t)
  Kept-Keeps t = record {
    evicting = evict_at-Kept t;
    leftover = λ s i lt off b k. relabel t _ _ refl refl refl (evict_at-Kept t s i lt off b k);
    more = λ s k. relabel t s _ refl refl refl k;
    stuck = λ s k. relabel t s _ refl refl refl k;
  }

  -- On a table in ascending order, one call of the policy (with a budget that a uint16_t holds)
  -- leaves every active file in the table, in order; keeps the order and the capacity; deletes as
  -- many entries as it reports, at most the budget, and reports each as acked or unacked.
  pub enforce_retention_keeps :
      (t : FsTable) (c : C) (cfg : FsRetentionCfg) (reserve : ℕ)
      → Ascending t.v
      → let (t', c', r) = enforce_retention ops acked_through budget t c cfg reserve in
        (active t'.v ≡ active t.v)
        × Ascending t'.v
        × (t'.cap ≡ t.cap)
        × (r.evicted + count t' ≡ count t)
        × (r.evicted ≤ budget)
        × (r.evicted ≡ r.evicted_acked + r.evicted_unacked)
  unfolding enforce_retention
  enforce_retention_keeps t c cfg reserve asc =
      let k =
        stages-keeps ops acked_through budget (Kept t) (Kept-Keeps t) cfg reserve begin fresh in
      (k.active_same, k.ordered asc, k.same_cap, k.counted, k.in_budget, k.shares)
    where
      begin : Run C
      begin = record { t = t; ctx = c; r = no_result }

      fresh : Kept t begin
      fresh = record {
        active_same = refl;
        ordered = λ a. a;
        same_cap = refl;
        counted = omega arith;
        in_budget = omega arith;
        shares = omega arith;
      }
