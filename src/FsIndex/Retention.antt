-- ===== src/FsIndex/Retention.antt =====
-- The retention policy of fsindex.cpp: which file goes next, and the loop that makes room.
pub mod Pick
pub mod Evict
pub mod Kept
pub mod Loops
pub mod Totals
pub mod Limits
use cardiag.Base.{
  Bool, List, Option, [], false, get_or, iff, if◌then◌else◌, le_i32, leb, length, ltb, none, not,
  some, suc, true, u16, u32, zero, ℕ, ◌&&◌, ◌+◌, ◌-◌, ◌==◌, ◌||◌, ◌∷◌,
}
use cardiag.FsIndex.Table.{
  FsEntry, FsTable, count, Grow, table_hard_max, entry_size, init, blank, find, grow_table, add,
  remove_at, drop_entry, sort, make_room, place, add_or_evict,
}
use cardiag.FsIndex.Scan.{kind_snapshot, kind_bookend}

abbrev pub tier_raw : ℕ
tier_raw = b'A'

abbrev pub tier_snapshot : ℕ
tier_snapshot = b'B'

abbrev pub tier_bookend : ℕ
tier_bookend = b'C'

-- `fsTierForKind` (filestore.h)
abbrev pub tier_for_kind : ℕ → ℕ
tier_for_kind kind =
    if kind == kind_snapshot
    then tier_snapshot
    else if kind == kind_bookend
    then tier_bookend
    else tier_raw

-- `isAcked`; the watermark is an int32_t.
abbrev pub is_acked : FsEntry → ℕ → Bool
is_acked e acked_through = le_i32 e.index acked_through

-- `fsCountOpen`: open files of this boot, and crash leftovers, in uint16_t.
count_open_from : List FsEntry → ℕ → ℕ → ℕ × ℕ
count_open_from [] open_ stale = (open_, stale)
count_open_from (e ∷ v) open_ stale =
    count_open_from v (if not e.closed && e.active then u16 (open_ + 1) else open_)
      (if not e.closed && not e.active then u16 (stale + 1) else stale)

unfoldable pub count_open : FsTable → ℕ × ℕ
unfolding count_open_from
count_open t = count_open_from t.v 0 0

-- Whether an entry's bytes are known and count as Tier A.
abbrev pub counts_as_a : FsEntry → Bool
counts_as_a e = e.hydrated && tier_for_kind e.kind == tier_raw

tier_a_from : List FsEntry → ℕ → ℕ
tier_a_from [] sum = sum
tier_a_from (e ∷ v) sum = tier_a_from v (if counts_as_a e then u32 (sum + e.bytes) else sum)

-- `fsTierABytes`
unfoldable pub tier_a_bytes : FsTable → ℕ
unfolding tier_a_from
tier_a_bytes t = tier_a_from t.v 0

-- The position of the first entry that passes a test; the length when there is none.
abbrev pub first_index : (FsEntry → Bool) → List FsEntry → ℕ
first_index p [] = 0
first_index p (e ∷ v) = let rest = first_index p v in elim (p e) [ true ↦ 0 | false ↦ suc rest ]

-- The rounds over `kOrder`.
by_tier : List ℕ → List FsEntry → ℕ
by_tier [] v = length v
by_tier (tier ∷ tiers) v =
    let rest = by_tier tiers v in
    let i = first_index (λ e. not e.active && tier_for_kind e.kind == tier) v in
    if ltb i (length v) then i else rest

-- `fsPickVictim`
unfoldable pub pick_victim : FsTable → ℕ → ℕ
unfolding by_tier
pick_victim t acked_through =
    let i = first_index (λ e. not e.active && is_acked e acked_through) t.v in
    if ltb i (count t) then i else by_tier (tier_raw ∷ tier_snapshot ∷ tier_bookend ∷ []) t.v

-- One pass of `fsPickTierAVictim`.
abbrev pub tier_a_pass : FsTable → ℕ → Bool → ℕ
tier_a_pass t acked_through want_acked =
    first_index
      (λ e.
        not e.active
        && (tier_for_kind e.kind == tier_raw && iff (is_acked e acked_through) want_acked))
      t.v

-- `fsPickTierAVictim`
unfoldable pub pick_tier_a_victim : FsTable → ℕ → ℕ
pick_tier_a_victim t acked_through =
    let i = tier_a_pass t acked_through true in
    if ltb i (count t) then i else tier_a_pass t acked_through false

-- `struct FsRetentionCfg`
pub record FsRetentionCfg : Type 0 where
  pub max_files : ℕ
  pub tier_a_cap_bytes : ℕ
  pub used_limit_bytes : ℕ

-- `struct FsRetentionOps`, over the state behind `ctx`.
pub record FsRetentionOps (C : Type 0) : Type 0 where
  pub hydrate : Option (C → FsEntry → C × FsEntry)
  pub remove : C → FsEntry → Bool → C
  pub used_bytes : C → ℕ

-- `struct FsRetentionResult`
pub record FsRetentionResult : Type 0 where
  pub evicted : ℕ
  pub evicted_acked : ℕ
  pub evicted_unacked : ℕ
  pub more : Bool
  pub stuck : Bool
  pub leftovers : ℕ

abbrev pub no_result : FsRetentionResult
no_result = record {
  evicted = 0;
  evicted_acked = 0;
  evicted_unacked = 0;
  more = false;
  stuck = false;
  leftovers = 0;
}

-- The variables of one `fsEnforceRetention` call.
pub record Run (C : Type 0) : Type 0 where
  pub t : FsTable
  pub ctx : C
  pub r : FsRetentionResult

-- Whether the call goes on with the next stage or has returned.
pub data Flow (S : Type 0) : Type 0 where
  go stop : S → Flow S

infixl 5 ◌>>=◌
abbrev pub ◌>>=◌ : {S : Type 0} → Flow S → (S → Flow S) → Flow S
go s >>= f = f s
stop s >>= f = stop s

abbrev pub final : {S : Type 0} → Flow S → S
final (go s) = s
final (stop s) = s

abbrev pub count_evicted : FsRetentionResult → Bool → FsRetentionResult
count_evicted r acked = record r {
  evicted = u16 (r.evicted + 1);
  evicted_acked = if acked then u16 (r.evicted_acked + 1) else r.evicted_acked;
  evicted_unacked = if acked then r.evicted_unacked else u16 (r.evicted_unacked + 1);
}

module _ {C : Type 0} where
  abbrev pub entry_at : Run C → ℕ → FsEntry
  entry_at s i = get_or s.t.v i (blank 0)

  abbrev pub set_more : Run C → Run C
  set_more s = record s { r = record s.r { more = true } }

  abbrev pub set_stuck : Run C → Run C
  set_stuck s = record s { r = record s.r { stuck = true } }

  abbrev pub add_leftover : Run C → Run C
  add_leftover s = record s { r = record s.r { leftovers = u16 (s.r.leftovers + 1) } }

-- An acked .part of an earlier boot.
abbrev pub is_leftover : ℕ → FsEntry → Bool
is_leftover acked_through e = not (e.closed || (e.active || not (is_acked e acked_through)))

module _ {C : Type 0} (ops : FsRetentionOps C) (acked_through : ℕ) where
  -- The entry read from disk, if it was not yet and there is a function for it.
  abbrev pub hydrated_at : C → FsEntry → C × FsEntry
  hydrated_at c e = elim ops.hydrate [
    | none ↦ (c, e)
    | some hydrate ↦ if e.hydrated then (c, e) else hydrate c e
  ]

  -- `evictAt`
  unfoldable pub evict_at : ℕ → Run C → Run C
  evict_at i s =
      let (c, e) = hydrated_at s.ctx (entry_at s i) in
      let acked = is_acked e acked_through in
      record { t = drop_entry s.t i; ctx = ops.remove c e acked; r = count_evicted s.r acked }

  module _ (budget : ℕ) where
    -- Stage 0, with `i` the loop variable. The fuel is the number of entries left to look at.
    unfoldable pub leftover_loop : ℕ → ℕ → Run C → Flow (Run C)
    leftover_loop zero i s = go s
    leftover_loop (suc fuel) i s = elim (ltb i (count s.t)) [
      | false ↦ go s
      | true ↦ elim (is_leftover acked_through (entry_at s i)) [
        | false ↦ leftover_loop fuel (i + 1) s
        | true ↦ elim (leb budget s.r.evicted) [
          | true ↦ stop (set_more s)
          | false ↦ leftover_loop fuel i (add_leftover (evict_at i s))
        ]
      ]
    ]

    -- The shape of stages 1 to 3: while over a limit, stop at the budget, pick, evict. `none_left`
    -- says what the stage does when nothing can be picked.
    unfoldable pub evict_while :
        (Run C → Bool) → (FsTable → ℕ → ℕ) → (Run C → Run C) → ℕ → Run C → Flow (Run C)
    evict_while over pick none_left zero s = go s
    evict_while over pick none_left (suc fuel) s = elim (over s) [
      | false ↦ go s
      | true ↦ elim (leb budget s.r.evicted) [
        | true ↦ stop (set_more s)
        | false ↦ elim (pick s.t acked_through == count s.t) [
          | true ↦ go (none_left s)
          | false ↦ evict_while over pick none_left fuel (evict_at (pick s.t acked_through) s)
        ]
      ]
    ]

    abbrev pub count_limit : FsRetentionCfg → ℕ → ℕ
    count_limit cfg reserve = if ltb reserve cfg.max_files then cfg.max_files - reserve else 0

    abbrev pub over_count : FsRetentionCfg → ℕ → Run C → Bool
    over_count cfg reserve s = ltb (count_limit cfg reserve) (count s.t)

    abbrev pub over_tier_a : FsRetentionCfg → Run C → Bool
    over_tier_a cfg s = ltb cfg.tier_a_cap_bytes (tier_a_bytes s.t)

    abbrev pub over_used : FsRetentionCfg → Run C → Bool
    over_used cfg s = ltb cfg.used_limit_bytes (ops.used_bytes s.ctx)

    -- Each eviction drops an entry, so one round more than there are entries is fuel enough.
    abbrev pub rounds : Run C → ℕ
    rounds s = count s.t + 1

    abbrev pub stage_leftovers : Run C → Flow (Run C)
    stage_leftovers s = leftover_loop (rounds s) 0 s

    abbrev pub stage_count : FsRetentionCfg → ℕ → Run C → Flow (Run C)
    stage_count cfg reserve s =
        evict_while (over_count cfg reserve) pick_victim set_stuck (rounds s) s

    abbrev pub stage_tier_a : FsRetentionCfg → Run C → Flow (Run C)
    stage_tier_a cfg s = evict_while (over_tier_a cfg) pick_tier_a_victim (λ x. x) (rounds s) s

    abbrev pub stage_used : FsRetentionCfg → Run C → Flow (Run C)
    stage_used cfg s = evict_while (over_used cfg) pick_victim set_stuck (rounds s) s

    unfoldable pub stages : FsRetentionCfg → ℕ → Run C → Flow (Run C)
    stages cfg reserve s = do
      s1 ← stage_leftovers s
      s2 ← stage_count cfg reserve s1
      s3 ← stage_tier_a cfg s2
      stage_used cfg s3

    -- `fsEnforceRetention`
    unfoldable pub enforce_retention :
        FsTable → C → FsRetentionCfg → ℕ → FsTable × C × FsRetentionResult
    enforce_retention t c cfg reserve =
        let s = final (stages cfg reserve (record { t = t; ctx = c; r = no_result })) in
        (s.t, s.ctx, s.r)
