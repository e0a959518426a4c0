-- ===== src/FsIndex/Retention/Pick.antt =====
-- What the two pickers choose: the deletion order of the protocol.
use cardiag.Base.{
  ltb, Bool-cases, inl, inr, ◌↔◌, Bool, List, [], arith, false, get_or, iff, if◌then◌else◌, length,
  not, suc, true, zero, ℕ, ◌&&◌, ◌<◌, ◌==◌, ◌∷◌, ◌≡◌, ◌≤◌, ◌⊎◌,
}
use cardiag.FsIndex.Table.{FsEntry, FsTable, count, blank}
use cardiag.FsIndex.Retention.{
  tier_raw, tier_snapshot, tier_bookend, tier_for_kind, is_acked, first_index, pick_victim,
  pick_tier_a_victim,
}

module _ (p : FsEntry → Bool) where
  pub first_index-le : (v : List FsEntry) → first_index p v ≤ length v
  first_index-le [] = omega arith
  first_index-le (e ∷ v) = ground (arith, first_index-le v)

  -- What stands at the first index passes the test.
  pub first_index_hits :
      (v : List FsEntry) (d : FsEntry)
      → first_index p v < length v
      → p (get_or v (first_index p v) d) ≡ true
  first_index_hits [] d h = absurd (omega arith)
  first_index_hits (e ∷ v) d h = ground (arith, first_index_hits v d)

  -- Nothing before the first index passes it.
  pub first_index_least :
      (v : List FsEntry) (j : ℕ) (d : FsEntry)
      → j < length v
      → p (get_or v j d) ≡ true
      → first_index p v ≤ j
  first_index_least [] j d h t = absurd (omega arith)
  first_index_least (e ∷ v) zero d h t = ground arith
  first_index_least (e ∷ v) (suc j) d h t = ground (arith, first_index_least v j d)

-- The place of an entry in the deletion order: acked, then Tier A, then Tier B, then Tier C.
abbrev pub rank : FsEntry → ℕ → ℕ
rank e acked_through =
    if is_acked e acked_through
    then 0
    else if tier_for_kind e.kind == tier_raw
    then 1
    else if tier_for_kind e.kind == tier_snapshot
    then 2
    else 3

module _ (t : FsTable) (acked_through : ℕ) (d : FsEntry) where
  abbrev at : ℕ → FsEntry
  at j = get_or t.v j d

  abbrev evictable : ℕ → FsEntry → Bool
  evictable tier e = not e.active && tier_for_kind e.kind == tier

  abbrev acked_test : FsEntry → Bool
  acked_test e = not e.active && is_acked e acked_through

  -- What `fsPickVictim` points at when there is an entry that is not active.
  pub pick_victim_first :
      (j : ℕ)
      → j < count t
      → (at j).active ≡ false
      → let i = pick_victim t acked_through in
        (i < count t)
        × ((at i).active ≡ false)
        × ((rank (at i) acked_through < rank (at j) acked_through)
            ⊎ ((rank (at i) acked_through ≡ rank (at j) acked_through) × (i ≤ j)))
  unfolding pick_victim
  pick_victim_first j lt off = ground (
    arith,
    first_index_hits acked_test t.v d,
    first_index_least acked_test t.v j d,
    first_index_hits (evictable tier_raw) t.v d,
    first_index_least (evictable tier_raw) t.v j d,
    first_index_hits (evictable tier_snapshot) t.v d,
    first_index_least (evictable tier_snapshot) t.v j d,
    first_index_hits (evictable tier_bookend) t.v d,
    first_index_least (evictable tier_bookend) t.v j d,
  )

  abbrev tier_a_test : Bool → FsEntry → Bool
  tier_a_test want e =
      not e.active && (tier_for_kind e.kind == tier_raw && iff (is_acked e acked_through) want)

  -- `fsPickTierAVictim` points at a Tier A entry that is not active if there is one, and then every
  -- other such entry is unacked where the chosen one is acked, or alike and behind it.
  pub pick_tier_a_victim_order :
      (j : ℕ)
      → j < count t
      → (at j).active ≡ false
      → tier_for_kind (at j).kind ≡ tier_raw
      → let i = pick_tier_a_victim t acked_through in
        (i < count t)
        × ((at i).active ≡ false)
        × (tier_for_kind (at i).kind ≡ tier_raw)
        × ((rank (at i) acked_through < rank (at j) acked_through)
            ⊎ ((rank (at i) acked_through ≡ rank (at j) acked_through) × (i ≤ j)))
  unfolding pick_tier_a_victim
  pick_tier_a_victim_order j lt off tier = ground (
    arith,
    first_index_hits (tier_a_test true) t.v d,
    first_index_least (tier_a_test true) t.v j d,
    first_index_hits (tier_a_test false) t.v d,
    first_index_least (tier_a_test false) t.v j d,
  )

  -- What a picker points at inside the table is not active.
  pub pick_victim_off :
      pick_victim t acked_through < count t → (at (pick_victim t acked_through)).active ≡ false
  unfolding pick_victim
  pick_victim_off lt = ground (
    arith,
    first_index_hits acked_test t.v d,
    first_index_hits (evictable tier_raw) t.v d,
    first_index_hits (evictable tier_snapshot) t.v d,
    first_index_hits (evictable tier_bookend) t.v d,
  )

  pub pick_tier_a_victim_off :
      pick_tier_a_victim t acked_through < count t
      → (at (pick_tier_a_victim t acked_through)).active ≡ false
  unfolding pick_tier_a_victim
  pick_tier_a_victim_off lt =
      ground (
        arith,
        first_index_hits (tier_a_test true) t.v d,
        first_index_hits (tier_a_test false) t.v d,
      )

pub pick_victim-le : (t : FsTable) (acked_through : ℕ) → pick_victim t acked_through ≤ count t
unfolding pick_victim
pick_victim-le t acked_through = ground (
  arith,
  first_index-le (acked_test t acked_through (blank 0)) t.v,
  first_index-le (evictable t acked_through (blank 0) tier_raw) t.v,
  first_index-le (evictable t acked_through (blank 0) tier_snapshot) t.v,
  first_index-le (evictable t acked_through (blank 0) tier_bookend) t.v,
)

-- `fsPickVictim` points at no entry, the count, exactly when every entry is active. If an entry is
-- not active, it points at an entry that is not active, and that one comes before every other such
-- entry in the deletion order (acked, Tier A, Tier B, Tier C), or has the same place in it and does
-- not stand behind it.
pub pick_victim_order :
    (t : FsTable) (acked_through : ℕ) (d : FsEntry)
    → let i = pick_victim t acked_through in
      ((i ≡ count t) ↔ ((j : ℕ) → j < count t → (get_or t.v j d).active ≡ true))
      × ((j : ℕ)
          → j < count t
          → (get_or t.v j d).active ≡ false
          → (i < count t)
            × ((get_or t.v i d).active ≡ false)
            × ((rank (get_or t.v i d) acked_through < rank (get_or t.v j d) acked_through)
                ⊎ ((rank (get_or t.v i d) acked_through ≡ rank (get_or t.v j d) acked_through)
                    × (i ≤ j))))
pick_victim_order t acked_through d = (
  (
    λ none_found j lt. elim (Bool-cases (get_or t.v j d).active) [
      | inl on ↦ on
      | inr off ↦ absurd (omega (arith, pick_victim_first t acked_through d j lt off))
    ],
    λ all_on. all_active all_on,
  ),
  pick_victim_first t acked_through d,
)
  where
    all_active :
        ((j : ℕ) → j < count t → (get_or t.v j d).active ≡ true)
        → pick_victim t acked_through ≡ count t
    all_active on =
        let i = pick_victim t acked_through in
        let le = pick_victim-le t acked_through in
        elim (Bool-cases (ltb i (count t))) [
          | inl e ↦
              let lt : i < count t = ground arith in
              let a = on i lt in
              let b = pick_victim_off t acked_through d lt in absurd (ground arith)
          | inr e ↦ ground arith
        ]

pub pick_tier_a_victim-le :
    (t : FsTable) (acked_through : ℕ) → pick_tier_a_victim t acked_through ≤ count t
unfolding pick_tier_a_victim
pick_tier_a_victim-le t acked_through = ground (
  arith,
  first_index-le (tier_a_test t acked_through (blank 0) true) t.v,
  first_index-le (tier_a_test t acked_through (blank 0) false) t.v,
)
