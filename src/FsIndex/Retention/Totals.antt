-- ===== src/FsIndex/Retention/Totals.antt =====
-- The Tier A bytes of a table, and what it means that a picker finds nothing.
use cardiag.Base.{
  All, Bool-cases, List, [], arith, get_or, if◌then◌else◌, inl, inr, length, suc, true, u32, zero,
  ℕ, ◌+◌, ◌<◌, ◌^◌, ◌∷◌, ◌≡◌, ◌≢◌, ◌≤◌, ◌⊎◌,
}
use cardiag.FsIndex.Table.{FsEntry, FsTable, count, blank, remove_at}
use cardiag.FsIndex.Retention.{
  tier_raw, tier_for_kind, counts_as_a, tier_a_bytes, pick_victim, pick_tier_a_victim, tier_a_from,
}
use cardiag.FsIndex.Retention.Pick.{pick_victim_first, pick_tier_a_victim_order}

-- The Tier A bytes that are known, with no wrap.
abbrev pub tier_a_total : List FsEntry → ℕ
tier_a_total [] = 0
tier_a_total (e ∷ v) = (if counts_as_a e then e.bytes else 0) + tier_a_total v

tier_a_from-total :
    (v : List FsEntry) (sum : ℕ)
    → sum + tier_a_total v < 2 ^ 32
    → tier_a_from v sum ≡ sum + tier_a_total v
unfolding tier_a_from
tier_a_from-total [] sum h = omega arith
tier_a_from-total (e ∷ v) sum h =
    ground (arith, tier_a_from-total v (if counts_as_a e then u32 (sum + e.bytes) else sum))

-- While the known Tier A bytes fit in 32 bits, `fsTierABytes` is their sum.
pub tier_a_bytes-total :
    (t : FsTable) → tier_a_total t.v < 2 ^ 32 → tier_a_bytes t ≡ tier_a_total t.v
unfolding tier_a_bytes
tier_a_bytes-total t h = omega (arith, tier_a_from-total t.v 0 (omega arith))

pub tier_a_total-remove_at :
    (v : List FsEntry) (i : ℕ) → tier_a_total (remove_at v i) ≤ tier_a_total v
tier_a_total-remove_at [] i = omega arith
tier_a_total-remove_at (e ∷ v) zero = omega arith
tier_a_total-remove_at (e ∷ v) (suc i) = omega (arith, tier_a_total-remove_at v i)

abbrev pub Active : FsEntry → Type 0
Active e = e.active ≡ true

-- Nothing of Tier A that could be deleted.
abbrev pub NoTierA : FsEntry → Type 0
NoTierA e = (e.active ≡ true) ⊎ (tier_for_kind e.kind ≢ tier_raw)

module _ (P : FsEntry → Type 0) where
  All-of_at : (v : List FsEntry) → ((j : ℕ) → j < length v → P (get_or v j (blank 0))) → All P v
  All-of_at [] h = tt
  All-of_at (e ∷ v) h = (h 0 (omega arith), All-of_at v (λ j lt. h (suc j) (omega arith)))

-- Where a picker finds nothing, every entry is active, or none that is not is of Tier A.
pub pick_victim-Active :
    (t : FsTable) (acked_through : ℕ) → pick_victim t acked_through ≡ count t → All Active t.v
pick_victim-Active t acked_through e = All-of_at Active t.v λ j lt.
    elim (Bool-cases (get_or t.v j (blank 0)).active) [
      | inl on ↦ on
      | inr off ↦ absurd (omega (arith, pick_victim_first t acked_through (blank 0) j lt off))
    ]

pub no_tier_a :
    (t : FsTable) (acked_through : ℕ)
    → pick_tier_a_victim t acked_through ≡ count t
    → All NoTierA t.v
no_tier_a t acked_through e = All-of_at NoTierA t.v λ j lt.
    elim (Bool-cases (get_or t.v j (blank 0)).active) [
      | inl on ↦ inl on
      | inr off ↦
          inr
            λ tier. omega (arith, pick_tier_a_victim_order t acked_through (blank 0) j lt off tier)
    ]
