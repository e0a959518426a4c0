-- ===== src/Examples/Store.antt =====
-- A small file store: three files and a disk that counts bytes.
use mathlib.Core.List.{Perm}
use cardiag.Base.{
  All, Bool, List, [], arith, false, get_or, map, none, refl, some, true, ℕ, ◌&&◌, ◌+◌, ◌-◌, ◌<◌,
  ◌||◌, ◌∷◌, ◌≡◌, ◌≤◌, ◌⊎◌, ◌↔◌,
}
use cardiag.FsIndex.Table.{
  FsEntry, FsTable, count, Grow, blank, find, grow_table, add, drop_entry, sort, make_room,
  add_or_evict,
}
use cardiag.FsIndex.Table.Add.{has, IsValid}
use cardiag.FsIndex.Table.Evict.{
  gave, add_or_evict-IsValid, add_or_evict_accounts, Loser, add_or_evict_oldest,
}
use cardiag.FsIndex.Table.Sort.{Ascending, sort_lem}
use cardiag.FsIndex.Scan.{Scanned, no_stats}
use cardiag.FsIndex.Scan.Run.{scan, listed, scan_complete, Visit}
use cardiag.FsIndex.Retention.{
  tier_a_bytes, pick_victim, pick_tier_a_victim, FsRetentionCfg, FsRetentionOps, is_leftover,
  evict_at, leftover_loop, evict_while, stages, enforce_retention,
}
use cardiag.FsIndex.Retention.Pick.{rank, pick_victim_order}
use cardiag.FsIndex.Retention.Kept.{active, enforce_retention_keeps}
use cardiag.FsIndex.Retention.Totals.{tier_a_total, Active, NoTierA}
use cardiag.FsIndex.Retention.Limits.{enforce_retention_limits}

abbrev file : ℕ → ℕ → Bool → Bool → FsEntry
file i kind closed on = record (blank i) {
  kind = kind;
  closed = closed;
  active = on;
  bytes = 100;
  hydrated = true;
}

-- A closed change log, a crash leftover of a snapshot and the open bookend.
abbrev store : FsTable
store = record {
  v = file 3 b'c' true false ∷ file 5 b's' false false ∷ file 8 b'b' false true ∷ [];
  cap = 3;
}

abbrev disk : FsRetentionOps ℕ
disk = record { hydrate = none; remove = λ used e acked. used - e.bytes; used_bytes = λ used. used }

abbrev cfg : FsRetentionCfg
cfg = record { max_files = 2; tier_a_cap_bytes = 50; used_limit_bytes = 150 }

-- File 3 is acked: it goes for the count, file 5 for the used bytes.
run_example :
    let (t, used, r) = enforce_retention disk 3 10 store 300 cfg 0 in
    (map (λ e. e.index) t.v ≡ 8 ∷ [])
    × (used ≡ 100)
    × (r.evicted_acked ≡ 1)
    × (r.evicted_unacked ≡ 1)
    × (r.more ≡ false)
unfolding enforce_retention stages leftover_loop evict_while pick_victim pick_tier_a_victim evict_at
    drop_entry tier_a_bytes
run_example = (refl, refl, refl, refl, refl)

enforce_retention_limits_example :
    let (t', c', r) = enforce_retention disk 3 10 store 300 cfg 0 in
    All (λ e. is_leftover 3 e ≡ false) t'.v
    × ((tier_a_total t'.v ≤ 50) ⊎ All NoTierA t'.v)
    × (((count t' ≤ 2) × (c' ≤ 150)) ⊎ ((r.stuck ≡ true) × All Active t'.v))
enforce_retention_limits_example =
    enforce_retention_limits disk 3 10 cfg 0 store 300 (omega arith) run_example.4

enforce_retention_keeps_example :
    let (t', c', r) = enforce_retention disk 3 10 store 300 cfg 0 in
    (active t'.v ≡ active store.v)
    × Ascending t'.v
    × (t'.cap ≡ 3)
    × (r.evicted + count t' ≡ 3)
    × (r.evicted ≤ 10)
    × (r.evicted ≡ r.evicted_acked + r.evicted_unacked)
enforce_retention_keeps_example =
    enforce_retention_keeps disk 3 10 (omega arith) store 300 cfg 0 (omega arith)

abbrev at : ℕ → FsEntry
at j = get_or store.v j (blank 0)

pick_victim_order_example :
    let i = pick_victim store 3 in
    ((i ≡ 3) ↔ ((j : ℕ) → j < 3 → (at j).active ≡ true))
    × ((j : ℕ)
        → j < 3
        → (at j).active ≡ false
        → (i < 3)
          × ((at i).active ≡ false)
          × ((rank (at i) 3 < rank (at j) 3) ⊎ ((rank (at i) 3 ≡ rank (at j) 3) × (i ≤ j))))
pick_victim_order_example = pick_victim_order store 3 (blank 0)

store-IsValid : IsValid store
store-IsValid = record {
  fits = omega arith;
  small = omega arith;
  distinct = (refl, (refl, (refl, tt)));
}

-- The table is full and the allocator refuses: file 3, the oldest, loses its slot to file 6.
abbrev refusing : Grow
refusing = some (λ old new. false)

full_example :
    (add_or_evict refusing store (file 6 b's' true false)).2 ≡ some (file 3 b'c' true false)
unfolding add_or_evict add find grow_table make_room
full_example = refl

add_or_evict-IsValid_example : IsValid (add_or_evict refusing store (file 6 b's' true false)).0
add_or_evict-IsValid_example =
    add_or_evict-IsValid refusing store (file 6 b's' true false) store-IsValid

add_or_evict_accounts_example :
    let (t', slot, lost) = add_or_evict refusing store (file 6 b's' true false) in
    (true ≡ (has 3 t'.v || gave 3 lost)) × ((gave 3 lost && has 3 t'.v) ≡ false)
add_or_evict_accounts_example =
    add_or_evict_accounts refusing store (file 6 b's' true false) 3 store-IsValid

add_or_evict_oldest_example : Loser store (file 6 b's' true false) (file 3 b'c' true false)
add_or_evict_oldest_example =
    add_or_evict_oldest refusing store (file 6 b's' true false) (file 3 b'c' true false)
      store-IsValid full_example

abbrev shuffled : FsTable
shuffled = record { v = file 8 b'b' false true ∷ file 3 b'c' true false ∷ []; cap = 32 }

sort_lem_example :
    Ascending (sort shuffled).v × Perm (sort shuffled).v shuffled.v × ((sort shuffled).cap ≡ 32)
sort_lem_example = sort_lem shuffled

sort_runs : map (λ e. e.index) (sort shuffled).v ≡ 3 ∷ 8 ∷ []
unfolding sort
sort_runs = refl

-- A directory whose names are one byte, the index: `sscanf` reads a closed change log.
abbrev one_byte : List ℕ → Scanned
one_byte base = record {
  converted = 5;
  idx = get_or base 0 0;
  tier = b'A';
  kind = b'c';
  boot = 1;
  ext = b'l' ∷ b'o' ∷ b'g' ∷ [];
  consumed = 1;
}

abbrev directory : List Visit
directory = (refusing, 9 ∷ []) ∷ (none, 4 ∷ []) ∷ []

scan_complete_example :
    let (t', st', lost) = scan one_byte directory store no_stats in
    IsValid t'
    × ((j : ℕ) → (listed one_byte j directory || has j store.v) ≡ (has j t'.v || has j lost))
scan_complete_example = scan_complete one_byte directory store no_stats store-IsValid
