-- ===== src/FsIndex/Scan/Run.antt =====
-- The whole boot scan: every name of the directory is fed in turn.
use cardiag.Base.{Bool, List, [], arith, false, refl, ℕ, ◌||◌, ◌∷◌, ◌≡◌}
use cardiag.FsIndex.Table.{FsEntry, FsTable}
use cardiag.FsIndex.Table.Add.{has, IsValid}
use cardiag.FsIndex.Table.Evict.{gave}
use cardiag.FsIndex.Scan.{Scanned, FsScanStats, FsScanResult, scan_feed, skip, added, evict, Grow}
use cardiag.FsIndex.Scan.Complete.{lost_by, names, scan_feed-Feed}

abbrev cons_lost : FsScanResult → List FsEntry → List FsEntry
cons_lost (evict x) xs = x ∷ xs
cons_lost _ xs = xs

-- One directory entry, and what the allocator answers while it is read.
abbrev pub Visit : Type 0
Visit = Grow × List ℕ

module _ (sscanf : List ℕ → Scanned) where
  -- The loop over readdir(): the final table and counts, and what was evicted on the way.
  unfoldable pub scan : List Visit → FsTable → FsScanStats → FsTable × FsScanStats × List FsEntry
  scan [] t st = (t, st, [])
  scan ((grow, base) ∷ rest) t st =
      let (res, t', st') = scan_feed sscanf grow t base st in
      let (t'', st'', lost) = scan rest t' st' in (t'', st'', cons_lost res lost)

  -- Whether some name of the directory is a file with index `j`.
  abbrev pub listed : ℕ → List Visit → Bool
  listed j [] = false
  listed j ((grow, base) ∷ rest) = names sscanf j base || listed j rest

  has-cons_lost :
      (j : ℕ) (res : FsScanResult) (lost : List FsEntry)
      → has j (cons_lost res lost) ≡ (gave j (lost_by res) || has j lost)
  has-cons_lost j (evict x) lost = refl
  has-cons_lost j skip lost = refl
  has-cons_lost j added lost = refl

  -- Every file of the directory is in the index after the scan, or was reported as evicted; and the
  -- index and the reports hold nothing else than the table before and the directory. The table
  -- stays well formed, whatever the allocator answers at each step.
  pub scan_complete :
      (dir : List Visit) (t : FsTable) (st : FsScanStats)
      → IsValid t
      → let (t', st', lost) = scan dir t st in
        IsValid t' × ((j : ℕ) → (listed j dir || has j t.v) ≡ (has j t'.v || has j lost))
  unfolding scan
  scan_complete [] t st v = (v, λ j. ground arith)
  scan_complete ((grow, base) ∷ rest) t st v =
      let (res, t', st') = scan_feed sscanf grow t base st in
      let fed = scan_feed-Feed sscanf grow t base st v in
      let (v', all) = scan_complete rest t' st' fed.valid in
      (v', λ j. ground (arith, fed.kept j, all j, has-cons_lost j res (scan rest t' st').2))
