-- ===== src/FsIndex/Scan/Complete.antt =====
-- The boot scan leaves every file of the directory in the index, or reports what lost its slot.
use mathlib.Core.Path.{subst}
use cardiag.Base.{
  Bool, Bool-cases, List, Option, Option-cases, arith, false, get_elem?, get_or-get_elem?, inl, inr,
  length-set, none, not, refl, set, some, true, u32, ℕ, ◌&&◌, ◌+◌, ◌==◌, ◌||◌, ◌≡◌, ◌⊎◌,
}
use cardiag.FsIndex.Table.{FsEntry, FsTable, Grow, blank, find, add_or_evict}
use cardiag.FsIndex.Table.Add.{has, IsValid, has-get_elem?, find_cases}
use cardiag.FsIndex.Table.Evict.{
  gave, add_or_evict-IsValid, add_or_evict_accounts, Distinct-set, has-set,
}
use cardiag.FsIndex.Scan.{
  FsExt, FsName, Scanned, FsScanStats, FsScanResult, is_log, is_meta, from_name, parse_name,
  scan_feed, skip, added, evict, complete_at, feed_file, report,
}

-- Completing an entry leaves the table or sets the entry to one with the same index.
complete_at_cases :
    (t : FsTable) (k : ℕ) (ext : FsExt) (x : FsEntry)
    → get_elem? t.v k ≡ some x
    → (complete_at t k ext ≡ t)
      ⊎ ((e : FsEntry) × (e.index ≡ x.index) × (complete_at t k ext ≡ record t { v = set t.v k e }))
unfolding complete_at
complete_at_cases t k ext x g =
    rw (get_or-get_elem? t.v k (blank 0) g) (elim (Bool-cases (x.closed || not (is_log ext))) [
      | inl kept ↦ inl (rw kept)
      | inr done ↦ inr (record x { closed = true; hydrated = false }, refl, rw done)
    ])

-- What one feed reports as evicted, if anything.
abbrev pub lost_by : FsScanResult → Option FsEntry
lost_by (evict x) = some x
lost_by _ = none

-- A step from one table to the next that took in index `i` and gave up what it reports.
pub record Step (i : ℕ) (t t' : FsTable) (lost : Option FsEntry) : Type 0 where
  pub valid : IsValid t'
  pub kept : (j : ℕ) → (i == j || has j t.v) ≡ (has j t'.v || gave j lost)
  pub gone : (j : ℕ) → (gave j lost && has j t'.v) ≡ false

replaced-Step :
    (t : FsTable) (k : ℕ) (e x : FsEntry)
    → IsValid t
    → get_elem? t.v k ≡ some x
    → e.index ≡ x.index
    → Step x.index t (record t { v = set t.v k e }) none
replaced-Step t k e x v g same = record {
  valid = ground (arith, length-set t.v k e, Distinct-set t.v k e x v.distinct g);
  kept = λ j. ground (arith, has-set t.v k j e x v.distinct g);
  gone = λ j. refl;
}

add_or_evict-Step :
    (grow : Grow) (t : FsTable) (e : FsEntry)
    → IsValid t
    → Step e.index t (add_or_evict grow t e).0 (add_or_evict grow t e).2
add_or_evict-Step grow t e v = record {
  valid = add_or_evict-IsValid grow t e v;
  kept = λ j. (add_or_evict_accounts grow t e j v).0;
  gone = λ j. (add_or_evict_accounts grow t e j v).1;
}

unchanged-Step :
    (t : FsTable) (k : ℕ) (x : FsEntry)
    → IsValid t
    → get_elem? t.v k ≡ some x
    → Step x.index t t none
unchanged-Step t k x v g = record {
  valid = v;
  kept = λ j. ground (arith, has-get_elem? t.v k g);
  gone = λ j. refl;
}

complete_at-Step :
    (t : FsTable) (k : ℕ) (ext : FsExt) (x : FsEntry)
    → IsValid t
    → get_elem? t.v k ≡ some x
    → Step x.index t (complete_at t k ext) none
complete_at-Step t k ext x v g = elim (complete_at_cases t k ext x g) [
  | inl e ↦ rw e (unchanged-Step t k x v g)
  | inr (e, same, p) ↦ rw p (replaced-Step t k e x v g same)
]

report-Step :
    (i : ℕ) (t : FsTable) (r : FsTable × Option ℕ × Option FsEntry) (st : FsScanStats)
    → Step i t r.0 r.2
    → Step i t (report r st).1 (lost_by (report r st).0)
report-Step i t (t', slot, none) st s = s
report-Step i t (t', slot, some x) st s = s

module _ (grow : Grow) (t : FsTable) (n : FsName) (st : FsScanStats) where
  feed_file-found :
      (k : ℕ)
      → find t n.index ≡ some k
      → feed_file grow t n st
        ≡ (added, complete_at t k n.ext, record st { duplicates = u32 (st.duplicates + 1) })
  unfolding feed_file
  feed_file-found k f = rw (f, feed_file)

  feed_file-absent :
      find t n.index ≡ none → feed_file grow t n st ≡ report (add_or_evict grow t (from_name n)) st
  unfolding feed_file
  feed_file-absent f = rw (f, feed_file)

  feed_file-Step :
      IsValid t → Step n.index t (feed_file grow t n st).1 (lost_by (feed_file grow t n st).0)
  feed_file-Step v = elim (find_cases t n.index) [
    | inr (k, x, f, g, same) ↦
        rw (feed_file-found k f) (
          subst (λ i. Step i t (complete_at t k n.ext) none) same
            (complete_at-Step t k n.ext x v g))
    | inl (f, h) ↦ rw (feed_file-absent f) (
        report-Step n.index t (add_or_evict grow t (from_name n)) st
          (add_or_evict-Step grow t (from_name n) v))
  ]

module _ (sscanf : List ℕ → Scanned) where
  -- Whether a directory name is one of our files with index `j`, a sidecar left out.
  abbrev pub names : ℕ → List ℕ → Bool
  names j base = elim (parse_name sscanf base) [
    | none ↦ false
    | some n ↦ not (is_meta n.ext) && n.index == j
  ]

  pub record Feed (base : List ℕ) (t t' : FsTable) (lost : Option FsEntry) : Type 0 where
    pub valid : IsValid t'
    pub kept : (j : ℕ) → (names j base || has j t.v) ≡ (has j t'.v || gave j lost)
    pub gone : (j : ℕ) → (gave j lost && has j t'.v) ≡ false

  parse_cases :
      (base : List ℕ)
      → ((parse_name sscanf base ≡ none) × ((j : ℕ) → names j base ≡ false))
        ⊎ ((n : FsName) × (parse_name sscanf base ≡ some n)
            × ((j : ℕ) → names j base ≡ (not (is_meta n.ext) && n.index == j)))
  parse_cases base = elim (Option-cases (parse_name sscanf base)) [
    | inl e ↦ inl (e, λ j. rw (e, names))
    | inr (n, e) ↦ inr (n, e, λ j. rw (e, names))
  ]

  -- A feed that is no file changes no table.
  skipped-Feed :
      (base : List ℕ) (t : FsTable)
      → IsValid t
      → ((j : ℕ) → names j base ≡ false)
      → Feed base t t none
  skipped-Feed base t v no_name = record {
    valid = v;
    kept = λ j. ground (arith, no_name j);
    gone = λ j. refl;
  }

  file-Feed :
      (base : List ℕ) (n : FsName) (t t' : FsTable) (lost : Option FsEntry)
      → ((j : ℕ) → names j base ≡ (n.index == j))
      → Step n.index t t' lost
      → Feed base t t' lost
  file-Feed base n t t' lost name s = record {
    valid = s.valid;
    kept = λ j. ground (arith, name j, s.kept j);
    gone = s.gone;
  }

  module _ (grow : Grow) (t : FsTable) (base : List ℕ) (st : FsScanStats) where
    feed-unparsed :
        parse_name sscanf base ≡ none
        → scan_feed sscanf grow t base st ≡ (
          skip,
          t,
          record st { entries = u32 (st.entries + 1); unparsed = u32 (st.unparsed + 1) },
        )
    unfolding scan_feed
    feed-unparsed e = rw (e, scan_feed)

    feed-meta :
        (n : FsName)
        → parse_name sscanf base ≡ some n
        → is_meta n.ext ≡ true
        → scan_feed sscanf grow t base st
          ≡ (skip, t, record st { entries = u32 (st.entries + 1); metas = u32 (st.metas + 1) })
    unfolding scan_feed
    feed-meta n e m = rw (e, scan_feed) (rw m)

    feed-named :
        (n : FsName)
        → parse_name sscanf base ≡ some n
        → is_meta n.ext ≡ false
        → scan_feed sscanf grow t base st
          ≡ feed_file grow t n
              (record st { entries = u32 (st.entries + 1); files = u32 (st.files + 1) })
    unfolding scan_feed
    feed-named n e m = rw (e, scan_feed) (rw m)

    pub scan_feed-Feed :
        IsValid t
        → Feed base t
            (scan_feed sscanf grow t base st).1
            (lost_by (scan_feed sscanf grow t base st).0)
    scan_feed-Feed v = elim (parse_cases base) [
      | inl (e, no_name) ↦ rw (feed-unparsed e) (skipped-Feed base t v no_name)
      | inr (n, e, name) ↦ elim (Bool-cases (is_meta n.ext)) [
        | inl m ↦ rw (feed-meta n e m) (skipped-Feed base t v (λ j. ground (arith, name j)))
        | inr m ↦
            rw (feed-named n e m)
              (file-Feed base n t _ _ (λ j. ground (arith, name j)) (feed_file-Step grow t n _ v))
      ]
    ]
