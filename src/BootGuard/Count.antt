-- ===== src/BootGuard/Count.antt =====
-- The count of unfinished starts over sequences of boots.
use cardiag.Base.{
  All, Bool, List, [], ap, arith, false, if◌then◌else◌, length, max, min, none, refl, some, true, ℕ,
  ◌+◌, ◌<◌, ◌∙◌, ◌∷◌, ◌≡◌, Option, ◌≤◌, Option-cases, inl, inr,
}
use mathlib.Core.Path.{subst}
use cardiag.BootGuard.{
  bg_valid, bg_make, attempts_of, bg_prior_attempts, bg_on_start, Copies, bootguard_begin,
  bootguard_mark_start, Boot, unfinished, unfinished_all, bg_should_safe_mode, bootguard_clear,
  BgRecord, powered,
}

bg_make-attempts : (tag n : ℕ) → attempts_of (some (bg_make tag n)) tag ≡ n
unfolding attempts_of bg_valid bg_make
bg_make-attempts tag n = ground arith

-- `bg_on_start` saturates.
bg_on_start_lem : (n : ℕ) → n < 256 → bg_on_start n ≡ min 255 (n + 1)
unfolding bg_on_start
bg_on_start_lem n h = ground arith

begin_lem :
    (c : Copies) (tag : ℕ)
    → bootguard_begin c tag ≡ max (attempts_of (some c.rtc) tag) (attempts_of c.nvs tag)
unfolding bootguard_begin bg_prior_attempts
begin_lem c tag = ground arith

mark_start-rtc :
    (ok : Bool) (c : Copies) (tag n : ℕ)
    → attempts_of (some (bootguard_mark_start ok c tag n).rtc) tag ≡ bg_on_start n
unfolding bootguard_mark_start
mark_start-rtc ok c tag n = bg_make-attempts tag (bg_on_start n)

mark_start-nvs :
    (ok : Bool) (c : Copies) (tag n : ℕ)
    → attempts_of (bootguard_mark_start ok c tag n).nvs tag
      ≡ (if ok then bg_on_start n else attempts_of c.nvs tag)
unfolding bootguard_mark_start
mark_start-nvs true c tag n = bg_make-attempts tag (bg_on_start n)
mark_start-nvs false c tag n = refl

begin-mark_start :
    (ok : Bool) (c : Copies) (tag : ℕ)
    → bootguard_begin c tag < 256
    → bootguard_begin (bootguard_mark_start ok c tag (bootguard_begin c tag)) tag
      ≡ min 255 (bootguard_begin c tag + 1)
begin-mark_start ok c tag h =
    let n = bootguard_begin c tag in
    let c' = bootguard_mark_start ok c tag n in
    let a = begin_lem c tag in
    let b = begin_lem c' tag in
    let d = mark_start-rtc ok c tag n in
    let e = mark_start-nvs ok c tag n in let f = bg_on_start_lem n h in ground arith

abbrev pub KeepsPower : Boot → Type 0
KeepsPower b = b.garbage ≡ none

abbrev pub NvsWorks : Boot → Type 0
NvsWorks b = b.nvs_ok ≡ true

-- Without a power loss the count is exact, whether or not the writes to NVS work: every boot that
-- does not finish its start adds one, up to 255, where it stays.
pub unfinished_all_exact :
    (tag : ℕ) (c : Copies) (bs : List Boot)
    → bootguard_begin c tag < 256
    → All KeepsPower bs
    → bootguard_begin (unfinished_all tag c bs) tag ≡ min 255 (bootguard_begin c tag + length bs)
unfolding unfinished_all
unfinished_all_exact tag c [] h a = omega arith
unfinished_all_exact tag c (b ∷ bs) h a =
    let c' = bootguard_mark_start b.nvs_ok c tag (bootguard_begin c tag) in
    let one = begin-mark_start b.nvs_ok c tag h in
    let same : unfinished tag c b ≡ c' =
      ap (λ p. bootguard_mark_start b.nvs_ok p tag (bootguard_begin p tag)) (rw a.0 refl) in
    let rest = unfinished_all_exact tag c' bs (omega arith) a.1 in
    ap (λ x. bootguard_begin (unfinished_all tag x bs) tag) same ∙ rest ∙ omega arith

-- The `attempts` of a record is a byte.
abbrev pub IsByte : ℕ → Option BgRecord → Type 0
IsByte tag o = attempts_of o tag < 256

-- What a boot finds in NVS counts at the least, and its own write adds one.
begin-powered :
    (tag : ℕ) (c : Copies) (b : Boot)
    → IsByte tag (some c.rtc)
    → IsByte tag c.nvs
    → IsByte tag b.garbage
    → (attempts_of c.nvs tag ≤ bootguard_begin (powered b c) tag)
      × (bootguard_begin (powered b c) tag < 256)
begin-powered tag c b r n g = elim (Option-cases b.garbage) [
  | inl e ↦ rw e (let l = begin_lem c tag in (omega arith, omega arith))
  | inr (x, e) ↦
      let l = begin_lem (record c { rtc = x }) tag in
      let k : attempts_of (some x) tag < 256 = subst (IsByte tag) e g in
      rw e (omega arith, omega arith)
]

min_count :
    (tag : ℕ) (c : Copies) (bs : List Boot)
    → IsByte tag (some c.rtc)
    → IsByte tag c.nvs
    → All (λ b. IsByte tag b.garbage) bs
    → All NvsWorks bs
    → min 255 (attempts_of c.nvs tag + length bs) ≤ bootguard_begin (unfinished_all tag c bs) tag
unfolding unfinished_all
min_count tag c [] r n g a = let l = begin_lem c tag in omega arith
min_count tag c (b ∷ bs) r n g a =
    let p = powered b c in
    let m = bootguard_begin p tag in
    let (lo, hi) = begin-powered tag c b r n g.0 in
    let d = mark_start-rtc b.nvs_ok p tag m in
    let e = mark_start-nvs b.nvs_ok p tag m in
    let f = bg_on_start_lem m hi in
    let w : attempts_of (unfinished tag c b).nvs tag ≡ bg_on_start m = e ∙ rw a.0 refl in
    let rest = min_count tag (unfinished tag c b) bs (omega arith) (omega arith) g.1 a.1 in
    omega arith

-- As long as the writes to NVS work, two starts in a row that do not finish lead to safe mode,
-- whatever a power loss before any of the boots leaves in RTC memory.
pub unfinished_all-safe_mode :
    (tag : ℕ) (c : Copies) (bs : List Boot)
    → IsByte tag (some c.rtc)
    → IsByte tag c.nvs
    → All (λ b. IsByte tag b.garbage) bs
    → All NvsWorks bs
    → 2 ≤ length bs
    → bg_should_safe_mode (bootguard_begin (unfinished_all tag c bs) tag) ≡ true
unfolding bg_should_safe_mode
unfinished_all-safe_mode tag c bs r n g a h = let k = min_count tag c bs r n g a in ground arith

-- After a finished start whose write to NVS works the count is 0, for this firmware and for any
-- other.
pub begin-bootguard_clear :
    (c : Copies) (tag tag' : ℕ) → bootguard_begin (bootguard_clear true c tag) tag' ≡ 0
unfolding bootguard_clear bootguard_begin bg_prior_attempts attempts_of bg_make
begin-bootguard_clear c tag tag' = ground arith
