-- ===== src/BootGuard.antt =====
-- firmware/include/bootguard.h and firmware/src/bootguard.cpp: the count of filestore starts that
-- did not finish, and the safe mode that follows from it.
pub mod Count
use cardiag.Base.{
  Bool, List, Option, [], if◌then◌else◌, leb, ltb, none, some, suc, u32, u8, zero, ℕ, ◌%◌, ◌&&◌,
  ◌*◌, ◌+◌, ◌/◌, ◌==◌, ◌∷◌,
}

abbrev pub bg_magic : ℕ
bg_magic = 0xB0075AFE

abbrev pub bg_fail_limit : ℕ
bg_fail_limit = 2

-- `a ^ b` on the lowest `n` bits.
unfoldable pub xor_bits : ℕ → ℕ → ℕ → ℕ
xor_bits zero a b = 0
xor_bits (suc n) a b =
    let rest = xor_bits n (a / 2) (b / 2) in (if a % 2 == b % 2 then 0 else 1) + 2 * rest

-- `bgCheck`
unfoldable pub bg_check : ℕ → ℕ → ℕ
unfolding xor_bits
bg_check app_tag attempts =
    let x = xor_bits 32 (xor_bits 32 bg_magic app_tag) (u32 (attempts * 0x9E3779B1)) in
    xor_bits 32 x (x / 65536)

-- `struct BgRecord`
pub record BgRecord : Type 0 where
  pub magic : ℕ
  pub app_tag : ℕ
  pub check : ℕ
  pub attempts : ℕ

-- `bgValid`
unfoldable pub bg_valid : BgRecord → ℕ → Bool
bg_valid r app_tag =
    r.magic == bg_magic && (r.app_tag == app_tag && r.check == bg_check r.app_tag r.attempts)

-- `bgMake`
unfoldable pub bg_make : ℕ → ℕ → BgRecord
bg_make app_tag attempts = record {
  magic = bg_magic;
  app_tag = app_tag;
  check = bg_check app_tag attempts;
  attempts = attempts;
}

-- What a copy of the record counts for; a null pointer is `none`.
unfoldable pub attempts_of : Option BgRecord → ℕ → ℕ
unfolding bg_valid
attempts_of none app_tag = 0
attempts_of (some r) app_tag = if bg_valid r app_tag then r.attempts else 0

-- `bgPriorAttempts`
unfoldable pub bg_prior_attempts : Option BgRecord → Option BgRecord → ℕ → ℕ
unfolding attempts_of
bg_prior_attempts rtc nvs app_tag =
    let a = attempts_of rtc app_tag in let b = attempts_of nvs app_tag in if ltb b a then a else b

-- `bgShouldSafeMode`
unfoldable pub bg_should_safe_mode : ℕ → Bool
bg_should_safe_mode prior = leb bg_fail_limit prior

-- `bgOnStart`
unfoldable pub bg_on_start : ℕ → ℕ
bg_on_start prior = if prior == 0xFF then 0xFF else u8 (prior + 1)

-- The two copies: RTC memory always holds some record, NVS may hold none.
pub record Copies : Type 0 where
  pub rtc : BgRecord
  pub nvs : Option BgRecord

-- `bootguardBegin`
unfoldable pub bootguard_begin : Copies → ℕ → ℕ
unfolding bg_prior_attempts
bootguard_begin c tag = bg_prior_attempts (some c.rtc) c.nvs tag

-- `bootguardMarkStart`, whose write to NVS may fail.
unfoldable pub bootguard_mark_start : Bool → Copies → ℕ → ℕ → Copies
unfolding bg_on_start bg_make
bootguard_mark_start nvs_ok c tag prior =
    let r = bg_make tag (bg_on_start prior) in
    record { rtc = r; nvs = if nvs_ok then some r else c.nvs }

-- `bootguardClear`
unfoldable pub bootguard_clear : Bool → Copies → ℕ → Copies
unfolding bg_make
bootguard_clear nvs_ok c tag =
    let r = bg_make tag 0 in record { rtc = r; nvs = if nvs_ok then some r else c.nvs }

-- What a boot that does not finish its start meets: garbage in RTC memory after a power loss, and
-- an NVS write that works or fails.
pub record Boot : Type 0 where
  pub garbage : Option BgRecord
  pub nvs_ok : Bool

abbrev pub powered : Boot → Copies → Copies
powered b c = elim b.garbage [ none ↦ c | some g ↦ record c { rtc = g } ]

abbrev pub unfinished : ℕ → Copies → Boot → Copies
unfinished tag c b =
    let c' = powered b c in bootguard_mark_start b.nvs_ok c' tag (bootguard_begin c' tag)

unfoldable pub unfinished_all : ℕ → Copies → List Boot → Copies
unfinished_all tag c [] = c
unfinished_all tag c (b ∷ bs) = unfinished_all tag (unfinished tag c b) bs
