-- ===== src/Examples/Boot.antt =====
-- Boots that do not finish, with and without a loss of power.
use cardiag.Base.{[], arith, false, none, refl, some, true, ◌<◌, ◌∷◌, ◌≡◌}
use cardiag.BootGuard.{
  BgRecord, bg_valid, attempts_of, bg_prior_attempts, bg_should_safe_mode, Copies, bootguard_begin,
  Boot, unfinished_all,
}
use cardiag.BootGuard.Count.{unfinished_all-safe_mode}

abbrev garbage : BgRecord
garbage = record { magic = 12; app_tag = 7; check = 99; attempts = 200 }

-- A board that never started: garbage in RTC memory, nothing in NVS.
abbrev new_board : Copies
new_board = record { rtc = garbage; nvs = none }

abbrev reset : Boot
reset = record { garbage = none; nvs_ok = false }

abbrev power_loss : Boot
power_loss = record { garbage = some garbage; nvs_ok = true }

starts_at_0 : bootguard_begin new_board 7 ≡ 0
unfolding bootguard_begin bg_prior_attempts attempts_of bg_valid
starts_at_0 = refl

garbage_counts_0 : attempts_of (some garbage) 7 < 256
unfolding attempts_of bg_valid
garbage_counts_0 = omega arith

empty_counts_0 : attempts_of none 7 < 256
unfolding attempts_of
empty_counts_0 = omega arith

unfinished_all-safe_mode_example :
    bg_should_safe_mode
      (bootguard_begin (unfinished_all 7 new_board (power_loss ∷ power_loss ∷ [])) 7)
    ≡ true
unfinished_all-safe_mode_example =
    unfinished_all-safe_mode 7 new_board (power_loss ∷ power_loss ∷ []) garbage_counts_0
      empty_counts_0 (garbage_counts_0, (garbage_counts_0, tt)) (refl, (refl, tt)) (omega arith)
