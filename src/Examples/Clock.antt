-- ===== src/Examples/Clock.antt =====
-- A time written to the real time clock and read back, on 28 February 2028.
use cardiag.Base.{false, leb, refl, some, ℕ, ◌%◌, ◌*◌, ◌+◌, ◌≡◌}
use cardiag.Rtc.{
  rtc_bcd, rtc_to_bcd, rtc_days_from_civil, rtc_civil_from_days, rtc_days_in_month, Burst,
  fields_of, checked, rtc_decode, rtc_encode, rtc_encode-time, rtc_ok,
}

abbrev leap_eve : ℕ
leap_eve = 1835395199

abbrev written : Burst
written = record {
  vl_seconds = 0x59;
  minutes = 0x59;
  hours = 0x23;
  days = 0x28;
  weekdays = 1;
  century_mon = 0x02;
  years = 0x28;
}

encoded : rtc_encode leap_eve ≡ some written
unfolding rtc_encode rtc_civil_from_days rtc_to_bcd
encoded = refl

decoded : rtc_decode written 2025 ≡ (rtc_ok, leap_eve)
unfolding rtc_decode fields_of checked rtc_bcd rtc_days_in_month rtc_days_from_civil
decoded = refl

rtc_encode-time_example :
    (leb 128 written.vl_seconds ≡ false)
    × ((h : ℕ) × (mi : ℕ) × (s : ℕ) × (rtc_bcd (written.hours % 64) ≡ some h)
        × (rtc_bcd (written.minutes % 128) ≡ some mi)
        × (rtc_bcd (written.vl_seconds % 128) ≡ some s)
        × (h * 3600 + mi * 60 + s ≡ leap_eve % 86400))
rtc_encode-time_example = rtc_encode-time leap_eve written encoded
