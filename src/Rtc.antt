-- ===== src/Rtc.antt =====
-- firmware/include/rtc8563.h: the registers of the real time clock. Registers are bytes, so a mask
-- of low bits is a remainder and a shift a quotient. Dates are in and after 1970, where the signed
-- sums of the source do not go below 0.
use cardiag.Base.{
  ◌>>=◌, List, Option, [], arith, false, get_or, if◌then◌else◌, inl, inr, leb, ltb, none, not, refl,
  some, u8, ℕ, ◌%◌, ◌&&◌, ◌*◌, ◌+◌, ◌-◌, ◌/◌, ◌<◌, ◌==◌, ◌||◌, ◌∷◌, ◌≡◌, ◌⊎◌,
}

-- `enum RtcStatus`
pub data RtcStatus : Type 0 where
  rtc_ok rtc_voltage_low rtc_bad_field rtc_bad_century rtc_too_early : RtcStatus

-- `rtcBcd`, with `none` for -1.
unfoldable pub rtc_bcd : ℕ → Option ℕ
rtc_bcd b =
    let hi = b / 16 in let lo = b % 16 in if ltb 9 hi || ltb 9 lo then none else some (hi * 10 + lo)

-- `rtcToBcd`; the two halves share no bit.
unfoldable pub rtc_to_bcd : ℕ → ℕ
rtc_to_bcd v = u8 (v / 10 * 16 + v % 10)

-- `rtcDaysFromCivil`
unfoldable pub rtc_days_from_civil : ℕ → ℕ → ℕ → ℕ
rtc_days_from_civil year m d =
    let y = if leb m 2 then year - 1 else year in
    let era = y / 400 in
    let yoe = y - era * 400 in
    let doy = (153 * (if ltb 2 m then m - 3 else m + 9) + 2) / 5 + d - 1 in
    let doe = yoe * 365 + yoe / 4 - yoe / 100 + doy in era * 146097 + doe - 719468

-- `rtcCivilFromDays`: year, month and day.
unfoldable pub rtc_civil_from_days : ℕ → ℕ × ℕ × ℕ
rtc_civil_from_days days =
    let z = days + 719468 in
    let era = z / 146097 in
    let doe = z - era * 146097 in
    let yoe = (doe - doe / 1460 + doe / 36524 - doe / 146096) / 365 in
    let doy = doe - (365 * yoe + yoe / 4 - yoe / 100) in
    let mp = (5 * doy + 2) / 153 in
    let d = doy - (153 * mp + 2) / 5 + 1 in
    let m = if ltb mp 10 then mp + 3 else mp - 9 in
    (yoe + era * 400 + (if leb m 2 then 1 else 0), m, d)

month_lengths : List ℕ
month_lengths = 31 ∷ 28 ∷ 31 ∷ 30 ∷ 31 ∷ 30 ∷ 31 ∷ 31 ∷ 30 ∷ 31 ∷ 30 ∷ 31 ∷ []

-- `rtcDaysInMonth`
unfoldable pub rtc_days_in_month : ℕ → ℕ → ℕ
unfolding month_lengths
rtc_days_in_month y m =
    let leap = (y % 4 == 0 && not (y % 100 == 0)) || y % 400 == 0 in
    if m == 2 && leap then 29 else get_or month_lengths (m - 1) 0

-- The seven registers from 0x02 on.
pub record Burst : Type 0 where
  pub vl_seconds : ℕ
  pub minutes : ℕ
  pub hours : ℕ
  pub days : ℕ
  pub weekdays : ℕ
  pub century_mon : ℕ
  pub years : ℕ

-- The fields of a burst, once all six are decimal.
pub record Fields : Type 0 where
  pub s : ℕ
  pub mi : ℕ
  pub h : ℕ
  pub d : ℕ
  pub mo : ℕ
  pub yy : ℕ

unfoldable pub fields_of : Burst → Option Fields
unfolding rtc_bcd
fields_of r = do
  s ← rtc_bcd (r.vl_seconds % 128)
  mi ← rtc_bcd (r.minutes % 128)
  h ← rtc_bcd (r.hours % 64)
  d ← rtc_bcd (r.days % 64)
  mo ← rtc_bcd (r.century_mon % 32)
  yy ← rtc_bcd r.years
  some (record { s = s; mi = mi; h = h; d = d; mo = mo; yy = yy })

-- The checks of `rtcDecode` on the fields, and the epoch that they give.
unfoldable pub checked : Fields → ℕ → RtcStatus × ℕ
unfolding rtc_days_in_month rtc_days_from_civil
checked f min_year =
    if ltb 59 f.s || (ltb 59 f.mi || (ltb 23 f.h || (f.mo == 0 || (ltb 12 f.mo || f.d == 0))))
    then (rtc_bad_field, 0)
    else if ltb (rtc_days_in_month (2000 + f.yy) f.mo) f.d
    then (rtc_bad_field, 0)
    else if ltb (2000 + f.yy) min_year
    then (rtc_too_early, 0)
    else (rtc_ok, rtc_days_from_civil (2000 + f.yy) f.mo f.d * 86400 + f.h * 3600 + f.mi * 60 + f.s)

-- `rtcDecode`: the status and, where it is `rtc_ok`, the epoch.
unfoldable pub rtc_decode : Burst → ℕ → RtcStatus × ℕ
unfolding fields_of checked
rtc_decode r min_year =
    if leb 128 r.vl_seconds
    then (rtc_voltage_low, 0)
    else if leb 128 r.century_mon
    then (rtc_bad_century, 0)
    else elim (fields_of r) [ none ↦ (rtc_bad_field, 0) | some f ↦ checked f min_year ]

-- `rtcEncode`, from 1970 on.
unfoldable pub rtc_encode : ℕ → Option Burst
unfolding rtc_civil_from_days rtc_to_bcd
rtc_encode epoch_s =
    let days = epoch_s / 86400 in
    let sod = epoch_s % 86400 in
    let (y, m, d) = rtc_civil_from_days days in
    if ltb y 2000 || ltb 2099 y
    then none
    else some (record {
      vl_seconds = rtc_to_bcd (sod % 60);
      minutes = rtc_to_bcd (sod / 60 % 60);
      hours = rtc_to_bcd (sod / 3600);
      days = rtc_to_bcd d;
      weekdays = (days + 4) % 7;
      century_mon = rtc_to_bcd m;
      years = rtc_to_bcd (y - 2000);
    })

rtc_to_bcd-masked :
    (v k : ℕ) → v < 60 → (k ≡ 128) ⊎ ((k ≡ 64) × (v < 24)) → rtc_bcd (rtc_to_bcd v % k) ≡ some v
unfolding rtc_bcd rtc_to_bcd
rtc_to_bcd-masked v k h (inl e) = rw e (ground arith)
rtc_to_bcd-masked v k h (inr (e, l)) = rw e (ground arith)

rtc_encode-registers :
    (epoch_s : ℕ) (r : Burst)
    → rtc_encode epoch_s ≡ some r
    → (r.vl_seconds ≡ rtc_to_bcd (epoch_s % 86400 % 60))
      × (r.minutes ≡ rtc_to_bcd (epoch_s % 86400 / 60 % 60))
      × (r.hours ≡ rtc_to_bcd (epoch_s % 86400 / 3600))
unfolding rtc_encode
rtc_encode-registers e r h = ground arith

rtc_to_bcd_low : (v : ℕ) → v < 60 → leb 128 (rtc_to_bcd v) ≡ false
unfolding rtc_to_bcd
rtc_to_bcd_low v h = ground arith

-- What is written to the clock clears the voltage-low flag, and its hours, minutes and seconds read
-- back, through the masks of the reader, as the time of day that was written.
pub rtc_encode-time :
    (epoch_s : ℕ) (r : Burst)
    → rtc_encode epoch_s ≡ some r
    → (leb 128 r.vl_seconds ≡ false)
      × ((h : ℕ) × (mi : ℕ) × (s : ℕ) × (rtc_bcd (r.hours % 64) ≡ some h)
          × (rtc_bcd (r.minutes % 128) ≡ some mi)
          × (rtc_bcd (r.vl_seconds % 128) ≡ some s)
          × (h * 3600 + mi * 60 + s ≡ epoch_s % 86400))
rtc_encode-time e r w =
    let sod = e % 86400 in
    let (a, b, c) = rtc_encode-registers e r w in
    (
      rw a (rtc_to_bcd_low (sod % 60) (omega arith)),
      (
        sod / 3600,
        sod / 60 % 60,
        sod % 60,
        rw c (rtc_to_bcd-masked (sod / 3600) 64 (omega arith) (inr (refl, omega arith))),
        rw b (rtc_to_bcd-masked (sod / 60 % 60) 128 (omega arith) (inl refl)),
        rw a (rtc_to_bcd-masked (sod % 60) 128 (omega arith) (inl refl)),
        omega arith,
      ),
    )
