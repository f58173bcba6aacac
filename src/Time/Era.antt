-- ===== src/Time/Era.antt =====
-- The years of `stu_gmtime`, which begin in March.
use chatease_server.Common.Tests.{passes_below}
use chatease_server.Common.{
  ℕ, suc, ◌+◌, ◌-◌, ◌*◌, ◌/◌, ◌≤◌, ◌<◌, ◌≡◌, refl, arith, true, ◌&&◌, ◌==◌, Bool, leb, ltb, ltb→lt,
  zero, Bool-cases, inl, inr, get_or, if◌then◌else◌,
}
use chatease_server.Time.Calendar.{month_start, month_days}
use chatease_server.Time.Gmtime.{Date, date_of, of_yday, days_before, is_leap}

abbrev pub leap : ℕ → ℕ
leap y = if is_leap y then 1 else 0

pub year_low : (y : ℕ) → y * 146097 ≤ (days_before y + 2) * 400
year_low y = omega arith

pub year_high : (y : ℕ) → (days_before y + 1) * 400 < (y + 1) * 146097
year_high y = omega arith

pub year_length : (y : ℕ) → days_before (y + 1) ≡ days_before y + 365 + leap (y + 1)
year_length y = ground arith

-- The day `yday` of the year that begins in March of `y`.
pub record IsDay (days y yday : ℕ) : Type 0 where
  pub counted : days ≡ days_before y + yday
  pub inside : yday < 365 + leap (y + 1)

-- January 1 of the year `y`, counted from March 1 of the year 0.
pub january :
    (y : ℕ)
    → 365 * (y + 399) + (y + 399) / 4 - (y + 399) / 100 + (y + 399) / 400 - 145731 + 59 + leap y
      ≡ days_before y + 60
january y = ground arith

-- What the empirical formulas give for each day of the year.
unfoldable pub month_right : ℕ → Bool
month_right yday =
    let mon = (yday + 31) * 10 / 306 in
    let mday = yday - (367 * mon / 12 - 30) + 1 in
    leb 1 mday
    && (if leb 306 yday
        then leb 11 mon
          && leb mon 12
          && get_or month_start (mon - 10 - 1) 0 + mday == yday - 306 + 1
          && leb mday (get_or month_days (mon - 10 - 1) 0 + (if yday == 365 then 1 else 0))
          && (if yday == 365 then mon == 12 else true)
        else leb 1 mon
          && leb mon 10
          && get_or month_start (mon + 2 - 1) 0 + mday == yday + 60
          && leb mday (get_or month_days (mon + 2 - 1) 0))

pub month_table : passes_below month_right 366 ≡ true
unfolding passes_below month_right
month_table = refl

abbrev settled : ℕ → ℕ → Date
settled days y =
    if ltb days (days_before y)
    then of_yday (y - 1) (365 + leap y + days - days_before y)
    else of_yday y (days - days_before y)

settled-IsDay :
    (days y : ℕ)
    → y * 146097 ≤ (days + 2) * 400
    → (days + 2) * 400 < (y + 1) * 146097
    → (x : ℕ) × (yday : ℕ) × IsDay days x yday × (settled days y ≡ of_yday x yday)
settled-IsDay days y lo hi = elim (Bool-cases (ltb days (days_before y))) [
  | inr within ↦
      let reached : days_before y ≤ days = ground (arith, within) in
      let next = year_low (y + 1) in
      let size = year_length y in
      let counted : days ≡ days_before y + (days - days_before y) = omega arith in
      let inside : days - days_before y < 365 + leap (y + 1) = omega (arith, next, size, hi) in
      (y, days - days_before y, record { counted = counted; inside = inside }, rw within refl)
  | inl early ↦ before y lo (ltb→lt days (days_before y) early) early
]
  where
    before :
        (y : ℕ)
        → y * 146097 ≤ (days + 2) * 400
        → days < days_before y
        → ltb days (days_before y) ≡ true
        → (x : ℕ) × (yday : ℕ) × IsDay days x yday × (settled days y ≡ of_yday x yday)
    before zero lo lt early = absurd (omega arith)
    before (suc z) lo lt early =
        let plus : z + 1 ≡ suc z = omega arith in
        let last = year_high z in
        let size : days_before (suc z) ≡ days_before z + 365 + leap (suc z) =
          rw plus at (year_length z) in
        let reached : days_before z ≤ days = omega (arith, last, lo) in
        let same : 365 + leap (suc z) + days - days_before (suc z) ≡ days - days_before z =
          omega (arith, size) in
        let counted : days ≡ days_before z + (days - days_before z) = omega arith in
        let within : days - days_before z < 365 + leap (suc z) = omega (arith, size, lt, reached) in
        let inside : days - days_before z < 365 + leap (z + 1) = rw plus within in
        let less : suc z - 1 ≡ z = omega arith in
        (
          z,
          days - days_before z,
          record { counted = counted; inside = inside },
          rw (early, less, same) refl,
        )

pub date_of-IsDay :
    (days : ℕ) → (x : ℕ) × (yday : ℕ) × IsDay days x yday × (date_of days ≡ of_yday x yday)
unfolding date_of
date_of-IsDay days = settled-IsDay days ((days + 2) * 400 / 146097) (omega arith) (omega arith)
