-- ===== src/Time/Date.antt =====
-- The dates of `stu_gmtime` are those of the calendar.
use chatease_server.Common.Tests.{passes_at}
use chatease_server.Common.{
  ℕ, ◌+◌, ◌-◌, ◌*◌, ◌/◌, ◌≤◌, ◌<◌, ◌≡◌, ◌∙◌, arith, true, false, ◌==◌, leb, ltb, leb→le, get_or,
  if◌then◌else◌, Bool-cases, inl, inr,
}
use chatease_server.Time.Calendar.{is_date, day_number, month_start, month_days}
use chatease_server.Time.Era.{
  leap, january, year_length, IsDay, month_right, month_table, date_of-IsDay,
}
use chatease_server.Time.Gmtime.{date_of, of_yday, days_before}

-- January and February of `y`, and its other months.
day_number_winter :
    (y mon mday z : ℕ)
    → mon ≤ 2
    → get_or month_start (mon - 1) 0 + mday ≡ z + 1
    → day_number (record { year = y; mon = mon; mday = mday }) + 59 + leap y
      ≡ days_before y + 60 + z
unfolding day_number
day_number_winter y mon mday z early start =
    let first = january y in
    let plain : ltb 2 mon ≡ false = ground (arith, early) in rw plain (omega (arith, first, start))

day_number_summer :
    (y mon mday z : ℕ)
    → 2 < mon
    → get_or month_start (mon - 1) 0 + mday ≡ z + 60
    → day_number (record { year = y; mon = mon; mday = mday }) ≡ days_before y + 60 + z
unfolding day_number
day_number_summer y mon mday z late start =
    let first = january y in
    let plain : ltb 2 mon ≡ true = ground (arith, late) in rw plain (omega (arith, first, start))

module _ (days x yday : ℕ) (day : IsDay days x yday) where
  abbrev mon : ℕ
  mon = (yday + 31) * 10 / 306

  abbrev mday : ℕ
  mday = yday - (367 * mon / 12 - 30) + 1

  known : month_right yday ≡ true
  known = passes_at month_right 366 yday month_table (ground (arith, day.inside))

  late_facts :
      leb 306 yday ≡ true
      → (1 ≤ mday)
        × (11 ≤ mon)
        × (mon ≤ 12)
        × (get_or month_start (mon - 10 - 1) 0 + mday ≡ yday - 306 + 1)
        × (mday ≤ get_or month_days (mon - 10 - 1) 0 + (if yday == 365 then 1 else 0))
        × ((yday ≡ 365) → (mon ≡ 12))
  unfolding month_right
  late_facts late =
      let t = rw late at known in
      (
        ground (arith, t),
        ground (arith, t),
        ground (arith, t),
        ground (arith, t),
        ground (arith, t),
        λ e. ground (arith, t, e),
      )

  early_facts :
      leb 306 yday ≡ false
      → (1 ≤ mday)
        × (1 ≤ mon)
        × (mon ≤ 10)
        × (get_or month_start (mon + 2 - 1) 0 + mday ≡ yday + 60)
        × (mday ≤ get_or month_days (mon + 2 - 1) 0)
  unfolding month_right
  early_facts early =
      let t = rw early at known in
      (
        ground (arith, t),
        ground (arith, t),
        ground (arith, t),
        ground (arith, t),
        ground (arith, t),
      )

  of_yday-day_number : day_number (of_yday x yday) ≡ days + 60
  unfolding of_yday
  of_yday-day_number = elim (Bool-cases (leb 306 yday)) [
    | inl late ↦
        let facts = late_facts late in
        let number =
          day_number_winter (x + 1) (mon - 10) mday (yday - 306) (omega (arith, facts.2)) facts.3 in
        let size = year_length x in
        let reached = leb→le 306 yday late in
        rw late (omega (arith, number, size, day.counted, reached))
    | inr early ↦
        let facts = early_facts early in
        rw early (
          day_number_summer x (mon + 2) mday yday (omega (arith, facts.1)) facts.3
          ∙ omega (arith, day.counted))
  ]

  of_yday-is_date : is_date (of_yday x yday) ≡ true
  unfolding of_yday is_date
  of_yday-is_date = elim (Bool-cases (leb 306 yday)) [
    | inl late ↦ let facts = late_facts late in rw late (ground (arith, facts, day.inside))
    | inr early ↦ let facts = early_facts early in rw early (ground (arith, facts))
  ]

-- The date of a number of days is one of the calendar, and the calendar's number of it is that.
pub date_of-right :
    (days : ℕ) → (is_date (date_of days) ≡ true) × (day_number (date_of days) ≡ days + 60)
date_of-right days =
    let (x, yday, day, e) = date_of-IsDay days in
    rw e (of_yday-is_date days x yday day, of_yday-day_number days x yday day)
