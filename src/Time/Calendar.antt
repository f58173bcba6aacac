-- ===== src/Time/Calendar.antt =====
-- The Gregorian calendar, by itself.
use chatease_server.Common.{
  ℕ, ◌+◌, ◌-◌, ◌*◌, ◌/◌, Bool, ◌&&◌, ltb, leb, ◌==◌, List, [], ◌∷◌, get_or, if◌then◌else◌,
}
use chatease_server.Time.Gmtime.{Date, is_leap}

-- The days of the months of a common year, and the days of such a year before each of them.
abbrev pub month_days : List ℕ
month_days = 31 ∷ 28 ∷ 31 ∷ 30 ∷ 31 ∷ 30 ∷ 31 ∷ 31 ∷ 30 ∷ 31 ∷ 30 ∷ 31 ∷ []

abbrev pub month_start : List ℕ
month_start = 0 ∷ 31 ∷ 59 ∷ 90 ∷ 120 ∷ 151 ∷ 181 ∷ 212 ∷ 243 ∷ 273 ∷ 304 ∷ 334 ∷ []

abbrev pub leap_day : Date → ℕ
leap_day d = if is_leap d.year then 1 else 0

-- A day that the calendar has.
unfoldable pub is_date : Date → Bool
is_date d =
    let extra = if d.mon == 2 then leap_day d else 0 in
    leb 1 d.mon
    && leb d.mon 12
    && leb 1 d.mday
    && leb d.mday (get_or month_days (d.mon - 1) 0 + extra)

-- The days from January 1 of the year 0 to that day.
unfoldable pub day_number : Date → ℕ
day_number d =
    let last = d.year + 399 in
    let passed = 365 * last + last / 4 - last / 100 + last / 400 - 145731 in
    passed + get_or month_start (d.mon - 1) 0 + (if ltb 2 d.mon then leap_day d else 0) + d.mday - 1
