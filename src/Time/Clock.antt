-- ===== src/Time/Clock.antt =====
-- `stu_gmtime` on seconds.
use chatease_server.Common.{
  ℕ, ◌+◌, ◌-◌, ◌*◌, ◌/◌, ◌%◌, ◌^◌, ◌≤◌, ◌<◌, ◌≡◌, arith, true, zero, suc, List, [], ◌∷◌, All,
  get_or,
}
use chatease_server.Time.Calendar.{is_date, day_number, month_days}
use chatease_server.Time.Date.{date_of-right}
use chatease_server.Time.Gmtime.{Date, Tm, date_of, gmtime, int}

abbrev pub date : Tm → Date
date tm = record { year = tm.year; mon = tm.mon; mday = tm.mday }

-- `tm` is the time of day and the day of the calendar that come `t` seconds after the beginning
-- of 1970, whose first day is number 719528; the first of January of the year 0 is a Saturday.
pub record IsTime (t : ℕ) (tm : Tm) : Type 0 where
  pub in_calendar : is_date (date tm) ≡ true
  pub hour_lt : tm.hour < 24
  pub min_lt : tm.min < 60
  pub sec_lt : tm.sec < 60
  pub seconds :
      day_number (date tm) * 86400 + tm.hour * 3600 + tm.min * 60 + tm.sec ≡ t + 719528 * 86400
  pub weekday : tm.wday ≡ (day_number (date tm) + 6) % 7

get_or_bound : (xs : List ℕ) (i b : ℕ) → All (λ x. x ≤ b) xs → get_or xs i 0 ≤ b
get_or_bound [] i b h = omega arith
get_or_bound (x ∷ xs) zero b (hx, h) = hx
get_or_bound (x ∷ xs) (suc i) b (hx, h) = get_or_bound xs i b h

small :
    (d : Date)
    → is_date d ≡ true
    → day_number d < 2 ^ 40
    → (d.year < 2 ^ 32) × (d.mon < 2 ^ 32) × (d.mday < 2 ^ 32)
unfolding is_date day_number
small d ok lt =
    let longest : get_or month_days (d.mon - 1) 0 ≤ 31 =
      get_or_bound month_days (d.mon - 1) 31 (ground arith) in
    (ground (arith, lt), ground (arith, ok), ground (arith, ok, longest))

-- The values before the casts to `int` are kept by them.
int_same : (n : ℕ) → n < 2 ^ 32 → int n ≡ n
int_same n h = omega arith

-- For every number of seconds below 2^55 the fields are those of the calendar date and the time
-- of day that come so many seconds after the beginning of 1970, with the right day of the week.
pub gmtime-IsTime : (t : ℕ) → t < 2 ^ 55 → IsTime t (gmtime t)
unfolding gmtime
gmtime-IsTime t lt =
    let days : ℕ = t / 86400 in
    let counted : (days + (2 ^ 64 - (31 + 28)) + 719527) % 2 ^ 64 ≡ days + 719468 = omega arith in
    let right = date_of-right (days + 719468) in
    let d : Date = date_of (days + 719468) in
    let fits = small d right.0 (omega (arith, right.1, lt)) in
    rw (counted, int_same d.year fits.0, int_same d.mon fits.1, int_same d.mday fits.2)
      (record {
        in_calendar = right.0;
        hour_lt = omega arith;
        min_lt = omega arith;
        sec_lt = omega arith;
        seconds = omega (arith, right.1);
        weekday = omega (arith, right.1);
      })
