-- ===== src/Time/Gmtime.antt =====
-- `stu_gmtime` of stu_time.c.
use chatease_server.Common.{
  ℕ, ◌+◌, ◌-◌, ◌*◌, ◌/◌, ◌%◌, ◌^◌, Bool, ◌&&◌, ◌||◌, not, ltb, leb, ◌==◌, if◌then◌else◌,
}

-- `stu_tm_t`, the fields that are set.
pub record Tm : Type 0 where
  pub sec : ℕ
  pub min : ℕ
  pub hour : ℕ
  pub mday : ℕ
  pub mon : ℕ
  pub year : ℕ
  pub wday : ℕ

pub record Date : Type 0 where
  pub year : ℕ
  pub mon : ℕ
  pub mday : ℕ

-- Years before March 1 of `year`, in days.
abbrev pub days_before : ℕ → ℕ
days_before year = 365 * year + year / 4 - year / 100 + year / 400

abbrev pub is_leap : ℕ → Bool
is_leap year = year % 4 == 0 && (not (year % 100 == 0) || year % 400 == 0)

-- `yday` and `year` are settled: years begin in March.
unfoldable pub of_yday : ℕ → ℕ → Date
of_yday year yday =
    let mon = (yday + 31) * 10 / 306 in
    let mday = yday - (367 * mon / 12 - 30) + 1 in
    if leb 306 yday
    then record { year = year + 1; mon = mon - 10; mday = mday }
    else record { year = year; mon = mon + 2; mday = mday }

-- `days` since March 1, 1 BC; `yday` is negative just when `days` is below the days before the
-- year that the formula gives.
unfoldable pub date_of : ℕ → Date
date_of days =
    let year = (days + 2) * 400 / (365 * 400 + 100 - 4 + 1) in
    let before = days_before year in
    if ltb days before
    then of_yday (year - 1) (365 + (if is_leap year then 1 else 0) + days - before)
    else of_yday year (days - before)

-- The cast to `int`, as the 32 bits that it keeps.
abbrev pub int : ℕ → ℕ
int n = n % 2 ^ 32

-- Numbers are of 64 bits; only the subtraction can leave their range, and wraps.
unfoldable pub gmtime : ℕ → Tm
gmtime t =
    let days = t / 86400 in
    let n = t % 86400 in
    let date = date_of ((days + (2 ^ 64 - (31 + 28)) + 719527) % 2 ^ 64) in
    record {
      sec = int (n % 3600 % 60);
      min = int (n % 3600 / 60);
      hour = int (n / 3600);
      mday = int date.mday;
      mon = int date.mon;
      year = int date.year;
      wday = int ((4 + days) % 7);
    }
