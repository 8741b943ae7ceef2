-- ===== src/DateUtils.antt =====
-- include/logpp/utils/date.h: rounding of time points to months, years and other durations.
--
-- A time point is the ticks since 1970, and not before. The date library is a record: what it reads
-- from a number of days, and the days of a date.
pub mod Months
mod Tests
use logpp.Common.{ℕ, ◌+◌, ◌-◌, ◌*◌, ◌/◌, ◌%◌, ◌≤◌, ◌<◌, ◌≡◌, Bool, true, false, if◌then◌else◌, ◌==◌}

-- `date::year_month_day`
pub record YearMonthDay : Type 0 where
  pub year : ℕ
  pub month : ℕ
  pub day : ℕ

abbrev pub ymd : ℕ → ℕ → ℕ → YearMonthDay
ymd y m d = record { year = y; month = m; day = d }

-- The conversions of the date library, and the ticks of a day.
pub record DateLibrary : Type 0 where
  pub from_days : ℕ → YearMonthDay
  pub to_days : YearMonthDay → ℕ
  pub ticks : ℕ

-- The duration that is rounded to.
pub data Period : Type 0 where
  months years : Period
  other : ℕ → Period

module _ (lib : DateLibrary) where
  -- `date`, and its `year`, `month` and `day`
  unfoldable pub date : ℕ → YearMonthDay
  date tp = lib.from_days (tp / lib.ticks)

  unfoldable pub floor_month : ℕ → ℕ
  unfolding date
  floor_month tp = lib.to_days (ymd (date tp).year (date tp).month 1) * lib.ticks

  unfoldable pub floor_year : ℕ → ℕ
  unfolding date
  floor_year tp = lib.to_days (ymd (date tp).year 1 1) * lib.ticks

  unfoldable pub ceil_month : ℕ → ℕ
  unfolding date
  ceil_month tp =
      let m = if (date tp).month == 12 then 1 else (date tp).month + 1 in
      lib.to_days (ymd (date tp).year m 1) * lib.ticks

  unfoldable pub ceil_year : ℕ → ℕ
  unfolding date
  ceil_year tp = lib.to_days (ymd ((date tp).year + 1) 1 1) * lib.ticks

  -- `date_utils::floor` and `date_utils::ceil`
  unfoldable pub floor_to : Period → ℕ → ℕ
  unfolding floor_month floor_year
  floor_to months tp = floor_month tp
  floor_to years tp = floor_year tp
  floor_to (other n) tp = tp / n * n

  unfoldable pub ceil_to : Period → ℕ → ℕ
  unfolding ceil_month ceil_year
  ceil_to months tp = ceil_month tp
  ceil_to years tp = ceil_year tp
  ceil_to (other n) tp = (tp + (n - 1)) / n * n
