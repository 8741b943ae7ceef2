-- ===== src/DateUtils/Tests.antt =====
-- The rounding over a calendar whose months all have 30 days.
use logpp.Common.{◌+◌, ◌-◌, ◌*◌, ◌/◌, ◌%◌, ◌≤◌, ◌<◌, ◌≡◌, ◌==◌, if◌then◌else◌, arith}
use logpp.DateUtils.{ymd, DateLibrary, months, years, date, floor_to, ceil_to}
use logpp.DateUtils.Months.{IsCalendar, floor_to-bounds}

abbrev even : DateLibrary
even = record {
  from_days = λ n. ymd (n / 360) (n / 30 % 12 + 1) (n % 30 + 1);
  to_days = λ d. d.year * 360 + (d.month - 1) * 30 + (d.day - 1);
  ticks = 86400;
}

even-IsCalendar : IsCalendar even (λ y m. 30)
even-IsCalendar = record {
  has_ticks = omega arith;
  stands = λ n. omega arith;
  within = λ n. omega arith;
  months_of_year = λ n. (omega arith, omega arith);
  next_month = λ y m h g. omega (arith, h, g);
  next_year = λ y. omega arith;
}

floor_to-bounds_example :
    (floor_to even months 5184001 ≤ 5184001)
    × (5184001 < floor_to even months 5184001 + 30 * 86400)
    × (ceil_to even months 5184001 ≡ (
        if (date even 5184001).month == 12
        then floor_to even years 5184001
        else floor_to even months 5184001 + 30 * 86400))
    × (floor_to even years 5184001 ≤ 5184001)
    × (5184001 < ceil_to even years 5184001)
floor_to-bounds_example = floor_to-bounds even (λ y m. 30) even-IsCalendar 5184001
