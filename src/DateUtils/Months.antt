-- ===== src/DateUtils/Months.antt =====
-- Between which time points `floor` and `ceil` stand.
use native.Mathlib.Nat.{mul-le-mul_right}
use logpp.Common.{
  ℕ, zero, suc, ◌+◌, ◌-◌, ◌*◌, ◌/◌, ◌≤◌, ◌<◌, ◌≡◌, refl, ap, sym, subst, ◌∙◌, false, ◌==◌, arith,
  if◌then◌else◌, Bool-cases, inl, inr,
}
use logpp.DateUtils.{
  ymd, DateLibrary, months, years, date, floor_month, floor_year, ceil_month, ceil_year, floor_to,
  ceil_to,
}

-- What is documented of the library: a date stands in its month, and the first days of the months of a
-- year, and of the next year, follow each other. `size` has the days of a month.
pub record IsCalendar (lib : DateLibrary) (size : ℕ → ℕ → ℕ) : Type 0 where
  pub has_ticks : 0 < lib.ticks
  pub stands : (n : ℕ) → lib.to_days (ymd (lib.from_days n).year (lib.from_days n).month 1) ≤ n
  pub within :
      (n : ℕ)
      → n
        < lib.to_days (ymd (lib.from_days n).year (lib.from_days n).month 1)
          + size (lib.from_days n).year (lib.from_days n).month
  pub months_of_year : (n : ℕ) → (1 ≤ (lib.from_days n).month) × ((lib.from_days n).month ≤ 12)
  pub next_month :
      (y m : ℕ)
      → 1 ≤ m
      → m < 12
      → lib.to_days (ymd y (m + 1) 1) ≡ lib.to_days (ymd y m 1) + size y m
  pub next_year : (y : ℕ) → lib.to_days (ymd (y + 1) 1 1) ≡ lib.to_days (ymd y 12 1) + size y 12

floor_ticks : (t tp : ℕ) → 0 < t → (tp / t * t ≤ tp) × (tp < tp / t * t + t)
floor_ticks t tp h = (grind (arith, h), grind (arith, h))

not_december : (m : ℕ) → m < 12 → (m == 12) ≡ false
not_december m h = ground (arith, h)

month_lt : (m : ℕ) → m ≤ 12 → (m == 12) ≡ false → m < 12
month_lt m h other = ground (arith, h, other)

module _ (lib : DateLibrary) (size : ℕ → ℕ → ℕ) (c : IsCalendar lib size) where
  -- A time point stands behind the ticks of a day that is not after its own, and before those of a later.
  before_tick : (tp d : ℕ) → d ≤ tp / lib.ticks → d * lib.ticks ≤ tp
  before_tick tp d h =
      omega (arith, mul-le-mul_right lib.ticks h, (floor_ticks lib.ticks tp c.has_ticks).0)

  after_tick : (tp d : ℕ) → tp / lib.ticks < d → tp < d * lib.ticks
  after_tick tp d h =
      let later : suc (tp / lib.ticks) ≤ d = omega (arith, h) in
      omega (arith, mul-le-mul_right lib.ticks later, (floor_ticks lib.ticks tp c.has_ticks).1)

  january_first :
      (y k m : ℕ) → m ≡ k + 1 → m ≤ 12 → lib.to_days (ymd y 1 1) ≤ lib.to_days (ymd y m 1)
  january_first y zero m e h = let one : m ≡ 1 = omega (arith, e) in rw one (omega arith)
  january_first y (suc k) m e h =
      let next : m ≡ (k + 1) + 1 = omega (arith, e) in
      let step = c.next_month y (k + 1) (omega arith) (omega (arith, e, h)) in
      rw next (omega (arith, january_first y k (k + 1) refl (omega (arith, e, h)), step))

  december_last :
      (y m k : ℕ)
      → 1 ≤ m
      → m + k ≡ 12
      → lib.to_days (ymd y m 1) + size y m ≤ lib.to_days (ymd (y + 1) 1 1)
  december_last y m zero h e =
      let twelve : m ≡ 12 = omega (arith, e) in rw twelve (omega (arith, c.next_year y))
  december_last y m (suc k) h e = omega (
    arith,
    december_last y (m + 1) k (omega arith) (omega (arith, e)),
    c.next_month y m h (omega (arith, e)),
  )

  floor_month-le : (tp : ℕ) → floor_month lib tp ≤ tp
  unfolding floor_month date
  floor_month-le tp = before_tick tp _ (c.stands (tp / lib.ticks))

  floor_year-le : (tp : ℕ) → floor_year lib tp ≤ tp
  unfolding floor_year date
  floor_year-le tp =
      let n = tp / lib.ticks in
      let month = (lib.from_days n).month in
      let bounds = c.months_of_year n in
      before_tick tp _ (
        omega (
          arith,
          c.stands n,
          january_first (lib.from_days n).year (month - 1) month (omega (arith, bounds.0)) bounds.1,
        ))

  ceil_year-lt : (tp : ℕ) → tp < ceil_year lib tp
  unfolding ceil_year date
  ceil_year-lt tp =
      let n = tp / lib.ticks in
      let month = (lib.from_days n).month in
      let bounds = c.months_of_year n in
      after_tick tp _ (
        omega (
          arith,
          c.within n,
          december_last (lib.from_days n).year month (12 - month) bounds.0
              (omega (arith, bounds.1)),
        ))

  ceil_month_eq :
      (tp : ℕ)
      → (date lib tp).month < 12
      → ceil_month lib tp
        ≡ (lib.to_days (ymd (date lib tp).year (date lib tp).month 1)
            + size (date lib tp).year (date lib tp).month)
          * lib.ticks
  unfolding ceil_month date
  ceil_month_eq tp h =
      let n = tp / lib.ticks in
      let y = (lib.from_days n).year in
      let m = (lib.from_days n).month in
      rw (not_december m h)
        (ap (λ (d : ℕ). d * lib.ticks) (c.next_month y m (c.months_of_year n).0 h))

  ceil_month-lt : (tp : ℕ) → (date lib tp).month < 12 → tp < ceil_month lib tp
  unfolding date
  ceil_month-lt tp h =
      subst (λ d. tp < d) (sym (ceil_month_eq tp h)) (after_tick tp _ (c.within (tp / lib.ticks)))

  ceil_month-distance :
      (tp : ℕ)
      → (lib.to_days (ymd (date lib tp).year (date lib tp).month 1)
            + size (date lib tp).year (date lib tp).month)
          * lib.ticks
        ≡ floor_month lib tp + size (date lib tp).year (date lib tp).month * lib.ticks
  unfolding floor_month
  ceil_month-distance tp = omega arith

  date_month-le : (tp : ℕ) → (date lib tp).month ≤ 12
  unfolding date
  date_month-le tp = (c.months_of_year (tp / lib.ticks)).1

  december : (tp : ℕ) → (date lib tp).month ≡ 12 → ceil_month lib tp ≡ floor_year lib tp
  unfolding ceil_month floor_year date
  december tp h = rw h refl

  -- The next month begins as many days behind the floor as the month has.
  next_month-lt :
      (tp : ℕ) → tp < floor_month lib tp + size (date lib tp).year (date lib tp).month * lib.ticks
  unfolding date
  next_month-lt tp =
      subst (λ d. tp < d) (ceil_month-distance tp) (after_tick tp _ (c.within (tp / lib.ticks)))

  ceil_month-cases :
      (tp : ℕ)
      → ceil_month lib tp ≡ (
          if (date lib tp).month == 12
          then floor_year lib tp
          else floor_month lib tp + size (date lib tp).year (date lib tp).month * lib.ticks)
  ceil_month-cases tp = elim (Bool-cases ((date lib tp).month == 12)) [
    | inl e ↦ rw e (december tp (ground (arith, e)))
    | inr e ↦ rw e (
        ceil_month_eq tp (month_lt (date lib tp).month (date_month-le tp) e)
        ∙ ceil_month-distance tp)
  ]

  -- Over a calendar in which the months follow each other, for every time point: its floor in months is not
  -- later, and the next month, which begins as many days behind that floor as the month has, is later;
  -- its ceiling in months is the beginning of the next month, but in December it is the floor in years,
  -- the first of January of the same year; its floor in years is not later, and its ceiling in years is
  -- later.
  pub floor_to-bounds :
      (tp : ℕ)
      → (floor_to lib months tp ≤ tp)
        × (tp < floor_to lib months tp + size (date lib tp).year (date lib tp).month * lib.ticks)
        × (ceil_to lib months tp ≡ (
            if (date lib tp).month == 12
            then floor_to lib years tp
            else floor_to lib months tp + size (date lib tp).year (date lib tp).month * lib.ticks))
        × (floor_to lib years tp ≤ tp)
        × (tp < ceil_to lib years tp)
  unfolding floor_to ceil_to
  floor_to-bounds tp =
      (floor_month-le tp, next_month-lt tp, ceil_month-cases tp, floor_year-le tp, ceil_year-lt tp)

  -- In December the ceiling in months is the first of January of the same year, which is not later than
  -- the time point, and not the first of the next year, which is.
  pub ceil_to-december :
      (tp : ℕ)
      → (date lib tp).month ≡ 12
      → (ceil_to lib months tp ≡ floor_to lib years tp)
        × (ceil_to lib months tp ≤ tp)
        × (tp < ceil_to lib years tp)
  unfolding ceil_to floor_to
  ceil_to-december tp h =
      (december tp h, subst (λ d. d ≤ tp) (sym (december tp h)) (floor_year-le tp), ceil_year-lt tp)
