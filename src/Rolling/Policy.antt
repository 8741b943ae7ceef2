-- ===== src/Rolling/Policy.antt =====
-- The rolling policies of include/logpp/sinks/file/RollingOfstream.h: when a file is archived. Time
-- counts the clock's ticks since the epoch; `period` is the number of ticks in the unit of a duration.
use native.Mathlib.Nat.{div-add-mod, mod-lt, mul_comm, le-mul_of_pos_right}
use logpp.Common.{
  ℕ, ◌+◌, ◌*◌, ◌/◌, ◌≤◌, ◌<◌, ◌≡◌, refl, subst, Option, none, some, List, [], ◌∷◌, Bool, true,
  false, if◌then◌else◌, leb, arith, Bool-cases, inl, inr,
}

-- `RollBySize::can_roll`, on the position that `pubseekoff` returns; `none` is -1.
unfoldable pub can_roll_size : ℕ → Option ℕ → Bool
can_roll_size bytes_threshold pos = elim pos [ none ↦ false | some p ↦ leb bytes_threshold p ]

-- `PreciseInterval::next`
unfoldable pub precise_next : ℕ → ℕ → ℕ
precise_next value now = now + value

-- `date_utils::floor`
unfoldable pub floor : ℕ → ℕ → ℕ
floor period t = (t / period) * period

-- `RoundInterval::next`, of a duration of `count` units: rounding is down to the unit.
unfoldable pub round_next : ℕ → ℕ → ℕ → ℕ
unfolding floor
round_next period count now = floor period (now + count * period)

-- `RollEvery::next`. An interval is `next`, and `HasOffset` of a `RoundInterval`, whether its unit is a
-- day or longer; the C library converts between local time and UTC.
unfoldable pub roll_next : (ℕ → ℕ) → (ℕ → ℕ) → Bool → (ℕ → ℕ) → ℕ → ℕ
roll_next local_of utc_of has_offset next tp =
    if has_offset then utc_of (next (local_of tp)) else next tp

-- `RollEvery::can_roll` and `RollEvery::apply`, on `nextRollPoint`.
unfoldable pub can_roll_every : Option ℕ → ℕ → Bool
can_roll_every next_roll_point now = elim next_roll_point [ none ↦ false | some p ↦ leb p now ]

unfoldable pub apply_from : (ℕ → ℕ) → ℕ → ℕ → Bool × ℕ
apply_from next p now = if leb p now then (true, next now) else (false, p)

unfoldable pub apply_every : (ℕ → ℕ) → Option ℕ → ℕ → Bool × Option ℕ
unfolding apply_from
apply_every next next_roll_point now = elim next_roll_point [
  | none ↦ let r = apply_from next (next now) now in (r.0, some r.1)
  | some p ↦ let r = apply_from next p now in (r.0, some r.1)
]

-- The times at which `apply` answers that the file is to be archived, when it is called at each of a
-- list of times.
unfoldable pub roll_times : (ℕ → ℕ) → Option ℕ → List ℕ → List ℕ
unfolding apply_every
roll_times next point [] = []
roll_times next point (now ∷ rest) =
    let r = apply_every next point now in
    let later = roll_times next r.1 rest in if r.0 then now ∷ later else later

-- No time of the list is before `from`, and each is an interval or more after the one before it.
abbrev pub Spaced : ℕ → ℕ → List ℕ → Type 0
Spaced value from [] = Unit
Spaced value from (t ∷ rest) = (from ≤ t) × Spaced value (t + value) rest

Spaced-from :
    (value : ℕ) (p : ℕ) (ts : List ℕ) → Spaced value p (roll_times (precise_next value) (some p) ts)
unfolding roll_times precise_next
Spaced-from value p [] = tt
Spaced-from value p (now ∷ rest) = elim (Bool-cases (leb p now)) [
  | inl e ↦ let due : p ≤ now = ground arith in rw e (due, Spaced-from value (now + value) rest)
  | inr e ↦ rw e (Spaced-from value p rest)
]

-- A `RollEvery` with a `PreciseInterval` of positive length, asked at whatever times: the first call
-- never archives, no archive is made before one interval has passed since the first call, and any two
-- archives are an interval apart or more.
pub roll_times-Spaced :
    (value now : ℕ) (rest : List ℕ)
    → 0 < value
    → Spaced value (now + value) (roll_times (precise_next value) none (now ∷ rest))
unfolding roll_times precise_next
roll_times-Spaced value now rest h = rw e (Spaced-from value (now + value) rest)
  where
    e : leb (now + value) now ≡ false
    e = ground (arith, h)

-- `apply`, where the next point after a time is later than that time: it sets the next point to one
-- that is later than now, and it says to archive exactly when `can_roll` did before.
pub apply_every-next :
    (next : ℕ → ℕ) (point : Option ℕ) (now : ℕ)
    → now < next now
    → (p' : ℕ) × (apply_every next point now ≡ (can_roll_every point now, some p'))
      × (now < p')
      × (can_roll_every (some p') now ≡ false)
unfolding apply_every can_roll_every
apply_every-next next none now h = (next now, rw e refl, h, e)
  where
    e : leb (next now) now ≡ false
    e = ground (arith, h)
apply_every-next next (some p) now h = elim (Bool-cases (leb p now)) [
  | inl e ↦ (next now, rw e refl, h, ground (arith, h))
  | inr e ↦ (p, rw e refl, ground arith, e)
]

floor-bounds : (period t : ℕ) → 0 < period → (floor period t ≤ t) × (t < floor period t + period)
unfolding floor
floor-bounds period t h =
    let split = div-add-mod t period in
    let small = mod-lt t h in
    let swap = mul_comm period (t / period) in
    (omega (arith, split, swap), omega (arith, split, small, swap))

-- A `RoundInterval` of one unit or more: the next point is a whole number of units since the epoch,
-- later than now, and not later than the interval after now. So the first archive comes one interval
-- after now at the latest.
pub round_next-bounds :
    (period count now : ℕ)
    → 0 < period
    → 0 < count
    → (k : ℕ) × (round_next period count now ≡ k * period)
      × (now < round_next period count now)
      × (round_next period count now ≤ now + count * period)
unfolding round_next floor
round_next-bounds period count now h g =
    let b = floor-bounds period (now + count * period) h in
    let one : period ≤ count * period =
      subst (λ k. period ≤ k) (mul_comm period count) (le-mul_of_pos_right period g) in
    ((now + count * period) / period, refl, omega (arith, b.1, one), b.0)
