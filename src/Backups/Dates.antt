-- ===== src/Backups/Dates.antt =====
-- Python's datetime, as far as plinth/modules/backups/schedule.py uses it: naive local times of the
-- proleptic Gregorian calendar, their order and differences, `replace`, and `isoweekday`. A time is
-- compared by its microseconds since the first of January of year 1.
use freedom_box.Base.{
  ℕ, zero, suc, ◌+◌, ◌-◌, ◌*◌, ◌/◌, ◌%◌, ◌≡◌, refl, Bool, true, ◌&&◌, ◌||◌, not, Option, none, some,
  ltb, leb, nat_eq, if◌then◌else◌,
}

pub record DateTime : Type 0 where
  pub year : ℕ
  pub month : ℕ
  pub day : ℕ
  pub hour : ℕ
  pub minute : ℕ
  pub second : ℕ
  pub microsecond : ℕ

-- datetime.min
abbrev pub min_time : DateTime
min_time = record {
  year = 1;
  month = 1;
  day = 1;
  hour = 0;
  minute = 0;
  second = 0;
  microsecond = 0;
}

unfoldable pub is_leap : ℕ → Bool
is_leap y = nat_eq (y % 4) 0 && (not (nat_eq (y % 100) 0) || nat_eq (y % 400) 0)

unfoldable pub days_in_month : ℕ → ℕ → ℕ
unfolding is_leap
days_in_month y m =
    if nat_eq m 2
    then (if is_leap y then 29 else 28)
    else if nat_eq m 4 || (nat_eq m 6 || (nat_eq m 9 || nat_eq m 11))
    then 30
    else 31

-- The days of the year before its month `m + 1`.
days_before_month : ℕ → ℕ → ℕ
days_before_month y zero = 0
days_before_month y (suc m) = days_before_month y m + days_in_month y (suc m)

-- date.toordinal
unfoldable pub ordinal : DateTime → ℕ
unfolding days_before_month days_in_month
ordinal t =
    let y = t.year - 1 in
    y * 365 + y / 4 - y / 100 + y / 400 + days_before_month t.year (t.month - 1) + t.day

abbrev pub seconds : ℕ → ℕ
seconds n = n * 1000000

unfoldable pub stamp : DateTime → ℕ
unfolding ordinal
stamp t = seconds (ordinal t * 86400 + t.hour * 3600 + t.minute * 60 + t.second) + t.microsecond

-- a < b
abbrev pub before : DateTime → DateTime → Bool
before a b = ltb (stamp a) (stamp b)

-- a - b < d, where a may be before b
abbrev pub differs_less : DateTime → DateTime → ℕ → Bool
differs_less a b d = ltb (stamp a) (stamp b + d)

-- a - b > d
abbrev pub differs_more : DateTime → DateTime → ℕ → Bool
differs_more a b d = ltb (stamp b + d) (stamp a)

-- t.isoweekday() == 7
unfoldable pub is_sunday : DateTime → Bool
unfolding ordinal
is_sunday t = nat_eq (ordinal t % 7) 0

-- t.replace(year=y, month=m): `none` is ValueError.
unfoldable pub replace : DateTime → ℕ → ℕ → Option DateTime
replace t y m =
    if leb 1 m && (leb m 12 && leb t.day (days_in_month y m))
    then some (record t { year = y; month = m })
    else none

-- 2024-02-29 follows 2024-02-28, and 2024-03-03 was a Sunday.
abbrev leap_day : DateTime
leap_day = record min_time { year = 2024; month = 2; day = 29 }

ordinal-leap_day : ordinal leap_day ≡ 738945
unfolding ordinal
ordinal-leap_day = refl

is_sunday_example : is_sunday (record leap_day { month = 3; day = 3 }) ≡ true
unfolding is_sunday
is_sunday_example = refl
