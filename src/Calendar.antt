-- ===== src/Calendar.antt =====
-- level2_service/workday_calendar.py: the calendar of Chinese workdays. A date is its ordinal, the
-- number that `date.toordinal` gives it; the reading of the JSON file is not modelled.
pub mod Counting
use tonghuashun.Base.{
  ℕ, zero, suc, ◌+◌, ◌-◌, ◌%◌, Bool, true, false, ◌||◌, Option, none, some, List, [], ◌∷◌, ltb, leb,
  nat_eq, if◌then◌else◌, any,
}

pub record ChinaLegalWorkdayCalendar : Type 0 where
  pub coverage_start : ℕ
  pub coverage_end : ℕ
  pub holidays : List ℕ
  pub adjusted_workdays : List ℕ

unfoldable pub member : ℕ → List ℕ → Bool
member d ds = any (λ x. nat_eq x d) ds

-- The checks of from_file on the dates that it has read; `none` is a ValueError.
unfoldable pub checked : ℕ → ℕ → List ℕ → List ℕ → Option ChinaLegalWorkdayCalendar
unfolding member
checked start end holidays adjusted =
    if ltb end start
    then none
    else if any (λ d. member d adjusted) holidays
    then none
    else some (record {
      coverage_start = start;
      coverage_end = end;
      holidays = holidays;
      adjusted_workdays = adjusted;
    })

-- date.weekday(), where 0 is a Monday.
unfoldable pub weekday : ℕ → ℕ
weekday d = (d + 6) % 7

unfoldable pub is_workday : ChinaLegalWorkdayCalendar → ℕ → Option Bool
unfolding member weekday
is_workday c d =
    if ltb d c.coverage_start || ltb c.coverage_end d
    then none
    else if member d c.holidays
    then some false
    else if member d c.adjusted_workdays
    then some true
    else some (ltb (weekday d) 5)

-- The loop of add_workdays. The outer `none` says that the rounds ran out, which is never reached.
unfoldable pub advance : ChinaLegalWorkdayCalendar → ℕ → ℕ → ℕ → Option (Option ℕ)
advance c zero current zero = some (some current)
advance c zero current (suc remaining) = none
advance c (suc fuel) current zero = some (some current)
advance c (suc fuel) current (suc remaining) = elim (is_workday c (current + 1)) [
  | none ↦ some none
  | some working ↦ advance c fuel (current + 1) (if working then remaining else suc remaining)
]

-- add_workdays for a count that is not negative.
unfoldable pub add_workdays : ChinaLegalWorkdayCalendar → ℕ → ℕ → Option (Option ℕ)
unfolding is_workday advance
add_workdays c start count = elim (is_workday c start) [
  | none ↦ some none
  | some _ ↦ advance c (suc (c.coverage_end - start)) start count
]

-- expiry_date for a moment with a time zone, given by its date in Shanghai.
unfoldable pub expiry_date : ChinaLegalWorkdayCalendar → Option ℕ → Option (Option ℕ)
unfolding add_workdays
expiry_date c local_date = elim local_date [ none ↦ some none | some d ↦ add_workdays c d 7 ]
