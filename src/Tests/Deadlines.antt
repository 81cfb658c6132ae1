-- ===== src/Tests/Deadlines.antt =====
-- The calendar of level2_service/workday_calendar.py at concrete inputs.
use tonghuashun.Base.{◌≡◌, ◌≢◌, ◌⊎◌, refl, some, none, [], ◌∷◌}
use tonghuashun.Calendar.{ChinaLegalWorkdayCalendar, is_workday, add_workdays}
use tonghuashun.Calendar.Counting.{Advances, add_workdays-Advances}

-- Two weeks from a Monday, with a holiday on the Tuesday and work on the first Saturday.
abbrev two_weeks : ChinaLegalWorkdayCalendar
two_weeks = record {
  coverage_start = 8;
  coverage_end = 21;
  holidays = 9 ∷ [];
  adjusted_workdays = 13 ∷ [];
}

-- Five workdays after the Monday is the next Monday.
five_later : add_workdays two_weeks 8 5 ≡ some (some 15)
unfolding add_workdays
five_later = refl

add_workdays-Advances_example :
    ((is_workday two_weeks 8 ≡ none) × (add_workdays two_weeks 8 5 ≡ some none))
    ⊎ ((is_workday two_weeks 8 ≢ none) × Advances two_weeks 8 5 (add_workdays two_weeks 8 5))
add_workdays-Advances_example = add_workdays-Advances two_weeks 8 5
