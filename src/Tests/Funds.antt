-- ===== src/Tests/Funds.antt =====
-- The fund flow of level2_service/database_first_fund_flow.py and fund_flow_history.py at concrete
-- inputs.
use tonghuashun.Base.{
  ◌+◌, ◌≡◌, ◌≤◌, ◌↔◌, refl, true, false, some, none, [], ◌∷◌, if◌then◌else◌, is_some,
}
use tonghuashun.Models.{no_source_errors}
use tonghuashun.Models.Metrics.{Period, Row}
use tonghuashun.FundFlow.{DirectReadOutcome, outcome_from_history, has_value, periods_from_outcome}
use tonghuashun.FundFlow.Rows.{periods-history}
use tonghuashun.FundFlow.Source.{Answers, FundSource, find_fallback}
use tonghuashun.FundFlow.Source.Once.{Read, IsClosedRead, reads, asked, reads-AskOnce}
use tonghuashun.FundFlow.Monitor.{collect, read_values}
use tonghuashun.FundFlow.Monitor.Judging.{IsComplete, collect-IsComplete}

abbrev some_row : Row
some_row = record { unit = none; field = λ f. some "1" }

periods-history_example :
    periods_from_outcome (outcome_from_history (λ p. some_row)).values Period.three_day
    ≡ (if has_value some_row then some some_row else none)
periods-history_example = periods-history (λ p. some_row) Period.three_day

abbrev no_values : DirectReadOutcome
no_values = record { values = λ k. none; source_errors = no_source_errors }

-- A read while the market is closed, for a symbol that nobody watches.
abbrev closed_read : Answers
closed_read = record {
  date = "20260102";
  minute = "16:00";
  watched = false;
  open_for_history = false;
  fresh_history = none;
  last_history = none;
  open_for_cache = false;
  live = some no_values;
  open_for_record = false;
  watched_for_record = false;
  open_for_fallback = false;
}

closed_read-IsClosedRead : IsClosedRead "20260102" closed_read
closed_read-IsClosedRead = record {
  day = refl;
  cache = refl;
  not_recorded = refl;
  fallback = refl;
  answered = refl;
}

abbrev same_read : Read
same_read = record { answers = closed_read; symbol = "600000" }

abbrev empty_source : FundSource
empty_source = record { closed_fallbacks = []; requests = [] }

reads-AskOnce_example :
    asked "600000" (reads (same_read ∷ same_read ∷ []) empty_source)
    ≤ asked "600000" empty_source
      + (if is_some (find_fallback "600000" "20260102" empty_source.closed_fallbacks) then 0 else 1)
reads-AskOnce_example =
    reads-AskOnce "20260102" "600000" (same_read ∷ same_read ∷ []) empty_source
      (closed_read-IsClosedRead, (closed_read-IsClosedRead, tt))

collect-IsComplete_example :
    ((collect "20260102" "10:00" "600000" (read_values (λ k. some "1") true)).0 ≡ true)
    ↔ IsComplete (λ k. some "1")
collect-IsComplete_example = collect-IsComplete "20260102" "10:00" "600000" (λ k. some "1")
