-- ===== src/FundFlow/Monitor.antt =====
-- level2_service/fund_flow_history.py: `FundFlowHistoryMonitor`. The market, the clock, the
-- watchlist, the source and the store are objects that it is given: what they answer is an argument,
-- and the calls of the store are recorded. The symbols are collected one after the other; the code
-- runs some of them side by side, and each gives its own calls.
pub mod Periods
pub mod Judging
use tonghuashun.Base.{
  ℕ, ◌-◌, String, Bool, true, false, ◌&&◌, ◌||◌, not, Option, none, some, List, [], ◌∷◌, ◌++◌, ◌==◌,
  if◌then◌else◌, is_some, any, all, nat_eq, contains,
}
use tonghuashun.Models.Metrics.{Row, MetricKind, Period, FlowField}
use tonghuashun.FundFlow.{periods_from_outcome}
use tonghuashun.Queue.Canonical.{text_lt}

pub data Quality : Type 0 where
  valid partly empty : Quality

-- The four metrics of the rows that are there, in the order of metric_values.
abbrev pub row_values : Row → List (Option String)
row_values r =
    r.field FlowField.main_net_inflow
    ∷ r.field FlowField.main_visible_inflow
    ∷ r.field FlowField.main_hidden_inflow
    ∷ r.field FlowField.retail_inflow
    ∷ []

abbrev pub period_values : Option Row → List (Option String)
period_values none = []
period_values (some r) = row_values r

unfoldable pub metric_values : (Period → Option Row) → List (Option String)
metric_values periods =
    period_values (periods Period.today)
    ++ period_values (periods Period.three_day)
    ++ period_values (periods Period.five_day)

-- _quality
unfoldable pub quality : (Period → Option Row) → Quality
unfolding metric_values
quality periods =
    let vs = metric_values periods in
    if not (any is_some vs)
    then Quality.empty
    else if all is_some vs
    then Quality.valid
    else Quality.partly

pub data StoreCall : Type 0 where
  record_fund_flow : String → String → String → (Period → Option Row) → StoreCall
  record_fund_flow_error : String → String → StoreCall
  cleanup_fund_flow_history : String → StoreCall

-- What the source and the store answer for a symbol: the values, with whether the record changed
-- the store, or the code that fixed_market_error_code makes of an exception of the source.
pub data SourceAnswer : Type 0 where
  read_values : (MetricKind → Option String) → Bool → SourceAnswer
  failed : String → SourceAnswer

unfoldable pub no_periods : (Period → Option Row) → Bool
no_periods periods = not (
    is_some (periods Period.today)
    || is_some (periods Period.three_day)
    || is_some (periods Period.five_day))

-- After the periods are read.
unfoldable pub collect_quality :
    String → String → String → (Period → Option Row) → Bool → Quality → Bool × List StoreCall
collect_quality date minute symbol periods changed Quality.empty =
    (false, record_fund_flow_error symbol "DIRECT_FUND_FLOW_EMPTY" ∷ [])
collect_quality date minute symbol periods changed Quality.partly = (
  false,
  record_fund_flow symbol date minute periods
      ∷ record_fund_flow_error symbol "DIRECT_FUND_FLOW_PARTIAL"
      ∷ [],
)
collect_quality date minute symbol periods changed Quality.valid =
    (changed, record_fund_flow symbol date minute periods ∷ [])

-- collect: the result for a symbol and the calls of the store.
unfoldable pub collect : String → String → String → SourceAnswer → Bool × List StoreCall
unfolding quality no_periods collect_quality periods_from_outcome
collect date minute symbol (failed code) = (false, record_fund_flow_error symbol code ∷ [])
collect date minute symbol (read_values values changed) =
    let periods = periods_from_outcome values in
    if no_periods periods
    then (false, record_fund_flow_error symbol "DIRECT_FUND_FLOW_EMPTY" ∷ [])
    else collect_quality date minute symbol periods changed (quality periods)

pub record FundFlowHistoryMonitor : Type 0 where
  pub last_cleanup_date : Option String

abbrev same_date : Option String → String → Bool
same_date none d = false
same_date (some c) d = c == d

-- _cleanup_if_due; `cutoff` is the date as many days earlier as the store keeps.
unfoldable pub cleanup_if_due :
    String → String → FundFlowHistoryMonitor → FundFlowHistoryMonitor × List StoreCall
cleanup_if_due today cutoff m =
    if same_date m.last_cleanup_date today
    then (m, [])
    else (record { last_cleanup_date = some today }, cleanup_fund_flow_history cutoff ∷ [])

-- sorted({…}): each symbol once, in the order of texts.
unfoldable pub insert_symbol : String → List String → List String
insert_symbol x [] = x ∷ []
insert_symbol x (y ∷ ys) =
    let rest = insert_symbol x ys in
    if x == y then y ∷ ys else if text_lt x y then x ∷ y ∷ ys else y ∷ rest

unfoldable pub sorted_symbols : List String → List String
unfolding insert_symbol
sorted_symbols [] = []
sorted_symbols (x ∷ xs) = insert_symbol x (sorted_symbols xs)

unfoldable pub collect_all :
    String → String → (String → SourceAnswer) → List String → List (String × Bool) × List StoreCall
unfolding collect
collect_all date minute answer [] = ([], [])
collect_all date minute answer (x ∷ xs) =
    let one = collect date minute x (answer x) in
    let rest = collect_all date minute answer xs in ((x, one.0) ∷ rest.0, one.1 ++ rest.1)

-- poll_once
unfoldable pub poll_once :
    Bool
    → List String
    → String
    → String
    → String
    → (String → SourceAnswer)
    → FundFlowHistoryMonitor
    → List (String × Bool) × FundFlowHistoryMonitor × List StoreCall
unfolding sorted_symbols collect_all cleanup_if_due
poll_once is_open watched date minute cutoff answer m =
    if not is_open then ([], m, []) else (elim (sorted_symbols watched) [
      | [] ↦ ([], m, [])
      | x ∷ xs ↦
          let due = cleanup_if_due date cutoff m in
          let all = collect_all date minute answer (x ∷ xs) in (all.0, due.0, due.1 ++ all.1)
    ])
