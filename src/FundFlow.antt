-- ===== src/FundFlow.antt =====
-- level2_service/database_first_fund_flow.py and level2_service/fund_flow_history.py: the rows of
-- the fund flow, from the values of a read and back. A dict of periods is a function that gives
-- `none` for a missing key; a value is a text.
pub mod Rows
pub mod Source
pub mod Monitor
use tonghuashun.Base.{String, Bool, true, false, ◌||◌, Option, none, some, is_some, if◌then◌else◌}
use tonghuashun.Models.{SourceErrors, no_source_errors}
use tonghuashun.Models.Metrics.{MetricKind, Period, FlowField, Row, row_of}

-- DirectReadOutcome, with `values` as the `get` of its dict.
pub record DirectReadOutcome : Type 0 where
  pub values : MetricKind → Option String
  pub source_errors : SourceErrors

-- The values that the loop of _outcome_from_history sets, over the None of every other metric.
unfoldable pub history_value : (Period → Row) → MetricKind → Option String
history_value h MetricKind.main_flow_today_unit = (h Period.today).unit
history_value h MetricKind.main_flow_today_net = (h Period.today).field FlowField.main_net_inflow
history_value h MetricKind.main_flow_today_visible =
    (h Period.today).field FlowField.main_visible_inflow
history_value h MetricKind.main_flow_today_hidden =
    (h Period.today).field FlowField.main_hidden_inflow
history_value h MetricKind.main_flow_today_retail = (h Period.today).field FlowField.retail_inflow
history_value h MetricKind.main_flow_three_day_unit = (h Period.three_day).unit
history_value h MetricKind.main_flow_three_day_net =
    (h Period.three_day).field FlowField.main_net_inflow
history_value h MetricKind.main_flow_three_day_visible =
    (h Period.three_day).field FlowField.main_visible_inflow
history_value h MetricKind.main_flow_three_day_hidden =
    (h Period.three_day).field FlowField.main_hidden_inflow
history_value h MetricKind.main_flow_three_day_retail =
    (h Period.three_day).field FlowField.retail_inflow
history_value h MetricKind.main_flow_five_day_unit = (h Period.five_day).unit
history_value h MetricKind.main_flow_five_day_net =
    (h Period.five_day).field FlowField.main_net_inflow
history_value h MetricKind.main_flow_five_day_visible =
    (h Period.five_day).field FlowField.main_visible_inflow
history_value h MetricKind.main_flow_five_day_hidden =
    (h Period.five_day).field FlowField.main_hidden_inflow
history_value h MetricKind.main_flow_five_day_retail =
    (h Period.five_day).field FlowField.retail_inflow
history_value h _ = none

-- The history has a row for every period, as the store that gives it always does.
unfoldable pub outcome_from_history : (Period → Row) → DirectReadOutcome
unfolding history_value
outcome_from_history h = record { values = history_value h; source_errors = no_source_errors }

-- any(value is not None for value in row.values())
unfoldable pub has_value : Row → Bool
has_value r =
    is_some r.unit
    || is_some (r.field FlowField.main_net_inflow)
    || is_some (r.field FlowField.main_visible_inflow)
    || is_some (r.field FlowField.main_hidden_inflow)
    || is_some (r.field FlowField.retail_inflow)

-- _periods_from_outcome, and _periods of the monitor: the rows that have a value.
unfoldable pub periods_from_outcome : (MetricKind → Option String) → Period → Option Row
unfolding row_of has_value
periods_from_outcome values p = if has_value (row_of values p) then some (row_of values p) else none
