-- ===== src/FundFlow/Rows.antt =====
-- level2_service/database_first_fund_flow.py: history becomes an outcome and a history again.
use tonghuashun.Base.{◌≡◌, refl, none, some, if◌then◌else◌, ap}
use tonghuashun.Models.Metrics.{Row, row_of, Period, FlowField, unit_metric, flow_metric}
use tonghuashun.FundFlow.{history_value, outcome_from_history, has_value, periods_from_outcome}

field_back :
    (h : Period → Row) (p : Period) (f : FlowField)
    → history_value h (flow_metric p f) ≡ (h p).field f
unfolding history_value flow_metric
field_back h Period.today FlowField.main_net_inflow = refl
field_back h Period.today FlowField.main_visible_inflow = refl
field_back h Period.today FlowField.main_hidden_inflow = refl
field_back h Period.today FlowField.retail_inflow = refl
field_back h Period.three_day FlowField.main_net_inflow = refl
field_back h Period.three_day FlowField.main_visible_inflow = refl
field_back h Period.three_day FlowField.main_hidden_inflow = refl
field_back h Period.three_day FlowField.retail_inflow = refl
field_back h Period.five_day FlowField.main_net_inflow = refl
field_back h Period.five_day FlowField.main_visible_inflow = refl
field_back h Period.five_day FlowField.main_hidden_inflow = refl
field_back h Period.five_day FlowField.retail_inflow = refl

unit_back : (h : Period → Row) (p : Period) → history_value h (unit_metric p) ≡ (h p).unit
unfolding history_value unit_metric
unit_back h Period.today = refl
unit_back h Period.three_day = refl
unit_back h Period.five_day = refl

row_back : (h : Period → Row) (p : Period) → row_of (history_value h) p ≡ h p
unfolding row_of
row_back h p = λ i. record { unit = unit_back h p i; field = λ f. field_back h p f i }

-- The rows that an outcome made from a history gives are the rows of the history that have a value.
pub periods-history :
    (h : Period → Row) (p : Period)
    → periods_from_outcome (outcome_from_history h).values p
      ≡ (if has_value (h p) then some (h p) else none)
unfolding periods_from_outcome outcome_from_history
periods-history h p = ap (λ r. if has_value r then some r else none) (row_back h p)
