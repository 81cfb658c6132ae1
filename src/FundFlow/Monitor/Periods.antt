-- ===== src/FundFlow/Monitor/Periods.antt =====
-- level2_service/fund_flow_history.py: the tests that a sample passes in a single period.
use tonghuashun.Base.{
  String, ◌≡◌, ◌↔◌, Bool, true, false, ◌&&◌, ◌||◌, not, Option, arith, is_some, any, all,
  Bool-cases, ◌⊎◌, inl, inr,
}
use tonghuashun.Models.Metrics.{row_of, MetricKind, Period, FlowField, unit_metric, flow_metric}
use tonghuashun.FundFlow.{has_value, periods_from_outcome}
use tonghuashun.FundFlow.Monitor.{period_values}

-- The period has a unit or a metric among the values.
pub IsPresent : (MetricKind → Option String) → Period → Type 0
IsPresent values p =
    (is_some (values (unit_metric p)) ≡ true)
    ⊎ ((f : FlowField) × (is_some (values (flow_metric p f)) ≡ true))

-- The tests of one period, as one Boolean for each of its five values.
pub IsPresent-iff :
    (values : MetricKind → Option String) (p : Period)
    → IsPresent values p ↔ (is_some (periods_from_outcome values p) ≡ true)
unfolding IsPresent periods_from_outcome row_of has_value
IsPresent-iff values p = (
  λ h. elim h [ inl u ↦ ground arith | inr (f, g) ↦ by_field f g ],
  λ h. elim (Bool-cases (is_some (values (unit_metric p)))) [
    | inl u ↦ inl u
    | inr u ↦ inr (some_field u h)
  ],
)
  where
    by_field :
        (f : FlowField)
        → is_some (values (flow_metric p f)) ≡ true
        → is_some (periods_from_outcome values p) ≡ true
    by_field FlowField.main_net_inflow g = ground arith
    by_field FlowField.main_visible_inflow g = ground arith
    by_field FlowField.main_hidden_inflow g = ground arith
    by_field FlowField.retail_inflow g = ground arith

    some_field :
        is_some (values (unit_metric p)) ≡ false
        → is_some (periods_from_outcome values p) ≡ true
        → (f : FlowField) × (is_some (values (flow_metric p f)) ≡ true)
    some_field u h =
        elim (Bool-cases (is_some (values (flow_metric p FlowField.main_net_inflow)))) [
          | inl g ↦ (FlowField.main_net_inflow, g)
          | inr a ↦
              elim (Bool-cases (is_some (values (flow_metric p FlowField.main_visible_inflow)))) [
                | inl g ↦ (FlowField.main_visible_inflow, g)
                | inr b ↦
                    elim (Bool-cases
                      (is_some (values (flow_metric p FlowField.main_hidden_inflow)))) [
                        | inl g ↦ (FlowField.main_hidden_inflow, g)
                        | inr c ↦ (FlowField.retail_inflow, ground arith)
                      ]
              ]
        ]

abbrev pub has_all : (MetricKind → Option String) → Period → Bool
has_all values p =
    is_some (values (flow_metric p FlowField.main_net_inflow))
    && is_some (values (flow_metric p FlowField.main_visible_inflow))
    && is_some (values (flow_metric p FlowField.main_hidden_inflow))
    && is_some (values (flow_metric p FlowField.retail_inflow))

has_all_iff :
    (values : MetricKind → Option String) (p : Period)
    → (has_all values p ≡ true) ↔ ((f : FlowField) → is_some (values (flow_metric p f)) ≡ true)
has_all_iff values p = (
  each,
  λ h. ground (
    arith,
    h FlowField.main_net_inflow,
    h FlowField.main_visible_inflow,
    h FlowField.main_hidden_inflow,
    h FlowField.retail_inflow,
  ),
)
  where
    each : has_all values p ≡ true → (f : FlowField) → is_some (values (flow_metric p f)) ≡ true
    each h FlowField.main_net_inflow = ground arith
    each h FlowField.main_visible_inflow = ground arith
    each h FlowField.main_hidden_inflow = ground arith
    each h FlowField.retail_inflow = ground arith

-- The metrics of a period, by whether it is there.
pub all-period :
    (values : MetricKind → Option String) (p : Period)
    → all is_some (period_values (periods_from_outcome values p))
      ≡ (not (is_some (periods_from_outcome values p)) || has_all values p)
unfolding periods_from_outcome row_of
all-period values p = ground arith

pub any-period :
    (values : MetricKind → Option String) (p : Period)
    → is_some (periods_from_outcome values p) ≡ true
    → has_all values p ≡ true
    → any is_some (period_values (periods_from_outcome values p)) ≡ true
unfolding periods_from_outcome row_of
any-period values p h a = ground arith

pub any-absent :
    (values : MetricKind → Option String) (p : Period)
    → is_some (periods_from_outcome values p) ≡ false
    → any is_some (period_values (periods_from_outcome values p)) ≡ false
unfolding periods_from_outcome
any-absent values p h = ground arith

abbrev pub present : (MetricKind → Option String) → Period → Bool
present values p = is_some (periods_from_outcome values p)

abbrev pub fits : (MetricKind → Option String) → Period → Bool
fits values p = not (present values p) || has_all values p

pub fits_iff :
    (values : MetricKind → Option String) (p : Period)
    → (fits values p ≡ true)
      ↔ (IsPresent values p → (f : FlowField) → is_some (values (flow_metric p f)) ≡ true)
fits_iff values p = (
  λ h q. (has_all_iff values p).0 (ground (arith, (IsPresent-iff values p).0 q)),
  λ g. elim (Bool-cases (present values p)) [
    | inr n ↦ ground arith
    | inl y ↦ let a = (has_all_iff values p).1 (g ((IsPresent-iff values p).1 y)) in ground arith
  ],
)
