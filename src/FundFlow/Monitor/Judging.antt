-- ===== src/FundFlow/Monitor/Judging.antt =====
-- level2_service/fund_flow_history.py: which samples count as collected.
use tonghuashun.Base.{
  String, ◌≡◌, ◌↔◌, refl, sym, ◌∙◌, Bool, true, ◌&&◌, ◌||◌, not, Option, List, [], ◌∷◌, ◌++◌, arith,
  if◌then◌else◌, is_some, any, all, Bool-cases, inl, inr,
}
use tonghuashun.Models.Metrics.{MetricKind, Period, FlowField, flow_metric}
use tonghuashun.FundFlow.{periods_from_outcome}
use tonghuashun.FundFlow.Monitor.{
  Quality, read_values, period_values, metric_values, quality, no_periods, collect_quality, collect,
}
use tonghuashun.FundFlow.Monitor.Periods.{
  IsPresent, IsPresent-iff, all-period, any-period, present, fits, fits_iff,
}

-- A period is present, and each present period has all four metrics.
pub IsComplete : (MetricKind → Option String) → Type 0
IsComplete values =
    ((p : Period) × IsPresent values p)
    × ((p : Period)
        → IsPresent values p
        → (f : FlowField) → is_some (values (flow_metric p f)) ≡ true)

module _ {A : Type 0} where
  any-append : (q : A → Bool) (xs ys : List A) → any q (xs ++ ys) ≡ (any q xs || any q ys)
  any-append q [] ys = refl
  any-append q (x ∷ xs) ys = ground (arith, any-append q xs ys)

  all-append : (q : A → Bool) (xs ys : List A) → all q (xs ++ ys) ≡ (all q xs && all q ys)
  all-append q [] ys = refl
  all-append q (x ∷ xs) ys = ground (arith, all-append q xs ys)

-- The quality in terms of the single periods.
quality-tests :
    (values : MetricKind → Option String)
    → quality (periods_from_outcome values) ≡ (
        if not (
          any is_some (period_values (periods_from_outcome values Period.today))
          || any is_some (period_values (periods_from_outcome values Period.three_day))
          || any is_some (period_values (periods_from_outcome values Period.five_day)))
        then Quality.empty
        else if fits values Period.today
            && fits values Period.three_day
            && fits values Period.five_day
        then Quality.valid
        else Quality.partly)
unfolding quality metric_values
quality-tests values =
    rw (any-append, all-append, any-append, all-append, all-period, all-period, all-period) refl

-- A sample whose record changes the store counts as collected by these tests.
collect-tests :
    (date minute symbol : String) (values : MetricKind → Option String)
    → (collect date minute symbol (read_values values true)).0 ≡ (
        (present values Period.today
          || present values Period.three_day
          || present values Period.five_day)
        && fits values Period.today
        && fits values Period.three_day
        && fits values Period.five_day)
unfolding collect no_periods collect_quality
collect-tests date minute symbol values = rw (quality-tests values) (
    ground (
      arith,
      any-period values Period.today,
      any-period values Period.three_day,
      any-period values Period.five_day,
    ))

some_present :
    (values : MetricKind → Option String)
    → (present values Period.today
        || present values Period.three_day
        || present values Period.five_day)
      ≡ true
    → (p : Period) × IsPresent values p
some_present values h = elim (Bool-cases (present values Period.today)) [
  | inl a ↦ (Period.today, (IsPresent-iff values Period.today).1 a)
  | inr a ↦ elim (Bool-cases (present values Period.three_day)) [
    | inl b ↦ (Period.three_day, (IsPresent-iff values Period.three_day).1 b)
    | inr b ↦ (Period.five_day, (IsPresent-iff values Period.five_day).1 (ground arith))
  ]
]

present_some :
    (values : MetricKind → Option String) (p : Period)
    → IsPresent values p
    → (present values Period.today
        || present values Period.three_day
        || present values Period.five_day)
      ≡ true
present_some values Period.today q = ground (arith, (IsPresent-iff values Period.today).0 q)
present_some values Period.three_day q = ground (arith, (IsPresent-iff values Period.three_day).0 q)
present_some values Period.five_day q = ground (arith, (IsPresent-iff values Period.five_day).0 q)

-- A sample whose record changes the store counts as collected exactly if it has a period with a
-- value, and each period with a unit or a metric has all four metrics.
pub collect-IsComplete :
    (date minute symbol : String) (values : MetricKind → Option String)
    → ((collect date minute symbol (read_values values true)).0 ≡ true) ↔ IsComplete values
unfolding IsComplete
collect-IsComplete date minute symbol values = (
  λ h.
      let t = sym (collect-tests date minute symbol values) ∙ h in
      (some_present values (ground arith), each t),
  λ c.
      collect-tests date minute symbol values
      ∙ ground (
        arith,
        present_some values c.0.0 c.0.1,
        (fits_iff values Period.today).1 (c.1 Period.today),
        (fits_iff values Period.three_day).1 (c.1 Period.three_day),
        (fits_iff values Period.five_day).1 (c.1 Period.five_day),
      ),
)
  where
    each :
        ((present values Period.today
              || present values Period.three_day
              || present values Period.five_day)
            && fits values Period.today
            && fits values Period.three_day
            && fits values Period.five_day)
          ≡ true
        → (p : Period) → IsPresent values p
        → (f : FlowField) → is_some (values (flow_metric p f)) ≡ true
    each t Period.today = (fits_iff values Period.today).0 (ground arith)
    each t Period.three_day = (fits_iff values Period.three_day).0 (ground arith)
    each t Period.five_day = (fits_iff values Period.five_day).0 (ground arith)
