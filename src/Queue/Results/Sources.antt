-- ===== src/Queue/Results/Sources.antt =====
-- level2_service/queue.py and level2_service/models.py: the values and the sources in the public
-- view of a result.
use tonghuashun.Base.{
  String, ◌≡◌, refl, subst, Option, none, some, arith, is_some, Bool-cases, Option-cases, inl, inr,
}
use tonghuashun.Dict.{get}
use tonghuashun.Models.{TaskRecord}
use tonghuashun.Models.Metrics.{MetricKind, ValueSource, Period, FlowField, row_of, flow_metric}
use tonghuashun.Models.Public.{PublicTask, as_public, public_values, public_sources}
use tonghuashun.Queue.{Streams, Clocks, ok}
use tonghuashun.Queue.Results.{
  Outcome, accepts, wrong_path, source_of, with_values, with_long_capture, concluded, resulted_task,
  complete_result_at, complete_result,
}

-- The public value and the public source are there together.
abbrev pub Together : Option String → Option ValueSource → Type 0
Together v s = is_some s ≡ is_some v

pub record IsSourced (p : PublicTask) : Type 0 where
  pub name : Together p.values.stock_name p.value_sources.stock_name
  pub price : Together p.values.current_price p.value_sources.current_price
  pub change : Together p.values.change_percent p.value_sources.change_percent
  pub turnover : Together p.values.turnover_rate p.value_sources.turnover_rate
  pub net : Together p.values.large_order_net p.value_sources.large_order_net
  pub amount : Together p.values.large_order_amount p.value_sources.large_order_amount
  pub retail : Together p.values.retail_count p.value_sources.retail_count
  pub macdfs : Together p.values.macdfs p.value_sources.macdfs
  pub flow :
      (period : Period) (f : FlowField)
      → Together
          ((p.values.main_fund_flow period).field f)
          (p.value_sources.main_fund_flow period f)

source-Together : (o : Outcome) (kind : MetricKind) → Together (o.values kind) (source_of o kind)
unfolding source_of
source-Together o kind = ground arith

resulted-values :
    (now : Clocks) (o : Outcome) (task : TaskRecord)
    → ((resulted_task now o task).values ≡ o.values)
      × ((resulted_task now o task).value_sources ≡ source_of o)
unfolding resulted_task concluded with_values with_long_capture
resulted-values now o task = go o.path
  where
    go :
        (p : Option String)
        → ((with_long_capture now p (with_values o task)).values ≡ o.values)
          × ((with_long_capture now p (with_values o task)).value_sources ≡ source_of o)
    go none = (refl, refl)
    go (some p) = (refl, refl)

published :
    (t : TaskRecord)
    → ((kind : MetricKind) → Together (t.values kind) (t.value_sources kind))
    → IsSourced (as_public t)
unfolding as_public public_values public_sources row_of
published t h = record {
  name = h MetricKind.stock_name;
  price = h MetricKind.current_price;
  change = h MetricKind.change_percent;
  turnover = h MetricKind.turnover_rate;
  net = h MetricKind.large_order_net;
  amount = h MetricKind.large_order_amount;
  retail = h MetricKind.retail_count;
  macdfs = h MetricKind.macdfs;
  flow = λ period f. h (flow_metric period f);
}

-- In the public view of a task that a successful result returns, each of the eight values and each
-- metric of the fund flow is present exactly if its source is.
pub complete_result-IsSourced :
    (now : Clocks) (id : String) (o : Outcome) (s : Streams) (t : TaskRecord)
    → (complete_result now id o s).0 ≡ ok t
    → IsSourced (as_public t)
unfolding complete_result complete_result_at
complete_result-IsSourced now id o s t e = elim (Option-cases (get id s.tasks)) [
  | inl g ↦ absurd (ground arith)
  | inr (task, g) ↦ elim (Bool-cases (accepts task.status)) [
    | inr n ↦ absurd (ground arith)
    | inl y ↦ elim (Bool-cases (wrong_path task.include_long_capture o.path)) [
      | inl w ↦ absurd (ground arith)
      | inr r ↦
          let same : resulted_task now o task ≡ t = ground arith in
          let v = resulted-values now o task in
          subst (λ x. IsSourced (as_public x)) same
            (published (resulted_task now o task) (λ kind. rw (v.0, v.1) (source-Together o kind)))
    ]
  ]
]
