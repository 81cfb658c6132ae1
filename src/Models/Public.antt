-- ===== src/Models/Public.antt =====
-- level2_service/models.py: the view of a task that the web service sends. Its texts of statuses,
-- kinds and sources stand for the enumerations, and its texts of times for the times.
use tonghuashun.Base.{
  ℕ, String, Bool, Option, none, some, List, [], ◌∷◌, if◌then◌else◌, is_some, any, join,
}
use tonghuashun.Models.{
  TaskRecord, TaskStatus, CaptureStatus, CaptureKind, CaptureRecord, SourceErrors, is_ready,
  capture_of, expires_at,
}
use tonghuashun.Models.Metrics.{
  MetricKind, ValueSource, Period, FlowField, Row, IntradaySeries, SeriesOf, flow_metric, row_of,
}

pub record PublicCapture : Type 0 where
  pub status : CaptureStatus
  pub url : Option String
  pub expires_at : Option ℕ

-- The eight values, or the eight sources, with those of the minute series and of the fund flow.
pub record PublicValues (V S F : Type 0) : Type 0 where
  pub stock_name : V
  pub current_price : V
  pub change_percent : V
  pub turnover_rate : V
  pub large_order_net : V
  pub large_order_amount : V
  pub retail_count : V
  pub macdfs : V
  pub intraday_series : SeriesOf S
  pub main_fund_flow : Period → F

pub record PublicTask : Type 0 where
  pub public_id : String
  pub symbol : String
  pub include_long_capture : Bool
  pub status : TaskStatus
  pub error_code : Option String
  pub source_errors : SourceErrors
  pub queue_position : Option ℕ
  pub created_at : ℕ
  pub collected_at : Option ℕ
  pub captures : List (CaptureKind × PublicCapture)
  pub values : PublicValues (Option String) IntradaySeries Row
  pub value_sources :
      PublicValues (Option ValueSource) (Option ValueSource) (FlowField → Option ValueSource)
  pub market_snapshot : Option (List (String × String))
  pub long_capture : PublicCapture

abbrev kind_text : CaptureKind → String
kind_text CaptureKind.large_order_net = "LARGE_ORDER_NET"
kind_text CaptureKind.large_order_amount = "LARGE_ORDER_AMOUNT"
kind_text CaptureKind.retail_count = "RETAIL_COUNT"

abbrev public_capture : String → CaptureRecord → PublicCapture
unfolding expires_at
public_capture url c = record {
  status = c.status;
  url = if is_ready c.status then some url else none;
  expires_at = expires_at c;
}

-- An entry of the list of captures.
unfoldable pub capture_entry : TaskRecord → CaptureKind → CaptureKind × PublicCapture
unfolding capture_of public_capture
capture_entry task kind = (
  kind,
  public_capture (join "/api/v1/jobs/" (join task.task_id (join "/captures/" (kind_text kind))))
      (capture_of task.captures kind),
)

-- The source of a minute series: the interface, if a point has a value.
unfoldable pub series_source : IntradaySeries → Option ValueSource
series_source s = if any (λ p. is_some p.value) s.points then some ValueSource.interface else none

unfoldable pub public_values : TaskRecord → PublicValues (Option String) IntradaySeries Row
unfolding row_of
public_values task = record {
  stock_name = task.values MetricKind.stock_name;
  current_price = task.values MetricKind.current_price;
  change_percent = task.values MetricKind.change_percent;
  turnover_rate = task.values MetricKind.turnover_rate;
  large_order_net = task.values MetricKind.large_order_net;
  large_order_amount = task.values MetricKind.large_order_amount;
  retail_count = task.values MetricKind.retail_count;
  macdfs = task.values MetricKind.macdfs;
  intraday_series = task.intraday_series;
  main_fund_flow = row_of task.values;
}

unfoldable pub public_sources :
    TaskRecord
    → PublicValues (Option ValueSource) (Option ValueSource) (FlowField → Option ValueSource)
unfolding series_source flow_metric
public_sources task = record {
  stock_name = task.value_sources MetricKind.stock_name;
  current_price = task.value_sources MetricKind.current_price;
  change_percent = task.value_sources MetricKind.change_percent;
  turnover_rate = task.value_sources MetricKind.turnover_rate;
  large_order_net = task.value_sources MetricKind.large_order_net;
  large_order_amount = task.value_sources MetricKind.large_order_amount;
  retail_count = task.value_sources MetricKind.retail_count;
  macdfs = task.value_sources MetricKind.macdfs;
  intraday_series = record {
    large_order_net = series_source task.intraday_series.large_order_net;
    large_order_amount = series_source task.intraday_series.large_order_amount;
    retail_count = series_source task.intraday_series.retail_count;
  };
  main_fund_flow = λ p f. task.value_sources (flow_metric p f);
}

-- as_public
unfoldable pub as_public : TaskRecord → PublicTask
unfolding public_values public_sources capture_entry public_capture
as_public task = record {
  public_id = task.task_id;
  symbol = task.symbol;
  include_long_capture = task.include_long_capture;
  status = task.status;
  error_code = task.error_code;
  source_errors = task.source_errors;
  queue_position = none;
  created_at = task.created_at;
  collected_at = task.collected_at;
  captures =
      capture_entry task CaptureKind.large_order_net
      ∷ capture_entry task CaptureKind.large_order_amount
      ∷ capture_entry task CaptureKind.retail_count
      ∷ [];
  values = public_values task;
  value_sources = public_sources task;
  market_snapshot = task.snapshot;
  long_capture =
      public_capture (join "/api/v1/jobs/" (join task.task_id "/capture")) task.long_capture;
}
