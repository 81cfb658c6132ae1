-- ===== src/Models.antt =====
-- level2_service/models.py: the values that the web service and the runner share. Times are numbers
-- of microseconds, texts are `String`, and the values of a JSON document are texts too.
pub mod Metrics
pub mod Public
use tonghuashun.Base.{ℕ, ◌+◌, String, Bool, true, false, Option, none, some, List, [], ◌∷◌}
use tonghuashun.Models.Metrics.{MetricKind, ValueSource, IntradaySeries, SeriesOf, empty_series}

pub data CaptureKind : Type 0 where
  large_order_net large_order_amount retail_count : CaptureKind

pub data CaptureStatus : Type 0 where
  pending ready skipped expired : CaptureStatus

pub data TaskStatus : Type 0 where
  queued running waiting_admin completed market_snapshot partial failed expired : TaskStatus

abbrev pub status_eq : TaskStatus → TaskStatus → Bool
status_eq TaskStatus.queued TaskStatus.queued = true
status_eq TaskStatus.running TaskStatus.running = true
status_eq TaskStatus.waiting_admin TaskStatus.waiting_admin = true
status_eq TaskStatus.completed TaskStatus.completed = true
status_eq TaskStatus.market_snapshot TaskStatus.market_snapshot = true
status_eq TaskStatus.partial TaskStatus.partial = true
status_eq TaskStatus.failed TaskStatus.failed = true
status_eq TaskStatus.expired TaskStatus.expired = true
status_eq _ _ = false

abbrev pub is_ready : CaptureStatus → Bool
is_ready CaptureStatus.ready = true
is_ready _ = false

-- CaptureRecord and LongCaptureRecord; the kind of a CaptureRecord is the place where it stands.
pub record CaptureRecord : Type 0 where
  pub status : CaptureStatus
  pub path : Option String
  pub captured_at : Option ℕ

-- timedelta(hours=24)
abbrev pub day : ℕ
day = 86400000000

unfoldable pub expires_at : CaptureRecord → Option ℕ
expires_at c = elim c.captured_at [ some t ↦ some (t + day) | none ↦ none ]

abbrev pub new_capture : CaptureStatus → CaptureRecord
new_capture s = record { status = s; path = none; captured_at = none }

-- dict[CaptureKind, CaptureRecord], which has each kind as a key.
pub record Captures : Type 0 where
  pub large_order_net : CaptureRecord
  pub large_order_amount : CaptureRecord
  pub retail_count : CaptureRecord

unfoldable pub capture_of : Captures → CaptureKind → CaptureRecord
capture_of c CaptureKind.large_order_net = c.large_order_net
capture_of c CaptureKind.large_order_amount = c.large_order_amount
capture_of c CaptureKind.retail_count = c.retail_count

unfoldable pub set_capture : Captures → CaptureKind → CaptureRecord → Captures
set_capture c CaptureKind.large_order_net r = record c { large_order_net = r }
set_capture c CaptureKind.large_order_amount r = record c { large_order_amount = r }
set_capture c CaptureKind.retail_count r = record c { retail_count = r }

abbrev pub all_captures : (CaptureRecord → CaptureRecord) → Captures → Captures
all_captures f c = record {
  large_order_net = f c.large_order_net;
  large_order_amount = f c.large_order_amount;
  retail_count = f c.retail_count;
}

abbrev pub capture_list : Captures → List CaptureRecord
capture_list c = c.large_order_net ∷ c.large_order_amount ∷ c.retail_count ∷ []

abbrev pub new_captures : CaptureStatus → Captures
new_captures s = record {
  large_order_net = new_capture s;
  large_order_amount = new_capture s;
  retail_count = new_capture s;
}

-- The dict of source errors has the two keys of SOURCE_ERROR_KEYS.
pub record SourceErrors : Type 0 where
  pub core_metrics : Option String
  pub main_fund_flow : Option String

abbrev pub no_source_errors : SourceErrors
no_source_errors = record { core_metrics = none; main_fund_flow = none }

pub record TaskRecord : Type 0 where
  pub task_id : String
  pub symbol : String
  pub include_long_capture : Bool
  pub status : TaskStatus
  pub created_at : ℕ
  pub updated_at : ℕ
  pub completed_at : Option ℕ
  pub collected_at : Option ℕ
  pub error_code : Option String
  pub source_errors : SourceErrors
  pub captures : Captures
  pub values : MetricKind → Option String
  pub value_sources : MetricKind → Option ValueSource
  pub intraday_series : SeriesOf IntradaySeries
  pub snapshot : Option (List (String × String))
  pub long_capture : CaptureRecord
  pub maintenance_namespace : Option String
  pub maintenance_owner_digest : Option String

-- The constructor with its default fields, and __post_init__.
unfoldable pub new_task : String → String → Bool → ℕ → TaskRecord
new_task task_id symbol include_long_capture now = record {
  task_id = task_id;
  symbol = symbol;
  include_long_capture = include_long_capture;
  status = TaskStatus.queued;
  created_at = now;
  updated_at = now;
  completed_at = none;
  collected_at = none;
  error_code = none;
  source_errors = no_source_errors;
  captures = new_captures CaptureStatus.pending;
  values = λ _. none;
  value_sources = λ _. none;
  intraday_series = empty_series;
  snapshot = none;
  long_capture = elim include_long_capture [
    | true ↦ new_capture CaptureStatus.pending
    | false ↦ new_capture CaptureStatus.skipped
  ];
  maintenance_namespace = none;
  maintenance_owner_digest = none;
}
