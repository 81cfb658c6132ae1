-- ===== src/Redis/Codec.antt =====
-- level2_service/queue.py: the JSON document of a task in the server. A document is given by what its
-- keys hold, where `none` stands for null or, for keys that are read with `get`, for a missing key;
-- json.loads and json.dumps turn it into text and back.
pub mod Texts
pub mod RoundTrip
use tonghuashun.Base.{
  ℕ, String, Bool, true, false, Option, none, some, List, ◌==◌, if◌then◌else◌, is_some,
}
use tonghuashun.Models.{
  TaskRecord, TaskStatus, CaptureKind, CaptureStatus, CaptureRecord, Captures, SourceErrors,
  capture_of, new_capture,
}
use tonghuashun.Models.Metrics.{
  MetricKind, ValueSource, RawSeries, SeriesOf, IntradaySeries, raw_series,
  normalized_intraday_series,
}
use tonghuashun.Queue.{has_maintenance_metadata}
use tonghuashun.Redis.Codec.Texts.{
  status_text, read_status, capture_status_text, read_capture_status, source_text, read_source,
}

infixl 5 ◌>>=◌
abbrev pub ◌>>=◌ {ℓ κ} : {A : Type ℓ} {B : Type κ} → Option A → (A → Option B) → Option B
none >>= f = none
some a >>= f = f a

-- datetime.isoformat and datetime.fromisoformat
pub record TimeFormat : Type 0 where
  pub isoformat : ℕ → String
  pub fromisoformat : String → Option ℕ

pub record CaptureDocument : Type 0 where
  pub status : String
  pub path : Option String
  pub captured_at : Option String

-- The value of "maintenance": its two keys.
pub record MaintenanceDocument : Type 0 where
  pub namespace : Option String
  pub owner_digest : Option String

pub record Document : Type 0 where
  pub task_id : String
  pub symbol : String
  pub include_long_capture : Option Bool
  pub maintenance : Option MaintenanceDocument
  pub status : String
  pub created_at : String
  pub updated_at : String
  pub completed_at : Option String
  pub collected_at : Option String
  pub error_code : Option String
  pub source_errors : SourceErrors
  pub captures : CaptureKind → Option CaptureDocument
  pub values : MetricKind → Option String
  pub value_sources : MetricKind → Option String
  pub intraday_series : SeriesOf RawSeries
  pub market_snapshot : Option (List (String × String))
  pub long_capture : Option CaptureDocument

abbrev pub map_option : {A B : Type 0} → (A → B) → Option A → Option B
map_option f none = none
map_option f (some a) = some (f a)

-- `Path(text) if text else None`
unfoldable pub read_path : Option String → Option String
read_path none = none
read_path (some p) = if p == "" then none else some p

-- Both keys must hold texts.
unfoldable pub read_maintenance :
    Option MaintenanceDocument → Option (Option String × Option String)
read_maintenance none = some (none, none)
read_maintenance (some m) = do
  namespace ← m.namespace
  digest ← m.owner_digest
  some (some namespace, some digest)

-- The source of a value: a value without one comes from the interface.
unfoldable pub source_or_default : Option String → Option ValueSource → Option ValueSource
source_or_default value (some s) = some s
source_or_default none none = none
source_or_default (some v) none = some ValueSource.interface

module _ (iso : TimeFormat) where
  unfoldable pub capture_document : CaptureRecord → CaptureDocument
  unfolding capture_status_text
  capture_document c = record {
    status = capture_status_text c.status;
    path = c.path;
    captured_at = map_option iso.isoformat c.captured_at;
  }

  -- _serialize
  unfoldable pub serialize : TaskRecord → Document
  unfolding capture_document capture_of status_text source_text has_maintenance_metadata
  serialize task = record {
    task_id = task.task_id;
    symbol = task.symbol;
    include_long_capture = some task.include_long_capture;
    maintenance =
        if has_maintenance_metadata task
        then some (record {
          namespace = task.maintenance_namespace;
          owner_digest = task.maintenance_owner_digest;
        })
        else none;
    status = status_text task.status;
    created_at = iso.isoformat task.created_at;
    updated_at = iso.isoformat task.updated_at;
    completed_at = map_option iso.isoformat task.completed_at;
    collected_at = map_option iso.isoformat task.collected_at;
    error_code = task.error_code;
    source_errors = task.source_errors;
    captures = λ kind. some (capture_document (capture_of task.captures kind));
    values = task.values;
    value_sources = λ kind. map_option source_text (task.value_sources kind);
    intraday_series = record {
      large_order_net = raw_series task.intraday_series.large_order_net;
      large_order_amount = raw_series task.intraday_series.large_order_amount;
      retail_count = raw_series task.intraday_series.retail_count;
    };
    market_snapshot = task.snapshot;
    long_capture = some (capture_document task.long_capture);
  }

  -- `datetime.fromisoformat(text) if text else None`
  unfoldable pub read_time : Option String → Option (Option ℕ)
  read_time none = some none
  read_time (some t) = if t == "" then some none else (iso.fromisoformat t >>= λ n. some (some n))

  unfoldable pub read_capture : CaptureDocument → Option CaptureRecord
  unfolding read_capture_status read_time read_path
  read_capture c = do
    status ← read_capture_status c.status
    captured_at ← read_time c.captured_at
    some (record { status = status; path = read_path c.path; captured_at = captured_at })

  -- A kind that the document lacks has a new capture.
  unfoldable pub read_kind : Option CaptureDocument → Option CaptureRecord
  unfolding read_capture
  read_kind none = some (new_capture CaptureStatus.pending)
  read_kind (some c) = read_capture c

  unfoldable pub read_captures : (CaptureKind → Option CaptureDocument) → Option Captures
  unfolding read_kind
  read_captures f = do
    net ← read_kind (f CaptureKind.large_order_net)
    amount ← read_kind (f CaptureKind.large_order_amount)
    retail ← read_kind (f CaptureKind.retail_count)
    some (record { large_order_net = net; large_order_amount = amount; retail_count = retail })

  -- The default of TaskRecord, where the document has no long capture.
  unfoldable pub read_long_capture : Bool → Option CaptureDocument → Option CaptureRecord
  unfolding read_capture
  read_long_capture true none = some (new_capture CaptureStatus.pending)
  read_long_capture false none = some (new_capture CaptureStatus.skipped)
  read_long_capture long (some c) = read_capture c

  -- _deserialize; `none` stands for a ValueError.
  unfoldable pub deserialize : Document → Option TaskRecord
  unfolding read_status read_time read_captures read_long_capture read_maintenance source_or_default
      read_source normalized_intraday_series
  deserialize raw = do
    maintenance ← read_maintenance raw.maintenance
    status ← read_status raw.status
    created_at ← iso.fromisoformat raw.created_at
    updated_at ← iso.fromisoformat raw.updated_at
    completed_at ← read_time raw.completed_at
    collected_at ← read_time raw.collected_at
    captures ← read_captures raw.captures
    sources ← read_source raw.value_sources
    let long = elim raw.include_long_capture as (λ _. Bool) [ none ↦ true | some b ↦ b ]
    long_capture ← read_long_capture long raw.long_capture
    some (record {
      task_id = raw.task_id;
      symbol = raw.symbol;
      include_long_capture = long;
      status = status;
      created_at = created_at;
      updated_at = updated_at;
      completed_at = completed_at;
      collected_at = collected_at;
      error_code = raw.error_code;
      source_errors = raw.source_errors;
      captures = captures;
      values = raw.values;
      value_sources = λ kind. source_or_default (raw.values kind) (sources kind);
      intraday_series = normalized_intraday_series raw.intraday_series;
      snapshot = raw.market_snapshot;
      long_capture = long_capture;
      maintenance_namespace = maintenance.0;
      maintenance_owner_digest = maintenance.1;
    })
