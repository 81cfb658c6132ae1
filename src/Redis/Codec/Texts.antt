-- ===== src/Redis/Codec/Texts.antt =====
-- level2_service/models.py: the texts of the enumerations in a document, and their reading.
use tonghuashun.Base.{
  String, Bool, true, Option, none, some, List, [], ◌∷◌, ◌==◌, if◌then◌else◌, is_some, all,
}
use tonghuashun.Models.{TaskStatus, CaptureStatus}
use tonghuashun.Models.Metrics.{MetricKind, ValueSource}

-- The values of TaskStatus.
unfoldable pub status_text : TaskStatus → String
status_text TaskStatus.queued = "QUEUED"
status_text TaskStatus.running = "RUNNING"
status_text TaskStatus.waiting_admin = "WAITING_ADMIN"
status_text TaskStatus.completed = "COMPLETED"
status_text TaskStatus.market_snapshot = "MARKET_SNAPSHOT"
status_text TaskStatus.partial = "PARTIAL"
status_text TaskStatus.failed = "FAILED"
status_text TaskStatus.expired = "EXPIRED"

unfoldable pub read_status : String → Option TaskStatus
read_status t =
    if t == "QUEUED"
    then some TaskStatus.queued
    else if t == "RUNNING"
    then some TaskStatus.running
    else if t == "WAITING_ADMIN"
    then some TaskStatus.waiting_admin
    else if t == "COMPLETED"
    then some TaskStatus.completed
    else if t == "MARKET_SNAPSHOT"
    then some TaskStatus.market_snapshot
    else if t == "PARTIAL"
    then some TaskStatus.partial
    else if t == "FAILED"
    then some TaskStatus.failed
    else if t == "EXPIRED"
    then some TaskStatus.expired
    else none

-- The values of CaptureStatus.
unfoldable pub capture_status_text : CaptureStatus → String
capture_status_text CaptureStatus.pending = "PENDING"
capture_status_text CaptureStatus.ready = "READY"
capture_status_text CaptureStatus.skipped = "SKIPPED"
capture_status_text CaptureStatus.expired = "EXPIRED"

unfoldable pub read_capture_status : String → Option CaptureStatus
read_capture_status t =
    if t == "PENDING"
    then some CaptureStatus.pending
    else if t == "READY"
    then some CaptureStatus.ready
    else if t == "SKIPPED"
    then some CaptureStatus.skipped
    else if t == "EXPIRED"
    then some CaptureStatus.expired
    else none

-- The values of ValueSource.
unfoldable pub source_text : ValueSource → String
source_text ValueSource.interface = "INTERFACE"
source_text ValueSource.ocr = "OCR"

unfoldable pub read_value_source : String → Option ValueSource
read_value_source t =
    if t == "INTERFACE"
    then some ValueSource.interface
    else if t == "OCR"
    then some ValueSource.ocr
    else none

-- for kind in MetricKind
abbrev pub metric_kinds : List MetricKind
metric_kinds =
    MetricKind.stock_name ∷ MetricKind.current_price ∷ MetricKind.change_percent
    ∷ MetricKind.turnover_rate ∷ MetricKind.retail_count ∷ MetricKind.large_order_net
    ∷ MetricKind.large_order_amount ∷ MetricKind.macdfs ∷ MetricKind.main_flow_today_net
    ∷ MetricKind.main_flow_today_visible ∷ MetricKind.main_flow_today_hidden
    ∷ MetricKind.main_flow_today_retail ∷ MetricKind.main_flow_three_day_net
    ∷ MetricKind.main_flow_three_day_visible ∷ MetricKind.main_flow_three_day_hidden
    ∷ MetricKind.main_flow_three_day_retail ∷ MetricKind.main_flow_five_day_net
    ∷ MetricKind.main_flow_five_day_visible ∷ MetricKind.main_flow_five_day_hidden
    ∷ MetricKind.main_flow_five_day_retail ∷ MetricKind.main_flow_today_unit
    ∷ MetricKind.main_flow_three_day_unit ∷ MetricKind.main_flow_five_day_unit ∷ []

-- A missing source, or one that is a value of ValueSource.
abbrev pub is_source : Option String → Bool
unfolding read_value_source
is_source none = true
is_source (some t) = is_some (read_value_source t)

abbrev pub source_at : Option String → Option ValueSource
unfolding read_value_source
source_at none = none
source_at (some t) = read_value_source t

-- The sources of all metrics, or none where one of them cannot be read.
unfoldable pub read_source : (MetricKind → Option String) → Option (MetricKind → Option ValueSource)
unfolding read_value_source
read_source texts =
    if all (λ kind. is_source (texts kind)) metric_kinds
    then some (λ kind. source_at (texts kind))
    else none
