-- ===== src/Queue/Results.antt =====
-- level2_service/queue.py: the operations of `InMemoryStreams` that record what a run produced.
pub mod Transitions
pub mod Conclusions
pub mod Captures
pub mod Sources
use tonghuashun.Base.{
  String, Bool, true, false, ◌&&◌, ◌||◌, not, Option, none, some, List, if◌then◌else◌, is_some,
  is_none, all, nat_eq, count_if, ℕ,
}
use tonghuashun.Dict.{get, put}
use tonghuashun.Models.{
  TaskRecord, TaskStatus, CaptureStatus, CaptureKind, CaptureRecord, SourceErrors, status_eq,
  is_ready, new_capture, new_captures, set_capture, capture_list,
}
use tonghuashun.Models.Metrics.{
  MetricKind, ValueSource, SeriesOf, RawSeries, normalized_intraday_series, required_metrics,
}
use tonghuashun.Queue.{
  Streams, Clocks, Result, ok, err, invalid_transition, key_error, value_error, store_task,
}

-- _ALLOWED_TRANSITIONS
unfoldable pub allowed : TaskStatus → TaskStatus → Bool
allowed TaskStatus.queued to = status_eq to TaskStatus.running || status_eq to TaskStatus.failed
allowed TaskStatus.running to =
    status_eq to TaskStatus.waiting_admin
    || status_eq to TaskStatus.partial
    || status_eq to TaskStatus.completed
    || status_eq to TaskStatus.market_snapshot
    || status_eq to TaskStatus.failed
allowed TaskStatus.waiting_admin to =
    status_eq to TaskStatus.running
    || status_eq to TaskStatus.partial
    || status_eq to TaskStatus.failed
allowed TaskStatus.partial to =
    status_eq to TaskStatus.running
    || status_eq to TaskStatus.waiting_admin
    || status_eq to TaskStatus.completed
    || status_eq to TaskStatus.failed
allowed _ to = false

-- The statuses at which `transition` records the completion.
abbrev completes : TaskStatus → Bool
completes TaskStatus.completed = true
completes TaskStatus.market_snapshot = true
completes TaskStatus.failed = true
completes _ = false

unfoldable pub moved_task :
    Clocks → TaskStatus → Option String → Option SourceErrors → TaskRecord → TaskRecord
moved_task now status error_code source_errors task = record task {
  status = status;
  error_code = error_code;
  source_errors = elim source_errors [ some e ↦ e | none ↦ task.source_errors ];
  updated_at = now.utc;
  completed_at = if completes status then some now.utc else task.completed_at;
}

unfoldable pub transition_at :
    Clocks
    → String
    → TaskStatus
    → Option String
    → Option SourceErrors
    → TaskRecord
    → Streams
    → Result TaskRecord × Streams
unfolding allowed moved_task store_task
transition_at now id status error_code source_errors task s =
    if not (allowed task.status status)
    then (err invalid_transition, s)
    else let moved = moved_task now status error_code source_errors task in
      (ok moved, store_task id moved s)

unfoldable pub transition :
    Clocks
    → String
    → TaskStatus
    → Option String
    → Option SourceErrors
    → Streams
    → Result TaskRecord × Streams
unfolding transition_at
transition now id status error_code source_errors s = elim (get id s.tasks) [
  | none ↦ (err key_error, s)
  | some task ↦ transition_at now id status error_code source_errors task s
]

-- The tests of complete_capture and complete_result.
abbrev pub accepts : TaskStatus → Bool
accepts TaskStatus.running = true
accepts TaskStatus.partial = true
accepts _ = false

-- The number of captures that are ready.
unfoldable pub ready_count : TaskRecord → ℕ
ready_count task = count_if (λ c. is_ready c.status) (capture_list task.captures)

abbrev pub ready_capture : Clocks → String → CaptureRecord
ready_capture now path = record {
  status = CaptureStatus.ready;
  path = some path;
  captured_at = some now.utc;
}

-- The task with the new capture, before its status is set.
unfoldable pub taken_task : Clocks → CaptureKind → String → TaskRecord → TaskRecord
unfolding set_capture
taken_task now kind path task = record task {
  captures = set_capture task.captures kind (ready_capture now path);
  updated_at = now.utc;
}

unfoldable pub captured_task : Clocks → CaptureKind → String → TaskRecord → TaskRecord
unfolding taken_task ready_count
captured_task now kind path task =
    let taken = taken_task now kind path task in
    if nat_eq (ready_count taken) 3
    then record taken { status = TaskStatus.completed; completed_at = some now.utc }
    else record taken { status = TaskStatus.partial }

unfoldable pub complete_capture_at :
    Clocks → String → CaptureKind → String → TaskRecord → Streams → Result TaskRecord × Streams
unfolding captured_task store_task
complete_capture_at now id kind path task s =
    if not (accepts task.status)
    then (err invalid_transition, s)
    else let taken = captured_task now kind path task in (ok taken, store_task id taken s)

unfoldable pub complete_capture :
    Clocks → String → CaptureKind → String → Streams → Result TaskRecord × Streams
unfolding complete_capture_at
complete_capture now id kind path s = elim (get id s.tasks) [
  | none ↦ (err key_error, s)
  | some task ↦ complete_capture_at now id kind path task s
]

-- The arguments of complete_result; `values` is the `get` of the dict of values.
pub record Outcome : Type 0 where
  pub values : MetricKind → Option String
  pub path : Option String
  pub ocr_metrics : MetricKind → Bool
  pub source_errors : SourceErrors
  pub intraday_series : SeriesOf RawSeries
  pub ignore_fund_source_error : Bool

unfoldable pub source_of : Outcome → MetricKind → Option ValueSource
source_of o kind =
    if o.ocr_metrics kind && is_some (o.values kind)
    then some ValueSource.ocr
    else if is_some (o.values kind)
    then some ValueSource.interface
    else none

-- The assignments before the test of the path: they stay if that test fails.
unfoldable pub with_values : Outcome → TaskRecord → TaskRecord
unfolding source_of normalized_intraday_series
with_values o task = record task {
  values = o.values;
  value_sources = source_of o;
  intraday_series = normalized_intraday_series o.intraday_series;
  source_errors = o.source_errors;
}

unfoldable pub required_complete : TaskRecord → Bool
required_complete task = all (λ kind. is_some (task.values kind)) required_metrics

-- The captures of a task with a long capture at `path`, or of a data-only task.
unfoldable pub with_long_capture : Clocks → Option String → TaskRecord → TaskRecord
with_long_capture now (some path) task = record task { long_capture = ready_capture now path }
with_long_capture now none task = record task {
  long_capture = new_capture CaptureStatus.skipped;
  captures = new_captures CaptureStatus.skipped;
}

-- The status and the error code that a result gives.
unfoldable pub concluded : Clocks → Bool → TaskRecord → TaskRecord
unfolding required_complete
concluded now ignore_fund_source_error task =
    let fund_error = if ignore_fund_source_error then none else task.source_errors.main_fund_flow in
    let complete = required_complete task in
    let done = complete && is_none fund_error in
    record task {
      collected_at = some now.utc;
      updated_at = now.utc;
      status = if done then TaskStatus.completed else TaskStatus.partial;
      error_code =
          if done then none else if complete then fund_error else some "VALUE_RECOGNITION_FAILED";
      completed_at = some now.utc;
    }

-- A task with a long capture needs its path, and a data-only task takes none.
abbrev pub wrong_path : Bool → Option String → Bool
wrong_path true path = is_none path
wrong_path false path = is_some path

unfoldable pub resulted_task : Clocks → Outcome → TaskRecord → TaskRecord
unfolding with_values with_long_capture concluded
resulted_task now o task =
    concluded now o.ignore_fund_source_error (with_long_capture now o.path (with_values o task))

unfoldable pub complete_result_at :
    Clocks → String → Outcome → TaskRecord → Streams → Result TaskRecord × Streams
unfolding resulted_task with_values store_task
complete_result_at now id o task s =
    if not (accepts task.status)
    then (err invalid_transition, s)
    else if wrong_path task.include_long_capture o.path
    then (err value_error, record s { tasks = put id (with_values o task) s.tasks })
    else let done = resulted_task now o task in (ok done, store_task id done s)

unfoldable pub complete_result : Clocks → String → Outcome → Streams → Result TaskRecord × Streams
unfolding complete_result_at
complete_result now id o s = elim (get id s.tasks) [
  | none ↦ (err key_error, s)
  | some task ↦ complete_result_at now id o task s
]

unfoldable pub snapshot_task : Clocks → List (String × String) → TaskRecord → TaskRecord
snapshot_task now snapshot task = record task {
  snapshot = some snapshot;
  status = TaskStatus.market_snapshot;
  error_code = none;
  collected_at = some now.utc;
  updated_at = now.utc;
  completed_at = some now.utc;
  captures = new_captures CaptureStatus.skipped;
  long_capture = new_capture CaptureStatus.skipped;
}

unfoldable pub complete_market_snapshot_at :
    Clocks → String → List (String × String) → TaskRecord → Streams → Result TaskRecord × Streams
unfolding snapshot_task store_task
complete_market_snapshot_at now id snapshot task s =
    if not (status_eq task.status TaskStatus.running)
    then (err invalid_transition, s)
    else let shown = snapshot_task now snapshot task in (ok shown, store_task id shown s)

unfoldable pub complete_market_snapshot :
    Clocks → String → List (String × String) → Streams → Result TaskRecord × Streams
unfolding complete_market_snapshot_at
complete_market_snapshot now id snapshot s = elim (get id s.tasks) [
  | none ↦ (err key_error, s)
  | some task ↦ complete_market_snapshot_at now id snapshot task s
]
