-- ===== src/Queue/Submit.antt =====
-- level2_service/queue.py: the operations of `InMemoryStreams` that put a task into the queue.
pub mod Capacity
pub mod Outcome
pub mod Unique
use tonghuashun.Base.{
  ℕ, ◌≤◌, String, Bool, true, false, ◌&&◌, not, Option, none, some, List, [], ◌∷◌, ◌++◌, ◌==◌, leb,
  if◌then◌else◌, keep,
}
use tonghuashun.Dict.{get, get_or, put, values}
use tonghuashun.Models.{
  TaskRecord, TaskStatus, CaptureStatus, new_capture, new_captures, no_source_errors,
}
use tonghuashun.Models.Metrics.{empty_series}
use tonghuashun.Queue.{
  Streams, Platform, Clocks, Result, ok, err, queue_full, invalid_transition, key_error, pending,
  is_active, is_refreshable, has_maintenance_metadata, namespace, opt_eq, bound_of, active_lease,
  store_task, move_to_fifo_tail, unlink_all, emit,
}
use tonghuashun.Queue.Canonical.{canonical_task}

-- Whether `_enqueue_locked` refuses the task for its maintenance fields.
unfoldable pub wrong_binding : Bool → TaskRecord → Bool
unfolding has_maintenance_metadata
wrong_binding true task = not (opt_eq task.maintenance_namespace namespace)
wrong_binding false task = has_maintenance_metadata task

unfoldable pub enqueue_locked : Bool → TaskRecord → Streams → Result TaskRecord × Streams
unfolding wrong_binding store_task
enqueue_locked maintenance task s =
    if wrong_binding maintenance task
    then (err invalid_transition, s)
    else if leb s.pending_cap (pending s)
    then (err queue_full, s)
    else (ok task, store_task task.task_id task (record s { fifo = s.fifo ++ task.task_id ∷ [] }))

unfoldable pub enqueue : TaskRecord → Streams → Result TaskRecord × Streams
unfolding enqueue_locked
enqueue task s = enqueue_locked false task s

-- The tasks that `_find_by_symbol_raw` chooses from.
unfoldable pub is_candidate : String → Option String → TaskRecord → Bool
unfolding has_maintenance_metadata
is_candidate symbol bound task =
    task.symbol == symbol && not (has_maintenance_metadata task) && not (opt_eq bound task.task_id)

unfoldable pub find_by_symbol : String → Clocks → Streams → Option TaskRecord × Streams
unfolding is_candidate active_lease canonical_task
find_by_symbol symbol now s =
    let (lease, s') = active_lease now s in
    (canonical_task (keep (is_candidate symbol (bound_of lease)) (values s'.tasks)), s')

-- _reset_task_for_refresh; `none` leaves the flag as it is.
unfoldable pub reset_task : Clocks → Option Bool → TaskRecord → TaskRecord
reset_task now flag task =
    let long = elim flag as (λ _. Bool) [ some b ↦ b | none ↦ task.include_long_capture ] in
    record task {
      include_long_capture = long;
      status = TaskStatus.queued;
      created_at = now.utc;
      updated_at = now.utc;
      completed_at = none;
      collected_at = none;
      error_code = none;
      source_errors = no_source_errors;
      captures = new_captures CaptureStatus.pending;
      values = λ _. none;
      value_sources = λ _. none;
      intraday_series = empty_series;
      snapshot = none;
      long_capture = new_capture (if long then CaptureStatus.pending else CaptureStatus.skipped);
    }

module _ (os : Platform) where
  unfoldable pub refresh_locked :
      Clocks → TaskRecord → Option Bool → Streams → Result TaskRecord × Streams
  unfolding reset_task store_task move_to_fifo_tail unlink_all
  refresh_locked now task flag s =
      if is_active task.status
      then (ok task, s)
      else if not (is_refreshable task.status)
      then (err invalid_transition, s)
      else if leb s.pending_cap (pending s)
      then (err queue_full, s)
      else let fresh = reset_task now flag task in
        (
          ok fresh,
          store_task task.task_id fresh (record s {
            unlinked = unlink_all os s.capture_root task s.unlinked;
            fifo = move_to_fifo_tail task.task_id s.fifo;
          }),
        )

  -- What follows the search for an older task of the same symbol.
  unfoldable pub submit_found :
      Clocks → TaskRecord → Option TaskRecord × Streams → Result TaskRecord × Streams
  unfolding enqueue_locked refresh_locked
  submit_found now task (none, s) = enqueue_locked false task s
  submit_found now task (some old, s) =
      if is_active old.status
      then (ok old, s)
      else refresh_locked now old (some task.include_long_capture) s

  unfoldable pub submit_or_refresh : Clocks → TaskRecord → Streams → Result TaskRecord × Streams
  unfolding submit_found find_by_symbol
  submit_or_refresh now task s =
      if has_maintenance_metadata task
      then (err invalid_transition, s)
      else submit_found now task (find_by_symbol task.symbol now s)
