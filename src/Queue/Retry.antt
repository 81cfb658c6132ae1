-- ===== src/Queue/Retry.antt =====
-- level2_service/queue.py: the operations of `InMemoryStreams` that put a task back into the queue.
use tonghuashun.Base.{String, Bool, true, false, not, Option, none, some, if◌then◌else◌}
use tonghuashun.Dict.{get}
use tonghuashun.Models.{TaskRecord, TaskStatus, status_eq, no_source_errors}
use tonghuashun.Queue.{
  Streams, Platform, Clocks, Lease, Result, ok, err, key_error, invalid_transition,
  has_maintenance_metadata, opt_eq, bound_of, is_active, is_refreshable, active_lease,
  move_to_fifo_tail, store_task,
}
use tonghuashun.Queue.Submit.{refresh_locked}
use tonghuashun.Queue.Position.{resolve_task_id}

unfoldable pub bound_to : TaskRecord → Option Lease × Streams → Bool × Streams
bound_to task (lease, s) = (opt_eq (bound_of lease) task.task_id, s)

-- _is_maintenance_task_locked
unfoldable pub is_maintenance_task : Clocks → TaskRecord → Streams → Bool × Streams
unfolding has_maintenance_metadata active_lease bound_to
is_maintenance_task now task s =
    if has_maintenance_metadata task then (true, s) else bound_to task (active_lease now s)

unfoldable pub requeued_task : Clocks → TaskRecord → TaskRecord
requeued_task now task = record task {
  status = TaskStatus.queued;
  error_code = none;
  source_errors = no_source_errors;
  updated_at = now.utc;
}

-- The task at the end of the queue.
unfoldable pub to_tail : String → TaskRecord → Streams → Result TaskRecord × Streams
unfolding store_task move_to_fifo_tail
to_tail id task s = (ok task, store_task id task (record s { fifo = move_to_fifo_tail id s.fifo }))

-- What follows the lookup of the task; maintenance tasks are refused before anything else.
unfoldable pub requeue_under :
    Clocks → String → TaskRecord → Bool × Streams → Result TaskRecord × Streams
unfolding requeued_task to_tail
requeue_under now id task (true, s) = (err invalid_transition, s)
requeue_under now id task (false, s) =
    if not (status_eq task.status TaskStatus.waiting_admin)
    then (err invalid_transition, s)
    else to_tail id (requeued_task now task) s

unfoldable pub requeue_waiting : Clocks → String → Streams → Result TaskRecord × Streams
unfolding requeue_under is_maintenance_task
requeue_waiting now id s = elim (get id s.tasks) [
  | none ↦ (err key_error, s)
  | some task ↦ requeue_under now id task (is_maintenance_task now task s)
]

unfoldable pub retried_task : Clocks → TaskRecord → TaskRecord
unfolding requeued_task
retried_task now task = let task' = requeued_task now task in record task' { completed_at = none }

unfoldable pub retry_under :
    Clocks → String → TaskRecord → Bool × Streams → Result TaskRecord × Streams
unfolding retried_task to_tail
retry_under now id task (true, s) = (err invalid_transition, s)
retry_under now id task (false, s) =
    if status_eq task.status TaskStatus.queued
    then (ok task, s)
    else if not (status_eq task.status TaskStatus.failed)
    then (err invalid_transition, s)
    else to_tail id (retried_task now task) s

unfoldable pub retry_failed : Clocks → String → Streams → Result TaskRecord × Streams
unfolding retry_under is_maintenance_task
retry_failed now id s = elim (get id s.tasks) [
  | none ↦ (err key_error, s)
  | some task ↦ retry_under now id task (is_maintenance_task now task s)
]

module _ (os : Platform) where
  -- `_refresh_locked` repeats both tests on the status.
  unfoldable pub refresh_under :
      Clocks → TaskRecord → Option Bool → Bool × Streams → Result TaskRecord × Streams
  unfolding refresh_locked
  refresh_under now task flag (true, s) = (err invalid_transition, s)
  refresh_under now task flag (false, s) =
      if is_active task.status
      then (ok task, s)
      else if not (is_refreshable task.status)
      then (err invalid_transition, s)
      else refresh_locked os now task flag s

  unfoldable pub refresh_at : Clocks → String → Option Bool → Streams → Result TaskRecord × Streams
  unfolding refresh_under is_maintenance_task
  refresh_at now id flag s = elim (get id s.tasks) [
    | none ↦ (err key_error, s)
    | some task ↦ refresh_under now task flag (is_maintenance_task now task s)
  ]

  unfoldable pub refresh_task :
      Clocks → String → Option Bool → Streams → Result TaskRecord × Streams
  unfolding refresh_at resolve_task_id
  refresh_task now task_id flag s = elim (resolve_task_id task_id s) [
    | none ↦ (err key_error, s)
    | some id ↦ refresh_at now id flag s
  ]
