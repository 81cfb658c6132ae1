-- ===== src/Redis/Retry.antt =====
-- level2_service/queue.py: the operations of `RedisStreamsStore` that put a task back into the
-- queue, with THS_REQUEUE_WAITING, THS_RETRY_FAILED and the caller of THS_REFRESH_TASK.
use tonghuashun.Base.{String, Bool, ◌||◌, not, Option, none, some, [], ◌∷◌, ◌++◌, if◌then◌else◌}
use tonghuashun.Dict.{get}
use tonghuashun.Models.{TaskRecord, TaskStatus, status_eq, no_source_errors}
use tonghuashun.Queue.{
  Result, ok, err, queue_full, invalid_transition, key_error, has_maintenance_metadata, opt_eq,
  is_active, is_refreshable,
}
use tonghuashun.Queue.{Clocks}
use tonghuashun.Queue.Submit.{reset_task}
use tonghuashun.Redis.{
  RedisStore, Server, Reply, nil, payload, live_lease, bound_id, set_task, count_up,
  ensure_active_count, trim_events,
}
use tonghuashun.Redis.Submit.{refresh_script}
use tonghuashun.Redis.Find.{get_task, resolve_task_id, bound_status}
use tonghuashun.Redis.Leases.{deployment_lease_status}

-- The task in the queue again.
unfoldable pub requeued : Server → TaskRecord → TaskRecord
requeued now task = record task {
  status = TaskStatus.queued;
  error_code = none;
  source_errors = no_source_errors;
  updated_at = now.utc;
}

unfoldable pub retried : Server → TaskRecord → TaskRecord
retried now task = record task {
  status = TaskStatus.queued;
  error_code = none;
  source_errors = no_source_errors;
  completed_at = none;
  updated_at = now.utc;
}

unfoldable pub push_task : String → TaskRecord → RedisStore → RedisStore
unfolding set_task
push_task id task s = set_task id task (record s { queue = s.queue ++ id ∷ [] })

-- A task that the scripts leave to the maintenance.
unfoldable pub is_reserved : Server → String → TaskRecord → RedisStore → Bool
unfolding has_maintenance_metadata live_lease
is_reserved now id task s = has_maintenance_metadata task || opt_eq (bound_id (live_lease now s)) id

-- THS_REQUEUE_WAITING
unfoldable pub requeue_script : Server → String → RedisStore → Reply × RedisStore
unfolding is_reserved requeued push_task
requeue_script now id s = elim (get id s.payloads) [
  | none ↦ (nil, s)
  | some task ↦
      if is_reserved now id task s
      then (Reply.maintenance, s)
      else if not (status_eq task.status TaskStatus.waiting_admin)
      then (nil, s)
      else (payload (requeued now task), push_task id (requeued now task) s)
]

-- THS_RETRY_FAILED
unfoldable pub retry_script : Server → String → RedisStore → Reply × RedisStore
unfolding is_reserved retried push_task count_up
retry_script now id s = elim (get id s.payloads) [
  | none ↦ (nil, s)
  | some task ↦
      if is_reserved now id task s
      then (Reply.maintenance, s)
      else if status_eq task.status TaskStatus.queued
      then (payload task, s)
      else if not (status_eq task.status TaskStatus.failed)
      then (nil, s)
      else (payload (retried now task), count_up (push_task id (retried now task) s))
]

-- A script that did nothing: the task that `get` finds must be queued.
unfoldable pub unless_queued : String → RedisStore → Result TaskRecord × RedisStore
unfolding get_task
unless_queued id s = elim (get_task id s) [
  | none ↦ (err key_error, s)
  | some task ↦
      if status_eq task.status TaskStatus.queued then (ok task, s) else (err invalid_transition, s)
]

unfoldable pub requeue_reply : Server → String → Reply × RedisStore → Result TaskRecord × RedisStore
unfolding unless_queued trim_events
requeue_reply now id (nil, s) = unless_queued id s
requeue_reply now id (Reply.queue_full, s) = unless_queued id s
requeue_reply now id (Reply.maintenance, s) = (err invalid_transition, s)
requeue_reply now id (payload t, s) = (ok t, trim_events now s)

unfoldable pub requeue_waiting : Server → String → RedisStore → Result TaskRecord × RedisStore
unfolding requeue_script requeue_reply
requeue_waiting now id s = requeue_reply now id (requeue_script now id s)

unfoldable pub retry_failed : Server → String → RedisStore → Result TaskRecord × RedisStore
unfolding retry_script requeue_reply ensure_active_count
retry_failed now id s = requeue_reply now id (retry_script now id (ensure_active_count s))

-- _is_maintenance_task
unfoldable pub is_maintenance_task : Server → TaskRecord → RedisStore → Bool
unfolding has_maintenance_metadata deployment_lease_status
is_maintenance_task now task s =
    has_maintenance_metadata task
    || opt_eq (bound_status (deployment_lease_status now s)) task.task_id

-- The end of refresh_task, after its script.
unfoldable pub refresh_reply : Server → String → Reply × RedisStore → Result TaskRecord × RedisStore
unfolding get_task trim_events
refresh_reply now id (Reply.queue_full, s) = (err queue_full, s)
refresh_reply now id (Reply.maintenance, s) = (err invalid_transition, s)
refresh_reply now id (payload t, s) = (ok t, trim_events now s)
refresh_reply now id (nil, s) = elim (get_task id s) [
  | none ↦ (err key_error, s)
  | some task ↦ if is_active task.status then (ok task, s) else (err invalid_transition, s)
]

-- The clock of the service is read by `_reset_task_for_refresh`.
abbrev pub service_clock : Server → Clocks
service_clock now = record { utc = now.utc; lease = now.clock; lease_later = now.clock }

unfoldable pub refresh_found :
    Server → String → Option Bool → TaskRecord → RedisStore → Result TaskRecord × RedisStore
unfolding is_maintenance_task refresh_script refresh_reply ensure_active_count reset_task
refresh_found now id flag task s =
    if is_maintenance_task now task s
    then (err invalid_transition, s)
    else if is_active task.status
    then (ok task, s)
    else if not (is_refreshable task.status)
    then (err invalid_transition, s)
    else refresh_reply now id
        (refresh_script now id (reset_task (service_clock now) flag task) (ensure_active_count s))

unfoldable pub refresh_task :
    Server → String → Option Bool → RedisStore → Result TaskRecord × RedisStore
unfolding refresh_found resolve_task_id get_task
refresh_task now task_id flag s = elim (resolve_task_id task_id s) [
  | none ↦ (err key_error, s)
  | some id ↦ elim (get_task id s) [
    | none ↦ (err key_error, s)
    | some task ↦ refresh_found now id flag task s
  ]
]
