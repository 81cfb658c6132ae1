-- ===== src/Redis/Results.antt =====
-- level2_service/queue.py: the operations of `RedisStreamsStore` that record what a run produced,
-- with THS_PERSIST_EVENT. The tasks that they write are those of Queue.Results.
pub mod Unwritten
use tonghuashun.Base.{String, Bool, true, false, not, Option, none, some, List, if◌then◌else◌}
use tonghuashun.Dict.{put}
use tonghuashun.Models.{TaskRecord, TaskStatus, CaptureKind, SourceErrors, status_eq}
use tonghuashun.Queue.{
  Clocks, Result, ok, err, invalid_transition, key_error, value_error, event_write_failed,
  is_active,
}
use tonghuashun.Queue.Results.{
  Outcome, allowed, moved_task, accepts, captured_task, wrong_path, resulted_task, snapshot_task,
}
use tonghuashun.Redis.{RedisStore, Server, set_task, count_change, trim_events}
use tonghuashun.Redis.Find.{get_task}

-- THS_PERSIST_EVENT: a payload whose event is not written is put back.
unfoldable pub persist_script : Server → TaskRecord → TaskRecord → RedisStore → Bool × RedisStore
unfolding set_task trim_events count_change
persist_script now previous task s =
    if now.writes_event
    then (
      true,
      count_change (is_active previous.status) (is_active task.status)
          (trim_events now (set_task task.task_id task s)),
    )
    else (
      false,
      record s { payloads = put task.task_id previous (put task.task_id task s.payloads) },
    )

abbrev persisted : TaskRecord → Bool × RedisStore → Result TaskRecord × RedisStore
persisted task (true, s) = (ok task, s)
persisted task (false, s) = (err event_write_failed, s)

-- _persist_with_event of a task in place of its previous state.
unfoldable pub persist :
    Server → TaskRecord → TaskRecord → RedisStore → Result TaskRecord × RedisStore
unfolding persist_script
persist now previous task s = persisted task (persist_script now previous task s)

-- The clock of the service.
abbrev pub utc_clock : Server → Clocks
utc_clock now = record { utc = now.utc; lease = now.clock; lease_later = now.clock }

-- The task of an operation, which `_required` reads through the aliases.
unfoldable pub with_task :
    String
    → (TaskRecord → Result TaskRecord × RedisStore)
    → RedisStore
    → Result TaskRecord × RedisStore
unfolding get_task
with_task id f s = elim (get_task id s) [ none ↦ (err key_error, s) | some task ↦ f task ]

unfoldable pub transition :
    Server
    → String
    → TaskStatus
    → Option String
    → Option SourceErrors
    → RedisStore
    → Result TaskRecord × RedisStore
unfolding with_task allowed moved_task persist
transition now id status error_code source_errors s =
    with_task id
      (λ task.
        if not (allowed task.status status)
        then (err invalid_transition, s)
        else persist now task (moved_task (utc_clock now) status error_code source_errors task) s)
      s

unfoldable pub complete_capture :
    Server → String → CaptureKind → String → RedisStore → Result TaskRecord × RedisStore
unfolding with_task captured_task persist
complete_capture now id kind path s =
    with_task id
      (λ task.
        if not (accepts task.status)
        then (err invalid_transition, s)
        else persist now task (captured_task (utc_clock now) kind path task) s)
      s

unfoldable pub complete_result :
    Server → String → Outcome → RedisStore → Result TaskRecord × RedisStore
unfolding with_task resulted_task persist
complete_result now id o s =
    with_task id
      (λ task.
        if not (accepts task.status)
        then (err invalid_transition, s)
        else if wrong_path task.include_long_capture o.path
        then (err value_error, s)
        else persist now task (resulted_task (utc_clock now) o task) s)
      s

unfoldable pub complete_market_snapshot :
    Server → String → List (String × String) → RedisStore → Result TaskRecord × RedisStore
unfolding with_task snapshot_task persist
complete_market_snapshot now id snapshot s =
    with_task id
      (λ task.
        if not (status_eq task.status TaskStatus.running)
        then (err invalid_transition, s)
        else persist now task (snapshot_task (utc_clock now) snapshot task) s)
      s
