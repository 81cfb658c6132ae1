-- ===== src/Redis/Counter/Reachable.antt =====
-- level2_service/queue.py: sequences of calls of `RedisStreamsStore`, and the counter after them.
use tonghuashun.Base.{ℕ, ◌≡◌, String, Bool, true, Option, none, some, List}
use tonghuashun.Dict.{get}
use tonghuashun.Models.{TaskRecord, TaskStatus, CaptureKind, SourceErrors}
use tonghuashun.Queue.{task_active}
use tonghuashun.Queue.Results.{Outcome}
use tonghuashun.Redis.{RedisStore, Server}
use tonghuashun.Redis.Submit.{enqueue, submit_or_refresh}
use tonghuashun.Redis.Claim.{next_runnable}
use tonghuashun.Redis.Find.{resolve_task_id}
use tonghuashun.Redis.Results.{
  transition, complete_capture, complete_result, complete_market_snapshot,
}
use tonghuashun.Redis.Retry.{requeue_waiting, retry_failed, refresh_task}
use tonghuashun.Redis.Recover.{recover_running}
use tonghuashun.Redis.Counter.{IsCounted}
use tonghuashun.Redis.Counter.Steps.{enqueue-IsCounted, submit_or_refresh-IsCounted}
use tonghuashun.Redis.Counter.Persisting.{
  transition-IsCounted, complete_capture-IsCounted, complete_result-IsCounted,
  complete_market_snapshot-IsCounted,
}
use tonghuashun.Redis.Counter.Runs.{
  next_runnable-IsCounted, requeue_waiting-IsCounted, retry_failed-IsCounted,
}
use tonghuashun.Redis.Counter.Restarts.{refresh_task-IsCounted, recover_running-IsCounted}

-- The calls that move ordinary tasks.
pub data Call : Type 0 where
  enqueues submits : TaskRecord → Call
  claims recovers : Call
  transitions : String → TaskStatus → Option String → Option SourceErrors → Call
  captures : String → CaptureKind → String → Call
  results : String → Outcome → Call
  snapshots : String → List (String × String) → Call
  requeues retries : String → Call
  refreshes : String → Option Bool → Call

-- The store after a call.
unfoldable pub after : Server → Call → RedisStore → RedisStore
unfolding enqueue submit_or_refresh next_runnable recover_running transition complete_capture
    complete_result complete_market_snapshot requeue_waiting retry_failed refresh_task
after now (enqueues task) s = (enqueue now task s).1
after now (submits task) s = (submit_or_refresh now task s).1
after now claims s = (next_runnable now s).1
after now recovers s = (recover_running now s).1
after now (transitions id status code errors) s = (transition now id status code errors s).1
after now (captures id kind path) s = (complete_capture now id kind path s).1
after now (results id o) s = (complete_result now id o s).1
after now (snapshots id snapshot) s = (complete_market_snapshot now id snapshot s).1
after now (requeues id) s = (requeue_waiting now id s).1
after now (retries id) s = (retry_failed now id s).1
after now (refreshes id flag) s = (refresh_task now id flag s).1

-- A new task is active and has a new id, and the name of a task to refresh leads to no alias.
abbrev pub IsReady : Call → RedisStore → Type 0
IsReady (enqueues task) s = (task_active task ≡ true) × (get task.task_id s.payloads ≡ none)
IsReady (submits task) s = (task_active task ≡ true) × (get task.task_id s.payloads ≡ none)
IsReady (refreshes task_id flag) s =
    (id : String) → resolve_task_id task_id s ≡ some id → get id s.aliases ≡ none
IsReady _ s = Unit

-- Calls one after the other, each at its own reading of the clocks.
pub data Reaches : RedisStore → RedisStore → Type 0 where
  done : (s : RedisStore) → Reaches s s
  call :
      (now : Server) (c : Call) (s s' : RedisStore)
      → IsReady c s
      → Reaches (after now c s) s'
      → Reaches s s'

after-IsCounted :
    (d : ℕ) (now : Server) (c : Call) (s : RedisStore)
    → IsReady c s
    → IsCounted d s
    → IsCounted d (after now c s)
unfolding after
after-IsCounted d now (enqueues task) s r h = enqueue-IsCounted d now task r.0 s r.1 h
after-IsCounted d now (submits task) s r h = submit_or_refresh-IsCounted d now task r.0 s r.1 h
after-IsCounted d now claims s r h = next_runnable-IsCounted d now s h
after-IsCounted d now recovers s r h = recover_running-IsCounted d now s h
after-IsCounted d now (transitions id status code errors) s r h =
    transition-IsCounted d now id status code errors s h
after-IsCounted d now (captures id kind path) s r h =
    complete_capture-IsCounted d now id kind path s h
after-IsCounted d now (results id o) s r h = complete_result-IsCounted d now id o s h
after-IsCounted d now (snapshots id snapshot) s r h =
    complete_market_snapshot-IsCounted d now id snapshot s h
after-IsCounted d now (requeues id) s r h = requeue_waiting-IsCounted d now id s h
after-IsCounted d now (retries id) s r h = retry_failed-IsCounted d now id s h
after-IsCounted d now (refreshes id flag) s r h = refresh_task-IsCounted d now id flag s r h

-- However many calls enqueue, submit, claim, move, complete, requeue, retry, refresh and recover
-- tasks, the counter stays as far below the number of payloads with an active status as it was, and
-- each payload stays under its own id. A new task has an active status and an id without a payload,
-- and the name of a task to refresh leads to an id that is no alias.
pub Reaches-IsCounted : (d : ℕ) (s s' : RedisStore) → Reaches s s' → IsCounted d s → IsCounted d s'
Reaches-IsCounted d s _ (done _) h = h
Reaches-IsCounted d s s' (call now c _ _ r rest) h =
    Reaches-IsCounted d (after now c s) s' rest (after-IsCounted d now c s r h)
