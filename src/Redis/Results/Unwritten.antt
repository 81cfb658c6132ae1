-- ===== src/Redis/Results/Unwritten.antt =====
-- level2_service/queue.py: results of `RedisStreamsStore` where the server does not write the event.
use tonghuashun.Base.{
  ◌≡◌, refl, ap, ◌∙◌, String, Bool, true, false, not, Option, some, List, Option-cases, inl, inr,
  if◌then◌else◌,
}
use tonghuashun.Dict.{get}
use tonghuashun.Models.{TaskRecord, TaskStatus, CaptureKind, SourceErrors, status_eq}
use tonghuashun.Queue.{Result}
use tonghuashun.Queue.Keyed.{IsKeyed}
use tonghuashun.Queue.Results.{
  Outcome, allowed, accepts, moved_task, wrong_path, captured_task, resulted_task, snapshot_task,
}
use tonghuashun.Redis.{RedisStore, Server}
use tonghuashun.Redis.Find.{get_task}
use tonghuashun.Redis.Results.{
  persist, with_task, transition, complete_capture, complete_result, complete_market_snapshot,
  utc_clock,
}
use tonghuashun.Redis.Counter.Persisting.{
  persist_script-unwritten, get_task-found, captured_task-id, resulted_task-id,
}

module _ (now : Server) (off : now.writes_event ≡ false) (s : RedisStore)
    (keyed : IsKeyed s.payloads) where
  persist-same :
      (old task : TaskRecord)
      → get task.task_id s.payloads ≡ some old
      → (persist now old task s).1 ≡ s
  unfolding persist
  persist-same old task e = rw (persist_script-unwritten now old task s e off) refl

  with_task-same :
      (id : String) (f : TaskRecord → Result TaskRecord × RedisStore)
      → ((task : TaskRecord) → get task.task_id s.payloads ≡ some task → (f task).1 ≡ s)
      → (with_task id f s).1 ≡ s
  unfolding with_task
  with_task-same id f step = elim (Option-cases (get_task id s)) [
    | inl e ↦ rw (with_task, e) refl
    | inr (task, e) ↦ rw (with_task, e) (step task (get_task-found id task s keyed e))
  ]

  unless-same :
      (b : Bool) (e : Result TaskRecord) (r : Result TaskRecord × RedisStore)
      → r.1 ≡ s
      → (if b then (e, s) else r).1 ≡ s
  unless-same true e r k = refl
  unless-same false e r k = k

  transition-same :
      (id : String) (status : TaskStatus) (code : Option String) (errors : Option SourceErrors)
      → (transition now id status code errors s).1 ≡ s
  unfolding transition moved_task
  transition-same id status code errors = with_task-same id _ (λ task e.
      unless-same (not (allowed task.status status)) _ _
        (persist-same task (moved_task (utc_clock now) status code errors task) e))

  complete_capture-same :
      (id : String) (kind : CaptureKind) (path : String)
      → (complete_capture now id kind path s).1 ≡ s
  unfolding complete_capture
  complete_capture-same id kind path = with_task-same id _ (λ task e.
      unless-same (not (accepts task.status)) _ _ (
        persist-same task (captured_task (utc_clock now) kind path task)
          (ap (λ i. get i s.payloads) (captured_task-id (utc_clock now) kind path task) ∙ e)))

  complete_result-same : (id : String) (o : Outcome) → (complete_result now id o s).1 ≡ s
  unfolding complete_result
  complete_result-same id o = with_task-same id _ (λ task e.
      unless-same (not (accepts task.status)) _ _ (
        unless-same (wrong_path task.include_long_capture o.path) _ _ (
          persist-same task (resulted_task (utc_clock now) o task)
            (ap (λ i. get i s.payloads) (resulted_task-id (utc_clock now) o task) ∙ e))))

  complete_market_snapshot-same :
      (id : String) (snapshot : List (String × String))
      → (complete_market_snapshot now id snapshot s).1 ≡ s
  unfolding complete_market_snapshot snapshot_task
  complete_market_snapshot-same id snapshot = with_task-same id _ (λ task e.
      unless-same (not (status_eq task.status TaskStatus.running)) _ _
        (persist-same task (snapshot_task (utc_clock now) snapshot task) e))

  -- Where the server does not write the event of a transition, a capture, a result or a snapshot,
  -- the store is left exactly as it was, if each payload is under its own id: the payload that the
  -- script wrote first is put back, and neither the counter nor the events change.
  pub concluded-same :
      (id : String) (status : TaskStatus) (code : Option String) (errors : Option SourceErrors)
      (kind : CaptureKind) (path : String) (o : Outcome) (snapshot : List (String × String))
      → ((transition now id status code errors s).1 ≡ s)
        × ((complete_capture now id kind path s).1 ≡ s)
        × ((complete_result now id o s).1 ≡ s)
        × ((complete_market_snapshot now id snapshot s).1 ≡ s)
  concluded-same id status code errors kind path o snapshot = (
    transition-same id status code errors,
    complete_capture-same id kind path,
    complete_result-same id o,
    complete_market_snapshot-same id snapshot,
  )
