-- ===== src/Queue/Recover.antt =====
-- level2_service/queue.py: what `InMemoryStreams` does with tasks that were running when the service
-- stopped, and the test for a task in progress.
pub mod Restart
use tonghuashun.Base.{
  ℕ, ◌+◌, Bool, ◌&&◌, ◌||◌, none, List, [], ◌∷◌, if◌then◌else◌, keep, is_none, any, leb,
}
use tonghuashun.Dict.{values}
use tonghuashun.Models.{TaskRecord, TaskStatus, status_eq, no_source_errors}
use tonghuashun.Queue.{Streams, store_task}

unfoldable pub recover_task : ℕ → TaskRecord → TaskRecord
recover_task utc task = record task {
  status = TaskStatus.queued;
  error_code = none;
  source_errors = no_source_errors;
  completed_at = none;
  updated_at = utc;
}

-- recovered.sort(key=created_at), which is stable.
unfoldable pub insert_by_created : TaskRecord → List TaskRecord → List TaskRecord
insert_by_created t [] = t ∷ []
insert_by_created t (x ∷ xs) =
    let rest = insert_by_created t xs in
    if leb t.created_at x.created_at then t ∷ x ∷ xs else x ∷ rest

unfoldable pub sort_by_created : List TaskRecord → List TaskRecord
unfolding insert_by_created
sort_by_created [] = []
sort_by_created (t ∷ ts) = insert_by_created t (sort_by_created ts)

-- The loop over the tasks to recover; `utc n` is the reading of the clock in round n.
unfoldable pub recover_each : (ℕ → ℕ) → ℕ → List TaskRecord → Streams → List TaskRecord × Streams
unfolding recover_task store_task
recover_each utc n [] s = ([], s)
recover_each utc n (t ∷ ts) s =
    let t' = recover_task (utc n) t in
    let (rest, s') = recover_each utc (n + 1) ts (store_task t.task_id t' s) in (t' ∷ rest, s')

unfoldable pub is_running : TaskRecord → Bool
is_running task = status_eq task.status TaskStatus.running

unfoldable pub recover_running : (ℕ → ℕ) → Streams → List TaskRecord × Streams
unfolding recover_each sort_by_created is_running
recover_running utc s = recover_each utc 0 (sort_by_created (keep is_running (values s.tasks))) s

-- A task in progress: running, or partial with a result still to come.
unfoldable pub in_progress : TaskRecord → Bool
in_progress task =
    status_eq task.status TaskStatus.running
    || (status_eq task.status TaskStatus.partial && is_none task.completed_at)

unfoldable pub has_running_task : Streams → Bool
unfolding in_progress
has_running_task s = any in_progress (values s.tasks)
