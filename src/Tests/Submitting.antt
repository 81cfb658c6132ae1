-- ===== src/Tests/Submitting.antt =====
-- Submissions to the in-memory queue of level2_service/queue.py at concrete inputs.
use tonghuashun.Base.{◌≤◌, ◌≡◌, refl, true, none, some, [], ◌∷◌, arith, eq_iff}
use tonghuashun.Dict.{get}
use tonghuashun.Models.{TaskRecord, TaskStatus, new_task}
use tonghuashun.Queue.{pending, task_active, is_active}
use tonghuashun.Queue.Keyed.{IsKeyed}
use tonghuashun.Queue.Submit.{submit_or_refresh}
use tonghuashun.Queue.Submit.Capacity.{submit_or_refresh-Fits}
use tonghuashun.Queue.Submit.Outcome.{submit_or_refresh-IsPlaced}
use tonghuashun.Queue.Submit.Unique.{
  IsUnique, is_ordinary, none-IsMarked, submit_or_refresh-IsUnique,
}
use tonghuashun.Tests.{plain_platform, at, failed_task, new_task_c, two_tasks}

two_tasks-IsKeyed : IsKeyed two_tasks.tasks
unfolding new_task get
two_tasks-IsKeyed = (refl, refl, (refl, refl, tt))

two_tasks-IsUnique : IsUnique two_tasks
unfolding new_task is_ordinary
two_tasks-IsUnique symbol =
    ground (arith, eq_iff "600000" symbol, eq_iff "600001" symbol, eq_iff "600000" "600001")

submit_or_refresh-Fits_example :
    pending (submit_or_refresh plain_platform (at 9) new_task_c two_tasks).1
    ≤ (submit_or_refresh plain_platform (at 9) new_task_c two_tasks).1.pending_cap
unfolding new_task task_active
submit_or_refresh-Fits_example =
    submit_or_refresh-Fits plain_platform (at 9) new_task_c two_tasks (omega arith)

-- The failed task of the symbol runs again under its own id.
submit_again :
    (submit_or_refresh plain_platform (at 9) new_task_c two_tasks).1.fifo ≡ "b" ∷ "a" ∷ []
unfolding new_task submit_or_refresh task_active
submit_again = refl

-- The task that `submit_again` leaves.
abbrev again : TaskRecord
unfolding new_task submit_or_refresh task_active
again = record failed_task {
  status = TaskStatus.queued;
  created_at = 9;
  updated_at = 9;
  completed_at = none;
}

submit_or_refresh-IsPlaced_example :
    (get "a" (submit_or_refresh plain_platform (at 9) new_task_c two_tasks).1.tasks ≡ some again)
    × (again.symbol ≡ "600000")
    × (is_active again.status ≡ true)
unfolding again
submit_or_refresh-IsPlaced_example =
    submit_or_refresh-IsPlaced plain_platform (at 9) new_task_c two_tasks two_tasks-IsKeyed refl
      again refl

submit_or_refresh-IsUnique_example :
    IsUnique (submit_or_refresh plain_platform (at 9) new_task_c two_tasks).1
submit_or_refresh-IsUnique_example =
    submit_or_refresh-IsUnique plain_platform (at 9) new_task_c two_tasks two_tasks-IsKeyed
      (none-IsMarked two_tasks.tasks) two_tasks-IsUnique
