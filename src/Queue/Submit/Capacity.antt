-- ===== src/Queue/Submit/Capacity.antt =====
-- level2_service/queue.py: submissions and the cap of pending tasks of `InMemoryStreams`.
use tonghuashun.Base.{
  ◌+◌, ◌≤◌, ◌≡◌, String, Bool, false, Option, none, some, arith, Bool-cases, inl, inr, refl,
}
use tonghuashun.Dict.Counting.{weight, count-put}
use tonghuashun.Models.{TaskRecord}
use tonghuashun.Queue.{
  Streams, Platform, Clocks, pending, task_active, active_lease, store_task,
  has_maintenance_metadata,
}
use tonghuashun.Queue.Submit.{
  enqueue_locked, refresh_locked, submit_found, submit_or_refresh, find_by_symbol, reset_task,
}

abbrev pub Fits : Streams → Type 0
Fits s = pending s ≤ s.pending_cap

pub weight_le : (o : Option TaskRecord) → weight task_active o ≤ 1
weight_le none = omega arith
weight_le (some t) = ground arith

-- A write of a task adds at most one to the number of pending tasks.
pub pending-store :
    (key : String) (task : TaskRecord) (s : Streams)
    → pending (store_task key task s) ≤ pending s + 1
unfolding store_task
pending-store key task s =
    omega (arith, count-put task_active key task s.tasks, weight_le (some task))

pub cap-store :
    (key : String) (task : TaskRecord) (s : Streams)
    → (store_task key task s).pending_cap ≡ s.pending_cap
unfolding store_task
cap-store key task s = refl

pub enqueue_locked-Fits :
    (maintenance : Bool) (task : TaskRecord) (s : Streams)
    → Fits s
    → Fits (enqueue_locked maintenance task s).1
unfolding enqueue_locked store_task
enqueue_locked-Fits maintenance task s h =
    ground (arith, count-put task_active task.task_id task s.tasks, weight_le (some task))

pub refresh_locked-Fits :
    (os : Platform) (now : Clocks) (task : TaskRecord) (flag : Option Bool) (s : Streams)
    → Fits s
    → Fits (refresh_locked os now task flag s).1
unfolding refresh_locked store_task
refresh_locked-Fits os now task flag s h = ground (
  arith,
  count-put task_active task.task_id (reset_task now flag task) s.tasks,
  weight_le (some (reset_task now flag task)),
)

-- The search for an older task changes neither the tasks nor the cap.
pub tasks-active_lease : (now : Clocks) (s : Streams) → (active_lease now s).1.tasks ≡ s.tasks
unfolding active_lease
tasks-active_lease now s = ground arith

pub cap-active_lease :
    (now : Clocks) (s : Streams) → (active_lease now s).1.pending_cap ≡ s.pending_cap
unfolding active_lease
cap-active_lease now s = ground arith

active_lease-Fits : (now : Clocks) (s : Streams) → Fits s → Fits (active_lease now s).1
active_lease-Fits now s h = rw (tasks-active_lease, cap-active_lease) h

submit_found-Fits :
    (os : Platform) (now : Clocks) (task : TaskRecord) (found : Option TaskRecord × Streams)
    → Fits found.1
    → Fits (submit_found os now task found).1
unfolding submit_found
submit_found-Fits os now task (none, s) h = enqueue_locked-Fits false task s h
submit_found-Fits os now task (some old, s) h =
    ground (arith, refresh_locked-Fits os now old (some task.include_long_capture) s h)

-- A submission keeps the number of queued, running and waiting tasks within the cap, whether it
-- puts a new task into the queue, starts an old one again, or is refused.
pub submit_or_refresh-Fits :
    (os : Platform) (now : Clocks) (task : TaskRecord) (s : Streams)
    → pending s ≤ s.pending_cap
    → pending (submit_or_refresh os now task s).1 ≤ (submit_or_refresh os now task s).1.pending_cap
unfolding submit_or_refresh find_by_symbol
submit_or_refresh-Fits os now task s h = elim (Bool-cases (has_maintenance_metadata task)) [
  | inl e ↦ rw e h
  | inr e ↦ rw e (submit_found-Fits os now task _ (active_lease-Fits now s h))
]
