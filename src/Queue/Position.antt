-- ===== src/Queue/Position.antt =====
-- level2_service/queue.py: the names of tasks after a merge, and the place of a task in the queue.
pub mod First
pub mod Aliases
use tonghuashun.Base.{
  ℕ, zero, suc, ◌+◌, String, Bool, false, ◌&&◌, not, Option, none, some, List, [], ◌∷◌, ◌==◌,
  if◌then◌else◌, contains, length, drop,
}
use tonghuashun.Dict.{Dict, get, get_or}
use tonghuashun.Models.{TaskRecord, TaskStatus, status_eq}
use tonghuashun.Queue.{Streams, Clocks, has_maintenance_metadata, opt_eq, bound_of, active_lease}

-- The loop of resolve_task_id. Each round visits a new key of the aliases, so one round more than
-- there are aliases is enough.
unfoldable pub follow : ℕ → Dict String → List String → String → Option String
follow zero aliases visited id = none
follow (suc fuel) aliases visited id = elim (get id aliases) [
  | none ↦ some id
  | some target ↦
      let rest = follow fuel aliases (id ∷ visited) target in
      if contains id visited then some id else rest
]

-- `none` is never reached.
unfoldable pub resolve_task_id : String → Streams → Option String
unfolding follow
resolve_task_id id s = follow (suc (length s.aliases)) s.aliases [] id

-- A task that counts for the position of another.
unfoldable pub counts : Dict TaskRecord → Option String → String → Bool
unfolding has_maintenance_metadata
counts tasks bound id = elim (get id tasks) [
  | none ↦ false
  | some task ↦
      status_eq task.status TaskStatus.queued
      && not (has_maintenance_metadata task)
      && not (opt_eq bound task.task_id)
]

-- The loop of queue_position from a position on.
unfoldable pub position_from : Dict TaskRecord → Option String → String → ℕ → List String → Option ℕ
position_from tasks bound id position [] = none
position_from tasks bound id position (queued_id ∷ fifo) =
    let next = position_from tasks bound id (position + 1) fifo in
    let skip = position_from tasks bound id position fifo in
    if counts tasks bound queued_id
    then (if queued_id == id then some (position + 1) else next)
    else skip

unfoldable pub position_in : Option String → Streams → String → Option ℕ
unfolding counts position_from
position_in bound s id =
    if counts s.tasks bound id then position_from s.tasks bound id 0 s.fifo else none

unfoldable pub queue_position : String → Clocks → Streams → Option ℕ × Streams
unfolding position_in resolve_task_id active_lease
queue_position task_id now s = elim (resolve_task_id task_id s) [
  | none ↦ (none, s)
  | some id ↦ let (lease, s') = active_lease now s in (position_in (bound_of lease) s' id, s')
]

-- get
unfoldable pub get_task : String → Streams → Option TaskRecord
unfolding resolve_task_id
get_task task_id s = elim (resolve_task_id task_id s) [ none ↦ none | some id ↦ get id s.tasks ]

-- events_after, from an index that is not negative.
unfoldable pub events_after : String → ℕ → Streams → List TaskStatus
unfolding resolve_task_id
events_after task_id index s = elim (resolve_task_id task_id s) [
  | none ↦ []
  | some id ↦ drop index (get_or id [] s.events)
]
