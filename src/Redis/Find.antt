-- ===== src/Redis/Find.antt =====
-- level2_service/queue.py: how `RedisStreamsStore` finds tasks: by id, through the aliases, by
-- symbol and by their place in the queue.
pub mod Aliases
use tonghuashun.Base.{
  ℕ, zero, suc, ◌+◌, String, Bool, true, false, ◌&&◌, ◌||◌, not, Option, none, some, List, [], ◌∷◌,
  ◌==◌, if◌then◌else◌, contains, length, keep,
}
use tonghuashun.Dict.{Dict, get, put, pop}
use tonghuashun.Models.{TaskRecord, TaskStatus, status_eq}
use tonghuashun.Queue.{has_maintenance_metadata, opt_eq}
use tonghuashun.Queue.Canonical.{canonical_task}
use tonghuashun.Queue.Leases.{LeaseStatus}
use tonghuashun.Redis.{RedisStore, Server}
use tonghuashun.Redis.Leases.{deployment_lease_status}

-- The loop of resolve_task_id, where an empty target counts as none. A round more than there are
-- aliases is enough.
unfoldable pub follow_alias : ℕ → Dict String → List String → String → Option String
follow_alias zero aliases visited id = none
follow_alias (suc fuel) aliases visited id = elim (get id aliases) [
  | none ↦ some id
  | some target ↦
      let rest = follow_alias fuel aliases (id ∷ visited) target in
      if contains id visited then some id else if target == "" then some id else rest
]

unfoldable pub resolve_task_id : String → RedisStore → Option String
unfolding follow_alias
resolve_task_id id s = follow_alias (suc (length s.aliases)) s.aliases [] id

-- get
unfoldable pub get_task : String → RedisStore → Option TaskRecord
unfolding resolve_task_id
get_task task_id s = elim (resolve_task_id task_id s) [ none ↦ none | some id ↦ get id s.payloads ]

abbrev pub bound_status : Option LeaseStatus → Option String
bound_status none = none
bound_status (some l) = l.bound_task_id

-- An ordinary task that the lease does not bind.
unfoldable pub is_ordinary : Option String → TaskRecord → Bool
unfolding has_maintenance_metadata
is_ordinary bound task = not (has_maintenance_metadata task) && not (opt_eq bound task.task_id)

-- The tasks of the set of ids that pass a test.
unfoldable pub members : (TaskRecord → Bool) → Dict TaskRecord → List String → List TaskRecord
members test payloads [] = []
members test payloads (id ∷ ids) =
    let rest = members test payloads ids in
    elim (get id payloads) [ none ↦ rest | some task ↦ if test task then task ∷ rest else rest ]

abbrev index_symbol : Option TaskRecord → RedisStore → Option TaskRecord × RedisStore
index_symbol none s = (none, s)
index_symbol (some task) s =
    (some task, record s { symbols = put task.symbol task.task_id s.symbols })

-- The search over all tasks.
unfoldable pub find_member : String → Option String → RedisStore → Option TaskRecord × RedisStore
unfolding is_ordinary members canonical_task
find_member symbol bound s =
    index_symbol
      (canonical_task
        (members (λ task. task.symbol == symbol && is_ordinary bound task) s.payloads s.index))
      s

abbrev forget : String → RedisStore → RedisStore
forget symbol s = record s { symbols = pop symbol s.symbols }

unfoldable pub find_indexed :
    String → Option String → Option TaskRecord → RedisStore → Option TaskRecord × RedisStore
unfolding find_member is_ordinary
find_indexed symbol bound none s = find_member symbol bound (forget symbol s)
find_indexed symbol bound (some task) s =
    if is_ordinary bound task then (some task, s) else find_member symbol bound (forget symbol s)

unfoldable pub find_by_symbol : String → Server → RedisStore → Option TaskRecord × RedisStore
unfolding find_indexed find_member deployment_lease_status
find_by_symbol symbol now s =
    let bound = bound_status (deployment_lease_status now s) in
    elim (get symbol s.symbols) [
      | none ↦ find_member symbol bound s
      | some id ↦
          if id == ""
          then find_member symbol bound s
          else find_indexed symbol bound (get id s.payloads) s
    ]

-- A task that has a place in the queue.
abbrev in_line : Option String → Option TaskRecord → Bool
unfolding is_ordinary has_maintenance_metadata
in_line bound none = false
in_line bound (some task) = status_eq task.status TaskStatus.queued && is_ordinary bound task

unfoldable pub line_position : RedisStore → Option String → String → ℕ → List String → Option ℕ
unfolding get_task is_ordinary has_maintenance_metadata
line_position s bound id position [] = none
line_position s bound id position (queued_id ∷ queue) =
    let next = line_position s bound id (position + 1) queue in
    let skip = line_position s bound id position queue in
    if in_line bound (get_task queued_id s)
    then (if queued_id == id then some (position + 1) else next)
    else skip

unfoldable pub queue_position : String → Server → RedisStore → Option ℕ
unfolding resolve_task_id get_task line_position is_ordinary has_maintenance_metadata
    deployment_lease_status
queue_position task_id now s = elim (resolve_task_id task_id s) [
  | none ↦ none
  | some id ↦
      let bound = bound_status (deployment_lease_status now s) in
      if in_line bound (get_task id s) then line_position s bound id 0 s.queue else none
]
