-- ===== src/Redis/Claim.antt =====
-- level2_service/queue.py: `next_runnable` of `RedisStreamsStore`, with THS_CLAIM_WITH_DEPLOYMENT_LEASE.
use tonghuashun.Base.{
  String, Bool, ◌&&◌, not, Option, none, some, List, [], ◌∷◌, ◌==◌, if◌then◌else◌,
}
use tonghuashun.Dict.{Dict, get}
use tonghuashun.Models.{TaskRecord, TaskStatus, status_eq}
use tonghuashun.Queue.{Lease, namespace, opt_eq}
use tonghuashun.Queue.Claim.{waits}
use tonghuashun.Redis.{RedisStore, Server, live_lease, set_task, remove, trim_events}

-- The tests of the script on the task of the lease.
unfoldable pub runs_for : String → String → TaskRecord → Bool
runs_for id digest task =
    task.task_id == id
    && status_eq task.status TaskStatus.queued
    && task.symbol == "601872"
    && not task.include_long_capture
    && opt_eq task.maintenance_namespace namespace
    && opt_eq task.maintenance_owner_digest digest

unfoldable pub started : Server → TaskRecord → TaskRecord
started now task = record task { status = TaskStatus.running; updated_at = now.utc }

unfoldable pub start_bound :
    Server → String → String → TaskRecord → RedisStore → Option TaskRecord × RedisStore
unfolding runs_for started set_task
start_bound now id digest task s =
    if runs_for id digest task
    then (
      some (started now task),
      set_task id (started now task) (record s { queue = remove id s.queue }),
    )
    else (none, s)

-- Under a lease only its own task may run.
unfoldable pub claim_leased : Server → Lease → RedisStore → Option TaskRecord × RedisStore
unfolding start_bound
claim_leased now l s = elim l.bound_task_id [
  | none ↦ (none, s)
  | some id ↦ elim l.owner_digest [
    | none ↦ (none, s)
    | some digest ↦ elim (get id s.payloads) [
      | none ↦ (none, s)
      | some task ↦ start_bound now id digest task s
    ]
  ]
]

-- The loop of LPOP: the first id of a waiting task, and what is left of the queue.
unfoldable pub pop_waiting : Dict TaskRecord → List String → Option String × List String
unfolding waits
pop_waiting payloads [] = (none, [])
pop_waiting payloads (id ∷ queue) =
    let rest = pop_waiting payloads queue in if waits payloads id then (some id, queue) else rest

unfoldable pub start_popped :
    Server → Option String × List String → RedisStore → Option TaskRecord × RedisStore
unfolding started set_task
start_popped now (none, queue) s = (none, record s { queue = queue })
start_popped now (some id, queue) s = elim (get id s.payloads) [
  | none ↦ (none, record s { queue = queue })
  | some task ↦
      (some (started now task), set_task id (started now task) (record s { queue = queue }))
]

unfoldable pub claim_script : Server → RedisStore → Option TaskRecord × RedisStore
unfolding live_lease claim_leased pop_waiting start_popped
claim_script now s = elim (live_lease now s) [
  | some l ↦ claim_leased now l s
  | none ↦ start_popped now (pop_waiting s.payloads s.queue) s
]

unfoldable pub next_runnable : Server → RedisStore → Option TaskRecord × RedisStore
unfolding claim_script trim_events
next_runnable now s = let (task, s') = claim_script now s in (task, trim_events now s')

-- next_queued
unfoldable pub next_queued : Server → RedisStore → Option TaskRecord × RedisStore
unfolding next_runnable
next_queued now s = next_runnable now s
