-- ===== src/Redis/Submit.antt =====
-- level2_service/queue.py: the operations of `RedisStreamsStore` that put a task into the queue, with
-- the scripts THS_ENQUEUE, THS_SUBMIT_OR_REFRESH and THS_REFRESH_TASK.
use tonghuashun.Base.{
  String, Bool, true, false, ◌||◌, not, Option, none, some, [], ◌∷◌, ◌++◌, reaches, if◌then◌else◌,
}
use tonghuashun.Dict.{get, put, pop}
use tonghuashun.Models.{TaskRecord}
use tonghuashun.Queue.{
  Result, ok, err, queue_full, invalid_transition, key_error, is_active, is_refreshable,
  has_maintenance_metadata, opt_eq,
}
use tonghuashun.Redis.{
  RedisStore, Server, Reply, nil, payload, live_lease, bound_id, set_queued, sadd, remove,
  pending_count, count_up, ensure_active_count, trim_events,
}

abbrev pub full : RedisStore → Bool
full s = reaches (pending_count s) s.pending_cap

-- A new task with its id at the end of the queue, as the symbol's task.
unfoldable pub insert_task : TaskRecord → RedisStore → RedisStore
unfolding count_up set_queued
insert_task task s = count_up (
    set_queued task.task_id task (record s {
      index = sadd task.task_id s.index;
      queue = s.queue ++ task.task_id ∷ [];
      symbols = put task.symbol task.task_id s.symbols;
    }))

-- THS_ENQUEUE
unfoldable pub enqueue_script : TaskRecord → RedisStore → Bool × RedisStore
unfolding insert_task
enqueue_script task s = if full s then (false, s) else (true, insert_task task s)

abbrev pub accepted : Server → TaskRecord → Bool × RedisStore → Result TaskRecord × RedisStore
accepted now task (false, s) = (err queue_full, s)
accepted now task (true, s) = (ok task, trim_events now s)

unfoldable pub enqueue : Server → TaskRecord → RedisStore → Result TaskRecord × RedisStore
unfolding enqueue_script ensure_active_count
enqueue now task s =
    if has_maintenance_metadata task
    then (err invalid_transition, s)
    else accepted now task (enqueue_script task (ensure_active_count s))

-- The task under the id that the symbol has, which starts again with the submitted document.
unfoldable pub restart_task : String → TaskRecord → RedisStore → TaskRecord × RedisStore
unfolding count_up set_queued
restart_task id task s =
    let fresh = record task { task_id = id } in
    (fresh, count_up (set_queued id fresh (record s { queue = remove id s.queue ++ id ∷ [] })))

-- The end of THS_SUBMIT_OR_REFRESH, where the symbol has no ordinary task.
unfoldable pub submit_new : TaskRecord → RedisStore → Reply × RedisStore
unfolding insert_task
submit_new task s = if full s then (Reply.queue_full, s) else (payload task, insert_task task s)

-- Where the symbol has an ordinary task.
unfoldable pub submit_old : String → TaskRecord → TaskRecord → RedisStore → Reply × RedisStore
unfolding restart_task
submit_old id old task s =
    if is_active old.status
    then (payload old, s)
    else if full s
    then (Reply.queue_full, s)
    else let (fresh, s') = restart_task id task s in (payload fresh, s')

-- HDEL of the symbol
abbrev pub forget : String → RedisStore → RedisStore
forget symbol s = record s { symbols = pop symbol s.symbols }

unfoldable pub submit_indexed :
    Option String → String → TaskRecord → RedisStore → Reply × RedisStore
unfolding submit_old submit_new has_maintenance_metadata
submit_indexed bound id task s = elim (get id s.payloads) [
  | none ↦ submit_new task (forget task.symbol s)
  | some old ↦
      if opt_eq bound id || has_maintenance_metadata old
      then submit_new task (forget task.symbol s)
      else submit_old id old task s
]

-- THS_SUBMIT_OR_REFRESH
unfoldable pub submit_script : Server → TaskRecord → RedisStore → Reply × RedisStore
unfolding submit_indexed submit_new live_lease
submit_script now task s = elim (get task.symbol s.symbols) [
  | none ↦ submit_new task s
  | some id ↦ submit_indexed (bound_id (live_lease now s)) id task s
]

-- The reply of a script of submission; false is a RuntimeError, which is never raised.
abbrev pub submitted : Server → Reply × RedisStore → Result TaskRecord × RedisStore
submitted now (payload t, s) = (ok t, trim_events now s)
submitted now (Reply.queue_full, s) = (err queue_full, s)
submitted now (r, s) = (err key_error, s)

unfoldable pub submit_or_refresh : Server → TaskRecord → RedisStore → Result TaskRecord × RedisStore
unfolding submit_script ensure_active_count
submit_or_refresh now task s =
    if has_maintenance_metadata task
    then (err invalid_transition, s)
    else submitted now (submit_script now task (ensure_active_count s))

-- THS_REFRESH_TASK
unfoldable pub refresh_script : Server → String → TaskRecord → RedisStore → Reply × RedisStore
unfolding set_queued count_up live_lease
refresh_script now id candidate s = elim (get id s.payloads) [
  | none ↦ (nil, s)
  | some current ↦
      if has_maintenance_metadata current || opt_eq (bound_id (live_lease now s)) id
      then (Reply.maintenance, s)
      else if is_active current.status
      then (payload current, s)
      else if not (is_refreshable current.status)
      then (nil, s)
      else if full s
      then (Reply.queue_full, s)
      else (
        payload candidate,
        count_up (
            set_queued id candidate
              (record s { queue = s.queue ++ id ∷ []; index = sadd id s.index })),
      )
]
