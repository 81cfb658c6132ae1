-- ===== src/Redis/Binding.antt =====
-- level2_service/queue.py: THS_BIND_DEPLOYMENT_ACCEPTANCE and its caller in `RedisStreamsStore`.
use tonghuashun.Base.{
  String, Bool, false, ◌&&◌, ◌||◌, not, Option, none, some, [], ◌∷◌, ◌++◌, ◌==◌, leb, if◌then◌else◌,
  is_some,
}
use tonghuashun.Dict.{get, put, pop}
use tonghuashun.Models.{TaskRecord, TaskStatus, status_eq}
use tonghuashun.Queue.{Platform, Lease, has_maintenance_metadata, namespace, opt_eq}
use tonghuashun.Queue.Claim.{valid_bound_acceptance}
use tonghuashun.Queue.Leases.{same_digest}
use tonghuashun.Queue.Maintenance.{
  valid_acceptance_task, mark_acceptance, terminal_acceptance_retryable,
}
use tonghuashun.Redis.{
  RedisStore, Server, Reply, nil, payload, live_lease, sadd, remove, set_task, count_members,
}

-- The acceptance task of the owner, as the script tests it.
unfoldable pub is_owned : String → TaskRecord → Bool
is_owned digest task =
    opt_eq task.maintenance_namespace namespace && opt_eq task.maintenance_owner_digest digest

unfoldable pub is_candidate : String → TaskRecord → Bool
unfolding is_owned
is_candidate digest task =
    task.symbol == "601872"
    && not task.include_long_capture
    && status_eq task.status TaskStatus.queued
    && is_owned digest task

-- The loop over the members, which counts instead of reading the counter.
unfoldable pub full_by_count : RedisStore → Bool
unfolding count_members
full_by_count s = leb s.pending_cap (count_members s.payloads s.index)

-- The bound task starts again with the candidate's document.
unfoldable pub rebind_task : String → TaskRecord → RedisStore → Reply × RedisStore
unfolding set_task full_by_count
rebind_task bound candidate s =
    if full_by_count s
    then (Reply.queue_full, s)
    else let fresh = record candidate { task_id = bound } in
      (
        payload fresh,
        set_task bound fresh
            (record s { queue = remove bound s.queue ++ bound ∷ []; index = sadd bound s.index }),
      )

-- The symbol is no longer that of an ordinary task.
unfoldable pub forget_bound : String → String → RedisStore → RedisStore
forget_bound bound symbol s = elim (get symbol s.symbols) [
  | none ↦ s
  | some id ↦ if id == bound then record s { symbols = pop symbol s.symbols } else s
]

unfoldable pub bind_existing : String → TaskRecord → TaskRecord → RedisStore → Reply × RedisStore
unfolding rebind_task forget_bound terminal_acceptance_retryable
bind_existing bound candidate task s =
    if terminal_acceptance_retryable task
    then rebind_task bound candidate (forget_bound bound task.symbol s)
    else (payload task, forget_bound bound task.symbol s)

-- A task without maintenance fields takes those of the candidate.
unfoldable pub marked_as : TaskRecord → TaskRecord → TaskRecord
marked_as candidate task = record task {
  maintenance_namespace = candidate.maintenance_namespace;
  maintenance_owner_digest = candidate.maintenance_owner_digest;
}

-- The lease has a bound task already.
unfoldable pub bind_bound :
    String → String → TaskRecord → TaskRecord → RedisStore → Reply × RedisStore
unfolding bind_existing marked_as is_owned has_maintenance_metadata
bind_bound digest bound candidate task s =
    if not (task.task_id == bound) || not (task.symbol == "601872") || task.include_long_capture
    then (nil, s)
    else if has_maintenance_metadata task
    then (if is_owned digest task then bind_existing bound candidate task s else (nil, s))
    else bind_existing bound candidate (marked_as candidate task)
        (record s { payloads = put bound (marked_as candidate task) s.payloads })

-- The lease is bound to the candidate, which goes to the end of the queue.
unfoldable pub bind_new : Lease → TaskRecord → RedisStore → Reply × RedisStore
unfolding set_task full_by_count
bind_new l candidate s =
    if is_some (get candidate.task_id s.payloads)
    then (nil, s)
    else if full_by_count s
    then (Reply.queue_full, s)
    else (
      payload candidate,
      set_task candidate.task_id candidate (record s {
        index = sadd candidate.task_id s.index;
        queue = s.queue ++ candidate.task_id ∷ [];
        lease = some (record l { bound_task_id = some candidate.task_id });
      }),
    )

unfoldable pub bind_held : String → Lease → TaskRecord → RedisStore → Reply × RedisStore
unfolding bind_new bind_bound
bind_held digest l candidate s = elim l.bound_task_id [
  | none ↦ bind_new l candidate s
  | some bound ↦ elim (get bound s.payloads) [
    | none ↦ (nil, s)
    | some task ↦ bind_bound digest bound candidate task s
  ]
]

unfoldable pub bind_script : Server → String → String → TaskRecord → RedisStore → Reply × RedisStore
unfolding bind_held is_candidate live_lease
bind_script now owner digest candidate s = elim (live_lease now s) [
  | none ↦ (nil, s)
  | some l ↦
      if not (l.owner_token == owner)
        || not (same_digest l.owner_digest digest)
        || not (is_candidate digest candidate)
      then (nil, s)
      else let l' = record l { owner_digest = some digest } in
        bind_held digest l' candidate (record s { lease = some l' })
]

-- The last test of bind_deployment_acceptance.
unfoldable pub bound_reply : String → Reply × RedisStore → Option TaskRecord × RedisStore
unfolding valid_bound_acceptance
bound_reply digest (payload t, s) =
    if valid_bound_acceptance t.task_id digest false t then (some t, s) else (none, s)
bound_reply digest (_, s) = (none, s)

module _ (os : Platform) where
  unfoldable pub bind_deployment_acceptance :
      Server → String → TaskRecord → RedisStore → Option TaskRecord × RedisStore
  unfolding bind_script bound_reply valid_acceptance_task mark_acceptance
  bind_deployment_acceptance now owner task s =
      if valid_acceptance_task task
      then bound_reply (os.sha256_hex owner)
          (bind_script now owner (os.sha256_hex owner) (mark_acceptance os owner task) s)
      else (none, s)
