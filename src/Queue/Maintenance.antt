-- ===== src/Queue/Maintenance.antt =====
-- level2_service/queue.py: the acceptance task that a deployment lease binds, its removal, and the
-- end of the lease.
pub mod Binding
pub mod Acceptance
pub mod Removal
use tonghuashun.Base.{
  String, Bool, true, false, ◌&&◌, not, Option, none, some, List, [], ◌∷◌, ◌==◌, if◌then◌else◌,
  is_some, is_none, keep,
}
use tonghuashun.Dict.{Dict, get, put, pop}
use tonghuashun.Models.{TaskRecord, TaskStatus, status_eq}
use tonghuashun.Queue.{
  Streams, Platform, Clocks, Lease, Result, ok, err, queue_full, has_maintenance_metadata,
  namespace, active_lease, compare_digest, unlink_all,
}
use tonghuashun.Queue.Canonical.{canonical_task}
use tonghuashun.Queue.Claim.{valid_bound_acceptance}
use tonghuashun.Queue.Leases.{same_digest}
use tonghuashun.Queue.Submit.{enqueue_locked, refresh_locked}

unfoldable pub valid_acceptance_task : TaskRecord → Bool
unfolding has_maintenance_metadata
valid_acceptance_task task =
    task.symbol == "601872"
    && not task.include_long_capture
    && status_eq task.status TaskStatus.queued
    && is_none task.completed_at
    && not (has_maintenance_metadata task)

unfoldable pub valid_legacy_bound_acceptance : String → TaskRecord → Bool
unfolding has_maintenance_metadata
valid_legacy_bound_acceptance bound task =
    task.task_id == bound
    && task.symbol == "601872"
    && not task.include_long_capture
    && not (has_maintenance_metadata task)

-- _terminal_acceptance_retryable
unfoldable pub terminal_acceptance_retryable : TaskRecord → Bool
terminal_acceptance_retryable task = elim task.status [
  | TaskStatus.completed ↦ true
  | TaskStatus.market_snapshot ↦ true
  | TaskStatus.failed ↦ true
  | TaskStatus.expired ↦ true
  | TaskStatus.partial ↦ is_some task.completed_at
  | _ ↦ false
]

-- An ordinary task other than the removed one, with its symbol.
unfoldable pub is_ordinary_twin : String → String → TaskRecord → Bool
unfolding has_maintenance_metadata
is_ordinary_twin raw_id symbol c =
    not (c.task_id == raw_id) && c.symbol == symbol && not (has_maintenance_metadata c)

-- list(self._tasks.items()) without the values under a key that is not their own.
abbrev pub own_values : Dict TaskRecord → List TaskRecord
own_values [] = []
own_values ((j, t) ∷ d) = let rest = own_values d in if t.task_id == j then t ∷ rest else rest

-- The loop over the aliases: those of the removed task go to the canonical one, or disappear.
unfoldable pub redirect : String → Option TaskRecord → Dict String → Dict String
redirect raw_id canonical [] = []
redirect raw_id canonical ((alias, target) ∷ d) =
    let rest = redirect raw_id canonical d in
    if alias == raw_id
    then rest
    else if target == raw_id
    then elim canonical [ none ↦ rest | some c ↦ (alias, c.task_id) ∷ rest ]
    else (alias, target) ∷ rest

-- The tests of _remove_maintenance_task_locked.
unfoldable pub removable : Option String → Bool → String → TaskRecord → Bool
unfolding has_maintenance_metadata valid_bound_acceptance valid_legacy_bound_acceptance
removable digest allow_legacy raw_id task =
    task.task_id == raw_id
    && (if has_maintenance_metadata task
        then (elim digest [
          | some d ↦ valid_bound_acceptance raw_id d false task
          | none ↦ elim task.maintenance_owner_digest [
            | some d ↦ valid_bound_acceptance raw_id d false task
            | none ↦ false
          ]
        ])
        else (allow_legacy && valid_legacy_bound_acceptance raw_id task))

module _ (os : Platform) where
  unfoldable pub drop_task : String → TaskRecord → Streams → Streams
  unfolding redirect is_ordinary_twin canonical_task unlink_all
  drop_task raw_id task s = record s {
    aliases =
        redirect raw_id
          (canonical_task (keep (is_ordinary_twin raw_id task.symbol) (own_values s.tasks)))
          s.aliases;
    tasks = pop raw_id s.tasks;
    unlinked = unlink_all os s.capture_root task s.unlinked;
    fifo = keep (λ item. not (item == raw_id)) s.fifo;
    events = pop raw_id s.events;
  }

  unfoldable pub remove_maintenance_task :
      Option String → Bool → String → Streams → Option TaskRecord × Streams
  unfolding drop_task removable
  remove_maintenance_task digest allow_legacy raw_id s = elim (get raw_id s.tasks) [
    | none ↦ (none, s)
    | some task ↦
        if removable digest allow_legacy raw_id task
        then (some task, drop_task raw_id task s)
        else (none, s)
  ]

  -- `_mark_deployment_acceptance`
  unfoldable pub mark_acceptance : String → TaskRecord → TaskRecord
  mark_acceptance owner task = record task {
    maintenance_namespace = some namespace;
    maintenance_owner_digest = some (os.sha256_hex owner);
  }

  -- The result of a call in a `try` that turns a full queue into None.
  abbrev pub unless_full : Result TaskRecord × Streams → Result (Option TaskRecord) × Streams
  unless_full (ok task, s) = (ok (some task), s)
  unless_full (err queue_full, s) = (ok none, s)
  unless_full (err e, s) = (err e, s)

  unfoldable pub retry_bound : Clocks → TaskRecord → Streams → Result (Option TaskRecord) × Streams
  retry_bound now task s =
      if terminal_acceptance_retryable task
      then unless_full (refresh_locked os now task (some false) s)
      else (ok (some task), s)

  -- The lease has a bound task already.
  unfoldable pub bind_again :
      Clocks → String → String → TaskRecord → Streams → Result (Option TaskRecord) × Streams
  bind_again now owner bound task s =
      if has_maintenance_metadata task
      then (if valid_bound_acceptance bound (os.sha256_hex owner) false task
          then retry_bound now task s
          else (ok none, s))
      else if valid_legacy_bound_acceptance bound task
      then (let marked = mark_acceptance owner task in
          retry_bound now marked (record s { tasks = put bound marked s.tasks }))
      else (ok none, s)

  -- After the enqueuing of the candidate the lease is bound to it.
  abbrev pub bound_result :
      Lease → Result TaskRecord × Streams → Result (Option TaskRecord) × Streams
  bound_result l (ok task, s) =
      (ok (some task), record s { lease = some (record l { bound_task_id = some task.task_id }) })
  bound_result l (err queue_full, s) = (ok none, s)
  bound_result l (err e, s) = (err e, s)

  unfoldable pub bind_first :
      Clocks → String → Lease → TaskRecord → Streams → Result (Option TaskRecord) × Streams
  bind_first now owner l task s =
      if is_some (get task.task_id s.tasks)
      then (ok none, s)
      else bound_result l (enqueue_locked true (mark_acceptance owner task) s)

  -- The owner holds the lease, and its digest is stored.
  unfoldable pub bind_owned :
      Clocks → String → Lease → TaskRecord → Streams → Result (Option TaskRecord) × Streams
  bind_owned now owner l task s = elim l.bound_task_id [
    | none ↦ bind_first now owner l task s
    | some bound ↦ elim (get bound s.tasks) [
      | none ↦ (ok none, s)
      | some old ↦ bind_again now owner bound old s
    ]
  ]

  unfoldable pub bind_under :
      Clocks → String → TaskRecord → Option Lease × Streams → Result (Option TaskRecord) × Streams
  bind_under now owner task (none, s) = (ok none, s)
  bind_under now owner task (some l, s) = elim (compare_digest l.owner_token owner) [
    | err e ↦ (err e, s)
    | ok false ↦ (ok none, s)
    | ok true ↦
        if not (same_digest l.owner_digest (os.sha256_hex owner))
        then (ok none, s)
        else let l' = record l { owner_digest = some (os.sha256_hex owner) } in
          bind_owned now owner l' task (record s { lease = some l' })
  ]

  unfoldable pub bind_deployment_acceptance :
      Clocks → String → TaskRecord → Streams → Result (Option TaskRecord) × Streams
  unfolding terminal_acceptance_retryable refresh_locked retry_bound mark_acceptance
      valid_bound_acceptance valid_legacy_bound_acceptance has_maintenance_metadata enqueue_locked
      bind_first bind_again bind_owned compare_digest bind_under valid_acceptance_task active_lease
  bind_deployment_acceptance now owner task s =
      if valid_acceptance_task task
      then bind_under now owner task (active_lease now s)
      else (ok none, s)
