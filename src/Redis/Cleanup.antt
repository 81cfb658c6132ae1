-- ===== src/Redis/Cleanup.antt =====
-- level2_service/queue.py: `cleanup` of `RedisStreamsStore`, with
-- THS_CLEANUP_EXPIRED_DEPLOYMENT_ACCEPTANCE.
use tonghuashun.Base.{
  ℕ, String, Bool, false, ◌&&◌, ◌||◌, not, Option, none, some, List, [], ◌∷◌, ◌==◌, if◌then◌else◌,
}
use tonghuashun.Dict.{Dict, get, put}
use tonghuashun.Models.{TaskRecord}
use tonghuashun.Queue.{Platform, has_maintenance_metadata, namespace, opt_eq, is_digest}
use tonghuashun.Queue.Cleanup.{is_stale, expire_task, unlink_stale}
use tonghuashun.Redis.{RedisStore, Server, live_lease, remove}
use tonghuashun.Redis.Removal.{remove_task}

-- A task with maintenance fields that the script may remove.
unfoldable pub is_expired_acceptance : String → TaskRecord → Bool
unfolding is_digest
is_expired_acceptance id task =
    task.task_id == id
    && task.symbol == "601872"
    && not task.include_long_capture
    && opt_eq task.maintenance_namespace namespace
    && elim task.maintenance_owner_digest as (λ _. Bool) [ none ↦ false | some d ↦ is_digest d ]

abbrev add_target :
    String → TaskRecord → Option (List (String × TaskRecord)) → Option (List (String × TaskRecord))
add_target id task none = none
add_target id task (some es) = some ((id, task) ∷ es)

-- The tasks to remove, or none if one of those with maintenance fields is not as it should be.
unfoldable pub targets : Dict TaskRecord → List String → Option (List (String × TaskRecord))
unfolding is_expired_acceptance has_maintenance_metadata
targets payloads [] = some []
targets payloads (id ∷ ids) =
    let rest = targets payloads ids in
    elim (get id payloads) [
      | none ↦ rest
      | some task ↦
          if has_maintenance_metadata task
          then (if is_expired_acceptance id task then add_target id task rest else none)
          else rest
    ]

unfoldable pub remove_targets :
    List (String × TaskRecord) → RedisStore → List TaskRecord × RedisStore
unfolding remove_task
remove_targets [] s = ([], s)
remove_targets ((id, task) ∷ es) s =
    let (removed, s') = remove_targets es (remove_task id task s) in (task ∷ removed, s')

unfoldable pub cleanup_script : Server → RedisStore → List TaskRecord × RedisStore
unfolding live_lease targets remove_targets
cleanup_script now s = elim (live_lease now s) [
  | some l ↦ ([], s)
  | none ↦ elim (targets s.payloads s.index) [ none ↦ ([], s) | some es ↦ remove_targets es s ]
]

-- Whether a capture of the task expires.
unfoldable pub has_stale : ℕ → TaskRecord → Bool
unfolding is_stale
has_stale now task =
    is_stale now task.long_capture
    || is_stale now task.captures.large_order_net
    || is_stale now task.captures.large_order_amount
    || is_stale now task.captures.retail_count

module _ (os : Platform) where
  unfoldable pub expire_member : ℕ → TaskRecord → RedisStore → RedisStore
  unfolding has_stale expire_task unlink_stale
  expire_member now task s =
      if has_stale now task
      then record s {
        payloads = put task.task_id (expire_task now task) s.payloads;
        unlinked = unlink_stale os now s.capture_root task.captures.retail_count (
            unlink_stale os now s.capture_root task.captures.large_order_amount (
              unlink_stale os now s.capture_root task.captures.large_order_net
                (unlink_stale os now s.capture_root task.long_capture s.unlinked)));
      }
      else s

  -- One round of the loop over the members.
  unfoldable pub clean_member : ℕ → String → RedisStore → RedisStore
  unfolding expire_member has_maintenance_metadata
  clean_member now id s = elim (get id s.payloads) [
    | none ↦ record s { index = remove id s.index }
    | some task ↦
        if not (task.task_id == id) || has_maintenance_metadata task
        then s
        else expire_member now task s
  ]

  unfoldable pub clean_members : ℕ → List String → RedisStore → RedisStore
  unfolding clean_member
  clean_members now [] s = s
  clean_members now (id ∷ ids) s = clean_members now ids (clean_member now id s)

  -- `time` is the argument of cleanup.
  unfoldable pub cleanup : ℕ → Server → RedisStore → List TaskRecord × RedisStore
  unfolding clean_members cleanup_script
  cleanup time now s =
      let (removed, s') = cleanup_script now s in (removed, clean_members time s'.index s')
