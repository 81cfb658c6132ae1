-- ===== src/Queue/Cleanup.antt =====
-- level2_service/queue.py: the end of a deployment lease, and the periodic clean-up.
use tonghuashun.Base.{
  ℕ, String, Bool, true, false, ◌&&◌, not, Option, none, some, List, [], ◌∷◌, ◌++◌, leb,
  if◌then◌else◌,
}
use tonghuashun.Dict.{Dict, get, put}
use tonghuashun.Models.{
  TaskRecord, CaptureRecord, CaptureStatus, is_ready, expires_at, all_captures,
}
use tonghuashun.Queue.{
  Streams, Platform, Clocks, Lease, Result, ok, err, has_maintenance_metadata, opt_eq, bound_of,
  active_lease, compare_digest, unlink_capture,
}
use tonghuashun.Queue.Leases.{same_digest}
use tonghuashun.Queue.Claim.{valid_bound_acceptance}
use tonghuashun.Queue.Maintenance.{remove_maintenance_task, valid_legacy_bound_acceptance}

-- A capture that is ready and has passed its time.
unfoldable pub is_stale : ℕ → CaptureRecord → Bool
unfolding expires_at
is_stale now c =
    is_ready c.status && elim (expires_at c) as (λ _. Bool) [ some t ↦ leb t now | none ↦ false ]

-- A stale capture becomes expired.
unfoldable pub expire_capture : ℕ → CaptureRecord → CaptureRecord
unfolding is_stale
expire_capture now c = if is_stale now c then record c { status = CaptureStatus.expired } else c

unfoldable pub expire_task : ℕ → TaskRecord → TaskRecord
unfolding expire_capture
expire_task now task = record task {
  long_capture = expire_capture now task.long_capture;
  captures = all_captures (expire_capture now) task.captures;
}

module _ (os : Platform) where
  unfoldable pub unlink_stale : ℕ → Option String → CaptureRecord → List String → List String
  unfolding is_stale unlink_capture
  unlink_stale now root c done = if is_stale now c then unlink_capture os root c done else done

  -- The clean-up of an ordinary task under its key.
  unfoldable pub clean_task : ℕ → String → TaskRecord → Streams → Streams
  unfolding expire_task unlink_stale
  clean_task now id task s = record s {
    tasks = put id (expire_task now task) s.tasks;
    unlinked = unlink_stale now s.capture_root task.captures.retail_count (
        unlink_stale now s.capture_root task.captures.large_order_amount (
          unlink_stale now s.capture_root task.captures.large_order_net
            (unlink_stale now s.capture_root task.long_capture s.unlinked)));
  }

  abbrev pub add_removed : Option TaskRecord × Streams → List TaskRecord → List TaskRecord × Streams
  add_removed (none, s) removed = (removed, s)
  add_removed (some t, s) removed = (removed ++ t ∷ [], s)

  -- One round of the loop of cleanup.
  unfoldable pub clean_one :
      ℕ
      → Option String
      → String
      → TaskRecord
      → List TaskRecord × Streams
      → List TaskRecord × Streams
  unfolding clean_task remove_maintenance_task has_maintenance_metadata
  clean_one now bound id task (removed, s) =
      if has_maintenance_metadata task
      then (if opt_eq bound id
          then (removed, s)
          else add_removed (remove_maintenance_task os none false id s) removed)
      else (removed, clean_task now id task s)

  unfoldable pub clean_each :
      ℕ → Option String → Dict TaskRecord → List TaskRecord × Streams → List TaskRecord × Streams
  unfolding clean_one
  clean_each now bound [] acc = acc
  clean_each now bound ((id, task) ∷ d) acc =
      clean_each now bound d (clean_one now bound id task acc)

  -- `time` is the argument of cleanup, which is not read from the clock.
  unfoldable pub cleanup : ℕ → Clocks → Streams → List TaskRecord × Streams
  unfolding clean_each active_lease
  cleanup time now s =
      let (lease, s') = active_lease now s in clean_each time (bound_of lease) s'.tasks ([], s')

  -- The tests on the bound task before its removal.
  unfoldable pub releasable : String → String → TaskRecord → Bool
  unfolding has_maintenance_metadata valid_bound_acceptance valid_legacy_bound_acceptance
  releasable bound digest task =
      if has_maintenance_metadata task
      then valid_bound_acceptance bound digest false task
      else valid_legacy_bound_acceptance bound task

  -- The end of release_deployment_lease: the removal must succeed.
  abbrev pub ended : Option TaskRecord × Streams → Result Bool × Streams
  ended (none, s) = (ok false, s)
  ended (some t, s) = (ok true, record s { lease = none })

  unfoldable pub release_bound : String → String → Streams → Result Bool × Streams
  unfolding releasable remove_maintenance_task
  release_bound bound digest s = elim (get bound s.tasks) [
    | none ↦ (ok false, s)
    | some task ↦
        if releasable bound digest task
        then ended (remove_maintenance_task os (some digest) true bound s)
        else (ok false, s)
  ]

  unfoldable pub release_owned : String → Lease → Streams → Result Bool × Streams
  unfolding release_bound
  release_owned digest l s =
      if not (same_digest l.owner_digest digest)
      then (ok false, s)
      else elim l.bound_task_id as (λ _. Result Bool × Streams) [
        | none ↦ (ok true, record s { lease = none })
        | some bound ↦ release_bound bound digest s
      ]

  unfoldable pub release_under : String → Option Lease × Streams → Result Bool × Streams
  unfolding release_owned compare_digest
  release_under owner (none, s) = (ok false, s)
  release_under owner (some l, s) = elim (compare_digest l.owner_token owner) [
    | err e ↦ (err e, s)
    | ok false ↦ (ok false, s)
    | ok true ↦ release_owned (os.sha256_hex owner) l s
  ]

  unfoldable pub release_deployment_lease : Clocks → String → Streams → Result Bool × Streams
  unfolding release_under active_lease
  release_deployment_lease now owner s = release_under owner (active_lease now s)
