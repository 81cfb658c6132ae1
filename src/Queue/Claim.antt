-- ===== src/Queue/Claim.antt =====
-- level2_service/queue.py: the operations of `InMemoryStreams` by which the runner takes tasks.
pub mod Bound
pub mod Order
use tonghuashun.Base.{
  ℕ, suc, ◌+◌, String, Bool, true, false, ◌&&◌, ◌||◌, not, Option, none, some, List, [], ◌∷◌, ◌==◌,
  if◌then◌else◌, keep, is_none, any,
}
use tonghuashun.Dict.{Dict, get, put, values}
use tonghuashun.Models.{TaskRecord, TaskStatus, status_eq, no_source_errors}
use tonghuashun.Queue.{
  Streams, Platform, Clocks, Lease, has_maintenance_metadata, namespace, opt_eq, bound_of,
  is_digest, active_lease, store_task, emit,
}

-- The digest of a task is well formed and is the given one.
unfoldable pub digest_is : String → Option String → Bool
digest_is digest none = false
digest_is digest (some d) = is_digest d && d == digest

-- _valid_bound_acceptance
unfoldable pub valid_bound_acceptance : String → String → Bool → TaskRecord → Bool
unfolding digest_is
valid_bound_acceptance bound digest require_queued task =
    task.task_id == bound
    && task.symbol == "601872"
    && not task.include_long_capture
    && opt_eq task.maintenance_namespace namespace
    && digest_is digest task.maintenance_owner_digest
    && (not require_queued || status_eq task.status TaskStatus.queued)

-- The task in its running state.
unfoldable pub start_task : Clocks → TaskRecord → TaskRecord
start_task now task = record task { status = TaskStatus.running; updated_at = now.utc }

-- The task of the lease, if it may run.
unfoldable pub bound_task : Lease → Streams → Option TaskRecord
bound_task l s = elim l.bound_task_id [
  | none ↦ none
  | some id ↦ elim l.owner_digest [
    | none ↦ none
    | some digest ↦ elim (get id s.tasks) [
      | none ↦ none
      | some task ↦ if valid_bound_acceptance id digest true task then some task else none
    ]
  ]
]

-- A task that waits in the ordinary queue, under its key.
unfoldable pub waits : Dict TaskRecord → String → Bool
unfolding has_maintenance_metadata
waits tasks id = elim (get id tasks) [
  | none ↦ false
  | some task ↦ status_eq task.status TaskStatus.queued && not (has_maintenance_metadata task)
]

-- The loop over the queue: the first key whose task waits.
unfoldable pub first_waiting : Dict TaskRecord → List String → Option String
first_waiting tasks [] = none
first_waiting tasks (id ∷ fifo) = if waits tasks id then some id else first_waiting tasks fifo

unfoldable pub claim : Clocks → String → Option TaskRecord → Streams → Option TaskRecord × Streams
unfolding start_task store_task
claim now id none s = (none, s)
claim now id (some task) s =
    let started = start_task now task in (some started, store_task id started s)

unfoldable pub claim_ordinary : Clocks → Streams → Option TaskRecord × Streams
unfolding claim first_waiting waits
claim_ordinary now s = elim (first_waiting s.tasks s.fifo) [
  | none ↦ (none, s)
  | some id ↦ claim now id (get id s.tasks) s
]

unfoldable pub claim_bound :
    Clocks → Option String → Option TaskRecord → Streams → Option TaskRecord × Streams
unfolding start_task store_task
claim_bound now (some id) (some task) s =
    let started = start_task now task in
    (some started, store_task id started (record s { fifo = keep (λ i. not (i == id)) s.fifo }))
claim_bound now _ _ s = (none, s)

unfoldable pub next_runnable_under : Clocks → Option Lease × Streams → Option TaskRecord × Streams
unfolding claim_ordinary claim_bound bound_task
next_runnable_under now (none, s) = claim_ordinary now s
next_runnable_under now (some l, s) = claim_bound now l.bound_task_id (bound_task l s) s

-- next_runnable, and next_queued, which calls it.
unfoldable pub next_runnable : Clocks → Streams → Option TaskRecord × Streams
unfolding next_runnable_under active_lease
next_runnable now s = next_runnable_under now (active_lease now s)

-- next_queued
unfoldable pub next_queued : Clocks → Streams → Option TaskRecord × Streams
unfolding next_runnable
next_queued now s = next_runnable now s
