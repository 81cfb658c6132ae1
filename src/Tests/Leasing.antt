-- ===== src/Tests/Leasing.antt =====
-- The deployment lease of level2_service/queue.py and its acceptance task at concrete inputs.
use tonghuashun.Base.{◌≡◌, refl, false, some, none, arith, String}
use tonghuashun.Dict.{get, put}
use tonghuashun.Models.{TaskRecord, new_task}
use tonghuashun.Queue.{Streams, Lease, is_digest, is_owner, task_active, active_lease}
use tonghuashun.Queue.Claim.{next_runnable, start_task}
use tonghuashun.Queue.Claim.Bound.{IsAcceptance, next_runnable-IsAcceptance}
use tonghuashun.Queue.Leases.{acquire_deployment_lease}
use tonghuashun.Queue.Leases.Exclusive.{Excludes, acquire-Excludes}
use tonghuashun.Queue.Maintenance.{bind_deployment_acceptance, mark_acceptance}
use tonghuashun.Queue.Maintenance.Acceptance.{bind-runs}
use tonghuashun.Queue.Maintenance.Removal.{IsGone, release-IsReleased}
use tonghuashun.Queue.Cleanup.{release_deployment_lease}
use tonghuashun.Queue.Position.{queue_position, get_task}
use tonghuashun.Queue.Position.First.{IsPlace, queue_position-IsPlace, queue_position-first}
use tonghuashun.Queue.Position.{resolve_task_id}
use tonghuashun.Queue.{bound_of}
use tonghuashun.Tests.{plain_platform, at, two_tasks, owner, owner_lease, leased}

-- The lease of the owner is the one that a request leaves.
acquired_lease : (acquire_deployment_lease plain_platform (at 5) owner 95 two_tasks).1 ≡ leased
unfolding acquire_deployment_lease new_task is_owner
acquired_lease = refl

acquire-Excludes_example :
    Excludes plain_platform
      (at 50)
      owner
      "other"
      10
      (acquire_deployment_lease plain_platform (at 5) owner 95 two_tasks).1
unfolding acquire_deployment_lease new_task is_owner
acquire-Excludes_example =
    acquire-Excludes plain_platform (at 5) owner 95 two_tasks refl (at 50) (omega arith) "other" 10

-- A candidate for the acceptance, and the task that the binding makes of it.
abbrev candidate : TaskRecord
unfolding new_task
candidate = new_task "x" "601872" false 6

abbrev accepted : TaskRecord
unfolding new_task mark_acceptance
accepted = mark_acceptance plain_platform owner candidate

-- The leased store with room for the acceptance task, and the store with that task bound.
abbrev roomy : Streams
roomy = record leased { pending_cap = 3 }

abbrev bound : Streams
unfolding bind_deployment_acceptance accepted
bound = (bind_deployment_acceptance plain_platform (at 7) owner candidate roomy).1

abbrev bound_lease : Lease
bound_lease = record owner_lease { bound_task_id = some "x" }

bind-runs_example :
    (next_runnable
      (at 8)
      (bind_deployment_acceptance plain_platform (at 7) owner candidate roomy).1).0
    ≡ some (start_task (at 8) accepted)
unfolding accepted bind_deployment_acceptance is_digest get task_active
bind-runs_example =
    bind-runs plain_platform owner refl (at 7) candidate roomy accepted refl refl (at 8)
      (λ l e. ground (arith, e))

next_runnable-IsAcceptance_example :
    (task : TaskRecord) × IsAcceptance bound_lease bound task
    × (start_task (at 8) accepted ≡ start_task (at 8) task)
unfolding bound active_lease next_runnable get task_active put is_digest
next_runnable-IsAcceptance_example =
    next_runnable-IsAcceptance (at 8) bound bound_lease (start_task (at 8) accepted) refl refl

release-IsReleased_example :
    ((release_deployment_lease plain_platform (at 8) owner bound).1.lease ≡ none)
    × ((id : String)
        → some "x" ≡ some id
        → IsGone id bound (release_deployment_lease plain_platform (at 8) owner bound).1)
unfolding bound active_lease release_deployment_lease get task_active put is_digest
release-IsReleased_example =
    release-IsReleased plain_platform (at 8) owner bound bound_lease refl refl

queue_position-IsPlace_example :
    (id : String) × (resolve_task_id "b" two_tasks ≡ some id)
    × IsPlace two_tasks.tasks (bound_of (active_lease (at 9) two_tasks).0) two_tasks.fifo id 0 1
unfolding queue_position new_task get
queue_position-IsPlace_example = queue_position-IsPlace "b" (at 9) two_tasks 1 refl

queue_position-first_example :
    (task : TaskRecord) × (get_task "b" two_tasks ≡ some task)
    × ((next_runnable (at 9) two_tasks).0 ≡ some (start_task (at 9) task))
unfolding queue_position new_task active_lease get
queue_position-first_example = queue_position-first "b" (at 9) two_tasks refl refl
