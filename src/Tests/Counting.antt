-- ===== src/Tests/Counting.antt =====
-- The counter of active tasks of `RedisStreamsStore` in level2_service/queue.py at concrete inputs.
use tonghuashun.Base.{◌≤◌, ◌+◌, refl, false, some, arith, pos}
use tonghuashun.Dict.{get}
use tonghuashun.Models.{TaskRecord, new_task}
use tonghuashun.Queue.{task_active, is_digest}
use tonghuashun.Queue.Maintenance.{mark_acceptance}
use tonghuashun.Redis.{RedisStore, live_lease}
use tonghuashun.Redis.Submit.{submit_or_refresh}
use tonghuashun.Redis.Binding.{bind_deployment_acceptance}
use tonghuashun.Redis.Counter.{IsCounted, active_tasks}
use tonghuashun.Redis.Counter.Steps.{submit_or_refresh-IsWithin}
use tonghuashun.Redis.Counter.Reachable.{submits, claims, after, call, done, Reaches-IsCounted}
use tonghuashun.Redis.Counter.Binding.{bind_deployment_acceptance-IsCounted}
use tonghuashun.Tests.{plain_platform, owner, owner_lease, first_task, server_at, empty_store}

empty_store-IsCounted : IsCounted 0 empty_store
empty_store-IsCounted = record { counter = pos 0; held = refl; lags = refl; keyed = tt }

Reaches-IsCounted_example :
    IsCounted 0 (after (server_at 6) claims (after (server_at 5) (submits first_task) empty_store))
unfolding new_task get task_active
Reaches-IsCounted_example =
    Reaches-IsCounted 0 empty_store
      (after (server_at 6) claims (after (server_at 5) (submits first_task) empty_store))
      (call (server_at 5) (submits first_task) empty_store _ (refl, refl)
        (call (server_at 6) claims _ _ tt (done _)))
      empty_store-IsCounted

submit_or_refresh-IsWithin_example :
    IsCounted 0 (submit_or_refresh (server_at 5) first_task empty_store).1
    × (active_tasks (submit_or_refresh (server_at 5) first_task empty_store).1
        ≤ (submit_or_refresh (server_at 5) first_task empty_store).1.pending_cap + 0)
unfolding new_task get task_active
submit_or_refresh-IsWithin_example =
    submit_or_refresh-IsWithin 0 (server_at 5) first_task refl empty_store refl
      (empty_store-IsCounted, omega arith)

-- A store with a lease, a candidate, and the task that the binding makes of it.
abbrev leased_store : RedisStore
leased_store = record empty_store { lease = some owner_lease }

abbrev candidate : TaskRecord
unfolding new_task
candidate = new_task "x" "601872" false 6

abbrev accepted : TaskRecord
unfolding new_task mark_acceptance
accepted = mark_acceptance plain_platform owner candidate

leased_store-IsCounted : IsCounted 0 leased_store
leased_store-IsCounted = record { counter = pos 0; held = refl; lags = refl; keyed = tt }

bind_deployment_acceptance-IsCounted_example :
    IsCounted 1
      (bind_deployment_acceptance plain_platform (server_at 7) owner candidate leased_store).1
unfolding accepted bind_deployment_acceptance live_lease is_digest get
bind_deployment_acceptance-IsCounted_example =
    bind_deployment_acceptance-IsCounted plain_platform 0 (server_at 7) owner owner_lease candidate
      accepted leased_store refl refl refl leased_store-IsCounted
