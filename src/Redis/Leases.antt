-- ===== src/Redis/Leases.antt =====
-- level2_service/queue.py: the deployment lease of `RedisStreamsStore`, a key that expires in the
-- server, and the script THS_BIND_DEPLOYMENT_ACCEPTANCE. A lifetime is a number of microseconds.

use tonghuashun.Base.{
  ℕ, ◌+◌, ◌-◌, ◌/◌, String, Bool, true, false, ◌||◌, not, Option, none, some, List, [], ◌∷◌, ◌==◌,
  leb, if◌then◌else◌, is_some,
}
use tonghuashun.Dict.{Dict, get}
use tonghuashun.Models.{TaskRecord}
use tonghuashun.Queue.{Platform, is_owner}
use tonghuashun.Queue.Leases.{LeaseStatus, valid_lease_request, same_digest}
use tonghuashun.Queue.Recover.{in_progress}
use tonghuashun.Redis.{RedisStore, Server, live_lease}

-- has_running_task, and the loop of THS_ACQUIRE_DEPLOYMENT_LEASE over the members
unfoldable pub any_member : (TaskRecord → Bool) → Dict TaskRecord → List String → Bool
any_member test payloads [] = false
any_member test payloads (id ∷ ids) =
    (elim (get id payloads) as (λ _. Bool) [ none ↦ false | some t ↦ test t ])
    || any_member test payloads ids

unfoldable pub has_running_task : RedisStore → Bool
unfolding any_member in_progress
has_running_task s = any_member in_progress s.payloads s.index

-- max(1, int(float(ttl_seconds) * 1000))
unfoldable pub milliseconds : ℕ → ℕ
milliseconds ttl = if leb 1 (ttl / 1000) then ttl / 1000 else 1

-- deployment_lease_status, with THS_DEPLOYMENT_LEASE_STATUS; the time that is left is in milliseconds
unfoldable pub deployment_lease_status : Server → RedisStore → Option LeaseStatus
unfolding live_lease is_owner
deployment_lease_status now s = elim (live_lease now s) [
  | none ↦ none
  | some l ↦
      if is_owner l.owner_token
      then some (record {
        owner_token = l.owner_token;
        bound_task_id = l.bound_task_id;
        ttl = l.expires_at - now.clock;
      })
      else none
]

module _ (os : Platform) where
  -- THS_ACQUIRE_DEPLOYMENT_LEASE
  unfoldable pub acquire_script : Server → String → String → ℕ → RedisStore → Bool × RedisStore
  unfolding live_lease has_running_task
  acquire_script now owner digest px s =
      if is_some (live_lease now s) || has_running_task s then (false, s) else (
        true,
        record s {
          lease = some (record {
            owner_token = owner;
            owner_digest = some digest;
            bound_task_id = none;
            expires_at = now.clock + px;
          });
        },
      )

  unfoldable pub acquire_deployment_lease : Server → String → ℕ → RedisStore → Bool × RedisStore
  unfolding acquire_script valid_lease_request milliseconds
  acquire_deployment_lease now owner ttl s =
      if valid_lease_request owner ttl
      then acquire_script now owner (os.sha256_hex owner) (milliseconds ttl) s
      else (false, s)

  -- THS_RENEW_DEPLOYMENT_LEASE
  unfoldable pub renew_script : Server → String → String → ℕ → RedisStore → Bool × RedisStore
  unfolding live_lease
  renew_script now owner digest px s = elim (live_lease now s) [
    | none ↦ (false, s)
    | some l ↦
        if not (l.owner_token == owner) || not (same_digest l.owner_digest digest)
        then (false, s)
        else (
          true,
          record s {
            lease = some (record l { owner_digest = some digest; expires_at = now.clock + px });
          },
        )
  ]

  unfoldable pub renew_deployment_lease : Server → String → ℕ → RedisStore → Bool × RedisStore
  unfolding renew_script valid_lease_request milliseconds
  renew_deployment_lease now owner ttl s =
      if valid_lease_request owner ttl
      then renew_script now owner (os.sha256_hex owner) (milliseconds ttl) s
      else (false, s)
