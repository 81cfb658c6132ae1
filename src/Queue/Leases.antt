-- ===== src/Queue/Leases.antt =====
-- level2_service/queue.py: the deployment lease of `InMemoryStreams`. A lifetime is a number of
-- microseconds, 0 for every lifetime that is not positive.
pub mod Exclusive
use tonghuashun.Base.{
  ℕ, ◌+◌, ◌-◌, String, Bool, true, false, ◌&&◌, ◌||◌, not, Option, none, some, ◌==◌, ltb, leb,
  if◌then◌else◌,
}
use tonghuashun.Queue.{
  Streams, Platform, Clocks, Lease, Result, active_lease, is_owner, compare_digest,
}
use tonghuashun.Queue.Recover.{has_running_task}

-- _MAX_DEPLOYMENT_LEASE_SECONDS
abbrev pub max_lease : ℕ
max_lease = 7200000000

unfoldable pub valid_lease_request : String → ℕ → Bool
valid_lease_request owner ttl = is_owner owner && ltb 0 ttl && leb ttl max_lease

-- The stored digest, if there is one, is the owner's.
abbrev pub same_digest : Option String → String → Bool
same_digest none digest = true
same_digest (some d) digest = d == digest

-- DeploymentMaintenanceLease
pub record LeaseStatus : Type 0 where
  pub owner_token : String
  pub bound_task_id : Option String
  pub ttl : ℕ

unfoldable pub owned_by : LeaseStatus → String → Result Bool
unfolding compare_digest
owned_by status candidate = compare_digest status.owner_token candidate

unfoldable pub lease_status_of : Clocks → Option Lease × Streams → Option LeaseStatus × Streams
lease_status_of now (none, s) = (none, s)
lease_status_of now (some l, s) = (
  some (record {
    owner_token = l.owner_token;
    bound_task_id = l.bound_task_id;
    ttl = l.expires_at - now.lease_later;
  }),
  s,
)

unfoldable pub deployment_lease_status : Clocks → Streams → Option LeaseStatus × Streams
unfolding lease_status_of active_lease
deployment_lease_status now s = lease_status_of now (active_lease now s)

module _ (os : Platform) where
  unfoldable pub acquire_under : Clocks → String → ℕ → Option Lease × Streams → Bool × Streams
  unfolding has_running_task
  acquire_under now owner ttl (some l, s) = (false, s)
  acquire_under now owner ttl (none, s) = if has_running_task s then (false, s) else (
    true,
    record s {
      lease = some (record {
        owner_token = owner;
        owner_digest = some (os.sha256_hex owner);
        bound_task_id = none;
        expires_at = now.lease_later + ttl;
      });
    },
  )

  unfoldable pub acquire_deployment_lease : Clocks → String → ℕ → Streams → Bool × Streams
  unfolding acquire_under valid_lease_request active_lease
  acquire_deployment_lease now owner ttl s =
      if valid_lease_request owner ttl
      then acquire_under now owner ttl (active_lease now s)
      else (false, s)

  -- Both owners match the pattern of an owner token, so they are ASCII.
  unfoldable pub renew_under : Clocks → String → ℕ → Option Lease × Streams → Bool × Streams
  renew_under now owner ttl (none, s) = (false, s)
  renew_under now owner ttl (some l, s) =
      if not (l.owner_token == owner) || not (same_digest l.owner_digest (os.sha256_hex owner))
      then (false, s)
      else (
        true,
        record s {
          lease = some (record l {
            owner_digest = some (os.sha256_hex owner);
            expires_at = now.lease_later + ttl;
          });
        },
      )

  unfoldable pub renew_deployment_lease : Clocks → String → ℕ → Streams → Bool × Streams
  unfolding renew_under valid_lease_request active_lease
  renew_deployment_lease now owner ttl s =
      if valid_lease_request owner ttl
      then renew_under now owner ttl (active_lease now s)
      else (false, s)
