-- ===== src/Queue/Leases/Exclusive.antt =====
-- level2_service/queue.py: the calls of other owners during a deployment lease.
use tonghuashun.Base.{
  ℕ, ◌+◌, ◌≤◌, ◌<◌, ◌≡◌, ◌≢◌, sym, String, true, false, none, some, arith, eq_iff,
}
use tonghuashun.Queue.{Streams, Platform, Clocks, Lease, ok, active_lease, compare_digest}
use tonghuashun.Queue.Recover.{has_running_task}
use tonghuashun.Queue.Leases.{
  valid_lease_request, acquire_under, acquire_deployment_lease, renew_under, renew_deployment_lease,
}
use tonghuashun.Queue.Cleanup.{release_deployment_lease, release_under}

-- Before it runs out a lease is active, and looking at it changes nothing.
pub active_lease-held :
    (now : Clocks) (s : Streams) (l : Lease)
    → s.lease ≡ some l
    → now.lease < l.expires_at
    → active_lease now s ≡ (some l, s)
unfolding active_lease
active_lease-held now s l e h = ground arith

-- After that there is none.
pub active_lease-out :
    (now : Clocks) (s : Streams) (l : Lease)
    → s.lease ≡ some l
    → l.expires_at ≤ now.lease
    → active_lease now s ≡ (none, record s { lease = none })
unfolding active_lease
active_lease-out now s l e h = ground arith

module _ (os : Platform) where
  acquired : Clocks → String → ℕ → Lease
  acquired now owner ttl = record {
    owner_token = owner;
    owner_digest = some (os.sha256_hex owner);
    bound_task_id = none;
    expires_at = now.lease_later + ttl;
  }

  acquire-lease :
      (now : Clocks) (owner : String) (ttl : ℕ) (s : Streams)
      → (acquire_deployment_lease os now owner ttl s).0 ≡ true
      → (acquire_deployment_lease os now owner ttl s).1.lease ≡ some (acquired now owner ttl)
  unfolding acquire_deployment_lease acquire_under active_lease acquired
  acquire-lease now owner ttl s h = ground arith

  -- A lease is given only for a well-formed request, where no lease is active and no task runs or
  -- waits for a part of its result.
  pub acquire-idle :
      (now : Clocks) (owner : String) (ttl : ℕ) (s : Streams)
      → (acquire_deployment_lease os now owner ttl s).0 ≡ true
      → (valid_lease_request owner ttl ≡ true)
        × ((active_lease now s).0 ≡ none)
        × (has_running_task (active_lease now s).1 ≡ false)
  unfolding acquire_deployment_lease acquire_under active_lease
  acquire-idle now owner ttl s h = ground arith

  compare_digest-ne : (a b : String) → a ≢ b → compare_digest a b ≢ ok true
  unfolding compare_digest
  compare_digest-ne a b n h = ground (arith, eq_iff a b)

  renew_under-other :
      (now : Clocks) (owner : String) (ttl : ℕ) (l : Lease) (s : Streams)
      → owner ≢ l.owner_token
      → renew_under os now owner ttl (some l, s) ≡ (false, s)
  unfolding renew_under
  renew_under-other now owner ttl l s n = ground (arith, eq_iff l.owner_token owner)

  release_under-other :
      (owner : String) (l : Lease) (s : Streams)
      → owner ≢ l.owner_token
      → ((release_under os owner (some l, s)).0 ≢ ok true)
        × ((release_under os owner (some l, s)).1 ≡ s)
  unfolding release_under
  release_under-other owner l s n =
      let ne = compare_digest-ne l.owner_token owner (λ e. n (sym e)) in
      (λ h. ground arith, ground arith)

  -- In a state another owner can get, renew and release no lease, and changes nothing by trying.
  abbrev pub Excludes : Clocks → String → String → ℕ → Streams → Type 0
  Excludes later owner other ttl s =
      (acquire_deployment_lease os later other ttl s ≡ (false, s))
      × (other ≢ owner
          → (renew_deployment_lease os later other ttl s ≡ (false, s))
            × ((release_deployment_lease os later other s).0 ≢ ok true)
            × ((release_deployment_lease os later other s).1 ≡ s))

  held-Excludes :
      (later : Clocks) (other : String) (ttl : ℕ) (l : Lease) (s : Streams)
      → active_lease later s ≡ (some l, s)
      → Excludes later l.owner_token other ttl s
  unfolding acquire_deployment_lease renew_deployment_lease release_deployment_lease acquire_under
  held-Excludes later other ttl l s e = (
    ground (arith, e),
    λ n. (
      ground (arith, e, renew_under-other later other ttl l s n),
      rw (e, release_deployment_lease) (release_under-other other l s n).0,
      rw (e, release_deployment_lease) (release_under-other other l s n).1,
    ),
  )

  -- While an acquired lease lasts, every further request for a lease is refused, and any other owner
  -- can neither renew nor release it; none of these calls changes anything.
  pub acquire-Excludes :
      (now : Clocks) (owner : String) (ttl : ℕ) (s : Streams)
      → (acquire_deployment_lease os now owner ttl s).0 ≡ true
      → (later : Clocks) → later.lease < now.lease_later + ttl
      → (other : String) (other_ttl : ℕ)
      → Excludes later owner other other_ttl (acquire_deployment_lease os now owner ttl s).1
  unfolding acquired
  acquire-Excludes now owner ttl s h later before other other_ttl =
      held-Excludes later other other_ttl (acquired now owner ttl)
        (acquire_deployment_lease os now owner ttl s).1
        (active_lease-held later (acquire_deployment_lease os now owner ttl s).1
          (acquired now owner ttl) (acquire-lease now owner ttl s h) before)
