-- ===== src/Queue/Maintenance/Acceptance.antt =====
-- level2_service/queue.py: bind_deployment_acceptance, and next_runnable after it.
use tonghuashun.Base.{
  ◌<◌, String, ◌≡◌, refl, Bool, true, false, Option, none, some, arith, eq_iff, Bool-cases,
  Option-cases, inl, inr,
}
use tonghuashun.Dict.{get}
use tonghuashun.Models.{TaskRecord, TaskStatus}
use tonghuashun.Queue.{
  Streams, Platform, Clocks, Lease, Result, ok, err, is_digest, active_lease, compare_digest,
}
use tonghuashun.Queue.Claim.{
  valid_bound_acceptance, next_runnable, next_runnable_under, bound_task, claim_bound, start_task,
}
use tonghuashun.Queue.Leases.{same_digest}
use tonghuashun.Queue.Leases.Exclusive.{active_lease-held}
use tonghuashun.Queue.Maintenance.{
  valid_acceptance_task, bind_owned, bind_under, bind_deployment_acceptance,
}
use tonghuashun.Queue.Maintenance.Binding.{IsBound, Binds, bind_first-Binds, bind_again-Binds}

module _ (os : Platform) (owner : String) (hex : is_digest (os.sha256_hex owner) ≡ true) where
  bind_owned-Binds :
      (now : Clocks) (l : Lease) (task : TaskRecord) (s : Streams)
      → task.symbol ≡ "601872"
      → task.include_long_capture ≡ false
      → s.lease ≡ some l
      → l.owner_digest ≡ some (os.sha256_hex owner)
      → Binds os owner hex (bind_owned os now owner l task s)
  unfolding bind_owned
  bind_owned-Binds now l task s y i h d t e = elim (Option-cases l.bound_task_id) [
    | inl n ↦
        rw (n, bind_owned)
          (bind_first-Binds os owner hex now l task s y i d t (rw (n, bind_owned) at e))
    | inr (bound, b) ↦ elim (Option-cases (get bound s.tasks)) [
      | inl g ↦ absurd (ground arith)
      | inr (old, g) ↦
          rw (b, bind_owned, g)
            (bind_again-Binds os owner hex now l bound old s h b d g t (rw (b, bind_owned, g) at e))
    ]
  ]

  bind_under-Binds :
      (now : Clocks) (task : TaskRecord) (found : Option Lease) (s : Streams)
      → task.symbol ≡ "601872"
      → task.include_long_capture ≡ false
      → Binds os owner hex (bind_under os now owner task (found, s))
  unfolding bind_under
  bind_under-Binds now task none s y i t e = absurd (ground arith)
  bind_under-Binds now task (some l) s y i t e = go (compare_digest l.owner_token owner) refl
    where
      go :
          (c : Result Bool)
          → compare_digest l.owner_token owner ≡ c
          → IsBound os owner hex t (bind_under os now owner task (some l, s)).1
      go (err x) c = absurd (ground arith)
      go (ok false) c = absurd (ground arith)
      go (ok true) c = elim (Bool-cases (same_digest l.owner_digest (os.sha256_hex owner))) [
        | inr n ↦ absurd (ground arith)
        | inl d ↦
            rw (c, bind_under, d)
              (bind_owned-Binds now (record l { owner_digest = some (os.sha256_hex owner) }) task
                (record s { lease = some (record l { owner_digest = some (os.sha256_hex owner) }) })
                y i refl refl t (rw (c, bind_under, d) at e))
      ]

  acceptance_fields :
      (task : TaskRecord)
      → valid_acceptance_task task ≡ true
      → (task.symbol ≡ "601872") × (task.include_long_capture ≡ false)
  unfolding valid_acceptance_task
  acceptance_fields task v = ((eq_iff task.symbol "601872").0 (ground arith), ground arith)

  bind-IsBound :
      (now : Clocks) (task : TaskRecord) (s : Streams) (t : TaskRecord)
      → (bind_deployment_acceptance os now owner task s).0 ≡ ok (some t)
      → IsBound os owner hex t (bind_deployment_acceptance os now owner task s).1
  unfolding bind_deployment_acceptance
  bind-IsBound now task s t e = elim (Bool-cases (valid_acceptance_task task)) [
    | inr n ↦ absurd (ground arith)
    | inl v ↦
        let (y, i) = acceptance_fields task v in
        rw (v, bind_deployment_acceptance)
          (bind_under-Binds now task (active_lease now s).0 (active_lease now s).1 y i t
            (rw (v, bind_deployment_acceptance) at e))
  ]

  queued-valid :
      (id digest : String) (t : TaskRecord)
      → valid_bound_acceptance id digest false t ≡ true
      → t.status ≡ TaskStatus.queued
      → valid_bound_acceptance id digest true t ≡ true
  unfolding valid_bound_acceptance
  queued-valid id digest t v q = ground arith

  IsBound-runs :
      (t : TaskRecord) (s : Streams) (later : Clocks)
      → (b : IsBound os owner hex t s) → t.status ≡ TaskStatus.queued
      → later.lease < b.lease.expires_at
      → (next_runnable later s).0 ≡ some (start_task later t)
  unfolding next_runnable next_runnable_under bound_task claim_bound
  IsBound-runs t s later b q h = ground (
    arith,
    active_lease-held later s b.lease b.held h,
    b.bound,
    b.digest,
    b.stored,
    queued-valid t.task_id (os.sha256_hex owner) t b.valid q,
  )

  -- A task that a binding returns in the queued state is the one that the runner gets next, at any
  -- time before the lease runs out; the digest of the owner is a hexadecimal text of 64 characters.
  pub bind-runs :
      (now : Clocks) (task : TaskRecord) (s : Streams) (t : TaskRecord)
      → (bind_deployment_acceptance os now owner task s).0 ≡ ok (some t)
      → t.status ≡ TaskStatus.queued
      → (later : Clocks)
      → ((l : Lease)
          → (bind_deployment_acceptance os now owner task s).1.lease ≡ some l
          → later.lease < l.expires_at)
      → (next_runnable later (bind_deployment_acceptance os now owner task s).1).0
        ≡ some (start_task later t)
  bind-runs now task s t e q later h =
      let b = bind-IsBound now task s t e in
      IsBound-runs t (bind_deployment_acceptance os now owner task s).1 later b q (h b.lease b.held)
