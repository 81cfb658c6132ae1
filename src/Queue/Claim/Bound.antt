-- ===== src/Queue/Claim/Bound.antt =====
-- level2_service/queue.py: what runs while a deployment lease is active.
use tonghuashun.Base.{
  String, ◌≡◌, ◌∙◌, refl, ap, subst, Bool, true, false, Option, none, some, arith, eq_iff,
  Option-cases, inl, inr,
}
use tonghuashun.Dict.{get}
use tonghuashun.Models.{TaskRecord, TaskStatus}
use tonghuashun.Queue.{Streams, Clocks, Lease, namespace, opt_eq, active_lease}
use tonghuashun.Queue.Claim.{
  next_runnable, next_runnable_under, bound_task, claim_bound, start_task, valid_bound_acceptance,
  digest_is,
}

-- The task in the store that a call under a lease may start.
pub record IsAcceptance (l : Lease) (s : Streams) (task : TaskRecord) : Type 0 where
  pub bound : l.bound_task_id ≡ some task.task_id
  pub stored : get task.task_id s.tasks ≡ some task
  pub queued : task.status ≡ TaskStatus.queued
  pub symbol : task.symbol ≡ "601872"
  pub data_only : task.include_long_capture ≡ false
  pub marked : task.maintenance_namespace ≡ some namespace
  pub digest : l.owner_digest ≡ task.maintenance_owner_digest

opt_eq-some : (o : Option String) (t : String) → opt_eq o t ≡ true → o ≡ some t
opt_eq-some none t e = absurd (ground arith)
opt_eq-some (some s) t e = ap some ((eq_iff s t).0 e)

digest_is-some : (digest : String) (o : Option String) → digest_is digest o ≡ true → o ≡ some digest
unfolding digest_is
digest_is-some digest none e = absurd (ground arith)
digest_is-some digest (some d) e = ap some ((eq_iff d digest).0 (ground arith))

-- What _valid_bound_acceptance guarantees.
pub valid_bound-facts :
    (id digest : String) (q : Bool) (t : TaskRecord)
    → valid_bound_acceptance id digest q t ≡ true
    → (t.task_id ≡ id)
      × (t.symbol ≡ "601872")
      × (t.include_long_capture ≡ false)
      × (t.maintenance_namespace ≡ some namespace)
      × (t.maintenance_owner_digest ≡ some digest)
      × (q ≡ true → t.status ≡ TaskStatus.queued)
unfolding valid_bound_acceptance
valid_bound-facts id digest q t h = (
  (eq_iff t.task_id id).0 (ground arith),
  (eq_iff t.symbol "601872").0 (ground arith),
  ground arith,
  opt_eq-some t.maintenance_namespace namespace (ground arith),
  digest_is-some digest t.maintenance_owner_digest (ground arith),
  λ e. ground arith,
)

bound_task-IsAcceptance :
    (l : Lease) (s : Streams) (task : TaskRecord)
    → bound_task l s ≡ some task
    → IsAcceptance l s task
unfolding bound_task
bound_task-IsAcceptance l s task e = elim (Option-cases l.bound_task_id) [
  | inl b ↦ absurd (ground arith)
  | inr (id, b) ↦ elim (Option-cases l.owner_digest) [
    | inl d ↦ absurd (ground arith)
    | inr (digest, d) ↦ elim (Option-cases (get id s.tasks)) [
      | inl g ↦ absurd (ground arith)
      | inr (t, g) ↦
          let facts = valid_bound-facts id digest true t (ground arith) in
          let same : t ≡ task = ground arith in
          subst (IsAcceptance l s) same (record {
            bound = ground (arith, facts.0);
            stored = ap (λ i. get i s.tasks) facts.0 ∙ g;
            queued = facts.5 refl;
            symbol = facts.1;
            data_only = facts.2;
            marked = facts.3;
            digest = ground (arith, facts.4);
          })
    ]
  ]
]

-- While a lease is active, only its bound acceptance task is started: a data-only task for 601872
-- that is queued, carries the maintenance namespace and the digest of the lease, and stands in the
-- store under the bound id. No ordinary task runs.
pub next_runnable-IsAcceptance :
    (now : Clocks) (s : Streams) (l : Lease) (t : TaskRecord)
    → active_lease now s ≡ (some l, s)
    → (next_runnable now s).0 ≡ some t
    → (task : TaskRecord) × IsAcceptance l s task × (t ≡ start_task now task)
unfolding next_runnable next_runnable_under claim_bound
next_runnable-IsAcceptance now s l t a e = elim (Option-cases (bound_task l s)) [
  | inl n ↦ absurd (ground (arith, a))
  | inr (task, b) ↦
      let ok = bound_task-IsAcceptance l s task b in (task, ok, ground (arith, a, ok.bound))
]
