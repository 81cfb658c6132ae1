-- ===== src/Redis/Refines/Claims.antt =====
-- level2_service/queue.py: `next_runnable` of the two stores.
use tonghuashun.Base.{
  ℕ, ◌≤◌, ◌≡◌, ◌≢◌, refl, ap, ◌∙◌, sym, String, true, not, Option, none, some, List, [], ◌∷◌, arith,
  ◌==◌, eq_iff, keep, Bool-cases, Option-cases, inl, inr, if◌then◌else◌,
}
use tonghuashun.Dict.{Dict, get, put, get-put}
use tonghuashun.Dict.Keyed
use tonghuashun.Models.{TaskRecord}
use tonghuashun.Queue.{Streams, Lease, is_digest, store_task}
use tonghuashun.Queue.Claim.{
  waits, first_waiting, claim_ordinary, claim, claim_bound, bound_task, start_task,
  valid_bound_acceptance, digest_is, next_runnable_under,
}
use tonghuashun.Queue.Claim
use tonghuashun.Queue.Keyed.{put-IsKeyed}
use tonghuashun.Redis.{RedisStore, Server, live_lease, set_task, trim_events}
use tonghuashun.Redis.Claim.{
  runs_for, started, start_bound, claim_leased, pop_waiting, start_popped, claim_script,
  next_runnable,
}
use tonghuashun.Redis.Refines.{
  Agrees, lease_at, memory_clocks, live_lease-lease_at, active_lease-lease_at, lease_at-later,
  lease_at-some,
}
use tonghuashun.Redis.Refines.Waiting.{
  first, first_waiting-keep, pop_waiting-keep, pop_waiting-none, pop_waiting-waits, keep-waits-put,
  keep-waits-pop, keep-waits-remove,
}

-- The same result, and stores that agree.
pub record Matches {A : Type 0} (from : ℕ) (x : A × Streams) (y : A × RedisStore) : Type 0 where
  pub result : x.0 ≡ y.0
  pub after : Agrees from x.1 y.1

-- A task under its own id is written in both stores, which hold the same queues otherwise.
pub written-Agrees :
    (from : ℕ) (id : String) (t : TaskRecord) (m m' : Streams) (s s' : RedisStore)
    → Agrees from m s
    → t.task_id ≡ id
    → m'.tasks ≡ put id t m.tasks
    → s'.payloads ≡ put id t s.payloads
    → m'.lease ≡ m.lease
    → s'.lease ≡ s.lease
    → keep (waits m'.tasks) m'.fifo ≡ keep (waits s'.payloads) s'.queue
    → Agrees from m' s'
written-Agrees from id t m m' s s' h i p q l k w = record {
  tasks =
      λ j. rw (p, q) (get-put id j t m.tasks ∙ rw (h.tasks j) (sym (get-put id j t s.payloads)));
  waiting = w;
  leases = λ now later. rw (l, k) (h.leases now later);
  digests = λ x d e. h.digests x d (sym l ∙ e);
  keyed = rw q (put-IsKeyed id t s.payloads i h.keyed);
}

-- The lease that has run out is forgotten.
forgotten-Agrees :
    (from : ℕ) (now : Server) (m : Streams) (s : RedisStore)
    → from ≤ now.clock
    → Agrees from m s
    → Agrees now.clock (record m { lease = lease_at now.clock m.lease }) s
forgotten-Agrees from now m s le h = record {
  tasks = h.tasks;
  waiting = h.waiting;
  leases =
      λ later o. lease_at-later now.clock later m.lease o ∙ h.leases later (omega (arith, le, o));
  digests = λ l d e. h.digests l d (lease_at-some now.clock m.lease l e);
  keyed = h.keyed;
}

-- A waiting task has a payload.
waiting_found : (d : Dict TaskRecord) (id : String) → waits d id ≡ true → get id d ≢ none
unfolding waits
waiting_found d id w e = ground arith

first-none : (xs : List String) → first xs ≡ none → xs ≡ []
first-none [] e = refl
first-none (x ∷ xs) e = absurd (ground arith)

module _ (from : ℕ) (now : Server) (m : Streams) (s : RedisStore) (h : Agrees from m s) where
  same_first : first_waiting m.tasks m.fifo ≡ (pop_waiting s.payloads s.queue).0
  same_first =
      first_waiting-keep m.tasks m.fifo
      ∙ ap first h.waiting
      ∙ sym (pop_waiting-keep s.payloads s.queue)

  popped-Matches :
      (id : String) (task : TaskRecord)
      → (pop_waiting s.payloads s.queue).0 ≡ some id
      → get id s.payloads ≡ some task
      → Matches from (claim (memory_clocks now) id (some task) m) (
        some (started now task),
        set_task id (started now task) (record s { queue = (pop_waiting s.payloads s.queue).1 }),
      )
  unfolding claim start_task store_task started set_task
  popped-Matches id task e f = record {
    result = refl;
    after =
        written-Agrees from id (started now task) m _ s _ h
          (Keyed.get-key (λ t. t.task_id) id s.payloads task h.keyed f) refl refl refl refl
          (keep-waits-put id (started now task) refl m.tasks m.fifo
            ∙ ap (keep (λ i. not (i == id))) h.waiting
            ∙ sym (keep-waits-pop id (started now task) refl s.payloads s.queue e));
  }

  none-Matches :
      (pop_waiting s.payloads s.queue).0 ≡ none
      → Matches {A = Option TaskRecord} from
          (none, m)
          (none, record s { queue = (pop_waiting s.payloads s.queue).1 })
  none-Matches e = record {
    result = refl;
    after = record {
      tasks = h.tasks;
      waiting =
          h.waiting
          ∙ first-none (keep (waits s.payloads) s.queue)
              (sym (pop_waiting-keep s.payloads s.queue) ∙ e)
          ∙ sym (ap (keep (waits s.payloads)) (pop_waiting-none s.payloads s.queue e));
      leases = h.leases;
      digests = h.digests;
      keyed = h.keyed;
    };
  }

  ordinary-Matches :
      Matches from
        (claim_ordinary (memory_clocks now) m)
        (start_popped now (pop_waiting s.payloads s.queue) s)
  unfolding claim_ordinary start_popped
  ordinary-Matches = elim (Option-cases (pop_waiting s.payloads s.queue).0) [
    | inl e ↦ rw (claim_ordinary, same_first, start_popped, e) (none-Matches e)
    | inr (id, e) ↦ elim (Option-cases (get id s.payloads)) [
      | inl f ↦
          absurd (
            ground (arith, waiting_found s.payloads id (pop_waiting-waits s.payloads s.queue id e)))
      | inr (task, f) ↦
          rw (claim_ordinary, same_first, start_popped, e, h.tasks id, f)
            (popped-Matches id task e f)
    ]
  ]

  -- The task of the lease passes the tests of both stores, or of none.
  runs_for-valid :
      (id digest : String) (task : TaskRecord)
      → is_digest digest ≡ true
      → valid_bound_acceptance id digest true task ≡ runs_for id digest task
  unfolding valid_bound_acceptance digest_is runs_for
  runs_for-valid id digest task g = elim (Option-cases task.maintenance_owner_digest) [
    | inl e ↦ rw e (ground arith)
    | inr (d, e) ↦ elim (Bool-cases (d == digest)) [
      | inl q ↦
          let same : is_digest d ≡ true = rw ((eq_iff d digest).0 q) g in
          rw e (rw (q, same) (ground arith))
      | inr q ↦ rw e (rw q (ground arith))
    ]
  ]

  start_bound-Matches :
      (id digest : String) (task : TaskRecord)
      → is_digest digest ≡ true
      → get id s.payloads ≡ some task
      → Matches from
          (claim_bound
            (memory_clocks now)
            (some id)
            (if valid_bound_acceptance id digest true task then some task else none)
            m)
          (start_bound now id digest task s)
  unfolding claim_bound start_task store_task start_bound started set_task
  start_bound-Matches id digest task g f = elim (Bool-cases (runs_for id digest task)) [
    | inr r ↦ rw (runs_for-valid id digest task g, r) (record { result = refl; after = h })
    | inl r ↦
        rw (runs_for-valid id digest task g, r)
          (record {
            result = refl;
            after =
                written-Agrees from id (started now task) m _ s _ h
                  (Keyed.get-key (λ t. t.task_id) id s.payloads task h.keyed f) refl refl refl refl
                  (keep-waits-remove id (started now task) refl m.tasks m.fifo
                    ∙ ap (keep (λ i. not (i == id))) h.waiting
                    ∙ sym (keep-waits-remove id (started now task) refl s.payloads s.queue));
          })
  ]

  leased-Matches :
      (l : Lease)
      → ((d : String) → l.owner_digest ≡ some d → is_digest d ≡ true)
      → Matches from
          (claim_bound (memory_clocks now) l.bound_task_id (bound_task l m) m)
          (claim_leased now l s)
  unfolding claim_bound bound_task claim_leased
  leased-Matches l g = elim (Option-cases l.bound_task_id) [
    | inl e ↦ rw (bound_task, claim_leased, e) (record { result = refl; after = h })
    | inr (id, e) ↦ elim (Option-cases l.owner_digest) [
      | inl f ↦ rw (bound_task, claim_leased, e, f) (record { result = refl; after = h })
      | inr (digest, f) ↦ elim (Option-cases (get id s.payloads)) [
        | inl k ↦
            rw (bound_task, claim_leased, e, f, h.tasks id, k) (record { result = refl; after = h })
        | inr (task, k) ↦
            rw (bound_task, claim_leased, e, f, h.tasks id, k)
              (start_bound-Matches id digest task (g digest f) k)
      ]
    ]
  ]

  under-Matches :
      (o : Option Lease)
      → live_lease now s ≡ o
      → ((l : Lease) (d : String) → o ≡ some l → l.owner_digest ≡ some d → is_digest d ≡ true)
      → Matches from (next_runnable_under (memory_clocks now) (o, m)) (claim_script now s)
  unfolding next_runnable_under claim_script
  under-Matches none e g = rw (claim_script, e) ordinary-Matches
  under-Matches (some l) e g = rw (claim_script, e) (leased-Matches l (λ d. g l d refl))

pub trimmed-Matches :
    {A : Type 0} (from : ℕ) (now : Server) (x : A × Streams) (y : A × RedisStore)
    → Matches from x y
    → Matches from x (y.0, trim_events now y.1)
unfolding trim_events
trimmed-Matches from now x y h = record {
  result = h.result;
  after = record {
    tasks = h.after.tasks;
    waiting = h.after.waiting;
    leases = h.after.leases;
    digests = h.after.digests;
    keyed = h.after.keyed;
  };
}

-- Stores that agree hand the same task to the runner, or both none, and agree afterwards.
pub next_runnable-Matches :
    (from : ℕ) (now : Server) (m : Streams) (s : RedisStore)
    → from ≤ now.clock
    → Agrees from m s
    → Matches now.clock (Claim.next_runnable (memory_clocks now) m) (next_runnable now s)
unfolding Claim.next_runnable next_runnable
next_runnable-Matches from now m s le h = rw (active_lease-lease_at now m) (
    trimmed-Matches now.clock now _ _ (
      under-Matches now.clock now _ s (forgotten-Agrees from now m s le h)
        (lease_at now.clock m.lease) (live_lease-lease_at now s ∙ sym (h.leases now.clock le))
        (λ l d e. h.digests l d (lease_at-some now.clock m.lease l e))))
