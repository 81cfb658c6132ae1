-- ===== src/Queue/Claim/Order.antt =====
-- level2_service/queue.py: the order in which tasks are taken.
use tonghuashun.Base.{
  String, ◌≡◌, refl, ap, true, false, Option, none, some, List, [], ◌∷◌, ◌++◌, arith, ◌==◌, All,
  if◌then◌else◌, Bool-cases, Option-cases, ◌⊎◌, inl, inr,
}
use tonghuashun.Dict.{Dict, get, get-put}
use tonghuashun.Models.{TaskRecord, TaskStatus}
use tonghuashun.Queue.{Streams, Clocks, Lease, has_maintenance_metadata, active_lease, store_task}
use tonghuashun.Queue.Claim.{
  waits, first_waiting, claim_ordinary, claim, start_task, next_runnable, next_runnable_under,
}

-- The task under an id waits in the ordinary queue: it is queued and has no maintenance fields.
pub record Waits (tasks : Dict TaskRecord) (id : String) : Type 0 where
  pub task : TaskRecord
  pub found : get id tasks ≡ some task
  pub queued : task.status ≡ TaskStatus.queued
  pub ordinary : (task.maintenance_namespace ≡ none) × (task.maintenance_owner_digest ≡ none)

pub waits-Waits : (tasks : Dict TaskRecord) (id : String) → waits tasks id ≡ true → Waits tasks id
unfolding waits has_maintenance_metadata
waits-Waits tasks id w = elim (Option-cases (get id tasks)) [
  | inl e ↦ absurd (ground arith)
  | inr (task, e) ↦ record {
    task = task;
    found = e;
    queued = ground arith;
    ordinary = (ground arith, ground arith);
  }
]

not_waits : (tasks : Dict TaskRecord) (id : String) → waits tasks id ≡ false → ¬ Waits tasks id
unfolding waits has_maintenance_metadata
not_waits tasks id w h = ground (arith, h.found, h.queued, h.ordinary)

abbrev pub NoneWaits : Dict TaskRecord → List String → Type 0
NoneWaits tasks = All (λ id. ¬ Waits tasks id)

-- The id is in the queue, its task waits, and none before it waits.
pub record IsFirst (tasks : Dict TaskRecord) (fifo : List String) (id : String) : Type 0 where
  pub before : List String
  pub after : List String
  pub split : fifo ≡ before ++ id ∷ after
  pub earlier : NoneWaits tasks before
  pub waiting : Waits tasks id

pub first_waiting-IsFirst :
    (tasks : Dict TaskRecord) (fifo : List String) (id : String)
    → first_waiting tasks fifo ≡ some id
    → IsFirst tasks fifo id
unfolding first_waiting
first_waiting-IsFirst tasks [] id e = absurd (ground arith)
first_waiting-IsFirst tasks (x ∷ fifo) id e = elim (Bool-cases (waits tasks x)) [
  | inl w ↦ record {
    before = [];
    after = fifo;
    split = ground arith;
    earlier = tt;
    waiting = waits-Waits tasks id (ground arith);
  }
  | inr n ↦
      let rest = first_waiting-IsFirst tasks fifo id (rw n at e) in
      record {
        before = x ∷ rest.before;
        after = rest.after;
        split = ap (◌∷◌ x) rest.split;
        earlier = (not_waits tasks x n, rest.earlier);
        waiting = rest.waiting;
      }
]

pub first_waiting-none :
    (tasks : Dict TaskRecord) (fifo : List String)
    → first_waiting tasks fifo ≡ none
    → NoneWaits tasks fifo
unfolding first_waiting
first_waiting-none tasks [] e = tt
first_waiting-none tasks (x ∷ fifo) e = elim (Bool-cases (waits tasks x)) [
  | inl w ↦ absurd (ground arith)
  | inr n ↦ (not_waits tasks x n, first_waiting-none tasks fifo (rw n at e))
]

-- The call takes the task under `id` and starts it; all else in the store and the queue stays.
pub record Takes (now : Clocks) (s : Streams) (id : String) (r : Option TaskRecord × Streams)
    : Type 0 where
  pub task : TaskRecord
  pub found : get id s.tasks ≡ some task
  pub returned : r.0 ≡ some (record task { status = TaskStatus.running; updated_at = now.utc })
  pub stored : (j : String) → get j r.1.tasks ≡ (if id == j then r.0 else get j s.tasks)
  pub fifo : r.1.fifo ≡ s.fifo

pub waits_task :
    (tasks : Dict TaskRecord) (id : String)
    → waits tasks id ≡ true
    → (task : TaskRecord) × (get id tasks ≡ some task)
unfolding waits
waits_task tasks id w = elim (Option-cases (get id tasks)) [
  | inl e ↦ absurd (ground arith)
  | inr found ↦ found
]

claim-Takes :
    (now : Clocks) (s : Streams) (id : String) (task : TaskRecord)
    → get id s.tasks ≡ some task
    → Takes now s id (claim now id (some task) s)
unfolding claim start_task store_task
claim-Takes now s id task e = record {
  task = task;
  found = e;
  returned = refl;
  stored = λ j. get-put id j (start_task now task) s.tasks;
  fifo = refl;
}

-- What a call without an active lease does: nothing waits and nothing changes, or the first task of
-- the queue that waits is taken.
abbrev pub TakesFirst : Clocks → Streams → Option TaskRecord × Streams → Type 0
TakesFirst now s r =
    (NoneWaits s.tasks s.fifo × (r ≡ (none, s)))
    ⊎ ((id : String) × IsFirst s.tasks s.fifo id × Takes now s id r)

claim_ordinary-TakesFirst : (now : Clocks) (s : Streams) → TakesFirst now s (claim_ordinary now s)
unfolding claim_ordinary
claim_ordinary-TakesFirst now s = elim (Option-cases (first_waiting s.tasks s.fifo)) [
  | inl e ↦ inl (first_waiting-none s.tasks s.fifo e, rw (e, claim_ordinary))
  | inr (id, e) ↦
      let first = first_waiting-IsFirst s.tasks s.fifo id e in
      let w = first.waiting in
      rw (e, claim_ordinary, w.found) (inr (id, first, claim-Takes now s id w.task w.found))
]

-- Without an active lease the runner gets the task that has waited longest: the first id of the
-- queue whose task is queued and has no maintenance fields. That task becomes running, every other
-- task and the queue stay as they are; if no such task waits, nothing is returned and nothing
-- changes.
pub next_runnable-TakesFirst :
    (now : Clocks) (s : Streams)
    → (active_lease now s).0 ≡ none
    → TakesFirst now (active_lease now s).1 (next_runnable now s)
unfolding next_runnable next_runnable_under
next_runnable-TakesFirst now s e = go (active_lease now s).0 (active_lease now s).1 e
  where
    go :
        (l : Option Lease) (s' : Streams)
        → l ≡ none
        → TakesFirst now s' (next_runnable_under now (l, s'))
    go none s' e = claim_ordinary-TakesFirst now s'
    go (some l) s' e = absurd (ground arith)
