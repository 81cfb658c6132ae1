-- ===== src/Queue/Position/First.antt =====
-- level2_service/queue.py: the place that queue_position reports, and the task that runs next.
use tonghuashun.Base.{
  ℕ, ◌+◌, ◌≡◌, refl, sym, subst, ap, ◌∙◌, String, Bool, true, Option, none, some, List, [], ◌∷◌,
  ◌++◌, arith, ◌==◌, eq_iff, if◌then◌else◌, Bool-cases, Option-cases, inl, inr, count_if,
}
use tonghuashun.Dict.{Dict, get}
use tonghuashun.Models.{TaskRecord}
use tonghuashun.Queue.{Streams, Clocks, Lease, bound_of, active_lease}
use tonghuashun.Queue.Claim.Order.{waits_task}
use tonghuashun.Queue.Claim.{
  waits, first_waiting, next_runnable, next_runnable_under, claim_ordinary, claim, start_task,
}
use tonghuashun.Queue.Submit.Capacity.{tasks-active_lease}
use tonghuashun.Queue.Position.{
  counts, position_from, position_in, queue_position, get_task, resolve_task_id,
}

-- The number is one more than the tasks that count before the first place of the id.
pub record IsPlace (tasks : Dict TaskRecord) (bound : Option String) (fifo : List String)
    (id : String) (offset n : ℕ) : Type 0 where
  pub before : List String
  pub after : List String
  pub split : fifo ≡ before ++ id ∷ after
  pub counted : counts tasks bound id ≡ true
  pub number : n ≡ offset + count_if (counts tasks bound) before + 1

-- An id before the place counts by its test.
IsPlace-skip :
    (tasks : Dict TaskRecord) (bound : Option String) (x : String) (fifo : List String)
    (id : String) (offset next n : ℕ) {b : Bool}
    → counts tasks bound x ≡ b
    → next ≡ (if b then offset + 1 else offset)
    → IsPlace tasks bound fifo id next n
    → IsPlace tasks bound (x ∷ fifo) id offset n
IsPlace-skip tasks bound x fifo id offset next n {b} c e r = record {
  before = x ∷ r.before;
  after = r.after;
  split = ap (◌∷◌ x) r.split;
  counted = r.counted;
  number = ground (arith, r.number);
}

pub position_from-IsPlace :
    (tasks : Dict TaskRecord) (bound : Option String) (id : String) (offset : ℕ)
    (fifo : List String) (n : ℕ)
    → position_from tasks bound id offset fifo ≡ some n
    → IsPlace tasks bound fifo id offset n
unfolding position_from
position_from-IsPlace tasks bound id offset [] n e = absurd (ground arith)
position_from-IsPlace tasks bound id offset (x ∷ fifo) n e =
    elim (Bool-cases (counts tasks bound x)) [
      | inr c ↦
          IsPlace-skip tasks bound x fifo id offset offset n c refl
            (position_from-IsPlace tasks bound id offset fifo n (ground arith))
      | inl c ↦ elim (Bool-cases (x == id)) [
        | inl here ↦ record {
          before = [];
          after = fifo;
          split = ap (λ y. y ∷ fifo) ((eq_iff x id).0 here);
          counted = subst (λ y. counts tasks bound y ≡ true) ((eq_iff x id).0 here) c;
          number = ground arith;
        }
        | inr there ↦
            IsPlace-skip tasks bound x fifo id offset (offset + 1) n c refl
              (position_from-IsPlace tasks bound id (offset + 1) fifo n (ground arith))
      ]
    ]

-- Without a bound task, the tasks that count are those that wait.
counts-eq-waits : (tasks : Dict TaskRecord) (id : String) → counts tasks none id ≡ waits tasks id
unfolding counts waits
counts-eq-waits tasks id = ground arith

first_at_one :
    (tasks : Dict TaskRecord) (id : String) (offset : ℕ) (fifo : List String)
    → position_from tasks none id offset fifo ≡ some (offset + 1)
    → first_waiting tasks fifo ≡ some id
unfolding position_from first_waiting
first_at_one tasks id offset [] e = absurd (ground arith)
first_at_one tasks id offset (x ∷ fifo) e = elim (Bool-cases (waits tasks x)) [
  | inr c ↦ rw c (first_at_one tasks id offset fifo (ground (arith, counts-eq-waits tasks x)))
  | inl c ↦ elim (Bool-cases (x == id)) [
    | inl here ↦ rw c (ap some ((eq_iff x id).0 here))
    | inr there ↦
        let late =
          position_from-IsPlace tasks none id (offset + 1) fifo (offset + 1)
            (ground (arith, counts-eq-waits tasks x)) in
        absurd (omega (arith, late.number))
  ]
]

fifo-active_lease : (now : Clocks) (s : Streams) → (active_lease now s).1.fifo ≡ s.fifo
unfolding active_lease
fifo-active_lease now s = ground arith

-- A position is reported only for a task that is queued, has no maintenance fields and is not bound
-- to the active lease, and is one more than the number of such tasks that stand in the queue before
-- a place of the task.
pub queue_position-IsPlace :
    (task_id : String) (now : Clocks) (s : Streams) (n : ℕ)
    → (queue_position task_id now s).0 ≡ some n
    → (id : String) × (resolve_task_id task_id s ≡ some id)
      × IsPlace s.tasks (bound_of (active_lease now s).0) s.fifo id 0 n
unfolding queue_position position_in
queue_position-IsPlace task_id now s n e = elim (Option-cases (resolve_task_id task_id s)) [
  | inl r ↦ absurd (ground arith)
  | inr (id, r) ↦ (
    id,
    r,
    place id (bound_of (active_lease now s).0) (active_lease now s).1 (tasks-active_lease now s)
        (fifo-active_lease now s) (ground arith),
  )
]
  where
    place :
        (id : String) (bound : Option String) (s' : Streams)
        → s'.tasks ≡ s.tasks
        → s'.fifo ≡ s.fifo
        → position_in bound s' id ≡ some n
        → IsPlace s.tasks bound s.fifo id 0 n
    place id bound s' ts fs p = elim (Bool-cases (counts s'.tasks bound id)) [
      | inr c ↦ absurd (ground arith)
      | inl c ↦
          rw (← ts, ← fs)
            (position_from-IsPlace s'.tasks bound id 0 s'.fifo n (rw (position_in, c) at p))
    ]

first_in :
    (now : Clocks) (id : String) (s : Streams)
    → position_in none s id ≡ some 1
    → (task : TaskRecord) × (get id s.tasks ≡ some task)
      × ((claim_ordinary now s).0 ≡ some (start_task now task))
unfolding position_in claim_ordinary claim
first_in now id s e = elim (Bool-cases (counts s.tasks none id)) [
  | inr c ↦ absurd (ground arith)
  | inl c ↦
      let first = first_at_one s.tasks id 0 s.fifo (ground arith) in
      let (task, found) = waits_task s.tasks id (sym (counts-eq-waits s.tasks id) ∙ c) in
      (task, found, rw (first, claim_ordinary, found))
]

-- Without an active lease, a task whose position is reported as 1 is the one that the runner gets
-- next.
pub queue_position-first :
    (task_id : String) (now : Clocks) (s : Streams)
    → (active_lease now s).0 ≡ none
    → (queue_position task_id now s).0 ≡ some 1
    → (task : TaskRecord) × (get_task task_id s ≡ some task)
      × ((next_runnable now s).0 ≡ some (start_task now task))
unfolding queue_position next_runnable next_runnable_under get_task
queue_position-first task_id now s a e = elim (Option-cases (resolve_task_id task_id s)) [
  | inl r ↦ absurd (ground arith)
  | inr (id, r) ↦
      let (task, found, started) = first_in now id (active_lease now s).1 (ground arith) in
      (
        task,
        ground (arith, found, tasks-active_lease now s),
        go (active_lease now s).0 (active_lease now s).1 a started,
      )
]
  where
    go :
        {r : Option TaskRecord} (l : Option Lease) (s' : Streams)
        → l ≡ none
        → (claim_ordinary now s').0 ≡ r
        → (next_runnable_under now (l, s')).0 ≡ r
    go none s' n c = c
    go (some l) s' n c = absurd (ground arith)
