-- ===== src/Queue/Results/Transitions.antt =====
-- level2_service/queue.py: which changes of status `transition` makes.
use tonghuashun.Base.{
  String, ◌≡◌, Bool, true, false, Option, none, some, List, [], ◌∷◌, arith, ◌==◌, eq_iff,
  if◌then◌else◌, Bool-cases, Option-cases, ◌⊎◌, inl, inr,
}
use tonghuashun.Dict.{get, get-put}
use tonghuashun.Models.{TaskRecord, TaskStatus, SourceErrors}
use tonghuashun.Queue.{Streams, Clocks, Result, ok, err, invalid_transition, key_error, store_task}
use tonghuashun.Queue.Results.{allowed, moved_task, transition}

-- A task that is finished by `transition` is never taken up again by it.
abbrev pub is_final : TaskStatus → Bool
is_final TaskStatus.completed = true
is_final TaskStatus.market_snapshot = true
is_final TaskStatus.failed = true
is_final TaskStatus.expired = true
is_final _ = false

allowed_from_final : (a b : TaskStatus) → is_final a ≡ true → allowed a b ≡ false
unfolding allowed
allowed_from_final a b h = ground arith

-- What `transition` gives for a key: an error that leaves the store alone where there is no task
-- or the table forbids the change, else the moved task, in the store and as the last event.
abbrev pub Moves :
    Clocks
    → String
    → TaskStatus
    → Option String
    → Option SourceErrors
    → Streams
    → Result TaskRecord × Streams
    → Type 0
Moves now id to code errors s r =
    ((get id s.tasks ≡ none) × (r ≡ (err key_error, s)))
    ⊎ ((task : TaskRecord) × (get id s.tasks ≡ some task)
        × (((allowed task.status to ≡ false) × (r ≡ (err invalid_transition, s)))
            ⊎ ((allowed task.status to ≡ true)
                × (r.0 ≡ ok (moved_task now to code errors task))
                × ((j : String)
                    → get j r.1.tasks ≡ (
                        if id == j
                        then some (moved_task now to code errors task)
                        else get j s.tasks))
                × (r.1.fifo ≡ s.fifo))))

-- A transition raises and leaves the store alone exactly where there is no task under the key or the
-- table of transitions forbids the change; otherwise it returns the task with the new status, and
-- changes no other task and not the queue.
pub transition-Moves :
    (now : Clocks) (id : String) (to : TaskStatus) (code : Option String)
    (errors : Option SourceErrors) (s : Streams)
    → Moves now id to code errors s (transition now id to code errors s)
unfolding transition store_task
transition-Moves now id to code errors s = elim (Option-cases (get id s.tasks)) [
  | inl e ↦ inl (e, rw (e, transition))
  | inr (task, e) ↦ inr (
    task,
    e,
    elim (Bool-cases (allowed task.status to)) [
      | inl y ↦ inr (
        y,
        rw (e, transition, y),
        λ j. rw (e, transition, y) (get-put id j (moved_task now to code errors task) s.tasks),
        rw (e, transition, y),
      )
      | inr n ↦ inl (n, rw (e, transition, n))
    ],
  )
]

-- A call of `transition`, with what the clocks show.
pub record Call : Type 0 where
  pub now : Clocks
  pub id : String
  pub to : TaskStatus
  pub code : Option String
  pub errors : Option SourceErrors

-- The store after a sequence of calls, whether they raise or not.
pub run : List Call → Streams → Streams
run [] s = s
run (c ∷ cs) s = run cs (transition c.now c.id c.to c.code c.errors s).1

transition-final :
    (c : Call) (s : Streams) (id : String) (task : TaskRecord)
    → is_final task.status ≡ true
    → get id s.tasks ≡ some task
    → get id (transition c.now c.id c.to c.code c.errors s).1.tasks ≡ some task
unfolding transition store_task
transition-final c s id task f g = elim (Option-cases (get c.id s.tasks)) [
  | inl e ↦ rw (e, transition) g
  | inr (t, e) ↦ elim (Bool-cases (allowed t.status c.to)) [
    | inr n ↦ rw (e, transition, n) g
    | inl y ↦
        rw (e, transition, y)
          (rw get-put (
            ground (
              arith,
              eq_iff c.id id,
              g,
              e,
              y,
              allowed_from_final t.status c.to,
              allowed_from_final task.status c.to,
            )))
  ]
]

-- A task that is completed, failed, expired or a market snapshot is changed by no sequence of
-- calls of `transition`, whatever tasks, statuses and errors they name.
pub run-final :
    (cs : List Call) (s : Streams) (id : String) (task : TaskRecord)
    → is_final task.status ≡ true
    → get id s.tasks ≡ some task
    → get id (run cs s).tasks ≡ some task
unfolding run
run-final [] s id task f g = g
run-final (c ∷ cs) s id task f g =
    run-final cs (transition c.now c.id c.to c.code c.errors s).1 id task f
      (transition-final c s id task f g)
