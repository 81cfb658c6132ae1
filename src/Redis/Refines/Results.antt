-- ===== src/Redis/Refines/Results.antt =====
-- level2_service/queue.py: the operations of the two stores that record what a run produced.
use tonghuashun.Base.{
  ℕ, ◌≡◌, refl, ap, ◌∙◌, sym, String, Bool, true, false, not, Option, none, some, List, arith, ◌==◌,
  keep, Bool-cases, Option-cases, inl, inr, if◌then◌else◌, nat_eq,
}
use tonghuashun.Dict.{get, put}
use tonghuashun.Dict.Keyed
use tonghuashun.Models.{TaskRecord, TaskStatus, CaptureKind, SourceErrors, status_eq}
use tonghuashun.Queue.{Streams, Result, ok, err, key_error, store_task, is_active}
use tonghuashun.Queue.Claim.{waits}
use tonghuashun.Queue.Results
use tonghuashun.Queue.Results.{
  Outcome, allowed, moved_task, transition_at, accepts, captured_task, taken_task, ready_count,
  complete_capture_at, wrong_path, resulted_task, concluded, with_values, with_long_capture,
  required_complete, complete_result_at, snapshot_task, complete_market_snapshot_at,
}
use tonghuashun.Redis.{RedisStore, Server, set_task, count_change, count_up, trim_events}
use tonghuashun.Redis.Results.{
  persist_script, persist, with_task, transition, complete_capture, complete_result,
  complete_market_snapshot, utc_clock,
}
use tonghuashun.Redis.Counter.Restarts.{get_task_self}
use tonghuashun.Redis.Refines.{Agrees, memory_clocks}
use tonghuashun.Redis.Refines.Waiting.{keep-waits-put}
use tonghuashun.Redis.Refines.Claims.{Matches, written-Agrees}

-- What an operation writes: the task under the given id, which is not queued.
record IsWritten (id : String) (t : TaskRecord) : Type 0 where
  own : t.task_id ≡ id
  out : status_eq t.status TaskStatus.queued ≡ false

-- No transition leads back to the queue.
never_queued : (x : TaskStatus) → allowed x TaskStatus.queued ≡ false
unfolding allowed
never_queued TaskStatus.queued = refl
never_queued TaskStatus.running = refl
never_queued TaskStatus.waiting_admin = refl
never_queued TaskStatus.completed = refl
never_queued TaskStatus.market_snapshot = refl
never_queued TaskStatus.partial = refl
never_queued TaskStatus.failed = refl
never_queued TaskStatus.expired = refl

-- The counter plays no part.
counted-Agrees :
    (from : ℕ) (a b : Bool) (m : Streams) (s : RedisStore)
    → Agrees from m s
    → Agrees from m (count_change a b s)
unfolding count_change count_up
counted-Agrees from true true m s h = h
counted-Agrees from false false m s h = h
counted-Agrees from true false m s h = record {
  tasks = h.tasks;
  waiting = h.waiting;
  leases = h.leases;
  digests = h.digests;
  keyed = h.keyed;
}
counted-Agrees from false true m s h = record {
  tasks = h.tasks;
  waiting = h.waiting;
  leases = h.leases;
  digests = h.digests;
  keyed = h.keyed;
}

module _ (from : ℕ) (now : Server) (w : now.writes_event ≡ true) (m : Streams) (s : RedisStore)
    (h : Agrees from m s) (id : String) (a : get id s.aliases ≡ none) where
  persist-Matches :
      (old t : TaskRecord)
      → IsWritten id t
      → Matches from (ok t, store_task id t m) (persist now old t s)
  unfolding store_task persist persist_script trim_events set_task
  persist-Matches old t i = rw w (record {
    result = refl;
    after = counted-Agrees from (is_active old.status) (is_active t.status) _ _ (
        written-Agrees from id t m _ s _ h i.own refl (ap (λ k. put k t s.payloads) i.own) refl refl
          (keep-waits-put id t i.out m.tasks m.fifo
            ∙ ap (keep (λ j. not (j == id))) h.waiting
            ∙ sym (keep-waits-put id t i.out s.payloads s.queue)
            ∙ ap (λ k. keep (waits (put k t s.payloads)) s.queue) (sym i.own)));
  })

  -- An operation that reads its task does the same with the same task.
  with_task-Matches :
      (f : TaskRecord → Result TaskRecord × Streams)
      (g : TaskRecord → Result TaskRecord × RedisStore)
      → ((task : TaskRecord)
          → get id s.payloads ≡ some task
          → task.task_id ≡ id
          → Matches from (f task) (g task))
      → Matches from
          (elim (get id m.tasks) [ none ↦ (err key_error, m) | some task ↦ f task ])
          (with_task id g s)
  unfolding with_task
  with_task-Matches f g step = elim (Option-cases (get id s.payloads)) [
    | inl e ↦
        rw (with_task, get_task_self id s a, h.tasks id, e) (record { result = refl; after = h })
    | inr (task, e) ↦
        rw (with_task, get_task_self id s a, h.tasks id, e)
          (step task e (Keyed.get-key (λ t. t.task_id) id s.payloads task h.keyed e))
  ]

  unless-Matches :
      (b : Bool) (e : Result TaskRecord) (x : Result TaskRecord × Streams)
      (y : Result TaskRecord × RedisStore)
      → (b ≡ false → Matches from x y)
      → Matches from (if b then (e, m) else x) (if b then (e, s) else y)
  unless-Matches true e x y k = record { result = refl; after = h }
  unless-Matches false e x y k = k refl

  not_queued :
      (from_status to : TaskStatus)
      → not (allowed from_status to) ≡ false
      → status_eq to TaskStatus.queued ≡ false
  unfolding allowed
  not_queued from_status TaskStatus.queued e = absurd (ground (arith, never_queued from_status))
  not_queued from_status TaskStatus.running e = refl
  not_queued from_status TaskStatus.waiting_admin e = refl
  not_queued from_status TaskStatus.completed e = refl
  not_queued from_status TaskStatus.market_snapshot e = refl
  not_queued from_status TaskStatus.partial e = refl
  not_queued from_status TaskStatus.failed e = refl
  not_queued from_status TaskStatus.expired e = refl

  pub transition-Matches :
      (status : TaskStatus) (code : Option String) (errors : Option SourceErrors)
      → Matches from
          (Results.transition (memory_clocks now) id status code errors m)
          (transition now id status code errors s)
  unfolding Results.transition transition_at transition moved_task
  transition-Matches status code errors = with_task-Matches _ _ (λ task e i.
      unless-Matches (not (allowed task.status status)) _ _ _ (λ q.
        persist-Matches task (moved_task (utc_clock now) status code errors task)
          (record { own = i; out = not_queued task.status status q })))

  captured-IsWritten :
      (kind : CaptureKind) (path : String) (task : TaskRecord)
      → task.task_id ≡ id
      → IsWritten id (captured_task (utc_clock now) kind path task)
  unfolding captured_task taken_task
  captured-IsWritten kind path task i =
      elim (Bool-cases (nat_eq (ready_count (taken_task (utc_clock now) kind path task)) 3)) [
        | inl e ↦ rw e (record { own = i; out = refl })
        | inr e ↦ rw e (record { own = i; out = refl })
      ]

  pub complete_capture-Matches :
      (kind : CaptureKind) (path : String)
      → Matches from
          (Results.complete_capture (memory_clocks now) id kind path m)
          (complete_capture now id kind path s)
  unfolding Results.complete_capture complete_capture_at complete_capture
  complete_capture-Matches kind path = with_task-Matches _ _ (λ task e i.
      unless-Matches (not (accepts task.status)) _ _ _ (λ q.
        persist-Matches task (captured_task (utc_clock now) kind path task)
          (captured-IsWritten kind path task i)))

  pub complete_market_snapshot-Matches :
      (snapshot : List (String × String))
      → Matches from
          (Results.complete_market_snapshot (memory_clocks now) id snapshot m)
          (complete_market_snapshot now id snapshot s)
  unfolding Results.complete_market_snapshot complete_market_snapshot_at complete_market_snapshot
      snapshot_task
  complete_market_snapshot-Matches snapshot = with_task-Matches _ _ (λ task e i.
      unless-Matches (not (status_eq task.status TaskStatus.running)) _ _ _ (λ q.
        persist-Matches task (snapshot_task (utc_clock now) snapshot task)
          (record { own = i; out = refl })))

  concluded-IsWritten :
      (ignore : Bool) (t : TaskRecord)
      → t.task_id ≡ id
      → IsWritten id (concluded (utc_clock now) ignore t)
  unfolding concluded
  concluded-IsWritten ignore t i = record { own = i; out = ground arith }

  id-with_long_capture :
      (path : Option String) (t : TaskRecord)
      → (with_long_capture (utc_clock now) path t).task_id ≡ t.task_id
  unfolding with_long_capture
  id-with_long_capture none t = refl
  id-with_long_capture (some p) t = refl

  id-with_values : (o : Outcome) (t : TaskRecord) → (with_values o t).task_id ≡ t.task_id
  unfolding with_values
  id-with_values o t = refl

  resulted-IsWritten :
      (o : Outcome) (task : TaskRecord)
      → task.task_id ≡ id
      → IsWritten id (resulted_task (utc_clock now) o task)
  unfolding resulted_task
  resulted-IsWritten o task i =
      concluded-IsWritten o.ignore_fund_source_error
        (with_long_capture (utc_clock now) o.path (with_values o task))
        (id-with_long_capture o.path (with_values o task) ∙ id-with_values o task ∙ i)

  -- The path fits the task.
  pub complete_result-Matches :
      (o : Outcome)
      → ((task : TaskRecord)
          → get id s.payloads ≡ some task
          → wrong_path task.include_long_capture o.path ≡ false)
      → Matches from
          (Results.complete_result (memory_clocks now) id o m)
          (complete_result now id o s)
  unfolding Results.complete_result complete_result_at complete_result
  complete_result-Matches o fits = with_task-Matches _ _ (λ task e i.
      unless-Matches (not (accepts task.status)) _ _ _ (λ q. rw (fits task e) (
        persist-Matches task (resulted_task (utc_clock now) o task) (resulted-IsWritten o task i))))
