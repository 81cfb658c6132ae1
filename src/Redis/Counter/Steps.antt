-- ===== src/Redis/Counter/Steps.antt =====
-- level2_service/queue.py: the counter of `RedisStreamsStore` through submissions and claims.
use tonghuashun.Base.{
  ℕ, ◌+◌, ◌≤◌, ◌≡◌, refl, ◌∙◌, ap, String, true, false, ◌||◌, Option, none, some, arith, Bool-cases,
  Option-cases, inl, inr, reaches-Lags,
}
use tonghuashun.Dict.{get, put}
use tonghuashun.Dict.Counting.{weight, count-put}
use tonghuashun.Models.{TaskRecord}
use tonghuashun.Queue.{is_active, task_active, has_maintenance_metadata, opt_eq}
use tonghuashun.Redis.{
  RedisStore, Server, Reply, nil, payload, live_lease, bound_id, ensure_active_count, trim_events,
  set_task, count_up,
}
use tonghuashun.Redis.Submit.{
  submit_new, submit_old, submit_indexed, submit_script, submitted, submit_or_refresh, insert_task,
  restart_task, enqueue, enqueue_script, full, forget,
}
use tonghuashun.Queue.Submit.Capacity.{weight_le}
use tonghuashun.Redis.Counter.{active_tasks, IsCounted, same-IsCounted, up-IsCounted}

pub same-ensure_active_count : (d : ℕ) (s : RedisStore) → IsCounted d s → ensure_active_count s ≡ s
unfolding ensure_active_count
same-ensure_active_count d s h = rw h.held refl

pub trim_events-IsCounted :
    (d : ℕ) (now : Server) (s : RedisStore) → IsCounted d s → IsCounted d (trim_events now s)
unfolding trim_events
trim_events-IsCounted d now s h = same-IsCounted d s (trim_events now s) refl refl h

-- What a submission does to a property of the store that depends on the payloads, the counter and
-- the cap: it is kept if the two ways of adding a task below the cap keep it.
module _ {κ} (now : Server) (task : TaskRecord) (Q : RedisStore → Type κ)
    (counted : (s : RedisStore) → Q s → ensure_active_count s ≡ s)
    (frame : (s s' : RedisStore)
      → s'.payloads ≡ s.payloads
      → s'.active ≡ s.active
      → s'.pending_cap ≡ s.pending_cap
      → Q s
      → Q s')
    (insert : (s : RedisStore)
      → full s ≡ false
      → get task.task_id s.payloads ≡ none
      → Q s
      → Q (insert_task task s))
    (restart : (id : String) (old : TaskRecord) (s : RedisStore)
      → full s ≡ false
      → get id s.payloads ≡ some old
      → task_active old ≡ false
      → Q s
      → Q (restart_task id task s).1) where
  submit_new-Q :
      (s : RedisStore) → get task.task_id s.payloads ≡ none → Q s → Q (submit_new task s).1
  unfolding submit_new
  submit_new-Q s new h = elim (Bool-cases (full s)) [
    | inl e ↦ rw e h
    | inr e ↦ rw e (insert s e new h)
  ]

  submit_old-Q :
      (id : String) (old : TaskRecord) (s : RedisStore)
      → get id s.payloads ≡ some old
      → Q s
      → Q (submit_old id old task s).1
  unfolding submit_old task_active
  submit_old-Q id old s e h = elim (Bool-cases (is_active old.status)) [
    | inl a ↦ rw a h
    | inr a ↦ elim (Bool-cases (full s)) [
      | inl f ↦ rw (a, f) h
      | inr f ↦ rw (a, f) (restart id old s f e a h)
    ]
  ]

  forget-Q : (s : RedisStore) → Q s → Q (forget task.symbol s)
  forget-Q s h = frame s (forget task.symbol s) refl refl refl h

  submit_indexed-Q :
      (bound : Option String) (id : String) (s : RedisStore)
      → get task.task_id s.payloads ≡ none
      → Q s
      → Q (submit_indexed bound id task s).1
  unfolding submit_indexed
  submit_indexed-Q bound id s new h = elim (Option-cases (get id s.payloads)) [
    | inl e ↦ rw (e, submit_indexed) (submit_new-Q (forget task.symbol s) new (forget-Q s h))
    | inr (old, e) ↦ elim (Bool-cases (opt_eq bound id || has_maintenance_metadata old)) [
      | inl m ↦ rw (e, submit_indexed, m) (submit_new-Q (forget task.symbol s) new (forget-Q s h))
      | inr m ↦ rw (e, submit_indexed, m) (submit_old-Q id old s e h)
    ]
  ]

  submit_script-Q :
      (s : RedisStore) → get task.task_id s.payloads ≡ none → Q s → Q (submit_script now task s).1
  unfolding submit_script
  submit_script-Q s new h = elim (Option-cases (get task.symbol s.symbols)) [
    | inl e ↦ rw (e, submit_script) (submit_new-Q s new h)
    | inr (id, e) ↦
        rw (e, submit_script) (submit_indexed-Q (bound_id (live_lease now s)) id s new h)
  ]

  submitted-Q : (r : Reply × RedisStore) → Q r.1 → Q (submitted now r).1
  unfolding trim_events
  submitted-Q (payload t, s) h = frame s (trim_events now s) refl refl refl h
  submitted-Q (Reply.queue_full, s) h = h
  submitted-Q (Reply.maintenance, s) h = h
  submitted-Q (nil, s) h = h

  pub submit_or_refresh-Q :
      (s : RedisStore)
      → get task.task_id s.payloads ≡ none
      → Q s
      → Q (submit_or_refresh now task s).1
  unfolding submit_or_refresh
  submit_or_refresh-Q s new h = elim (Bool-cases (has_maintenance_metadata task)) [
    | inl m ↦ rw m h
    | inr m ↦ rw (m, counted s h) (submitted-Q (submit_script now task s) (submit_script-Q s new h))
  ]

module _ (d : ℕ) (now : Server) (task : TaskRecord) (queued : task_active task ≡ true) where
  insert_task-IsCounted :
      (s : RedisStore)
      → get task.task_id s.payloads ≡ none
      → IsCounted d s
      → IsCounted d (insert_task task s)
  unfolding insert_task set_task count_up
  insert_task-IsCounted s new h =
      up-IsCounted d s (insert_task task s) task.task_id task (ap (weight task_active) new) queued
        refl refl refl h

  restart_task-IsCounted :
      (id : String) (old : TaskRecord) (s : RedisStore)
      → get id s.payloads ≡ some old
      → task_active old ≡ false
      → IsCounted d s
      → IsCounted d (restart_task id task s).1
  unfolding restart_task set_task count_up task_active
  restart_task-IsCounted id old s e i h =
      up-IsCounted d s (restart_task id task s).1 id (record task { task_id = id })
        (ap (weight task_active) e ∙ rw i refl) queued refl refl refl h

  pub enqueue-IsCounted :
      (s : RedisStore)
      → get task.task_id s.payloads ≡ none
      → IsCounted d s
      → IsCounted d (enqueue now task s).1
  unfolding enqueue enqueue_script
  enqueue-IsCounted s new h = elim (Bool-cases (has_maintenance_metadata task)) [
    | inl m ↦ rw m h
    | inr m ↦ elim (Bool-cases (full s)) [
      | inl f ↦ rw (m, same-ensure_active_count d s h, f) h
      | inr f ↦
          rw (m, same-ensure_active_count d s h, f)
            (trim_events-IsCounted d now (insert_task task s) (insert_task-IsCounted s new h))
    ]
  ]

  pub submit_or_refresh-IsCounted :
      (s : RedisStore)
      → get task.task_id s.payloads ≡ none
      → IsCounted d s
      → IsCounted d (submit_or_refresh now task s).1
  submit_or_refresh-IsCounted =
      submit_or_refresh-Q now task (IsCounted d) (same-ensure_active_count d)
        (λ s s' p a c h. same-IsCounted d s s' p a h) (λ s f new h. insert_task-IsCounted s new h)
        (λ id old s f e i h. restart_task-IsCounted id old s e i h)

  -- Where the cap holds up to the lag.
  abbrev IsWithin : RedisStore → Type 0
  IsWithin s = IsCounted d s × (active_tasks s ≤ s.pending_cap + d)

  put-IsWithin :
      (k : String) (t : TaskRecord) (s s' : RedisStore)
      → full s ≡ false
      → s'.payloads ≡ put k t s.payloads
      → s'.pending_cap ≡ s.pending_cap
      → IsCounted d s
      → active_tasks s' ≤ s'.pending_cap + d
  put-IsWithin k t s s' f p c h =
      rw (p, c)
        (omega (
          arith,
          count-put task_active k t s.payloads,
          weight_le (some t),
          reaches-Lags d h.counter (active_tasks s) s.pending_cap h.lags (rw h.held at f),
        ))

  pub submit_or_refresh-IsWithin :
      (s : RedisStore)
      → get task.task_id s.payloads ≡ none
      → IsWithin s
      → IsWithin (submit_or_refresh now task s).1
  unfolding insert_task restart_task set_task count_up
  submit_or_refresh-IsWithin =
      submit_or_refresh-Q now task IsWithin (λ s h. same-ensure_active_count d s h.0)
        (λ s s' p a c h. (same-IsCounted d s s' p a h.0, rw (p, c) h.1))
        (λ s f new h. (
          insert_task-IsCounted s new h.0,
          put-IsWithin task.task_id task s (insert_task task s) f refl refl h.0,
        ))
        (λ id old s f e i h. (
          restart_task-IsCounted id old s e i h.0,
          put-IsWithin id (record task { task_id = id }) s (restart_task id task s).1 f refl refl
              h.0,
        ))
