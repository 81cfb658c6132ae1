-- ===== src/Redis/Counter/Runs.antt =====
-- level2_service/queue.py: the counter of `RedisStreamsStore` where tasks are taken and put back.
use tonghuashun.Base.{
  ℕ, ◌≡◌, refl, ◌∙◌, ap, String, true, false, Option, none, some, List, arith, Bool-cases,
  Option-cases, inl, inr,
}
use tonghuashun.Dict.{get, put}
use tonghuashun.Dict.Counting.{weight}
use tonghuashun.Dict.Keyed
use tonghuashun.Models.{TaskRecord, TaskStatus, status_eq}
use tonghuashun.Queue.{Lease, is_active, task_active}
use tonghuashun.Queue.Claim.{waits}
use tonghuashun.Queue.Claim.Order.{waits-Waits}
use tonghuashun.Redis.{RedisStore, Server, Reply, nil, payload, live_lease, set_task, count_up}
use tonghuashun.Redis.Claim.{
  runs_for, started, start_bound, claim_leased, pop_waiting, start_popped, claim_script,
  next_runnable,
}
use tonghuashun.Redis.Find.{get_task}
use tonghuashun.Redis.Retry.{
  requeued, retried, push_task, is_reserved, requeue_script, retry_script, unless_queued,
  requeue_reply, requeue_waiting, retry_failed,
}
use tonghuashun.Redis.Refines.Waiting.{pop_waiting-waits}
use tonghuashun.Redis.Counter.{IsCounted, same-IsCounted, kept-IsCounted, up-IsCounted}
use tonghuashun.Redis.Counter.Steps.{same-ensure_active_count, trim_events-IsCounted}

module _ (d : ℕ) (now : Server) where
  -- A payload that is written anew with an active status where it had one.
  active-IsCounted :
      (id : String) (old new : TaskRecord) (s s' : RedisStore)
      → get id s.payloads ≡ some old
      → task_active old ≡ true
      → task_active new ≡ true
      → new.task_id ≡ old.task_id
      → s'.payloads ≡ put id new s.payloads
      → s'.active ≡ s.active
      → IsCounted d s
      → IsCounted d s'
  active-IsCounted id old new s s' e a b i p q h =
      kept-IsCounted d s s' id new (ap (weight task_active) e ∙ rw (a, b) refl)
        (i ∙ Keyed.get-key (λ t. t.task_id) id s.payloads old h.keyed e) p q h

  queued_active :
      (t : TaskRecord) → status_eq t.status TaskStatus.queued ≡ true → task_active t ≡ true
  unfolding task_active
  queued_active t e = ground arith

  runs_for-queued :
      (id digest : String) (t : TaskRecord)
      → runs_for id digest t ≡ true
      → status_eq t.status TaskStatus.queued ≡ true
  unfolding runs_for
  runs_for-queued id digest t r = ground arith

  start_bound-IsCounted :
      (id digest : String) (task : TaskRecord) (s : RedisStore)
      → get id s.payloads ≡ some task
      → IsCounted d s
      → IsCounted d (start_bound now id digest task s).1
  unfolding start_bound started set_task task_active
  start_bound-IsCounted id digest task s e h = elim (Bool-cases (runs_for id digest task)) [
    | inl r ↦ rw r (
        active-IsCounted id task (started now task) s _ e
          (queued_active task (runs_for-queued id digest task r)) refl refl refl refl h)
    | inr r ↦ rw r h
  ]

  claim_leased-IsCounted :
      (l : Lease) (s : RedisStore) → IsCounted d s → IsCounted d (claim_leased now l s).1
  unfolding claim_leased
  claim_leased-IsCounted l s h = elim (Option-cases l.bound_task_id) [
    | inl e ↦ rw (e, claim_leased) h
    | inr (id, e) ↦ elim (Option-cases l.owner_digest) [
      | inl f ↦ rw (e, claim_leased, f) h
      | inr (digest, f) ↦ elim (Option-cases (get id s.payloads)) [
        | inl g ↦ rw (e, claim_leased, f, g) h
        | inr (task, g) ↦ rw (e, claim_leased, f, g) (start_bound-IsCounted id digest task s g h)
      ]
    ]
  ]

  start_popped-IsCounted :
      (r : Option String × List String) (s : RedisStore)
      → ((id : String) → r.0 ≡ some id → waits s.payloads id ≡ true)
      → IsCounted d s
      → IsCounted d (start_popped now r s).1
  unfolding start_popped started set_task task_active
  start_popped-IsCounted (none, queue) s w h = same-IsCounted d s _ refl refl h
  start_popped-IsCounted (some id, queue) s w h =
      let found = waits-Waits s.payloads id (w id refl) in
      rw (found.found, start_popped)
        (active-IsCounted id found.task (started now found.task) s _ found.found
          (ap is_active found.queued) refl refl refl refl h)

  claim_script-IsCounted : (s : RedisStore) → IsCounted d s → IsCounted d (claim_script now s).1
  unfolding claim_script
  claim_script-IsCounted s h = elim (Option-cases (live_lease now s)) [
    | inl e ↦
        rw (e, claim_script)
          (start_popped-IsCounted (pop_waiting s.payloads s.queue) s
            (pop_waiting-waits s.payloads s.queue) h)
    | inr (l, e) ↦ rw (e, claim_script) (claim_leased-IsCounted l s h)
  ]

  pub next_runnable-IsCounted :
      (s : RedisStore) → IsCounted d s → IsCounted d (next_runnable now s).1
  unfolding next_runnable
  next_runnable-IsCounted s h =
      trim_events-IsCounted d now (claim_script now s).1 (claim_script-IsCounted s h)

  waiting_active :
      (t : TaskRecord) → status_eq t.status TaskStatus.waiting_admin ≡ true → task_active t ≡ true
  unfolding task_active
  waiting_active t e = ground arith

  failed_inactive :
      (t : TaskRecord) → status_eq t.status TaskStatus.failed ≡ true → task_active t ≡ false
  unfolding task_active
  failed_inactive t e = ground arith

  requeue_script-IsCounted :
      (id : String) (s : RedisStore) → IsCounted d s → IsCounted d (requeue_script now id s).1
  unfolding requeue_script requeued push_task set_task task_active
  requeue_script-IsCounted id s h = elim (Option-cases (get id s.payloads)) [
    | inl e ↦ rw (e, requeue_script) h
    | inr (task, e) ↦ elim (Bool-cases (is_reserved now id task s)) [
      | inl r ↦ rw (e, r, requeue_script) h
      | inr r ↦ elim (Bool-cases (status_eq task.status TaskStatus.waiting_admin)) [
        | inl w ↦
            rw (e, requeue_script, r, w)
              (active-IsCounted id task (requeued now task) s _ e (waiting_active task w) refl refl
                refl refl h)
        | inr w ↦ rw (e, requeue_script, r, w) h
      ]
    ]
  ]

  retry_script-IsCounted :
      (id : String) (s : RedisStore) → IsCounted d s → IsCounted d (retry_script now id s).1
  unfolding retry_script retried push_task set_task count_up task_active
  retry_script-IsCounted id s h = elim (Option-cases (get id s.payloads)) [
    | inl e ↦ rw (e, retry_script) h
    | inr (task, e) ↦ elim (Bool-cases (is_reserved now id task s)) [
      | inl r ↦ rw (e, retry_script, r) h
      | inr r ↦ elim (Bool-cases (status_eq task.status TaskStatus.queued)) [
        | inl q ↦ rw (e, retry_script, r, q) h
        | inr q ↦ elim (Bool-cases (status_eq task.status TaskStatus.failed)) [
          | inr f ↦ rw (e, retry_script, r, q, f) h
          | inl f ↦
              rw (e, retry_script, r, q, f)
                (up-IsCounted d s _ id (retried now task)
                  (ap (weight task_active) e ∙ rw (failed_inactive task f) refl) refl
                  (Keyed.get-key (λ t. t.task_id) id s.payloads task h.keyed e) refl refl h)
        ]
      ]
    ]
  ]

  unless_queued-IsCounted :
      (id : String) (s : RedisStore) → IsCounted d s → IsCounted d (unless_queued id s).1
  unfolding unless_queued
  unless_queued-IsCounted id s h = elim (Option-cases (get_task id s)) [
    | inl e ↦ rw (e, unless_queued) h
    | inr (task, e) ↦ elim (Bool-cases (status_eq task.status TaskStatus.queued)) [
      | inl q ↦ rw (e, unless_queued, q) h
      | inr q ↦ rw (e, unless_queued, q) h
    ]
  ]

  requeue_reply-IsCounted :
      (id : String) (r : Reply × RedisStore)
      → IsCounted d r.1
      → IsCounted d (requeue_reply now id r).1
  unfolding requeue_reply
  requeue_reply-IsCounted id (nil, s) h = unless_queued-IsCounted id s h
  requeue_reply-IsCounted id (Reply.queue_full, s) h = unless_queued-IsCounted id s h
  requeue_reply-IsCounted id (Reply.maintenance, s) h = h
  requeue_reply-IsCounted id (payload t, s) h = trim_events-IsCounted d now s h

  pub requeue_waiting-IsCounted :
      (id : String) (s : RedisStore) → IsCounted d s → IsCounted d (requeue_waiting now id s).1
  unfolding requeue_waiting
  requeue_waiting-IsCounted id s h =
      requeue_reply-IsCounted id (requeue_script now id s) (requeue_script-IsCounted id s h)

  pub retry_failed-IsCounted :
      (id : String) (s : RedisStore) → IsCounted d s → IsCounted d (retry_failed now id s).1
  unfolding retry_failed
  retry_failed-IsCounted id s h =
      rw (same-ensure_active_count d s h)
        (requeue_reply-IsCounted id (retry_script now id s) (retry_script-IsCounted id s h))
