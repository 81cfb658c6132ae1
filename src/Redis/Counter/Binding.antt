-- ===== src/Redis/Counter/Binding.antt =====
-- level2_service/queue.py: the counter of `RedisStreamsStore` where an acceptance task is bound.
use tonghuashun.Base.{
  ℕ, suc, ◌≡◌, refl, ◌∙◌, String, true, false, ◌||◌, not, none, some, arith, Bool-cases,
  Option-cases, inl, inr, ◌==◌, ℤ, pos, negsuc, Lags,
}
use tonghuashun.Dict.{get, put}
use tonghuashun.Dict.Counting.{count-put}
use tonghuashun.Models.{TaskRecord}
use tonghuashun.Queue.{Platform, Lease, task_active}
use tonghuashun.Queue.Claim.{valid_bound_acceptance}
use tonghuashun.Queue.Keyed.{put-IsKeyed}
use tonghuashun.Queue.Leases.{same_digest}
use tonghuashun.Queue.Maintenance.{valid_acceptance_task, mark_acceptance}
use tonghuashun.Redis.{RedisStore, Server, Reply, nil, payload, live_lease, set_task}
use tonghuashun.Redis.Binding.{
  is_candidate, full_by_count, bind_new, bind_held, bind_script, bound_reply,
  bind_deployment_acceptance,
}
use tonghuashun.Redis.Counter.{IsCounted, same-IsCounted, active_tasks}

suc-Lags : (d : ℕ) (i : ℤ) (n : ℕ) → Lags d i n → Lags (suc d) i (suc n)
suc-Lags d (pos m) n h = omega (arith, h)
suc-Lags d (negsuc m) n h = omega (arith, h)

-- An active payload under a new id that the counter does not see.
unseen-IsCounted :
    (d : ℕ) (k : String) (t : TaskRecord) (s s' : RedisStore)
    → get k s.payloads ≡ none
    → task_active t ≡ true
    → t.task_id ≡ k
    → s'.payloads ≡ put k t s.payloads
    → s'.active ≡ s.active
    → IsCounted d s
    → IsCounted (suc d) s'
unseen-IsCounted d k t s s' new q e p a h = record {
  counter = h.counter;
  held = a ∙ h.held;
  lags =
      (let n : active_tasks s' ≡ suc (active_tasks s) =
          rw p (ground (arith, count-put task_active k t s.payloads, new, q)) in
        rw n (suc-Lags d h.counter (active_tasks s) h.lags));
  keyed = rw p (put-IsKeyed k t s.payloads e h.keyed);
}

-- A reply with a task raises the lag.
abbrev RaisesLag : ℕ → String → Reply × RedisStore → Type 0
RaisesLag d digest r =
    (t : TaskRecord)
    → (bound_reply digest r).0 ≡ some t
    → IsCounted (suc d) (bound_reply digest r).1

module _ (d : ℕ) (digest : String) where
  nil-RaisesLag : (s : RedisStore) → RaisesLag d digest (nil, s)
  unfolding bound_reply
  nil-RaisesLag s t e = absurd (ground arith)

  full-RaisesLag : (s : RedisStore) → RaisesLag d digest (Reply.queue_full, s)
  unfolding bound_reply
  full-RaisesLag s t e = absurd (ground arith)

  payload-RaisesLag :
      (task : TaskRecord) (s : RedisStore)
      → IsCounted (suc d) s
      → RaisesLag d digest (payload task, s)
  unfolding bound_reply
  payload-RaisesLag task s h t e =
      elim (Bool-cases (valid_bound_acceptance task.task_id digest false task)) [
        | inl v ↦ rw v h
        | inr v ↦ absurd (ground arith)
      ]

  bind_new-RaisesLag :
      (l : Lease) (task : TaskRecord) (s : RedisStore)
      → task_active task ≡ true
      → IsCounted d s
      → RaisesLag d digest (bind_new l task s)
  unfolding bind_new set_task
  bind_new-RaisesLag l task s q h = elim (Option-cases (get task.task_id s.payloads)) [
    | inr (old, e) ↦ rw (bind_new, e) (nil-RaisesLag s)
    | inl e ↦ elim (Bool-cases (full_by_count s)) [
      | inl f ↦ rw (bind_new, e, f) (full-RaisesLag s)
      | inr f ↦
          rw (bind_new, e, f)
            (payload-RaisesLag task _
              (unseen-IsCounted d task.task_id task s _ e q refl refl refl h))
    ]
  ]

  bind_script-RaisesLag :
      (now : Server) (owner : String) (l : Lease) (task : TaskRecord) (s : RedisStore)
      → live_lease now s ≡ some l
      → l.bound_task_id ≡ none
      → task_active task ≡ true
      → IsCounted d s
      → RaisesLag d digest (bind_script now owner digest task s)
  unfolding bind_script bind_held
  bind_script-RaisesLag now owner l task s e u q h =
      elim (Bool-cases (
        not (l.owner_token == owner)
        || not (same_digest l.owner_digest digest)
        || not (is_candidate digest task))) [
          | inl r ↦ rw (bind_script, e, r) (nil-RaisesLag s)
          | inr r ↦
              rw (bind_script, e, r, bind_held, u)
                (bind_new-RaisesLag (record l { owner_digest = some digest; bound_task_id = none })
                  task _ q (same-IsCounted d s _ refl refl h))
        ]

module _ (os : Platform) where
  marked_active :
      (owner : String) (task : TaskRecord)
      → valid_acceptance_task task ≡ true
      → task_active (mark_acceptance os owner task) ≡ true
  unfolding valid_acceptance_task mark_acceptance task_active
  marked_active owner task v = ground arith

  -- Where a lease without a bound task takes an acceptance task, the counter falls behind the number
  -- of payloads with an active status by one more: the task is put into the queue, and the counter
  -- does not move.
  pub bind_deployment_acceptance-IsCounted :
      (d : ℕ) (now : Server) (owner : String) (l : Lease) (task bound : TaskRecord) (s : RedisStore)
      → live_lease now s ≡ some l
      → l.bound_task_id ≡ none
      → (bind_deployment_acceptance os now owner task s).0 ≡ some bound
      → IsCounted d s
      → IsCounted (suc d) (bind_deployment_acceptance os now owner task s).1
  unfolding bind_deployment_acceptance
  bind_deployment_acceptance-IsCounted d now owner l task bound s e u b h =
      elim (Bool-cases (valid_acceptance_task task)) [
        | inr v ↦ absurd (ground arith)
        | inl v ↦ rw v (
            bind_script-RaisesLag d (os.sha256_hex owner) now owner l
              (mark_acceptance os owner task) s e u (marked_active owner task v) h bound
              (rw v at b))
      ]
