-- ===== src/Redis/Counter/Restarts.antt =====
-- level2_service/queue.py: the counter of `RedisStreamsStore` where finished tasks start again and
-- where running tasks are recovered.
use tonghuashun.Base.{
  ℕ, ◌≡◌, refl, sym, ◌∙◌, ap, String, Bool, true, ◌||◌, Option, none, some, List, [], ◌∷◌, arith,
  Bool-cases, Option-cases, inl, inr, All, ◌==◌,
}
use tonghuashun.Dict.{Dict, get, put, get-put}
use tonghuashun.Dict.Counting.{weight}
use tonghuashun.Dict.Keyed
use tonghuashun.Models.{TaskRecord}
use tonghuashun.Queue.{is_active, is_refreshable, task_active, opt_eq, has_maintenance_metadata}
use tonghuashun.Queue.Keyed.{IsKeyed}
use tonghuashun.Queue.Recover.{is_running, recover_task}
use tonghuashun.Queue.Submit.{reset_task}
use tonghuashun.Redis.{
  RedisStore, Server, Reply, nil, payload, live_lease, bound_id, set_task, count_up, trim_events,
}
use tonghuashun.Redis.Submit.{refresh_script, full}
use tonghuashun.Redis.Find.{get_task, resolve_task_id, follow_alias}
use tonghuashun.Redis.Retry.{
  is_maintenance_task, refresh_reply, refresh_found, refresh_task, service_clock,
}
use tonghuashun.Redis.Recover.{
  running_members, starts_before, insert_entry, sort_entries, recover_entries, push_front,
  recover_running,
}
use tonghuashun.Redis.Counter.{IsCounted, same-IsCounted, kept-IsCounted, up-IsCounted}
use tonghuashun.Redis.Counter.Steps.{same-ensure_active_count, trim_events-IsCounted}

-- An id that is no alias stands for itself.
pub resolve_task_id_self :
    (id : String) (s : RedisStore) → get id s.aliases ≡ none → resolve_task_id id s ≡ some id
unfolding resolve_task_id follow_alias
resolve_task_id_self id s e = rw (e, resolve_task_id, follow_alias) refl

pub get_task_self :
    (id : String) (s : RedisStore) → get id s.aliases ≡ none → get_task id s ≡ get id s.payloads
unfolding get_task
get_task_self id s e = rw (get_task, resolve_task_id_self id s e) refl

module _ (d : ℕ) (now : Server) where
  refresh_script-IsCounted :
      (id : String) (candidate : TaskRecord) (s : RedisStore)
      → candidate.task_id ≡ id
      → task_active candidate ≡ true
      → IsCounted d s
      → IsCounted d (refresh_script now id candidate s).1
  unfolding refresh_script set_task count_up task_active
  refresh_script-IsCounted id candidate s i a h = elim (Option-cases (get id s.payloads)) [
    | inl e ↦ rw (e, refresh_script) h
    | inr (current, e) ↦
        elim (Bool-cases
          (has_maintenance_metadata current || opt_eq (bound_id (live_lease now s)) id)) [
            | inl m ↦ rw (e, refresh_script, m) h
            | inr m ↦ elim (Bool-cases (is_active current.status)) [
              | inl q ↦ rw (e, refresh_script, m, q) h
              | inr q ↦ elim (Bool-cases (is_refreshable current.status)) [
                | inr r ↦ rw (e, refresh_script, m, q, r) h
                | inl r ↦ elim (Bool-cases (full s)) [
                  | inl f ↦ rw (e, refresh_script, m, q, r, f) h
                  | inr f ↦
                      rw (e, refresh_script, m, q, r, f)
                        (up-IsCounted d s _ id candidate (ap (weight task_active) e ∙ rw q refl) a i
                          refl refl h)
                ]
              ]
            ]
          ]
  ]

  refresh_reply-IsCounted :
      (id : String) (r : Reply × RedisStore)
      → IsCounted d r.1
      → IsCounted d (refresh_reply now id r).1
  unfolding refresh_reply
  refresh_reply-IsCounted id (Reply.queue_full, s) h = h
  refresh_reply-IsCounted id (Reply.maintenance, s) h = h
  refresh_reply-IsCounted id (payload t, s) h = trim_events-IsCounted d now s h
  refresh_reply-IsCounted id (nil, s) h = elim (Option-cases (get_task id s)) [
    | inl e ↦ rw (e, refresh_reply) h
    | inr (task, e) ↦ elim (Bool-cases (is_active task.status)) [
      | inl a ↦ rw (e, refresh_reply, a) h
      | inr a ↦ rw (e, refresh_reply, a) h
    ]
  ]

  refresh_found-IsCounted :
      (id : String) (flag : Option Bool) (task : TaskRecord) (s : RedisStore)
      → task.task_id ≡ id
      → IsCounted d s
      → IsCounted d (refresh_found now id flag task s).1
  unfolding refresh_found reset_task task_active
  refresh_found-IsCounted id flag task s i h = elim (Bool-cases (is_maintenance_task now task s)) [
    | inl m ↦ rw m h
    | inr m ↦ elim (Bool-cases (is_active task.status)) [
      | inl a ↦ rw (m, a) h
      | inr a ↦ elim (Bool-cases (is_refreshable task.status)) [
        | inr r ↦ rw (m, a, r) h
        | inl r ↦
            let candidate = reset_task (service_clock now) flag task in
            rw (m, a, r, same-ensure_active_count d s h)
              (refresh_reply-IsCounted id (refresh_script now id candidate s)
                (refresh_script-IsCounted id candidate s i refl h))
      ]
    ]
  ]

  -- The name of the task leads to an id that is no alias.
  pub refresh_task-IsCounted :
      (task_id : String) (flag : Option Bool) (s : RedisStore)
      → ((id : String) → resolve_task_id task_id s ≡ some id → get id s.aliases ≡ none)
      → IsCounted d s
      → IsCounted d (refresh_task now task_id flag s).1
  unfolding refresh_task
  refresh_task-IsCounted task_id flag s free h = elim (Option-cases (resolve_task_id task_id s)) [
    | inl e ↦ rw (e, refresh_task) h
    | inr (id, e) ↦ elim (Option-cases (get_task id s)) [
      | inl f ↦ rw (e, refresh_task, f) h
      | inr (task, f) ↦
          rw (e, refresh_task, f)
            (refresh_found-IsCounted id flag task s
              (Keyed.get-key (λ t. t.task_id) id s.payloads task h.keyed
                (sym (get_task_self id s (free id e)) ∙ f))
              h)
    ]
  ]

-- An entry of the loop over the recovered tasks: an active payload, with its own id.
abbrev IsEntry : Dict TaskRecord → String × TaskRecord → Type 0
IsEntry payloads (id, t) = (weight task_active (get id payloads) ≡ 1) × (t.task_id ≡ id)

running_members-IsEntry :
    (payloads : Dict TaskRecord) (ids : List String)
    → IsKeyed payloads
    → All (IsEntry payloads) (running_members payloads ids)
unfolding running_members is_running task_active
running_members-IsEntry payloads [] k = tt
running_members-IsEntry payloads (id ∷ ids) k =
    let rest = running_members-IsEntry payloads ids k in
    elim (Option-cases (get id payloads)) [
      | inl e ↦ rw (e, running_members) rest
      | inr (t, e) ↦ elim (Bool-cases (is_running t)) [
        | inr r ↦ rw (e, running_members, r) rest
        | inl r ↦
            rw (e, running_members, r)
              ((ground arith, Keyed.get-key (λ t. t.task_id) id payloads t k e), rest)
      ]
    ]

module _ {κ} (P : String × TaskRecord → Type κ) where
  insert_entry-All :
      (e : String × TaskRecord) (es : List (String × TaskRecord))
      → P e
      → All P es
      → All P (insert_entry e es)
  unfolding insert_entry
  insert_entry-All e [] p h = (p, tt)
  insert_entry-All e (x ∷ xs) p h = elim (Bool-cases (starts_before x e)) [
    | inl b ↦ rw b (h.0, insert_entry-All e xs p h.1)
    | inr b ↦ rw b (p, h)
  ]

  pub sort_entries-All : (es : List (String × TaskRecord)) → All P es → All P (sort_entries es)
  unfolding sort_entries
  sort_entries-All [] h = tt
  sort_entries-All (e ∷ es) h = insert_entry-All e (sort_entries es) h.0 (sort_entries-All es h.1)

module _ (d : ℕ) (now : Server) where
  IsEntry-put :
      (id : String) (t : TaskRecord) (payloads : Dict TaskRecord) (es : List (String × TaskRecord))
      → task_active t ≡ true
      → All (IsEntry payloads) es
      → All (IsEntry (put id t payloads)) es
  IsEntry-put id t payloads [] a h = tt
  IsEntry-put id t payloads ((i, u) ∷ es) a h =
      let same : weight task_active (get i (put id t payloads)) ≡ 1 =
        rw (get-put id i t payloads)
          (elim (Bool-cases (id == i)) [ inl e ↦ rw (e, a) refl | inr e ↦ rw e h.0.0 ]) in
      ((same, h.0.1), IsEntry-put id t payloads es a h.1)

  recover_entries-IsCounted :
      (es : List (String × TaskRecord)) (s : RedisStore)
      → All (IsEntry s.payloads) es
      → IsCounted d s
      → IsCounted d (recover_entries now es s).1
  unfolding recover_entries recover_task set_task task_active
  recover_entries-IsCounted [] s a h = h
  recover_entries-IsCounted ((id, t) ∷ es) s a h =
      recover_entries-IsCounted es (set_task id (recover_task now.utc t) s)
        (IsEntry-put id (recover_task now.utc t) s.payloads es refl a.1)
        (kept-IsCounted d s _ id (recover_task now.utc t) a.0.0 a.0.1 refl refl h)

  pub recover_running-IsCounted :
      (s : RedisStore) → IsCounted d s → IsCounted d (recover_running now s).1
  unfolding recover_running push_front trim_events
  recover_running-IsCounted s h = same-IsCounted d _ _ refl refl (
      recover_entries-IsCounted (sort_entries (running_members s.payloads s.index)) s
        (sort_entries-All (IsEntry s.payloads) (running_members s.payloads s.index)
          (running_members-IsEntry s.payloads s.index h.keyed))
        h)
