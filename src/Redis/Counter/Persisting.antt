-- ===== src/Redis/Counter/Persisting.antt =====
-- level2_service/queue.py: the counter of `RedisStreamsStore` where a result is recorded.
use tonghuashun.Base.{
  ℕ, ◌≡◌, refl, sym, ◌∙◌, ap, subst, String, Bool, true, false, not, Option, some, List, arith,
  Bool-cases, Option-cases, inl, inr, nat_eq, if◌then◌else◌,
}
use tonghuashun.Dict.{get, put-put}
use tonghuashun.Dict.Counting.{weight}
use tonghuashun.Dict.Keyed
use tonghuashun.Models.{TaskRecord, TaskStatus, CaptureKind, SourceErrors, status_eq}
use tonghuashun.Queue.{Clocks, Result, is_active, task_active}
use tonghuashun.Queue.Keyed.{IsKeyed}
use tonghuashun.Queue.Results.{
  Outcome, allowed, moved_task, accepts, captured_task, taken_task, ready_count, wrong_path,
  resulted_task, concluded, with_values, with_long_capture, snapshot_task,
}
use tonghuashun.Redis.{RedisStore, Server, set_task, xadd, count_change, count_up, trim_events}
use tonghuashun.Redis.Find.{get_task, resolve_task_id}
use tonghuashun.Redis.Results.{
  persist_script, persist, with_task, transition, complete_capture, complete_result,
  complete_market_snapshot, utc_clock,
}
use tonghuashun.Redis.Counter.{IsCounted, kept-IsCounted, up-IsCounted, down-IsCounted}

-- The task that `get` finds is the payload under its own id.
pub get_task-found :
    (id : String) (task : TaskRecord) (s : RedisStore)
    → IsKeyed s.payloads
    → get_task id s ≡ some task
    → get task.task_id s.payloads ≡ some task
unfolding get_task
get_task-found id task s k e = elim (Option-cases (resolve_task_id id s)) [
  | inl r ↦ absurd (ground arith)
  | inr (key, r) ↦
      let found : get key s.payloads ≡ some task = rw (r, get_task) at e in
      subst (λ i. get i s.payloads ≡ some task)
        (sym (Keyed.get-key (λ t. t.task_id) key s.payloads task k found)) found
]

-- An event that is not written leaves the store as it was.
pub persist_script-unwritten :
    (now : Server) (previous task : TaskRecord) (s : RedisStore)
    → get task.task_id s.payloads ≡ some previous
    → now.writes_event ≡ false
    → persist_script now previous task s ≡ (false, s)
unfolding persist_script
persist_script-unwritten now previous task s e w =
    rw (w, put-put task.task_id previous task s.payloads e) refl

pub captured_task-id :
    (clocks : Clocks) (kind : CaptureKind) (path : String) (task : TaskRecord)
    → (captured_task clocks kind path task).task_id ≡ task.task_id
unfolding captured_task taken_task
captured_task-id clocks kind path task =
    elim (Bool-cases (nat_eq (ready_count (taken_task clocks kind path task)) 3)) [
      | inl e ↦ rw e refl
      | inr e ↦ rw e refl
    ]

pub resulted_task-id :
    (clocks : Clocks) (o : Outcome) (task : TaskRecord)
    → (resulted_task clocks o task).task_id ≡ task.task_id
unfolding resulted_task concluded with_values with_long_capture
resulted_task-id clocks o task = elim (Option-cases o.path) [
  | inl e ↦ rw e refl
  | inr (p, e) ↦ rw e refl
]

module _ (d : ℕ) (now : Server) where
  written-IsCounted :
      (previous task : TaskRecord) (s : RedisStore)
      → get task.task_id s.payloads ≡ some previous
      → IsCounted d s
      → IsCounted d (
          count_change
            (is_active previous.status)
            (is_active task.status)
            (trim_events now (set_task task.task_id task s)))
  unfolding count_change count_up trim_events set_task xadd task_active
  written-IsCounted previous task s e h = elim (Bool-cases (is_active previous.status)) [
    | inl a ↦ elim (Bool-cases (is_active task.status)) [
      | inl b ↦
          rw (a, b)
            (kept-IsCounted d s _ task.task_id task (ap (weight task_active) e ∙ rw (a, b) refl)
              refl refl refl h)
      | inr b ↦
          rw (a, b)
            (down-IsCounted d s _ task.task_id task (ap (weight task_active) e ∙ rw a refl) b refl
              refl refl h)
    ]
    | inr a ↦ elim (Bool-cases (is_active task.status)) [
      | inl b ↦
          rw (a, b)
            (up-IsCounted d s _ task.task_id task (ap (weight task_active) e ∙ rw a refl) b refl
              refl refl h)
      | inr b ↦
          rw (a, b)
            (kept-IsCounted d s _ task.task_id task (ap (weight task_active) e ∙ rw (a, b) refl)
              refl refl refl h)
    ]
  ]

  persist-IsCounted :
      (previous task : TaskRecord) (s : RedisStore)
      → get task.task_id s.payloads ≡ some previous
      → IsCounted d s
      → IsCounted d (persist now previous task s).1
  unfolding persist persist_script
  persist-IsCounted previous task s e h = elim (Bool-cases now.writes_event) [
    | inl w ↦ rw w (written-IsCounted previous task s e h)
    | inr w ↦ rw (persist_script-unwritten now previous task s e w) h
  ]

  -- What every operation that reads its task does.
  with_task-IsCounted :
      (id : String) (f : TaskRecord → Result TaskRecord × RedisStore) (s : RedisStore)
      → ((task : TaskRecord) → get task.task_id s.payloads ≡ some task → IsCounted d (f task).1)
      → IsCounted d s
      → IsCounted d (with_task id f s).1
  unfolding with_task
  with_task-IsCounted id f s step h = elim (Option-cases (get_task id s)) [
    | inl e ↦ rw (e, with_task) h
    | inr (task, e) ↦ rw (e, with_task) (step task (get_task-found id task s h.keyed e))
  ]

  -- A refusal leaves the store as it is.
  unless-IsCounted :
      (b : Bool) (e : Result TaskRecord) (r : Result TaskRecord × RedisStore) (s : RedisStore)
      → IsCounted d s
      → IsCounted d r.1
      → IsCounted d (if b then (e, s) else r).1
  unless-IsCounted true e r s h k = h
  unless-IsCounted false e r s h k = k

  pub transition-IsCounted :
      (id : String) (status : TaskStatus) (code : Option String) (errors : Option SourceErrors)
      (s : RedisStore)
      → IsCounted d s
      → IsCounted d (transition now id status code errors s).1
  unfolding transition moved_task
  transition-IsCounted id status code errors s h =
      with_task-IsCounted id _ s
        (λ task e.
          unless-IsCounted (not (allowed task.status status)) _ _ s h
            (persist-IsCounted task (moved_task (utc_clock now) status code errors task) s e h))
        h

  pub complete_capture-IsCounted :
      (id : String) (kind : CaptureKind) (path : String) (s : RedisStore)
      → IsCounted d s
      → IsCounted d (complete_capture now id kind path s).1
  unfolding complete_capture
  complete_capture-IsCounted id kind path s h =
      with_task-IsCounted id _ s
        (λ task e. unless-IsCounted (not (accepts task.status)) _ _ s h (
          persist-IsCounted task (captured_task (utc_clock now) kind path task) s
            (ap (λ i. get i s.payloads) (captured_task-id (utc_clock now) kind path task) ∙ e) h))
        h

  pub complete_result-IsCounted :
      (id : String) (o : Outcome) (s : RedisStore)
      → IsCounted d s
      → IsCounted d (complete_result now id o s).1
  unfolding complete_result
  complete_result-IsCounted id o s h =
      with_task-IsCounted id _ s
        (λ task e. unless-IsCounted (not (accepts task.status)) _ _ s h (
          unless-IsCounted (wrong_path task.include_long_capture o.path) _ _ s h (
            persist-IsCounted task (resulted_task (utc_clock now) o task) s
              (ap (λ i. get i s.payloads) (resulted_task-id (utc_clock now) o task) ∙ e) h)))
        h

  pub complete_market_snapshot-IsCounted :
      (id : String) (snapshot : List (String × String)) (s : RedisStore)
      → IsCounted d s
      → IsCounted d (complete_market_snapshot now id snapshot s).1
  unfolding complete_market_snapshot snapshot_task
  complete_market_snapshot-IsCounted id snapshot s h =
      with_task-IsCounted id _ s
        (λ task e.
          unless-IsCounted (not (status_eq task.status TaskStatus.running)) _ _ s h
            (persist-IsCounted task (snapshot_task (utc_clock now) snapshot task) s e h))
        h
