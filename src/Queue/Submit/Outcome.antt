-- ===== src/Queue/Submit/Outcome.antt =====
-- level2_service/queue.py: what a successful submission leaves in `InMemoryStreams`.
use tonghuashun.Base.{
  String, ◌≡◌, refl, Bool, true, false, Option, none, some, arith, ◌==◌, eq_iff, eq_refl, All-keep,
  if◌then◌else◌, Bool-cases, inl, inr,
}
use tonghuashun.Dict.{Dict, get, values, get-put}
use tonghuashun.Models.{TaskRecord}
use tonghuashun.Queue.{
  Streams, Platform, Clocks, Result, ok, is_active, has_maintenance_metadata, bound_of,
  active_lease, store_task,
}
use tonghuashun.Queue.Keyed.{IsKeyed, get-values, canonical_task-All}
use tonghuashun.Queue.Submit.{
  is_candidate, find_by_symbol, reset_task, enqueue_locked, refresh_locked, submit_found,
  submit_or_refresh,
}
use tonghuashun.Queue.Submit.Capacity.{tasks-active_lease}

-- A task that `find_by_symbol` may return: it stands under its id and passes the test.
abbrev pub IsFound : String → Option String → Dict TaskRecord → TaskRecord → Type 0
IsFound symbol bound tasks t = (get t.task_id tasks ≡ some t) × (is_candidate symbol bound t ≡ true)

pub find_by_symbol-IsFound :
    (symbol : String) (now : Clocks) (s : Streams) (t : TaskRecord)
    → IsKeyed s.tasks
    → (find_by_symbol symbol now s).0 ≡ some t
    → IsFound symbol (bound_of (active_lease now s).0) s.tasks t
unfolding find_by_symbol
find_by_symbol-IsFound symbol now s t h e =
    canonical_task-All (IsFound symbol (bound_of (active_lease now s).0) s.tasks) _
      (All-keep (λ c. get c.task_id s.tasks ≡ some c) _ (values (active_lease now s).1.tasks)
        (rw tasks-active_lease (get-values s.tasks h)))
      e

pub tasks-find :
    (symbol : String) (now : Clocks) (s : Streams) → (find_by_symbol symbol now s).1.tasks ≡ s.tasks
unfolding find_by_symbol
tasks-find symbol now s = tasks-active_lease now s

-- The task that a successful call returns is active, has the symbol, and is in the store.
abbrev pub IsPlaced : String → Result TaskRecord × Streams → Type 0
IsPlaced symbol r =
    (t : TaskRecord)
    → r.0 ≡ ok t
    → (get t.task_id r.1.tasks ≡ some t) × (t.symbol ≡ symbol) × (is_active t.status ≡ true)

pub get-store_task :
    (key j : String) (task : TaskRecord) (s : Streams)
    → get j (store_task key task s).tasks ≡ (if key == j then some task else get j s.tasks)
unfolding store_task
get-store_task key j task s = get-put key j task s.tasks

enqueue_locked-IsPlaced :
    (task : TaskRecord) (s : Streams)
    → is_active task.status ≡ true
    → IsPlaced task.symbol (enqueue_locked false task s)
unfolding enqueue_locked store_task
enqueue_locked-IsPlaced task s a t e =
    ground (arith, get-put task.task_id task.task_id task s.tasks, eq_refl task.task_id)

refresh_locked-IsPlaced :
    (os : Platform) (now : Clocks) (task : TaskRecord) (flag : Option Bool) (s : Streams)
    → get task.task_id s.tasks ≡ some task
    → IsPlaced task.symbol (refresh_locked os now task flag s)
unfolding refresh_locked reset_task store_task
refresh_locked-IsPlaced os now task flag s g t e = ground (
  arith,
  get-put task.task_id task.task_id (reset_task now flag task) s.tasks,
  eq_refl task.task_id,
)

submit_found-IsPlaced :
    (os : Platform) (now : Clocks) (task : TaskRecord) (bound : Option String)
    (found : Option TaskRecord) (s : Streams)
    → is_active task.status ≡ true
    → ((old : TaskRecord) → found ≡ some old → IsFound task.symbol bound s.tasks old)
    → IsPlaced task.symbol (submit_found os now task (found, s))
unfolding submit_found is_candidate
submit_found-IsPlaced os now task bound none s a h t e = enqueue_locked-IsPlaced task s a t e
submit_found-IsPlaced os now task bound (some old) s a h t e =
    let (stored, fits) = h old refl in
    ground (
      arith,
      fits,
      stored,
      eq_iff old.symbol task.symbol,
      refresh_locked-IsPlaced os now old (some task.include_long_capture) s stored t,
    )

-- A submission that succeeds returns a task for the submitted symbol that is queued, running or
-- waiting, and that stands in the store under its id; the submitted task is itself such an active
-- task, and each task of the store stands under its own id.
pub submit_or_refresh-IsPlaced :
    (os : Platform) (now : Clocks) (task : TaskRecord) (s : Streams)
    → IsKeyed s.tasks
    → is_active task.status ≡ true
    → (t : TaskRecord) → (submit_or_refresh os now task s).0 ≡ ok t
    → (get t.task_id (submit_or_refresh os now task s).1.tasks ≡ some t)
      × (t.symbol ≡ task.symbol)
      × (is_active t.status ≡ true)
unfolding submit_or_refresh
submit_or_refresh-IsPlaced os now task s h a t e =
    elim (Bool-cases (has_maintenance_metadata task)) [
      | inl m ↦ absurd (ground arith)
      | inr m ↦ rw m (
          submit_found-IsPlaced os now task (bound_of (active_lease now s).0)
            (find_by_symbol task.symbol now s).0 (find_by_symbol task.symbol now s).1 a
            (λ old found. rw tasks-find (find_by_symbol-IsFound task.symbol now s old h found)) t
            (rw m at e))
    ]
