-- ===== src/Queue/Submit/Unique.antt =====
-- level2_service/queue.py: submissions and the number of ordinary tasks for a symbol.
use tonghuashun.Base.{
  String, ◌≤◌, ◌≡◌, refl, Bool, true, false, ◌&&◌, not, Option, none, some, List, [], ◌∷◌, arith,
  ◌==◌, eq_iff, All, keep, leb, Bool-cases, Option-cases, inl, inr,
}
use tonghuashun.Dict.{Dict, get, values}
use tonghuashun.Dict.Counting.{count_values, count-put}
use tonghuashun.Models.{TaskRecord}
use tonghuashun.Queue.{
  Streams, Platform, Clocks, has_maintenance_metadata, bound_of, opt_eq, active_lease, store_task,
}
use tonghuashun.Queue.Canonical.{canonical_task}
use tonghuashun.Queue.Keyed.{IsKeyed}
use tonghuashun.Queue.Submit.{
  is_candidate, find_by_symbol, reset_task, enqueue_locked, refresh_locked, submit_found,
  submit_or_refresh,
}
use tonghuashun.Queue.Submit.Capacity.{tasks-active_lease}
use tonghuashun.Queue.Submit.Outcome.{find_by_symbol-IsFound, tasks-find}

-- A task of the symbol without maintenance fields.
unfoldable pub is_ordinary : String → TaskRecord → Bool
unfolding has_maintenance_metadata
is_ordinary symbol t = t.symbol == symbol && not (has_maintenance_metadata t)

-- No symbol has two ordinary tasks.
abbrev pub IsUnique : Streams → Type 0
IsUnique s = (symbol : String) → count_values (is_ordinary symbol) s.tasks ≤ 1

-- The task that a lease binds carries maintenance fields.
abbrev pub IsMarked : Option String → Dict TaskRecord → Type 0
IsMarked bound tasks =
    All (λ t. opt_eq bound t.task_id ≡ true → has_maintenance_metadata t ≡ true) (values tasks)

pub none-IsMarked : (tasks : Dict TaskRecord) → IsMarked none tasks
none-IsMarked [] = tt
none-IsMarked ((j, t) ∷ d) = (ground arith, none-IsMarked d)

no_candidates : (ts : List TaskRecord) → canonical_task ts ≡ none → ts ≡ []
unfolding canonical_task
no_candidates [] e = refl
no_candidates (t ∷ ts) e = absurd (ground arith)

-- Where no task is found, no ordinary task has the symbol.
count-zero :
    (symbol : String) (bound : Option String) (d : Dict TaskRecord)
    → IsMarked bound d
    → keep (is_candidate symbol bound) (values d) ≡ []
    → count_values (is_ordinary symbol) d ≡ 0
unfolding is_candidate is_ordinary
count-zero symbol bound [] m e = refl
count-zero symbol bound ((j, t) ∷ d) m e = ground (arith, m.0, count-zero symbol bound d m.1)

enqueue_locked-IsUnique :
    (task : TaskRecord) (s : Streams)
    → count_values (is_ordinary task.symbol) s.tasks ≡ 0
    → IsUnique s
    → IsUnique (enqueue_locked false task s).1
unfolding enqueue_locked store_task is_ordinary
enqueue_locked-IsUnique task s z u symbol = ground (
  arith,
  z,
  u symbol,
  eq_iff task.symbol symbol,
  count-put (is_ordinary symbol) task.task_id task s.tasks,
)

refresh_locked-IsUnique :
    (os : Platform) (now : Clocks) (task : TaskRecord) (flag : Option Bool) (s : Streams)
    → get task.task_id s.tasks ≡ some task
    → IsUnique s
    → IsUnique (refresh_locked os now task flag s).1
unfolding refresh_locked store_task reset_task is_ordinary
refresh_locked-IsUnique os now task flag s g u symbol = ground (
  arith,
  g,
  u symbol,
  count-put (is_ordinary symbol) task.task_id (reset_task now flag task) s.tasks,
)

active_lease-IsMarked :
    (now : Clocks) (s : Streams)
    → IsMarked (bound_of s.lease) s.tasks
    → IsMarked (bound_of (active_lease now s).0) s.tasks
unfolding active_lease
active_lease-IsMarked now s m = elim (Option-cases s.lease) [
  | inl e ↦ rw e (none-IsMarked s.tasks)
  | inr (l, e) ↦ elim (Bool-cases (leb l.expires_at now.lease)) [
    | inl out ↦ rw (e, out) (none-IsMarked s.tasks)
    | inr still ↦ rw (e, still) (rw e at m)
  ]
]

submit_found-IsUnique :
    (os : Platform) (now : Clocks) (task : TaskRecord) (found : Option TaskRecord) (s : Streams)
    → IsUnique s
    → (found ≡ none → count_values (is_ordinary task.symbol) s.tasks ≡ 0)
    → ((old : TaskRecord) → found ≡ some old → get old.task_id s.tasks ≡ some old)
    → IsUnique (submit_found os now task (found, s)).1
unfolding submit_found
submit_found-IsUnique os now task none s u z g symbol =
    enqueue_locked-IsUnique task s (z refl) u symbol
submit_found-IsUnique os now task (some old) s u z g symbol = ground (
  arith,
  u symbol,
  refresh_locked-IsUnique os now old (some task.include_long_capture) s (g old refl) u symbol,
)

find-none :
    (symbol : String) (now : Clocks) (s : Streams)
    → IsMarked (bound_of s.lease) s.tasks
    → (find_by_symbol symbol now s).0 ≡ none
    → count_values (is_ordinary symbol) s.tasks ≡ 0
unfolding find_by_symbol
find-none symbol now s m e =
    count-zero symbol (bound_of (active_lease now s).0) s.tasks (active_lease-IsMarked now s m)
      (rw tasks-active_lease at (no_candidates _ e))

-- A submission never makes a second ordinary task for a symbol: if no symbol has two tasks without
-- maintenance fields, none has two afterwards, whatever the submitted task is. Each task stands
-- under its own id, and a task that the lease binds carries maintenance fields.
pub submit_or_refresh-IsUnique :
    (os : Platform) (now : Clocks) (task : TaskRecord) (s : Streams)
    → IsKeyed s.tasks
    → IsMarked (bound_of s.lease) s.tasks
    → IsUnique s
    → IsUnique (submit_or_refresh os now task s).1
unfolding submit_or_refresh
submit_or_refresh-IsUnique os now task s k m u = elim (Bool-cases (has_maintenance_metadata task)) [
  | inl e ↦ rw e u
  | inr e ↦ rw e (
      submit_found-IsUnique os now task (find_by_symbol task.symbol now s).0
        (find_by_symbol task.symbol now s).1 (rw tasks-find u)
        (λ n. rw tasks-find (find-none task.symbol now s m n))
        (λ old f. rw tasks-find (find_by_symbol-IsFound task.symbol now s old k f).0))
]
