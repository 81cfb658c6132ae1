-- ===== src/Redis/Refines/Sequences.antt =====
-- level2_service/queue.py: the same calls of the runner, one after the other, to the two stores.
use tonghuashun.Base.{
  ℕ, ◌≤◌, ◌≡◌, refl, sym, ap, String, true, false, Option, none, some, List, [], ◌∷◌,
}
use tonghuashun.Dict.{get}
use tonghuashun.Models.{TaskRecord, TaskStatus, CaptureKind, SourceErrors}
use tonghuashun.Queue.{Streams, Result}
use tonghuashun.Queue.Claim
use tonghuashun.Queue.Results
use tonghuashun.Queue.Results.{Outcome, wrong_path}
use tonghuashun.Redis.{RedisStore, Server}
use tonghuashun.Redis.Claim.{next_runnable}
use tonghuashun.Redis.Results.{
  transition, complete_capture, complete_result, complete_market_snapshot,
}
use tonghuashun.Redis.Refines.{Agrees, memory_clocks, later-Agrees}
use tonghuashun.Redis.Refines.Claims.{Matches, next_runnable-Matches}
use tonghuashun.Redis.Refines.Results.{
  transition-Matches, complete_capture-Matches, complete_result-Matches,
  complete_market_snapshot-Matches,
}

-- The calls of the runner.
pub data Job : Type 0 where
  claims : Job
  transitions : String → TaskStatus → Option String → Option SourceErrors → Job
  captures : String → CaptureKind → String → Job
  results : String → Outcome → Job
  snapshots : String → List (String × String) → Job

-- What a call returns: the claimed task, if there is one, or the task of a result, or an error.
pub data Answer : Type 0 where
  claimed : Option TaskRecord → Answer
  recorded : Result TaskRecord → Answer

abbrev answer : {A S : Type 0} → (A → Answer) → A × S → Answer × S
answer f (x, s) = (f x, s)

unfoldable pub in_memory : Server → Job → Streams → Answer × Streams
unfolding Claim.next_runnable Results.transition Results.complete_capture Results.complete_result
    Results.complete_market_snapshot
in_memory now claims m = answer claimed (Claim.next_runnable (memory_clocks now) m)
in_memory now (transitions id status code errors) m =
    answer recorded (Results.transition (memory_clocks now) id status code errors m)
in_memory now (captures id kind path) m =
    answer recorded (Results.complete_capture (memory_clocks now) id kind path m)
in_memory now (results id o) m =
    answer recorded (Results.complete_result (memory_clocks now) id o m)
in_memory now (snapshots id snapshot) m =
    answer recorded (Results.complete_market_snapshot (memory_clocks now) id snapshot m)

unfoldable pub in_redis : Server → Job → RedisStore → Answer × RedisStore
unfolding next_runnable transition complete_capture complete_result complete_market_snapshot
in_redis now claims s = answer claimed (next_runnable now s)
in_redis now (transitions id status code errors) s =
    answer recorded (transition now id status code errors s)
in_redis now (captures id kind path) s = answer recorded (complete_capture now id kind path s)
in_redis now (results id o) s = answer recorded (complete_result now id o s)
in_redis now (snapshots id snapshot) s =
    answer recorded (complete_market_snapshot now id snapshot s)

-- The ids are no aliases, and the path of a result fits its task.
abbrev pub IsPlain : Job → RedisStore → Type 0
IsPlain claims s = Unit
IsPlain (transitions id status code errors) s = get id s.aliases ≡ none
IsPlain (captures id kind path) s = get id s.aliases ≡ none
IsPlain (results id o) s =
    (get id s.aliases ≡ none)
    × ((task : TaskRecord)
        → get id s.payloads ≡ some task
        → wrong_path task.include_long_capture o.path ≡ false)
IsPlain (snapshots id snapshot) s = get id s.aliases ≡ none

-- The answers to a list of calls, and the store after them.
abbrev pub run :
    {S : Type 0} → (Server → Job → S → Answer × S) → List (Server × Job) → S → List Answer × S
run f [] s = ([], s)
run f ((now, j) ∷ js) s = ((f now j s).0 ∷ (run f js (f now j s).1).0, (run f js (f now j s).1).1)

-- Calls at clocks that do not go back, with a server that writes its events.
abbrev pub Runs : ℕ → List (Server × Job) → RedisStore → Type 0
unfolding in_redis
Runs from [] s = Unit
Runs from ((now, j) ∷ js) s =
    (from ≤ now.clock)
    × (now.writes_event ≡ true)
    × IsPlain j s
    × Runs now.clock js (in_redis now j s).1

answer-Matches :
    {A : Type 0} (f : A → Answer) (from : ℕ) (x : A × Streams) (y : A × RedisStore)
    → Matches from x y
    → Matches from (answer f x) (answer f y)
answer-Matches f from x y h = record { result = ap f h.result; after = h.after }

step-Matches :
    (from : ℕ) (now : Server) (j : Job) (m : Streams) (s : RedisStore)
    → from ≤ now.clock
    → now.writes_event ≡ true
    → IsPlain j s
    → Agrees from m s
    → Matches now.clock (in_memory now j m) (in_redis now j s)
unfolding in_memory in_redis
step-Matches from now claims m s le w p h =
    answer-Matches claimed now.clock _ _ (next_runnable-Matches from now m s le h)
step-Matches from now (transitions id status code errors) m s le w p h =
    answer-Matches recorded now.clock _ _ (
      transition-Matches now.clock now w m s (later-Agrees from now.clock m s le h) id p status code
        errors)
step-Matches from now (captures id kind path) m s le w p h = answer-Matches recorded now.clock _ _ (
    complete_capture-Matches now.clock now w m s (later-Agrees from now.clock m s le h) id p kind
      path)
step-Matches from now (results id o) m s le w p h = answer-Matches recorded now.clock _ _ (
    complete_result-Matches now.clock now w m s (later-Agrees from now.clock m s le h) id p.0 o p.1)
step-Matches from now (snapshots id snapshot) m s le w p h = answer-Matches recorded now.clock _ _ (
    complete_market_snapshot-Matches now.clock now w m s (later-Agrees from now.clock m s le h) id p
      snapshot)

-- Stores that hold the same tasks, of which the same wait in the same order, and the same lease,
-- give the same answers to any list of calls that claim tasks and record their results, and hold the
-- same tasks afterwards, if the lease clock does not go back, the server writes its events, the ids
-- are no aliases and the path of a result fits its task.
pub run-in_redis :
    (from : ℕ) (jobs : List (Server × Job)) (m : Streams) (s : RedisStore)
    → Agrees from m s
    → Runs from jobs s
    → ((run in_redis jobs s).0 ≡ (run in_memory jobs m).0)
      × ((id : String)
          → get id (run in_redis jobs s).1.payloads ≡ get id (run in_memory jobs m).1.tasks)
unfolding in_redis in_memory
run-in_redis from [] m s h r = (refl, λ id. sym (h.tasks id))
run-in_redis from ((now, j) ∷ jobs) m s h r =
    let step = step-Matches from now j m s r.0 r.1 r.2 h in
    let rest =
      run-in_redis now.clock jobs (in_memory now j m).1 (in_redis now j s).1 step.after r.3 in
    let same = step.result in let more = rest.0 in (cc, rest.1)
