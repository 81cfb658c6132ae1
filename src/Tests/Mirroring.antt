-- ===== src/Tests/Mirroring.antt =====
-- The two stores of level2_service/queue.py side by side at concrete inputs.
use tonghuashun.Base.{
  ◌≡◌, refl, false, String, List, some, [], ◌∷◌, arith, ◌==◌, Bool-cases, inl, inr, subst,
}
use tonghuashun.Dict.{get}
use tonghuashun.Models.{new_task}
use tonghuashun.Queue.Claim.{waits}
use tonghuashun.Queue.Position
use tonghuashun.Redis.{Server}
use tonghuashun.Redis.Find.{resolve_task_id}
use tonghuashun.Redis.Find.Aliases.{resolve_task_id_agrees}
use tonghuashun.Redis.Refines.{Agrees}
use tonghuashun.Redis.Refines.Sequences.{
  Job, claims, snapshots, in_memory, in_redis, run, run-in_redis,
}
use tonghuashun.Tests.{two_tasks, one_running, server_at, two_stored}

two_stored-Agrees : Agrees 0 two_tasks two_stored
unfolding waits new_task get
two_stored-Agrees = record {
  tasks = λ id. refl;
  waiting = refl;
  leases = λ now h. refl;
  digests = λ l d e f. absurd (ground arith);
  keyed = (refl, refl, (refl, refl, tt));
}

-- The second task is claimed and recorded as a snapshot.
abbrev jobs : List (Server × Job)
jobs = (server_at 5, claims) ∷ (server_at 6, snapshots "b" []) ∷ []

run-in_redis_example :
    ((run in_redis jobs two_stored).0 ≡ (run in_memory jobs two_tasks).0)
    × ((id : String)
        → get id (run in_redis jobs two_stored).1.payloads
          ≡ get id (run in_memory jobs two_tasks).1.tasks)
unfolding in_redis get new_task
run-in_redis_example =
    run-in_redis 0 jobs two_tasks two_stored two_stored-Agrees
      (omega arith, refl, tt, (omega arith, refl, refl, tt))

alias_filled : (k t : String) → get k (("old", "a") ∷ []) ≡ some t → (t == "") ≡ false
unfolding get
alias_filled k t e = elim (Bool-cases ("old" == k)) [
  | inl same ↦ let path : "a" ≡ t = ground (arith, same) in subst (λ u. (u == "") ≡ false) path refl
  | inr other ↦ absurd (ground (arith, other))
]

resolve_task_id_agrees_example :
    resolve_task_id "old" (record two_stored { aliases = one_running.aliases })
    ≡ Position.resolve_task_id "old" one_running
unfolding get
resolve_task_id_agrees_example =
    resolve_task_id_agrees "old" one_running (record two_stored { aliases = one_running.aliases })
      refl alias_filled
