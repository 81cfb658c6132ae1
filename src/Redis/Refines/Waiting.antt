-- ===== src/Redis/Refines/Waiting.antt =====
-- level2_service/queue.py: the ids that wait in a queue, after a task is written.
use tonghuashun.Base.{
  ◌≡◌, refl, String, true, false, ◌&&◌, not, Option, none, some, List, [], ◌∷◌, arith, ◌==◌, eq_iff,
  keep, Bool-cases, inl, inr,
}
use tonghuashun.Dict.{Dict, put, get-put}
use tonghuashun.Models.{TaskRecord, TaskStatus, status_eq}
use tonghuashun.Queue.{has_maintenance_metadata}
use tonghuashun.Queue.Claim.{waits, first_waiting}
use tonghuashun.Redis.Claim.{pop_waiting}

-- After a write of a task that is not queued, its id waits no more.
waits-put :
    (id i : String) (t : TaskRecord) (d : Dict TaskRecord)
    → status_eq t.status TaskStatus.queued ≡ false
    → waits (put id t d) i ≡ (waits d i && not (i == id))
unfolding waits has_maintenance_metadata
waits-put id i t d q = ground (arith, get-put id i t d, eq_iff id i, eq_iff i id)

module _ (id : String) (t : TaskRecord) (q : status_eq t.status TaskStatus.queued ≡ false) where
  pub keep-waits-put :
      (d : Dict TaskRecord) (queue : List String)
      → keep (waits (put id t d)) queue ≡ keep (λ i. not (i == id)) (keep (waits d) queue)
  keep-waits-put d [] = refl
  keep-waits-put d (i ∷ queue) = ground (arith, waits-put id i t d q, keep-waits-put d queue)

  pub keep-waits-remove :
      (d : Dict TaskRecord) (queue : List String)
      → keep (waits (put id t d)) (keep (λ i. not (i == id)) queue)
        ≡ keep (λ i. not (i == id)) (keep (waits d) queue)
  keep-waits-remove d [] = refl
  keep-waits-remove d (i ∷ queue) = ground (arith, waits-put id i t d q, keep-waits-remove d queue)

  pub keep-waits-pop :
      (d : Dict TaskRecord) (queue : List String)
      → (pop_waiting d queue).0 ≡ some id
      → keep (waits (put id t d)) (pop_waiting d queue).1
        ≡ keep (λ i. not (i == id)) (keep (waits d) queue)
  unfolding pop_waiting
  keep-waits-pop d [] e = absurd (ground arith)
  keep-waits-pop d (i ∷ queue) e = elim (Bool-cases (waits d i)) [
    | inl w ↦
        let same : i ≡ id = ground (arith, w) in
        ground (arith, w, (eq_iff i id).1 same, keep-waits-put d queue)
    | inr w ↦ ground (arith, w, keep-waits-pop d queue)
  ]

abbrev pub first : List String → Option String
first [] = none
first (x ∷ xs) = some x

pub first_waiting-keep :
    (d : Dict TaskRecord) (queue : List String)
    → first_waiting d queue ≡ first (keep (waits d) queue)
unfolding first_waiting
first_waiting-keep d [] = refl
first_waiting-keep d (i ∷ queue) = ground (arith, first_waiting-keep d queue)

pub pop_waiting-keep :
    (d : Dict TaskRecord) (queue : List String)
    → (pop_waiting d queue).0 ≡ first (keep (waits d) queue)
unfolding pop_waiting
pop_waiting-keep d [] = refl
pop_waiting-keep d (i ∷ queue) = ground (arith, pop_waiting-keep d queue)

-- Where no task waits, the whole queue is popped.
pub pop_waiting-none :
    (d : Dict TaskRecord) (queue : List String)
    → (pop_waiting d queue).0 ≡ none
    → (pop_waiting d queue).1 ≡ []
unfolding pop_waiting
pop_waiting-none d [] e = refl
pop_waiting-none d (i ∷ queue) e = ground (arith, pop_waiting-none d queue)

-- The id that is popped is that of a waiting task.
pub pop_waiting-waits :
    (payloads : Dict TaskRecord) (queue : List String) (id : String)
    → (pop_waiting payloads queue).0 ≡ some id
    → waits payloads id ≡ true
unfolding pop_waiting
pop_waiting-waits payloads [] id e = absurd (ground arith)
pop_waiting-waits payloads (i ∷ queue) id e = elim (Bool-cases (waits payloads i)) [
  | inl w ↦ ground arith
  | inr w ↦ pop_waiting-waits payloads queue id (rw w at e)
]
