-- ===== src/Queue/Keyed.antt =====
-- level2_service/queue.py: the tasks of `InMemoryStreams` under their own ids.
use tonghuashun.Base.{String, ◌≡◌, some, List, [], ◌∷◌, arith, All, Bool-cases, inl, inr}
use tonghuashun.Dict.{Dict, get, put, values}
use tonghuashun.Dict.Keyed
use tonghuashun.Models.{TaskRecord}
use tonghuashun.Queue.Canonical.{max_task, canonical_task, key_lt}

abbrev pub IsKeyed : Dict TaskRecord → Type 0
IsKeyed = Keyed.IsKeyed (λ t. t.task_id)

pub put-IsKeyed :
    (k : String) (t : TaskRecord) (d : Dict TaskRecord)
    → t.task_id ≡ k
    → IsKeyed d
    → IsKeyed (put k t d)
put-IsKeyed k t d e h = Keyed.put-IsKeyed (λ t. t.task_id) k t d e h

-- Each task is found under its id.
pub get-values : (d : Dict TaskRecord) → IsKeyed d → All (λ t. get t.task_id d ≡ some t) (values d)
get-values d h = Keyed.get-values (λ t. t.task_id) d h

module _ {κ} (P : TaskRecord → Type κ) where
  max_task-All :
      (best : TaskRecord) (ts : List TaskRecord) → P best → All P ts → P (max_task best ts)
  unfolding max_task
  max_task-All best [] b h = b
  max_task-All best (t ∷ ts) b h = elim (Bool-cases (key_lt best t)) [
    | inl e ↦ rw e (max_task-All t ts h.0 h.1)
    | inr e ↦ rw e (max_task-All best ts b h.1)
  ]

  -- What holds of all candidates holds of the canonical one.
  pub canonical_task-All :
      (ts : List TaskRecord) {c : TaskRecord} → All P ts → canonical_task ts ≡ some c → P c
  unfolding canonical_task
  canonical_task-All [] h e = absurd (ground arith)
  canonical_task-All (t ∷ ts) {c} h e =
      let same : max_task t ts ≡ c = cc in rw same at (max_task-All t ts h.0 h.1)
