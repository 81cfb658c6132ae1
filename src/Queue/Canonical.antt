-- ===== src/Queue/Canonical.antt =====
-- `_canonical_task` of level2_service/queue.py: the largest task by a tuple of four keys.
use Prim.Native.Nat.{Ordering}
use Prim.Native.String.{compare}
use tonghuashun.Base.{
  String, Bool, true, false, ◌||◌, ◌&&◌, Option, none, some, List, [], ◌∷◌, ltb, nat_eq,
  if◌then◌else◌, not,
}
use tonghuashun.Models.{TaskRecord}
use tonghuashun.Queue.{task_active}

-- Texts are compared by their code points, which is the order of their bytes.
unfoldable pub text_lt : String → String → Bool
text_lt a b = elim (compare a b) [ Ordering.lt ↦ true | _ ↦ false ]

unfoldable pub text_eq : String → String → Bool
text_eq a b = elim (compare a b) [ Ordering.eq ↦ true | _ ↦ false ]

abbrev bool_lt : Bool → Bool → Bool
bool_lt a b = not a && b

abbrev bool_eq : Bool → Bool → Bool
bool_eq true b = b
bool_eq false b = not b

-- `<` of the tuples (active, created_at, updated_at, task_id).
unfoldable pub key_lt : TaskRecord → TaskRecord → Bool
unfolding text_lt
key_lt a b =
    bool_lt (task_active a) (task_active b)
    || (bool_eq (task_active a) (task_active b)
        && (ltb a.created_at b.created_at
            || (nat_eq a.created_at b.created_at
                && (ltb a.updated_at b.updated_at
                    || (nat_eq a.updated_at b.updated_at && text_lt a.task_id b.task_id)))))

-- `max` keeps the first of the largest.
unfoldable pub max_task : TaskRecord → List TaskRecord → TaskRecord
max_task best [] = best
max_task best (t ∷ ts) = max_task (if key_lt best t then t else best) ts

-- The canonical task of the candidates, if there is one.
unfoldable pub canonical_task : List TaskRecord → Option TaskRecord
unfolding max_task
canonical_task [] = none
canonical_task (t ∷ ts) = some (max_task t ts)
