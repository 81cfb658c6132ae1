-- ===== src/Tests/Merging.antt =====
-- The merge of tasks for one symbol in level2_service/queue.py at a concrete input.
use tonghuashun.Base.{◌≡◌, refl, some, [], ◌∷◌}
use tonghuashun.Dict.{get}
use tonghuashun.Models.{TaskRecord, new_task}
use tonghuashun.Queue.{Streams}
use tonghuashun.Queue.Canonical.{canonical_task}
use tonghuashun.Queue.Merge.{merge_group}
use tonghuashun.Queue.Merge.Group.{Merged, merge_group-Merged}
use tonghuashun.Tests.{plain_platform, first_task, new_task_c, two_tasks}

-- Two tasks wait for the same symbol.
abbrev twice : Streams
twice = record two_tasks {
  tasks = ("a", first_task) ∷ ("c", new_task_c) ∷ [];
  fifo = "a" ∷ "c" ∷ [];
}

merge_group-Merged_example :
    (c : TaskRecord) × (canonical_task (first_task ∷ new_task_c ∷ []) ≡ some c)
    × Merged plain_platform c
        (first_task ∷ new_task_c ∷ [])
        twice
        (merge_group plain_platform (first_task ∷ new_task_c ∷ []) twice)
unfolding new_task get
merge_group-Merged_example =
    merge_group-Merged plain_platform first_task (new_task_c ∷ []) twice (refl, (refl, tt))
      (refl, (refl, tt))
