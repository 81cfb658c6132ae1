-- ===== src/Queue/Merge/Group.antt =====
-- level2_service/queue.py: what `deduplicate_by_symbol` does to one group of tasks with a symbol.
use tonghuashun.Base.{
  String, ◌≡◌, ◌≢◌, refl, ◌∙◌, true, false, ◌&&◌, not, Option, none, some, List, [], ◌∷◌, arith,
  ◌==◌, eq_iff, eq_refl, contains, keep,
}
use tonghuashun.Dict.{get}
use tonghuashun.Models.{TaskRecord}
use tonghuashun.Queue.{Streams, Platform}
use tonghuashun.Queue.Canonical.{canonical_task, max_task}
use tonghuashun.Queue.Keyed.{canonical_task-All}
use tonghuashun.Queue.Merge.{
  task_ids, duplicate_ids, realias, drop_duplicates, merge_around, merge_group,
}
use tonghuashun.Queue.Merge.Dropping.{
  IsDistinct, AreStored, Dropped, contains-others, keep-IsDistinct, keep-ArePresent,
  contains-cleared, stored-ArePresent, drop-Dropped,
}

module _ (os : Platform) where
  -- A duplicate is gone from the tasks, the queue and the events, and its id is an alias.
  pub record IsMerged (canonical id : String) (out : Streams) : Type 0 where
    pub task : get id out.tasks ≡ none
    pub queue : contains id out.fifo ≡ false
    pub events : get id out.events ≡ none
    pub alias : get id out.aliases ≡ some canonical

  -- The merge of a group around its canonical task.
  pub record Merged (c : TaskRecord) (tasks : List TaskRecord) (s : Streams) (r : Option Streams)
      : Type 0 where
    pub out : Streams
    pub returned : r ≡ some out
    pub kept : get c.task_id out.tasks ≡ some c
    pub merged :
        (id : String)
        → contains id (task_ids tasks) ≡ true
        → id ≢ c.task_id
        → IsMerged c.task_id id out
    pub others :
        (id : String) → contains id (task_ids tasks) ≡ false → get id out.tasks ≡ get id s.tasks

  -- Where the ids other than the canonical one are `ids`.
  merge-rest :
      (c : TaskRecord) (tasks : List TaskRecord) (s : Streams) (ids : List String)
      → ((j : String) → contains j ids ≡ (contains j (task_ids tasks) && not (j == c.task_id)))
      → get c.task_id s.tasks ≡ some c
      → Dropped os c.task_id ids
          (record s { aliases = realias ids c.task_id s.aliases })
          (drop_duplicates os c.task_id ids
            (record s { aliases = realias ids c.task_id s.aliases }))
      → duplicate_ids c.task_id tasks ≡ ids
      → Merged c tasks s (merge_around os c tasks s)
  unfolding merge_around
  merge-rest c tasks s [] w g d e = record {
    out = s;
    returned = rw (e, merge_around) refl;
    kept = g;
    merged = λ id i n. absurd (ground (arith, w id, eq_iff id c.task_id, n));
    others = λ id i. refl;
  }
  merge-rest c tasks s (x ∷ ids) w g d e = record {
    out = record d.out { fifo = keep (λ i. not (contains i (x ∷ ids))) d.out.fifo };
    returned = rw (e, merge_around, d.returned) refl;
    kept = d.tasks c.task_id ∙ ground (arith, w c.task_id, eq_refl c.task_id, g);
    merged = λ id i n.
        let y : contains id (x ∷ ids) ≡ true = w id ∙ ground (arith, eq_iff id c.task_id, n) in
        record {
          task = d.tasks id ∙ rw y refl;
          queue = contains-cleared (x ∷ ids) id d.out.fifo y;
          events = d.events id ∙ rw y refl;
          alias = d.aliases id ∙ rw y refl;
        };
    others = λ id i. d.tasks id ∙ ground (arith, w id);
  }

  merge_around-Merged :
      (c : TaskRecord) (tasks : List TaskRecord) (s : Streams)
      → IsDistinct (task_ids tasks)
      → AreStored s.tasks tasks
      → get c.task_id s.tasks ≡ some c
      → Merged c tasks s (merge_around os c tasks s)
  unfolding duplicate_ids
  merge_around-Merged c tasks s d h g =
      merge-rest c tasks s (duplicate_ids c.task_id tasks)
        (λ j. contains-others c.task_id j (task_ids tasks)) g
        (drop-Dropped os c.task_id (duplicate_ids c.task_id tasks)
          (record s { aliases = realias (duplicate_ids c.task_id tasks) c.task_id s.aliases })
          (keep-IsDistinct (λ id. not (id == c.task_id)) (task_ids tasks) d)
          (keep-ArePresent (λ id. not (id == c.task_id)) s.tasks (task_ids tasks)
            (stored-ArePresent s.tasks tasks h)))
        refl

  -- The merge of a group never fails, if its tasks stand in the store under ids that all differ. The
  -- canonical task stays as it is; every other task of the group is gone from the tasks, the queue
  -- and the events, and its id is an alias of the canonical one; the tasks with other ids stay.
  pub merge_group-Merged :
      (t : TaskRecord) (ts : List TaskRecord) (s : Streams)
      → IsDistinct (task_ids (t ∷ ts))
      → AreStored s.tasks (t ∷ ts)
      → (c : TaskRecord) × (canonical_task (t ∷ ts) ≡ some c)
        × Merged c (t ∷ ts) s (merge_group os (t ∷ ts) s)
  unfolding merge_group canonical_task
  merge_group-Merged t ts s d h = (
    max_task t ts,
    refl,
    merge_around-Merged (max_task t ts) (t ∷ ts) s d h
        (canonical_task-All (λ w. get w.task_id s.tasks ≡ some w) (t ∷ ts) h refl),
  )
