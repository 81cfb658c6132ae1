-- ===== src/Queue/Merge.antt =====
-- level2_service/queue.py: `deduplicate_by_symbol` of `InMemoryStreams`. A set of duplicates is
-- walked in the order of the tasks.
pub mod Dropping
pub mod Group
use tonghuashun.Base.{
  ℕ, ◌+◌, String, Bool, ◌&&◌, ◌||◌, not, Option, none, some, List, [], ◌∷◌, ◌++◌, ◌==◌,
  if◌then◌else◌, is_some, any, keep, length, contains,
}
use tonghuashun.Dict.{Dict, get, get_or, put, pop}
use tonghuashun.Models.{TaskRecord, TaskStatus, status_eq}
use tonghuashun.Models.Metrics.{required_metrics}
use tonghuashun.Queue.{
  Streams, Platform, Clocks, has_maintenance_metadata, opt_eq, bound_of, active_lease, unlink_all,
}
use tonghuashun.Queue.Canonical.{canonical_task}
use tonghuashun.Queue.Results.{required_complete}

unfoldable pub has_result : TaskRecord → Bool
has_result task = any (λ kind. is_some (task.values kind)) required_metrics

-- `task.error_code or "RESULT_NOT_AVAILABLE"`, where the empty text counts as absent.
abbrev pub or_default : Option String → Option String
or_default none = some "RESULT_NOT_AVAILABLE"
or_default (some c) = if c == "" then some "RESULT_NOT_AVAILABLE" else some c

-- _restore_expired_task
unfoldable pub restore_expired : ℕ → TaskRecord → TaskRecord
unfolding has_result required_complete
restore_expired utc task =
    if not (status_eq task.status TaskStatus.expired)
    then task
    else if is_some task.snapshot
    then record task { status = TaskStatus.market_snapshot; error_code = none; updated_at = utc }
    else if required_complete task && not (is_some task.source_errors.main_fund_flow)
    then record task { status = TaskStatus.completed; error_code = none; updated_at = utc }
    else if has_result task
    then record task {
      status = TaskStatus.partial;
      error_code =
          if required_complete task
          then task.source_errors.main_fund_flow
          else some "VALUE_RECOGNITION_FAILED";
      updated_at = utc;
    }
    else record task {
      status = TaskStatus.failed;
      error_code = or_default task.error_code;
      updated_at = utc;
    }

-- A task that takes part in the merge.
unfoldable pub merges : Option String → TaskRecord → Bool
unfolding has_maintenance_metadata
merges bound task = not (has_maintenance_metadata task || opt_eq bound task.task_id)

-- The tasks after the restoration of those that take part; `utc` is the reading of the clock.
unfoldable pub restore_all : ℕ → Option String → Dict TaskRecord → Dict TaskRecord
unfolding restore_expired merges
restore_all utc bound [] = []
restore_all utc bound ((id, task) ∷ d) =
    (id, if merges bound task then restore_expired utc task else task) ∷ restore_all utc bound d

-- The groups by symbol, in the order of their first tasks.
unfoldable pub group_by_symbol :
    Option String → Dict TaskRecord → Dict (List TaskRecord) → Dict (List TaskRecord)
unfolding merges
group_by_symbol bound [] groups = groups
group_by_symbol bound ((id, task) ∷ d) groups = group_by_symbol bound d (
    if merges bound task
    then put task.symbol (get_or task.symbol [] groups ++ task ∷ []) groups
    else groups)

abbrev pub task_ids : List TaskRecord → List String
task_ids [] = []
task_ids (t ∷ ts) = t.task_id ∷ task_ids ts

-- The ids of a group other than the canonical one.
unfoldable pub duplicate_ids : String → List TaskRecord → List String
duplicate_ids canonical tasks = keep (λ id. not (id == canonical)) (task_ids tasks)

-- Aliases of a duplicate go to the canonical task.
unfoldable pub realias : List String → String → Dict String → Dict String
realias dups canonical [] = []
realias dups canonical ((alias, target) ∷ d) =
    (alias, if contains target dups then canonical else target) ∷ realias dups canonical d

-- The numbers that deduplicate_by_symbol reports.
pub record MergeReport : Type 0 where
  pub total : ℕ
  pub kept : ℕ
  pub deleted : ℕ
  pub aliases : ℕ

abbrev group_sizes : Dict (List TaskRecord) → ℕ
group_sizes [] = 0
group_sizes ((symbol, tasks) ∷ groups) = length tasks + group_sizes groups

abbrev group_duplicates : List TaskRecord → ℕ
unfolding canonical_task duplicate_ids
group_duplicates tasks = elim (canonical_task tasks) [
  | none ↦ 0
  | some c ↦ length (duplicate_ids c.task_id tasks)
]

abbrev all_duplicates : Dict (List TaskRecord) → ℕ
unfolding canonical_task duplicate_ids
all_duplicates [] = 0
all_duplicates ((symbol, tasks) ∷ groups) = group_duplicates tasks + all_duplicates groups

unfoldable pub report : Dict (List TaskRecord) → MergeReport
unfolding canonical_task duplicate_ids
report groups = record {
  total = group_sizes groups;
  kept = length groups;
  deleted = all_duplicates groups;
  aliases = all_duplicates groups;
}

module _ (os : Platform) where
  -- The end of one duplicate; the merge fails with a KeyError where there is no such key.
  unfoldable pub drop_duplicate : String → String → Streams → Option Streams
  unfolding unlink_all
  drop_duplicate canonical id s = elim (get id s.tasks) [
    | none ↦ none
    | some task ↦ some (record s {
      tasks = pop id s.tasks;
      unlinked = unlink_all os s.capture_root task s.unlinked;
      events = pop id s.events;
      aliases = put id canonical s.aliases;
    })
  ]

  unfoldable pub drop_duplicates : String → List String → Streams → Option Streams
  unfolding drop_duplicate
  drop_duplicates canonical [] s = some s
  drop_duplicates canonical (id ∷ ids) s = elim (drop_duplicate canonical id s) [
    | none ↦ none
    | some s' ↦ drop_duplicates canonical ids s'
  ]

  -- The merge of one group around its canonical task.
  unfoldable pub merge_around : TaskRecord → List TaskRecord → Streams → Option Streams
  unfolding drop_duplicates duplicate_ids realias
  merge_around c tasks s = elim (duplicate_ids c.task_id tasks) [
    | [] ↦ some s
    | id ∷ ids ↦
        elim (drop_duplicates c.task_id (id ∷ ids)
          (record s { aliases = realias (id ∷ ids) c.task_id s.aliases })) [
            | none ↦ none
            | some s' ↦ some (record s' { fifo = keep (λ i. not (contains i (id ∷ ids))) s'.fifo })
          ]
  ]

  unfoldable pub merge_group : List TaskRecord → Streams → Option Streams
  unfolding merge_around canonical_task
  merge_group tasks s = elim (canonical_task tasks) [
    | none ↦ some s
    | some c ↦ merge_around c tasks s
  ]

  unfoldable pub merge_groups : Dict (List TaskRecord) → Streams → Option Streams
  unfolding merge_group
  merge_groups [] s = some s
  merge_groups ((symbol, tasks) ∷ groups) s = elim (merge_group tasks s) [
    | none ↦ none
    | some s' ↦ merge_groups groups s'
  ]

  unfoldable pub deduplicate_by_symbol : Clocks → Streams → Option (MergeReport × Streams)
  unfolding merge_groups group_by_symbol restore_all report active_lease
  deduplicate_by_symbol now s =
      let (lease, s') = active_lease now s in
      let tasks = restore_all now.utc (bound_of lease) s'.tasks in
      let groups = group_by_symbol (bound_of lease) tasks [] in
      elim (merge_groups groups (record s' { tasks = tasks })) [
        | none ↦ none
        | some merged ↦ some (report groups, merged)
      ]
