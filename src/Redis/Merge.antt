-- ===== src/Redis/Merge.antt =====
-- level2_service/queue.py: `deduplicate_by_symbol` of `RedisStreamsStore`.
use tonghuashun.Base.{
  ℕ, String, ◌&&◌, not, Option, none, some, List, [], ◌∷◌, ◌++◌, ◌==◌, if◌then◌else◌, keep,
  contains, is_some,
}
use tonghuashun.Dict.{Dict, get, get_or, put, pop}
use tonghuashun.Models.{TaskRecord}
use tonghuashun.Queue.{Platform, unlink_all}
use tonghuashun.Queue.Canonical.{canonical_task}
use tonghuashun.Queue.Merge.{merges, restore_expired, duplicate_ids, MergeReport, report}
use tonghuashun.Redis.{RedisStore, Server, remove, sadd}
use tonghuashun.Redis.Find.{bound_status}
use tonghuashun.Redis.Leases.{deployment_lease_status}

-- What the loop over the members collects: the groups, the ids that take no part, and the members
-- that have a payload.
pub record Members : Type 0 where
  pub groups : Dict (List TaskRecord)
  pub excluded : Dict (List String)
  pub index : List String

abbrev group : TaskRecord → Dict (List TaskRecord) → Dict (List TaskRecord)
group task groups = put task.symbol (get_or task.symbol [] groups ++ task ∷ []) groups

abbrev exclude : TaskRecord → Dict (List String) → Dict (List String)
exclude task excluded =
    put task.symbol (sadd task.task_id (get_or task.symbol [] excluded)) excluded

-- One round of the loop.
unfoldable pub collect_member : ℕ → Option String → Dict TaskRecord → String → Members → Members
unfolding merges restore_expired
collect_member utc bound payloads id m = elim (get id payloads) [
  | none ↦ record m { index = remove id m.index }
  | some task ↦
      if merges bound task
      then record m { groups = group (restore_expired utc task) m.groups }
      else record m { excluded = exclude task m.excluded }
]

unfoldable pub collect_members :
    ℕ → Option String → Dict TaskRecord → List String → Members → Members
unfolding collect_member
collect_members utc bound payloads [] m = m
collect_members utc bound payloads (id ∷ ids) m =
    collect_members utc bound payloads ids (collect_member utc bound payloads id m)

-- The aliases that the store had before the merge and that lead to a duplicate.
unfoldable pub redirect_aliases : List String → String → Dict String → Dict String → Dict String
redirect_aliases dups canonical [] aliases = aliases
redirect_aliases dups canonical ((alias, target) ∷ existing) aliases =
    redirect_aliases dups canonical existing
      (if contains target dups then put alias canonical aliases else aliases)

module _ (os : Platform) where
  -- The end of one duplicate.
  unfoldable pub drop_member : String → TaskRecord → RedisStore → RedisStore
  unfolding unlink_all
  drop_member canonical task s = record s {
    unlinked = unlink_all os s.capture_root task s.unlinked;
    queue = remove task.task_id s.queue;
    payloads = pop task.task_id s.payloads;
    index = remove task.task_id s.index;
    aliases = put task.task_id canonical s.aliases;
  }

  unfoldable pub drop_members : String → List TaskRecord → RedisStore → RedisStore
  unfolding drop_member
  drop_members canonical [] s = s
  drop_members canonical (task ∷ tasks) s =
      drop_members canonical tasks
        (if task.task_id == canonical then s else drop_member canonical task s)

  -- The canonical task is saved under its symbol, and the duplicates end.
  unfoldable pub merge_into :
      Dict String → String → TaskRecord → List TaskRecord → RedisStore → RedisStore
  unfolding duplicate_ids redirect_aliases drop_members
  merge_into existing symbol c tasks s =
      let saved = record s {
        payloads = put c.task_id c s.payloads;
        symbols = put symbol c.task_id s.symbols;
      } in
      elim (duplicate_ids c.task_id tasks) [
        | [] ↦ saved
        | id ∷ ids ↦ drop_members c.task_id tasks (record saved {
          aliases = redirect_aliases (id ∷ ids) c.task_id existing saved.aliases;
          events = keep (λ e. not (contains e.task_id (id ∷ ids))) saved.events;
        })
      ]

  unfoldable pub merge_symbols : Dict String → Dict (List TaskRecord) → RedisStore → RedisStore
  unfolding merge_into canonical_task
  merge_symbols existing [] s = s
  merge_symbols existing ((symbol, tasks) ∷ groups) s =
      merge_symbols existing groups
        (elim (canonical_task tasks) [ none ↦ s | some c ↦ merge_into existing symbol c tasks s ])

  -- A symbol without a group loses an entry that leads to a task that took no part.
  unfoldable pub forget_excluded :
      Dict (List TaskRecord) → Dict (List String) → Dict String → Dict String
  forget_excluded groups [] symbols = symbols
  forget_excluded groups ((symbol, ids) ∷ excluded) symbols = forget_excluded groups excluded (
      if is_some (get symbol groups) then symbols else elim (get symbol symbols) [
        | none ↦ symbols
        | some id ↦ if contains id ids && not (id == "") then pop symbol symbols else symbols
      ])

  unfoldable pub deduplicate_by_symbol : Server → RedisStore → MergeReport × RedisStore
  unfolding collect_members merge_symbols forget_excluded report deployment_lease_status
  deduplicate_by_symbol now s =
      let bound = bound_status (deployment_lease_status now s) in
      let m =
        collect_members now.utc bound s.payloads s.index
          (record { groups = []; excluded = []; index = s.index }) in
      let merged = merge_symbols s.aliases m.groups (record s { index = m.index }) in
      (
        report m.groups,
        record merged { symbols = forget_excluded m.groups m.excluded merged.symbols },
      )
