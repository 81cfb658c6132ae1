-- ===== src/Redis/Removal.antt =====
-- level2_service/queue.py: `remove_task` of the scripts of `RedisStreamsStore`, and the end of a
-- lease with THS_RELEASE_DEPLOYMENT_LEASE.
use tonghuashun.Base.{
  String, Bool, true, false, ◌&&◌, ◌||◌, not, Option, none, some, List, [], ◌∷◌, ◌==◌,
  if◌then◌else◌, keep,
}
use tonghuashun.Dict.{Dict, get, put, pop}
use tonghuashun.Models.{TaskRecord}
use tonghuashun.Queue.{Platform, Lease, has_maintenance_metadata, is_digest}
use tonghuashun.Queue.Canonical.{canonical_task}
use tonghuashun.Queue.Leases.{same_digest}
use tonghuashun.Queue.Maintenance.{redirect}
use tonghuashun.Redis.{RedisStore, Server, live_lease, remove}
use tonghuashun.Redis.Binding.{is_owned}

-- A candidate of ordinary_canonical under its id.
unfoldable pub is_twin : String → String → String → TaskRecord → Bool
unfolding has_maintenance_metadata
is_twin raw_id symbol id c =
    not (id == raw_id) && c.task_id == id && c.symbol == symbol && not (has_maintenance_metadata c)

unfoldable pub twins : String → String → Dict TaskRecord → List String → List TaskRecord
unfolding is_twin
twins raw_id symbol payloads [] = []
twins raw_id symbol payloads (id ∷ ids) =
    let rest = twins raw_id symbol payloads ids in
    elim (get id payloads) [
      | none ↦ rest
      | some c ↦ if is_twin raw_id symbol id c then c ∷ rest else rest
    ]

-- ordinary_canonical, with `better` as the order of `_canonical_task`
unfoldable pub ordinary_canonical : String → String → RedisStore → Option TaskRecord
unfolding twins canonical_task
ordinary_canonical symbol raw_id s = canonical_task (twins raw_id symbol s.payloads s.index)

-- The entry of a symbol after the removal of a task.
unfoldable pub reindex : Option TaskRecord → String → Dict String → Dict String
reindex none symbol symbols = pop symbol symbols
reindex (some c) symbol symbols = put symbol c.task_id symbols

-- remove_task
unfoldable pub remove_task : String → TaskRecord → RedisStore → RedisStore
unfolding ordinary_canonical redirect reindex
remove_task raw_id task s =
    let canonical = ordinary_canonical task.symbol raw_id s in
    record s {
      aliases = redirect raw_id canonical s.aliases;
      symbols = reindex canonical task.symbol s.symbols;
      queue = remove raw_id s.queue;
      payloads = pop raw_id s.payloads;
      index = remove raw_id s.index;
      events = keep (λ e. not (e.task_id == raw_id)) s.events;
    }

-- The tests of the script on the bound task.
unfoldable pub is_releasable : String → String → TaskRecord → Bool
unfolding is_owned has_maintenance_metadata
is_releasable bound digest task =
    task.task_id == bound
    && task.symbol == "601872"
    && not task.include_long_capture
    && (if has_maintenance_metadata task then is_owned digest task else true)

unfoldable pub release_held : String → Lease → RedisStore → Bool × RedisStore
unfolding is_releasable remove_task
release_held digest l s = elim l.bound_task_id [
  | none ↦ (true, record s { lease = none })
  | some bound ↦ elim (get bound s.payloads) [
    | none ↦ (false, s)
    | some task ↦
        if is_releasable bound digest task
        then (true, record (remove_task bound task s) { lease = none })
        else (false, s)
  ]
]

-- THS_RELEASE_DEPLOYMENT_LEASE
unfoldable pub release_script : Server → String → String → RedisStore → Bool × RedisStore
unfolding release_held live_lease is_digest
release_script now owner digest s = elim (live_lease now s) [
  | none ↦ (false, s)
  | some l ↦
      if not (l.owner_token == owner)
        || not (is_digest digest)
        || not (same_digest l.owner_digest digest)
      then (false, s)
      else release_held digest l s
]

module _ (os : Platform) where
  unfoldable pub release_deployment_lease : Server → String → RedisStore → Bool × RedisStore
  unfolding release_script
  release_deployment_lease now owner s = release_script now owner (os.sha256_hex owner) s
