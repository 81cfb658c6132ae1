-- ===== src/Redis.antt =====
-- level2_service/queue.py: the state of `RedisStreamsStore` in the server, and the commands that its
-- scripts share. A payload is the task that it holds; Redis.Codec is about its document. A script
-- runs as one step.
pub mod Submit
pub mod Claim
pub mod Find
pub mod Leases
pub mod Retry
pub mod Results
pub mod Binding
pub mod Removal
pub mod Recover
pub mod Events
pub mod Merge
pub mod Cleanup
pub mod Counter
pub mod Refines
pub mod Codec
use tonghuashun.Base.{
  ℕ, suc, ◌+◌, String, Bool, true, false, ◌&&◌, ◌||◌, not, Option, none, some, List, [], ◌∷◌, ◌++◌,
  ◌==◌, ltb, leb, if◌then◌else◌, keep, drop, contains, ℤ, pos, negsuc, add_one, sub_one,
}
use tonghuashun.Dict.{Dict, get, put, pop}
use tonghuashun.Models.{TaskRecord, TaskStatus}
use tonghuashun.Queue.{Lease, is_active, task_active}

-- An entry of the event stream.
pub record Event : Type 0 where
  pub entry_id : ℕ
  pub task_id : String
  pub status : TaskStatus

-- The keys of the server: the list of pending ids, the payloads, the set of ids in some order, the
-- events with the last id that the server gave, the two hashes, the lease and the counter.
pub record RedisStore : Type 0 where
  pub pending_cap : ℕ
  pub capture_root : Option String
  pub queue : List String
  pub payloads : Dict TaskRecord
  pub index : List String
  pub events : List Event
  pub last_entry : ℕ
  pub symbols : Dict String
  pub aliases : Dict String
  pub lease : Option Lease
  pub active : Option ℤ
  pub unlinked : List String

-- What a call reads: the clock of the service, the clock of the server in milliseconds, how many of
-- the oldest events the server drops when it trims the stream, and whether it writes an event.
pub record Server : Type 0 where
  pub utc : ℕ
  pub clock : ℕ
  pub trimmed : ℕ
  pub writes_event : Bool

-- What a script returns: false, one of its markers, or a payload.
pub data Reply : Type 0 where
  nil queue_full maintenance : Reply
  payload : TaskRecord → Reply

-- GET of the lease, which is gone when its time has passed.
unfoldable pub live_lease : Server → RedisStore → Option Lease
live_lease now s = elim s.lease [
  | none ↦ none
  | some l ↦ if leb l.expires_at now.clock then none else some l
]

abbrev pub bound_id : Option Lease → Option String
bound_id none = none
bound_id (some l) = l.bound_task_id

-- XADD with the id that the server chooses
unfoldable pub xadd : String → TaskStatus → RedisStore → RedisStore
xadd id status s = record s {
  last_entry = suc s.last_entry;
  events = s.events ++ (record { entry_id = suc s.last_entry; task_id = id; status = status }) ∷ [];
}

-- SADD, SREM and LREM with count 0
abbrev pub sadd : String → List String → List String
sadd id ids = if contains id ids then ids else ids ++ id ∷ []

abbrev pub remove : String → List String → List String
remove id ids = keep (λ i. not (i == id)) ids

-- `tonumber(GET or '0')`
abbrev pub pending_count : RedisStore → ℤ
pending_count s = elim s.active [ none ↦ pos 0 | some i ↦ i ]

-- INCRBY 1
unfoldable pub count_up : RedisStore → RedisStore
count_up s = record s { active = some (add_one (pending_count s)) }

-- The INCRBY of `delta`, by whether the task was active and is active.
unfoldable pub count_change : Bool → Bool → RedisStore → RedisStore
unfolding count_up
count_change true false s = record s { active = some (sub_one (pending_count s)) }
count_change false true s = count_up s
count_change _ _ s = s

-- _sync_active_count
unfoldable pub count_members : Dict TaskRecord → List String → ℕ
unfolding task_active
count_members payloads [] = 0
count_members payloads (id ∷ ids) =
    (elim (get id payloads) as (λ _. ℕ) [ none ↦ 0 | some t ↦ if task_active t then 1 else 0 ])
    + count_members payloads ids

unfoldable pub sync_active_count : RedisStore → ℕ × RedisStore
unfolding count_members
sync_active_count s =
    let count = count_members s.payloads s.index in (count, record s { active = some (pos count) })

-- _ensure_active_count
unfoldable pub ensure_active_count : RedisStore → RedisStore
unfolding sync_active_count
ensure_active_count s = elim s.active [ some i ↦ s | none ↦ (sync_active_count s).1 ]

-- active_count
unfoldable pub active_count : RedisStore → ℕ × RedisStore
unfolding sync_active_count
active_count s = elim s.active [
  | none ↦ sync_active_count s
  | some (pos n) ↦ (n, s)
  | some (negsuc n) ↦ (0, s)
]

-- reconcile_active_count
unfoldable pub reconcile_active_count : RedisStore → ℕ × RedisStore
unfolding sync_active_count
reconcile_active_count s = sync_active_count s

-- The root is given as a resolved path.
unfoldable pub set_capture_root : String → RedisStore → RedisStore
set_capture_root root s = record s { capture_root = some root }

-- _trim_events
unfoldable pub trim_events : Server → RedisStore → RedisStore
trim_events now s = record s { events = drop now.trimmed s.events }

-- A payload, and the event of its status.
unfoldable pub set_task : String → TaskRecord → RedisStore → RedisStore
unfolding xadd
set_task id task s = xadd id task.status (record s { payloads = put id task s.payloads })

-- A payload, and the event that the scripts of submission write: its status is always QUEUED.
unfoldable pub set_queued : String → TaskRecord → RedisStore → RedisStore
unfolding xadd
set_queued id task s = xadd id TaskStatus.queued (record s { payloads = put id task s.payloads })
