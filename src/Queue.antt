-- ===== src/Queue.antt =====
-- level2_service/queue.py: the state of `InMemoryStreams` and the predicates on tasks that its
-- operations share. An operation maps the state to its result and the next state; what was written
-- before an exception stays written. The message of an exception is not modelled.
pub mod Canonical
pub mod Keyed
pub mod Submit
pub mod Claim
pub mod Position
pub mod Recover
pub mod Results
pub mod Leases
pub mod Maintenance
pub mod Retry
pub mod Merge
pub mod Cleanup
use Prim.Native.Char.{code}
use Prim.Native.String
use tonghuashun.Base.{
  ℕ, suc, ◌+◌, ◌≤◌, ◌*◌, String, Bool, true, false, ◌&&◌, ◌||◌, not, Option, none, some, List, [],
  ◌∷◌, ◌++◌, ◌==◌, ltb, leb, nat_eq, if◌then◌else◌, is_some, keep, all, length,
}
use tonghuashun.Dict.{Dict, get_or, put}
use tonghuashun.Dict.Counting.{count_values}
use tonghuashun.Models.{
  CaptureRecord, Captures, CaptureStatus, TaskStatus, TaskRecord, status_eq, capture_list,
}

pub data QueueError : Type 0 where
  queue_full invalid_transition key_error value_error type_error event_write_failed : QueueError

pub data Result {ℓ} (A : Type ℓ) : Type ℓ where
  ok : A → Result A
  err : QueueError → Result A

-- The dict behind `_deployment_lease`. A lease that an older process wrote may have no digest.
pub record Lease : Type 0 where
  pub owner_token : String
  pub owner_digest : Option String
  pub bound_task_id : Option String
  pub expires_at : ℕ

-- InMemoryStreams. `unlinked` lists the files that were removed, the oldest first.
pub record Streams : Type 0 where
  pub pending_cap : ℕ
  pub capture_root : Option String
  pub tasks : Dict TaskRecord
  pub fifo : List String
  pub events : Dict (List TaskStatus)
  pub aliases : Dict String
  pub lease : Option Lease
  pub unlinked : List String

-- hashlib.sha256(…).hexdigest(), and whether a path resolves to one below a root.
pub record Platform : Type 0 where
  pub sha256_hex : String → String
  pub relative_to : String → String → Bool

-- What the clocks show: `utc_now`, the lease clock at the test for expiry, and the lease clock where
-- an operation reads it again. All three count microseconds.
pub record Clocks : Type 0 where
  pub utc : ℕ
  pub lease : ℕ
  pub lease_later : ℕ

unfoldable pub init : ℕ → Option String → Streams
init pending_cap capture_root = record {
  pending_cap = pending_cap;
  capture_root = capture_root;
  tasks = [];
  fifo = [];
  events = [];
  aliases = [];
  lease = none;
  unlinked = [];
}

-- The root is given as a resolved path.
unfoldable pub set_capture_root : String → Streams → Streams
set_capture_root root s = record s { capture_root = some root }

abbrev pub opt_eq : Option String → String → Bool
opt_eq none t = false
opt_eq (some s) t = s == t

-- _ACTIVE_STATUSES
abbrev pub is_active : TaskStatus → Bool
is_active TaskStatus.queued = true
is_active TaskStatus.running = true
is_active TaskStatus.waiting_admin = true
is_active _ = false

-- _REFRESHABLE_STATUSES
abbrev pub is_refreshable : TaskStatus → Bool
is_refreshable TaskStatus.completed = true
is_refreshable TaskStatus.market_snapshot = true
is_refreshable TaskStatus.partial = true
is_refreshable TaskStatus.failed = true
is_refreshable TaskStatus.expired = true
is_refreshable _ = false

unfoldable pub task_active : TaskRecord → Bool
task_active task = is_active task.status

-- sum(item.status in _ACTIVE_STATUSES for item in self._tasks.values())
abbrev pub pending : Streams → ℕ
pending s = count_values task_active s.tasks

abbrev pub namespace : String
namespace = "deployment_acceptance"

unfoldable pub has_maintenance_metadata : TaskRecord → Bool
has_maintenance_metadata task =
    is_some task.maintenance_namespace || is_some task.maintenance_owner_digest

abbrev pub codes : String → List ℕ
codes String.[] = []
codes (String.◌∷◌ c s) = code c ∷ codes s

-- [0-9a-f]{64}
is_hex : ℕ → Bool
is_hex c = (leb b'0' c && leb c b'9') || (leb b'a' c && leb c b'f')

unfoldable pub is_digest : String → Bool
unfolding is_hex
is_digest s = all is_hex (codes s) && nat_eq (length (codes s)) 64

-- [A-Za-z0-9_-]{32,256}
is_owner_char : ℕ → Bool
is_owner_char c =
    (leb b'A' c && leb c b'Z')
    || (leb b'a' c && leb c b'z')
    || (leb b'0' c && leb c b'9')
    || (leb b'_' c && leb c b'_')
    || (leb b'-' c && leb c b'-')

unfoldable pub is_owner : String → Bool
unfolding is_owner_char
is_owner s = all is_owner_char (codes s) && leb 32 (length (codes s)) && leb (length (codes s)) 256

-- hmac.compare_digest on texts, which refuses a text that is not ASCII.
is_ascii : ℕ → Bool
is_ascii c = ltb c 128

unfoldable pub compare_digest : String → String → Result Bool
unfolding is_ascii
compare_digest a b =
    if all is_ascii (codes a) && all is_ascii (codes b) then ok (a == b) else err type_error

-- self._events.setdefault(task.task_id, []).append(…)
unfoldable pub emit : TaskRecord → Streams → Streams
emit task s = record s {
  events = put task.task_id (get_or task.task_id [] s.events ++ task.status ∷ []) s.events;
}

unfoldable pub move_to_fifo_tail : String → List String → List String
move_to_fifo_tail task_id fifo = keep (λ item. not (item == task_id)) fifo ++ task_id ∷ []

-- The mutated task under its key, and its event.
unfoldable pub store_task : String → TaskRecord → Streams → Streams
unfolding emit
store_task key task s = emit task (record s { tasks = put key task s.tasks })

-- _active_deployment_lease_locked, which forgets a lease that has run out.
unfoldable pub active_lease : Clocks → Streams → Option Lease × Streams
active_lease now s = elim s.lease [
  | none ↦ (none, s)
  | some l ↦ if leb l.expires_at now.lease then (none, record s { lease = none }) else (some l, s)
]

abbrev pub bound_of : Option Lease → Option String
bound_of none = none
bound_of (some l) = l.bound_task_id

module _ (os : Platform) where
  unfoldable pub unlink_capture : Option String → CaptureRecord → List String → List String
  unlink_capture none c done = done
  unlink_capture (some root) c done = elim c.path [
    | none ↦ done
    | some p ↦ if os.relative_to p root then done ++ p ∷ [] else done
  ]

  unfoldable pub unlink_all : Option String → TaskRecord → List String → List String
  unfolding unlink_capture
  unlink_all root task done = unlink_capture root task.long_capture (
      unlink_capture root task.captures.retail_count (
        unlink_capture root task.captures.large_order_amount
          (unlink_capture root task.captures.large_order_net done)))
