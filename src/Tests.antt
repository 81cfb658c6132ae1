-- ===== src/Tests.antt =====
-- Test data for level2_service/queue.py, shared by the tests below this module.
pub mod Submitting
pub mod Claiming
pub mod Concluding
pub mod Leasing
pub mod Deadlines
pub mod Logins
pub mod Funds
pub mod Hours
pub mod Merging
pub mod Codes
pub mod Counting
pub mod Mirroring
pub mod Streaming
pub mod Serving
pub mod Managing
use tonghuashun.Base.{ℕ, String, Bool, true, false, Option, none, some, List, [], ◌∷◌, pos}
use tonghuashun.Models.{TaskRecord, TaskStatus, new_task}
use tonghuashun.Redis.{RedisStore, Server}
use tonghuashun.Queue.{Streams, Platform, Clocks, Lease, namespace}

-- A digest that is well formed, and a file system where all paths lie below the root.
abbrev pub zero_digest : String
zero_digest = "0000000000000000000000000000000000000000000000000000000000000000"

abbrev pub plain_platform : Platform
plain_platform = record { sha256_hex = λ _. zero_digest; relative_to = λ _ _. true }

abbrev pub at : ℕ → Clocks
at t = record { utc = t; lease = t; lease_later = t }

abbrev pub first_task : TaskRecord
unfolding new_task
first_task = new_task "a" "600000" true 1

abbrev pub second_task : TaskRecord
unfolding new_task
second_task = new_task "b" "600001" false 2

abbrev pub new_task_c : TaskRecord
unfolding new_task
new_task_c = new_task "c" "600000" true 3

-- The first task failed, the second one waits.
abbrev pub failed_task : TaskRecord
unfolding new_task
failed_task = record first_task { status = TaskStatus.failed; completed_at = some 5 }

abbrev pub two_tasks : Streams
two_tasks = record {
  pending_cap = 2;
  capture_root = none;
  tasks = ("a", failed_task) ∷ ("b", second_task) ∷ [];
  fifo = "a" ∷ "b" ∷ [];
  events = [];
  aliases = [];
  lease = none;
  unlinked = [];
}

-- The first task runs, without a long capture, and the second one waits.
abbrev pub running_task : TaskRecord
unfolding new_task
running_task = record (new_task "a" "600000" false 1) { status = TaskStatus.running }

abbrev pub one_running : Streams
one_running = record two_tasks {
  tasks = ("a", running_task) ∷ ("b", second_task) ∷ [];
  fifo = "b" ∷ [];
  aliases = ("old", "a") ∷ [];
}

-- An owner of a deployment lease, and a store in which it has one.
abbrev pub owner : String
owner = "0123456789abcdef0123456789abcdef"

abbrev pub owner_lease : Lease
owner_lease = record {
  owner_token = owner;
  owner_digest = some zero_digest;
  bound_task_id = none;
  expires_at = 100;
}

abbrev pub leased : Streams
leased = record two_tasks { lease = some owner_lease }

-- A server whose clock shows the given time, and stores in it.
abbrev pub server_at : ℕ → Server
server_at t = record { utc = t; clock = t; trimmed = 0; writes_event = true }

abbrev pub empty_store : RedisStore
empty_store = record {
  pending_cap = 2;
  capture_root = none;
  queue = [];
  payloads = [];
  index = [];
  events = [];
  last_entry = 0;
  symbols = [];
  aliases = [];
  lease = none;
  active = some (pos 0);
  unlinked = [];
}

-- The two tasks of `two_tasks`, of which the second one waits.
abbrev pub two_stored : RedisStore
two_stored = record empty_store {
  queue = "b" ∷ [];
  payloads = two_tasks.tasks;
  index = "a" ∷ "b" ∷ [];
  symbols = ("600000", "a") ∷ ("600001", "b") ∷ [];
  active = some (pos 1);
}
