-- ===== src/Redis/Refines.antt =====
-- level2_service/queue.py: the two stores of tasks side by side. `InMemoryStreams` leaves the ids of
-- started tasks in its queue and forgets a lease that has run out; `RedisStreamsStore` does not.
pub mod Waiting
pub mod Claims
pub mod Results
pub mod Sequences
use tonghuashun.Base.{
  ℕ, ◌≤◌, ◌≡◌, refl, ap, ◌∙◌, sym, String, Bool, true, false, Option, none, some, arith, leb,
  if◌then◌else◌, keep, Option-cases, Bool-cases, inl, inr,
}
use tonghuashun.Dict.{get}
use tonghuashun.Models.{TaskRecord}
use tonghuashun.Queue.{Streams, Clocks, Lease, active_lease, is_digest}
use tonghuashun.Queue.Claim.{waits}
use tonghuashun.Queue.Keyed.{IsKeyed}
use tonghuashun.Redis.{RedisStore, Server, live_lease}

-- A lease at a time of the lease clock.
unfoldable pub lease_at : ℕ → Option Lease → Option Lease
lease_at now none = none
lease_at now (some l) = if leb l.expires_at now then none else some l

-- From a time on, the stores hold the same tasks under the same ids, the same ids wait in the same
-- order, and the same lease is in force.
pub record Agrees (from : ℕ) (m : Streams) (s : RedisStore) : Type 0 where
  pub tasks : (id : String) → get id m.tasks ≡ get id s.payloads
  pub waiting : keep (waits m.tasks) m.fifo ≡ keep (waits s.payloads) s.queue
  pub leases : (now : ℕ) → from ≤ now → lease_at now m.lease ≡ lease_at now s.lease
  pub digests :
      (l : Lease) (d : String) → m.lease ≡ some l → l.owner_digest ≡ some d → is_digest d ≡ true
  pub keyed : IsKeyed s.payloads

-- The clocks of a call to the one store and of the same call to the other.
abbrev pub memory_clocks : Server → Clocks
memory_clocks now = record { utc = now.utc; lease = now.clock; lease_later = now.clock }

pub live_lease-lease_at :
    (now : Server) (s : RedisStore) → live_lease now s ≡ lease_at now.clock s.lease
unfolding live_lease lease_at
live_lease-lease_at now s = elim (Option-cases s.lease) [
  | inl e ↦ rw (e, live_lease, lease_at) refl
  | inr (l, e) ↦ rw (e, live_lease, lease_at) refl
]

pub active_lease-lease_at :
    (now : Server) (m : Streams)
    → active_lease (memory_clocks now) m
      ≡ (lease_at now.clock m.lease, record m { lease = lease_at now.clock m.lease })
unfolding active_lease lease_at
active_lease-lease_at now m = elim (Option-cases m.lease) [
  | inl e ↦ rw (e, active_lease, lease_at) (ap (λ x. (none, record m { lease = x })) e)
  | inr (l, e) ↦ elim (Bool-cases (leb l.expires_at now.clock)) [
    | inl x ↦ rw (e, active_lease, lease_at, x) refl
    | inr x ↦ rw (e, active_lease, lease_at, x) (ap (λ y. (some l, record m { lease = y })) e)
  ]
]

pub lease_at-later :
    (now later : ℕ) (l : Option Lease)
    → now ≤ later
    → lease_at later (lease_at now l) ≡ lease_at later l
unfolding lease_at
lease_at-later now later none h = refl
lease_at-later now later (some l) h = elim (Bool-cases (leb l.expires_at now)) [
  | inl e ↦ rw (e, lease_at) (ground arith)
  | inr e ↦ rw (e, lease_at) refl
]

pub lease_at-some : (now : ℕ) (o : Option Lease) (l : Lease) → lease_at now o ≡ some l → o ≡ some l
unfolding lease_at
lease_at-some now none l e = absurd (ground arith)
lease_at-some now (some x) l e = ground arith

-- What holds from a time on holds from later times on.
pub later-Agrees :
    (from now : ℕ) (m : Streams) (s : RedisStore) → from ≤ now → Agrees from m s → Agrees now m s
later-Agrees from now m s le h = record {
  tasks = h.tasks;
  waiting = h.waiting;
  leases = λ later o. h.leases later (omega (arith, le, o));
  digests = h.digests;
  keyed = h.keyed;
}
