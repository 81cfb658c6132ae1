-- ===== src/Redis/Events.antt =====
-- level2_service/queue.py: how `RedisStreamsStore` reads the event stream. The id of an entry is a
-- number, in the order of the stream.
pub mod Pages
use tonghuashun.Base.{
  ℕ, zero, suc, ◌+◌, ◌-◌, String, Bool, true, false, not, Option, none, some, List, [], ◌∷◌, ◌==◌,
  leb, ltb, if◌then◌else◌, keep, drop, take,
}
use tonghuashun.Models.{TaskStatus}
use tonghuashun.Redis.{RedisStore, Event}
use tonghuashun.Redis.Find.{resolve_task_id}

-- XRANGE from the cursor, which is left out.
unfoldable pub xrange : Option ℕ → List Event → List Event
xrange none events = events
xrange (some cursor) events = keep (λ e. ltb cursor e.entry_id) events

-- max(1, min(limit, 500))
abbrev pub safe_limit : ℕ → ℕ
safe_limit limit = if leb limit 0 then 1 else if leb 500 limit then 500 else limit

abbrev pub add_event : Event → List Event × Option ℕ → List Event × Option ℕ
add_event e page = (e ∷ page.0, page.1)

-- The loop of events_after_cursor, with room for the given number of events.
unfoldable pub read_page : String → ℕ → List Event → Option ℕ → List Event × Option ℕ
read_page id zero entries cursor = ([], cursor)
read_page id (suc room) [] cursor = ([], cursor)
read_page id (suc room) (e ∷ entries) cursor =
    let skip = read_page id (suc room) entries (some e.entry_id) in
    let more = read_page id room entries (some e.entry_id) in
    if e.task_id == id then add_event e more else skip

unfoldable pub events_after_cursor : String → Option ℕ → ℕ → RedisStore → List Event × Option ℕ
unfolding read_page xrange resolve_task_id
events_after_cursor task_id cursor limit s = elim (resolve_task_id task_id s) [
  | none ↦ ([], cursor)
  | some id ↦ read_page id (safe_limit limit) (xrange cursor s.events) cursor
]

-- The loop of events_after, which stops at the limit after it has added an event.
unfoldable pub collect : String → ℕ → List Event → List Event
collect id room [] = []
collect id room (e ∷ entries) =
    let skip = collect id room entries in
    let more = collect id (room - 1) entries in
    if e.task_id == id then (if leb room 1 then e ∷ [] else e ∷ more) else skip

abbrev pub events_of : String → List Event → List Event
events_of id entries = keep (λ e. e.task_id == id) entries

-- events_after with a position in the list of the task's events; it is not negative.
unfoldable pub events_after_index : String → ℕ → Option ℕ → List Event → List Event
unfolding collect
events_after_index id index none entries = drop index (events_of id entries)
events_after_index id index (some limit) entries =
    take limit (drop index (collect id limit entries))

-- Where events_after begins: at a position, or behind the id of an entry.
pub data Start : Type 0 where
  position : ℕ → Start
  behind : ℕ → Start

unfoldable pub events_from : String → Start → Option ℕ → List Event → List Event
unfolding events_after_index xrange collect
events_from id (position index) limit entries = events_after_index id index limit entries
events_from id (behind cursor) none entries = events_of id (xrange (some cursor) entries)
events_from id (behind cursor) (some limit) entries =
    collect id limit (xrange (some cursor) entries)

unfoldable pub events_after : String → Start → Option ℕ → RedisStore → List Event
unfolding events_from resolve_task_id
events_after task_id start limit s = elim (resolve_task_id task_id s) [
  | none ↦ []
  | some id ↦ events_from id start limit s.events
]
