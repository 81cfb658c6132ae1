-- ===== src/Redis/Recover.antt =====
-- level2_service/queue.py: `recover_running` of `RedisStreamsStore`, with THS_RECOVER_RUNNING.
use tonghuashun.Base.{
  String, Bool, ◌&&◌, ◌||◌, none, some, List, [], ◌∷◌, ◌++◌, ltb, nat_eq, if◌then◌else◌,
}
use tonghuashun.Dict.{Dict, get}
use tonghuashun.Models.{TaskRecord}
use tonghuashun.Queue.Canonical.{text_lt}
use tonghuashun.Queue.Recover.{recover_task, is_running}
use tonghuashun.Redis.{RedisStore, Server, set_task, trim_events}

-- The running tasks of the set of ids, under their ids.
unfoldable pub running_members : Dict TaskRecord → List String → List (String × TaskRecord)
unfolding is_running
running_members payloads [] = []
running_members payloads (id ∷ ids) =
    let rest = running_members payloads ids in
    elim (get id payloads) [
      | none ↦ rest
      | some task ↦ if is_running task then (id, task) ∷ rest else rest
    ]

-- The order of the script: by time of creation, then by id.
unfoldable pub starts_before : String × TaskRecord → String × TaskRecord → Bool
unfolding text_lt
starts_before (i, t) (j, u) =
    ltb t.created_at u.created_at || (nat_eq t.created_at u.created_at && text_lt i j)

-- table.sort
unfoldable pub insert_entry :
    String × TaskRecord → List (String × TaskRecord) → List (String × TaskRecord)
unfolding starts_before
insert_entry e [] = e ∷ []
insert_entry e (x ∷ xs) =
    let rest = insert_entry e xs in if starts_before x e then x ∷ rest else e ∷ x ∷ xs

unfoldable pub sort_entries : List (String × TaskRecord) → List (String × TaskRecord)
unfolding insert_entry
sort_entries [] = []
sort_entries (e ∷ es) = insert_entry e (sort_entries es)

-- The loop that writes the recovered tasks.
unfoldable pub recover_entries :
    Server → List (String × TaskRecord) → RedisStore → List TaskRecord × RedisStore
unfolding recover_task set_task
recover_entries now [] s = ([], s)
recover_entries now ((id, t) ∷ es) s =
    let (rest, s') = recover_entries now es (set_task id (recover_task now.utc t) s) in
    (recover_task now.utc t ∷ rest, s')

abbrev pub entry_ids : List (String × TaskRecord) → List String
entry_ids [] = []
entry_ids ((id, t) ∷ es) = id ∷ entry_ids es

-- LPUSH from the last entry to the first.
unfoldable pub push_front : List String → RedisStore → RedisStore
push_front ids s = record s { queue = ids ++ s.queue }

unfoldable pub recover_running : Server → RedisStore → List TaskRecord × RedisStore
unfolding recover_entries sort_entries running_members push_front trim_events
recover_running now s =
    let entries = sort_entries (running_members s.payloads s.index) in
    let (tasks, s') = recover_entries now entries s in
    (tasks, trim_events now (push_front (entry_ids entries) s'))
