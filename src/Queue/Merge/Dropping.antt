-- ===== src/Queue/Merge/Dropping.antt =====
-- level2_service/queue.py: how `deduplicate_by_symbol` drops the duplicates of a task.
use tonghuashun.Base.{
  String, ◌≡◌, refl, ◌∙◌, Bool, true, false, ◌&&◌, not, Option, none, some, List, [], ◌∷◌, arith,
  ◌==◌, eq_iff, if◌then◌else◌, Bool-cases, Option-cases, inl, inr, All, contains, keep, is_some,
}
use tonghuashun.Dict.{Dict, get, put, pop, get-put, get-pop}
use tonghuashun.Models.{TaskRecord}
use tonghuashun.Queue.{Streams, Platform, unlink_all}
use tonghuashun.Queue.Merge.{task_ids, drop_duplicate, drop_duplicates}

abbrev pub IsDistinct : List String → Type 0
IsDistinct [] = Unit
IsDistinct (x ∷ xs) = (contains x xs ≡ false) × IsDistinct xs

-- Each id has a task.
abbrev pub ArePresent : Dict TaskRecord → List String → Type 0
ArePresent d = All (λ id. is_some (get id d) ≡ true)

present-pop :
    (id : String) (ids : List String) (d : Dict TaskRecord)
    → contains id ids ≡ false
    → ArePresent d ids
    → ArePresent (pop id d) ids
present-pop id [] d n h = tt
present-pop id (x ∷ ids) d n h = (
  ground (arith, h.0, get-pop id x d, eq_iff id x, eq_iff x id),
  present-pop id ids d (ground arith) h.1,
)

pub contains-others :
    (c j : String) (xs : List String)
    → contains j (keep (λ id. not (id == c)) xs) ≡ (contains j xs && not (j == c))
contains-others c j [] = refl
contains-others c j (x ∷ xs) =
    ground (arith, contains-others c j xs, eq_iff x j, eq_iff x c, eq_iff j c)

contains-keep-false :
    (p : String → Bool) (j : String) (xs : List String)
    → contains j xs ≡ false
    → contains j (keep p xs) ≡ false
contains-keep-false p j [] h = refl
contains-keep-false p j (x ∷ xs) h = ground (arith, contains-keep-false p j xs)

pub keep-IsDistinct :
    (p : String → Bool) (xs : List String) → IsDistinct xs → IsDistinct (keep p xs)
keep-IsDistinct p [] h = tt
keep-IsDistinct p (x ∷ xs) h = elim (Bool-cases (p x)) [
  | inl y ↦ rw y (contains-keep-false p x xs h.0, keep-IsDistinct p xs h.1)
  | inr n ↦ rw n (keep-IsDistinct p xs h.1)
]

pub keep-ArePresent :
    (p : String → Bool) (d : Dict TaskRecord) (xs : List String)
    → ArePresent d xs
    → ArePresent d (keep p xs)
keep-ArePresent p d [] h = tt
keep-ArePresent p d (x ∷ xs) h = elim (Bool-cases (p x)) [
  | inl y ↦ rw y (h.0, keep-ArePresent p d xs h.1)
  | inr n ↦ rw n (keep-ArePresent p d xs h.1)
]

pub contains-cleared :
    (ids : List String) (j : String) (xs : List String)
    → contains j ids ≡ true
    → contains j (keep (λ i. not (contains i ids)) xs) ≡ false
contains-cleared ids j [] h = refl
contains-cleared ids j (x ∷ xs) h = elim (Bool-cases (x == j)) [
  | inl same ↦ ground (arith, contains-cleared ids j xs h, eq_iff x j)
  | inr other ↦ ground (arith, contains-cleared ids j xs h)
]

-- The tasks stand in the store under their ids.
abbrev pub AreStored : Dict TaskRecord → List TaskRecord → Type 0
AreStored d = All (λ t. get t.task_id d ≡ some t)

pub stored-ArePresent :
    (d : Dict TaskRecord) (ts : List TaskRecord) → AreStored d ts → ArePresent d (task_ids ts)
stored-ArePresent d [] h = tt
stored-ArePresent d (t ∷ ts) h = (rw h.0 refl, stored-ArePresent d ts h.1)

module _ (os : Platform) where
  -- The duplicates are gone, each with an alias, and all else is as before.
  pub record Dropped (canonical : String) (ids : List String) (s : Streams) (r : Option Streams)
      : Type 0 where
    pub out : Streams
    pub returned : r ≡ some out
    pub tasks : (j : String) → get j out.tasks ≡ (if contains j ids then none else get j s.tasks)
    pub events : (j : String) → get j out.events ≡ (if contains j ids then none else get j s.events)
    pub aliases :
        (j : String)
        → get j out.aliases ≡ (if contains j ids then some canonical else get j s.aliases)
    pub fifo : out.fifo ≡ s.fifo

  Dropped-next :
      (canonical id : String) (ids : List String) (s : Streams) (s1 : Streams) (r : Option Streams)
      → ((j : String) → get j s1.tasks ≡ (if id == j then none else get j s.tasks))
      → ((j : String) → get j s1.events ≡ (if id == j then none else get j s.events))
      → ((j : String) → get j s1.aliases ≡ (if id == j then some canonical else get j s.aliases))
      → s1.fifo ≡ s.fifo
      → Dropped canonical ids s1 r
      → Dropped canonical (id ∷ ids) s r
  Dropped-next canonical id ids s s1 r t e a f d = record {
    out = d.out;
    returned = d.returned;
    tasks = λ j. ground (arith, d.tasks j, t j, eq_iff id j, eq_iff j id);
    events = λ j. ground (arith, d.events j, e j, eq_iff id j, eq_iff j id);
    aliases = λ j. ground (arith, d.aliases j, a j, eq_iff id j, eq_iff j id);
    fifo = d.fifo ∙ f;
  }

  -- The store without one duplicate.
  abbrev dropped : String → String → TaskRecord → Streams → Streams
  dropped canonical id task s = record s {
    tasks = pop id s.tasks;
    unlinked = unlink_all os s.capture_root task s.unlinked;
    events = pop id s.events;
    aliases = put id canonical s.aliases;
  }

  pub drop-Dropped :
      (canonical : String) (ids : List String) (s : Streams)
      → IsDistinct ids
      → ArePresent s.tasks ids
      → Dropped canonical ids s (drop_duplicates os canonical ids s)
  unfolding drop_duplicates drop_duplicate
  drop-Dropped canonical [] s d p = record {
    out = s;
    returned = refl;
    tasks = λ j. refl;
    events = λ j. refl;
    aliases = λ j. refl;
    fifo = refl;
  }
  drop-Dropped canonical (id ∷ ids) s d p = elim (Option-cases (get id s.tasks)) [
    | inl e ↦ absurd (ground (arith, p.0))
    | inr (task, e) ↦
        rw (e, drop_duplicates, drop_duplicate)
          (Dropped-next canonical id ids s (dropped canonical id task s)
            (drop_duplicates os canonical ids (dropped canonical id task s))
            (λ j. get-pop id j s.tasks) (λ j. get-pop id j s.events)
            (λ j. get-put id j canonical s.aliases) refl
            (drop-Dropped canonical ids (dropped canonical id task s) d.1
              (present-pop id ids s.tasks d.0 p.1)))
  ]
