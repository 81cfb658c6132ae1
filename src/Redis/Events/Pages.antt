-- ===== src/Redis/Events/Pages.antt =====
-- level2_service/queue.py: reading the event stream page by page with `events_after_cursor`.
use tonghuashun.Base.{
  ℕ, zero, suc, ◌-◌, ◌≤◌, ◌<◌, ◌≡◌, ◌≢◌, ◌⊎◌, refl, sym, ap, ◌∙◌, String, Bool, false, Option, none,
  some, List, [], ◌∷◌, ◌++◌, arith, ◌==◌, ltb, keep, Bool-cases, inl, inr,
}
use tonghuashun.Redis.{RedisStore, Event}
use tonghuashun.Redis.Find.{resolve_task_id}
use tonghuashun.Redis.Events.{xrange, read_page, events_of, safe_limit, events_after_cursor}

-- The ids of the entries go up from a number.
abbrev pub IsAbove : ℕ → List Event → Type 0
IsAbove c [] = Unit
IsAbove c (e ∷ es) = (c < e.entry_id) × IsAbove e.entry_id es

-- All entries above the cursor are kept.
xrange-above :
    (c d : ℕ) (es : List Event) → c ≤ d → IsAbove d es → keep (λ e. ltb c e.entry_id) es ≡ es
xrange-above c d [] h a = refl
xrange-above c d (e ∷ es) h a =
    ground (arith, a.0, xrange-above c e.entry_id es (omega (arith, h, a.0)) a.1)

IsAbove-weaken : (c d : ℕ) (es : List Event) → c ≤ d → IsAbove d es → IsAbove c es
IsAbove-weaken c d [] h a = tt
IsAbove-weaken c d (e ∷ es) h a = (omega (arith, h, a.0), a.1)

keep-IsAbove : (p : Event → Bool) (c : ℕ) (es : List Event) → IsAbove c es → IsAbove c (keep p es)
keep-IsAbove p c [] a = tt
keep-IsAbove p c (e ∷ es) a = elim (Bool-cases (p e)) [
  | inl b ↦ rw b (a.0, keep-IsAbove p e.entry_id es a.1)
  | inr b ↦ rw b (keep-IsAbove p c es (IsAbove-weaken c e.entry_id es (omega (arith, a.0)) a.1))
]

IsAbove-cursor :
    (c d : ℕ) (es : List Event) → IsAbove c es → IsAbove d (keep (λ e. ltb d e.entry_id) es)
IsAbove-cursor c d [] a = tt
IsAbove-cursor c d (e ∷ es) a = elim (Bool-cases (ltb d e.entry_id)) [
  | inl b ↦ rw b (ground arith, keep-IsAbove (λ x. ltb d x.entry_id) e.entry_id es a.1)
  | inr b ↦ rw b (IsAbove-cursor e.entry_id d es a.1)
]

-- Two cursors, the later one last.
keep-keep :
    (c d : ℕ) (es : List Event)
    → c ≤ d
    → keep (λ e. ltb d e.entry_id) (keep (λ e. ltb c e.entry_id) es)
      ≡ keep (λ e. ltb d e.entry_id) es
keep-keep c d [] h = refl
keep-keep c d (e ∷ es) h = ground (arith, h, keep-keep c d es h)

-- A page and what is behind its cursor.
record IsSplit (id : String) (c : ℕ) (es : List Event) (page : List Event × Option ℕ) : Type 0 where
  cursor : ℕ
  next : page.1 ≡ some cursor
  later : c ≤ cursor
  whole : page.0 ++ events_of id (keep (λ e. ltb cursor e.entry_id) es) ≡ events_of id es

read_page-IsSplit :
    (id : String) (room c : ℕ) (es : List Event)
    → IsAbove c es
    → IsSplit id c es (read_page id room es (some c))
unfolding read_page
read_page-IsSplit id zero c es a = record {
  cursor = c;
  next = refl;
  later = omega arith;
  whole = ap (events_of id) (xrange-above c c es (omega arith) a);
}
read_page-IsSplit id (suc room) c [] a = record {
  cursor = c;
  next = refl;
  later = omega arith;
  whole = refl;
}
read_page-IsSplit id (suc room) c (e ∷ es) a = elim (Bool-cases (e.task_id == id)) [
  | inl mine ↦
      let rest = read_page-IsSplit id room e.entry_id es a.1 in
      let skip : ltb rest.cursor e.entry_id ≡ false = ground (arith, rest.later) in
      rw mine (record {
        cursor = rest.cursor;
        next = rest.next;
        later = omega (arith, a.0, rest.later);
        whole = rw (skip, mine) (ap (λ l. e ∷ l) rest.whole);
      })
  | inr other ↦
      let rest = read_page-IsSplit id (suc room) e.entry_id es a.1 in
      let skip : ltb rest.cursor e.entry_id ≡ false = ground (arith, rest.later) in
      rw other (record {
        cursor = rest.cursor;
        next = rest.next;
        later = omega (arith, a.0, rest.later);
        whole = rw (skip, other) rest.whole;
      })
]

-- An empty page means that no event is left.
read_page-empty :
    (id : String) (room : ℕ) (es : List Event) (cursor : Option ℕ)
    → (read_page id (suc room) es cursor).0 ≡ []
    → events_of id es ≡ []
unfolding read_page
read_page-empty id room [] cursor h = refl
read_page-empty id room (e ∷ es) cursor h = elim (Bool-cases (e.task_id == id)) [
  | inl mine ↦ absurd (ground arith)
  | inr other ↦ rw other (read_page-empty id room es (some e.entry_id) (rw (read_page, other) at h))
]

-- Nothing is lost and nothing comes twice between a page and what its cursor leaves, and the reader
-- gets on.
abbrev IsPage : String → Option ℕ → List Event → List Event × Option ℕ → Type 0
unfolding xrange
IsPage id cursor es page =
    (page.0 ++ events_of id (xrange page.1 es) ≡ events_of id (xrange cursor es))
    × ((page.0 ≢ []) ⊎ (events_of id (xrange cursor es) ≡ []))

empty_or : (page : List Event) (P : Type 0) → (page ≡ [] → P) → (page ≢ []) ⊎ P
empty_or [] P f = inr (f refl)
empty_or (e ∷ page) P f = inl (λ q. absurd (ground arith))

no_entries : (id : String) (room : ℕ) → read_page id (suc room) [] none ≡ ([], none)
unfolding read_page
no_entries id room = refl

-- The cursor of the request plays no part where there is an entry.
any_cursor :
    (id : String) (room : ℕ) (e : Event) (es : List Event)
    → read_page id (suc room) (e ∷ es) none ≡ read_page id (suc room) (e ∷ es) (some 0)
unfolding read_page
any_cursor id room e es = refl

read_page-IsPage :
    (id : String) (room : ℕ) (cursor : Option ℕ) (es : List Event)
    → IsAbove 0 es
    → IsPage id cursor es (read_page id (suc room) (xrange cursor es) cursor)
unfolding xrange
read_page-IsPage id room (some c) es a =
    let rest = keep (λ e. ltb c e.entry_id) es in
    let split = read_page-IsSplit id (suc room) c rest (IsAbove-cursor 0 c es a) in
    (
      rw split.next (
          ap (λ l. (read_page id (suc room) rest (some c)).0 ++ events_of id l)
            (sym (keep-keep c split.cursor es split.later))
          ∙ split.whole),
      empty_or (read_page id (suc room) rest (some c)).0 (events_of id rest ≡ [])
          (read_page-empty id room rest (some c)),
    )
read_page-IsPage id room none [] a = rw (no_entries id room) (refl, inr refl)
read_page-IsPage id room none (e ∷ es) a =
    let split = read_page-IsSplit id (suc room) 0 (e ∷ es) a in
    let same = any_cursor id room e es in
    rw same (
      rw split.next split.whole,
      empty_or (read_page id (suc room) (e ∷ es) (some 0)).0 (events_of id (e ∷ es) ≡ [])
          (read_page-empty id room (e ∷ es) (some 0)),
    )

safe_limit-suc : (limit : ℕ) → safe_limit limit ≡ suc (safe_limit limit - 1)
safe_limit-suc limit = ground arith

-- A page of events and the events behind its cursor are together the task's events behind the cursor
-- of the request, in their order, and an empty page means that there are none, if the ids of the
-- entries go up.
pub events_after_cursor-events_of :
    (task_id id : String) (cursor : Option ℕ) (limit : ℕ) (s : RedisStore)
    → IsAbove 0 s.events
    → resolve_task_id task_id s ≡ some id
    → ((events_after_cursor task_id cursor limit s).0
          ++ events_of id (xrange (events_after_cursor task_id cursor limit s).1 s.events)
        ≡ events_of id (xrange cursor s.events))
      × (((events_after_cursor task_id cursor limit s).0 ≢ [])
          ⊎ (events_of id (xrange cursor s.events) ≡ []))
unfolding events_after_cursor
events_after_cursor-events_of task_id id cursor limit s a e =
    let page = read_page-IsPage id (safe_limit limit - 1) cursor s.events a in
    rw (events_after_cursor, e, safe_limit-suc limit) page
