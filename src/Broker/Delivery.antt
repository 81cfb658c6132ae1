-- ===== src/Broker/Delivery.antt =====
-- level2_service/market_data.py: what `MarketDataBroker` hands to its subscribers.
pub mod Steps
use tonghuashun.Base.{
  ℕ, ◌≡◌, ◌≢◌, refl, sym, ap, ◌∙◌, subst, String, Bool, true, false, ◌&&◌, ◌||◌, not, Option, none,
  some, List, [], ◌∷◌, ◌++◌, arith, ◌==◌, eq_iff, eq_refl, All, All-keep, Bool-cases, Option-cases,
  inl, inr, if◌then◌else◌, is_none, keep,
}
use tonghuashun.Dict.{Dict, get, get_or, put, pop, get-put, get-pop}
use tonghuashun.Broker.{
  Snapshot, MarketEvent, EventType, type_eq, event_type, Key, key_eq, Pending, Subscription,
  MarketDataBroker, new_broker, wants, keep_wanted, subscribe, forget_symbol, forget_unreferenced,
  unsubscribe, seed, or_empty, queue_of, pending_of, referenced,
}
use tonghuashun.Broker.Events.{
  find_event, put_event, pop_event, wanted, wants_of, publish_to, publish_each, publish, take_event,
  next_event,
}

abbrev pub event_symbol : MarketEvent → String
event_symbol (MarketEvent.snapshot x) = x.symbol
event_symbol (MarketEvent.source_status symbol code) = symbol

abbrev pub has_key : Key → List Key → Bool
has_key k [] = false
has_key k (j ∷ js) = key_eq j k || has_key k js

-- A pending event of a client: its symbol is wanted, its key is in the queue, and it is about the
-- symbol of its key.
pub record IsEntry (wants_symbol : String → Bool) (queue : List Key) (e : Key × MarketEvent)
    : Type 0 where
  pub asked : wants_symbol e.0.0 ≡ true
  pub queued : has_key e.0 queue ≡ true
  pub own : event_symbol e.1 ≡ e.0.0

unfoldable pub IsClient : Option Subscription → Option (List Key) → Option Pending → Type 0
IsClient sub queue pending = All (IsEntry (wants_of sub) (or_empty queue)) (or_empty pending)

abbrev pub IsServed : MarketDataBroker → Type 0
IsServed b =
    (client : String)
    → IsClient (get client b.subscriptions) (get client b.queues) (get client b.pending)

type_eq-same : (k l : EventType) → type_eq k l ≡ true → k ≡ l
type_eq-same EventType.snapshot EventType.snapshot h = refl
type_eq-same EventType.source_status EventType.source_status h = refl
type_eq-same EventType.snapshot EventType.source_status h = absurd (ground arith)
type_eq-same EventType.source_status EventType.snapshot h = absurd (ground arith)

type_eq_refl : (k : EventType) → type_eq k k ≡ true
type_eq_refl EventType.snapshot = refl
type_eq_refl EventType.source_status = refl

key_eq-same : (j k : Key) → key_eq j k ≡ true → j ≡ k
key_eq-same (s, x) (t, y) h =
    let symbols : s ≡ t = ground (arith, eq_iff s t) in
    let types : x ≡ y = type_eq-same x y (ground arith) in λ i. (symbols i, types i)

pub key_eq_refl : (k : Key) → key_eq k k ≡ true
key_eq_refl (s, x) = rw (eq_refl s, type_eq_refl x) refl

module _ {A : Type 0} {P Q : A → Type 0} where
  pub All-weaken : (xs : List A) → ((x : A) → P x → Q x) → All P xs → All Q xs
  All-weaken [] f h = tt
  All-weaken (x ∷ xs) f h = (f x h.0, All-weaken xs f h.1)

module _ (P : Key × MarketEvent → Type 0) where
  pub put_event-All :
      (k : Key) (e : MarketEvent) (p : Pending) → P (k, e) → All P p → All P (put_event k e p)
  unfolding put_event
  put_event-All k e [] q h = (q, tt)
  put_event-All k e ((j, f) ∷ p) q h = elim (Bool-cases (key_eq j k)) [
    | inl same ↦ rw same (subst (λ i. P (i, e)) (sym (key_eq-same j k same)) q, h.1)
    | inr other ↦ rw other (h.0, put_event-All k e p q h.1)
  ]

  pub find_event-All :
      (k : Key) (e : MarketEvent) (p : Pending) → find_event k p ≡ some e → All P p → P (k, e)
  unfolding find_event
  find_event-All k e [] q h = absurd (ground arith)
  find_event-All k e ((j, f) ∷ p) q h = elim (Bool-cases (key_eq j k)) [
    | inl same ↦
        let event : f ≡ e = ground (arith, same) in
        subst (λ i. P (i, e)) (key_eq-same j k same) (subst (λ x. P (j, x)) event h.0)
    | inr other ↦ find_event-All k e p (rw (find_event, other) at q) h.1
  ]

key_eq_other : (j k : Key) → key_eq j k ≡ false → key_eq k j ≡ false
key_eq_other j k h = elim (Bool-cases (key_eq k j)) [
  | inr other ↦ other
  | inl same ↦
      let twice : key_eq j j ≡ false = subst (λ i. key_eq j i ≡ false) (key_eq-same k j same) h in
      absurd (ground (arith, twice, key_eq_refl j))
]

-- An entry with another key does not need the first one of the queue.
rest-IsEntry :
    (f : String → Bool) (k : Key) (queue : List Key) (e : Key × MarketEvent)
    → key_eq e.0 k ≡ false
    → IsEntry f (k ∷ queue) e
    → IsEntry f queue e
rest-IsEntry f k queue e other h = record {
  asked = h.asked;
  queued = rw (key_eq_other e.0 k other) at h.queued;
  own = h.own;
}

-- Without the popped key, the rest of the queue is enough.
skip-IsEntry :
    (f : String → Bool) (k : Key) (queue : List Key) (p : Pending)
    → find_event k p ≡ none
    → All (IsEntry f (k ∷ queue)) p
    → All (IsEntry f queue) p
unfolding find_event
skip-IsEntry f k queue [] e h = tt
skip-IsEntry f k queue ((j, x) ∷ p) e h = elim (Bool-cases (key_eq j k)) [
  | inl same ↦ absurd (ground (arith, same))
  | inr other ↦ (
    rest-IsEntry f k queue (j, x) other h.0,
    skip-IsEntry f k queue p (rw (find_event, other) at e) h.1,
  )
]

pop-IsEntry :
    (f : String → Bool) (k : Key) (queue : List Key) (p : Pending)
    → All (IsEntry f (k ∷ queue)) p
    → All (IsEntry f queue) (pop_event k p)
unfolding pop_event
pop-IsEntry f k queue [] h = tt
pop-IsEntry f k queue ((j, x) ∷ p) h = elim (Bool-cases (key_eq j k)) [
  | inl same ↦ rw same (pop-IsEntry f k queue p h.1)
  | inr other ↦ rw other (rest-IsEntry f k queue (j, x) other h.0, pop-IsEntry f k queue p h.1)
]

-- What the loop of next_event takes and leaves.
pub record IsTaken (f : String → Bool) (p : Pending) (r : Option MarketEvent × List Key × Pending)
    : Type 0 where
  pub left : All (IsEntry f r.1) r.2
  pub good : (e : MarketEvent) → r.0 ≡ some e → f (event_symbol e) ≡ true
  pub empty : r.0 ≡ none → p ≡ []

pub take_event-IsTaken :
    (f : String → Bool) (queue : List Key) (p : Pending)
    → All (IsEntry f queue) p
    → IsTaken f p (take_event queue p)
unfolding take_event
take_event-IsTaken f [] [] h = record {
  left = tt;
  good = λ e q. absurd (ground arith);
  empty = λ _. refl;
}
take_event-IsTaken f [] ((j, x) ∷ p) h = absurd (ground (arith, h.0.queued))
take_event-IsTaken f (k ∷ queue) p h = elim (Option-cases (find_event k p)) [
  | inr (event, e) ↦
      let found = find_event-All (IsEntry f (k ∷ queue)) k event p e h in
      rw (take_event, e)
        (record {
          left = pop-IsEntry f k queue p h;
          good = λ x q.
              let same : event ≡ x = ground arith in
              subst (λ y. f (event_symbol y) ≡ true) same
                (subst (λ t. f t ≡ true) (sym found.own) found.asked);
          empty = λ q. absurd (ground arith);
        })
  | inl e ↦ rw (take_event, e) (take_event-IsTaken f queue p (skip-IsEntry f k queue p e h))
]
