-- ===== src/Broker/Delivery/Steps.antt =====
-- level2_service/market_data.py: the pending events of `MarketDataBroker` through its operations.
pub mod Taking
pub mod Sequences
use tonghuashun.Base.{
  ℕ, ◌≡◌, refl, sym, ap, ◌∙◌, subst, String, Bool, true, false, ◌&&◌, ◌||◌, not, Option, none, some,
  List, [], ◌∷◌, ◌++◌, arith, ◌==◌, eq_iff, eq_refl, All, All-keep, Bool-cases, Option-cases, inl,
  inr, if◌then◌else◌, is_none, keep,
}
use tonghuashun.Dict.{Dict, get, get_or, put, pop, get-put, get-pop}
use tonghuashun.Broker.{
  Snapshot, MarketEvent, event_type, Key, key_eq, Pending, Subscription, MarketDataBroker, wants,
  keep_wanted, subscribe, forget_symbol, forget_unreferenced, unsubscribe, seed, or_empty, queue_of,
  pending_of, referenced,
}
use tonghuashun.Broker.Events.{
  find_event, put_event, wanted, wants_of, publish_to, publish_each, publish, take_event,
  next_event,
}
use tonghuashun.Broker.Delivery.{
  event_symbol, has_key, IsEntry, IsClient, IsServed, key_eq_refl, All-weaken, put_event-All,
  find_event-All, IsTaken, take_event-IsTaken,
}

-- The operations that leave subscriptions, queues and pending events.
pub frame-IsServed :
    (b b' : MarketDataBroker)
    → b'.subscriptions ≡ b.subscriptions
    → b'.queues ≡ b.queues
    → b'.pending ≡ b.pending
    → IsServed b
    → IsServed b'
frame-IsServed b b' p q r h client = rw (p, q, r) (h client)

-- One client has the given queue and events under the given subscription, and the others are as
-- they were.
pub changed_client-IsServed :
    (client : String) (sub : Option Subscription) (queue : List Key) (events : Pending)
    (b b' : MarketDataBroker)
    → ((other : String)
        → get other b'.subscriptions ≡ (if client == other then sub else get other b.subscriptions))
    → ((other : String) → queue_of other b' ≡ (if client == other then queue else queue_of other b))
    → b'.pending ≡ put client events b.pending
    → All (IsEntry (wants_of sub) queue) events
    → IsServed b
    → IsServed b'
unfolding IsClient
changed_client-IsServed client sub queue events b b' p q r new h other =
    elim (Bool-cases (client == other)) [
      | inl e ↦ rw (p other, q other, r, get-put client other events b.pending, e) new
      | inr e ↦ rw (p other, q other, r, get-put client other events b.pending, e) (h other)
    ]

pub queue_of-put :
    (client : String) (queue : List Key) (queues : Dict (List Key)) (other : String)
    → or_empty (get other (put client queue queues))
      ≡ (if client == other then queue else or_empty (get other queues))
queue_of-put client queue queues other = elim (Bool-cases (client == other)) [
  | inl e ↦ rw (get-put client other queue queues, e) refl
  | inr e ↦ rw (get-put client other queue queues, e) refl
]

-- The subscription of a client stays.
pub same_subscription :
    (client other : String) (b : MarketDataBroker)
    → get other b.subscriptions
      ≡ (if client == other then get client b.subscriptions else get other b.subscriptions)
same_subscription client other b = elim (Bool-cases (client == other)) [
  | inl e ↦ rw e (ap (λ c. get c b.subscriptions) (sym ((eq_iff client other).0 e)))
  | inr e ↦ rw e refl
]

keep_wanted-IsEntry :
    (f : String → Bool) (sub : Subscription) (queue : List Key) (events : Pending)
    → All (IsEntry f queue) events
    → All (IsEntry (wants sub) queue) (keep_wanted sub events)
unfolding keep_wanted
keep_wanted-IsEntry f sub queue events h =
    All-weaken (keep (λ e. wants sub e.0.0) events)
      (λ e k. record { asked = k.1; queued = k.0.queued; own = k.0.own })
      (All-keep (IsEntry f queue) (λ e. wants sub e.0.0) events h)

pub subscribe-IsServed :
    (market_open : Bool) (client : String) (sub : Subscription) (b : MarketDataBroker)
    → IsServed b
    → IsServed (subscribe market_open client sub b).1
unfolding subscribe IsClient
subscribe-IsServed market_open client sub b h =
    changed_client-IsServed client (some sub) (queue_of client b)
      (keep_wanted sub (pending_of client b)) b (subscribe market_open client sub b).1
      (λ other. get-put client other sub b.subscriptions)
      (queue_of-put client (queue_of client b) b.queues) refl
      (keep_wanted-IsEntry (wants_of (get client b.subscriptions)) sub (queue_of client b)
        (pending_of client b) (h client))
      h

if-IsServed :
    (c : Bool) (x y : MarketDataBroker) → IsServed x → IsServed y → IsServed (if c then x else y)
if-IsServed true x y h k = h
if-IsServed false x y h k = k

forget-IsServed :
    (cache : Dict Snapshot) (b : MarketDataBroker)
    → IsServed b
    → IsServed (forget_unreferenced cache b)
unfolding forget_unreferenced forget_symbol
forget-IsServed [] b h = h
forget-IsServed ((symbol, x) ∷ cache) b h =
    forget-IsServed cache (if referenced b.subscriptions symbol then b else forget_symbol symbol b)
      (if-IsServed (referenced b.subscriptions symbol) b (forget_symbol symbol b) h
        (frame-IsServed b (forget_symbol symbol b) refl refl refl h))

pub unsubscribe-IsServed :
    (client : String) (b : MarketDataBroker) → IsServed b → IsServed (unsubscribe client b)
unfolding unsubscribe IsClient
unsubscribe-IsServed client b h =
    forget-IsServed b.cache
      (record b {
        subscriptions = pop client b.subscriptions;
        queues = pop client b.queues;
        pending = pop client b.pending;
      })
      (λ other. elim (Bool-cases (client == other)) [
        | inl e ↦ rw (get-pop client other b.pending, e) tt
        | inr e ↦
            rw
              (
                get-pop client other b.subscriptions,
                get-pop client other b.queues,
                get-pop client other b.pending,
                e,
              )
              (h other)
      ])

-- A longer queue serves the same events.
has_key-append :
    (k : Key) (queue more : List Key) → has_key k queue ≡ true → has_key k (queue ++ more) ≡ true
has_key-append k [] more h = absurd (ground arith)
has_key-append k (j ∷ queue) more h = ground (arith, has_key-append k queue more)

has_key-last : (k : Key) (queue : List Key) → has_key k (queue ++ k ∷ []) ≡ true
has_key-last k [] = rw (key_eq_refl k) refl
has_key-last k (j ∷ queue) = ground (arith, has_key-last k queue)

append-IsEntry :
    (f : String → Bool) (queue more : List Key) (events : Pending)
    → All (IsEntry f queue) events
    → All (IsEntry f (queue ++ more)) events
append-IsEntry f queue more events h =
    All-weaken events
      (λ e k. record {
        asked = k.asked;
        queued = has_key-append e.0 queue more k.queued;
        own = k.own;
      })
      h

-- The key of a new event goes to the end of the queue.
abbrev queue_with : Key → Option MarketEvent → List Key → List Key
queue_with key old queue = if is_none old then queue ++ key ∷ [] else queue

queue_of-with :
    (key : Key) (old : Option MarketEvent) (client other : String) (b : MarketDataBroker)
    → or_empty (
        get other
          (if is_none old then put client (queue_of client b ++ key ∷ []) b.queues else b.queues))
      ≡ (if client == other then queue_with key old (queue_of client b) else queue_of other b)
queue_of-with key none client other b =
    queue_of-put client (queue_of client b ++ key ∷ []) b.queues other
queue_of-with key (some e) client other b = elim (Bool-cases (client == other)) [
  | inl e ↦ rw e (ap (λ c. queue_of c b) (sym ((eq_iff client other).0 e)))
  | inr e ↦ rw e refl
]

put_event-IsEntry :
    (f : String → Bool) (key : Key) (event : MarketEvent) (queue : List Key) (events : Pending)
    → f key.0 ≡ true
    → event_symbol event ≡ key.0
    → All (IsEntry f queue) events
    → All (IsEntry f (queue_with key (find_event key events) queue)) (put_event key event events)
put_event-IsEntry f key event queue events w own h = elim (Option-cases (find_event key events)) [
  | inl e ↦ rw e (
      put_event-All (IsEntry f (queue ++ key ∷ [])) key event events
        (record { asked = w; queued = has_key-last key queue; own = own })
        (append-IsEntry f queue (key ∷ []) events h))
  | inr (old, e) ↦ rw e (
      put_event-All (IsEntry f queue) key event events
        (record {
          asked = w;
          queued = (find_event-All (IsEntry f queue) key old events e h).queued;
          own = own;
        })
        h)
]

publish_to-IsServed :
    (symbol : String) (event : MarketEvent) (client : String) (b : MarketDataBroker)
    → event_symbol event ≡ symbol
    → IsServed b
    → IsServed (publish_to symbol event client b)
unfolding publish_to IsClient
publish_to-IsServed symbol event client b own h =
    let key : Key = (symbol, event_type event) in
    let old = find_event key (pending_of client b) in
    let served : MarketDataBroker = record b {
      queues =
          if is_none old then put client (queue_of client b ++ key ∷ []) b.queues else b.queues;
      pending = put client (put_event key event (pending_of client b)) b.pending;
    } in
    elim (Bool-cases (wanted client symbol b)) [
      | inr w ↦ subst (λ c. IsServed (if not c then b else served)) (sym w) h
      | inl w ↦
          subst (λ c. IsServed (if not c then b else served)) (sym w)
            (changed_client-IsServed client (get client b.subscriptions)
              (queue_with key old (queue_of client b)) (put_event key event (pending_of client b)) b
              served (λ other. same_subscription client other b)
              (λ other. queue_of-with key old client other b) refl
              (put_event-IsEntry (wants_of (get client b.subscriptions)) key event
                (queue_of client b) (pending_of client b) w own (h client))
              h)
    ]

publish_each-IsServed :
    (symbol : String) (event : MarketEvent) (queues : Dict (List Key)) (b : MarketDataBroker)
    → event_symbol event ≡ symbol
    → IsServed b
    → IsServed (publish_each symbol event queues b)
unfolding publish_each
publish_each-IsServed symbol event [] b own h = h
publish_each-IsServed symbol event ((client, queue) ∷ queues) b own h =
    publish_each-IsServed symbol event queues (publish_to symbol event client b) own
      (publish_to-IsServed symbol event client b own h)

pub publish-IsServed :
    (symbol : String) (event : MarketEvent) (b : MarketDataBroker)
    → event_symbol event ≡ symbol
    → IsServed b
    → IsServed (publish symbol event b)
unfolding publish
publish-IsServed symbol event b own h = publish_each-IsServed symbol event b.queues b own h
