-- ===== src/Broker/Delivery/Steps/Taking.antt =====
-- level2_service/market_data.py: what `next_event` of `MarketDataBroker` hands out.
use tonghuashun.Base.{
  ◌≡◌, refl, sym, ap, ◌∙◌, subst, String, true, Option, none, some, List, [], Option-cases, inl,
  inr,
}
use tonghuashun.Dict.{get, put}
use tonghuashun.Broker.{MarketEvent, Key, Pending, MarketDataBroker, or_empty, pending_of}
use tonghuashun.Broker.Events.{wanted, wants_of, take_event, next_event}
use tonghuashun.Broker.Delivery.{event_symbol, IsClient, IsServed, IsTaken, take_event-IsTaken}
use tonghuashun.Broker.Delivery.Steps.{changed_client-IsServed, same_subscription, queue_of-put}

-- The client after a turn of the loop of next_event.
abbrev turned : String → List Key → Pending → MarketDataBroker → MarketDataBroker
turned client queue events b = record b {
  queues = put client queue b.queues;
  pending = put client events b.pending;
}

pub next_event-some :
    (client : String) (b : MarketDataBroker) (queue : List Key) (events : Pending)
    → get client b.queues ≡ some queue
    → get client b.pending ≡ some events
    → next_event client b ≡ (
      some (take_event queue events).0,
      turned client (take_event queue events).1 (take_event queue events).2 b,
    )
unfolding next_event
next_event-some client b queue events e f = rw (next_event, e, f) refl

next_event-unknown :
    (client : String) (b : MarketDataBroker)
    → get client b.queues ≡ none
    → next_event client b ≡ (none, b)
unfolding next_event
next_event-unknown client b e = rw (next_event, e) refl

next_event-lost :
    (client : String) (b : MarketDataBroker) (queue : List Key)
    → get client b.queues ≡ some queue
    → get client b.pending ≡ none
    → next_event client b ≡ (none, b)
unfolding next_event
next_event-lost client b queue e f = rw (next_event, e, f) refl

pub client-IsTaken :
    (client : String) (b : MarketDataBroker) (queue : List Key) (events : Pending)
    → get client b.queues ≡ some queue
    → get client b.pending ≡ some events
    → IsServed b
    → IsTaken (wants_of (get client b.subscriptions)) events (take_event queue events)
unfolding IsClient
client-IsTaken client b queue events e f h =
    take_event-IsTaken (wants_of (get client b.subscriptions)) queue events
      (rw (e, f) at (h client))

-- What a call of next_event may answer: an event of a symbol that the client wants, a wait where no
-- event is pending, or the LookupError.
abbrev pub Delivers : String → MarketDataBroker → Option (Option MarketEvent) → Type 0
Delivers client b none = Unit
Delivers client b (some none) = pending_of client b ≡ []
Delivers client b (some (some e)) = wanted client (event_symbol e) b ≡ true

pub record IsAnswered (client : String) (b : MarketDataBroker)
    (r : Option (Option MarketEvent) × MarketDataBroker) : Type 0 where
  pub served : IsServed r.1
  pub delivers : Delivers client b r.0

refused-IsAnswered :
    (client : String) (b : MarketDataBroker) → IsServed b → IsAnswered client b (none, b)
refused-IsAnswered client b h = record { served = h; delivers = tt }

taken-Delivers :
    (client : String) (b : MarketDataBroker) (events : Pending)
    (r : Option MarketEvent × List Key × Pending)
    → get client b.pending ≡ some events
    → IsTaken (wants_of (get client b.subscriptions)) events r
    → Delivers client b (some r.0)
taken-Delivers client b events (none, queue, left) f t = ap or_empty f ∙ t.empty refl
taken-Delivers client b events (some e, queue, left) f t = t.good e refl

turned-IsAnswered :
    (client : String) (b : MarketDataBroker) (queue : List Key) (events : Pending)
    (r : Option MarketEvent × List Key × Pending)
    → get client b.pending ≡ some events
    → IsTaken (wants_of (get client b.subscriptions)) events r
    → IsServed b
    → IsAnswered client b (some r.0, turned client r.1 r.2 b)
turned-IsAnswered client b queue events r f t h = record {
  served =
      changed_client-IsServed client (get client b.subscriptions) r.1 r.2 b
        (turned client r.1 r.2 b) (λ other. same_subscription client other b)
        (queue_of-put client r.1 b.queues) refl t.left h;
  delivers = taken-Delivers client b events r f t;
}

pub next_event-IsAnswered :
    (client : String) (b : MarketDataBroker)
    → IsServed b
    → IsAnswered client b (next_event client b)
next_event-IsAnswered client b h = elim (Option-cases (get client b.queues)) [
  | inl e ↦
      subst (IsAnswered client b) (sym (next_event-unknown client b e))
        (refused-IsAnswered client b h)
  | inr (queue, e) ↦ elim (Option-cases (get client b.pending)) [
    | inl f ↦
        subst (IsAnswered client b) (sym (next_event-lost client b queue e f))
          (refused-IsAnswered client b h)
    | inr (events, f) ↦
        subst (IsAnswered client b) (sym (next_event-some client b queue events e f)) (
          turned-IsAnswered client b queue events (take_event queue events) f
            (client-IsTaken client b queue events e f h) h)
  ]
]
