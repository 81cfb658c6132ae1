-- ===== src/Broker/Delivery/Steps/Sequences.antt =====
-- level2_service/market_data.py: sequences of the steps of `MarketDataBroker`.
use tonghuashun.Base.{ℕ, refl, String, Bool, List, [], ◌∷◌}
use tonghuashun.Dict.{get}
use tonghuashun.Broker.{
  Snapshot, MarketEvent, Subscription, MarketDataBroker, new_broker, subscribe, unsubscribe, seed,
}
use tonghuashun.Broker.Events.{next_event}
use tonghuashun.Broker.Polling.{
  poll_due, accept_snapshot, publish_failure, sequenced, store_snapshot, store_failure,
}
use tonghuashun.Broker.Delivery.{IsServed, IsClient}
use tonghuashun.Broker.Delivery.Steps.{
  frame-IsServed, subscribe-IsServed, unsubscribe-IsServed, publish-IsServed,
}
use tonghuashun.Broker.Delivery.Steps.Taking.{Delivers, next_event-IsAnswered}

-- The steps of the broker. A read gives a snapshot of the symbol that was asked for.
pub data Act : Type 0 where
  subscribes : Bool → String → Subscription → Act
  unsubscribes : String → Act
  seeds : Snapshot → Act
  polls : Bool → ℕ → Act
  accepts : ℕ → Bool → Snapshot → Act
  fails : ℕ → String → String → Act
  takes : String → Act

unfoldable pub act : Act → MarketDataBroker → MarketDataBroker
unfolding subscribe unsubscribe seed poll_due accept_snapshot publish_failure next_event
act (subscribes market_open client sub) b = (subscribe market_open client sub b).1
act (unsubscribes client) b = unsubscribe client b
act (seeds x) b = seed x b
act (polls market_open now) b = (poll_due market_open now b).1
act (accepts now detail x) b = (accept_snapshot now detail x.symbol x b).1
act (fails now symbol code) b = publish_failure now symbol code b
act (takes client) b = (next_event client b).1

unfoldable pub acts : List Act → MarketDataBroker → MarketDataBroker
unfolding act
acts [] b = b
acts (a ∷ more) b = acts more (act a b)

act-IsServed : (a : Act) (b : MarketDataBroker) → IsServed b → IsServed (act a b)
unfolding act seed poll_due accept_snapshot publish_failure sequenced store_snapshot store_failure
act-IsServed (subscribes market_open client sub) b h = subscribe-IsServed market_open client sub b h
act-IsServed (unsubscribes client) b h = unsubscribe-IsServed client b h
act-IsServed (seeds x) b h = frame-IsServed b (seed x b) refl refl refl h
act-IsServed (polls market_open now) b h =
    frame-IsServed b (poll_due market_open now b).1 refl refl refl h
act-IsServed (accepts now detail x) b h =
    let current = sequenced x.symbol x b in
    publish-IsServed x.symbol (MarketEvent.snapshot current)
      (store_snapshot now detail x.symbol current b) refl
      (frame-IsServed b (store_snapshot now detail x.symbol current b) refl refl refl h)
act-IsServed (fails now symbol code) b h =
    publish-IsServed symbol (MarketEvent.source_status symbol code) (store_failure now symbol b)
      refl (frame-IsServed b (store_failure now symbol b) refl refl refl h)
act-IsServed (takes client) b h = (next_event-IsAnswered client b h).served

acts-IsServed : (steps : List Act) (b : MarketDataBroker) → IsServed b → IsServed (acts steps b)
unfolding acts
acts-IsServed [] b h = h
acts-IsServed (a ∷ more) b h = acts-IsServed more (act a b) (act-IsServed a b h)

new_broker-IsServed : (i j : ℕ) → IsServed (new_broker i j)
unfolding new_broker IsClient get
new_broker-IsServed i j client = tt

-- After any steps of a new broker, an event that next_event hands to a client is about a symbol that
-- the client wants then, and next_event waits for a client only where no event of it is pending.
pub next_event-Delivers :
    (detail_interval watchlist_interval : ℕ) (steps : List Act) (client : String)
    → Delivers client
        (acts steps (new_broker detail_interval watchlist_interval))
        (next_event client (acts steps (new_broker detail_interval watchlist_interval))).0
next_event-Delivers i j steps client =
    (next_event-IsAnswered client (acts steps (new_broker i j))
      (acts-IsServed steps (new_broker i j) (new_broker-IsServed i j))).delivers
