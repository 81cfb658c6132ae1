-- ===== src/Broker/Events.antt =====
-- level2_service/market_data.py: the events of `MarketDataBroker`, from `_publish` to `next_event`.
use tonghuashun.Base.{
  String, Bool, false, not, Option, none, some, List, [], ◌∷◌, ◌++◌, if◌then◌else◌, is_none,
}
use tonghuashun.Dict.{Dict, get, put}
use tonghuashun.Broker.{
  MarketEvent, event_type, Key, key_eq, Pending, Subscription, MarketDataBroker, wants, queue_of,
  pending_of,
}

unfoldable pub find_event : Key → Pending → Option MarketEvent
find_event k [] = none
find_event k ((j, e) ∷ p) = if key_eq j k then some e else find_event k p

unfoldable pub put_event : Key → MarketEvent → Pending → Pending
put_event k e [] = (k, e) ∷ []
put_event k e ((j, f) ∷ p) = if key_eq j k then (j, e) ∷ p else (j, f) ∷ put_event k e p

unfoldable pub pop_event : Key → Pending → Pending
pop_event k [] = []
pop_event k ((j, e) ∷ p) = let rest = pop_event k p in if key_eq j k then rest else (j, e) ∷ rest

abbrev pub wants_of : Option Subscription → String → Bool
wants_of none symbol = false
wants_of (some sub) symbol = wants sub symbol

-- _wanted
abbrev pub wanted : String → String → MarketDataBroker → Bool
wanted client symbol b = wants_of (get client b.subscriptions) symbol

-- One round of the loop of _publish.
unfoldable pub publish_to : String → MarketEvent → String → MarketDataBroker → MarketDataBroker
unfolding find_event put_event
publish_to symbol event client b =
    let key : Key = (symbol, event_type event) in
    if not (wanted client symbol b) then b else record b {
      queues =
          if is_none (find_event key (pending_of client b))
          then put client (queue_of client b ++ key ∷ []) b.queues
          else b.queues;
      pending = put client (put_event key event (pending_of client b)) b.pending;
    }

-- _publish
unfoldable pub publish_each :
    String → MarketEvent → Dict (List Key) → MarketDataBroker → MarketDataBroker
unfolding publish_to
publish_each symbol event [] b = b
publish_each symbol event ((client, queue) ∷ queues) b =
    publish_each symbol event queues (publish_to symbol event client b)

unfoldable pub publish : String → MarketEvent → MarketDataBroker → MarketDataBroker
unfolding publish_each
publish symbol event b = publish_each symbol event b.queues b

-- The loop of next_event: keys whose event was dropped are skipped; `none` waits for the next key.
unfoldable pub take_event : List Key → Pending → Option MarketEvent × List Key × Pending
unfolding find_event pop_event
take_event [] pending = (none, [], pending)
take_event (key ∷ queue) pending = elim (find_event key pending) [
  | some event ↦ (some event, queue, pop_event key pending)
  | none ↦ take_event queue pending
]

-- next_event; `none` is the LookupError.
unfoldable pub next_event :
    String → MarketDataBroker → Option (Option MarketEvent) × MarketDataBroker
unfolding take_event
next_event client b = elim (get client b.queues) [
  | none ↦ (none, b)
  | some queue ↦ elim (get client b.pending) [
    | none ↦ (none, b)
    | some pending ↦
        let (event, queue', pending') = take_event queue pending in
        (
          some event,
          record b { queues = put client queue' b.queues; pending = put client pending' b.pending },
        )
  ]
]
