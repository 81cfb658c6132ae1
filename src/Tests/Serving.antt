-- ===== src/Tests/Serving.antt =====
-- `MarketDataBroker` of level2_service/market_data.py at concrete inputs.
use tonghuashun.Base.{◌≡◌, ◌↔◌, refl, true, false, List, [], ◌∷◌, contains}
use tonghuashun.Dict.{get}
use tonghuashun.Broker.{Snapshot, MarketDataBroker, new_broker, subscribe, referenced}
use tonghuashun.Broker.Events.{next_event}
use tonghuashun.Dict.{put, get, pop}
use tonghuashun.Broker.Polling.{poll_due, accept_snapshot}
use tonghuashun.Broker.Polling.Rest.Retry.{after_failures, IsPolled, poll_due-after_failures_iff}
use tonghuashun.Broker.Delivery.Steps.Taking.{Delivers}
use tonghuashun.Broker.Delivery.Steps.Sequences.{
  Act, subscribes, accepts, fails, acts, next_event-Delivers,
}

-- A client watches one symbol, a snapshot of it arrives, and another symbol fails.
abbrev steps : List Act
steps =
    subscribes true "c" (record { watchlist = "600000" ∷ []; detail = [] })
    ∷ accepts 5 false (record { symbol = "600000"; sequence = 0; detailed = false; body = "" })
    ∷ fails 6 "600001" "MARKET_TIMEOUT"
    ∷ []

next_event-Delivers_example :
    Delivers "c"
      (acts steps (new_broker 2000000 2000000))
      (next_event "c" (acts steps (new_broker 2000000 2000000))).0
next_event-Delivers_example = next_event-Delivers 2000000 2000000 steps "c"

-- A client that subscribes while the market is closed.
abbrev watched : MarketDataBroker
unfolding new_broker
watched =
    (subscribe false "c" (record { watchlist = "600000" ∷ []; detail = [] })
      (new_broker 2000000 2000000)).1

abbrev quote : Snapshot
quote = record { symbol = "600000"; sequence = 0; detailed = false; body = "" }

-- A snapshot at 5 and failures at 6 and 7.
abbrev twice_failed : MarketDataBroker
twice_failed =
    after_failures "600000" (5, false, quote) ((6, "MARKET_TIMEOUT") ∷ []) (7, "MARKET_TIMEOUT")
      watched

poll_due-after_failures_iff_example :
    ((contains "600000" (poll_due true 4000007 twice_failed).0 ≡ true)
      ↔ IsPolled "600000" 1 watched 7 4000007)
    × ((contains "600000" (poll_due false 4000007 twice_failed).0 ≡ true) ↔ (
        (referenced watched.subscriptions "600000" ≡ true)
        × (contains "600000" watched.closed_refresh_requests ≡ true)))
poll_due-after_failures_iff_example =
    poll_due-after_failures_iff "600000" "MARKET_TIMEOUT" 5 7 4000007 false quote
      ((6, "MARKET_TIMEOUT") ∷ []) watched

-- The second failure doubles the rest of the open market; the closed market asks at once.
poll_due-resting : (poll_due true 4000006 twice_failed).0 ≡ []
unfolding poll_due after_failures accept_snapshot watched subscribe put get pop
poll_due-resting = refl

poll_due-rested : (poll_due true 4000007 twice_failed).0 ≡ "600000" ∷ []
unfolding poll_due after_failures accept_snapshot watched subscribe put get pop
poll_due-rested = refl

poll_due-requested : (poll_due false 8 twice_failed).0 ≡ "600000" ∷ []
unfolding poll_due after_failures accept_snapshot watched subscribe put get pop
poll_due-requested = refl
