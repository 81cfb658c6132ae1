-- ===== src/Broker.antt =====
-- level2_service/market_data.py: the state of `MarketDataBroker`, and the operations of its
-- subscribers. Intervals and times are numbers of microseconds; a snapshot is given by what the
-- broker reads of it. Sets are lists that are only searched.
pub mod Events
pub mod Polling
pub mod Delivery
use tonghuashun.Base.{
  ℕ, suc, ◌+◌, String, Bool, true, false, ◌&&◌, ◌||◌, not, Option, none, some, List, [], ◌∷◌, ◌++◌,
  ◌==◌, leb, if◌then◌else◌, is_some, is_none, contains, keep,
}
use tonghuashun.Dict.{Dict, get, get_or, put, pop}

-- MarketSnapshot; `detailed` tells whether it has a timeshare, an intraday series or a fund flow.
pub record Snapshot : Type 0 where
  pub symbol : String
  pub sequence : ℕ
  pub detailed : Bool
  pub body : String

-- The documents that the broker publishes.
pub data MarketEvent : Type 0 where
  snapshot : Snapshot → MarketEvent
  source_status : String → String → MarketEvent

-- event["type"]
pub data EventType : Type 0 where
  snapshot source_status : EventType

abbrev pub type_eq : EventType → EventType → Bool
type_eq EventType.snapshot EventType.snapshot = true
type_eq EventType.source_status EventType.source_status = true
type_eq _ _ = false

abbrev pub event_type : MarketEvent → EventType
event_type (MarketEvent.snapshot x) = EventType.snapshot
event_type (MarketEvent.source_status symbol code) = EventType.source_status

abbrev pub Key : Type 0
Key = String × EventType

abbrev pub key_eq : Key → Key → Bool
key_eq (s, k) (t, l) = s == t && type_eq k l

-- The pending events of a client, with at most one for each key.
abbrev pub Pending : Type 0
Pending = List (Key × MarketEvent)

-- The symbols of a client's watchlist and of its detail views.
pub record Subscription : Type 0 where
  pub watchlist : List String
  pub detail : List String

pub record MarketDataBroker : Type 0 where
  pub detail_interval : ℕ
  pub watchlist_interval : ℕ
  pub subscriptions : Dict Subscription
  pub queues : Dict (List Key)
  pub pending : Dict Pending
  pub cache : Dict Snapshot
  pub sequence : Dict ℕ
  pub last_polled : Dict ℕ
  pub cache_detail : Dict Bool
  pub closed_refresh_requests : List String
  pub failure_counts : Dict ℕ
  pub retry_after : Dict ℕ

unfoldable pub new_broker : ℕ → ℕ → MarketDataBroker
new_broker detail_interval watchlist_interval = record {
  detail_interval = detail_interval;
  watchlist_interval = watchlist_interval;
  subscriptions = [];
  queues = [];
  pending = [];
  cache = [];
  sequence = [];
  last_polled = [];
  cache_detail = [];
  closed_refresh_requests = [];
  failure_counts = [];
  retry_after = [];
}

abbrev pub wants : Subscription → String → Bool
wants sub symbol = contains symbol sub.watchlist || contains symbol sub.detail

abbrev pub or_empty : {A : Type 0} → Option (List A) → List A
or_empty none = []
or_empty (some xs) = xs

abbrev pub queue_of : String → MarketDataBroker → List Key
queue_of client b = or_empty (get client b.queues)

abbrev pub pending_of : String → MarketDataBroker → Pending
pending_of client b = or_empty (get client b.pending)

-- The events of symbols that are still wanted.
unfoldable pub keep_wanted : Subscription → Pending → Pending
keep_wanted sub pending = keep (λ e. wants sub e.0.0) pending

abbrev minus : List String → List String → List String
minus xs ys = keep (λ x. not (contains x ys)) xs

abbrev previous_detail : Option Subscription → List String
previous_detail none = []
previous_detail (some sub) = sub.detail

abbrev previous_watchlist : Option Subscription → List String
previous_watchlist none = []
previous_watchlist (some sub) = sub.watchlist

-- The symbols to refresh at once, and the broker with the new subscription.
unfoldable pub subscribe :
    Bool → String → Subscription → MarketDataBroker → List String × MarketDataBroker
unfolding keep_wanted
subscribe market_open client sub b =
    let previous = get client b.subscriptions in
    (
      minus sub.detail (previous_detail previous),
      record b {
        subscriptions = put client sub b.subscriptions;
        queues = put client (queue_of client b) b.queues;
        pending = put client (keep_wanted sub (pending_of client b)) b.pending;
        closed_refresh_requests =
            if market_open
            then b.closed_refresh_requests
            else b.closed_refresh_requests
              ++ minus (minus sub.watchlist (previous_watchlist previous)) sub.detail;
      },
    )

unfoldable pub referenced : Dict Subscription → String → Bool
referenced [] symbol = false
referenced ((client, sub) ∷ subs) symbol = wants sub symbol || referenced subs symbol

-- One round of the loop over the cache.
unfoldable pub forget_symbol : String → MarketDataBroker → MarketDataBroker
forget_symbol symbol b = record b {
  cache = pop symbol b.cache;
  cache_detail = pop symbol b.cache_detail;
  sequence = pop symbol b.sequence;
  last_polled = pop symbol b.last_polled;
  failure_counts = pop symbol b.failure_counts;
  retry_after = pop symbol b.retry_after;
}

unfoldable pub forget_unreferenced : Dict Snapshot → MarketDataBroker → MarketDataBroker
unfolding forget_symbol referenced
forget_unreferenced [] b = b
forget_unreferenced ((symbol, x) ∷ cache) b =
    forget_unreferenced cache
      (if referenced b.subscriptions symbol then b else forget_symbol symbol b)

unfoldable pub unsubscribe : String → MarketDataBroker → MarketDataBroker
unfolding forget_unreferenced
unsubscribe client b = forget_unreferenced b.cache (record b {
  subscriptions = pop client b.subscriptions;
  queues = pop client b.queues;
  pending = pop client b.pending;
})

unfoldable pub has_subscriber : String → MarketDataBroker → Bool
has_subscriber client b = is_some (get client b.subscriptions)

unfoldable pub cached_snapshot : String → MarketDataBroker → Option Snapshot
cached_snapshot symbol b = get symbol b.cache

unfoldable pub seed : Snapshot → MarketDataBroker → MarketDataBroker
seed x b =
    let old = get_or x.symbol 0 b.sequence in
    record b {
      cache = put x.symbol x b.cache;
      sequence = put x.symbol (if leb old x.sequence then x.sequence else old) b.sequence;
      cache_detail = put x.symbol x.detailed b.cache_detail;
    }
