-- ===== src/Broker/Polling.antt =====
-- level2_service/market_data.py: the refreshes of `MarketDataBroker`. A refresh is two steps, before
-- and after the source is read, since other coroutines may run in between.
pub mod Listing
pub mod Failing
pub mod Rest
use tonghuashun.Base.{
  ℕ, zero, suc, ◌+◌, ◌*◌, ◌-◌, ◌^◌, String, Bool, true, false, ◌&&◌, ◌||◌, not, Option, none, some,
  List, [], ◌∷◌, ◌++◌, ◌==◌, leb, ltb, if◌then◌else◌, is_some, contains, keep,
}
use tonghuashun.Dict.{Dict, get, get_or, put, pop}
use tonghuashun.Queue.Canonical.{text_lt}
use tonghuashun.Broker.{Snapshot, MarketEvent, Subscription, MarketDataBroker, wants}
use tonghuashun.Broker.Events.{publish}

abbrev covers : Bool → String → MarketDataBroker → Bool
covers detail symbol b = not detail || get_or symbol false b.cache_detail

-- A poll of the symbol is younger than the given age.
unfoldable pub is_fresh : ℕ → ℕ → String → MarketDataBroker → Bool
is_fresh now max_age symbol b = elim (get symbol b.last_polled) [
  | none ↦ false
  | some last ↦ ltb now (last + max_age)
]

-- The first part of refresh: the snapshot that answers without a read.
unfoldable pub refresh_cached : Bool → ℕ → Bool → ℕ → String → MarketDataBroker → Option Snapshot
unfolding is_fresh
refresh_cached market_open now detail max_age symbol b =
    if (not market_open || (ltb 0 max_age && is_fresh now max_age symbol b))
      && covers detail symbol b
    then get symbol b.cache
    else none

-- The snapshot with the next sequence number of its symbol.
unfoldable pub sequenced : String → Snapshot → MarketDataBroker → Snapshot
sequenced symbol x b = record x { sequence = suc (get_or symbol 0 b.sequence) }

unfoldable pub store_snapshot : ℕ → Bool → String → Snapshot → MarketDataBroker → MarketDataBroker
store_snapshot now detail symbol current b = record b {
  sequence = put symbol current.sequence b.sequence;
  cache = put symbol current b.cache;
  cache_detail = put symbol detail b.cache_detail;
  last_polled = put symbol now b.last_polled;
  failure_counts = pop symbol b.failure_counts;
  retry_after = pop symbol b.retry_after;
}

-- The second part of refresh, after the read: the cache and the event.
unfoldable pub accept_snapshot :
    ℕ → Bool → String → Snapshot → MarketDataBroker → Snapshot × MarketDataBroker
unfolding sequenced store_snapshot publish
accept_snapshot now detail symbol x b =
    let current = sequenced symbol x b in
    (
      current,
      publish symbol (MarketEvent.snapshot current) (store_snapshot now detail symbol current b),
    )

abbrev pub max_nat : ℕ → ℕ → ℕ
max_nat a b = if leb a b then b else a

abbrev pub min_nat : ℕ → ℕ → ℕ
min_nat a b = if leb a b then a else b

-- The time before the next try after a number of failures.
unfoldable pub backoff : ℕ → MarketDataBroker → ℕ
backoff failures b =
    min_nat 30000000 (max_nat b.detail_interval b.watchlist_interval * 2 ^ min_nat (failures - 1) 4)

unfoldable pub store_failure : ℕ → String → MarketDataBroker → MarketDataBroker
unfolding backoff
store_failure now symbol b =
    let failures = suc (get_or symbol 0 b.failure_counts) in
    record b {
      last_polled = put symbol now b.last_polled;
      failure_counts = put symbol failures b.failure_counts;
      retry_after = put symbol (now + backoff failures b) b.retry_after;
    }

-- publish_failure, with the fixed code of the error
unfoldable pub publish_failure : ℕ → String → String → MarketDataBroker → MarketDataBroker
unfolding store_failure publish
publish_failure now symbol code b =
    publish symbol (MarketEvent.source_status symbol code) (store_failure now symbol b)

-- The two loops over the subscriptions.
unfoldable pub watchlist_symbols : Dict Subscription → List String
watchlist_symbols [] = []
watchlist_symbols ((client, sub) ∷ subs) = sub.watchlist ++ watchlist_symbols subs

unfoldable pub detail_symbols : Dict Subscription → List String
detail_symbols [] = []
detail_symbols ((client, sub) ∷ subs) = sub.detail ++ detail_symbols subs

-- The interval since the last poll of a symbol is over.
unfoldable pub interval_over : ℕ → String → MarketDataBroker → Bool
unfolding detail_symbols
interval_over now symbol b =
    let interval =
      if contains symbol (detail_symbols b.subscriptions)
      then b.detail_interval
      else b.watchlist_interval in
    elim (get symbol b.last_polled) as (λ _. Bool) [
      | none ↦ true
      | some last ↦ leb (last + interval) now
    ]

-- So is its time of rest after failures.
unfoldable pub is_due : ℕ → String → MarketDataBroker → Bool
unfolding interval_over
is_due now symbol b = interval_over now symbol b && leb (get_or symbol 0 b.retry_after) now

-- sorted(…, key=lambda value: (value not in detail_symbols, value)), without repetitions
abbrev pub goes_before : List String → String → String → Bool
goes_before details x y =
    (contains x details && not (contains y details))
    || (not (contains y details) || contains x details) && text_lt x y

unfoldable pub insert_symbol : List String → String → List String → List String
unfolding text_lt
insert_symbol details x [] = x ∷ []
insert_symbol details x (y ∷ ys) =
    let rest = insert_symbol details x ys in
    if x == y then y ∷ ys else if goes_before details x y then x ∷ y ∷ ys else y ∷ rest

unfoldable pub sorted_set : List String → List String → List String
unfolding insert_symbol
sorted_set details [] = []
sorted_set details (x ∷ xs) = insert_symbol details x (sorted_set details xs)

-- The start of poll_due: the symbols to refresh in their order, with or without detail.
unfoldable pub poll_due : Bool → ℕ → MarketDataBroker → List String × MarketDataBroker
unfolding watchlist_symbols detail_symbols sorted_set is_due
poll_due market_open now b =
    let details = detail_symbols b.subscriptions in
    let symbols = watchlist_symbols b.subscriptions ++ details in
    let closed = keep (λ s. contains s symbols) b.closed_refresh_requests in
    (
      if market_open
          then keep (λ s. is_due now s b) (sorted_set details symbols)
          else sorted_set details closed,
      record b { closed_refresh_requests = [] },
    )

-- What a batch read returns for the due symbols: snapshots, or one error for all.
pub data Batch : Type 0 where
  snapshots : Dict Snapshot → Batch
  failed : String → Batch

abbrev invalid_batch : String
invalid_batch = "MARKET_BATCH_RESPONSE_INVALID"

-- One round of the loop after a batch read, with the detail symbols of its start; `code` gives the
-- fixed code of an error.
unfoldable pub accept_one :
    (String → String) → ℕ → List String → Batch → String → MarketDataBroker → MarketDataBroker
unfolding accept_snapshot publish_failure
accept_one code now details (failed e) symbol b = publish_failure now symbol (code e) b
accept_one code now details (snapshots xs) symbol b = elim (get symbol xs) [
  | none ↦ publish_failure now symbol (code invalid_batch) b
  | some x ↦ (accept_snapshot now (contains symbol details) symbol x b).1
]

unfoldable pub accept_batch :
    (String → String) → ℕ → List String → Batch → List String → MarketDataBroker → MarketDataBroker
unfolding accept_one
accept_batch code now details batch [] b = b
accept_batch code now details batch (symbol ∷ due) b =
    accept_batch code now details batch due (accept_one code now details batch symbol b)
