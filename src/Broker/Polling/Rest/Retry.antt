-- ===== src/Broker/Polling/Rest/Retry.antt =====
-- level2_service/market_data.py: when `MarketDataBroker` polls a symbol again after failures in a row.
use tonghuashun.Base.{
  ℕ, suc, ◌+◌, ◌≤◌, ◌≡◌, ◌↔◌, refl, ◌∙◌, ap, String, Bool, true, false, List, arith, leb, ◌&&◌,
  length, contains,
}
use tonghuashun.Broker.{Snapshot, MarketDataBroker, referenced}
use tonghuashun.Broker.Polling.{backoff, is_due, publish_failure, accept_snapshot, poll_due}
use tonghuashun.Broker.Polling.Listing.{poll_due-open, poll_due-closed}
use tonghuashun.Broker.Polling.Failing.{
  failing, IsSame, join-IsSame, publish_failure-IsSame, failing-IsSame, count_of, count-failing,
  count-accept_snapshot, accept_snapshot-IsSame,
}
use tonghuashun.Broker.Polling.Rest.{interval_of, IsRested, backoff_iff, is_due-publish_failure}

backoff-same : (n : ℕ) (b c : MarketDataBroker) → IsSame b c → backoff n c ≡ backoff n b
unfolding backoff
backoff-same n b c h = rw (h.detail, h.watchlist) refl

interval_of-same :
    (symbol : String) (b c : MarketDataBroker)
    → IsSame b c
    → interval_of symbol c ≡ interval_of symbol b
interval_of-same symbol b c h = rw (h.subscriptions, h.detail, h.watchlist) refl

-- What the broker is after a snapshot of a symbol and failures in a row, the last one now.
unfoldable pub after_failures :
    String
    → ℕ × Bool × Snapshot
    → List (ℕ × String)
    → ℕ × String
    → MarketDataBroker
    → MarketDataBroker
unfolding failing
after_failures symbol (received, detail, x) earlier (now, code) b =
    publish_failure now symbol code
      (failing symbol earlier (accept_snapshot received detail symbol x b).1)

module _ (symbol : String) (received : ℕ) (detail : Bool) (x : Snapshot)
    (earlier : List (ℕ × String)) (now : ℕ) (code : String) (b : MarketDataBroker) where
  abbrev before : MarketDataBroker
  before = failing symbol earlier (accept_snapshot received detail symbol x b).1

  before-IsSame : IsSame b before
  before-IsSame =
      let c = (accept_snapshot received detail symbol x b).1 in
      join-IsSame b c (failing symbol earlier c) (accept_snapshot-IsSame received detail symbol x b)
        (failing-IsSame symbol earlier c)

  after-IsSame : IsSame b (after_failures symbol (received, detail, x) earlier (now, code) b)
  unfolding after_failures
  after-IsSame =
      join-IsSame b before (publish_failure now symbol code before) before-IsSame
        (publish_failure-IsSame now symbol code before)

  count-before : count_of symbol before ≡ length earlier
  count-before =
      let c = (accept_snapshot received detail symbol x b).1 in
      omega
        (arith, count-failing symbol earlier c, count-accept_snapshot received detail symbol x b)

  is_due-after_failures :
      (later : ℕ)
      → is_due later symbol (after_failures symbol (received, detail, x) earlier (now, code) b) ≡ (
          leb (now + interval_of symbol b) later
          && leb (now + backoff (suc (length earlier)) b) later)
  unfolding after_failures
  is_due-after_failures later =
      is_due-publish_failure later now symbol code before
      ∙ ap
          (λ i.
            leb (now + i) later && leb (now + backoff (suc (count_of symbol before)) before) later)
          (interval_of-same symbol b before before-IsSame)
      ∙ ap (λ t. leb (now + interval_of symbol b) later && leb (now + t) later)
          (backoff-same (suc (count_of symbol before)) b before before-IsSame
            ∙ ap (λ n. backoff (suc n) b) count-before)

-- A symbol that a poll of the open market refreshes.
pub record IsPolled (symbol : String) (earlier : ℕ) (b : MarketDataBroker) (now later : ℕ)
    : Type 0 where
  pub subscribed : referenced b.subscriptions symbol ≡ true
  pub interval : now + interval_of symbol b ≤ later
  pub rested : IsRested earlier b now later

open_iff :
    (x y z t : ℕ) (asked : Bool)
    → (((leb x y && leb z t) && asked) ≡ true) ↔ ((x ≤ y) × (z ≤ t) × (asked ≡ true))
open_iff x y z t asked = (λ h. ground arith, λ h. ground arith)

closed_iff : (a b : Bool) → ((a && b) ≡ true) ↔ ((a ≡ true) × (b ≡ true))
closed_iff a b = (λ h. ground arith, λ h. ground arith)

open_poll_iff :
    (symbol : String) (n : ℕ) (b : MarketDataBroker) (now later : ℕ)
    → (((leb (now + interval_of symbol b) later && leb (now + backoff (suc n) b) later)
          && referenced b.subscriptions symbol)
        ≡ true)
      ↔ IsPolled symbol n b now later
open_poll_iff symbol n b now later =
    let asked = referenced b.subscriptions symbol in
    let facts = open_iff (now + interval_of symbol b) later (now + backoff (suc n) b) later asked in
    let rest = backoff_iff n now later b in
    (
      λ h. let f = facts.0 h in record { subscribed = f.2; interval = f.0; rested = rest.0 f.1 },
      λ p. facts.1 (p.interval, rest.1 p.rested, p.subscribed),
    )

-- After a snapshot of a symbol and failures of it in a row, a poll of the open market refreshes it
-- exactly if a client subscribes to it, the interval since the last failure is over, and 30 seconds
-- are over or 1, 2, 4, 8 or 16 times both intervals, after none, one, two, three or more earlier
-- failures. A poll of the closed market refreshes it exactly if a client subscribes to it and its
-- refresh was requested before: failures play no part.
pub poll_due-after_failures_iff :
    (symbol code : String) (received now later : ℕ) (detail : Bool) (x : Snapshot)
    (earlier : List (ℕ × String)) (b : MarketDataBroker)
    → ((contains symbol
            (poll_due true later
              (after_failures symbol (received, detail, x) earlier (now, code) b)).0
          ≡ true)
        ↔ IsPolled symbol (length earlier) b now later)
      × ((contains symbol
              (poll_due false later
                (after_failures symbol (received, detail, x) earlier (now, code) b)).0
            ≡ true)
          ↔ ((referenced b.subscriptions symbol ≡ true)
              × (contains symbol b.closed_refresh_requests ≡ true)))
poll_due-after_failures_iff symbol code received now later detail x earlier b =
    let c = after_failures symbol (received, detail, x) earlier (now, code) b in
    let same = after-IsSame symbol received detail x earlier now code b in
    let due = is_due-after_failures symbol received detail x earlier now code b later in
    (
      rw (poll_due-open symbol later c, due, same.subscriptions)
          (open_poll_iff symbol (length earlier) b now later),
      rw (poll_due-closed symbol later c, same.subscriptions, same.requests)
          (closed_iff (referenced b.subscriptions symbol)
            (contains symbol b.closed_refresh_requests)),
    )
