-- ===== src/Broker/Polling/Failing.antt =====
-- level2_service/market_data.py: what failures of a symbol leave in the state of `MarketDataBroker`.
use tonghuashun.Base.{
  ℕ, suc, ◌+◌, ◌≡◌, refl, ◌∙◌, String, Bool, List, [], ◌∷◌, arith, Bool-cases, inl, inr, eq_refl,
  length,
}
use tonghuashun.Dict.{Dict, get_or, get-put, get-pop}
use tonghuashun.Broker.{Snapshot, MarketEvent, Key, Pending, MarketDataBroker}
use tonghuashun.Broker.Events.{wanted, publish_to, publish_each, publish}
use tonghuashun.Broker.Polling.{
  publish_failure, store_failure, accept_snapshot, store_snapshot, sequenced,
}

-- What does not depend on the queues and the pending events is kept by _publish.
module _ {A : Type 0} (f : MarketDataBroker → A)
    (quiet : (b : MarketDataBroker) (queues : Dict (List Key)) (pending : Dict Pending)
      → f (record b { queues = queues; pending = pending }) ≡ f b) where
  publish_to-quiet :
      (symbol : String) (event : MarketEvent) (client : String) (b : MarketDataBroker)
      → f (publish_to symbol event client b) ≡ f b
  unfolding publish_to
  publish_to-quiet symbol event client b = elim (Bool-cases (wanted client symbol b)) [
    | inl e ↦ rw e (quiet b _ _)
    | inr e ↦ rw e refl
  ]

  publish_each-quiet :
      (symbol : String) (event : MarketEvent) (queues : Dict (List Key)) (b : MarketDataBroker)
      → f (publish_each symbol event queues b) ≡ f b
  unfolding publish_each
  publish_each-quiet symbol event [] b = refl
  publish_each-quiet symbol event ((client, queue) ∷ queues) b =
      publish_each-quiet symbol event queues (publish_to symbol event client b)
      ∙ publish_to-quiet symbol event client b

  pub publish-quiet :
      (symbol : String) (event : MarketEvent) (b : MarketDataBroker)
      → f (publish symbol event b) ≡ f b
  unfolding publish
  publish-quiet symbol event b = publish_each-quiet symbol event b.queues b

  pub publish_failure-quiet :
      (now : ℕ) (symbol code : String) (b : MarketDataBroker)
      → f (publish_failure now symbol code b) ≡ f (store_failure now symbol b)
  unfolding publish_failure
  publish_failure-quiet now symbol code b =
      publish-quiet symbol (MarketEvent.source_status symbol code) (store_failure now symbol b)

-- Failures of a symbol, one after the other, with their times and codes.
unfoldable pub failing : String → List (ℕ × String) → MarketDataBroker → MarketDataBroker
unfolding publish_failure
failing symbol [] b = b
failing symbol ((now, code) ∷ more) b = failing symbol more (publish_failure now symbol code b)

-- What subscriptions and polls decide is no matter of failures.
pub record IsSame (b c : MarketDataBroker) : Type 0 where
  pub subscriptions : c.subscriptions ≡ b.subscriptions
  pub requests : c.closed_refresh_requests ≡ b.closed_refresh_requests
  pub detail : c.detail_interval ≡ b.detail_interval
  pub watchlist : c.watchlist_interval ≡ b.watchlist_interval

pub join-IsSame : (a b c : MarketDataBroker) → IsSame a b → IsSame b c → IsSame a c
join-IsSame a b c h k = record {
  subscriptions = k.subscriptions ∙ h.subscriptions;
  requests = k.requests ∙ h.requests;
  detail = k.detail ∙ h.detail;
  watchlist = k.watchlist ∙ h.watchlist;
}

publish-IsSame :
    (symbol : String) (event : MarketEvent) (b : MarketDataBroker)
    → IsSame b (publish symbol event b)
publish-IsSame symbol event b = record {
  subscriptions = publish-quiet (λ c. c.subscriptions) (λ _ _ _. refl) symbol event b;
  requests = publish-quiet (λ c. c.closed_refresh_requests) (λ _ _ _. refl) symbol event b;
  detail = publish-quiet (λ c. c.detail_interval) (λ _ _ _. refl) symbol event b;
  watchlist = publish-quiet (λ c. c.watchlist_interval) (λ _ _ _. refl) symbol event b;
}

pub publish_failure-IsSame :
    (now : ℕ) (symbol code : String) (b : MarketDataBroker)
    → IsSame b (publish_failure now symbol code b)
unfolding publish_failure store_failure
publish_failure-IsSame now symbol code b =
    join-IsSame b (store_failure now symbol b) (publish_failure now symbol code b)
      (record { subscriptions = refl; requests = refl; detail = refl; watchlist = refl })
      (publish-IsSame symbol (MarketEvent.source_status symbol code) (store_failure now symbol b))

pub failing-IsSame :
    (symbol : String) (earlier : List (ℕ × String)) (b : MarketDataBroker)
    → IsSame b (failing symbol earlier b)
unfolding failing
failing-IsSame symbol [] b = record {
  subscriptions = refl;
  requests = refl;
  detail = refl;
  watchlist = refl;
}
failing-IsSame symbol ((now, code) ∷ more) b =
    let c = publish_failure now symbol code b in
    join-IsSame b c (failing symbol more c) (publish_failure-IsSame now symbol code b)
      (failing-IsSame symbol more c)

abbrev pub count_of : String → MarketDataBroker → ℕ
count_of symbol b = get_or symbol 0 b.failure_counts

count-publish_failure :
    (now : ℕ) (symbol code : String) (b : MarketDataBroker)
    → count_of symbol (publish_failure now symbol code b) ≡ suc (count_of symbol b)
unfolding store_failure
count-publish_failure now symbol code b =
    publish_failure-quiet (count_of symbol) (λ _ _ _. refl) now symbol code b
    ∙ rw (get_or, get-put, eq_refl symbol) refl

pub count-failing :
    (symbol : String) (earlier : List (ℕ × String)) (b : MarketDataBroker)
    → count_of symbol (failing symbol earlier b) ≡ length earlier + count_of symbol b
unfolding failing
count-failing symbol [] b = omega arith
count-failing symbol ((now, code) ∷ more) b =
    let c = publish_failure now symbol code b in
    omega (arith, count-failing symbol more c, count-publish_failure now symbol code b)

-- A snapshot ends the count.
pub count-accept_snapshot :
    (now : ℕ) (detail : Bool) (symbol : String) (x : Snapshot) (b : MarketDataBroker)
    → count_of symbol (accept_snapshot now detail symbol x b).1 ≡ 0
unfolding accept_snapshot store_snapshot
count-accept_snapshot now detail symbol x b =
    let current = sequenced symbol x b in
    publish-quiet (count_of symbol) (λ _ _ _. refl) symbol (MarketEvent.snapshot current)
      (store_snapshot now detail symbol current b)
    ∙ rw (get_or, get-pop, eq_refl symbol) refl

pub accept_snapshot-IsSame :
    (now : ℕ) (detail : Bool) (symbol : String) (x : Snapshot) (b : MarketDataBroker)
    → IsSame b (accept_snapshot now detail symbol x b).1
unfolding accept_snapshot store_snapshot
accept_snapshot-IsSame now detail symbol x b =
    let current = sequenced symbol x b in
    let c = store_snapshot now detail symbol current b in
    join-IsSame b c (publish symbol (MarketEvent.snapshot current) c)
      (record { subscriptions = refl; requests = refl; detail = refl; watchlist = refl })
      (publish-IsSame symbol (MarketEvent.snapshot current) c)
