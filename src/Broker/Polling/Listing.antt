-- ===== src/Broker/Polling/Listing.antt =====
-- level2_service/market_data.py: which symbols `poll_due` of `MarketDataBroker` refreshes.
use tonghuashun.Base.{
  ℕ, ◌≡◌, refl, ap, ◌∙◌, String, Bool, true, false, ◌&&◌, ◌||◌, List, [], ◌∷◌, ◌++◌, arith, ◌==◌,
  eq_iff, Bool-cases, inl, inr, contains, keep,
}
use tonghuashun.Dict.{Dict}
use tonghuashun.Broker.{Subscription, MarketDataBroker, referenced}
use tonghuashun.Broker.Polling.{
  watchlist_symbols, detail_symbols, insert_symbol, sorted_set, is_due, poll_due, goes_before,
}

contains-append :
    (s : String) (xs ys : List String) → contains s (xs ++ ys) ≡ (contains s xs || contains s ys)
contains-append s [] ys = refl
contains-append s (x ∷ xs) ys = ground (arith, contains-append s xs ys)

contains-keep :
    (p : String → Bool) (s : String) (xs : List String)
    → contains s (keep p xs) ≡ (p s && contains s xs)
contains-keep p s [] = ground arith
contains-keep p s (x ∷ xs) = elim (Bool-cases (x == s)) [
  | inl e ↦
      let same : p x ≡ p s = ap p (ground (arith, eq_iff x s)) in
      ground (arith, same, contains-keep p s xs)
  | inr e ↦ ground (arith, e, contains-keep p s xs)
]

contains-insert_symbol :
    (details : List String) (x s : String) (ys : List String)
    → contains s (insert_symbol details x ys) ≡ ((x == s) || contains s ys)
unfolding insert_symbol
contains-insert_symbol details x s [] = refl
contains-insert_symbol details x s (y ∷ ys) = elim (Bool-cases (x == y)) [
  | inl e ↦
      let same : (x == s) ≡ (y == s) = ap (λ t. t == s) (ground (arith, eq_iff x y)) in
      rw e (ground (arith, same))
  | inr e ↦ elim (Bool-cases (goes_before details x y)) [
    | inl f ↦ rw (e, f) refl
    | inr f ↦ rw (e, f) (ground (arith, contains-insert_symbol details x s ys))
  ]
]

contains-sorted_set :
    (details : List String) (s : String) (xs : List String)
    → contains s (sorted_set details xs) ≡ contains s xs
unfolding sorted_set
contains-sorted_set details s [] = refl
contains-sorted_set details s (x ∷ xs) =
    contains-insert_symbol details x s (sorted_set details xs)
    ∙ ap (λ c. (x == s) || c) (contains-sorted_set details s xs)

-- The symbols of the two loops are those of the subscriptions.
contains-symbols :
    (s : String) (subs : Dict Subscription)
    → (contains s (watchlist_symbols subs) || contains s (detail_symbols subs)) ≡ referenced subs s
unfolding watchlist_symbols detail_symbols referenced
contains-symbols s [] = refl
contains-symbols s ((client, sub) ∷ subs) = ground (
  arith,
  contains-append s sub.watchlist (watchlist_symbols subs),
  contains-append s sub.detail (detail_symbols subs),
  contains-symbols s subs,
)

module _ (s : String) (now : ℕ) (b : MarketDataBroker) where
  contains-subscribed :
      (contains s (watchlist_symbols b.subscriptions ++ detail_symbols b.subscriptions))
      ≡ referenced b.subscriptions s
  contains-subscribed =
      contains-append s (watchlist_symbols b.subscriptions) (detail_symbols b.subscriptions)
      ∙ contains-symbols s b.subscriptions

  -- A poll of the open market takes the symbols of the subscriptions that are due.
  pub poll_due-open :
      contains s (poll_due true now b).0 ≡ (is_due now s b && referenced b.subscriptions s)
  unfolding poll_due
  poll_due-open =
      let details = detail_symbols b.subscriptions in
      let symbols = watchlist_symbols b.subscriptions ++ details in
      contains-keep (λ t. is_due now t b) s (sorted_set details symbols)
      ∙ ap (λ c. is_due now s b && c) (contains-sorted_set details s symbols ∙ contains-subscribed)

  -- A poll of the closed market takes the requested ones.
  pub poll_due-closed :
      contains s (poll_due false now b).0
      ≡ (referenced b.subscriptions s && contains s b.closed_refresh_requests)
  unfolding poll_due
  poll_due-closed =
      let details = detail_symbols b.subscriptions in
      let symbols = watchlist_symbols b.subscriptions ++ details in
      contains-sorted_set details s (keep (λ t. contains t symbols) b.closed_refresh_requests)
      ∙ contains-keep (λ t. contains t symbols) s b.closed_refresh_requests
      ∙ ap (λ c. c && contains s b.closed_refresh_requests) contains-subscribed
