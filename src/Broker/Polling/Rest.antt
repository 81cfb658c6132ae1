-- ===== src/Broker/Polling/Rest.antt =====
-- level2_service/market_data.py: how long `MarketDataBroker` lets a symbol rest after a failure.
pub mod Retry
use tonghuashun.Base.{
  ℕ, zero, suc, ◌+◌, ◌*◌, ◌-◌, ◌^◌, ◌≤◌, ◌<◌, ◌≡◌, ◌⊎◌, ◌↔◌, refl, sym, ◌∙◌, ap, subst, String,
  Bool, true, false, some, List, [], ◌∷◌, arith, Bool-cases, inl, inr, eq_refl, leb, ◌&&◌, length,
  contains, if◌then◌else◌,
}
use tonghuashun.Dict.{Dict, get, get_or, put, get-put}
use tonghuashun.Broker.{Snapshot, MarketDataBroker, referenced}
use tonghuashun.Broker.Polling.{
  backoff, is_due, interval_over, publish_failure, store_failure, accept_snapshot, min_nat, max_nat,
  detail_symbols, poll_due,
}
use tonghuashun.Broker.Polling.Listing.{poll_due-open, poll_due-closed}
use tonghuashun.Broker.Polling.Failing.{
  publish_failure-quiet, failing, IsSame, join-IsSame, publish_failure-IsSame, failing-IsSame,
  count_of, count-failing, count-accept_snapshot, accept_snapshot-IsSame,
}

-- The interval between two polls of a symbol.
abbrev pub interval_of : String → MarketDataBroker → ℕ
interval_of symbol b =
    if contains symbol (detail_symbols b.subscriptions)
    then b.detail_interval
    else b.watchlist_interval

-- How many times an interval the rest lasts after a number of earlier failures in a row.
abbrev pub times : ℕ → ℕ
times zero = 1
times (suc zero) = 2
times (suc (suc zero)) = 4
times (suc (suc (suc zero))) = 8
times (suc (suc (suc (suc n)))) = 16

-- The rest from the last failure is over: 30 seconds, or so many times both intervals.
abbrev pub IsRested : ℕ → MarketDataBroker → ℕ → ℕ → Type 0
IsRested earlier b now later =
    (now + 30000000 ≤ later)
    ⊎ ((now + times earlier * b.detail_interval ≤ later)
        × (now + times earlier * b.watchlist_interval ≤ later))

power_times : (n : ℕ) → 2 ^ min_nat n 4 ≡ times n
power_times zero = refl
power_times (suc zero) = refl
power_times (suc (suc zero)) = refl
power_times (suc (suc (suc zero))) = refl
power_times (suc (suc (suc (suc n)))) = ap (λ k. 2 ^ k) four
  where
    four : min_nat (suc (suc (suc (suc n)))) 4 ≡ 4
    four = ground arith

mul_le : (a b k : ℕ) → a ≤ b → k * a ≤ k * b
mul_le a b zero h = omega arith
mul_le a b (suc k) h = omega (arith, mul_le a b k h)

-- Both times the longer interval.
both_le :
    (a b k now later : ℕ)
    → (now + max_nat a b * k ≤ later) ↔ ((now + k * a ≤ later) × (now + k * b ≤ later))
both_le a b k now later = elim (Bool-cases (leb a b)) [
  | inl e ↦
      let more : k * a ≤ k * b = mul_le a b k (ground arith) in
      rw e (λ h. (omega (arith, more, h), omega (arith, h)), λ h. omega (arith, h.1))
  | inr e ↦
      let more : k * b ≤ k * a = mul_le b a k (ground arith) in
      rw e (λ h. (omega (arith, h), omega (arith, more, h)), λ h. omega (arith, h.0))
]

min_nat_iff :
    (c m now later : ℕ) → (now + min_nat c m ≤ later) ↔ ((now + c ≤ later) ⊎ (now + m ≤ later))
min_nat_iff c m now later = elim (Bool-cases (leb c m)) [
  | inl e ↦ rw e (λ h. inl h, λ h. ground arith)
  | inr e ↦ rw e (λ h. inr h, λ h. ground arith)
]

backoff-times :
    (n : ℕ) (b : MarketDataBroker)
    → backoff (suc n) b
      ≡ min_nat 30000000 (max_nat b.detail_interval b.watchlist_interval * times n)
unfolding backoff
backoff-times n b =
    let longest = max_nat b.detail_interval b.watchlist_interval in
    let before : suc n - 1 ≡ n = omega arith in
    ap (λ k. min_nat 30000000 (longest * 2 ^ min_nat k 4)) before
    ∙ ap (λ k. min_nat 30000000 (longest * k)) (power_times n)

cap_iff :
    (n now later : ℕ) (b : MarketDataBroker)
    → (now + min_nat 30000000 (max_nat b.detail_interval b.watchlist_interval * times n) ≤ later)
      ↔ IsRested n b now later
cap_iff n now later b =
    let d = b.detail_interval in
    let w = b.watchlist_interval in
    let longest = max_nat d w * times n in
    let cap = min_nat_iff 30000000 longest now later in
    let both = both_le d w (times n) now later in
    (
      λ h. elim (cap.0 h) [ inl e ↦ inl e | inr e ↦ inr (both.0 e) ],
      λ h. cap.1 (elim h as (λ _. (now + 30000000 ≤ later) ⊎ (now + longest ≤ later)) [
        | inl e ↦ inl e
        | inr e ↦ inr (both.1 e)
      ]),
    )

pub backoff_iff :
    (n now later : ℕ) (b : MarketDataBroker)
    → (now + backoff (suc n) b ≤ later) ↔ IsRested n b now later
backoff_iff n now later b =
    subst (λ t. (now + t ≤ later) ↔ IsRested n b now later) (sym (backoff-times n b))
      (cap_iff n now later b)

interval_over-store_failure :
    (later now : ℕ) (symbol : String) (b : MarketDataBroker)
    → interval_over later symbol (store_failure now symbol b)
      ≡ leb (now + interval_of symbol b) later
unfolding interval_over store_failure
interval_over-store_failure later now symbol b = rw (interval_over, get-put, eq_refl symbol) refl

retry_after-store_failure :
    (now : ℕ) (symbol : String) (b : MarketDataBroker)
    → get_or symbol 0 (store_failure now symbol b).retry_after
      ≡ now + backoff (suc (count_of symbol b)) b
unfolding store_failure
retry_after-store_failure now symbol b = rw (get_or, get-put, eq_refl symbol) refl

-- A symbol is due after a failure if the interval and the rest are over.
pub is_due-publish_failure :
    (later now : ℕ) (symbol code : String) (b : MarketDataBroker)
    → is_due later symbol (publish_failure now symbol code b) ≡ (
        leb (now + interval_of symbol b) later
        && leb (now + backoff (suc (count_of symbol b)) b) later)
unfolding is_due interval_over
is_due-publish_failure later now symbol code b =
    publish_failure-quiet (is_due later symbol) (λ _ _ _. refl) now symbol code b
    ∙ ap (λ c. c && leb (get_or symbol 0 (store_failure now symbol b).retry_after) later)
        (interval_over-store_failure later now symbol b)
    ∙ ap (λ t. leb (now + interval_of symbol b) later && leb t later)
        (retry_after-store_failure now symbol b)
