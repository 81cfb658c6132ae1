-- ===== src/Phases/Windows.antt =====
-- level2_service/market_data.py: how the windows of refreshing and the phases fit together.
use tonghuashun.Base.{ℕ, ◌+◌, ◌*◌, ◌<◌, ◌≡◌, ◌⊎◌, ◌↔◌, Bool, true, false, none, arith}
use tonghuashun.Phases.{
  MarketPhase, LocalTime, weekday_trading_day, phase_at, resolve, is_china_market_open,
  is_china_preopen_window,
}

-- The phases with quotes.
abbrev pub is_quoting : MarketPhase → Bool
is_quoting MarketPhase.closed = false
is_quoting MarketPhase.midday_break = false
is_quoting _ = true

seconds : LocalTime → ℕ
seconds now = now.hour * 3600 + now.minute * 60 + now.second

-- The last minute of a session, after its last second.
pub IsLastMinute : LocalTime → Type 0
IsLastMinute now =
    ((now.hour ≡ 11) × (now.minute ≡ 30) × (0 < now.second))
    ⊎ ((now.hour ≡ 15) × (now.minute ≡ 0) × (0 < now.second))

-- On working weekdays and without a phase from the app, the market counts as open exactly in a phase
-- with quotes or in the rest of the minute in which a session ends.
pub is_china_market_open_iff :
    (now : LocalTime)
    → now.minute < 60
    → now.second < 60
    → (is_china_market_open now ≡ true) ↔ (
        (weekday_trading_day now.date ≡ true)
        × ((is_quoting (resolve weekday_trading_day now none none).phase ≡ true)
            ⊎ IsLastMinute now))
unfolding is_china_market_open weekday_trading_day resolve phase_at IsLastMinute
is_china_market_open_iff now m s = ground arith

-- The phases before the continuous trading.
abbrev pub is_early : MarketPhase → Bool
is_early MarketPhase.preopen_quote = true
is_early MarketPhase.call_auction = true
is_early MarketPhase.auction_locked = true
is_early _ = false

-- On working weekdays and without a phase from the app, the pre-open window is the phases before
-- the continuous trading and the ten minutes that precede them.
pub is_china_preopen_window_iff :
    (now : LocalTime)
    → now.minute < 60
    → now.second < 60
    → (is_china_preopen_window now ≡ true) ↔ (
        (weekday_trading_day now.date ≡ true)
        × ((is_early (resolve weekday_trading_day now none none).phase ≡ true)
            ⊎ ((now.hour ≡ 9) × (now.minute < 10))))
unfolding is_china_preopen_window weekday_trading_day resolve phase_at
is_china_preopen_window_iff now m s = ground arith
