-- ===== src/Phases.antt =====
-- level2_service/market_data.py: the phase of the market and the windows in which it is read. A
-- moment is given by its date and its time of day in Shanghai.
pub mod Windows
use tonghuashun.Base.{
  ℕ, ◌+◌, ◌*◌, String, Bool, true, false, ◌&&◌, ◌||◌, not, Option, none, some, List, ltb, leb,
  if◌then◌else◌,
}
use tonghuashun.Calendar.{ChinaLegalWorkdayCalendar, is_workday, weekday, member}

pub data MarketPhase : Type 0 where
  closed preopen_quote call_auction auction_locked continuous midday_break : MarketPhase

pub data PhaseSource : Type 0 where
  app_status local_calendar : PhaseSource

pub record LocalTime : Type 0 where
  pub date : ℕ
  pub hour : ℕ
  pub minute : ℕ
  pub second : ℕ

pub record MarketPhaseState : Type 0 where
  pub phase : MarketPhase
  pub source : PhaseSource
  pub local_time : LocalTime
  pub server_time : Option String

-- _weekday_trading_day
unfoldable pub weekday_trading_day : ℕ → Bool
unfolding weekday
weekday_trading_day d = ltb (weekday d) 5

-- LocalTradingCalendar after it has loaded its file: a legal calendar, or a list of trading days.
pub record LocalTradingCalendar : Type 0 where
  pub trading_days : Option (List ℕ)
  pub legal_calendar : Option ChinaLegalWorkdayCalendar
  pub fallback : ℕ → Bool

unfoldable pub listed_day : LocalTradingCalendar → ℕ → Bool
unfolding member
listed_day c d = elim c.trading_days [ some days ↦ member d days | none ↦ c.fallback d ]

unfoldable pub is_trading_day : LocalTradingCalendar → ℕ → Bool
unfolding listed_day
is_trading_day c d = elim c.legal_calendar [
  | none ↦ listed_day c d
  | some legal ↦ elim (is_workday legal d) [ some b ↦ b | none ↦ listed_day c d ]
]

-- The chain of tests on the seconds of the day.
unfoldable pub phase_at : ℕ → MarketPhase
phase_at seconds =
    if ltb seconds (9 * 3600 + 10 * 60)
    then MarketPhase.closed
    else if ltb seconds (9 * 3600 + 15 * 60)
    then MarketPhase.preopen_quote
    else if ltb seconds (9 * 3600 + 25 * 60)
    then MarketPhase.call_auction
    else if ltb seconds (9 * 3600 + 30 * 60)
    then MarketPhase.auction_locked
    else if leb seconds (11 * 3600 + 30 * 60)
    then MarketPhase.continuous
    else if ltb seconds (13 * 3600)
    then MarketPhase.midday_break
    else if leb seconds (15 * 3600)
    then MarketPhase.continuous
    else MarketPhase.closed

-- resolve; the phase of the app is the one that _coerce_app_phase has read.
unfoldable pub resolve :
    (ℕ → Bool) → LocalTime → Option MarketPhase → Option String → MarketPhaseState
unfolding phase_at
resolve trading now (some phase) server_time = record {
  phase = phase;
  source = PhaseSource.app_status;
  local_time = now;
  server_time = server_time;
}
resolve trading now none server_time = record {
  phase =
      if trading now.date
      then phase_at (now.hour * 3600 + now.minute * 60 + now.second)
      else MarketPhase.closed;
  source = PhaseSource.local_calendar;
  local_time = now;
  server_time = none;
}

unfoldable pub is_china_market_open : LocalTime → Bool
unfolding weekday
is_china_market_open now =
    let minute = now.hour * 60 + now.minute in
    if leb 5 (weekday now.date)
    then false
    else (leb (9 * 60 + 10) minute && leb minute (11 * 60 + 30))
      || (leb (13 * 60) minute && leb minute (15 * 60))

unfoldable pub is_china_preopen_window : LocalTime → Bool
unfolding weekday
is_china_preopen_window now =
    let minute = now.hour * 60 + now.minute in
    if leb 5 (weekday now.date) then false else leb (9 * 60) minute && ltb minute (9 * 60 + 30)
