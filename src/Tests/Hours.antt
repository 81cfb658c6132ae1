-- ===== src/Tests/Hours.antt =====
-- The windows of level2_service/market_data.py at concrete moments.
use tonghuashun.Base.{◌≡◌, ◌<◌, ◌⊎◌, ◌↔◌, true, none, arith}
use tonghuashun.Phases.{
  LocalTime, weekday_trading_day, resolve, is_china_market_open, is_china_preopen_window,
}
use tonghuashun.Phases.Windows.{
  is_quoting, is_early, IsLastMinute, is_china_market_open_iff, is_china_preopen_window_iff,
}

-- A Monday in the second half of the minute in which the morning session ends.
abbrev noon : LocalTime
noon = record { date = 8; hour = 11; minute = 30; second = 40 }

is_china_market_open_iff_example : (is_china_market_open noon ≡ true) ↔ (
    (weekday_trading_day 8 ≡ true)
    × ((is_quoting (resolve weekday_trading_day noon none none).phase ≡ true) ⊎ IsLastMinute noon))
is_china_market_open_iff_example = is_china_market_open_iff noon (omega arith) (omega arith)

is_china_preopen_window_iff_example : (is_china_preopen_window noon ≡ true) ↔ (
    (weekday_trading_day 8 ≡ true)
    × ((is_early (resolve weekday_trading_day noon none none).phase ≡ true)
        ⊎ ((noon.hour ≡ 9) × (noon.minute < 10))))
is_china_preopen_window_iff_example = is_china_preopen_window_iff noon (omega arith) (omega arith)
