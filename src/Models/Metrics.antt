-- ===== src/Models/Metrics.antt =====
-- level2_service/models.py: the metrics, their tables, and the normal form of the minute series.
use tonghuashun.Base.{String, Option, none, some, List, [], ◌∷◌}

pub data MetricKind : Type 0 where
  stock_name current_price change_percent turnover_rate retail_count : MetricKind
  large_order_net large_order_amount macdfs : MetricKind
  main_flow_today_net main_flow_today_visible main_flow_today_hidden : MetricKind
  main_flow_today_retail : MetricKind
  main_flow_three_day_net main_flow_three_day_visible main_flow_three_day_hidden : MetricKind
  main_flow_three_day_retail : MetricKind
  main_flow_five_day_net main_flow_five_day_visible main_flow_five_day_hidden : MetricKind
  main_flow_five_day_retail : MetricKind
  main_flow_today_unit main_flow_three_day_unit main_flow_five_day_unit : MetricKind

pub data ValueSource : Type 0 where
  interface ocr : ValueSource

-- REQUIRED_METRICS
abbrev pub required_metrics : List MetricKind
required_metrics =
    MetricKind.stock_name ∷ MetricKind.current_price ∷ MetricKind.change_percent
    ∷ MetricKind.turnover_rate ∷ MetricKind.retail_count ∷ MetricKind.large_order_net
    ∷ MetricKind.large_order_amount ∷ MetricKind.macdfs ∷ []

-- The first components of FUND_FLOW_PERIODS, and the fields of a period's row.
pub data Period : Type 0 where
  today three_day five_day : Period

pub data FlowField : Type 0 where
  main_net_inflow main_visible_inflow main_hidden_inflow retail_inflow : FlowField

-- FUND_FLOW_PERIODS: the metric with the unit of a period.
unfoldable pub unit_metric : Period → MetricKind
unit_metric today = MetricKind.main_flow_today_unit
unit_metric three_day = MetricKind.main_flow_three_day_unit
unit_metric five_day = MetricKind.main_flow_five_day_unit

-- FUND_FLOW_METRICS
unfoldable pub flow_metric : Period → FlowField → MetricKind
flow_metric today main_net_inflow = MetricKind.main_flow_today_net
flow_metric today main_visible_inflow = MetricKind.main_flow_today_visible
flow_metric today main_hidden_inflow = MetricKind.main_flow_today_hidden
flow_metric today retail_inflow = MetricKind.main_flow_today_retail
flow_metric three_day main_net_inflow = MetricKind.main_flow_three_day_net
flow_metric three_day main_visible_inflow = MetricKind.main_flow_three_day_visible
flow_metric three_day main_hidden_inflow = MetricKind.main_flow_three_day_hidden
flow_metric three_day retail_inflow = MetricKind.main_flow_three_day_retail
flow_metric five_day main_net_inflow = MetricKind.main_flow_five_day_net
flow_metric five_day main_visible_inflow = MetricKind.main_flow_five_day_visible
flow_metric five_day main_hidden_inflow = MetricKind.main_flow_five_day_hidden
flow_metric five_day retail_inflow = MetricKind.main_flow_five_day_retail

-- The row of a period in a dict of the fund flow, and the row that the values give.
pub record Row : Type 0 where
  pub unit : Option String
  pub field : FlowField → Option String

unfoldable pub row_of : (MetricKind → Option String) → Period → Row
unfolding unit_metric flow_metric
row_of values p = record { unit = values (unit_metric p); field = λ f. values (flow_metric p f) }

-- One point of a minute series, as the normal form keeps it.
pub record Point : Type 0 where
  pub time : String
  pub value : Option String

pub record IntradaySeries : Type 0 where
  pub unit : Option String
  pub points : List Point

-- A dict over the three metrics of INTRADAY_METRICS.
pub record SeriesOf (A : Type 0) : Type 0 where
  pub large_order_net : A
  pub large_order_amount : A
  pub retail_count : A

-- A point as a caller provides it: anything, or a dict whose `get` may miss either key.
pub data RawPoint : Type 0 where
  not_a_dict : RawPoint
  point : Option String → Option String → RawPoint

-- A provided series: no dict, or a dict with an optional unit (itself possibly None) and points.
pub data RawSeries : Type 0 where
  not_a_dict : RawSeries
  series : Option (Option String) → List RawPoint → RawSeries

-- The comprehension over `raw_points`.
unfoldable pub normal_points : List RawPoint → List Point
normal_points [] = []
normal_points (RawPoint.not_a_dict ∷ ps) = normal_points ps
normal_points (point none v ∷ ps) = normal_points ps
normal_points (point (some t) v ∷ ps) = record { time = t; value = v } ∷ normal_points ps

unfoldable pub normal_series : Option String → RawSeries → IntradaySeries
unfolding normal_points
normal_series default_unit RawSeries.not_a_dict = record { unit = default_unit; points = [] }
normal_series default_unit (series none ps) = record {
  unit = default_unit;
  points = normal_points ps;
}
normal_series default_unit (series (some u) ps) = record { unit = u; points = normal_points ps }

-- A metric that was not provided is an empty dict.
abbrev pub no_series : RawSeries
no_series = series none []

-- normalized_intraday_series; INTRADAY_METRICS gives one metric the unit 万.
unfoldable pub normalized_intraday_series : SeriesOf RawSeries → SeriesOf IntradaySeries
unfolding normal_series
normalized_intraday_series provided = record {
  large_order_net = normal_series none provided.large_order_net;
  large_order_amount = normal_series (some "万") provided.large_order_amount;
  retail_count = normal_series none provided.retail_count;
}

abbrev pub nothing_provided : SeriesOf RawSeries
nothing_provided = record {
  large_order_net = no_series;
  large_order_amount = no_series;
  retail_count = no_series;
}

-- normalized_intraday_series(None)
abbrev pub empty_series : SeriesOf IntradaySeries
unfolding normalized_intraday_series
empty_series = normalized_intraday_series nothing_provided

-- A series in normal form, provided again.
abbrev pub raw_points : List Point → List RawPoint
raw_points [] = []
raw_points (p ∷ ps) = point (some p.time) p.value ∷ raw_points ps

abbrev pub raw_series : IntradaySeries → RawSeries
raw_series s = series (some s.unit) (raw_points s.points)
