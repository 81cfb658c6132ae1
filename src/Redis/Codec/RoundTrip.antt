-- ===== src/Redis/Codec/RoundTrip.antt =====
-- level2_service/queue.py: writing a task to the server and reading it back.
use tonghuashun.Base.{
  ℕ, ◌≡◌, refl, ap, String, true, false, ◌||◌, Option, none, some, List, [], ◌∷◌, arith, ◌==◌,
  is_some, all, if◌then◌else◌,
}
use tonghuashun.Models.{
  TaskRecord, TaskStatus, CaptureKind, CaptureStatus, CaptureRecord, Captures, capture_of,
}
use tonghuashun.Models.Metrics.{
  MetricKind, ValueSource, Point, SeriesOf, IntradaySeries, raw_series, raw_points, normal_points,
  normal_series, normalized_intraday_series,
}
use tonghuashun.Queue.{has_maintenance_metadata}
use tonghuashun.Redis.Codec.Texts.{
  status_text, read_status, capture_status_text, read_capture_status, source_text,
  read_value_source, read_source, is_source, source_at, metric_kinds,
}
use tonghuashun.Redis.Codec.{
  TimeFormat, map_option, capture_document, serialize, read_time, read_path, read_capture,
  read_kind, read_captures, read_long_capture, read_maintenance, source_or_default, deserialize,
}

-- A capture without an empty path.
abbrev pub HasPath : CaptureRecord → Type 0
HasPath c = (p : String) → c.path ≡ some p → (p == "") ≡ false

-- What a task must be to come back as it was: both maintenance fields or none, no empty path, and a
-- source for each value.
pub record IsStorable (t : TaskRecord) : Type 0 where
  pub maintenance : is_some t.maintenance_namespace ≡ is_some t.maintenance_owner_digest
  pub captures : (kind : CaptureKind) → HasPath (capture_of t.captures kind)
  pub long_capture : HasPath t.long_capture
  pub sources : (kind : MetricKind) → t.value_sources kind ≡ none → t.values kind ≡ none

read_status-text : (x : TaskStatus) → read_status (status_text x) ≡ some x
unfolding read_status status_text
read_status-text TaskStatus.queued = refl
read_status-text TaskStatus.running = refl
read_status-text TaskStatus.waiting_admin = refl
read_status-text TaskStatus.completed = refl
read_status-text TaskStatus.market_snapshot = refl
read_status-text TaskStatus.partial = refl
read_status-text TaskStatus.failed = refl
read_status-text TaskStatus.expired = refl

read_capture_status-text :
    (x : CaptureStatus) → read_capture_status (capture_status_text x) ≡ some x
unfolding read_capture_status capture_status_text
read_capture_status-text CaptureStatus.pending = refl
read_capture_status-text CaptureStatus.ready = refl
read_capture_status-text CaptureStatus.skipped = refl
read_capture_status-text CaptureStatus.expired = refl

source_at-text : (o : Option ValueSource) → source_at (map_option source_text o) ≡ o
unfolding read_value_source source_text
source_at-text none = refl
source_at-text (some ValueSource.interface) = refl
source_at-text (some ValueSource.ocr) = refl

is_source-text : (o : Option ValueSource) → is_source (map_option source_text o) ≡ true
unfolding read_value_source source_text
is_source-text none = refl
is_source-text (some ValueSource.interface) = refl
is_source-text (some ValueSource.ocr) = refl

all_sources :
    (f : MetricKind → Option ValueSource) (kinds : List MetricKind)
    → all (λ kind. is_source (map_option source_text (f kind))) kinds ≡ true
all_sources f [] = refl
all_sources f (k ∷ ks) = rw (is_source-text (f k), all_sources f ks) refl

read_source-text :
    (f : MetricKind → Option ValueSource)
    → read_source (λ kind. map_option source_text (f kind)) ≡ some f
unfolding read_source
read_source-text f = rw (all_sources f metric_kinds) (ap some (λ i kind. source_at-text (f kind) i))

source_or_default-same :
    (v : Option String) (o : Option ValueSource) → (o ≡ none → v ≡ none) → source_or_default v o ≡ o
unfolding source_or_default
source_or_default-same v (some s) h = refl
source_or_default-same v none h = rw (h refl) refl

normal_points-raw : (ps : List Point) → normal_points (raw_points ps) ≡ ps
unfolding normal_points
normal_points-raw [] = refl
normal_points-raw (p ∷ ps) = rw (normal_points-raw ps) refl

normal_series-raw : (d : Option String) (s : IntradaySeries) → normal_series d (raw_series s) ≡ s
unfolding normal_series
normal_series-raw d s = rw (normal_points-raw s.points) refl

normalized-raw :
    (s : SeriesOf IntradaySeries)
    → normalized_intraday_series (record {
      large_order_net = raw_series s.large_order_net;
      large_order_amount = raw_series s.large_order_amount;
      retail_count = raw_series s.retail_count;
    })
      ≡ s
unfolding normalized_intraday_series
normalized-raw s =
    rw
      (
        normal_series-raw none s.large_order_net,
        normal_series-raw (some "万") s.large_order_amount,
        normal_series-raw none s.retail_count,
      )
      refl

module _ (iso : TimeFormat) (reads : (t : ℕ) → iso.fromisoformat (iso.isoformat t) ≡ some t)
    (filled : (t : ℕ) → (iso.isoformat t == "") ≡ false) where
  read_time-isoformat : (o : Option ℕ) → read_time iso (map_option iso.isoformat o) ≡ some o
  unfolding read_time
  read_time-isoformat none = refl
  read_time-isoformat (some t) = rw (filled t, reads t) refl

  read_path-same :
      (o : Option String) → ((p : String) → o ≡ some p → (p == "") ≡ false) → read_path o ≡ o
  unfolding read_path
  read_path-same none h = refl
  read_path-same (some p) h = rw (h p refl) refl

  read_capture-document :
      (c : CaptureRecord) → HasPath c → read_capture iso (capture_document iso c) ≡ some c
  unfolding read_capture capture_document
  read_capture-document c h =
      rw
        (
          read_capture_status-text c.status,
          read_time-isoformat c.captured_at,
          read_path-same c.path h,
        )
        refl

  read_captures-document :
      (c : Captures)
      → ((kind : CaptureKind) → HasPath (capture_of c kind))
      → read_captures iso (λ kind. some (capture_document iso (capture_of c kind))) ≡ some c
  unfolding read_captures read_kind capture_of
  read_captures-document c h =
      rw
        (
          read_capture-document c.large_order_net (h CaptureKind.large_order_net),
          read_capture-document c.large_order_amount (h CaptureKind.large_order_amount),
          read_capture-document c.retail_count (h CaptureKind.retail_count),
        )
        refl

  read_maintenance-same :
      (a b : Option String)
      → is_some a ≡ is_some b
      → read_maintenance (
          if is_some a || is_some b
          then some (record { namespace = a; owner_digest = b })
          else none)
        ≡ some (a, b)
  unfolding read_maintenance
  read_maintenance-same none none h = refl
  read_maintenance-same (some a) (some b) h = refl
  read_maintenance-same (some a) none h = absurd (ground arith)
  read_maintenance-same none (some b) h = absurd (ground arith)

  -- A task that is written and read back is the same, if the format of times can be read back and
  -- writes no empty text, the task has both maintenance fields or none, none of its captures has an
  -- empty path, and each of its values has a source.
  pub deserialize-serialize :
      (t : TaskRecord) → IsStorable t → deserialize iso (serialize iso t) ≡ some t
  unfolding deserialize serialize has_maintenance_metadata read_long_capture
  deserialize-serialize t h =
      rw
        (
          read_maintenance-same t.maintenance_namespace t.maintenance_owner_digest h.maintenance,
          read_status-text t.status,
          reads t.created_at,
          reads t.updated_at,
          read_time-isoformat t.completed_at,
          read_time-isoformat t.collected_at,
          read_captures-document t.captures h.captures,
          read_source-text t.value_sources,
          read_capture-document t.long_capture h.long_capture,
          normalized-raw t.intraday_series,
        )
        (λ i. some (record t {
          value_sources = λ kind.
              source_or_default-same (t.values kind) (t.value_sources kind) (h.sources kind) i;
        }))
