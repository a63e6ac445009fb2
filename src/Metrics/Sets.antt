-- ===== src/Metrics/Sets.antt =====
-- pkg/metrics/aggregator.go and pkg/metrics/scraper.go: the scraped metrics, their sets by key, and
-- the data point that a set gives.
pub mod Totals
use hub_agent_kubernetes.Prelude.{
  ℕ, ◌+◌, ◌%◌, String, Bool, true, false, ◌&&◌, not, List, [], ◌∷◌, ◌≡◌, refl, ◌↔◌, arith, Eq, ◌==◌,
  string_eq, str_iff, if◌then◌else◌, GoMap, lookup, insert, default,
}
use hub_agent_kubernetes.Int64
use hub_agent_kubernetes.Int64.{Int64}
use hub_agent_kubernetes.Metrics.Points.{Floats, DataPoint, SetKey, ratio}

abbrev pub set_key_beq : SetKey → SetKey → Bool
set_key_beq a b =
    a.edge_ingress == b.edge_ingress && (a.ingress == b.ingress && a.service == b.service)

pub set_key_beq_iff : (a b : SetKey) → (set_key_beq a b ≡ true) ↔ (a ≡ b)
set_key_beq_iff a b = ground (
  arith,
  str_iff a.edge_ingress b.edge_ingress,
  str_iff a.ingress b.ingress,
  str_iff a.service b.service,
)

instance abbrev pub set_key_eq : Eq SetKey
set_key_eq = record { same = set_key_beq; same_iff = set_key_beq_iff }

-- `Value` and `Count` are `uint64`.
pub record Counter : Type 0 where
  pub name : String
  pub edge_ingress : String
  pub ingress : String
  pub service : String
  pub value : ℕ

pub record Histogram (R : Type 0) : Type 0 where
  pub name : String
  pub relative : Bool
  pub edge_ingress : String
  pub ingress : String
  pub service : String
  pub sum : R
  pub count : ℕ

-- The interface `Metric`, with its two implementations.
pub data Metric (R : Type 0) : Type 0 where
  counter : Counter → Metric R
  histogram : Histogram R → Metric R

pub record ServiceHistogram (R : Type 0) : Type 0 where
  pub relative : Bool
  pub sum : R
  pub count : Int64

pub record MetricSet (R : Type 0) : Type 0 where
  pub requests : Int64
  pub request_errors : Int64
  pub request_client_errors : Int64
  pub request_duration : ServiceHistogram R

-- `EdgeIngressName`, `IngressName` and `ServiceName`, as the key that `Aggregate` builds.
unfoldable pub metric_key : {R : Type 0} → Metric R → SetKey
metric_key (counter c) = record {
  edge_ingress = c.edge_ingress;
  ingress = c.ingress;
  service = c.service;
}
metric_key (histogram h) = record {
  edge_ingress = h.edge_ingress;
  ingress = h.ingress;
  service = h.service;
}

-- `int64(v)` of a `uint64`
abbrev pub to_int64 : ℕ → Int64
to_int64 v = v % Int64.modulus

module _ (fl : Floats) where
  open fl use {Float, zero_float, from_int, add_float, sub_float, div_float}

  abbrev pub empty_set : MetricSet Float
  empty_set = record {
    requests = 0;
    request_errors = 0;
    request_client_errors = 0;
    request_duration = record { relative = false; sum = zero_float; count = 0 };
  }

  -- `svcs[key]` after one metric of that key; `continue` leaves the map as it is.
  unfoldable pub count_metric :
      Metric Float → GoMap SetKey (MetricSet Float) → GoMap SetKey (MetricSet Float)
  unfolding metric_key
  count_metric (counter c) svcs =
      let key = metric_key {R = Float} (counter c) in
      let svc = default empty_set (lookup key svcs) in
      let v = to_int64 c.value in
      if c.name == "requests"
      then insert key (record svc { requests = Int64.add svc.requests v }) svcs
      else if c.name == "request_errors"
      then insert key (record svc { request_errors = Int64.add svc.request_errors v }) svcs
      else if c.name == "request_client_errors"
      then insert key (record svc { request_client_errors = Int64.add svc.request_client_errors v })
          svcs
      else svcs
  count_metric (histogram h) svcs =
      let key = metric_key (histogram h) in
      let svc = default empty_set (lookup key svcs) in
      let dur = svc.request_duration in
      if not (h.name == "request_duration")
      then svcs
      else insert key
          (record svc {
            request_duration = record {
              relative = h.relative;
              sum = add_float dur.sum h.sum;
              count = Int64.add dur.count (to_int64 h.count);
            };
          })
          svcs

  count_metrics :
      List (Metric Float) → GoMap SetKey (MetricSet Float) → GoMap SetKey (MetricSet Float)
  unfolding count_metric
  count_metrics [] svcs = svcs
  count_metrics (metric ∷ m) svcs = count_metrics m (count_metric metric svcs)

  -- `Aggregate`
  unfoldable pub aggregate_metrics : List (Metric Float) → GoMap SetKey (MetricSet Float)
  unfolding count_metrics
  aggregate_metrics m = count_metrics m []

  -- `MetricSet.RelativeTo`
  unfoldable pub relative_to : MetricSet Float → MetricSet Float → MetricSet Float
  relative_to s o =
      let d = s.request_duration in
      let e = o.request_duration in
      if Int64.less s.requests o.requests then s else record {
        requests = Int64.sub s.requests o.requests;
        request_errors = Int64.sub s.request_errors o.request_errors;
        request_client_errors = Int64.sub s.request_client_errors o.request_client_errors;
        request_duration =
            (if not e.relative
              then record d { sum = sub_float d.sum e.sum; count = Int64.sub d.count e.count }
              else d);
      }

  -- `MetricSet.ToDataPoint`
  unfoldable pub to_data_point : Int64 → MetricSet Float → DataPoint Float
  to_data_point secs s =
      let d = s.request_duration in
      record {
        timestamp = 0;
        req_per_s = ratio fl s.requests secs;
        request_err_per_s = ratio fl s.request_errors secs;
        request_err_percent =
            (if Int64.less 0 s.requests then ratio fl s.request_errors s.requests else zero_float);
        request_client_err_per_s = ratio fl s.request_client_errors secs;
        request_client_err_percent =
            (if Int64.less 0 s.requests
              then ratio fl s.request_client_errors s.requests
              else zero_float);
        avg_response_time =
            (if Int64.less 0 d.count then div_float d.sum (from_int d.count) else zero_float);
        seconds = 0;
        requests = s.requests;
        request_errs = s.request_errors;
        request_client_errs = s.request_client_errors;
        response_time_sum = d.sum;
        response_time_count = d.count;
      }

  -- One tick of `startScraper`: the points of the sets, relative to those of the tick before.
  unfoldable pub points_of_tick :
      Int64
      → Int64
      → GoMap SetKey (MetricSet Float)
      → GoMap SetKey (MetricSet Float)
      → GoMap SetKey (DataPoint Float)
      → GoMap SetKey (DataPoint Float)
  unfolding relative_to to_data_point
  points_of_tick ts scrape_sec ref [] pnts = pnts
  points_of_tick ts scrape_sec ref ((key, mtrc) ∷ mtrc_set) pnts =
      let pnt = to_data_point scrape_sec (relative_to mtrc (default empty_set (lookup key ref))) in
      points_of_tick ts scrape_sec ref mtrc_set
        (insert key (record pnt { timestamp = ts; seconds = scrape_sec }) pnts)
