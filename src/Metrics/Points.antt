-- ===== src/Metrics/Points.antt =====
-- pkg/metrics/aggregator.go: the data points and their aggregates.
use hub_agent_kubernetes.Prelude.{
  ℕ, ◌+◌, String, Bool, Option, none, some, List, [], ◌∷◌, nat_eq, string_eq, if◌then◌else◌,
  nat_beq,
}
use hub_agent_kubernetes.Int64
use hub_agent_kubernetes.Int64.{Int64}

-- `float64` and its operations, which the model leaves open.
pub record Floats : Type 1 where
  pub Float : Type 0
  pub zero_float : Float
  pub from_int : Int64 → Float
  pub add_float : Float → Float → Float
  pub sub_float : Float → Float → Float
  pub div_float : Float → Float → Float
  pub lt_float : Float → Float → Bool

pub record DataPoint (R : Type 0) : Type 0 where
  pub timestamp : Int64
  pub req_per_s : R
  pub request_err_per_s : R
  pub request_err_percent : R
  pub request_client_err_per_s : R
  pub request_client_err_percent : R
  pub avg_response_time : R
  pub seconds : Int64
  pub requests : Int64
  pub request_errs : Int64
  pub request_client_errs : Int64
  pub response_time_sum : R
  pub response_time_count : Int64

abbrev pub DataPoints : Type 0 → Type 0
DataPoints R = List (DataPoint R)

pub record DataPointGroup (R : Type 0) : Type 0 where
  pub ingress : String
  pub edge_ingress : String
  pub service : String
  pub data_points : DataPoints R

pub record SetKey : Type 0 where
  pub edge_ingress : String
  pub ingress : String
  pub service : String

-- `DataPoints.Get`; `none` is the index -1.
unfoldable pub get_from : {R : Type 0} → ℕ → DataPoints R → Int64 → Option (ℕ × DataPoint R)
get_from i [] ts = none
get_from i (pnt ∷ p) ts = if nat_beq pnt.timestamp ts then some (i, pnt) else get_from (i + 1) p ts

unfoldable pub get : {R : Type 0} → DataPoints R → Int64 → Option (ℕ × DataPoint R)
unfolding get_from
get p ts = get_from 0 p ts

module _ (fl : Floats) where
  open fl use {Float, zero_float, from_int, add_float, div_float}

  abbrev pub empty_point : DataPoint Float
  empty_point = record {
    timestamp = 0;
    req_per_s = zero_float;
    request_err_per_s = zero_float;
    request_err_percent = zero_float;
    request_client_err_per_s = zero_float;
    request_client_err_percent = zero_float;
    avg_response_time = zero_float;
    seconds = 0;
    requests = 0;
    request_errs = 0;
    request_client_errs = 0;
    response_time_sum = zero_float;
    response_time_count = 0;
  }

  -- One round of the sum, which `Aggregate` and `mergeGroups` share.
  unfoldable pub add_point : DataPoint Float → DataPoint Float → DataPoint Float
  add_point sum pnt = record sum {
    seconds = Int64.add sum.seconds pnt.seconds;
    requests = Int64.add sum.requests pnt.requests;
    request_errs = Int64.add sum.request_errs pnt.request_errs;
    request_client_errs = Int64.add sum.request_client_errs pnt.request_client_errs;
    response_time_sum = add_float sum.response_time_sum pnt.response_time_sum;
    response_time_count = Int64.add sum.response_time_count pnt.response_time_count;
  }

  unfoldable pub sum_points : DataPoint Float → DataPoints Float → DataPoint Float
  unfolding add_point
  sum_points sum [] = sum
  sum_points sum (pnt ∷ p) = sum_points (add_point sum pnt) p

  -- float64(a) / float64(b)
  abbrev pub ratio : Int64 → Int64 → Float
  ratio a b = div_float (from_int a) (from_int b)

  -- The three blocks that fill the averages.
  unfoldable pub fill_rates : DataPoint Float → DataPoint Float
  fill_rates p =
      if Int64.less 0 p.seconds
      then record p {
        req_per_s = ratio p.requests p.seconds;
        request_err_per_s = ratio p.request_errs p.seconds;
        request_client_err_per_s = ratio p.request_client_errs p.seconds;
      }
      else p

  unfoldable pub fill_response_time : DataPoint Float → DataPoint Float
  fill_response_time p =
      if Int64.less 0 p.response_time_count
      then record p {
        avg_response_time = div_float p.response_time_sum (from_int p.response_time_count);
      }
      else p

  unfoldable pub fill_percents : DataPoint Float → DataPoint Float
  fill_percents p =
      if Int64.less 0 p.requests
      then record p {
        request_err_percent = ratio p.request_errs p.requests;
        request_client_err_percent = ratio p.request_client_errs p.requests;
      }
      else p

  -- `DataPoints.Aggregate`
  unfoldable pub aggregate : DataPoints Float → DataPoint Float
  unfolding sum_points fill_rates fill_response_time fill_percents
  aggregate p = fill_percents (fill_response_time (fill_rates (sum_points empty_point p)))
