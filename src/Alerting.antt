-- ===== src/Alerting.antt =====
-- pkg/alerting: the rules, their thresholds, and the processor of threshold rules. A `time.Time` is
-- its nanoseconds since the Unix epoch, and no time is before it.
pub mod Manager
pub mod Thresholds
pub mod Tests
use hub_agent_kubernetes.Prelude.{
  ℕ, ◌+◌, ◌-◌, ◌*◌, ◌%◌, String, Bool, true, false, ◌&&◌, not, Option, none, some, List, [], ◌∷◌,
  ◌++◌, ◌≡◌, refl, Eq, ◌==◌, string_eq, if◌then◌else◌, ltb, map, Run, ret, panic, ◌>>=◌, length,
}
use hub_agent_kubernetes.Strings
use hub_agent_kubernetes.Strings.{runes, string_of}
use hub_agent_kubernetes.Int64
use hub_agent_kubernetes.Int64.{Int64}
use hub_agent_kubernetes.Metrics.Points.{Floats, DataPoint, DataPoints}
use hub_agent_kubernetes.Metrics.Store.{Store, second}
use hub_agent_kubernetes.Metrics.Store.RollUp.{unix_offset}
use hub_agent_kubernetes.Metrics.View.{
  find_by_ingress_and_service, find_by_service, find_by_ingress,
}

pub record ThresholdCondition (R : Type 0) : Type 0 where
  pub above : Bool
  pub value : R

pub record Threshold (R : Type 0) : Type 0 where
  pub metric : String
  pub condition : ThresholdCondition R
  pub occurrence : Int64
  -- in nanoseconds, not negative
  pub time_range : ℕ

pub record Rule (R : Type 0) : Type 0 where
  pub id : String
  pub ingress : String
  pub service : String
  pub threshold : Option (Threshold R)

pub record Point (R : Type 0) : Type 0 where
  pub timestamp : Int64
  pub value : R

pub record Alert (R : Type 0) : Type 0 where
  pub rule_id : String
  pub ingress : String
  pub service : String
  pub points : List (Point R)
  pub logs : Option String
  pub threshold : Threshold R

abbrev pub minute : ℕ
minute = 60 * second

abbrev pub hour : ℕ
hour = 3600 * second

module _ {R : Type 0} where
  -- `Rule.Type`
  unfoldable pub rule_type : Rule R → String
  rule_type r = elim r.threshold [ none ↦ "unknown" | some t ↦ "threshold" ]

  unfoldable pub table : Threshold R → String
  table t =
      if ltb (24 * hour) t.time_range
      then "1d"
      else if ltb hour t.time_range
      then "1h"
      else if ltb (10 * minute) t.time_range
      then "10m"
      else "1m"

  unfoldable pub granularity : Threshold R → ℕ
  granularity t =
      if ltb (24 * hour) t.time_range
      then 24 * hour
      else if ltb hour t.time_range
      then hour
      else if ltb (10 * minute) t.time_range
      then 10 * minute
      else minute

  unfoldable pub get_value : String → DataPoint R → Option R
  get_value metric pnt =
      if metric == "requestsPerSecond"
      then some pnt.req_per_s
      else if metric == "requestErrorsPerSecond"
      then some pnt.request_err_per_s
      else if metric == "requestClientErrorsPerSecond"
      then some pnt.request_client_err_per_s
      else if metric == "averageResponseTime"
      then some pnt.avg_response_time
      else none

  -- The loop over the data points; `none` is the error "invalid metric type".
  unfoldable pub get_points : String → DataPoints R → Option (List (Point R))
  unfolding get_value
  get_points metric [] = some []
  get_points metric (pnt ∷ data_points) = elim (get_value metric pnt) [
    | none ↦ none
    | some value ↦ elim (get_points metric data_points) [
      | none ↦ none
      | some points ↦ some (record { timestamp = pnt.timestamp; value = value } ∷ points)
    ]
  ]

-- `DataPointsFinder`
pub record DataPointsFinder (R : Type 0) : Type 0 where
  pub by_ingress_and_service : String → String → String → ℕ → ℕ → Option (DataPoints R)
  pub by_service : String → String → ℕ → ℕ → DataPoints R
  pub by_ingress : String → String → ℕ → ℕ → DataPoints R

-- `DataPointView` is the finder of the program.
abbrev pub view_of : (fl : Floats) → Store (fl.Float) → DataPointsFinder (fl.Float)
view_of fl s = record {
  by_ingress_and_service = find_by_ingress_and_service s;
  by_service = find_by_service fl s;
  by_ingress = find_by_ingress fl s;
}

-- `LogProvider`, and the gzip compression of `compress`; `none` is an error.
pub record LogProvider : Type 0 where
  pub get_service_logs : String → String → ℕ → ℕ → Option String
  pub compress : String → Option String

-- `t.Truncate(d)`
abbrev pub truncate_time : ℕ → ℕ → ℕ
truncate_time t d = t - (t + unix_offset * second) % d

unfoldable pub fetch_logs : LogProvider → String → String → Option (Option String)
fetch_logs provider namespace name = elim (provider.get_service_logs namespace name 50 200) [
  | none ↦ none
  | some logs ↦ elim (provider.compress logs) [ none ↦ none | some z ↦ some (some z) ]
]

-- `none` is an error, `some none` are no logs.
unfoldable pub get_logs : LogProvider → String → Option (Option String)
unfolding Strings.split fetch_logs
get_logs provider service =
    if service == ""
    then some none
    else elim (map string_of (Strings.split (runes service) (runes "@"))) [
      | name ∷ namespace ∷ [] ↦ fetch_logs provider namespace name
      | _ ↦ none
    ]

-- What `Process` gives back, apart from a panic.
pub data Processed (R : Type 0) : Type 0 where
  failed : Processed R
  no_alert : Processed R
  raised : Alert R → Processed R

module _ (fl : Floats) (finder : DataPointsFinder (fl.Float)) (provider : LogProvider) where
  open fl use {Float, lt_float}

  abbrev pub beyond : ThresholdCondition Float → Point Float → Bool
  beyond c pnt = if c.above then lt_float c.value pnt.value else lt_float pnt.value c.value

  -- `countOccurrences`, with the count so far.
  unfoldable pub count_occurrences : ThresholdCondition Float → Int64 → List (Point Float) → Int64
  count_occurrences c count [] = count
  count_occurrences c count (pnt ∷ pnts) =
      let counted = count_occurrences c (Int64.add count 1) pnts in
      let rest = count_occurrences c count pnts in
      if c.above && lt_float c.value pnt.value
      then counted
      else if not c.above && lt_float pnt.value c.value
      then counted
      else rest

  -- The `switch` over the rule's ingress and service; `none` is an error.
  unfoldable pub find_points : Rule Float → String → ℕ → ℕ → Option (DataPoints Float)
  find_points rule tbl from to =
      if not (rule.ingress == "") && not (rule.service == "")
      then finder.by_ingress_and_service tbl rule.ingress rule.service from to
      else if not (rule.service == "")
      then some (finder.by_service tbl rule.service from to)
      else if not (rule.ingress == "")
      then some (finder.by_ingress tbl rule.ingress from to)
      else none

  abbrev pub alert_of : Rule Float → Threshold Float → List (Point Float) → Alert Float
  alert_of rule t points = record {
    rule_id = rule.id;
    ingress = rule.ingress;
    service = rule.service;
    points = points;
    logs = elim (get_logs provider rule.service) [ none ↦ none | some logs ↦ logs ];
    threshold = t;
  }

  -- `Process` at `now`. It dereferences the threshold, which panics where there is none.
  unfoldable pub process : ℕ → Rule Float → Run (Processed Float)
  unfolding find_points get_points count_occurrences table granularity get_logs
  process now rule = elim rule.threshold [
    | none ↦ panic
    | some t ↦
        let to = truncate_time now (granularity t) - granularity t in
        let from = to - t.time_range in
        elim (find_points rule (table t) from to) [
          | none ↦ ret failed
          | some data_points ↦ elim (get_points t.metric data_points) [
            | none ↦ ret failed
            | some points ↦
                if Int64.less (count_occurrences t.condition 0 points) t.occurrence
                then ret no_alert
                else ret (raised (alert_of rule t points))
          ]
        ]
  ]
