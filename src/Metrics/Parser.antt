-- ===== src/Metrics/Parser.antt =====
-- pkg/metrics/parser.go: the metrics of Traefik, by edge ingress.
pub mod Guess
use hub_agent_kubernetes.Prelude.{
  ℕ, Char, String, Bool, true, false, ◌&&◌, ◌||◌, not, Option, none, some, List, [], ◌∷◌, ◌++◌, Eq,
  ◌==◌, string_eq, nat_eq, if◌then◌else◌,
}
use hub_agent_kubernetes.Strings
use hub_agent_kubernetes.Strings.{runes, string_of, contains, char_eq}
use hub_agent_kubernetes.Acp.Token.{cut}
use hub_agent_kubernetes.Metrics.Points.{Floats}
use hub_agent_kubernetes.Metrics.Sets.{Counter, Histogram, Metric, counter, histogram}

-- What the code reads of a `dto.Metric`: the labels, the value of the counter converted to
-- `uint64`, and the count and sum of the histogram. `none` is a nil pointer.
pub record LabelPair : Type 0 where
  pub name : Option String
  pub value : Option String

pub record DtoMetric (R : Type 0) : Type 0 where
  pub label : List LabelPair
  pub counter_value : Option ℕ
  pub histogram_value : Option (ℕ × R)

pub record MetricFamily (R : Type 0) : Type 0 where
  pub name : Option String
  pub metric : List (DtoMetric R)

abbrev pub at_sign : Char
at_sign = "@"

abbrev pub full_stop : Char
full_stop = "."

abbrev pub dash : List Char
dash = runes "-"

-- `getLabel`
unfoldable pub get_label : List LabelPair → String → String
get_label [] name = ""
get_label (l ∷ lbls) name =
    let rest = get_label lbls name in
    elim l.name [
      | none ↦ rest
      | some n ↦ elim l.value [ none ↦ rest | some v ↦ if n == name then v else rest ]
    ]

-- `getMetricErrorName`: by the first byte of the status.
unfoldable pub get_metric_error_name : List LabelPair → String → String
unfolding get_label
get_metric_error_name lbls status_name = elim (runes (get_label lbls status_name)) [
  | [] ↦ ""
  | c ∷ rest ↦
      if c == "5" then "request_errors" else if c == "4" then "request_client_errors" else ""
]

-- `before, _, _ := strings.Cut(s, sep)`
abbrev pub before : List Char → Char → List Char
before s sep = elim (cut s sep) [ none ↦ s | some (b, a) ↦ b ]

-- Whether one ingress matches, and its name without the kind and group.
unfoldable pub match_ingress : List Char → String → Option String
unfolding cut contains
match_ingress name ingress_name =
    let ingress = before (runes ingress_name) full_stop in
    elim (cut ingress at_sign) [
      | none ↦ none
      | some (ing_name, ing_namespace) ↦
          if contains name (ing_namespace ++ (dash ++ ing_name))
          then some (string_of ingress)
          else if contains name (ing_name ++ (dash ++ ing_namespace))
          then some (string_of ingress)
          else none
    ]

-- The loop over the ingresses, in the order in which the map gives them.
unfoldable pub match_ingresses : List Char → List String → String
unfolding match_ingress
match_ingresses name [] = ""
match_ingresses name (ingress ∷ ingresses) =
    let rest = match_ingresses name ingresses in
    elim (match_ingress name ingress) [ none ↦ rest | some found ↦ found ]

-- `guessEdgeIngress`
unfoldable pub guess_edge_ingress : List LabelPair → List String → String
unfolding get_label match_ingresses cut
guess_edge_ingress lbls ingresses = elim (cut (runes (get_label lbls "router")) at_sign) [
  | none ↦ ""
  | some (name, typ) ↦
      if not (string_of typ == "kubernetes") then "" else match_ingresses name ingresses
]

module _ {R : Type 0} where
  -- `CounterFromMetric`
  unfoldable pub counter_from_metric : DtoMetric R → ℕ
  counter_from_metric m = elim m.counter_value [ none ↦ 0 | some v ↦ v ]

  -- `HistogramFromMetric`: the sum and the count.
  unfoldable pub histogram_from_metric : DtoMetric R → Option (R × ℕ)
  histogram_from_metric m = elim m.histogram_value [
    | none ↦ none
    | some (count, sum) ↦ if count == 0 then none else some (sum, count)
  ]

  unfoldable pub parse_router_request_duration : List (DtoMetric R) → List String → List (Metric R)
  unfolding histogram_from_metric guess_edge_ingress
  parse_router_request_duration [] ingresses = []
  parse_router_request_duration (m ∷ metrics) ingresses =
      let rest = parse_router_request_duration metrics ingresses in
      let edge_ingress = guess_edge_ingress m.label ingresses in
      elim (histogram_from_metric m) [
        | none ↦ rest
        | some (sum, count) ↦
            if edge_ingress == ""
            then rest
            else histogram (record {
              name = "request_duration";
              relative = false;
              edge_ingress = edge_ingress;
              ingress = "";
              service = "";
              sum = sum;
              count = count;
            })
              ∷ rest
      ]

  abbrev pub edge_counter : String → String → ℕ → Metric R
  edge_counter name edge_ingress value = counter (record {
    name = name;
    edge_ingress = edge_ingress;
    ingress = "";
    service = "";
    value = value;
  })

  unfoldable pub parse_router_request_total : List (DtoMetric R) → List String → List (Metric R)
  unfolding counter_from_metric guess_edge_ingress get_metric_error_name
  parse_router_request_total [] ingresses = []
  parse_router_request_total (m ∷ metrics) ingresses =
      let rest = parse_router_request_total metrics ingresses in
      let value = counter_from_metric m in
      let edge_ingress = guess_edge_ingress m.label ingresses in
      let error_name = get_metric_error_name m.label "code" in
      if value == 0
      then rest
      else if edge_ingress == ""
      then rest
      else if error_name == ""
      then edge_counter "requests" edge_ingress value ∷ rest
      else edge_counter "requests" edge_ingress value
        ∷ edge_counter error_name edge_ingress value
        ∷ rest

  -- `Parse`
  unfoldable pub parse : MetricFamily R → List String → List (Metric R)
  unfolding parse_router_request_duration parse_router_request_total
  parse m ingresses = elim m.name [
    | none ↦ []
    | some name ↦
        if name == "traefik_router_request_duration_seconds"
        then parse_router_request_duration m.metric ingresses
        else if name == "traefik_router_requests_total"
        then parse_router_request_total m.metric ingresses
        else []
  ]
