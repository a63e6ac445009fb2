-- ===== src/Metrics/Parser/Guess.antt =====
-- What pkg/metrics/parser.go counts for an edge ingress.
use hub_agent_kubernetes.Prelude.{
  ℕ, ◌+◌, Char, String, false, List, [], ◌∷◌, ◌≡◌, ◌≢◌, refl, ap, ◌==◌, string_eq, nat_eq,
  if◌then◌else◌, arith, str_iff, nat_beq_iff, Bool-cases, inl, inr,
}
use hub_agent_kubernetes.Strings.{runes, char_eq}
use hub_agent_kubernetes.Metrics.Points.{SetKey}
use hub_agent_kubernetes.Metrics.Sets.{metric_key, set_key_eq}
use hub_agent_kubernetes.Metrics.Sets.Totals.{total}
use hub_agent_kubernetes.Metrics.Parser.{
  DtoMetric, LabelPair, get_label, get_metric_error_name, guess_edge_ingress, counter_from_metric,
  parse_router_request_total,
}

-- The key of an edge ingress.
abbrev pub edge_key : String → SetKey
edge_key edge_ingress = record { edge_ingress = edge_ingress; ingress = ""; service = "" }

-- The sum of the counters of the metrics that are guessed to be of an edge ingress.
abbrev pub guessed : {R : Type 0} → List String → String → List (DtoMetric R) → ℕ
guessed ingresses edge_ingress [] = 0
guessed ingresses edge_ingress (m ∷ metrics) =
    if guess_edge_ingress m.label ingresses == edge_ingress
    then counter_from_metric m + guessed ingresses edge_ingress metrics
    else guessed ingresses edge_ingress metrics

abbrev five : Char
five = "5"

abbrev four : Char
four = "4"

get_metric_error_name-ne_requests :
    (lbls : List LabelPair) (name : String)
    → (get_metric_error_name lbls name == "requests") ≡ false
unfolding get_metric_error_name
get_metric_error_name-ne_requests lbls name = go (runes (get_label lbls name)) refl
  where
    go :
        (s : List Char)
        → runes (get_label lbls name) ≡ s
        → (get_metric_error_name lbls name == "requests") ≡ false
    go [] e = rw (e, get_metric_error_name)
    go (c ∷ s) e = elim (Bool-cases (c == five)) [
      | inl p ↦ rw (e, p, get_metric_error_name)
      | inr p ↦ elim (Bool-cases (c == four)) [
        | inl q ↦ rw (e, p, q, get_metric_error_name)
        | inr q ↦ rw (e, p, q, get_metric_error_name)
      ]
    ]

-- The counter of requests that the parser gives an edge ingress is the sum of the counters that are
-- guessed to be of it, each once, whether or not they are counted as errors as well.
pub parse_router_request_total-guessed :
    {R : Type 0} (metrics : List (DtoMetric R)) (ingresses : List String) (edge_ingress : String)
    → edge_ingress ≢ ""
    → total "requests" (edge_key edge_ingress) (parse_router_request_total metrics ingresses)
      ≡ guessed ingresses edge_ingress metrics
unfolding parse_router_request_total metric_key
parse_router_request_total-guessed [] ingresses edge_ingress h = refl
parse_router_request_total-guessed {R} (m ∷ metrics) ingresses edge_ingress h =
    let e = guess_edge_ingress m.label ingresses in
    let code = get_metric_error_name m.label "code" in
    let value = counter_from_metric m in
    let ih = parse_router_request_total-guessed metrics ingresses edge_ingress h in
    let other_name = get_metric_error_name-ne_requests m.label "code" in
    elim (Bool-cases (value == 0)) [
      | inl none_new ↦
          let zero_value : value ≡ 0 = (nat_beq_iff value 0).0 none_new in
          elim (Bool-cases (e == edge_ingress)) [
            | inl here ↦
                rw (none_new, here, parse_router_request_total) (omega (arith, ih, zero_value))
            | inr there ↦ rw (none_new, there, parse_router_request_total) ih
          ]
      | inr some_new ↦ elim (Bool-cases (e == "")) [
        | inl unknown ↦
            let there : (e == edge_ingress) ≡ false =
              ground (arith, str_iff e "", str_iff e edge_ingress, unknown, h) in
            rw (some_new, unknown, there, parse_router_request_total) ih
        | inr known ↦ elim (Bool-cases (code == "")) [
          | inl no_error ↦ elim (Bool-cases (e == edge_ingress)) [
            | inl here ↦
                rw (some_new, known, no_error, here, parse_router_request_total)
                  (ap (λ n. value + n) ih)
            | inr there ↦ rw (some_new, known, no_error, there, parse_router_request_total) ih
          ]
          | inr is_error ↦ elim (Bool-cases (e == edge_ingress)) [
            | inl here ↦
                rw (some_new, known, is_error, other_name, here, parse_router_request_total)
                  (ap (λ n. value + n) ih)
            | inr there ↦
                rw (some_new, known, is_error, other_name, there, parse_router_request_total) ih
          ]
        ]
      ]
    ]
