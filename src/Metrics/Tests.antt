-- ===== src/Metrics/Tests.antt =====
-- The claims of the package's tests, and an input for each theorem that has hypotheses.
use mathlib.Core.List.Permᴰ
use mathlib.Core.List.{Permᴰ}
use hub_agent_kubernetes.Prelude.{
  String, none, str_iff, string_eq, ℕ, ◌+◌, ◌-◌, ◌*◌, ◌/◌, ◌≤◌, min, true, List, [], ◌∷◌, ◌++◌, ◌≡◌,
  refl, some, GoMap, lookup, insert, default, map, arith, ret, nat_eq, string_eq, str_iff, ltb,
  drop, length, DistinctKeys, All, select, nat_beq,
}
use hub_agent_kubernetes.Int64
use hub_agent_kubernetes.Metrics.Points.{
  Floats, DataPoint, DataPoints, SetKey, empty_point, get, aggregate,
}
use hub_agent_kubernetes.Metrics.Store.{
  TableInfo, TableKey, key_eq, Table, Store, WaterMarks, new_store, insert_all, row, mark, marks_of,
  table_of, for_each_unmarked, cleanup, second,
}
use hub_agent_kubernetes.Metrics.Store.Cleanup.{cleanup-unsent}
use hub_agent_kubernetes.Metrics.Store.Cleanup.Retention.{min_counts, cleanup-min_count}
use hub_agent_kubernetes.Metrics.Store.Marks.{IsSound, Grown-IsSound, insert_all-Grown}
use hub_agent_kubernetes.Metrics.Store.Marks.Snapshot.{IsSnapshot, for_each_unmarked-IsSnapshot}
use hub_agent_kubernetes.Metrics.Store.Start.{new_store-IsSound}
use hub_agent_kubernetes.Metrics.Store.RollUp.{
  RangeOrder, roll_up, roll_up_table, collect, truncate, bucket,
}
use hub_agent_kubernetes.Metrics.Store.RollUp.Rows.{combined, roll_up_table-row}
use hub_agent_kubernetes.Metrics.Store.RollUp.Buckets.{members, collect-members}
use hub_agent_kubernetes.Metrics.Sets.{Metric, counter, metric_key, set_key_eq, aggregate_metrics}
use hub_agent_kubernetes.Metrics.Sets.Totals.{total}
use hub_agent_kubernetes.Metrics.Manager.Scraper.{scrape_rounds}
use hub_agent_kubernetes.Metrics.Manager.Scraper.Telescope.{
  all_requests, scraped_at, scrape_rounds-telescope,
}
use hub_agent_kubernetes.Metrics.Parser.{
  LabelPair, DtoMetric, guess_edge_ingress, parse_router_request_total,
}
use hub_agent_kubernetes.Metrics.Parser.Guess.{
  edge_key, guessed, parse_router_request_total-guessed,
}
use hub_agent_kubernetes.Metrics.View.{unix, find_by_ingress_and_service, merge_groups}
use hub_agent_kubernetes.Metrics.View.Find.{
  the_row, between, rows_for, find_by_ingress_and_service-the_row,
}
use hub_agent_kubernetes.Metrics.View.Merge.{requests_at, requests_of_groups, merge_groups-requests}
use hub_agent_kubernetes.Metrics.Manager.{Groups, insert_rounds, send}
use hub_agent_kubernetes.Metrics.Manager.Delivery.{IsDelivery, HasMarks, send-IsDelivery}

-- Natural numbers in place of `float64`.
abbrev whole : Floats
whole = record {
  Float = ℕ;
  zero_float = 0;
  from_int = λ n. n;
  add_float = ◌+◌;
  sub_float = ◌-◌;
  div_float = ◌/◌;
  lt_float = ltb;
}

-- The buckets are ranged over as they stand.
abbrev unchanged : RangeOrder ℕ
unchanged tbl key b = b

abbrev point : ℕ → ℕ → DataPoint ℕ
point ts requests = record (empty_point whole) { timestamp = ts; seconds = 60; requests = requests }

abbrev web : SetKey
web = record { edge_ingress = "web@default"; ingress = ""; service = "" }

abbrev web_row : TableKey
web_row = record { edge_ingress = "web@default"; ingress = ""; service = "" }

abbrev round : ℕ → ℕ → GoMap SetKey (DataPoint ℕ)
round ts requests = (web, point ts requests) ∷ []

abbrev two_rounds : Store ℕ
two_rounds = insert_all (round 660 5) (insert_all (round 600 7) (new_store ℕ))

two_rounds-IsSound : IsSound two_rounds
two_rounds-IsSound =
    Grown-IsSound (insert_all-Grown (round 660 5) (insert_all (round 600 7) (new_store ℕ)))
      (Grown-IsSound (insert_all-Grown (round 600 7) (new_store ℕ)) (new_store-IsSound ℕ))

two_rounds-HasMarks : HasMarks two_rounds ("1m" ∷ [])
unfolding insert_all new_store lookup
two_rounds-HasMarks tbl h gone =
    let is_1m : tbl ≡ "1m" = ground (arith, str_iff "1m" tbl) in absurd (cc (rw is_1m at gone))

row_tests :
    (row two_rounds "1m" web_row ≡ point 600 7 ∷ point 660 5 ∷ [])
    × (map
          (λ (p : DataPoint ℕ). p.requests)
          (row (roll_up whole unchanged 1300 two_rounds) "10m" web_row)
        ≡ 12 ∷ [])
unfolding insert_all new_store lookup roll_up insert truncate get bucket aggregate
row_tests = (refl, refl)

send-IsDelivery_example :
    (to_send : Groups ℕ) × (s' : Store ℕ) × (send whole unchanged 1300
        ("1m" ∷ [])
        true
        (round 720 3 ∷ [])
        two_rounds
      ≡ ret (to_send, s'))
    × IsDelivery
        (insert_rounds (round 720 3 ∷ []) (roll_up whole unchanged 1300 two_rounds))
        ("1m" ∷ [])
        to_send
        s'
send-IsDelivery_example =
    send-IsDelivery whole unchanged 1300 ("1m" ∷ []) true (round 720 3 ∷ []) two_rounds
      two_rounds-IsSound (refl, tt) two_rounds-HasMarks

cleanup-unsent_example :
    drop (mark (cleanup two_rounds) "1m" web_row) (row (cleanup two_rounds) "1m" web_row)
    ≡ drop (mark two_rounds "1m" web_row) (row two_rounds "1m" web_row)
cleanup-unsent_example = cleanup-unsent two_rounds "1m" web_row (two_rounds-IsSound.distinct)

standard-DistinctKeys : DistinctKeys (min_counts two_rounds.tables)
unfolding insert_all new_store lookup
standard-DistinctKeys = (refl, (refl, (refl, (refl, tt))))

ten : lookup "1m" (min_counts two_rounds.tables) ≡ some 10
unfolding insert_all new_store lookup
ten = refl

cleanup-min_count_example :
    min (length (row two_rounds "1m" web_row)) 10 ≤ length (row (cleanup two_rounds) "1m" web_row)
cleanup-min_count_example =
    cleanup-min_count two_rounds "1m" web_row 10 (two_rounds-IsSound.distinct) standard-DistinctKeys
      ten

for_each_unmarked-IsSnapshot_example :
    (rows : Table ℕ) × (new_marks : WaterMarks) × (for_each_unmarked two_rounds "1m"
      ≡ ret (rows, new_marks))
    × IsSnapshot (marks_of two_rounds "1m") (table_of two_rounds "1m") rows new_marks
for_each_unmarked-IsSnapshot_example =
    for_each_unmarked-IsSnapshot two_rounds "1m" two_rounds-IsSound

abbrev minutes : TableInfo
minutes = record { name = "1m"; min_count = 10; roll_up = 600 * second; next = "10m" }

two_rounds-IsNat : All (λ (p : DataPoint ℕ). Int64.IsNat p.timestamp) (row two_rounds "1m" web_row)
unfolding insert_all new_store lookup insert
two_rounds-IsNat = (omega arith, (omega arith, tt))

roll_up_table-row_example :
    (appended : DataPoints ℕ) × (row
        (roll_up_table whole unchanged 1300 minutes two_rounds)
        "10m"
        web_row
      ≡ row two_rounds "10m" web_row ++ appended)
    × ((ts : ℕ)
        → Permᴰ (select (λ p. nat_beq p.timestamp ts) appended) (
            combined whole ts (
              members
                (row two_rounds "10m" web_row)
                (truncate 1300 (600 * second / second))
                (600 * second / second)
                ts
                (row two_rounds "1m" web_row))))
roll_up_table-row_example =
    roll_up_table-row whole unchanged 1300 minutes two_rounds web_row Permᴰ.refl two_rounds-IsSound
      (λ e. cc e) (omega arith) two_rounds-IsNat

collect-members_example :
    default []
      (lookup 600 (collect {R = ℕ} [] 1200 600 (point 600 7 ∷ point 660 5 ∷ point 1260 1 ∷ []) []))
    ≡ members {R = ℕ} [] 1200 600 600 (point 600 7 ∷ point 660 5 ∷ point 1260 1 ∷ [])
collect-members_example =
    collect-members {R = ℕ} [] 1200 600 (point 600 7 ∷ point 660 5 ∷ point 1260 1 ∷ []) 600
      (omega arith) (omega arith, (omega arith, (omega arith, tt)))

abbrev failed : ℕ → Metric ℕ
failed n = counter (record {
  name = "request_errors";
  edge_ingress = "web@default";
  ingress = "";
  service = "";
  value = n;
})

abbrev served : ℕ → List (Metric ℕ)
served n =
    counter (record {
      name = "requests";
      edge_ingress = "web@default";
      ingress = "";
      service = "";
      value = n;
    })
    ∷ []

scrape_rounds-telescope_example :
    4
      + all_requests web (
          scrape_rounds whole
            (aggregate_metrics whole (served 4))
            (map scraped_at ((60, served 9) ∷ (120, served 11) ∷ [])))
    ≡ 11
unfolding metric_key
scrape_rounds-telescope_example =
    scrape_rounds-telescope whole web (served 4) ((60, served 9) ∷ (120, served 11) ∷ [])
      (omega arith, omega arith, (omega arith, omega arith, omega arith))

find_by_ingress_and_service-the_row_example :
    find_by_ingress_and_service two_rounds "1m" "" "" 0 (700 * second)
    ≡ the_row (between (unix 0) (unix (700 * second))) (rows_for "" "" (table_of two_rounds "1m"))
find_by_ingress_and_service-the_row_example =
    find_by_ingress_and_service-the_row two_rounds "1m" "" "" 0 (700 * second) refl

abbrev two_groups : List (DataPoints ℕ)
two_groups = (point 600 7 ∷ point 660 5 ∷ []) ∷ (point 660 2 ∷ []) ∷ []

merge_groups-requests_example :
    requests_at 660 (merge_groups whole two_groups)
    ≡ Prim.Native.Nat.◌%◌ (requests_of_groups 660 two_groups) Int64.modulus
merge_groups-requests_example = merge_groups-requests whole two_groups 660

abbrev label : String → String → LabelPair
label name value = record { name = some name; value = some value }

abbrev scraped : DtoMetric ℕ
scraped = record {
  label = label "router" "default-web-x@kubernetes" ∷ label "code" "502" ∷ [];
  counter_value = some 4;
  histogram_value = none;
}

-- The name of one ingress begins that of another: the order of the map decides whose metrics these
-- are.
guess_tests :
    (guess_edge_ingress scraped.label ("web@default.ingress" ∷ "web-x@default.ingress" ∷ [])
      ≡ "web@default")
    × (guess_edge_ingress scraped.label ("web-x@default.ingress" ∷ "web@default.ingress" ∷ [])
        ≡ "web-x@default")
unfolding guess_edge_ingress
guess_tests = (refl, refl)

abbrev web_name : String
web_name = "web@default"

parse_router_request_total-guessed_example :
    total {R = ℕ} "requests"
      (edge_key web_name)
      (parse_router_request_total (scraped ∷ []) ("web@default.ingress" ∷ []))
    ≡ guessed {R = ℕ} ("web@default.ingress" ∷ []) web_name (scraped ∷ [])
parse_router_request_total-guessed_example =
    parse_router_request_total-guessed {R = ℕ} (scraped ∷ []) ("web@default.ingress" ∷ []) web_name
      (λ e. cc ((str_iff web_name "").1 e))
