-- ===== src/Metrics/View.antt =====
-- pkg/metrics/view.go: the queries on the store. A `time.Time` is its nanoseconds since the Unix
-- epoch, all times in one location.
pub mod Merge
pub mod Find
use hub_agent_kubernetes.Prelude.{
  ℕ, ◌+◌, ◌/◌, String, Bool, true, false, ◌&&◌, ◌||◌, not, Option, none, some, List, [], ◌∷◌, ◌++◌,
  ◌≡◌, refl, Eq, ◌==◌, string_eq, nat_eq, if◌then◌else◌, ltb, nat_beq, GoMap, lookup, insert,
  default,
}
use hub_agent_kubernetes.Int64
use hub_agent_kubernetes.Int64.{Int64}
use hub_agent_kubernetes.Metrics.Points.{
  Floats, DataPoint, DataPoints, empty_point, add_point, ratio, fill_response_time, fill_percents,
}
use hub_agent_kubernetes.Metrics.Store.{TableKey, Table, Store, for_each, sort_points, second}

abbrev pub unix : ℕ → Int64
unix t = t / second

-- `to.Before(from) || to == from`
abbrev pub is_empty_range : ℕ → ℕ → Bool
is_empty_range from to = ltb to from || nat_beq to from

-- The variables that the closure of `FindByIngressAndService` writes.
pub record Search (R : Type 0) : Type 0 where
  pub points_in_range : DataPoints R
  pub group_found : Bool
  pub err : Bool

module _ {R : Type 0} where
  -- The loop over the points, with the points kept so far.
  unfoldable pub keep_range : Int64 → Int64 → DataPoints R → DataPoints R → DataPoints R
  keep_range from_ts to_ts [] kept = kept
  keep_range from_ts to_ts (point ∷ points) kept =
      let skipped = keep_range from_ts to_ts points kept in
      let rest = keep_range from_ts to_ts points (kept ++ point ∷ []) in
      if Int64.less point.timestamp from_ts || Int64.less to_ts point.timestamp
      then skipped
      else rest

  unfoldable pub search_group :
      String → String → Int64 → Int64 → TableKey → DataPoints R → Search R → Search R
  unfolding keep_range
  search_group ingress service from_ts to_ts k points st =
      if not (k.ingress == ingress) || not (k.service == service)
      then st
      else if st.group_found
      then record st { err = true }
      else record st {
        group_found = true;
        points_in_range = keep_range from_ts to_ts points st.points_in_range;
      }

  unfoldable pub search_groups : String → String → Int64 → Int64 → Table R → Search R → Search R
  unfolding search_group
  search_groups ingress service from_ts to_ts [] st = st
  search_groups ingress service from_ts to_ts ((k, points) ∷ rows) st =
      search_groups ingress service from_ts to_ts rows
        (search_group ingress service from_ts to_ts k points st)

  -- `none` is the error "more than one data point group".
  unfoldable pub find_by_ingress_and_service :
      Store R → String → String → String → ℕ → ℕ → Option (DataPoints R)
  unfolding search_groups for_each
  find_by_ingress_and_service s table ingress service from to =
      let start : Search R = record { points_in_range = []; group_found = false; err = false } in
      let st = search_groups ingress service (unix from) (unix to) (for_each s table) start in
      if is_empty_range from to then some [] else if st.err then none else some st.points_in_range

  -- The groups of the rows whose key passes the test.
  unfoldable pub groups_of : (TableKey → Bool) → Int64 → Int64 → Table R → List (DataPoints R)
  unfolding keep_range
  groups_of wanted from_ts to_ts [] = []
  groups_of wanted from_ts to_ts ((k, points) ∷ rows) =
      let rest = groups_of wanted from_ts to_ts rows in
      if not (wanted k) then rest else keep_range from_ts to_ts points [] ∷ rest

module _ (fl : Floats) where
  open fl use {Float}

  -- `pointSums` and `counts`
  abbrev pub Sums : Type 0
  Sums = GoMap Int64 (DataPoint Float) × GoMap Int64 Int64

  unfoldable pub merge_point : DataPoint Float → Sums → Sums
  merge_point point (point_sums, counts) =
      let ts = point.timestamp in
      let sum = default (empty_point fl) (lookup ts point_sums) in
      (
        insert ts (add_point fl (record sum { timestamp = ts }) point) point_sums,
        insert ts (Int64.add (default 0 (lookup ts counts)) 1) counts,
      )

  unfoldable pub merge_points : DataPoints Float → Sums → Sums
  unfolding merge_point
  merge_points [] sums = sums
  merge_points (point ∷ points) sums = merge_points points (merge_point point sums)

  unfoldable pub merge_all : List (DataPoints Float) → Sums → Sums
  unfolding merge_points
  merge_all [] sums = sums
  merge_all (points ∷ groups) sums = merge_all groups (merge_points points sums)

  -- The averages of one point of the result. Unlike `Aggregate` it divides by the seconds even
  -- where they are 0.
  unfoldable pub average : Int64 → DataPoint Float → DataPoint Float
  unfolding fill_percents fill_response_time
  average count point =
      let seconds = Int64.quot point.seconds count in
      fill_response_time fl (
        fill_percents fl (record point {
          seconds = seconds;
          req_per_s = ratio fl point.requests seconds;
          request_err_per_s = ratio fl point.request_errs seconds;
          request_client_err_per_s = ratio fl point.request_client_errs seconds;
        }))

  unfoldable pub averages : GoMap Int64 (DataPoint Float) → GoMap Int64 Int64 → DataPoints Float
  unfolding average
  averages [] counts = []
  averages ((ts, point) ∷ point_sums) counts =
      let rest = averages point_sums counts in
      elim (lookup ts counts) [ none ↦ rest | some count ↦ average count point ∷ rest ]

  -- `mergeGroups`
  unfoldable pub merge_groups : List (DataPoints Float) → DataPoints Float
  unfolding merge_all averages sort_points
  merge_groups groups =
      let (point_sums, counts) = merge_all groups ([], []) in
      sort_points (averages point_sums counts)

  unfoldable pub find_by_service : Store Float → String → String → ℕ → ℕ → DataPoints Float
  unfolding groups_of merge_groups for_each
  find_by_service s table service from to =
      let groups = groups_of (λ k. k.service == service) (unix from) (unix to) (for_each s table) in
      if is_empty_range from to then [] else merge_groups groups

  unfoldable pub find_by_ingress : Store Float → String → String → ℕ → ℕ → DataPoints Float
  unfolding groups_of merge_groups for_each
  find_by_ingress s table ingress from to =
      let groups = groups_of (λ k. k.ingress == ingress) (unix from) (unix to) (for_each s table) in
      if is_empty_range from to then [] else merge_groups groups
