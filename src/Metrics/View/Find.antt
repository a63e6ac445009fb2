-- ===== src/Metrics/View/Find.antt =====
-- `FindByIngressAndService` of pkg/metrics/view.go.
use hub_agent_kubernetes.Prelude.{
  ℕ, String, Bool, true, false, ◌&&◌, not, Option, none, some, List, [], ◌∷◌, ◌++◌, ◌≡◌, refl, ap,
  sym, ◌∙◌, ◌==◌, string_eq, if◌then◌else◌, select, arith, append_assoc, append-nil, Bool-cases,
  inl, inr,
}
use hub_agent_kubernetes.Int64
use hub_agent_kubernetes.Int64.{Int64}
use hub_agent_kubernetes.Metrics.Points.{DataPoints}
use hub_agent_kubernetes.Metrics.Store.{TableKey, Table, Store, table_of, for_each}
use hub_agent_kubernetes.Metrics.View.{
  unix, is_empty_range, keep_range, Search, search_group, search_groups,
  find_by_ingress_and_service,
}

abbrev wanted : String → String → TableKey → Bool
wanted ingress service k = k.ingress == ingress && k.service == service

module _ {R : Type 0} where
  -- The points of a row from one second to another, both included.
  abbrev pub between : Int64 → Int64 → DataPoints R → DataPoints R
  between from_ts to_ts =
      select (λ p. not (Int64.less p.timestamp from_ts) && not (Int64.less to_ts p.timestamp))

  pub keep_range-between :
      (from_ts to_ts : Int64) (points kept : DataPoints R)
      → keep_range from_ts to_ts points kept ≡ kept ++ between from_ts to_ts points
  unfolding keep_range
  keep_range-between from_ts to_ts [] kept = sym (append-nil kept)
  keep_range-between from_ts to_ts (p ∷ points) kept =
      let skip = keep_range-between from_ts to_ts points kept in
      let next = keep_range-between from_ts to_ts points (kept ++ p ∷ []) in
      let assoc = append_assoc kept (p ∷ []) (between from_ts to_ts points) in
      ground (arith, skip, next, assoc)

  -- The rows of one ingress and service.
  abbrev pub rows_for : String → String → Table R → List (DataPoints R)
  rows_for ingress service [] = []
  rows_for ingress service ((k, points) ∷ rows) =
      let rest = rows_for ingress service rows in
      if k.ingress == ingress && k.service == service then points ∷ rest else rest

  abbrev pub the_row : (DataPoints R → DataPoints R) → List (DataPoints R) → Option (DataPoints R)
  the_row f [] = some []
  the_row f (points ∷ []) = some (f points)
  the_row f (p ∷ q ∷ rows) = none

  abbrev outcome : Search R → Option (DataPoints R)
  outcome st = if st.err then none else some st.points_in_range

  -- The rest of the search once a row has been found.
  abbrev found : DataPoints R → List (DataPoints R) → Option (DataPoints R)
  found kept [] = some kept
  found kept (p ∷ rows) = none

  outcome-err : (st : Search R) → st.err ≡ true → outcome st ≡ none
  outcome-err st h = rw h

  module _ (ingress service : String) (from_ts to_ts : Int64) where
    search_group-miss :
        (k : TableKey) (points : DataPoints R) (st : Search R)
        → wanted ingress service k ≡ false
        → search_group ingress service from_ts to_ts k points st ≡ st
    unfolding search_group
    search_group-miss k points st e = ground arith

    search_group-again :
        (k : TableKey) (points : DataPoints R) (st : Search R)
        → wanted ingress service k ≡ true
        → st.group_found ≡ true
        → search_group ingress service from_ts to_ts k points st ≡ record st { err = true }
    unfolding search_group
    search_group-again k points st e h = ground arith

    search_group-first :
        (k : TableKey) (points : DataPoints R) (st : Search R)
        → wanted ingress service k ≡ true
        → st.group_found ≡ false
        → search_group ingress service from_ts to_ts k points st ≡ record st {
          group_found = true;
          points_in_range = keep_range from_ts to_ts points st.points_in_range;
        }
    unfolding search_group
    search_group-first k points st e h = ground arith

    search_groups-failed :
        (rows : Table R) (st : Search R)
        → st.group_found ≡ true
        → st.err ≡ true
        → (search_groups ingress service from_ts to_ts rows st).err ≡ true
    unfolding search_groups search_group
    search_groups-failed [] st h e = e
    search_groups-failed ((k, points) ∷ rows) st h e =
        search_groups-failed rows (search_group ingress service from_ts to_ts k points st)
          (ground arith) (ground arith)

    search_groups-found :
        (rows : Table R) (st : Search R)
        → st.group_found ≡ true
        → st.err ≡ false
        → outcome (search_groups ingress service from_ts to_ts rows st)
          ≡ found st.points_in_range (rows_for ingress service rows)
    unfolding search_groups
    search_groups-found [] st h e = rw e
    search_groups-found ((k, points) ∷ rows) st h e =
        let go : Search R → Option (DataPoints R) =
          λ t. outcome (search_groups ingress service from_ts to_ts rows t) in
        elim (Bool-cases (wanted ingress service k)) [
          | inl e' ↦ rw e' (
              ap go (search_group-again k points st e' h)
              ∙ outcome-err
                  (search_groups ingress service from_ts to_ts rows (record st { err = true }))
                  (search_groups-failed rows (record st { err = true }) h refl))
          | inr e' ↦
              rw e' (ap go (search_group-miss k points st e') ∙ search_groups-found rows st h e)
        ]

    found-the_row :
        (points : DataPoints R) (rows : List (DataPoints R))
        → found (keep_range from_ts to_ts points []) rows
          ≡ the_row (between from_ts to_ts) (points ∷ rows)
    found-the_row points [] = ap some (keep_range-between from_ts to_ts points [])
    found-the_row points (q ∷ rows) = refl

    search_groups-start :
        (rows : Table R)
        → outcome (
            search_groups ingress service from_ts to_ts rows
              (record { points_in_range = []; group_found = false; err = false }))
          ≡ the_row (between from_ts to_ts) (rows_for ingress service rows)
    unfolding search_groups
    search_groups-start [] = refl
    search_groups-start ((k, points) ∷ rows) =
        let go : Search R → Option (DataPoints R) =
          λ t. outcome (search_groups ingress service from_ts to_ts rows t) in
        let start : Search R = record { points_in_range = []; group_found = false; err = false } in
        elim (Bool-cases (wanted ingress service k)) [
          | inl e ↦ rw e (
              ap go (search_group-first k points start e refl)
              ∙ search_groups-found rows
                  (record start {
                    group_found = true;
                    points_in_range = keep_range from_ts to_ts points [];
                  })
                  refl refl
              ∙ found-the_row points (rows_for ingress service rows))
          | inr e ↦ rw e (ap go (search_group-miss k points start e) ∙ search_groups-start rows)
        ]

  -- `FindByIngressAndService` on a range that is not empty: no row of the ingress and service gives
  -- no points, one gives its points in the range, and more than one is an error.
  pub find_by_ingress_and_service-the_row :
      (s : Store R) (table ingress service : String) (from to : ℕ)
      → is_empty_range from to ≡ false
      → find_by_ingress_and_service s table ingress service from to
        ≡ the_row (between (unix from) (unix to)) (rows_for ingress service (table_of s table))
  unfolding find_by_ingress_and_service for_each
  find_by_ingress_and_service-the_row s table ingress service from to h =
      rw h (search_groups-start ingress service (unix from) (unix to) (table_of s table))
