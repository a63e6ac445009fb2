-- ===== src/Metrics/Store/Cleanup/Retention.antt =====
-- `Cleanup` of pkg/metrics/store.go keeps the points that the next roll-up of a table can want.
use hub_agent_kubernetes.Prelude.{
  ℕ, ◌≤◌, String, none, some, List, [], ◌∷◌, ◌≡◌, ◌≢◌, refl, ◌∙◌, inl, inr, arith, ◌==◌, string_eq,
  length, lookup, DistinctKeys, Bool-cases, eq_of_==, GoMap, length-drop, map, min,
}
use hub_agent_kubernetes.Metrics.Store.{
  TableInfo, TableKey, Store, row, cleanup_table, cleanup_tables, cleanup,
}
use hub_agent_kubernetes.Metrics.Store.Cleanup.{
  HasDistinctKeys, HasDistinctKeys-cleanup_table, cleanup_table-other, cleanup_table-view,
}

-- The minimum of each table, by its name.
abbrev pub min_counts : List TableInfo → GoMap String ℕ
min_counts = map (λ (info : TableInfo). (info.name, info.min_count))

module _ {R : Type 0} where
  cleanup_tables-other :
      (tables : List TableInfo) (s : Store R) (tbl : String) (k : TableKey)
      → lookup tbl (min_counts tables) ≡ none
      → row (cleanup_tables tables s) tbl k ≡ row s tbl k
  unfolding cleanup_tables lookup
  cleanup_tables-other [] s tbl k h = refl
  cleanup_tables-other (info ∷ tables) s tbl k h =
      let ne : info.name ≢ tbl = ground (arith, string_eq.same_iff info.name tbl) in
      cleanup_tables-other tables (cleanup_table info s) tbl k
        (ground (arith, string_eq.same_iff info.name tbl))
      ∙ rw ((cleanup_table-other info s tbl ne).0)

  cleanup_tables-keep :
      (tables : List TableInfo) (s : Store R) (tbl : String) (k : TableKey) (count : ℕ)
      → HasDistinctKeys s
      → DistinctKeys (min_counts tables)
      → lookup tbl (min_counts tables) ≡ some count
      → min (length (row s tbl k)) count ≤ length (row (cleanup_tables tables s) tbl k)
  unfolding cleanup_tables lookup
  cleanup_tables-keep [] s tbl k count d n h = cc
  cleanup_tables-keep (info ∷ tables) s tbl k count d (fresh, n) h =
      elim (Bool-cases (info.name == tbl)) [
        | inl same ↦
            let p = eq_of_== info.name tbl same in
            let q : info.min_count ≡ count = ground arith in
            let (by, rows, marks, few) = cleanup_table-view info s k d in
            let later = cleanup_tables-other tables (cleanup_table info s) info.name k fresh in
            rw (← p, ← q, later, rows) (omega (arith, length-drop by (row s info.name k), few))
        | inr other ↦
            let ne : info.name ≢ tbl = ground (arith, string_eq.same_iff info.name tbl) in
            let same : row (cleanup_table info s) tbl k ≡ row s tbl k =
              rw ((cleanup_table-other info s tbl ne).0) in
            rw same at (
              cleanup_tables-keep tables (cleanup_table info s) tbl k count
                (HasDistinctKeys-cleanup_table info s d) n (ground arith))
      ]

  -- After `Cleanup` a row of a table still holds the table's `MinCount` points, or all that it
  -- held, if the tables have different names.
  pub cleanup-min_count :
      (s : Store R) (tbl : String) (k : TableKey) (count : ℕ)
      → HasDistinctKeys s
      → DistinctKeys (min_counts s.tables)
      → lookup tbl (min_counts s.tables) ≡ some count
      → min (length (row s tbl k)) count ≤ length (row (cleanup s) tbl k)
  unfolding cleanup
  cleanup-min_count s tbl k count d n h = cleanup_tables-keep s.tables s tbl k count d n h
