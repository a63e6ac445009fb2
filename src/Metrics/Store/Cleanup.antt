-- ===== src/Metrics/Store/Cleanup.antt =====
-- What `Cleanup` of pkg/metrics/store.go drops, and what it keeps.
pub mod Retention
use hub_agent_kubernetes.Prelude.{
  ℕ, ◌+◌, ◌-◌, ◌≤◌, String, Bool, true, false, Option, none, some, List, [], ◌∷◌, ◌++◌, ◌≡◌, ◌≢◌,
  refl, ap, sym, ◌∙◌, inl, inr, arith, Eq, ◌==◌, string_eq, if◌then◌else◌, ltb, length, drop, GoMap,
  lookup, insert, default, DistinctKeys, lookup-insert, lookup-insert_self, lookup-insert_ne,
  Bool-cases, eq_of_==, ==_refl, Option-cases, length-drop, drop-drop, map, min, drop-nil,
}
use hub_agent_kubernetes.Metrics.Points.{DataPoint, DataPoints}
use hub_agent_kubernetes.Metrics.Store.{
  TableInfo, TableKey, key_eq, WaterMarks, Table, Store, table_of, marks_of, row, mark,
  cleanup_rows, cleanup_table, cleanup_tables, cleanup,
}
use hub_agent_kubernetes.Metrics.Store.Rows.{
  dropped, dropped_bounds, drop_of, cleanup_rows-row, cleanup_rows-fresh, DistinctKeys-cleanup_rows,
}

-- Each table holds a key once, as a map of Go does.
abbrev pub HasDistinctKeys : {R : Type 0} → Store R → Type 0
HasDistinctKeys s = (tbl : String) → DistinctKeys (table_of s tbl)

-- A row lost points at its front, and its mark went down by as many.
pub record Shrunk {R : Type 0} (s s' : Store R) (tbl : String) (k : TableKey) : Type 0 where
  pub by : ℕ
  pub rows : row s' tbl k ≡ drop by (row s tbl k)
  pub marks : mark s' tbl k + by ≡ mark s tbl k

module _ {R : Type 0} where
  Shrunk-refl : (s : Store R) (tbl : String) (k : TableKey) → Shrunk s s tbl k
  Shrunk-refl s tbl k = record { by = 0; rows = refl; marks = omega arith }

  Shrunk-trans :
      {s t u : Store R} {tbl : String} {k : TableKey}
      → Shrunk s t tbl k
      → Shrunk t u tbl k
      → Shrunk s u tbl k
  Shrunk-trans {s} {tbl} {k} a b = record {
    by = a.by + b.by;
    rows = b.rows ∙ ap (drop b.by) a.rows ∙ drop-drop b.by a.by (row s tbl k);
    marks = omega (arith, a.marks, b.marks);
  }

  -- The row of one table after its turn: how many points it lost.
  cleanup_rows-view :
      (count : ℕ) (table : Table R) (marks : WaterMarks) (k : TableKey)
      → DistinctKeys table
      → (n : ℕ) × (default [] (lookup k (cleanup_rows count table marks).0)
          ≡ drop n (default [] (lookup k table)))
        × (default 0 (lookup k (cleanup_rows count table marks).1) + n ≡ default 0 (lookup k marks))
        × (n ≤ length (default [] (lookup k table)) - count)
  cleanup_rows-view count table marks k d = go (lookup k table) refl
    where
      go :
          (o : Option (DataPoints R))
          → lookup k table ≡ o
          → (n : ℕ) × (default [] (lookup k (cleanup_rows count table marks).0)
              ≡ drop n (default [] (lookup k table)))
            × (default 0 (lookup k (cleanup_rows count table marks).1) + n
                ≡ default 0 (lookup k marks))
            × (n ≤ length (default [] (lookup k table)) - count)
      go none e =
          let (gone, same) = cleanup_rows-fresh count table marks k e in
          (0, rw (gone, e), omega (arith, ap (default 0) same), omega arith)
      go (some v) e =
          let (data', mark') = cleanup_rows-row count table marks k v d e in
          let bounds = dropped_bounds (length v) count (default 0 (lookup k marks)) in
          (drop_of count v marks k, rw (data', e), omega (arith, mark', bounds), rw e bounds.1)

  cleanup_table-none :
      (info : TableInfo) (s : Store R)
      → lookup info.name s.table_data ≡ none
      → cleanup_table info s ≡ s
  unfolding cleanup_table
  cleanup_table-none info s e = rw (e, cleanup_table)

  abbrev cleaned : TableInfo → Store R → Table R × WaterMarks
  cleaned info s = cleanup_rows info.min_count (table_of s info.name) (marks_of s info.name)

  cleanup_table-some :
      (info : TableInfo) (s : Store R) (table : Table R)
      → lookup info.name s.table_data ≡ some table
      → cleanup_table info s ≡ record s {
        table_data = insert info.name (cleaned info s).0 s.table_data;
        marks = insert info.name (cleaned info s).1 s.marks;
      }
  unfolding cleanup_table
  cleanup_table-some info s table e = rw (e, cleanup_table)

  -- The tables and marks after one turn of the loop.
  cleanup_table_self :
      (info : TableInfo) (s : Store R) (table : Table R)
      → lookup info.name s.table_data ≡ some table
      → (table_of (cleanup_table info s) info.name ≡ (cleaned info s).0)
        × (marks_of (cleanup_table info s) info.name ≡ (cleaned info s).1)
  cleanup_table_self info s table e = rw (cleanup_table-some info s table e) (
    ap (default []) (lookup-insert_self info.name (cleaned info s).0 s.table_data),
    ap (default []) (lookup-insert_self info.name (cleaned info s).1 s.marks),
  )

  pub cleanup_table-other :
      (info : TableInfo) (s : Store R) (tbl : String)
      → info.name ≢ tbl
      → (table_of (cleanup_table info s) tbl ≡ table_of s tbl)
        × (marks_of (cleanup_table info s) tbl ≡ marks_of s tbl)
  cleanup_table-other info s tbl h = elim (Option-cases (lookup info.name s.table_data)) [
    | inl e ↦ rw (cleanup_table-none info s e) (refl, refl)
    | inr (table, e) ↦ rw (cleanup_table-some info s table e) (
      ap (default []) (lookup-insert_ne info.name tbl (cleaned info s).0 s.table_data h),
      ap (default []) (lookup-insert_ne info.name tbl (cleaned info s).1 s.marks h),
    )
  ]

  pub HasDistinctKeys-cleanup_table :
      (info : TableInfo) (s : Store R) → HasDistinctKeys s → HasDistinctKeys (cleanup_table info s)
  HasDistinctKeys-cleanup_table info s d tbl = elim (Bool-cases (info.name == tbl)) [
    | inl same ↦ elim (Option-cases (lookup info.name s.table_data)) [
      | inl e ↦ rw (cleanup_table-none info s e) (d tbl)
      | inr (table, e) ↦
          rw (← eq_of_== info.name tbl same, (cleanup_table_self info s table e).0)
            (DistinctKeys-cleanup_rows info.min_count (table_of s info.name) (marks_of s info.name)
              (d info.name))
    ]
    | inr other ↦
        let ne : info.name ≢ tbl = ground (arith, string_eq.same_iff info.name tbl) in
        rw ((cleanup_table-other info s tbl ne).0) (d tbl)
  ]

  -- One turn: the table's own rows lose no more than what is over the minimum.
  pub cleanup_table-view :
      (info : TableInfo) (s : Store R) (k : TableKey)
      → HasDistinctKeys s
      → (n : ℕ) × (row (cleanup_table info s) info.name k ≡ drop n (row s info.name k))
        × (mark (cleanup_table info s) info.name k + n ≡ mark s info.name k)
        × (n ≤ length (row s info.name k) - info.min_count)
  cleanup_table-view info s k d = elim (Option-cases (lookup info.name s.table_data)) [
    | inl e ↦ rw (cleanup_table-none info s e) (0, refl, omega arith, omega arith)
    | inr (table, e) ↦
        let (rows, marks) = cleanup_table_self info s table e in
        rw (rows, marks)
          (cleanup_rows-view info.min_count (table_of s info.name) (marks_of s info.name) k
            (d info.name))
  ]

  cleanup_table-Shrunk :
      (info : TableInfo) (s : Store R) (tbl : String) (k : TableKey)
      → HasDistinctKeys s
      → Shrunk s (cleanup_table info s) tbl k
  cleanup_table-Shrunk info s tbl k d = elim (Bool-cases (info.name == tbl)) [
    | inl same ↦
        let (n, rows, marks, few) = cleanup_table-view info s k d in
        rw (← eq_of_== info.name tbl same) (record { by = n; rows = rows; marks = marks })
    | inr other ↦
        let ne : info.name ≢ tbl = ground (arith, string_eq.same_iff info.name tbl) in
        let (rows, marks) = cleanup_table-other info s tbl ne in
        record { by = 0; rows = rw rows; marks = rw marks (omega arith) }
  ]

  pub cleanup_tables-Shrunk :
      (tables : List TableInfo) (s : Store R) (tbl : String) (k : TableKey)
      → HasDistinctKeys s
      → Shrunk s (cleanup_tables tables s) tbl k
  unfolding cleanup_tables
  cleanup_tables-Shrunk [] s tbl k d = Shrunk-refl s tbl k
  cleanup_tables-Shrunk (info ∷ tables) s tbl k d =
      Shrunk-trans (cleanup_table-Shrunk info s tbl k d) (
        cleanup_tables-Shrunk tables (cleanup_table info s) tbl k
          (HasDistinctKeys-cleanup_table info s d))

  -- `Cleanup` drops no point that has not been sent: what lies behind the mark of a row, in any
  -- table, is the same before and after.
  pub cleanup-unsent :
      (s : Store R) (tbl : String) (k : TableKey)
      → HasDistinctKeys s
      → drop (mark (cleanup s) tbl k) (row (cleanup s) tbl k) ≡ drop (mark s tbl k) (row s tbl k)
  unfolding cleanup
  cleanup-unsent s tbl k d =
      let c = cleanup_tables-Shrunk s.tables s tbl k d in
      let e : c.by + mark (cleanup_tables s.tables s) tbl k ≡ mark s tbl k =
        omega (arith, c.marks) in
      rw c.rows (drop-drop _ c.by (row s tbl k) ∙ ap (λ n. drop n (row s tbl k)) e)
