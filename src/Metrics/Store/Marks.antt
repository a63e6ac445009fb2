-- ===== src/Metrics/Store/Marks.antt =====
-- The marks of pkg/metrics/store.go never pass the end of a row: the invariant of the store, which
-- every method keeps, and what `ForEachUnmarked` hands out under it.
pub mod Snapshot
use hub_agent_kubernetes.Prelude.{
  ℕ, ◌+◌, ◌-◌, ◌≤◌, String, Bool, true, false, Option, none, some, List, [], ◌∷◌, ◌++◌, ◌≡◌, ◌≢◌,
  refl, ap, sym, ◌∙◌, inl, inr, arith, Eq, ◌==◌, string_eq, if◌then◌else◌, length, drop, GoMap,
  lookup, insert, default, DistinctKeys, DistinctKeys-insert, lookup-insert, lookup-insert_self,
  lookup-insert_ne, Bool-cases, eq_of_==, ==_refl, Option-cases, length-drop, append-nil,
  append_assoc, length-append,
}
use hub_agent_kubernetes.Metrics.Points.{DataPoint, DataPoints, SetKey, DataPointGroup}
use hub_agent_kubernetes.Metrics.Store.{
  TableInfo, TableKey, key_eq, of_set_key, WaterMarks, Table, Store, table_of, marks_of, row, mark,
  cleanup, insert_points, insert_all, commit_marks, new_store, sort_points, populate_groups,
  populate, cleanup_tables, to_table_key,
}
use hub_agent_kubernetes.Metrics.Store.Cleanup.{
  HasDistinctKeys, HasDistinctKeys-cleanup_table, cleanup_tables-Shrunk,
}

module _ {R : Type 0} where
  pub record IsSound (s : Store R) : Type 0 where
    pub distinct : HasDistinctKeys s
    pub marked : (tbl : String) (k : TableKey) → mark s tbl k ≤ length (row s tbl k)

  -- The rows only grew, at their ends, and the marks stayed.
  pub record Grown (s s' : Store R) : Type 0 where
    pub distinct : HasDistinctKeys s → HasDistinctKeys s'
    pub more :
        (tbl : String) (k : TableKey) → (ys : DataPoints R) × (row s' tbl k ≡ row s tbl k ++ ys)
    pub same : s'.marks ≡ s.marks

  pub Grown-refl : (s : Store R) → Grown s s
  Grown-refl s = record {
    distinct = λ d. d;
    more = λ tbl k. ([], sym (append-nil (row s tbl k)));
    same = refl;
  }

  pub Grown-trans : {s t u : Store R} → Grown s t → Grown t u → Grown s u
  Grown-trans {s} {t} a b = record {
    distinct = λ d. b.distinct (a.distinct d);
    more = λ tbl k.
        let (xs, p) = a.more tbl k in
        let (ys, q) = b.more tbl k in
        (xs ++ ys, q ∙ ap (λ r. r ++ ys) p ∙ append_assoc (row s tbl k) xs ys);
    same = b.same ∙ a.same;
  }

  pub Grown-IsSound : {s s' : Store R} → Grown s s' → IsSound s → IsSound s'
  Grown-IsSound {s} {s'} g v = record {
    distinct = g.distinct v.distinct;
    marked = λ tbl k.
        let (ys, p) = g.more tbl k in
        let q : mark s' tbl k ≡ mark s tbl k = rw g.same in
        omega (arith, q, v.marked tbl k, ap length p, length-append (row s tbl k) ys);
  }

  table_of-write_self :
      (s : Store R) (name : String) (table : Table R)
      → table_of (record s { table_data = insert name table s.table_data }) name ≡ table
  table_of-write_self s name table = ap (default []) (lookup-insert_self name table s.table_data)

  table_of-write_ne :
      (s : Store R) (name tbl : String) (table : Table R)
      → name ≢ tbl
      → table_of (record s { table_data = insert name table s.table_data }) tbl ≡ table_of s tbl
  table_of-write_ne s name tbl table h =
      ap (default []) (lookup-insert_ne name tbl table s.table_data h)

  -- A table whose rows grew out of those of another.
  pub record TableGrown (old table : Table R) : Type 0 where
    pub distinct : DistinctKeys old → DistinctKeys table
    pub more :
        (k : TableKey)
        → (ys : DataPoints R) × (default [] (lookup k table) ≡ default [] (lookup k old) ++ ys)

  pub TableGrown-refl : (table : Table R) → TableGrown table table
  TableGrown-refl table = record { distinct = λ d. d; more = λ k. ([], sym (append-nil _)) }

  pub TableGrown-trans : {a b c : Table R} → TableGrown a b → TableGrown b c → TableGrown a c
  TableGrown-trans {a} f g = record {
    distinct = λ d. g.distinct (f.distinct d);
    more = λ k.
        let (xs, p) = f.more k in
        let (ys, q) = g.more k in
        (xs ++ ys, q ∙ ap (λ r. r ++ ys) p ∙ append_assoc (default [] (lookup k a)) xs ys);
  }

  -- `table[key] = append(table[key], pnt)`
  pub append-TableGrown :
      (key : TableKey) (pnt : DataPoint R) (table : Table R)
      → TableGrown table (insert key (default [] (lookup key table) ++ pnt ∷ []) table)
  append-TableGrown key pnt table = record {
    distinct = DistinctKeys-insert key (default [] (lookup key table) ++ pnt ∷ []) table;
    more = λ k. elim (Bool-cases (key == k)) [
      | inl same ↦
          let p = eq_of_== key k same in
          (pnt ∷ [], rw (← p) (ap (default []) (lookup-insert_self key _ table)))
      | inr other ↦
          let ne : key ≢ k = ground (arith, key_eq.same_iff key k) in
          ([], ap (default []) (lookup-insert_ne key k _ table ne) ∙ sym (append-nil _))
    ];
  }

  -- A write of a table whose rows grew lets the store's rows grow.
  pub Grown-write :
      (s : Store R) (name : String) (table : Table R)
      → TableGrown (table_of s name) table
      → Grown s (record s { table_data = insert name table s.table_data })
  Grown-write s name table g = record {
    distinct = λ d tbl. elim (Bool-cases (name == tbl)) [
      | inl same ↦
          rw (← eq_of_== name tbl same, table_of-write_self s name table) (g.distinct (d name))
      | inr other ↦
          let ne : name ≢ tbl = ground (arith, string_eq.same_iff name tbl) in
          rw (table_of-write_ne s name tbl table ne) (d tbl)
    ];
    more = λ tbl k. elim (Bool-cases (name == tbl)) [
      | inl same ↦ rw (← eq_of_== name tbl same, table_of-write_self s name table) (g.more k)
      | inr other ↦
          let ne : name ≢ tbl = ground (arith, string_eq.same_iff name tbl) in
          ([], rw (table_of-write_ne s name tbl table ne) (sym (append-nil _)))
    ];
    same = refl;
  }

  insert_points-TableGrown :
      (svcs : GoMap SetKey (DataPoint R)) (table : Table R)
      → TableGrown table (insert_points svcs table)
  unfolding insert_points
  insert_points-TableGrown [] table = TableGrown-refl table
  insert_points-TableGrown ((k, pnt) ∷ svcs) table =
      TableGrown-trans (append-TableGrown (of_set_key k) pnt table)
        (insert_points-TableGrown svcs _)

  pub insert_all-Grown :
      (svcs : GoMap SetKey (DataPoint R)) (s : Store R) → Grown s (insert_all svcs s)
  unfolding insert_all
  insert_all-Grown svcs s =
      Grown-write s "1m" (insert_points svcs (table_of s "1m"))
        (insert_points-TableGrown svcs (table_of s "1m"))

  HasDistinctKeys-cleanup_tables :
      (tables : List TableInfo) (s : Store R)
      → HasDistinctKeys s
      → HasDistinctKeys (cleanup_tables tables s)
  unfolding cleanup_tables
  HasDistinctKeys-cleanup_tables [] s d = d
  HasDistinctKeys-cleanup_tables (info ∷ tables) s d =
      HasDistinctKeys-cleanup_tables tables _ (HasDistinctKeys-cleanup_table info s d)

  -- `Cleanup` keeps every mark within its row.
  pub cleanup-IsSound : (s : Store R) → IsSound s → IsSound (cleanup s)
  unfolding cleanup
  cleanup-IsSound s v = record {
    distinct = HasDistinctKeys-cleanup_tables s.tables s v.distinct;
    marked = λ tbl k.
        let c = cleanup_tables-Shrunk s.tables s tbl k v.distinct in
        omega (arith, c.marks, ap length c.rows, length-drop c.by (row s tbl k), v.marked tbl k);
  }

  -- `CommitMarks` keeps every mark within its row, for marks that are no longer than the rows.
  pub commit_marks-IsSound :
      (tbl : String) (marks : WaterMarks) (s : Store R)
      → IsSound s
      → ((k : TableKey) → default 0 (lookup k marks) ≤ length (row s tbl k))
      → IsSound (commit_marks tbl marks s)
  unfolding commit_marks
  commit_marks-IsSound tbl marks s v h = go (lookup tbl s.marks) refl
    where
      go : (o : Option WaterMarks) → lookup tbl s.marks ≡ o → IsSound (commit_marks tbl marks s)
      go none e = rw (e, commit_marks) v
      go (some old) e =
          rw (e, commit_marks)
            (record {
              distinct = v.distinct;
              marked = λ t k. elim (Bool-cases (tbl == t)) [
                | inl same ↦ rw (← eq_of_== tbl t same, lookup-insert_self tbl marks s.marks) (h k)
                | inr other ↦
                    let ne : tbl ≢ t = ground (arith, string_eq.same_iff tbl t) in
                    rw (lookup-insert_ne tbl t marks s.marks ne) (v.marked t k)
              ];
            })
