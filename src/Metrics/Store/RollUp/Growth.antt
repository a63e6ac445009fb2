-- ===== src/Metrics/Store/RollUp/Growth.antt =====
-- What `RollUp` of pkg/metrics/store.go writes: it appends to the rows of the next table.
use hub_agent_kubernetes.Prelude.{
  ℕ, ◌/◌, List, [], ◌∷◌, inl, inr, ◌==◌, string_eq, GoMap, Bool-cases,
}
use hub_agent_kubernetes.Metrics.Points.{Floats}
use hub_agent_kubernetes.Metrics.Store.{TableInfo, TableKey, key_eq, Table, Store, table_of, second}
use hub_agent_kubernetes.Metrics.Store.RollUp.{
  truncate, Buckets, RangeOrder, collect_rows, rolled, append_buckets, append_rows, roll_up_table,
  roll_up_tables, roll_up,
}
use hub_agent_kubernetes.Metrics.Store.Marks.{
  Grown, Grown-refl, Grown-trans, Grown-write, TableGrown, TableGrown-refl, TableGrown-trans,
  append-TableGrown,
}

-- The buckets that one table's roll-up finds.
abbrev pub found : {R : Type 0} → ℕ → TableInfo → Store R → GoMap TableKey (Buckets R)
found now info s =
    let gran = info.roll_up / second in
    collect_rows (table_of s info.next) (truncate now gran) gran (table_of s info.name)

module _ (fl : Floats) where
  open fl use {Float}

  append_buckets-TableGrown :
      (key : TableKey) (buckets : Buckets Float) (table : Table Float)
      → TableGrown table (append_buckets fl key buckets table)
  unfolding append_buckets
  append_buckets-TableGrown key [] table = TableGrown-refl table
  append_buckets-TableGrown key ((ts, pnts) ∷ buckets) table =
      TableGrown-trans (append-TableGrown key (rolled fl ts pnts) table)
        (append_buckets-TableGrown key buckets _)

  append_rows-TableGrown :
      (order : TableKey → Buckets Float → Buckets Float) (res : GoMap TableKey (Buckets Float))
      (table : Table Float)
      → TableGrown table (append_rows fl order res table)
  unfolding append_rows
  append_rows-TableGrown order [] table = TableGrown-refl table
  append_rows-TableGrown order ((key, buckets) ∷ res) table =
      TableGrown-trans (append_buckets-TableGrown key (order key buckets) table)
        (append_rows-TableGrown order res _)

  roll_up_table-Grown :
      (order : RangeOrder Float) (now : ℕ) (info : TableInfo) (s : Store Float)
      → Grown s (roll_up_table fl order now info s)
  unfolding roll_up_table
  roll_up_table-Grown order now info s = elim (Bool-cases (info.next == "")) [
    | inl last ↦ rw (last, roll_up_table) (Grown-refl s)
    | inr more ↦
        rw (more, roll_up_table)
          (Grown-write s info.next _
            (append_rows-TableGrown (order info.name) (found now info s) (table_of s info.next)))
  ]

  roll_up_tables-Grown :
      (order : RangeOrder Float) (now : ℕ) (tables : List TableInfo) (s : Store Float)
      → Grown s (roll_up_tables fl order now tables s)
  unfolding roll_up_tables
  roll_up_tables-Grown order now [] s = Grown-refl s
  roll_up_tables-Grown order now (info ∷ tables) s =
      Grown-trans (roll_up_table-Grown order now info s) (roll_up_tables-Grown order now tables _)

  -- `RollUp` changes no point and no mark: each row grows at its end, or stays.
  pub roll_up-Grown :
      (order : RangeOrder Float) (now : ℕ) (s : Store Float) → Grown s (roll_up fl order now s)
  unfolding roll_up
  roll_up-Grown order now s = roll_up_tables-Grown order now s.tables s
