-- ===== src/Metrics/Store.antt =====
-- pkg/metrics/store.go: tables of data points by ingress and service, with low water marks.
-- The mutex makes each method one step. `NewStore` makes every table, and the marks of every table.
mod Rows
pub mod Cleanup
pub mod RollUp
pub mod Marks
pub mod Start
use hub_agent_kubernetes.Prelude.{
  ℕ, zero, suc, ◌+◌, ◌-◌, ◌*◌, ◌%◌, String, Bool, true, false, ◌&&◌, not, Option, none, some, List,
  [], ◌∷◌, ◌++◌, ◌≡◌, refl, ap, ◌↔◌, arith, Eq, ◌==◌, nat_eq, string_eq, str_iff, if◌then◌else◌,
  ltb, leb, nat_beq, length, take, drop, GoMap, lookup, insert, default, Run, ret, panic, ◌>>=◌,
  map,
}
use hub_agent_kubernetes.Int64
use hub_agent_kubernetes.Int64.{Int64}
use hub_agent_kubernetes.Metrics.Points.{
  Floats, DataPoint, DataPoints, DataPointGroup, SetKey, get, aggregate,
}

pub record TableInfo : Type 0 where
  pub name : String
  pub min_count : ℕ
  -- in nanoseconds
  pub roll_up : ℕ
  pub next : String

pub record TableKey : Type 0 where
  pub edge_ingress : String
  pub ingress : String
  pub service : String

abbrev pub key_beq : TableKey → TableKey → Bool
key_beq a b = a.edge_ingress == b.edge_ingress && (a.ingress == b.ingress && a.service == b.service)

pub key_beq_iff : (a b : TableKey) → (key_beq a b ≡ true) ↔ (a ≡ b)
key_beq_iff a b = ground (
  arith,
  str_iff a.edge_ingress b.edge_ingress,
  str_iff a.ingress b.ingress,
  str_iff a.service b.service,
)

instance abbrev pub key_eq : Eq TableKey
key_eq = record { same = key_beq; same_iff = key_beq_iff }

unfoldable pub to_table_key : {R : Type 0} → DataPointGroup R → TableKey
to_table_key grp = record {
  edge_ingress = grp.edge_ingress;
  ingress = grp.ingress;
  service = grp.service;
}

-- the conversion `tableKey(k)`
abbrev pub of_set_key : SetKey → TableKey
of_set_key k = record { edge_ingress = k.edge_ingress; ingress = k.ingress; service = k.service }

abbrev pub WaterMarks : Type 0
WaterMarks = GoMap TableKey ℕ

abbrev pub Table : Type 0 → Type 0
Table R = GoMap TableKey (DataPoints R)

pub record Store (R : Type 0) : Type 0 where
  pub tables : List TableInfo
  pub table_data : GoMap String (Table R)
  pub marks : GoMap String WaterMarks

abbrev pub second : ℕ
second = 1_000_000_000

abbrev pub standard_tables : List TableInfo
standard_tables =
    record { name = "1m"; min_count = 10; roll_up = 600 * second; next = "10m" }
    ∷ record { name = "10m"; min_count = 6; roll_up = 3600 * second; next = "1h" }
    ∷ record { name = "1h"; min_count = 24; roll_up = 86400 * second; next = "1d" }
    ∷ record { name = "1d"; min_count = 30; roll_up = 2592000 * second; next = "" }
    ∷ []

-- `NewStore`
unfoldable pub new_store : (R : Type 0) → Store R
new_store R = record {
  tables = standard_tables;
  table_data = map (λ (info : TableInfo). (info.name, [])) standard_tables;
  marks = map (λ (info : TableInfo). (info.name, [])) standard_tables;
}

-- How many points of a row `Cleanup` drops: no more than the mark.
unfoldable pub surplus : ℕ → ℕ → ℕ → ℕ
surplus len count low = if ltb low (len - count) then low else len - count

module _ {R : Type 0} where
  -- `s.data[tbl]`, `s.marks[tbl]`, `s.data[tbl][k]` and `s.marks[tbl][k]`
  abbrev pub table_of : Store R → String → Table R
  table_of s tbl = default [] (lookup tbl s.table_data)

  abbrev pub marks_of : Store R → String → WaterMarks
  marks_of s tbl = default [] (lookup tbl s.marks)

  abbrev pub row : Store R → String → TableKey → DataPoints R
  row s tbl k = default [] (lookup k (table_of s tbl))

  abbrev pub mark : Store R → String → TableKey → ℕ
  mark s tbl k = default 0 (lookup k (marks_of s tbl))

  -- `sort.Slice` by timestamp. It leaves the order of equal timestamps open; here they stay.
  unfoldable pub insert_sorted : DataPoint R → DataPoints R → DataPoints R
  insert_sorted p [] = p ∷ []
  insert_sorted p (q ∷ r) =
      if Int64.less q.timestamp p.timestamp then q ∷ insert_sorted p r else p ∷ q ∷ r

  unfoldable pub sort_points : DataPoints R → DataPoints R
  unfolding insert_sorted
  sort_points [] = []
  sort_points (p ∷ r) = insert_sorted p (sort_points r)

  -- the loop of `Populate`
  unfoldable pub populate_groups :
      List (DataPointGroup R) → Table R → WaterMarks → Table R × WaterMarks
  unfolding to_table_key sort_points insert
  populate_groups [] table marks = (table, marks)
  populate_groups (v ∷ grps) table marks =
      let key = to_table_key v in
      let points = sort_points v.data_points in
      let rest =
        populate_groups grps (insert key points table) (insert key (length points) marks) in
      elim v.data_points [ [] ↦ populate_groups grps table marks | _ ↦ rest ]

  -- `none` is the error "table does not exist".
  unfoldable pub populate : String → List (DataPointGroup R) → Store R → Option (Store R)
  unfolding populate_groups
  populate tbl grps s = elim (lookup tbl s.table_data) [
    | none ↦ none
    | some table ↦
        let (table', marks') = populate_groups grps table (marks_of s tbl) in
        some (record s {
          table_data = insert tbl table' s.table_data;
          marks = insert tbl marks' s.marks;
        })
  ]

  -- the loop of `Insert`
  unfoldable pub insert_points : GoMap SetKey (DataPoint R) → Table R → Table R
  insert_points [] table = table
  insert_points ((k, pnt) ∷ svcs) table =
      let key = of_set_key k in
      insert_points svcs (insert key (default [] (lookup key table) ++ pnt ∷ []) table)

  -- `Insert`; `insert` is the write to a map.
  unfoldable pub insert_all : GoMap SetKey (DataPoint R) → Store R → Store R
  unfolding insert_points
  insert_all svcs s = record s {
    table_data = insert "1m" (insert_points svcs (table_of s "1m")) s.table_data;
  }

  -- `ForEach`: the rows that `fn` is called with, in the order of the table.
  unfoldable pub for_each : Store R → String → Table R
  for_each s tbl = table_of s tbl

  -- `v[mark:]`, which panics past the end of `v`.
  unfoldable pub slice_from : ℕ → DataPoints R → Run (DataPoints R)
  slice_from mark v = if leb mark (length v) then ret (drop mark v) else panic

  -- The loop of `ForEachUnmarked`: the rows that `fn` is called with, and the new marks.
  unfoldable pub unmarked_rows : WaterMarks → Table R → Run (Table R × WaterMarks)
  unfolding slice_from
  unmarked_rows marks [] = ret ([], [])
  unmarked_rows marks ((k, v) ∷ table) =
      let low = default 0 (lookup k marks) in
      let rest = unmarked_rows marks table in
      if nat_beq low (length v)
      then (do r ← rest; ret (r.0, (k, length v) ∷ r.1))
      else do pnts ← slice_from low v; r ← rest; ret ((k, pnts) ∷ r.0, (k, length v) ∷ r.1)

  unfoldable pub for_each_unmarked : Store R → String → Run (Table R × WaterMarks)
  unfolding unmarked_rows
  for_each_unmarked s tbl = elim (lookup tbl s.table_data) [
    | none ↦ ret ([], [])
    | some table ↦ unmarked_rows (marks_of s tbl) table
  ]

  -- `CommitMarks`
  unfoldable pub commit_marks : String → WaterMarks → Store R → Store R
  commit_marks tbl marks s = elim (lookup tbl s.marks) [
    | none ↦ s
    | some old ↦ record s { marks = insert tbl marks s.marks }
  ]

  -- One round of `Cleanup`. `len(pnts) - count < 1` holds where the truncated difference is 0.
  unfoldable pub cleanup_row : ℕ → TableKey → DataPoints R → WaterMarks → DataPoints R × WaterMarks
  unfolding surplus
  cleanup_row count k pnts marks =
      let low = default 0 (lookup k marks) in
      let idx = surplus (length pnts) count low in
      if ltb (length pnts - count) 1
      then (pnts, marks)
      else (drop idx pnts, insert k (low - idx) marks)

  unfoldable pub cleanup_rows : ℕ → Table R → WaterMarks → Table R × WaterMarks
  cleanup_rows count [] marks = ([], marks)
  cleanup_rows count ((k, pnts) ∷ table) marks =
      let cleaned = cleanup_row count k pnts marks in
      let rest = cleanup_rows count table cleaned.1 in ((k, cleaned.0) ∷ rest.0, rest.1)

  unfoldable pub cleanup_table : TableInfo → Store R → Store R
  cleanup_table info s = elim (lookup info.name s.table_data) [
    | none ↦ s
    | some table ↦
        let (table', marks') = cleanup_rows info.min_count table (marks_of s info.name) in
        record s {
          table_data = insert info.name table' s.table_data;
          marks = insert info.name marks' s.marks;
        }
  ]

  unfoldable pub cleanup_tables : List TableInfo → Store R → Store R
  unfolding cleanup_table
  cleanup_tables [] s = s
  cleanup_tables (info ∷ tables) s = cleanup_tables tables (cleanup_table info s)

  -- `Cleanup`
  unfoldable pub cleanup : Store R → Store R
  unfolding cleanup_tables
  cleanup s = cleanup_tables s.tables s
