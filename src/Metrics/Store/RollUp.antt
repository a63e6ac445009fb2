-- ===== src/Metrics/Store/RollUp.antt =====
-- `RollUp` of pkg/metrics/store.go: a table's points, combined for the next table.
pub mod Buckets
pub mod Growth
pub mod Proper
pub mod Rows
use hub_agent_kubernetes.Prelude.{
  ℕ, zero, suc, ◌+◌, ◌-◌, ◌/◌, ◌%◌, String, Bool, true, false, not, Option, none, some, List, [],
  ◌∷◌, ◌++◌, ◌≡◌, refl, arith, Eq, ◌==◌, nat_eq, string_eq, if◌then◌else◌, length, GoMap, lookup,
  insert, default, map,
}
use hub_agent_kubernetes.Int64
use hub_agent_kubernetes.Int64.{Int64}
use hub_agent_kubernetes.Metrics.Points.{Floats, DataPoint, DataPoints, get, aggregate}
use hub_agent_kubernetes.Metrics.Store.{
  TableInfo, TableKey, key_eq, Table, Store, table_of, row, second,
}

-- The seconds from Go's zero time, 1 January of year 1, to the Unix epoch.
abbrev pub unix_offset : ℕ
unix_offset = 62_135_596_800

-- `t.Truncate(gran).Unix()` for `t` at `now` seconds after the Unix epoch: it rounds down to a
-- multiple of `gran`, here in seconds, since the zero time.
unfoldable pub truncate : ℕ → ℕ → Int64
truncate now gran = now - (now + unix_offset) % gran

-- `pnt.Timestamp - (pnt.Timestamp % gran)`, which rounds towards zero.
unfoldable pub bucket : ℕ → Int64 → Int64
bucket gran ts = Int64.sub ts (Int64.rem ts gran)

-- `map[int64]DataPoints`
abbrev pub Buckets : Type 0 → Type 0
Buckets R = GoMap Int64 (DataPoints R)

-- The order in which `range` meets the buckets of each row of each table. Go leaves it open, and
-- nothing sorts the points afterwards.
abbrev pub RangeOrder : Type 0 → Type 0
RangeOrder R = String → TableKey → Buckets R → Buckets R

module _ {R : Type 0} where
  -- One round of the inner loop: `continue` leaves the buckets as they are.
  unfoldable pub add_to_bucket : DataPoints R → Int64 → ℕ → DataPoint R → Buckets R → Buckets R
  add_to_bucket dest_pnts end gran pnt res =
      let dest_ts = bucket gran pnt.timestamp in
      if not (Int64.less pnt.timestamp end) then res else elim (get dest_pnts dest_ts) [
        | some found ↦ res
        | none ↦ insert dest_ts (default [] (lookup dest_ts res) ++ pnt ∷ []) res
      ]

  unfoldable pub collect : DataPoints R → Int64 → ℕ → DataPoints R → Buckets R → Buckets R
  unfolding add_to_bucket
  collect dest_pnts end gran [] res = res
  collect dest_pnts end gran (pnt ∷ points) res =
      collect dest_pnts end gran points (add_to_bucket dest_pnts end gran pnt res)

  -- The outer loop: the buckets of each row of the table.
  unfoldable pub collect_rows : Table R → Int64 → ℕ → Table R → GoMap TableKey (Buckets R)
  unfolding collect
  collect_rows dest_table end gran [] = []
  collect_rows dest_table end gran ((key, points) ∷ table) =
      (key, collect (default [] (lookup key dest_table)) end gran points [])
      ∷ collect_rows dest_table end gran table

module _ (fl : Floats) where
  open fl use {Float}

  -- The point of one bucket.
  unfoldable pub rolled : Int64 → DataPoints Float → DataPoint Float
  rolled ts pnts = record (aggregate fl pnts) { timestamp = ts }

  unfoldable pub append_buckets : TableKey → Buckets Float → Table Float → Table Float
  unfolding rolled
  append_buckets key [] table = table
  append_buckets key ((ts, pnts) ∷ buckets) table =
      append_buckets key buckets
        (insert key (default [] (lookup key table) ++ rolled ts pnts ∷ []) table)

  -- The loops over `res`; `order` puts the buckets of a row in the order in which `range` meets them.
  unfoldable pub append_rows :
      (TableKey → Buckets Float → Buckets Float)
      → GoMap TableKey (Buckets Float)
      → Table Float
      → Table Float
  unfolding append_buckets
  append_rows order [] table = table
  append_rows order ((key, buckets) ∷ res) table =
      append_rows order res (append_buckets key (order key buckets) table)

  -- One table. An empty `dest` is the last table, which is not rolled up.
  unfoldable pub roll_up_table : RangeOrder Float → ℕ → TableInfo → Store Float → Store Float
  unfolding collect_rows append_rows
  roll_up_table order now info s =
      let gran = info.roll_up / second in
      let end = truncate now gran in
      let dest_table = table_of s info.next in
      let res = collect_rows dest_table end gran (table_of s info.name) in
      if info.next == "" then s else record s {
        table_data = insert info.next (append_rows (order info.name) res dest_table) s.table_data;
      }

  unfoldable pub roll_up_tables : RangeOrder Float → ℕ → List TableInfo → Store Float → Store Float
  unfolding roll_up_table
  roll_up_tables order now [] s = s
  roll_up_tables order now (info ∷ tables) s =
      roll_up_tables order now tables (roll_up_table order now info s)

  -- `RollUp` at `now`, in seconds after the Unix epoch.
  unfoldable pub roll_up : RangeOrder Float → ℕ → Store Float → Store Float
  unfolding roll_up_tables
  roll_up order now s = roll_up_tables order now s.tables s
