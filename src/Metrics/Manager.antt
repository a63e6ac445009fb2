-- ===== src/Metrics/Manager.antt =====
-- `send` of pkg/metrics/manager.go; Scraper has `startScraper`.
pub mod Collect
pub mod Commit
pub mod Delivery
pub mod Scraper
use hub_agent_kubernetes.Prelude.{
  ℕ, String, Bool, true, false, List, [], ◌∷◌, ◌++◌, GoMap, lookup, insert, default, Run, ret,
  panic, ◌>>=◌, string_eq,
}
use hub_agent_kubernetes.Metrics.Points.{Floats, DataPoint, DataPoints, DataPointGroup, SetKey}
use hub_agent_kubernetes.Metrics.Store.{
  TableKey, WaterMarks, Table, Store, insert_all, for_each_unmarked, commit_marks, cleanup,
}
use hub_agent_kubernetes.Metrics.Store.RollUp.{RangeOrder, roll_up}

abbrev pub Groups : Type 0 → Type 0
Groups R = GoMap String (List (DataPointGroup R))

abbrev pub AllMarks : Type 0
AllMarks = GoMap String WaterMarks

module _ {R : Type 0} where
  abbrev pub group_of : TableKey × DataPoints R → DataPointGroup R
  group_of (k, pnts) = record {
    ingress = k.ingress;
    edge_ingress = k.edge_ingress;
    service = k.service;
    data_points = pnts;
  }

  -- The function that `send` gives to `ForEachUnmarked`, on each row.
  unfoldable pub add_groups : String → Table R → Groups R → Groups R
  add_groups tbl [] to_send = to_send
  add_groups tbl (r ∷ rows) to_send =
      add_groups tbl rows (insert tbl (default [] (lookup tbl to_send) ++ group_of r ∷ []) to_send)

  -- The loop over the tables: the groups to send, and the marks of each table.
  unfoldable pub collect_unmarked :
      Store R → List String → Groups R → AllMarks → Run (Groups R × AllMarks)
  unfolding add_groups for_each_unmarked
  collect_unmarked s [] to_send tbl_marks = ret (to_send, tbl_marks)
  collect_unmarked s (tbl ∷ tbls) to_send tbl_marks = do
    r ← for_each_unmarked s tbl
    collect_unmarked s tbls (add_groups tbl r.0 to_send) (insert tbl r.1 tbl_marks)

  unfoldable pub commit_all : AllMarks → Store R → Store R
  unfolding commit_marks
  commit_all [] s = s
  commit_all ((tbl, marks) ∷ tbl_marks) s = commit_all tbl_marks (commit_marks tbl marks s)

  -- The calls of `Insert` that the scraper makes in the meantime.
  unfoldable pub insert_rounds : List (GoMap SetKey (DataPoint R)) → Store R → Store R
  insert_rounds [] s = s
  insert_rounds (svcs ∷ rounds) s = insert_rounds rounds (insert_all svcs s)

  -- The end of `send`: `accepted` says whether `client.Send` gave no error. The groups are those
  -- that the platform took; an error is taken to mean that it took none.
  unfoldable pub finish : Bool → Groups R → AllMarks → Store R → Groups R × Store R
  unfolding commit_all cleanup
  finish accepted [] tbl_marks s = ([], s)
  finish true (g ∷ to_send) tbl_marks s = (g ∷ to_send, cleanup (commit_all tbl_marks s))
  finish false (g ∷ to_send) tbl_marks s = ([], s)

-- `send` at `now`. `during` are the rounds of `Insert` between the loop over the tables and the
-- return of `client.Send`, which waits for the platform.
unfoldable pub send :
    (fl : Floats)
    → RangeOrder (fl.Float)
    → ℕ
    → List String
    → Bool
    → List (GoMap SetKey (DataPoint (fl.Float)))
    → Store (fl.Float)
    → Run (Groups (fl.Float) × Store (fl.Float))
unfolding collect_unmarked finish insert_rounds roll_up
send fl order now tbls accepted during s = do
  let rolled_up = roll_up fl order now s
  r ← collect_unmarked rolled_up tbls [] []
  ret (finish accepted r.0 r.1 (insert_rounds during rolled_up))
