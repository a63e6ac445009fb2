-- ===== src/Metrics/Manager/Delivery.antt =====
-- `send` of pkg/metrics/manager.go delivers each point once.
use hub_agent_kubernetes.Prelude.{
  ℕ, String, Bool, true, false, List, [], ◌∷◌, ◌++◌, ◌≡◌, ◌≢◌, refl, ap, sym, ◌∙◌, none, some, inl,
  inr, GoMap, lookup, default, ret, arith, string_eq, DistinctKeys, length, Bool-cases, drop-append,
  drop-length, length-append,
}
use hub_agent_kubernetes.Metrics.Points.{Floats, DataPoint, DataPoints, SetKey}
use hub_agent_kubernetes.Metrics.Store.{
  TableKey, key_eq, WaterMarks, Table, Store, row, mark, marks_of, insert_all, cleanup,
}
use hub_agent_kubernetes.Metrics.Store.Cleanup.{cleanup-unsent}
use hub_agent_kubernetes.Metrics.Store.Marks.{
  IsSound, Grown, Grown-refl, Grown-trans, Grown-IsSound, insert_all-Grown, cleanup-IsSound,
}
use hub_agent_kubernetes.Metrics.Store.RollUp.{RangeOrder, roll_up}
use hub_agent_kubernetes.Metrics.Store.RollUp.Growth.{roll_up-Grown}
use hub_agent_kubernetes.Metrics.Manager.{Groups, AllMarks, insert_rounds, finish, commit_all, send}
use hub_agent_kubernetes.Metrics.Manager.Collect.{
  mentions, Distinct, sent, unsent, Collected, collect_unmarked-Collected,
}
use hub_agent_kubernetes.Metrics.Manager.Commit.{
  commit_all-data, commit_all-marks, Fit, commit_all-IsSound,
}

module _ {R : Type 0} where
  insert_rounds-Grown :
      (rounds : List (GoMap SetKey (DataPoint R))) (s : Store R) → Grown s (insert_rounds rounds s)
  unfolding insert_rounds
  insert_rounds-Grown [] s = Grown-refl s
  insert_rounds-Grown (svcs ∷ rounds) s =
      Grown-trans (insert_all-Grown svcs s) (insert_rounds-Grown rounds (insert_all svcs s))

  -- Points that came later lie behind the points that were there.
  unsent-Grown :
      (s s' : Store R) (tbl : String) (k : TableKey) (ys : DataPoints R)
      → IsSound s
      → s'.marks ≡ s.marks
      → row s' tbl k ≡ row s tbl k ++ ys
      → unsent s' tbl k ≡ unsent s tbl k ++ ys
  unsent-Grown s s' tbl k ys v same e =
      let m : mark s' tbl k ≡ mark s tbl k = rw same in
      rw (m, e) (drop-append (mark s tbl k) (row s tbl k) ys (v.marked tbl k))

  -- `commit_all` leaves unsent what came after the loop.
  commit_all-unsent :
      (s s' : Store R) (b : AllMarks) (tbl : String) (k : TableKey) (ys : DataPoints R)
      (marks : WaterMarks)
      → DistinctKeys b
      → lookup tbl s'.marks ≢ none
      → lookup tbl b ≡ some marks
      → default 0 (lookup k marks) ≡ length (row s tbl k)
      → row s' tbl k ≡ row s tbl k ++ ys
      → unsent (commit_all b s') tbl k ≡ ys
  commit_all-unsent s s' b tbl k ys marks d h e len r =
      let m : mark (commit_all b s') tbl k ≡ length (row s tbl k) =
        ap (λ (w : WaterMarks). default 0 (lookup k w))
          (commit_all-marks b s' tbl d h ∙ ap (default (marks_of s' tbl)) e)
        ∙ len in
      let after : row (commit_all b s') tbl k ≡ row s tbl k ++ ys =
        ap (λ (t : GoMap String (Table R)). default [] (lookup k (default [] (lookup tbl t))))
          (commit_all-data b s')
        ∙ r in
      rw (m, after)
        (drop-append (length (row s tbl k)) (row s tbl k) ys (omega arith)
          ∙ ap (λ l. l ++ ys) (drop-length (row s tbl k)))

  -- What a call that gives `to_send` and `s'` has done to the unsent points of `s`, on the tables
  -- `tbls`.
  pub record IsDelivery (s : Store R) (tbls : List String) (to_send : Groups R) (s' : Store R)
      : Type 0 where
    pub sound : IsSound s'
    pub points :
        (tbl : String) (k : TableKey)
        → mentions tbl tbls ≡ true
        → sent to_send tbl k ++ unsent s' tbl k ≡ unsent s tbl k

  abbrev pub HasMarks : Store R → List String → Type 0
  HasMarks s tbls = (tbl : String) → mentions tbl tbls ≡ true → lookup tbl s.marks ≢ none

  -- The end of `send` on what the loop collected from `s`; the store is `s'` by then.
  finish-IsDelivery :
      (accepted : Bool) (s s' : Store R) (tbls : List String) (a : Groups R) (b : AllMarks)
      → IsSound s
      → HasMarks s tbls
      → Grown s s'
      → Collected s tbls [] a [] b
      → IsDelivery s' tbls (finish accepted a b s').0 (finish accepted a b s').1
  unfolding finish lookup
  finish-IsDelivery accepted s s' tbls [] b v has g c = record {
    sound = Grown-IsSound g v;
    points = λ tbl k h. refl;
  }
  finish-IsDelivery false s s' tbls (x ∷ a) b v has g c = record {
    sound = Grown-IsSound g v;
    points = λ tbl k h. refl;
  }
  finish-IsDelivery true s s' tbls (x ∷ a) b v has g c =
      let d = c.distinct tt in
      let v' = Grown-IsSound g v in
      let fit : Fit b s' = λ t m k e. elim (Bool-cases (mentions t tbls)) [
        | inl hit ↦
            let (marks, e', lens) = c.hit_marks t hit in
            let (ys, r) = g.more t k in
            let same : marks ≡ m = cc (e, e') in
            omega (
              arith,
              ap (λ (w : WaterMarks). default 0 (lookup k w)) same,
              lens k,
              ap length r,
              length-append (row s t k) ys,
            )
        | inr miss ↦ let gone : lookup t b ≡ none = c.miss_marks t miss in absurd (cc (e, gone))
      ] in
      let v'' = commit_all-IsSound b s' d fit v' in
      record {
        sound = cleanup-IsSound (commit_all b s') v'';
        points = λ tbl k h.
            let (ys, r) = g.more tbl k in
            let (marks, e, lens) = c.hit_marks tbl h in
            let later : unsent (cleanup (commit_all b s')) tbl k ≡ ys =
              cleanup-unsent (commit_all b s') tbl k v''.distinct
              ∙ commit_all-unsent s s' b tbl k ys marks d (rw g.same (has tbl h)) e (lens k) r in
            ap (λ l. sent (x ∷ a) tbl k ++ l) later
            ∙ ap (λ l. l ++ ys) (c.hit_points tbl k h)
            ∙ sym (unsent-Grown s s' tbl k ys v g.same r);
      }

-- `send` delivers each point once, whatever the platform answers, whatever the scraper inserts
-- meanwhile, and in whatever order the roll-up ranges over its buckets: on a store whose marks lie within the rows, and for distinct tables that have marks,
-- it does not panic, it keeps the marks within the rows, and for each row of these tables the
-- points that the platform took, followed by those still unsent, are those that were unsent after
-- the roll-up and the insertions, in their order.
pub send-IsDelivery :
    (fl : Floats) (order : RangeOrder (fl.Float)) (now : ℕ) (tbls : List String) (accepted : Bool)
    (during : List (GoMap SetKey (DataPoint (fl.Float)))) (s : Store (fl.Float))
    → IsSound s
    → Distinct tbls
    → HasMarks s tbls
    → (to_send : Groups (fl.Float)) × (s' : Store (fl.Float)) × (send fl order now tbls accepted
          during s
        ≡ ret (to_send, s'))
      × IsDelivery (insert_rounds during (roll_up fl order now s)) tbls to_send s'
unfolding send
send-IsDelivery fl order now tbls accepted during s v d has =
    let up = roll_up-Grown fl order now s in
    let v' = Grown-IsSound up v in
    let (a, b, e, c) = collect_unmarked-Collected (roll_up fl order now s) tbls [] [] v' d in
    let later = insert_rounds during (roll_up fl order now s) in
    let done = finish accepted a b later in
    (
      done.0,
      done.1,
      rw e,
      finish-IsDelivery accepted (roll_up fl order now s) later tbls a b v'
          (λ tbl h. rw up.same (has tbl h)) (insert_rounds-Grown during (roll_up fl order now s)) c,
    )
