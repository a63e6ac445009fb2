-- ===== src/Alerting/Manager.antt =====
-- pkg/alerting/manager.go: the rounds over the rules.
pub mod Rounds
use hub_agent_kubernetes.Prelude.{
  String, Bool, true, false, Option, none, some, List, [], ◌∷◌, ◌++◌, GoMap, lookup, Run, ret,
  panic, ◌>>=◌, string_eq, if◌then◌else◌,
}
use hub_agent_kubernetes.Alerting.{Rule, Alert, Processed, failed, no_alert, raised, rule_type}

-- `Processor`, by the type of the rule.
abbrev pub Processors : Type 0 → Type 0
Processors R = GoMap String (Rule R → Run (Processed R))

-- `PreflightAlerts` and `SendAlerts` of the platform; `none` and `false` are errors.
pub record Backend (R : Type 0) : Type 0 where
  pub preflight_alerts : List (Alert R) → Option (List (Alert R))
  pub send_alerts : List (Alert R) → Bool

-- What a round asked of the platform, and whether it ended without an error.
pub record Round (R : Type 0) : Type 0 where
  pub preflighted : List (Alert R)
  pub sent : Option (List (Alert R))
  pub ok : Bool

module _ {R : Type 0} where
  -- One rule of the loop: the alerts after it.
  unfoldable pub check_rule : Processors R → Rule R → List (Alert R) → Run (List (Alert R))
  unfolding rule_type
  check_rule procs rule alerts = elim (lookup (rule_type rule) procs) [
    | none ↦ ret alerts
    | some proc ↦ elim (proc rule) [
      | panic ↦ panic
      | ret failed ↦ ret alerts
      | ret no_alert ↦ ret alerts
      | ret (raised alert) ↦ ret (alerts ++ alert ∷ [])
    ]
  ]

  unfoldable pub check_rules : Processors R → List (Rule R) → List (Alert R) → Run (List (Alert R))
  unfolding check_rule
  check_rules procs [] alerts = ret alerts
  check_rules procs (rule ∷ rules) alerts = do
    next ← check_rule procs rule alerts
    check_rules procs rules next

  -- After the preflight request.
  unfoldable pub finish_round : Backend R → List (Alert R) → Option (List (Alert R)) → Round R
  finish_round backend alerts none = record { preflighted = alerts; sent = none; ok = false }
  finish_round backend alerts (some []) = record { preflighted = alerts; sent = none; ok = true }
  finish_round backend alerts (some (a ∷ send_alerts)) = record {
    preflighted = alerts;
    sent = some (a ∷ send_alerts);
    ok = backend.send_alerts (a ∷ send_alerts);
  }

  unfoldable pub check_alerts : Processors R → Backend R → List (Rule R) → Run (Round R)
  unfolding check_rules finish_round
  check_alerts procs backend rules = do
    alerts ← check_rules procs rules []
    ret (finish_round backend alerts (backend.preflight_alerts alerts))

  -- `refreshRules`: the rules after it, and whether it gave no error.
  unfoldable pub refresh_rules : Option (List (Rule R)) → List (Rule R) → List (Rule R) × Bool
  refresh_rules none rules = (rules, false)
  refresh_rules (some fetched) rules = (fetched, true)
