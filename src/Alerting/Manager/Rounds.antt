-- ===== src/Alerting/Manager/Rounds.antt =====
-- What a round of pkg/alerting/manager.go sends.
use hub_agent_kubernetes.Prelude.{
  Option, none, some, List, [], ◌∷◌, ◌++◌, ◌≡◌, ◌≢◌, refl, ap, sym, ◌∙◌, lookup, Run, ret, panic,
  string_eq, append-nil, append_assoc, All,
}
use hub_agent_kubernetes.Alerting.{Rule, Alert, Processed, failed, no_alert, raised, rule_type}
use hub_agent_kubernetes.Alerting.Manager.{
  Processors, Backend, Round, check_rule, check_rules, check_alerts, finish_round,
}

module _ {R : Type 0} (procs : Processors R) where
  -- What a rule gives on its own; a rule without a processor gives nothing.
  abbrev pub verdict : Rule R → Run (Processed R)
  verdict rule = elim (lookup (rule_type rule) procs) [ none ↦ ret failed | some proc ↦ proc rule ]

  abbrev pub alerts_of : Run (Processed R) → List (Alert R)
  alerts_of (ret (raised alert)) = alert ∷ []
  alerts_of _ = []

  -- The alerts of each rule on its own, in the order of the rules.
  abbrev pub raised_by : List (Rule R) → List (Alert R)
  raised_by [] = []
  raised_by (rule ∷ rules) = alerts_of (verdict rule) ++ raised_by rules

  abbrev pub NoPanic : List (Rule R) → Type 0
  NoPanic = All (λ rule. verdict rule ≢ panic)

  check_rule-verdict :
      (rule : Rule R) (alerts : List (Alert R))
      → verdict rule ≢ panic
      → check_rule procs rule alerts ≡ ret (alerts ++ alerts_of (verdict rule))
  unfolding check_rule
  check_rule-verdict rule alerts h = go (lookup (rule_type rule) procs) refl
    where
      run :
          (proc : Rule R → Run (Processed R)) (r : Run (Processed R))
          → lookup (rule_type rule) procs ≡ some proc
          → proc rule ≡ r
          → check_rule procs rule alerts ≡ ret (alerts ++ alerts_of (verdict rule))
      run proc panic e p = absurd (h (rw (e, verdict) p))
      run proc (ret failed) e p = rw (e, p, check_rule, verdict) (ap ret (sym (append-nil alerts)))
      run proc (ret no_alert) e p =
          rw (e, p, check_rule, verdict) (ap ret (sym (append-nil alerts)))
      run proc (ret (raised a)) e p = rw (e, p, check_rule, verdict)

      go :
          (o : Option (Rule R → Run (Processed R)))
          → lookup (rule_type rule) procs ≡ o
          → check_rule procs rule alerts ≡ ret (alerts ++ alerts_of (verdict rule))
      go none e = rw (e, check_rule, verdict) (ap ret (sym (append-nil alerts)))
      go (some proc) e = run proc (proc rule) e refl

  check_rules-raised_by :
      (rules : List (Rule R)) (alerts : List (Alert R))
      → NoPanic rules
      → check_rules procs rules alerts ≡ ret (alerts ++ raised_by rules)
  unfolding check_rules
  check_rules-raised_by [] alerts h = ap ret (sym (append-nil alerts))
  check_rules-raised_by (rule ∷ rules) alerts (h, hs) =
      let own = alerts_of (verdict rule) in
      rw (check_rule-verdict rule alerts h) (
        check_rules-raised_by rules (alerts ++ own) hs
        ∙ ap ret (append_assoc alerts own (raised_by rules)))

  -- The alerts to send, if the platform gives any.
  abbrev pub to_send : Option (List (Alert R)) → Option (List (Alert R))
  to_send none = none
  to_send (some []) = none
  to_send (some (a ∷ alerts)) = some (a ∷ alerts)

  finish_round-to_send :
      (backend : Backend R) (alerts : List (Alert R)) (answer : Option (List (Alert R)))
      → ((finish_round backend alerts answer).preflighted ≡ alerts)
        × ((finish_round backend alerts answer).sent ≡ to_send answer)
  unfolding finish_round
  finish_round-to_send backend alerts none = (refl, refl)
  finish_round-to_send backend alerts (some []) = (refl, refl)
  finish_round-to_send backend alerts (some (a ∷ rest)) = (refl, refl)

  -- Where no processor panics, a round ends: the platform is asked about the alerts of all rules,
  -- each as if the rule were alone and in the order of the rules, whatever other rules fail, and
  -- even where there are none; and it is sent what it answers, unless that is an error or empty.
  pub check_alerts-raised_by :
      (backend : Backend R) (rules : List (Rule R))
      → NoPanic rules
      → (round : Round R) × (check_alerts procs backend rules ≡ ret round)
        × (round.preflighted ≡ raised_by rules)
        × (round.sent ≡ to_send (backend.preflight_alerts (raised_by rules)))
  unfolding check_alerts
  check_alerts-raised_by backend rules h =
      let alerts = raised_by rules in
      let (asked, sent) = finish_round-to_send backend alerts (backend.preflight_alerts alerts) in
      (
        finish_round backend alerts (backend.preflight_alerts alerts),
        rw (check_rules-raised_by rules [] h),
        asked,
        sent,
      )
