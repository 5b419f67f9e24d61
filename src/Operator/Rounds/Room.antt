-- ===== src/Operator/Rounds/Room.antt =====
-- The decisions of cmd/metawsm/main.go to restart a run, and the room that they leave.
use metawsm.Base.{
  ℕ, ◌+◌, ◌≤◌, ◌<◌, String, Bool, true, false, not, ◌&&◌, Option, none, some, ◌≡◌, refl, subst, ltb,
  ◌==◌, string_eq, nat_eq, if◌then◌else◌, arith,
}
use metawsm.Base.Text.{equal_fold}
use metawsm.Model.Plan.{OperatorRunState, RunTables}
use metawsm.Store.Schema.{Tables}
use metawsm.Store.Sql.{Result, ok, err, pure}
use metawsm.Store.Sql.Triple.{
  Triple, Triple-bind, Triple-query, Triple-pure, Triple-raise, Triple-if,
}
use metawsm.Store.Runs.{find_operator, get_operator_run_state}
use metawsm.Operator.{
  noop, auto_restart, commit_ready, pr_ready, review_feedback_ready, OperatorRuleDecision,
  same_intent,
}
use metawsm.Operator.Rules.{
  WatchSnapshot, OperatorSessionEvidence, Settings, stale_decision, restart_decision,
  completed_decision, classify_stale_run_candidate, mode_of, decision, build_operator_rule_decision,
}

abbrev pub attempts_of : Option OperatorRunState → ℕ
attempts_of none = 0
attempts_of (some s) = s.restart_attempts

-- The restarts that are counted for a run
abbrev pub attempts : String → RunTables → ℕ
attempts run_id t = attempts_of (find_operator run_id t)

-- No run has more restarts than the budget.
abbrev pub WithinBudget : ℕ → Tables → Type 0
WithinBudget budget t = (j : String) → attempts j t.runs ≤ budget

-- A decision to restart leaves room for one restart more.
abbrev pub CanRestart : ℕ → String → OperatorRuleDecision → Tables → Type 0
CanRestart budget run_id rule t =
    rule.execute ≡ true
    → same_intent rule.intent auto_restart ≡ true
    → attempts run_id t.runs + 1 ≤ budget

-- The decision does not restart.
IsOther : OperatorRuleDecision → Type 0
IsOther rule = (rule.execute && same_intent rule.intent auto_restart) ≡ false

other-CanRestart :
    (budget : ℕ) (run_id : String) (rule : OperatorRuleDecision) (t : Tables)
    → IsOther rule
    → CanRestart budget run_id rule t
unfolding IsOther
other-CanRestart budget run_id rule t h e i = ground arith

no_restart : (d : OperatorRuleDecision) → same_intent d.intent auto_restart ≡ false → IsOther d
unfolding IsOther
no_restart d h = ground arith

module _ (show_duration show_time : ℕ → String) where
  completed_decision-IsOther :
      (settings : Settings) (s : WatchSnapshot)
      → IsOther (completed_decision show_duration show_time settings s)
  unfolding completed_decision
  completed_decision-IsOther settings s =
      let completed = equal_fold s.run_status "completed" in
      let mode = mode_of settings.git_pr_mode in
      by_tests (completed && not (mode == "off") && s.has_dirty_diffs)
        (completed && not (mode == "off") && ltb 0 s.draft_pull_requests)
        (completed && settings.review_feedback_enabled && ltb 0 s.queued_review_feedback) _ _ _ _ _
        _
    where
      by_tests :
          (a b c x y : Bool) (p q r u : String)
          → IsOther (
              if a
              then decision commit_ready p x
              else if b
              then decision pr_ready q x
              else if c
              then decision review_feedback_ready r y
              else decision noop u false)
      by_tests true b c x y p q r u = no_restart _ refl
      by_tests false true c x y p q r u = no_restart _ refl
      by_tests false false true x y p q r u = no_restart _ refl
      by_tests false false false x y p q r u = no_restart _ refl

  restart_decision-CanRestart :
      (settings : Settings) (now : ℕ) (run_id : String) (state : Option OperatorRunState)
      (t : Tables)
      → 0 < settings.restart_budget
      → state ≡ find_operator run_id t.runs
      → CanRestart settings.restart_budget run_id
          (restart_decision show_duration show_time settings now state)
          t
  restart_decision-CanRestart settings now run_id state t positive e =
      subst
        (λ o.
          (restart_decision show_duration show_time settings now state).execute ≡ true
          → same_intent (restart_decision show_duration show_time settings now state).intent
              auto_restart
            ≡ true
          → attempts_of o + 1 ≤ settings.restart_budget)
        e (room state)
    where
      room :
          (o : Option OperatorRunState)
          → (restart_decision show_duration show_time settings now o).execute ≡ true
          → same_intent
              (restart_decision show_duration show_time settings now o).intent
              auto_restart
            ≡ true
          → attempts_of o + 1 ≤ settings.restart_budget
      room none x i = omega (arith, positive)
      room (some s) x i = ground arith

  stale_decision-CanRestart :
      (budget : ℕ) (run_id reason : String) (r : Result (Bool × String))
      → Triple
          (WithinBudget budget)
          (stale_decision show_duration show_time reason r)
          (λ rule t. WithinBudget budget t × CanRestart budget run_id rule t)
          (WithinBudget budget)
  stale_decision-CanRestart budget run_id reason (err e) = Triple-raise e _ (λ t p. p)
  stale_decision-CanRestart budget run_id reason (ok (true, verified)) =
      Triple-pure _ _ (λ t p. (p, λ x i. cc))
  stale_decision-CanRestart budget run_id reason (ok (false, verified)) =
      Triple-pure _ _ (λ t p. (p, λ x i. cc))

  Triple-other :
      (budget : ℕ) (run_id : String) (rule : OperatorRuleDecision)
      → IsOther rule
      → Triple
          (WithinBudget budget)
          (pure rule)
          (λ rule t. WithinBudget budget t × CanRestart budget run_id rule t)
          (WithinBudget budget)
  Triple-other budget run_id rule h =
      Triple-pure rule _ (λ t p. (p, other-CanRestart budget run_id rule t h))

  pub Triple-build :
      (probe : String → Result OperatorSessionEvidence) (settings : Settings) (s : WatchSnapshot)
      (updated_at now consecutive : ℕ)
      → 0 < settings.restart_budget
      → Triple
          (WithinBudget settings.restart_budget)
          (build_operator_rule_decision show_duration show_time probe settings s updated_at now
            consecutive)
          (λ rule t.
            WithinBudget settings.restart_budget t
            × CanRestart settings.restart_budget s.run_id rule t)
          (WithinBudget settings.restart_budget)
  unfolding build_operator_rule_decision get_operator_run_state
  Triple-build probe settings s updated_at now consecutive positive =
      let other = Triple-other settings.restart_budget s.run_id in
      let stale =
        classify_stale_run_candidate show_duration show_time s updated_at now settings.stale_age in
      Triple-if s.has_guidance _ _ _ (λ _. other _ (no_restart _ refl))
        (λ _.
          Triple-if stale.0 _ _ _
            (λ _. stale_decision-CanRestart settings.restart_budget s.run_id _ _)
            (λ _.
              Triple-if (not (s.has_unhealthy_agents && equal_fold s.run_status "running")) _ _ _
                (λ _. other _ (completed_decision-IsOther settings s))
                (λ _.
                  Triple-if (ltb consecutive settings.unhealthy_confirmations) _ _ _
                    (λ _. other _ (no_restart _ refl))
                    (λ _.
                      Triple-bind _ _
                        (λ state t.
                          WithinBudget settings.restart_budget t
                          × (state ≡ find_operator s.run_id t.runs))
                        _ (Triple-query _ (λ t p. p))
                        (λ state. Triple-pure _ _ (λ t p. (
                          p.0,
                          restart_decision-CanRestart settings now s.run_id state t positive p.1,
                        )))))))
