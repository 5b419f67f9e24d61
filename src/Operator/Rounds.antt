-- ===== src/Operator/Rounds.antt =====
-- One round of the operator loop of cmd/metawsm/main.go for one run: the decision, the alert and the
-- action. `act` is `executeOperatorAction`, and `propose` the reply of the language model.
pub mod Room
pub mod Budget
mod Examples
use metawsm.Base.{
  ℕ, ◌+◌, String, Bool, true, false, not, ◌&&◌, Option, none, some, List, [], ◌∷◌, ◌==◌, string_eq,
  if◌then◌else◌,
}
use metawsm.Base.Text.{equal_fold}
use metawsm.Model.Plan.{OperatorRunState}
use metawsm.Store.Sql.{Error, Result, ok, err, World, M, pure, raise, ◌>>=◌, ◌>>◌, ignore, handle}
use metawsm.Store.Runs.{get_operator_run_state, upsert_operator_run_state}
use metawsm.Operator.{
  OperatorIntent, noop, escalate_guidance, escalate_blocked, auto_restart, auto_stop_stale,
  commit_ready, pr_ready, review_feedback_ready, OperatorRuleDecision, OperatorLlmResponse,
  OperatorMergedDecision, same_intent, merge_operator_decisions,
}
use metawsm.Operator.Rules.{
  WatchSnapshot, OperatorSessionEvidence, Settings, build_operator_rule_decision,
}

abbrev pub operator_event : OperatorIntent → String
operator_event escalate_guidance = "guidance_needed"
operator_event auto_stop_stale = "stale_candidate_verified"
operator_event auto_restart = "auto_restart_candidate"
operator_event escalate_blocked = "escalation_blocked"
operator_event commit_ready = "commit_ready"
operator_event pr_ready = "pr_ready"
operator_event review_feedback_ready = "review_feedback_ready"
operator_event _ = "operator_noop"

abbrev pub is_last : Option String → String → Bool
is_last none event = false
is_last (some last) event = last == event

-- What the loop remembers of the run: the last alert, and the rounds with unhealthy agents
pub record Memory : Type 0 where
  pub last_alert : Option String
  pub consecutive_unhealthy : ℕ

-- `consecutiveUnhealthyByRun` after the snapshot
abbrev pub count_unhealthy : WatchSnapshot → Memory → Memory
count_unhealthy s m = record m {
  consecutive_unhealthy =
      if s.has_unhealthy_agents && equal_fold s.run_status "running"
      then m.consecutive_unhealthy + 1
      else 0;
}

-- The state that is stored after a restart
abbrev pub restarted_state : String → ℕ → ℕ → Option OperatorRunState → OperatorRunState
restarted_state run_id now cooldown none = record {
  run_id = run_id;
  restart_attempts = 1;
  last_restart_at = some now;
  cooldown_until = some (now + cooldown);
  updated_at = now;
}
restarted_state run_id now cooldown (some state) = record state {
  restart_attempts = state.restart_attempts + 1;
  last_restart_at = some now;
  cooldown_until = some (now + cooldown);
  updated_at = now;
}

unfoldable pub count_restart : Settings → String → ℕ → M (Unit {0})
count_restart settings run_id now = do
  current ← get_operator_run_state run_id
  upsert_operator_run_state (restarted_state run_id now settings.restart_cooldown current)

-- What one interval brings for a run
pub record Round : Type 0 where
  pub probe : String → Result OperatorSessionEvidence
  pub reply : Option OperatorLlmResponse
  pub snapshot : WatchSnapshot
  pub updated_at : ℕ
  pub now : ℕ

abbrev keep_memory : Result Memory → Memory → Memory
keep_memory (ok after) m = after
keep_memory (err e) m = m

module _ (show_duration show_time : ℕ → String) (act : String → OperatorIntent → M (Unit {0})) where
  -- An error of the action, or of the count, is printed only.
  abbrev pub carry_out : Settings → String → ℕ → OperatorMergedDecision → M (Unit {0})
  carry_out settings run_id now merged =
      if not (merged.execute && not settings.dry_run)
      then pure tt
      else if same_intent merged.intent auto_restart
      then ignore (act run_id merged.intent >> count_restart settings run_id now)
      else ignore (act run_id merged.intent)

  -- What follows the merge of the decisions
  abbrev pub alert : Settings → String → ℕ → Memory → OperatorMergedDecision → M Memory
  alert settings run_id now m merged =
      if same_intent merged.intent noop
      then pure (record m { last_alert = none })
      else if is_last m.last_alert (operator_event merged.intent)
      then pure m
      else do
        carry_out settings run_id now merged
        pure (record m { last_alert = some (operator_event merged.intent) })

  -- The decision of the rules, or none after an error, which is printed
  abbrev pub caught : M OperatorRuleDecision → M (Option OperatorRuleDecision)
  caught m = handle (m >>= λ d. pure (some d)) (λ e. pure none)

  abbrev pub decide :
      Settings
      → String
      → ℕ
      → Memory
      → Option OperatorLlmResponse
      → Option OperatorRuleDecision
      → M Memory
  decide settings run_id now m reply none = pure m
  decide settings run_id now m reply (some rule) =
      alert settings run_id now m (merge_operator_decisions settings.llm_mode rule reply)

  -- The round of a run that is active, without the escalation summary and the notification
  unfoldable pub operator_round :
      (String → Result OperatorSessionEvidence)
      → Option OperatorLlmResponse
      → Settings
      → WatchSnapshot
      → ℕ
      → ℕ
      → Memory
      → M Memory
  operator_round probe reply settings s updated_at now m = do
    let counted = count_unhealthy s m
    rule ← caught (
        build_operator_rule_decision show_duration show_time probe settings s updated_at now
          counted.consecutive_unhealthy)
    decide settings s.run_id now counted reply rule

  -- The rounds of the loop, one after the other, each for any run
  unfoldable pub operator_rounds : Settings → List Round → (String → Memory) → World → World
  operator_rounds settings [] memory w = w
  operator_rounds settings (r ∷ rs) memory w =
      let id = r.snapshot.run_id in
      let (result, after) =
        operator_round r.probe r.reply settings r.snapshot r.updated_at r.now (memory id) w in
      operator_rounds settings rs
        (λ j. if j == id then keep_memory result (memory id) else memory j) after
