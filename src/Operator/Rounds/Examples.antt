-- ===== src/Operator/Rounds/Examples.antt =====
-- Concrete decisions and rounds of the operator (cmd/metawsm).
use metawsm.Base.{ℕ, ◌≡◌, ◌⊎◌, refl, String, Bool, true, false, none, some, List, [], ◌∷◌, arith}
use metawsm.Base.Text.{equal_fold, to_lower}
use metawsm.Store.Schema.{empty_tables}
use metawsm.Store.Sql.{World, M, pure, quiet}
use metawsm.Orchestrator.Frame.{Frame-pure}
use metawsm.Operator.{
  OperatorIntent, noop, auto_restart, escalate_blocked, OperatorRuleDecision, OperatorLlmResponse,
  same_intent, merge_operator_decisions, executed_decision_is_the_rules, proposal_only_escalates,
}
use metawsm.Operator.Rules.{WatchSnapshot, OperatorSessionEvidence, Settings}
use metawsm.Operator.Rounds.{Memory, Round, operator_rounds}
use metawsm.Operator.Rounds.Room.{WithinBudget}
use metawsm.Operator.Rounds.Budget.{restarts_stay-WithinBudget}

abbrev restart_rule : OperatorRuleDecision
restart_rule = record { intent = auto_restart; reason = "unhealthy"; execute = true }

abbrev idle_rule : OperatorRuleDecision
idle_rule = record { intent = noop; reason = "nothing to do"; execute = false }

abbrev blocked_reply : OperatorLlmResponse
blocked_reply = record { intent = escalate_blocked; reason = "it loops" }

executes : (merge_operator_decisions "auto" restart_rule (some blocked_reply)).execute ≡ true
unfolding merge_operator_decisions to_lower
executes = refl

executed_decision_is_the_rules_example :
    (restart_rule.execute ≡ true)
    × ((merge_operator_decisions "auto" restart_rule (some blocked_reply)).intent
        ≡ restart_rule.intent)
    × (equal_fold "auto" "assist" ≡ false)
executed_decision_is_the_rules_example =
    executed_decision_is_the_rules "auto" restart_rule (some blocked_reply) executes

escalates :
    same_intent
      (merge_operator_decisions "auto" idle_rule (some blocked_reply)).intent
      escalate_blocked
    ≡ true
unfolding merge_operator_decisions to_lower
escalates = refl

proposal_only_escalates_example :
    ((merge_operator_decisions "auto" idle_rule (some blocked_reply)).intent ≡ idle_rule.intent)
    ⊎ ((same_intent idle_rule.intent noop ≡ true)
        × (same_intent
              (merge_operator_decisions "auto" idle_rule (some blocked_reply)).intent
              escalate_blocked
            ≡ true)
        × (equal_fold "auto" "auto" ≡ true)
        × ((merge_operator_decisions "auto" idle_rule (some blocked_reply)).execute ≡ false))
proposal_only_escalates_example = proposal_only_escalates "auto" idle_rule blocked_reply

abbrev settings : Settings
settings = record {
  stale_age = 0;
  runtime_recent_window = 0;
  unhealthy_confirmations = 1;
  restart_budget = 2;
  restart_cooldown = 60;
  git_pr_mode = "assist";
  review_feedback_enabled = false;
  review_feedback_mode = "";
  llm_mode = "off";
  dry_run = false;
}

abbrev unhealthy : WatchSnapshot
unhealthy = record {
  run_id = "r1";
  run_status = "running";
  has_guidance = false;
  has_unhealthy_agents = true;
  has_dirty_diffs = false;
  draft_pull_requests = 0;
  queued_review_feedback = 0;
  unhealthy_sessions = "coder-r1" ∷ [];
}

abbrev no_session : OperatorSessionEvidence
no_session = record { has_session = false; last_activity = none; exit_code = none }

abbrev round : ℕ → Round
round now = record {
  probe = λ session. metawsm.Store.Sql.ok no_session;
  reply = none;
  snapshot = unhealthy;
  updated_at = 0;
  now = now;
}

abbrev start : String → Memory
start run_id = record { last_alert = none; consecutive_unhealthy = 0 }

abbrev show : ℕ → String
show n = "t"

abbrev act : String → OperatorIntent → M (Unit {0})
act run_id intent = pure tt

start-WithinBudget : WithinBudget 2 (quiet empty_tables 2).tables
unfolding empty_tables metawsm.Base.Rows.find
start-WithinBudget j = omega arith

restarts_stay-WithinBudget_example :
    WithinBudget 2
      (operator_rounds show show act settings
        (round 1 ∷ round 100 ∷ [])
        start
        (quiet empty_tables 2)).tables
restarts_stay-WithinBudget_example =
    restarts_stay-WithinBudget show show act (λ run_id intent. Frame-pure tt) settings
      (round 1 ∷ round 100 ∷ []) start (quiet empty_tables 2) (omega arith) start-WithinBudget
