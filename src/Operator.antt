-- ===== src/Operator.antt =====
-- cmd/metawsm/operator_llm.go and cmd/metawsm/main.go: the decisions of the operator loop.
pub mod Rules
pub mod Rounds
use metawsm.Base.{
  String, Bool, true, false, not, ◌&&◌, ◌||◌, Option, none, some, ◌==◌, ◌≡◌, ◌⊎◌, arith, string_eq,
  if◌then◌else◌,
}
use metawsm.Base.Text.{trim_space, concat, equal_fold}

-- `other` is a text that no constant has. The empty intent is `unset`.
pub data OperatorIntent : Type 0 where
  noop escalate_guidance escalate_blocked auto_restart auto_stop_stale commit_ready pr_ready :
      OperatorIntent
  review_feedback_ready unset : OperatorIntent
  other : String → OperatorIntent

abbrev pub intent_text : OperatorIntent → String
intent_text noop = "noop"
intent_text escalate_guidance = "escalate_guidance"
intent_text escalate_blocked = "escalate_blocked"
intent_text auto_restart = "auto_restart"
intent_text auto_stop_stale = "auto_stop_stale"
intent_text commit_ready = "commit_ready"
intent_text pr_ready = "pr_ready"
intent_text review_feedback_ready = "review_feedback_ready"
intent_text unset = ""
intent_text (other text) = text

abbrev pub is_operator_intent_allowlisted : OperatorIntent → Bool
is_operator_intent_allowlisted unset = false
is_operator_intent_allowlisted (other _) = false
is_operator_intent_allowlisted _ = true

abbrev pub same_intent : OperatorIntent → OperatorIntent → Bool
same_intent a b = intent_text a == intent_text b

pub record OperatorRuleDecision : Type 0 where
  pub intent : OperatorIntent
  pub reason : String
  pub execute : Bool

pub record OperatorLlmResponse : Type 0 where
  pub intent : OperatorIntent
  pub reason : String

pub record OperatorMergedDecision : Type 0 where
  pub intent : OperatorIntent
  pub reason : String
  pub source : String
  pub execute : Bool
  pub llm_reply : Option OperatorLlmResponse

abbrev pub rule_decision : OperatorRuleDecision → OperatorMergedDecision
rule_decision rule = record {
  intent = rule.intent;
  reason = rule.reason;
  source = "rule";
  execute = rule.execute;
  llm_reply = none;
}

-- The branch of the mode `assist`
abbrev pub assisted : OperatorRuleDecision → Option OperatorLlmResponse → OperatorMergedDecision
assisted rule none = record (rule_decision rule) { execute = false }
assisted rule (some llm) =
    if not (same_intent llm.intent unset) && not (same_intent llm.intent rule.intent)
    then record (rule_decision rule) {
      execute = false;
      reason = trim_space (
          concat rule.reason (
            concat "; llm_suggested="
              (concat (intent_text llm.intent) (concat " reason=" llm.reason))));
      llm_reply = some llm;
    }
    else record (rule_decision rule) { execute = false }

-- The branch of the mode `auto`
abbrev pub automatic : OperatorRuleDecision → OperatorLlmResponse → OperatorMergedDecision
automatic rule llm =
    if same_intent rule.intent noop && same_intent llm.intent escalate_blocked
    then record {
      intent = llm.intent;
      reason = trim_space llm.reason;
      source = "llm";
      execute = false;
      llm_reply = some llm;
    }
    else if not (same_intent llm.intent rule.intent)
    then record (rule_decision rule) {
      reason = trim_space (concat rule.reason "; llm proposal rejected by policy gate");
      llm_reply = some llm;
    }
    else record (rule_decision rule) { llm_reply = some llm }

-- What a proposal does outside the modes `assist` and `off`
abbrev pub proposed : String → OperatorRuleDecision → OperatorLlmResponse → OperatorMergedDecision
proposed mode rule llm =
    if same_intent llm.intent unset
    then rule_decision rule
    else if same_intent rule.intent escalate_guidance
    then record (rule_decision rule) { execute = false; llm_reply = some llm }
    else if equal_fold mode "auto"
    then automatic rule llm
    else record (rule_decision rule) { llm_reply = some llm }

abbrev pub unassisted :
    String → OperatorRuleDecision → Option OperatorLlmResponse → OperatorMergedDecision
unassisted mode rule none = rule_decision rule
unassisted mode rule (some llm) =
    if equal_fold mode "off" then rule_decision rule else proposed mode rule llm

unfoldable pub merge_operator_decisions :
    String → OperatorRuleDecision → Option OperatorLlmResponse → OperatorMergedDecision
merge_operator_decisions mode rule llm =
    if equal_fold mode "assist" then assisted rule llm else unassisted mode rule llm

-- A decision that is carried out is the rule's own, whatever is proposed, and never in the mode
-- `assist`.
pub executed_decision_is_the_rules :
    (mode : String) (rule : OperatorRuleDecision) (llm : Option OperatorLlmResponse)
    → (merge_operator_decisions mode rule llm).execute ≡ true
    → (rule.execute ≡ true)
      × ((merge_operator_decisions mode rule llm).intent ≡ rule.intent)
      × (equal_fold mode "assist" ≡ false)
unfolding merge_operator_decisions
executed_decision_is_the_rules mode rule none h = ground arith
executed_decision_is_the_rules mode rule (some llm) h = ground arith

-- A proposal can change the intent in one way only: where the rule does nothing and the mode is
-- `auto`, an escalation of a blocked run is taken over, and it is not executed.
pub proposal_only_escalates :
    (mode : String) (rule : OperatorRuleDecision) (llm : OperatorLlmResponse)
    → let merged = merge_operator_decisions mode rule (some llm) in
      (merged.intent ≡ rule.intent)
      ⊎ ((same_intent rule.intent noop ≡ true)
          × (same_intent merged.intent escalate_blocked ≡ true)
          × (equal_fold mode "auto" ≡ true)
          × (merged.execute ≡ false))
unfolding merge_operator_decisions
proposal_only_escalates mode rule llm = ground arith
