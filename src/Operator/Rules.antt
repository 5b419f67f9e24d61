-- ===== src/Operator/Rules.antt =====
-- `buildOperatorRuleDecision` of cmd/metawsm/main.go. Times and durations are counted in
-- nanoseconds; `show_duration` and `show_time` print them.
use metawsm.Base.{
  ℕ, ◌-◌, String, Bool, true, false, not, ◌&&◌, Option, none, some, List, [], ◌∷◌, ltb, leb, ◌==◌,
  nat_eq, string_eq, if◌then◌else◌,
}
use Prim.Native.Nat.{◌%◌}
use metawsm.Base.Text.{trim_space, to_lower, concat, equal_fold}
use metawsm.Base.Words.{decimal}
use metawsm.Model.Plan.{OperatorRunState}
use metawsm.Store.Sql.{Result, ok, err, M, pure, raise, ◌>>=◌}
use metawsm.Store.Runs.{get_operator_run_state}
use metawsm.Operator.{
  OperatorIntent, noop, escalate_guidance, escalate_blocked, auto_restart, auto_stop_stale,
  commit_ready, pr_ready, review_feedback_ready, OperatorRuleDecision,
}

-- `watchSnapshot` in the fields that the rules read; an issue is its session.
pub record WatchSnapshot : Type 0 where
  pub run_id : String
  pub run_status : String
  pub has_guidance : Bool
  pub has_unhealthy_agents : Bool
  pub has_dirty_diffs : Bool
  pub draft_pull_requests : ℕ
  pub queued_review_feedback : ℕ
  pub unhealthy_sessions : List String

pub record OperatorSessionEvidence : Type 0 where
  pub has_session : Bool
  pub last_activity : Option ℕ
  pub exit_code : Option ℕ

-- The settings of the operator that the rules read
pub record Settings : Type 0 where
  pub stale_age : ℕ
  pub runtime_recent_window : ℕ
  pub unhealthy_confirmations : ℕ
  pub restart_budget : ℕ
  pub restart_cooldown : ℕ
  pub git_pr_mode : String
  pub review_feedback_enabled : Bool
  pub review_feedback_mode : String
  pub llm_mode : String
  pub dry_run : Bool

abbrev pub decision : OperatorIntent → String → Bool → OperatorRuleDecision
decision intent reason execute = record { intent = intent; reason = reason; execute = execute }

abbrev pub mode_of : String → String
mode_of given = if trim_space (to_lower given) == "" then "assist" else trim_space (to_lower given)

-- Whether a time lies at most so long back
abbrev is_recent : ℕ → ℕ → Option ℕ → Bool
is_recent now window none = false
is_recent now window (some t) = leb (now - t) window

abbrev is_clean_exit : Option ℕ → Bool
is_clean_exit none = true
is_clean_exit (some code) = code == 0

module _ (show_duration show_time : ℕ → String) where
  unfoldable pub classify_stale_run_candidate : WatchSnapshot → ℕ → ℕ → ℕ → Bool × String
  classify_stale_run_candidate s updated_at now stale_age =
      if stale_age == 0
      then (false, "")
      else if s.has_guidance
      then (false, "")
      else if not s.has_unhealthy_agents
      then (false, "")
      else if ltb (now - updated_at) stale_age
      then (false, "")
      else (
        true,
        concat "run appears stale (updated " (
            concat (show_duration (now - updated_at - (now - updated_at) % 1000000000))
              (concat " ago, threshold=" (concat (show_duration stale_age) ")"))),
      )

  -- The verdict on one session, if it ends the loop
  abbrev refute : String → ℕ → ℕ → OperatorSessionEvidence → Option String
  refute session now window e =
      if not e.has_session
      then none
      else if is_recent now window e.last_activity
      then some (
          concat "session "
            (concat session (concat " has recent activity within " (show_duration window))))
      else if is_clean_exit e.exit_code
      then some (concat "session " (concat session " still appears running"))
      else none

  abbrev pub probed :
      Result OperatorSessionEvidence
      → (OperatorSessionEvidence → Option String)
      → Result (Bool × String)
      → Result (Bool × String)
  probed (err e) verdict rest = err e
  probed (ok evidence) verdict rest = elim (verdict evidence) [
    | none ↦ rest
    | some reason ↦ ok (false, reason)
  ]

  -- The loop over the sessions, with whether one has been probed
  unfoldable pub verify_sessions :
      (String → Result OperatorSessionEvidence)
      → ℕ
      → ℕ
      → Bool
      → List String
      → Result (Bool × String)
  verify_sessions probe now window seen [] =
      if seen
      then ok (true, "no active tmux sessions or recent activity detected")
      else ok (false, "no agent sessions available for runtime verification")
  verify_sessions probe now window seen (s ∷ ss) =
      if trim_space s == ""
      then verify_sessions probe now window seen ss
      else probed (probe (trim_space s)) (refute (trim_space s) now window)
          (verify_sessions probe now window true ss)

  abbrev window_of : ℕ → ℕ
  window_of w = if w == 0 then 300000000000 else w

  unfoldable pub verify_stale_runtime_evidence :
      (String → Result OperatorSessionEvidence) → WatchSnapshot → ℕ → ℕ → Result (Bool × String)
  verify_stale_runtime_evidence probe s now window = elim s.unhealthy_sessions [
    | [] ↦ ok (false, "no unhealthy agents available to verify")
    | _ ↦ verify_sessions probe now (window_of window) false s.unhealthy_sessions
  ]

  abbrev pub stale_decision : String → Result (Bool × String) → M OperatorRuleDecision
  stale_decision reason (err e) = raise e
  stale_decision reason (ok (true, verified)) =
      pure (decision auto_stop_stale (concat reason (concat "; " verified)) true)
  stale_decision reason (ok (false, verified)) =
      pure (decision noop (concat reason (concat "; " verified)) false)

  abbrev is_before : ℕ → Option ℕ → Bool
  is_before now none = false
  is_before now (some t) = ltb now t

  abbrev show_until : Option ℕ → String
  show_until none = ""
  show_until (some t) = show_time t

  -- The decision on a run whose agents are known to be unhealthy
  abbrev pub restart_decision : Settings → ℕ → Option OperatorRunState → OperatorRuleDecision
  restart_decision settings now none =
      decision auto_restart "unhealthy state corroborated and restart budget available" true
  restart_decision settings now (some state) =
      if leb settings.restart_budget state.restart_attempts
      then decision escalate_blocked
          (concat "restart budget exhausted (" (
            concat (decimal state.restart_attempts)
              (concat "/" (concat (decimal settings.restart_budget) ")"))))
          false
      else if is_before now state.cooldown_until
      then decision noop (concat "restart cooldown active until " (show_until state.cooldown_until))
          false
      else decision auto_restart "unhealthy state corroborated and restart budget available" true

  -- The decision on a run that is neither stale nor unhealthy
  unfoldable pub completed_decision : Settings → WatchSnapshot → OperatorRuleDecision
  completed_decision settings s =
      let completed = equal_fold s.run_status "completed" in
      let mode = mode_of settings.git_pr_mode in
      let review = mode_of settings.review_feedback_mode in
      if completed && not (mode == "off") && s.has_dirty_diffs
      then decision commit_ready
          "run completed with dirty repository diffs; commit workflow is ready" (mode == "auto")
      else if completed && not (mode == "off") && ltb 0 s.draft_pull_requests
      then decision pr_ready
          (concat "run has " (
            concat (decimal s.draft_pull_requests)
              " draft pull request record(s); PR creation is ready"))
          (mode == "auto")
      else if completed && settings.review_feedback_enabled && ltb 0 s.queued_review_feedback
      then decision review_feedback_ready
          (concat "run has " (
            concat (decimal s.queued_review_feedback)
              " queued review feedback item(s); review dispatch is ready"))
          (review == "auto")
      else decision noop "no deterministic action required" false

  unfoldable pub build_operator_rule_decision :
      (String → Result OperatorSessionEvidence)
      → Settings
      → WatchSnapshot
      → ℕ
      → ℕ
      → ℕ
      → M OperatorRuleDecision
  build_operator_rule_decision probe settings s updated_at now consecutive =
      let stale = classify_stale_run_candidate s updated_at now settings.stale_age in
      if s.has_guidance
      then pure (decision escalate_guidance "operator input is required" false)
      else if stale.0
      then stale_decision stale.1
          (verify_stale_runtime_evidence probe s now settings.runtime_recent_window)
      else if not (s.has_unhealthy_agents && equal_fold s.run_status "running")
      then pure (completed_decision settings s)
      else if ltb consecutive settings.unhealthy_confirmations
      then pure (
          decision noop
            (concat "awaiting corroboration (" (
              concat (decimal consecutive) (
                concat "/"
                  (concat (decimal settings.unhealthy_confirmations) " unhealthy intervals)"))))
            false)
      else do state ← get_operator_run_state s.run_id; pure (restart_decision settings now state)
