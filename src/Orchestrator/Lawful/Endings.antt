-- ===== src/Orchestrator/Lawful/Endings.antt =====
-- Closing a run, answering its guidance and reading its agents' messages
-- (internal/orchestrator/service.go): their transitions.
use metawsm.Base.{
  String, Bool, true, false, Option, none, some, List, [], ◌∷◌, subst, ◌==◌, string_eq,
  if◌then◌else◌, Bool-cases, inl, inr,
}
use metawsm.Model.Run.{RunStatus, run_eq, agent_eq, run_beq_iff}
use metawsm.Model.Plan.{RunSpec, AgentRecord}
use metawsm.Store.Sql.{Error, pure, ◌>>=◌}
use metawsm.Store.Sql.Triple.{Triple, Triple-pure, Triple-raise, Triple-bind}
use metawsm.Orchestrator.Forum.{ControlForum, IsControlForum}
use metawsm.Orchestrator.Frame.{Frame-pure, frame_rules}
use metawsm.Orchestrator.Quiet.{Silent-get_agents, Silent-get_tickets, Silent-add_event}
use metawsm.Orchestrator.History.{MayEnter, Traced, On, Triple-Silent, Traced-Silent}
use metawsm.Orchestrator.Lawful.{
  Lawful, Lawful-silent, Lawful-then, Lawful-before, Lawful-move, Lawful-move_then, Lawful-get_run,
  Lawful-if_status, Lawful-ignore, Lawful-fail, Lawful-given, Triple-handle-Silent,
}
use metawsm.Orchestrator.Steps.{transition_run}
use metawsm.Orchestrator.Runs.{require}
use metawsm.Orchestrator.Lawful.Operations.{Silent-require, moves}
use metawsm.Orchestrator.Close.{
  shell_or_fail, merge_workspaces, close_tickets, close_completed, close,
}
use metawsm.Orchestrator.Guidance.{
  find_failed, sync_status, guide, sync_states, sync_bootstrap_signals,
}
use metawsm.Orchestrator.Lawful.Checks.{
  Silent-ensure_workspace_doc_close_checks, Silent-check_clean, Silent-target_of, Silent-ticket_of,
  Silent-control_states, Silent-append_answer, Silent-ensure_bootstrap_close_checks,
}

module _ (allows : String → Option RunStatus → Type 0) where
  module _ (text_of : Error → String) where
    Triple-shell_or_fail :
        (run_id command : String)
        → MayEnter allows run_id RunStatus.closing RunStatus.failed
        → Triple
            (On allows run_id RunStatus.closing)
            (shell_or_fail text_of run_id command)
            (λ _. On allows run_id RunStatus.closing)
            (Traced allows)
    Triple-shell_or_fail run_id command may =
        Triple-handle-Silent allows _ _ run_id RunStatus.closing (search frame_rules) (λ e.
          Lawful-fail allows _ e _ _ (Lawful-ignore allows _ _ (Lawful-move allows _ _ _ _ may)))

    Triple-unless_dry :
        (dry_run : Bool) (run_id command : String)
        → MayEnter allows run_id RunStatus.closing RunStatus.failed
        → Triple
            (On allows run_id RunStatus.closing)
            (if dry_run then pure tt else shell_or_fail text_of run_id command)
            (λ _. On allows run_id RunStatus.closing)
            (Traced allows)
    Triple-unless_dry true run_id command may =
        Triple-Silent allows _ run_id RunStatus.closing (Frame-pure tt)
    Triple-unless_dry false run_id command may = Triple-shell_or_fail run_id command may

    Triple-merge_workspaces :
        (dry_run : Bool) (run_id : String) (workspaces : List String)
        → MayEnter allows run_id RunStatus.closing RunStatus.failed
        → Triple
            (On allows run_id RunStatus.closing)
            (merge_workspaces text_of dry_run run_id workspaces)
            (λ _. On allows run_id RunStatus.closing)
            (Traced allows)
    unfolding merge_workspaces
    Triple-merge_workspaces dry_run run_id [] may =
        Triple-Silent allows _ run_id RunStatus.closing (Frame-pure tt)
    Triple-merge_workspaces dry_run run_id (w ∷ workspaces) may =
        Triple-bind _ _ (λ _. On allows run_id RunStatus.closing) _
          (Triple-unless_dry dry_run run_id _ may)
          (λ _. Triple-merge_workspaces dry_run run_id workspaces may)

    Triple-close_tickets :
        (dry_run : Bool) (run_id entry : String) (tickets : List String)
        → MayEnter allows run_id RunStatus.closing RunStatus.failed
        → Triple
            (On allows run_id RunStatus.closing)
            (close_tickets text_of dry_run run_id entry tickets)
            (λ _. On allows run_id RunStatus.closing)
            (Traced allows)
    unfolding close_tickets
    Triple-close_tickets dry_run run_id entry [] may =
        Triple-Silent allows _ run_id RunStatus.closing (Frame-pure tt)
    Triple-close_tickets dry_run run_id entry (t ∷ tickets) may =
        Triple-bind _ _ (λ _. On allows run_id RunStatus.closing) _
          (Triple-unless_dry dry_run run_id _ may)
          (λ _. Triple-close_tickets dry_run run_id entry tickets may)

    module _ (forum : ControlForum) (law : IsControlForum forum) where
      -- What follows the transition to `closing`
      closing :
          (dry_run : Bool) (run_id entry : String) (workspaces tickets : List String)
          → MayEnter allows run_id RunStatus.closing RunStatus.failed
          → MayEnter allows run_id RunStatus.closing RunStatus.closed
          → Lawful allows (On allows run_id RunStatus.closing) (
              merge_workspaces text_of dry_run run_id workspaces >>= λ _.
              close_tickets text_of dry_run run_id entry tickets >>= λ _.
              transition_run run_id RunStatus.closing RunStatus.closed "close completed")
      closing dry_run run_id entry workspaces tickets may_fail may_close =
          Triple-bind _ _ (λ _. On allows run_id RunStatus.closing) (λ _. Traced allows)
            (Triple-merge_workspaces dry_run run_id workspaces may_fail)
            (λ _.
              Triple-bind _ _ (λ _. On allows run_id RunStatus.closing) (λ _. Traced allows)
                (Triple-close_tickets dry_run run_id entry tickets may_fail)
                (λ _. Lawful-move allows run_id _ _ _ may_close))

      close_completed-Lawful :
          (dry_run : Bool) (entry run_id : String) (spec : RunSpec)
          → MayEnter allows run_id RunStatus.completed RunStatus.closing
          → MayEnter allows run_id RunStatus.closing RunStatus.failed
          → MayEnter allows run_id RunStatus.closing RunStatus.closed
          → Lawful allows
              (On allows run_id RunStatus.completed)
              (close_completed text_of forum dry_run entry run_id spec)
      unfolding close_completed
      close_completed-Lawful dry_run entry run_id spec may_start may_fail may_close =
          Lawful-then allows _ _ run_id _ (Silent-get_agents run_id) (λ agents.
            Lawful-then allows _ _ run_id _ (Silent-get_tickets run_id) (λ tickets.
              Lawful-then allows _ _ run_id _
                (Silent-ensure_workspace_doc_close_checks run_id spec _ tickets)
                (λ _. Lawful-then allows _ _ run_id _ (Silent-check_clean spec _) (λ _.
                  Lawful-then allows _ _ run_id _
                    (search (frame_rules, Silent-ensure_bootstrap_close_checks))
                    (λ _.
                      Lawful-move_then allows run_id _ _ _ _ may_start
                        (λ _. closing dry_run run_id _ _ tickets may_fail may_close))))))

      -- The moves are asked for only where a completed run is allowed.
      pub close-Lawful :
          (dry_run : Bool) (entry run_id : String)
          → (allows run_id (some RunStatus.completed)
              → MayEnter allows run_id RunStatus.completed RunStatus.closing
                × MayEnter allows run_id RunStatus.closing RunStatus.failed
                × MayEnter allows run_id RunStatus.closing RunStatus.closed)
          → Lawful allows (Traced allows) (close text_of forum dry_run entry run_id)
      unfolding close
      close-Lawful dry_run entry run_id may = Lawful-get_run allows run_id _ (λ row.
          Lawful-if_status allows run_id row.status RunStatus.completed _ _
            (Lawful-given allows _ run_id RunStatus.completed (λ a.
              let (may_start, may_fail, may_close) = may a in
              close_completed-Lawful dry_run entry run_id row.spec may_start may_fail may_close))
            (search (moves, frame_rules)))

  Triple-require_status :
      (run_id : String) (s t : RunStatus) (text : String)
      → Triple
          (On allows run_id s)
          (require (s == t) text)
          (λ _. On allows run_id t)
          (Traced allows)
  Triple-require_status run_id s t text = elim (Bool-cases (s == t)) [
    | inl e ↦ rw e (
        subst (λ u. Triple (On allows run_id s) (pure tt) (λ _. On allows run_id u) (Traced allows))
          ((run_beq_iff s t).0 e) (Triple-pure tt (λ _. On allows run_id s) (λ w p. p)))
    | inr e ↦ rw e (Triple-raise _ (λ _. On allows run_id t) (λ w p. p.0))
  ]

  module _ (forum : ControlForum) (law : IsControlForum forum) where
    pub guide-Lawful :
        (run_id answer : String)
        → MayEnter allows run_id RunStatus.awaiting_guidance RunStatus.running
        → Lawful allows (Traced allows) (guide forum run_id answer)
    unfolding guide
    guide-Lawful run_id answer may =
        Lawful-before allows (Traced allows) _ _ (Traced-Silent allows _ (Silent-require _ _)) (λ _.
          Lawful-get_run allows run_id _ (λ row.
            Triple-bind _ _ (λ _. On allows run_id RunStatus.awaiting_guidance) (λ _. Traced allows)
              (Triple-require_status run_id row.status RunStatus.awaiting_guidance _)
              (λ _.
                search
                  (
                    moves, Silent-get_agents, Silent-control_states, Silent-target_of,
                    Silent-ticket_of, Silent-append_answer, Silent-add_event, frame_rules,
                  )
                  depth 20)))

    sync_status-Lawful :
        (run_id : String) (s : RunStatus) (is_pending complete : Bool)
        → MayEnter allows run_id RunStatus.running RunStatus.awaiting_guidance
        → MayEnter allows run_id RunStatus.awaiting_guidance RunStatus.running
        → MayEnter allows run_id RunStatus.running RunStatus.completed
        → Lawful allows (On allows run_id s) (sync_status run_id s is_pending complete)
    unfolding sync_status
    sync_status-Lawful run_id RunStatus.running true complete may_wait may_run may_end =
        Lawful-move allows run_id _ _ _ may_wait
    sync_status-Lawful run_id RunStatus.running false true may_wait may_run may_end =
        Lawful-move allows run_id _ _ _ may_end
    sync_status-Lawful run_id RunStatus.awaiting_guidance false false may_wait may_run may_end =
        Lawful-move allows run_id _ _ _ may_run
    sync_status-Lawful run_id RunStatus.awaiting_guidance false true may_wait may_run may_end =
        Lawful-move_then allows run_id _ _ _ _ may_run
          (λ _. Lawful-move allows run_id _ _ _ may_end)
    sync_status-Lawful run_id s true complete may_wait may_run may_end =
        Lawful-silent allows _ run_id s (Frame-pure tt)
    sync_status-Lawful run_id s false true may_wait may_run may_end =
        Lawful-silent allows _ run_id s (Frame-pure tt)
    sync_status-Lawful run_id s false false may_wait may_run may_end =
        Lawful-silent allows _ run_id s (Frame-pure tt)

    sync_states-Lawful :
        (run_id : String) (s : RunStatus) (agents : List AgentRecord) (failed : Option AgentRecord)
        → MayEnter allows run_id RunStatus.running RunStatus.awaiting_guidance
        → MayEnter allows run_id RunStatus.awaiting_guidance RunStatus.running
        → MayEnter allows run_id RunStatus.running RunStatus.completed
        → MayEnter allows run_id s RunStatus.failed
        → Lawful allows (On allows run_id s) (sync_states forum run_id s agents failed)
    sync_states-Lawful run_id s agents none may_wait may_run may_end may_fail =
        search (moves, Silent-control_states, sync_status-Lawful)
    sync_states-Lawful run_id s agents (some a) may_wait may_run may_end may_fail =
        Lawful-move allows run_id s _ _ may_fail

    pub sync_bootstrap_signals-Lawful :
        (run_id : String) (s : RunStatus) (agents : List AgentRecord)
        → MayEnter allows run_id RunStatus.running RunStatus.awaiting_guidance
        → MayEnter allows run_id RunStatus.awaiting_guidance RunStatus.running
        → MayEnter allows run_id RunStatus.running RunStatus.completed
        → MayEnter allows run_id RunStatus.running RunStatus.failed
        → MayEnter allows run_id RunStatus.awaiting_guidance RunStatus.failed
        → Lawful allows (On allows run_id s) (sync_bootstrap_signals forum run_id s agents)
    unfolding sync_bootstrap_signals
    sync_bootstrap_signals-Lawful run_id RunStatus.running agents w r e f g =
        sync_states-Lawful run_id _ agents (find_failed agents) w r e f
    sync_bootstrap_signals-Lawful run_id RunStatus.awaiting_guidance agents w r e f g =
        sync_states-Lawful run_id _ agents (find_failed agents) w r e g
    sync_bootstrap_signals-Lawful run_id s agents w r e f g =
        Lawful-silent allows _ run_id s (Frame-pure tt)
