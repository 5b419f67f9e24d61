-- ===== src/Orchestrator/Lawful/Checks.antt =====
-- The checks of Close and Guide (internal/orchestrator/service.go) move no run.
use metawsm.Base.{String, Option, none, some, List, [], ◌∷◌, string_eq}
use metawsm.Model.Run.{run_eq, agent_eq}
use metawsm.Model.Plan.{RunSpec, RunBrief, AgentRecord, DocSyncState}
use metawsm.Store.Runs.{get_run_brief, list_doc_sync_states}
use metawsm.Control.{ForumControlAgentState}
use metawsm.Orchestrator.Forum.{ControlForum, IsControlForum}
use metawsm.Orchestrator.Silent.{Silent}
use metawsm.Orchestrator.Frame.{
  Frame-Keeps, Frame-pure, Frame-raise, Frame-bind, Frame-query, Frame-call, frame_rules,
}
use metawsm.Orchestrator.Quiet.{Silent-get_run, Silent-get_agents, Silent-get_tickets}
use metawsm.Orchestrator.Lawful.Operations.{Silent-require}
use metawsm.Orchestrator.Close.{
  require_synced, check_ticket_docs, check_workspace_docs, ensure_workspace_doc_close_checks,
  check_clean, done_criteria_of, ensure_bootstrap_close_checks,
}
use metawsm.Orchestrator.Guidance.{target_of, first_ticket, ticket_of}

pub Silent-get_run_brief : (run_id : String) → Silent (get_run_brief run_id)
unfolding get_run_brief
Silent-get_run_brief run_id = Frame-query _

pub Silent-list_doc_sync_states : (run_id : String) → Silent (list_doc_sync_states run_id)
unfolding list_doc_sync_states
Silent-list_doc_sync_states run_id = Frame-query _

pub Silent-require_synced : (o : Option DocSyncState) → Silent (require_synced o)
Silent-require_synced none = Frame-raise _
Silent-require_synced (some s) = search frame_rules

pub Silent-check_ticket_docs :
    (states : List DocSyncState) (workspace root : String) (tickets : List String)
    → Silent (check_ticket_docs states workspace root tickets)
unfolding check_ticket_docs
Silent-check_ticket_docs states workspace root [] = Frame-pure tt
Silent-check_ticket_docs states workspace root (t ∷ tickets) =
    Frame-bind _ _ (Silent-require_synced _) (λ _. Frame-bind _ _ (Frame-call _) (λ paths.
      Frame-bind _ _ (Silent-require _ _)
        (λ _. Silent-check_ticket_docs states workspace root tickets)))

pub Silent-check_workspace_docs :
    (spec : RunSpec) (states : List DocSyncState) (tickets workspaces : List String)
    → Silent (check_workspace_docs spec states tickets workspaces)
unfolding check_workspace_docs
Silent-check_workspace_docs spec states tickets [] = Frame-pure tt
Silent-check_workspace_docs spec states tickets (w ∷ workspaces) =
    Frame-bind _ _ (Frame-call _) (λ path. Frame-bind _ _ (Frame-call _) (λ root.
      Frame-bind _ _ (Silent-check_ticket_docs states w root tickets) (λ _.
        Frame-bind _ _ (Frame-call _) (λ dirty.
          Frame-bind _ _ (Silent-require _ _)
            (λ _. Silent-check_workspace_docs spec states tickets workspaces)))))

pub Silent-ensure_workspace_doc_close_checks :
    (run_id : String) (spec : RunSpec) (workspaces tickets : List String)
    → Silent (ensure_workspace_doc_close_checks run_id spec workspaces tickets)
unfolding ensure_workspace_doc_close_checks
Silent-ensure_workspace_doc_close_checks run_id spec workspaces tickets =
    search (frame_rules, Silent-list_doc_sync_states, Silent-check_workspace_docs)

pub Silent-check_clean :
    (spec : RunSpec) (workspaces : List String) → Silent (check_clean spec workspaces)
unfolding check_clean
Silent-check_clean spec [] = Frame-pure tt
Silent-check_clean spec (w ∷ workspaces) = Frame-bind _ _ (Frame-call _) (λ path.
    Frame-bind _ _ (Frame-call _)
      (λ dirty. Frame-bind _ _ (Silent-require _ _) (λ _. Silent-check_clean spec workspaces)))

pub Silent-done_criteria_of : (o : Option RunBrief) → Silent (done_criteria_of o)
Silent-done_criteria_of none = Frame-raise _
Silent-done_criteria_of (some b) = Frame-pure _

pub Silent-target_of : (o : Option ForumControlAgentState) → Silent (target_of o)
Silent-target_of none = Frame-raise _
Silent-target_of (some s) = Frame-pure s

pub Silent-first_ticket : (tickets : List String) → Silent (first_ticket tickets)
Silent-first_ticket [] = Frame-raise _
Silent-first_ticket (t ∷ ts) = Frame-pure _

pub Silent-ticket_of : (run_id ticket : String) → Silent (ticket_of run_id ticket)
Silent-ticket_of run_id ticket =
    search (frame_rules, Silent-get_tickets, Silent-first_ticket) depth 10

module _ (forum : ControlForum) (law : IsControlForum forum) where
  pub Silent-control_states :
      (run_id : String) (agents : List AgentRecord) → Silent (forum.control_states run_id agents)
  Silent-control_states run_id agents = Frame-Keeps _ (λ t. law.states_keep t run_id agents)

  pub Silent-append_answer :
      (run_id ticket agent answer : String)
      → Silent (forum.append_answer run_id ticket agent answer)
  Silent-append_answer run_id ticket agent answer =
      Frame-Keeps _ (λ t. law.answer_keeps t run_id ticket agent answer)

  pub Silent-ensure_bootstrap_close_checks :
      (run_id : String) → Silent (ensure_bootstrap_close_checks forum run_id)
  unfolding ensure_bootstrap_close_checks
  Silent-ensure_bootstrap_close_checks run_id =
      search
        (
          frame_rules, Silent-get_run, Silent-get_run_brief, Silent-done_criteria_of,
          Silent-require, Silent-get_agents, Silent-control_states,
        )
        depth 20
