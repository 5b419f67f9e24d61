-- ===== src/Orchestrator/Blind.antt =====
-- The single steps of internal/orchestrator/service.go, for a view of the run tables that agents,
-- events, document states and freshness revisions do not change.
pub mod Attempts
use metawsm.Base.{ℕ, String, Bool, true, false}
use metawsm.Model.Run.{AgentStatus, HealthState}
use metawsm.Model.Plan.{RunSpec, Config, PlanStep, RunTables, DocSyncState, RunEvent}
use metawsm.Store.Sql.{Error}
use metawsm.Store.Runs.{
  update_agent_status, add_event, upsert_doc_sync_state, update_run_doc_freshness_revision,
}
use metawsm.Orchestrator.Frame.{Frame, frame_rules}
use metawsm.Orchestrator.Steps.{
  start_session, require_session, shell_step, align, tmux_step, sync_step, execute_single_step,
}

pub record IsBlind {B : Type 0} (view : RunTables → B) : Type 0 where
  pub to_agents :
      (run_id name workspace : String) (s : AgentStatus) (h : HealthState)
      → Frame view (update_agent_status run_id name workspace s h)
  pub to_events : (e : RunEvent) → Frame view (add_event e)
  pub to_syncs : (s : DocSyncState) → Frame view (upsert_doc_sync_state s)
  pub to_revisions :
      (run_id revision : String) → Frame view (update_run_doc_freshness_revision run_id revision)

module _ {B : Type 0} {view : RunTables → B} where
  Frame-require_session : (text missing : String) → Frame view (require_session text missing)
  Frame-require_session text missing = search frame_rules

  pub Frame-start_session :
      (session workdir command gone : String)
      → Frame view (start_session session workdir command gone)
  unfolding start_session
  Frame-start_session session workdir command gone =
      search (frame_rules, Frame-require_session) depth 14

  Frame-align : (spec : RunSpec) (step : PlanStep) (b : Bool) → Frame view (align spec step b)
  Frame-align spec step true = search frame_rules
  Frame-align spec step false = search frame_rules

  Frame-shell_step : (spec : RunSpec) (step : PlanStep) → Frame view (shell_step spec step)
  unfolding shell_step
  Frame-shell_step spec step = search (frame_rules, Frame-align) depth 14

module _ {B : Type 0} {view : RunTables → B} (blind : IsBlind view) where
  Frame-tmux_step :
      (spec : RunSpec) (cfg : Config) (step : PlanStep) → Frame view (tmux_step spec cfg step)
  unfolding tmux_step
  Frame-tmux_step spec cfg step =
      search (frame_rules, Frame-start_session, blind.to_agents) depth 14

  Frame-sync_step :
      (text_of : Error → String) (spec : RunSpec) (step : PlanStep)
      → Frame view (sync_step text_of spec step)
  unfolding sync_step
  Frame-sync_step text_of spec step =
      search (frame_rules, blind.to_syncs, blind.to_revisions) depth 16

  pub Frame-execute_single_step :
      (text_of : Error → String) (spec : RunSpec) (cfg : Config) (step : PlanStep)
      → Frame view (execute_single_step text_of spec cfg step)
  unfolding execute_single_step
  Frame-execute_single_step text_of spec cfg step =
      search (frame_rules, Frame-shell_step, Frame-tmux_step, Frame-sync_step) depth 14
