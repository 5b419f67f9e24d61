-- ===== src/Orchestrator/Operations/Examples.antt =====
-- Concrete runs of the operations of internal/orchestrator/service.go.
use metawsm.Base.{
  String, Bool, true, false, Option, none, some, List, [], ◌∷◌, ◌++◌, ◌==◌, string_eq, ◌≡◌, refl,
}
use metawsm.Model.Run.{RunStatus}
use metawsm.Model.Plan.{RunSpec, Config, AgentRecord}
use metawsm.Control.{Agent, forum_control_states_for_run}
use metawsm.Store.Schema.{empty_tables}
use metawsm.Store.Sql.{Error, Result, ok, err, World, M, pure, raise, quiet}
use metawsm.Store.Sql.Triple.{Keeps, Keeps-pure, Keeps-raise}
use metawsm.Orchestrator.Forum.{ControlForum, IsControlForum}
use metawsm.Orchestrator.Silent.{status_at}
use metawsm.Orchestrator.Operations.{Operation, op_run, op_close, op_stop, perform, perform_all}
use metawsm.Orchestrator.Operations.Moves.{operation_moves}
use metawsm.Orchestrator.Operations.Leave.{may_leave}
use metawsm.Orchestrator.Operations.Ending.{is_closed, IsClose, closed_run_was_completed}

abbrev agents_of : List AgentRecord → List Agent
agents_of [] = []
agents_of (a ∷ rest) = record { name = a.name; workspace_name = a.workspace_name } ∷ agents_of rest

abbrev from_result : {A : Type 0} → Result A → M A
from_result (ok a) = pure a
from_result (err e) = raise e

-- A forum without posts
abbrev empty_forum : ControlForum
empty_forum = record {
  control_states = λ run_id agents. from_result (
      forum_control_states_for_run (λ body. none) (λ thread_id. ok []) (λ run. ok []) run_id
        (agents_of agents));
  append_answer = λ run_id ticket agent answer. pure tt;
}

from_result-Keeps : {A : Type 0} (P : _ → Type 0) (r : Result A) → Keeps P (from_result r)
from_result-Keeps P (ok a) = Keeps-pure a
from_result-Keeps P (err e) = Keeps-raise e

empty_forum-IsControlForum : IsControlForum empty_forum
empty_forum-IsControlForum = record {
  states_keep = λ t run_id agents. from_result-Keeps _ _;
  answer_keeps = λ t run_id ticket agent answer. Keeps-pure tt;
}

abbrev spec : RunSpec
spec = record {
  run_id = "r1";
  mode = "run";
  tickets = "T-1" ∷ [];
  repos = "app" ∷ [];
  doc_repo = "app";
  doc_home_repo = "app";
  doc_authority_mode = "workspace_active";
  doc_seed_mode = "none";
  doc_freshness_revision = "";
  base_branch = "main";
  workspace_strategy = "reuse";
  agents = record { name = "coder"; command = "codex exec" } ∷ [];
  policy_path = "";
  dry_run = false;
}

abbrev cfg : Config
cfg = record {
  step_retries = 1;
  session_pattern = "{agent}-{workspace}";
  branch_prefix = "task";
  default_strategy = "create";
  base_branch = "main";
  authority_mode = "";
  seed_mode = "";
}

abbrev text_of : Error → String
text_of e = "error"

abbrev operations : List Operation
operations = op_run spec cfg none ∷ op_close false "" "r1" ∷ op_stop "r1" ∷ []

fresh : is_closed (status_at "r1" (quiet empty_tables 2).tables.runs) ≡ false
unfolding status_at empty_tables metawsm.Base.Rows.find
fresh = refl

closed :
    status_at "r1" (perform_all text_of empty_forum operations (quiet empty_tables 2)).tables.runs
    ≡ some RunStatus.closed
unfolding metawsm.Store.Runs.insert_run metawsm.Store.Runs.create_run metawsm.Store.Runs.remove_step
    metawsm.Store.Runs.step_statements metawsm.Store.Sql.apply_all metawsm.Store.Sql.run_each
    metawsm.Store.Sql.exec_each metawsm.Store.Runs.save_steps metawsm.Store.Runs.save_tickets
    metawsm.Store.Runs.ticket_statements metawsm.Store.Runs.remove_agent
    metawsm.Store.Runs.upsert_agent metawsm.Store.Runs.update_run_status
    metawsm.Store.Runs.update_steps metawsm.Store.Runs.update_step_status
    metawsm.Store.Runs.update_agents metawsm.Store.Runs.update_agent_status
    metawsm.Store.Runs.add_event metawsm.Store.Runs.get_run metawsm.Store.Runs.select_steps
    metawsm.Store.Runs.get_steps metawsm.Store.Runs.select_agents metawsm.Store.Runs.get_agents
    metawsm.Store.Runs.select_tickets metawsm.Store.Runs.get_tickets
    metawsm.Orchestrator.Names.shell_quote metawsm.Orchestrator.Names.workspace_name_for
    metawsm.Orchestrator.Names.workspace_create_step metawsm.Orchestrator.Plan.workspace_command
    metawsm.Orchestrator.Plan.agent_steps metawsm.Orchestrator.Plan.context_steps
    metawsm.Orchestrator.Plan.ticket_steps metawsm.Orchestrator.Plan.steps_from
    metawsm.Orchestrator.Plan.build_plan metawsm.Orchestrator.Steps.transition_run
    metawsm.Orchestrator.Steps.seed_from metawsm.Orchestrator.Steps.seed_agents
    metawsm.Orchestrator.Steps.start_session metawsm.Orchestrator.Steps.shell_step
    metawsm.Orchestrator.Steps.tmux_step metawsm.Orchestrator.Steps.execute_single_step
    metawsm.Orchestrator.Steps.attempt_step metawsm.Orchestrator.Steps.attempt_steps
    metawsm.Orchestrator.Steps.execute_step metawsm.Orchestrator.Steps.execute_steps
    metawsm.Orchestrator.Runs.prepare_run metawsm.Orchestrator.Runs.stop
    metawsm.Orchestrator.Runs.execute_plan metawsm.Orchestrator.Runs.start_plan
    metawsm.Orchestrator.Runs.run_spec metawsm.Orchestrator.Close.workspace_names_from_agents
    metawsm.Orchestrator.Close.ensure_workspace_doc_close_checks
    metawsm.Orchestrator.Close.check_clean metawsm.Orchestrator.Close.merge_workspaces
    metawsm.Orchestrator.Close.close_tickets metawsm.Orchestrator.Close.close_completed
    metawsm.Orchestrator.Close.close metawsm.Base.Words.trim_prefix metawsm.Base.Words.trim_dashes
    metawsm.Base.Words.single_dashes metawsm.Base.Text.trim_space metawsm.Base.Text.to_lower
    metawsm.Base.Rows.update metawsm.Base.Rows.insert metawsm.Orchestrator.Operations.perform_all
    metawsm.Orchestrator.Silent.status_at metawsm.Store.Schema.empty_tables
    metawsm.Hsm.can_transition_run metawsm.Store.Sql.◌>>=◌ metawsm.Store.Sql.exec
    metawsm.Store.Sql.query metawsm.Store.Sql.call metawsm.Store.Sql.ignore metawsm.Store.Sql.handle
closed = refl

operation_moves_example :
    (may_leave (op_run spec cfg none) (status_at "r1" empty_tables.runs) (
        status_at "r1"
          (perform text_of empty_forum (op_run spec cfg none) (quiet empty_tables 2)).1.tables.runs)
      ≡ true)
    × ((j : String)
        → ("r1" == j) ≡ false
        → status_at j
            (perform text_of empty_forum
              (op_run spec cfg none)
              (quiet empty_tables 2)).1.tables.runs
          ≡ status_at j empty_tables.runs)
operation_moves_example =
    operation_moves text_of empty_forum empty_forum-IsControlForum (op_run spec cfg none)
      (quiet empty_tables 2)

closed_run_was_completed_example :
    (first : List Operation) × (o : Operation) × (rest : List Operation) × (operations
      ≡ first ++ o ∷ rest)
    × IsClose "r1" o
    × (status_at "r1" (perform_all text_of empty_forum first (quiet empty_tables 2)).tables.runs
        ≡ some RunStatus.completed)
closed_run_was_completed_example =
    closed_run_was_completed text_of empty_forum empty_forum-IsControlForum operations
      (quiet empty_tables 2) "r1" fresh closed
