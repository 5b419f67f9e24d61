-- ===== src/Orchestrator/Settled/Examples.antt =====
-- Concrete executions of steps (internal/orchestrator/service.go).
use metawsm.Base.{ℕ, String, Bool, true, false, List, [], ◌∷◌, ◌≡◌, refl, arith}
use metawsm.Model.Run.{StepStatus}
use metawsm.Model.Plan.{RunSpec, Config, PlanStep, answered, refused}
use metawsm.Store.Schema.{empty_tables}
use metawsm.Store.Sql.{Error, World, ok, quiet}
use metawsm.Store.Runs.{save_steps}
use metawsm.Orchestrator.Steps.{execute_steps}
use metawsm.Orchestrator.Settled.{step_status}
use metawsm.Orchestrator.Settled.Stays.{settled_step_is_final}
use metawsm.Orchestrator.Settled.Plan.{AllSettled, executed_plan_is_settled}

abbrev shell : ℕ → StepStatus → PlanStep
shell index status = record {
  index = index;
  name = "list";
  kind = "shell";
  command = "docmgr ticket list";
  blocking = true;
  ticket = "T-1";
  workspace_name = "";
  agent = "";
  status = status;
}

abbrev plan : List PlanStep
plan = shell 1 StepStatus.pending ∷ shell 2 StepStatus.pending ∷ []

abbrev spec : RunSpec
spec = record {
  run_id = "r1";
  mode = "run";
  tickets = "T-1" ∷ [];
  repos = [];
  doc_repo = "";
  doc_home_repo = "";
  doc_authority_mode = "workspace_active";
  doc_seed_mode = "none";
  doc_freshness_revision = "";
  base_branch = "main";
  workspace_strategy = "reuse";
  agents = [];
  policy_path = "";
  dry_run = false;
}

abbrev cfg : Config
cfg = record {
  step_retries = 1;
  session_pattern = "{agent}-{workspace}";
  branch_prefix = "task";
  default_strategy = "create";
  base_branch = "main";
  authority_mode = "";
  seed_mode = "";
}

abbrev text_of : Error → String
text_of e = "error"

-- The second step of this plan is done already.
abbrev half_done : World
half_done =
    (save_steps "r1" (shell 1 StepStatus.pending ∷ shell 2 StepStatus.done ∷ [])
      (quiet empty_tables 2)).1

settled_step_is_final_example :
    step_status "r1" 2 (execute_steps text_of spec cfg plan half_done).1.tables.runs
    ≡ step_status "r1" 2 half_done.tables.runs
unfolding metawsm.Store.Runs.save_steps metawsm.Store.Runs.step_statements
    metawsm.Store.Sql.apply_all metawsm.Store.Sql.run_each metawsm.Store.Sql.exec_each
    metawsm.Store.Runs.remove_step metawsm.Store.Runs.is_step metawsm.Store.Sql.exec
    metawsm.Store.Sql.attempt metawsm.Store.Sql.pure metawsm.Orchestrator.Settled.find_status
    metawsm.Store.Schema.empty_tables
settled_step_is_final_example = settled_step_is_final text_of spec cfg plan half_done "r1" 2 refl

-- The first command fails once and is tried again.
abbrev planned : World
planned = record ((save_steps "r1" plan (quiet empty_tables 2)).1) {
  replies = refused "no docmgr" ∷ answered "" ∷ [];
}

executed : (execute_steps text_of spec cfg plan planned).0 ≡ ok tt
unfolding metawsm.Store.Runs.update_step_status metawsm.Store.Runs.update_steps
    metawsm.Store.Runs.add_event metawsm.Store.Runs.get_steps metawsm.Store.Runs.select_steps
    metawsm.Store.Runs.is_step metawsm.Store.Runs.save_steps metawsm.Store.Runs.step_statements
    metawsm.Store.Sql.apply_all metawsm.Store.Sql.run_each metawsm.Store.Sql.exec_each
    metawsm.Store.Runs.remove_step metawsm.Orchestrator.Steps.shell_step
    metawsm.Orchestrator.Steps.execute_single_step metawsm.Orchestrator.Steps.attempt_step
    metawsm.Orchestrator.Steps.attempt_steps metawsm.Orchestrator.Steps.execute_step
    metawsm.Orchestrator.Steps.execute_steps metawsm.Orchestrator.Names.workspace_create_step
    metawsm.Base.Text.trim_space metawsm.Store.Sql.attempt metawsm.Store.Sql.pure
    metawsm.Store.Sql.◌>>=◌ metawsm.Store.Sql.exec metawsm.Store.Sql.query metawsm.Store.Sql.call
    metawsm.Store.Sql.ignore metawsm.Store.Sql.handle metawsm.Store.Schema.empty_tables
executed = refl

executed_plan_is_settled_example :
    AllSettled "r1" plan (execute_steps text_of spec cfg plan planned).1.tables
unfolding metawsm.Store.Runs.save_steps metawsm.Store.Runs.step_statements
    metawsm.Store.Sql.apply_all metawsm.Store.Sql.run_each metawsm.Store.Sql.exec_each
    metawsm.Store.Runs.remove_step metawsm.Store.Runs.is_step metawsm.Store.Sql.exec
    metawsm.Store.Sql.attempt metawsm.Store.Sql.pure metawsm.Orchestrator.Settled.find_status
    metawsm.Store.Schema.empty_tables
executed_plan_is_settled_example =
    executed_plan_is_settled text_of spec cfg plan planned ((refl, refl), ((refl, refl), tt))
      (refl, (refl, tt)) executed
