-- ===== src/Orchestrator/Plan.antt =====
-- `buildPlan` of internal/orchestrator/service.go: the steps of a run.
pub mod Order
mod Examples
use metawsm.Base.{
  ℕ, ◌+◌, String, Bool, true, false, List, [], ◌∷◌, ◌++◌, length, ◌==◌, string_eq, if◌then◌else◌,
}
use metawsm.Base.Text.{trim_space, concat}
use metawsm.Base.Words.{join}
use metawsm.Model.Run.{StepStatus}
use metawsm.Model.Plan.{AgentSpec, RunSpec, Config, PlanStep}
use metawsm.Orchestrator.Names.{shell_quote, workspace_name_for}

abbrev verify_step : ℕ → String → PlanStep
verify_step index ticket = record {
  index = index;
  name = concat "verify-doc-ticket-" ticket;
  kind = "shell";
  command = concat "docmgr ticket list --ticket " (shell_quote ticket);
  blocking = true;
  ticket = ticket;
  workspace_name = "";
  agent = "";
  status = StepStatus.pending;
}

abbrev create_command : RunSpec → Config → String → String
create_command spec cfg workspace = concat "wsm create " (
    concat (shell_quote workspace) (
      concat " --repos " (
        concat (shell_quote (join "," spec.repos))
          (concat " --branch " (shell_quote (concat cfg.branch_prefix (concat "/" workspace)))))))

unfoldable pub workspace_command : RunSpec → Config → String → String
workspace_command spec cfg workspace =
    if spec.workspace_strategy == "create"
    then create_command spec cfg workspace
    else if spec.workspace_strategy == "fork"
    then concat "wsm fork " (
        concat (shell_quote workspace) (concat " --branch-prefix " (shell_quote cfg.branch_prefix)))
    else if spec.workspace_strategy == "reuse"
    then concat "wsm info " (shell_quote workspace)
    else create_command spec cfg workspace

abbrev workspace_step : RunSpec → Config → ℕ → String → String → PlanStep
workspace_step spec cfg index ticket workspace = record {
  index = index;
  name = concat "workspace-" (concat spec.workspace_strategy (concat "-" workspace));
  kind = "shell";
  command = workspace_command spec cfg workspace;
  blocking = true;
  ticket = ticket;
  workspace_name = workspace;
  agent = "";
  status = StepStatus.pending;
}

abbrev sync_step : ℕ → String → String → PlanStep
sync_step index ticket workspace = record {
  index = index;
  name = concat "sync-ticket-context-" workspace;
  kind = "ticket_context_sync";
  command = "";
  blocking = true;
  ticket = ticket;
  workspace_name = workspace;
  agent = "";
  status = StepStatus.pending;
}

abbrev agent_step : ℕ → String → String → AgentSpec → PlanStep
agent_step index ticket workspace agent = record {
  index = index;
  name = concat "tmux-start-" (concat agent.name (concat "-" workspace));
  kind = "tmux_start";
  command = "";
  blocking = true;
  ticket = ticket;
  workspace_name = workspace;
  agent = agent.name;
  status = StepStatus.pending;
}

unfoldable pub agent_steps : ℕ → String → String → List AgentSpec → List PlanStep
agent_steps index ticket workspace [] = []
agent_steps index ticket workspace (a ∷ agents) =
    agent_step index ticket workspace a ∷ agent_steps (index + 1) ticket workspace agents

-- The steps after those of the workspace
unfoldable pub context_steps : RunSpec → ℕ → String → String → List PlanStep
context_steps spec index ticket workspace =
    if trim_space spec.doc_seed_mode == "copy_from_repo_on_start"
    then sync_step index ticket workspace ∷ agent_steps (index + 1) ticket workspace spec.agents
    else agent_steps index ticket workspace spec.agents

unfoldable pub ticket_steps : RunSpec → Config → ℕ → String → List PlanStep
ticket_steps spec cfg index ticket =
    let workspace = workspace_name_for ticket spec.run_id in
    verify_step index ticket
    ∷ workspace_step spec cfg (index + 1) ticket workspace
    ∷ context_steps spec (index + 2) ticket workspace

unfoldable pub steps_from : RunSpec → Config → ℕ → List String → List PlanStep
steps_from spec cfg index [] = []
steps_from spec cfg index (t ∷ tickets) =
    let own = ticket_steps spec cfg index t in
    own ++ steps_from spec cfg (index + length own) tickets

unfoldable pub build_plan : RunSpec → Config → List PlanStep
build_plan spec cfg = steps_from spec cfg 1 spec.tickets
