-- ===== src/Orchestrator/Plan/Examples.antt =====
-- Concrete plans (internal/orchestrator/service.go).
use metawsm.Base.{◌+◌, ◌*◌, false, [], ◌∷◌, ◌≡◌, length}
use metawsm.Model.Plan.{RunSpec, Config}
use metawsm.Orchestrator.Plan.{build_plan}
use metawsm.Orchestrator.Plan.Order.{IsNumbered, copy_count, build_plan-IsNumbered}

abbrev spec : RunSpec
spec = record {
  run_id = "run-7";
  mode = "run";
  tickets = "T-1" ∷ "T-2" ∷ [];
  repos = "app" ∷ [];
  doc_repo = "app";
  doc_home_repo = "app";
  doc_authority_mode = "workspace_active";
  doc_seed_mode = "copy_from_repo_on_start";
  doc_freshness_revision = "";
  base_branch = "main";
  workspace_strategy = "create";
  agents = record { name = "coder"; command = "codex exec" } ∷ [];
  policy_path = "";
  dry_run = false;
}

abbrev cfg : Config
cfg = record {
  step_retries = 1;
  session_pattern = "{agent}-{workspace}";
  branch_prefix = "task";
  default_strategy = "create";
  base_branch = "main";
  authority_mode = "";
  seed_mode = "";
}

build_plan-IsNumbered_example :
    IsNumbered 1 (build_plan spec cfg)
    × (length (build_plan spec cfg)
        ≡ length spec.tickets * (2 + copy_count spec + length spec.agents))
build_plan-IsNumbered_example = build_plan-IsNumbered spec cfg
