-- ===== src/Orchestrator/Runs.antt =====
-- internal/orchestrator/service.go: the operations on a run. A run id is given: the search for the
-- run of a ticket is not modelled. `text_of` is `err.Error()`.
use metawsm.Base.{
  String, Bool, true, false, not, ◌&&◌, Option, none, some, List, [], ◌∷◌, length, ◌==◌, nat_eq,
  string_eq, if◌then◌else◌,
}
use metawsm.Base.Text.{trim_space, concat}
use metawsm.Base.Words.{decimal}
use metawsm.Model.Run.{RunStatus, AgentStatus, HealthState, run_eq, agent_eq}
use metawsm.Model.Plan.{
  AgentSpec, RunSpec, Config, PlanStep, StepRecord, AgentRecord, RunBrief, kill_session,
  workspace_path, doc_repo_path,
}
use metawsm.Hsm.{can_transition_run}
use metawsm.Store.Sql.{
  Error, refused, illegal_run_transition, Result, ok, err, M, pure, raise, ◌>>=◌, ◌>>◌, call,
  ignore, handle,
}
use metawsm.Store.Runs.{
  create_run, save_steps, update_agent_status, add_event, upsert_run_brief, get_run, get_steps,
  get_agents,
}
use metawsm.Orchestrator.Names.{
  is_blank, or_else, render_session_name, normalize_agent_command, wrap_agent_command_for_tmux,
  effective_doc_home_repo, resolve_doc_home_repo, contains_token, normalize_tokens,
  normalize_base_branch,
}
use metawsm.Orchestrator.Plan.{build_plan}
use metawsm.Orchestrator.Steps.{
  run_event, transition_run, seed_agents, agent_command, start_session, execute_steps,
}

abbrev pub require : Bool → String → M (Unit {0})
require true text = pure tt
require false text = raise (refused text)

abbrev pub from_result : {A : Type 0} → Result A → M A
from_result (ok a) = pure a
from_result (err e) = raise e

-- The guard of `Resume` and `Stop`
abbrev pub require_transition : RunStatus → RunStatus → M (Unit {0})
require_transition from to =
    if can_transition_run from to then pure tt else raise (illegal_run_transition from to)

-- `RunOptions`
pub record RunOptions : Type 0 where
  pub run_id : String
  pub tickets : List String
  pub repos : List String
  pub doc_repo : String
  pub doc_home_repo : String
  pub doc_authority_mode : String
  pub doc_seed_mode : String
  pub base_branch : String
  pub agent_names : List String
  pub workspace_strategy : String
  pub mode : String
  pub dry_run : Bool
  pub brief : Option RunBrief

abbrev is_nonempty : List String → Bool
is_nonempty [] = false
is_nonempty (_ ∷ _) = true

abbrev pick : String → String → String → String
pick given configured default = or_else default (or_else (trim_space configured) (trim_space given))

-- The specification that `Run` makes of its options, or the error. `resolve_agents` is
-- `policy.ResolveAgents`, and `generated` is the answer of `generateRunID`.
unfoldable pub spec_of :
    (List String → Result (List AgentSpec)) → String → Config → String → RunOptions → Result RunSpec
spec_of resolve_agents generated cfg policy_path options =
    let tickets = normalize_tokens options.tickets in
    let repos = normalize_tokens options.repos in
    let authority = pick options.doc_authority_mode cfg.authority_mode "workspace_active" in
    let seed = pick options.doc_seed_mode cfg.seed_mode "copy_from_repo_on_start" in
    let branch = or_else "main" (
      or_else (normalize_base_branch cfg.base_branch)
        (normalize_base_branch options.base_branch)) in
    if not (is_nonempty tickets)
    then err (refused "at least one --ticket is required")
    else if not (is_nonempty repos) && not (options.workspace_strategy == "reuse")
    then err (refused "at least one --repos entry is required for create/fork")
    else with_home tickets repos authority seed branch
        (resolve_doc_home_repo options.doc_home_repo options.doc_repo repos)
  where
    with_agents :
        List String
        → List String
        → String
        → String
        → String
        → String
        → Result (List AgentSpec)
        → Result RunSpec
    with_agents tickets repos authority seed branch home (err e) = err e
    with_agents tickets repos authority seed branch home (ok agents) = ok (record {
      run_id = or_else generated (trim_space options.run_id);
      mode = or_else "run" options.mode;
      tickets = tickets;
      repos = repos;
      doc_repo = home;
      doc_home_repo = home;
      doc_authority_mode = authority;
      doc_seed_mode = seed;
      doc_freshness_revision = "";
      base_branch = branch;
      workspace_strategy = or_else cfg.default_strategy options.workspace_strategy;
      agents = agents;
      policy_path = policy_path;
      dry_run = options.dry_run;
    })

    with_home :
        List String → List String → String → String → String → Result String → Result RunSpec
    with_home tickets repos authority seed branch (err e) = err e
    with_home tickets repos authority seed branch (ok home) =
        if is_nonempty repos && not (is_blank home) && not (contains_token repos home)
        then err (refused "doc home repo must be one of --repos")
        else if not (authority == "workspace_active")
        then err (refused "doc authority mode is invalid")
        else if not (seed == "none") && not (seed == "copy_from_repo_on_start")
        then err (refused "doc seed mode is invalid")
        else with_agents tickets repos authority seed branch home
            (resolve_agents (normalize_tokens options.agent_names))

abbrev brief_ticket : RunSpec → RunBrief → String
brief_ticket spec brief =
    if is_blank brief.ticket then first_ticket spec.tickets brief.ticket else brief.ticket
  where
    first_ticket : List String → String → String
    first_ticket [] given = given
    first_ticket (t ∷ _) given = t

abbrev pub save_brief : RunSpec → Option RunBrief → M (Unit {0})
save_brief spec none = pure tt
save_brief spec (some brief) =
    upsert_run_brief (record brief { run_id = spec.run_id; ticket = brief_ticket spec brief })

abbrev pub plan_of : StepRecord → PlanStep
plan_of step = step.plan

abbrev pub plans_of : List StepRecord → List PlanStep
plans_of [] = []
plans_of (s ∷ ss) = s.plan ∷ plans_of ss

-- What `Run` does until the plan is stored
unfoldable pub prepare_run : RunSpec → Config → Option RunBrief → M (Unit {0})
prepare_run spec cfg brief = do
  create_run spec cfg
  save_brief spec brief
  transition_run spec.run_id RunStatus.created RunStatus.planning "planning run"
  save_steps spec.run_id (build_plan spec cfg)
  seed_agents spec.run_id (build_plan spec cfg)

abbrev pub stop_agents : String → List AgentRecord → M (Unit {0})
stop_agents run_id [] = pure tt
stop_agents run_id (a ∷ agents) = do
  ignore (call (kill_session a.session_name))
  ignore (update_agent_status run_id a.name a.workspace_name AgentStatus.stopped HealthState.dead)
  stop_agents run_id agents

unfoldable pub stop : String → M (Unit {0})
stop run_id = do
  row ← get_run run_id
  require_transition row.status RunStatus.stopping
  transition_run run_id row.status RunStatus.stopping "stop requested"
  agents ← get_agents run_id
  stop_agents run_id agents
  transition_run run_id RunStatus.stopping RunStatus.stopped "run stopped"

abbrev session_of : AgentRecord → String
session_of a =
    or_else (render_session_name "{agent}-{workspace}" a.name a.workspace_name)
      (trim_space a.session_name)

-- The call that `Restart` makes for an agent unless it is a dry run
abbrev pub restart_session : Bool → String → RunSpec → AgentRecord → String → M (Unit {0})
restart_session true run_id spec a workdir = pure tt
restart_session false run_id spec a workdir = do
  start_session (session_of a) workdir
      (wrap_agent_command_for_tmux
        (normalize_agent_command (or_else "bash" (trim_space (agent_command spec.agents a.name)))))
      (concat "tmux session " (concat (session_of a) " exited immediately after restart"))
  update_agent_status run_id a.name a.workspace_name AgentStatus.running HealthState.healthy

abbrev pub restart_agents : Bool → String → RunSpec → List AgentRecord → M (Unit {0})
restart_agents dry_run run_id spec [] = pure tt
restart_agents dry_run run_id spec (a ∷ agents) = do
  path ← call (workspace_path a.workspace_name)
  workdir ← call (doc_repo_path path (effective_doc_home_repo spec) spec.repos)
  restart_session dry_run run_id spec a workdir
  restart_agents dry_run run_id spec agents

abbrev has_agents : List AgentRecord → Bool
has_agents [] = false
has_agents (_ ∷ _) = true

-- `Restart` of the run with this id, less the list of its actions
unfoldable pub restart : Bool → String → M (Unit {0})
restart dry_run run_id = do
  row ← get_run run_id
  require (not (row.status == RunStatus.closed)) "run is closed and cannot be restarted"
  agents ← get_agents run_id
  require (has_agents agents) "run has no agents to restart"
  if not (row.status == RunStatus.running)
        && can_transition_run row.status RunStatus.running
        && not dry_run
      then transition_run run_id row.status RunStatus.running "restart requested"
      else pure tt
  restart_agents dry_run run_id row.spec agents
  if dry_run
      then pure tt
      else ignore (
          add_event (
            run_event run_id "restart" "" ""
              (concat "restarted " (concat (decimal (length agents)) " agents"))))

module _ (text_of : Error → String) where
  -- The end of `Run` and `Resume`: the steps are executed, and the run fails with them.
  unfoldable pub execute_plan :
      String → RunSpec → Config → List PlanStep → String → String → M (Unit {0})
  execute_plan run_id spec cfg steps monitoring completed = do
    handle (execute_steps text_of spec cfg steps) (λ e.
        ignore (transition_run run_id RunStatus.running RunStatus.failed (text_of e)) >> raise e)
    if spec.mode == "bootstrap"
        then ignore (add_event (run_event run_id "bootstrap" "running" "running" monitoring))
        else transition_run run_id RunStatus.running RunStatus.completed completed

  unfoldable pub start_plan : RunSpec → Config → M (Unit {0})
  start_plan spec cfg =
      if spec.dry_run
      then transition_run spec.run_id RunStatus.planning RunStatus.paused "dry-run complete"
      else (transition_run spec.run_id RunStatus.planning RunStatus.running "executing plan"
          >> execute_plan spec.run_id spec cfg (build_plan spec cfg)
              "bootstrap setup complete; monitoring for guidance/completion signals"
              "run completed")

  -- `Run`, from the specification on
  unfoldable pub run_spec : RunSpec → Config → Option RunBrief → M (Unit {0})
  run_spec spec cfg brief = do prepare_run spec cfg brief; start_plan spec cfg

  unfoldable pub run :
      (List String → Result (List AgentSpec)) → String → Config → String → RunOptions → M String
  run resolve_agents generated cfg policy_path options = do
    spec ← from_result (spec_of resolve_agents generated cfg policy_path options)
    run_spec spec cfg options.brief
    pure spec.run_id

  unfoldable pub resume : String → M (Unit {0})
  resume run_id = do
    row ← get_run run_id
    require_transition row.status RunStatus.running
    transition_run run_id row.status RunStatus.running "resume requested"
    steps ← get_steps run_id
    execute_plan run_id row.spec row.policy (plans_of steps)
        "resume completed; monitoring for guidance/completion signals" "resume completed"
