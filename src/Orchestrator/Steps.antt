-- ===== src/Orchestrator/Steps.antt =====
-- internal/orchestrator/service.go: a transition of a run, its agents, and the execution of its
-- steps. `text_of` is `err.Error()`, which holds what sqlite3 says.
use metawsm.Base.{
  ℕ, zero, suc, ◌+◌, String, Bool, true, false, not, ◌||◌, Option, none, some, List, [], ◌∷◌, ◌==◌,
  nat_eq, string_eq, if◌then◌else◌,
}
use metawsm.Base.Text.{concat}
use metawsm.Base.Words.{decimal}
use metawsm.Model.Run.{RunStatus, StepStatus, AgentStatus, HealthState, step_eq}
use metawsm.Model.Plan.{
  AgentSpec, RunSpec, Config, PlanStep, StepRecord, AgentRecord, DocSyncStatus, DocSyncState,
  RunEvent, run_shell, kill_session, session_is_missing, await_startup, workspace_path,
  doc_repo_path, align_workspace, sync_ticket_docs,
}
use metawsm.Hsm.{can_transition_run}
use metawsm.Store.Sql.{
  Error, refused, step_failed, illegal_run_transition, M, pure, raise, ◌>>=◌, ◌>>◌, call, ignore,
  handle,
}
use metawsm.Store.Runs.{
  upsert_agent, update_run_status, update_step_status, update_agent_status, add_event,
  upsert_doc_sync_state, update_run_doc_freshness_revision, get_steps,
}
use metawsm.Orchestrator.Names.{
  is_blank, shell_quote, render_session_name, workspace_create_step, normalize_agent_command,
  wrap_agent_command_for_tmux, effective_doc_home_repo,
}

abbrev pub run_text : RunStatus → String
run_text RunStatus.created = "created"
run_text RunStatus.planning = "planning"
run_text RunStatus.running = "running"
run_text RunStatus.awaiting_guidance = "awaiting_guidance"
run_text RunStatus.paused = "paused"
run_text RunStatus.failed = "failed"
run_text RunStatus.stopping = "stopping"
run_text RunStatus.stopped = "stopped"
run_text RunStatus.closing = "closing"
run_text RunStatus.closed = "closed"
run_text RunStatus.completed = "completed"

abbrev pub run_event : String → String → String → String → String → RunEvent
run_event run_id event_type from to message = record {
  run_id = run_id;
  entity_type = "run";
  entity_id = run_id;
  event_type = event_type;
  from_state = from;
  to_state = to;
  message = message;
}

unfoldable pub transition_run : String → RunStatus → RunStatus → String → M (Unit {0})
transition_run run_id from to message =
    if not (can_transition_run from to) then raise (illegal_run_transition from to) else do
      update_run_status run_id to message
      add_event (run_event run_id "transition" (run_text from) (run_text to) message)

abbrev seeded_agent : String → PlanStep → AgentRecord
seeded_agent run_id step = record {
  run_id = run_id;
  name = step.agent;
  workspace_name = step.workspace_name;
  session_name = render_session_name "{agent}-{workspace}" step.agent step.workspace_name;
  status = AgentStatus.pending;
  health_state = HealthState.idle;
}

abbrev agent_key : PlanStep → String
agent_key step = concat step.agent (concat "|" step.workspace_name)

abbrev is_seen : String → List String → Bool
is_seen k [] = false
is_seen k (s ∷ ss) = let rest = is_seen k ss in if s == k then true else rest

-- The loop of `seedAgents`, with the keys seen
unfoldable pub seed_from : String → List String → List PlanStep → M (Unit {0})
seed_from run_id seen [] = pure tt
seed_from run_id seen (step ∷ steps) =
    if not (step.kind == "tmux_start")
    then seed_from run_id seen steps
    else if is_seen (agent_key step) seen
    then seed_from run_id seen steps
    else do upsert_agent (seeded_agent run_id step); seed_from run_id (agent_key step ∷ seen) steps

unfoldable pub seed_agents : String → List PlanStep → M (Unit {0})
seed_agents run_id steps = seed_from run_id [] steps

abbrev pub step_done_or_skipped : List StepRecord → ℕ → Bool
step_done_or_skipped [] i = false
step_done_or_skipped (s ∷ ss) i =
    let rest = step_done_or_skipped ss i in
    if s.plan.index == i
    then s.plan.status == StepStatus.done || s.plan.status == StepStatus.skipped
    else rest

-- `agentCommand[name]`: the last agent of a name gives the command, and a missing one is "".
unfoldable pub agent_command : List AgentSpec → String → String
agent_command agents name = last_command agents ""
  where
    last_command : List AgentSpec → String → String
    last_command [] command = command
    last_command (a ∷ rest) command =
        last_command rest (if a.name == name then a.command else command)

abbrev pub start_command : String → String → String → String
start_command session workdir command = concat "tmux new-session -d -s " (
    concat (shell_quote session)
      (concat " -c " (concat (shell_quote workdir) (concat " " (shell_quote command)))))

-- The answer of `session_is_missing` is blank unless tmux says that there is no such session.
abbrev pub require_session : String → String → M (Unit {0})
require_session text missing = if missing == "" then pure tt else raise (refused text)

-- What `Restart` and the step kind `tmux_start` do with a session once its names are computed
unfoldable pub start_session : String → String → String → String → M (Unit {0})
start_session session workdir command gone = do
  ignore (call (kill_session session))
  call (run_shell (start_command session workdir command)) >>= λ _. do
    missing ← call (session_is_missing session)
    require_session gone missing
    call (await_startup session) >>= λ _. pure tt

abbrev sync_state : RunSpec → PlanStep → DocSyncStatus → String → String → DocSyncState
sync_state spec step status revision text = record {
  run_id = spec.run_id;
  ticket = step.ticket;
  workspace_name = step.workspace_name;
  doc_home_repo = effective_doc_home_repo spec;
  doc_authority_mode = spec.doc_authority_mode;
  doc_seed_mode = spec.doc_seed_mode;
  status = status;
  revision = revision;
  error_text = text;
}

abbrev pub align : RunSpec → PlanStep → Bool → M (Unit {0})
align spec step true =
    call (align_workspace step.workspace_name spec.repos spec.base_branch) >>= λ _. pure tt
align spec step false = pure tt

unfoldable pub shell_step : RunSpec → PlanStep → M (Unit {0})
shell_step spec step =
    if is_blank step.command
    then raise (refused "empty shell command")
    else do _ ← call (run_shell step.command); align spec step (workspace_create_step step)

unfoldable pub tmux_step : RunSpec → Config → PlanStep → M (Unit {0})
tmux_step spec cfg step = do
  path ← call (workspace_path step.workspace_name)
  workdir ← call (doc_repo_path path (effective_doc_home_repo spec) spec.repos)
  let given = agent_command spec.agents step.agent
  let session = render_session_name cfg.session_pattern step.agent step.workspace_name
  start_session session workdir
      (wrap_agent_command_for_tmux
        (normalize_agent_command (if is_blank given then "bash" else given)))
      (concat "tmux session " (concat session " exited immediately after start"))
  update_agent_status spec.run_id step.agent step.workspace_name AgentStatus.running
      HealthState.healthy

module _ (text_of : Error → String) where
  unfoldable pub sync_step : RunSpec → PlanStep → M (Unit {0})
  sync_step spec step = do
    path ← call (workspace_path step.workspace_name)
    ignore (upsert_doc_sync_state (sync_state spec step DocSyncStatus.pending "" ""))
    revision ←
        handle (call (sync_ticket_docs step.ticket path (effective_doc_home_repo spec) spec.repos))
          (λ e.
            ignore
              (upsert_doc_sync_state (sync_state spec step DocSyncStatus.failed "" (text_of e)))
            >> raise e)
    upsert_doc_sync_state (sync_state spec step DocSyncStatus.synced revision "")
    update_run_doc_freshness_revision spec.run_id revision

  unfoldable pub execute_single_step : RunSpec → Config → PlanStep → M (Unit {0})
  execute_single_step spec cfg step =
      if step.kind == "shell"
      then shell_step spec step
      else if step.kind == "tmux_start"
      then tmux_step spec cfg step
      else if step.kind == "ticket_context_sync"
      then sync_step spec step
      else raise (refused (concat "unknown step kind: " step.kind))

  abbrev step_event : String → PlanStep → String → String → String → String → RunEvent
  step_event run_id step event_type from to message = record {
    run_id = run_id;
    entity_type = "step";
    entity_id = decimal step.index;
    event_type = event_type;
    from_state = from;
    to_state = to;
    message = message;
  }

  -- What follows an attempt
  abbrev pub settle_step : String → PlanStep → Option Error → M (Option Error)
  settle_step run_id step none = do
    update_step_status run_id step.index StepStatus.done ""
    ignore (add_event (step_event run_id step "done" "running" "done" step.name))
    pure none
  settle_step run_id step (some e) = do
    ignore (update_step_status run_id step.index StepStatus.failed (text_of e))
    ignore (add_event (step_event run_id step "failed" "running" "failed" (text_of e)))
    pure (some e)

  -- The body of the loop over the attempts: the error of the attempt, if any
  unfoldable pub attempt_step : RunSpec → Config → PlanStep → ℕ → M (Option Error)
  attempt_step spec cfg step number = do
    update_step_status spec.run_id step.index StepStatus.running ""
    ignore (
        add_event
          (step_event spec.run_id step "attempt" "" "running" (concat "attempt " (decimal number))))
    failure ← handle (execute_single_step spec cfg step >> pure none) (λ e. pure (some e))
    settle_step spec.run_id step failure

  abbrev pub again : Option Error → M (Option Error) → M (Option Error)
  again none rest = pure none
  again (some e) rest = rest

  -- The loop over the attempts, with those left after the present one, and its number
  unfoldable pub attempt_steps : RunSpec → Config → PlanStep → ℕ → ℕ → M (Option Error)
  attempt_steps spec cfg step zero number = attempt_step spec cfg step number
  attempt_steps spec cfg step (suc retries) number = do
    failure ← attempt_step spec cfg step number
    again failure (attempt_steps spec cfg step retries (number + 1))

  -- What follows the last attempt
  abbrev pub conclude : RunSpec → PlanStep → Option Error → M (Unit {0})
  conclude spec step none = pure tt
  conclude spec step (some e) =
      if step.blocking
      then raise (step_failed step.index step.name e)
      else ignore (update_step_status spec.run_id step.index StepStatus.skipped (text_of e))

  abbrev pub unless_settled : RunSpec → Config → PlanStep → Bool → M (Unit {0})
  unless_settled spec cfg step true = pure tt
  unless_settled spec cfg step false = do
    failure ← attempt_steps spec cfg step cfg.step_retries 1
    conclude spec step failure

  unfoldable pub execute_step : RunSpec → Config → PlanStep → M (Unit {0})
  execute_step spec cfg step = if step.status == StepStatus.done then pure tt else do
    current ← get_steps spec.run_id
    unless_settled spec cfg step (step_done_or_skipped current step.index)

  unfoldable pub execute_steps : RunSpec → Config → List PlanStep → M (Unit {0})
  execute_steps spec cfg [] = pure tt
  execute_steps spec cfg (step ∷ steps) = do
    execute_step spec cfg step
    execute_steps spec cfg steps
