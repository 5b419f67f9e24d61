-- ===== src/Orchestrator/Guidance.antt =====
-- `Guide` and `syncBootstrapSignals` of internal/orchestrator/service.go: the transitions that the
-- control messages of the agents bring about.
use metawsm.Base.{
  String, Bool, true, false, not, ◌&&◌, Option, none, some, List, [], ◌∷◌, ◌==◌, string_eq,
  if◌then◌else◌,
}
use metawsm.Base.Text.{trim_space, concat}
use metawsm.Base.Rows.{find}
use metawsm.Model.Run.{RunStatus, AgentStatus, run_eq, agent_eq}
use metawsm.Model.Plan.{AgentRecord, RunEvent}
use metawsm.Store.Sql.{refused, M, pure, raise, ◌>>=◌, ◌>>◌, ignore}
use metawsm.Store.Runs.{add_event, get_run, get_agents, get_tickets}
use metawsm.Control.{ForumControlAgentState, state_key}
use metawsm.Orchestrator.Names.{is_blank}
use metawsm.Orchestrator.Steps.{transition_run}
use metawsm.Orchestrator.Forum.{ControlForum}
use metawsm.Orchestrator.Runs.{require}
use metawsm.Orchestrator.Close.{any_pending}

abbrev pub pending_state :
    AgentRecord → Option ForumControlAgentState → Option ForumControlAgentState
pending_state a none = none
pending_state a (some s) =
    if s.pending_guidance then some (record s { workspace_name = a.workspace_name }) else none

abbrev first_some :
    Option ForumControlAgentState → Option ForumControlAgentState → Option ForumControlAgentState
first_some none rest = rest
first_some (some s) rest = some s

-- The first agent, in the order of the agents, whose guidance is pending
unfoldable pub find_target :
    List AgentRecord → List ForumControlAgentState → Option ForumControlAgentState
find_target [] states = none
find_target (a ∷ agents) states =
    let rest = find_target agents states in
    first_some (pending_state a (find state_key a.name states)) rest

abbrev pub target_of : Option ForumControlAgentState → M ForumControlAgentState
target_of none = raise (refused "run has no pending forum guidance requests")
target_of (some s) = pure s

abbrev pub first_ticket : List String → M String
first_ticket [] = raise (refused "run has no ticket context for guidance answer")
first_ticket (t ∷ _) = pure (trim_space t)

abbrev pub ticket_of : String → String → M String
ticket_of run_id ticket =
    if is_blank ticket then get_tickets run_id >>= first_ticket else pure (trim_space ticket)

abbrev answer_event : String → ForumControlAgentState → RunEvent
answer_event run_id target = record {
  run_id = run_id;
  entity_type = "guidance";
  entity_id = target.agent_name;
  event_type = "answered";
  from_state = "pending";
  to_state = "answered";
  message = concat target.agent_name (concat "@" target.workspace_name);
}

abbrev pub find_failed : List AgentRecord → Option AgentRecord
find_failed [] = none
find_failed (a ∷ agents) =
    let rest = find_failed agents in if a.status == AgentStatus.failed then some a else rest

abbrev pub state_passes : Option ForumControlAgentState → Bool
state_passes none = false
state_passes (some s) = s.completion_signaled && s.validation_status == "passed"

abbrev pub all_pass : List AgentRecord → List ForumControlAgentState → Bool
all_pass [] states = true
all_pass (a ∷ agents) states =
    let rest = all_pass agents states in
    if state_passes (find state_key a.name states) then rest else false

-- `allComplete`
unfoldable pub all_complete : List AgentRecord → List ForumControlAgentState → Bool
all_complete [] states = false
all_complete (a ∷ agents) states = all_pass (a ∷ agents) states

abbrev complete_run : String → M (Unit {0})
complete_run run_id =
    transition_run run_id RunStatus.running RunStatus.completed
      "forum completion and validation detected"

-- The transitions at the end, for whether guidance is pending and all agents are complete
unfoldable pub sync_status : String → RunStatus → Bool → Bool → M (Unit {0})
sync_status run_id status is_pending complete =
    if status == RunStatus.running && is_pending
    then transition_run run_id RunStatus.running RunStatus.awaiting_guidance
        "awaiting operator guidance"
    else if status == RunStatus.awaiting_guidance && not is_pending && not complete
    then transition_run run_id RunStatus.awaiting_guidance RunStatus.running "guidance resolved"
    else if is_pending
    then pure tt
    else if not complete
    then pure tt
    else if status == RunStatus.running
    then complete_run run_id
    else if status == RunStatus.awaiting_guidance
    then transition_run run_id RunStatus.awaiting_guidance RunStatus.running "guidance resolved"
      >> complete_run run_id
    else pure tt

module _ (forum : ControlForum) where
  unfoldable pub guide : String → String → M (Unit {0})
  guide run_id answer = do
    require (not (is_blank answer)) "guidance answer cannot be empty"
    row ← get_run run_id
    require (row.status == RunStatus.awaiting_guidance) "run is not waiting for guidance"
    agents ← get_agents run_id
    states ← forum.control_states run_id agents
    target ← target_of (find_target agents states)
    ticket ← ticket_of run_id target.ticket
    forum.append_answer run_id ticket target.agent_name (trim_space answer)
    ignore (add_event (answer_event run_id target))
    transition_run run_id RunStatus.awaiting_guidance RunStatus.running "guidance answered"

  -- What follows the search for an agent that has failed
  abbrev pub sync_states : String → RunStatus → List AgentRecord → Option AgentRecord → M (Unit {0})
  sync_states run_id status agents (some a) =
      transition_run run_id status RunStatus.failed
        (concat "agent " (concat a.name (concat "@" (concat a.workspace_name " failed"))))
  sync_states run_id status agents none = do
    states ← forum.control_states run_id agents
    sync_status run_id status (any_pending agents states) (all_complete agents states)

  unfoldable pub sync_bootstrap_signals : String → RunStatus → List AgentRecord → M (Unit {0})
  sync_bootstrap_signals run_id status agents =
      if not (status == RunStatus.running) && not (status == RunStatus.awaiting_guidance)
      then pure tt
      else sync_states run_id status agents (find_failed agents)
