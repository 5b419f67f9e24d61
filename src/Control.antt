-- ===== src/Control.antt =====
-- internal/model/forum_control.go and internal/orchestrator/service_forum_control.go: the control
-- messages that agents and operators post, and what they say of each agent of a run. Decoding the
-- JSON of a post is a parameter.
pub mod Signals
pub mod Verdicts
mod Examples
use mathlib.Core.Option
use metawsm.Base.{
  ℕ, String, Bool, true, false, ◌&&◌, ◌||◌, not, Option, none, some, List, [], ◌∷◌, ◌==◌, nat_eq,
  string_eq, if◌then◌else◌,
}
use metawsm.Base.Text.{trim_space, to_lower}
use metawsm.Base.Rows.{find, upsert}
use metawsm.Store.Sql.{Error, required, invalid, Result, ok, err}

-- `unknown` is any other text.
pub data ForumControlType : Type 0 where
  guidance_request guidance_answer completion validation unknown : ForumControlType

pub record ForumControlPayload : Type 0 where
  pub schema_version : ℕ
  pub control_type : ForumControlType
  pub run_id : String
  pub agent_name : String
  pub question : String
  pub context : String
  pub answer : String
  pub summary : String
  pub status : String
  pub done_criteria : String

abbrev pub is_blank : String → Bool
is_blank s = trim_space s == ""

-- `strings.TrimSpace(strings.ToLower(s))`
abbrev pub status_of : String → String
status_of s = trim_space (to_lower s)

-- The switch of `Validate`: the error, if any
abbrev pub validate_type : ForumControlType → ForumControlPayload → Option Error
validate_type guidance_request p = if is_blank p.question then some (required "question") else none
validate_type guidance_answer p = if is_blank p.answer then some (required "answer") else none
validate_type completion p = none
validate_type validation p =
    if not (status_of p.status == "passed") && not (status_of p.status == "failed")
    then some (invalid "status")
    else if is_blank p.done_criteria
    then some (required "done_criteria")
    else none
validate_type unknown p = some (invalid "control_type")

unfoldable pub validate : ForumControlPayload → Option Error
validate p =
    if not (p.schema_version == 1)
    then some (invalid "schema_version")
    else if is_blank p.run_id
    then some (required "run_id")
    else if is_blank p.agent_name
    then some (required "agent_name")
    else validate_type p.control_type p

-- `AgentRecord`, `ForumControlThread` and `ForumPost` in the fields that are read
pub record Agent : Type 0 where
  pub name : String
  pub workspace_name : String

pub record Mapping : Type 0 where
  pub agent_name : String
  pub ticket : String
  pub thread_id : String

pub record ForumControlAgentState : Type 0 where
  pub run_id : String
  pub agent_name : String
  pub workspace_name : String
  pub thread_id : String
  pub ticket : String
  pub pending_guidance : Bool
  pub pending_guidance_question : String
  pub completion_signaled : Bool
  pub validation_status : String
  pub validation_done_criteria : String

abbrev pub state_key : ForumControlAgentState → String
state_key s = s.agent_name

abbrev pub blank_state : String → String → String → ForumControlAgentState
blank_state run_id agent_name workspace_name = record {
  run_id = run_id;
  agent_name = agent_name;
  workspace_name = workspace_name;
  thread_id = "";
  ticket = "";
  pending_guidance = false;
  pending_guidance_question = "";
  completion_signaled = false;
  validation_status = "";
  validation_done_criteria = "";
}

-- The switch over `payload.ControlType`
abbrev pub signal :
    ForumControlType → ForumControlPayload → ForumControlAgentState → ForumControlAgentState
signal guidance_request p s = record s {
  pending_guidance = true;
  pending_guidance_question = trim_space p.question;
}
signal guidance_answer p s = record s { pending_guidance = false; pending_guidance_question = "" }
signal completion p s = record s { completion_signaled = true }
signal validation p s = record s {
  validation_status = status_of p.status;
  validation_done_criteria = trim_space p.done_criteria;
}
signal unknown p s = s

module _ (decode : String → Option ForumControlPayload) where
  abbrev pub validated : Option ForumControlPayload → Option ForumControlPayload
  validated none = none
  validated (some p) = elim (validate p) [ none ↦ some p | some _ ↦ none ]

  unfoldable pub parse_forum_control_payload : String → Option ForumControlPayload
  parse_forum_control_payload body =
      if trim_space body == "" then none else validated (decode (trim_space body))

  abbrev pub apply_payload :
      String → Option ForumControlPayload → ForumControlAgentState → ForumControlAgentState
  apply_payload run_id none s = s
  apply_payload run_id (some p) s =
      if not (p.run_id == run_id) || not (p.agent_name == s.agent_name)
      then s
      else signal p.control_type p s

  unfoldable pub apply_posts :
      String → List String → ForumControlAgentState → ForumControlAgentState
  apply_posts run_id [] s = s
  apply_posts run_id (body ∷ bodies) s =
      apply_posts run_id bodies (apply_payload run_id (parse_forum_control_payload body) s)

-- The loop over the agents
unfoldable pub states_of_agents :
    String → List Agent → List ForumControlAgentState → List ForumControlAgentState
states_of_agents run_id [] states = states
states_of_agents run_id (a ∷ agents) states =
    if is_blank a.name
    then states_of_agents run_id agents states
    else states_of_agents run_id agents (
        upsert state_key (blank_state run_id (trim_space a.name) (trim_space a.workspace_name))
          states)

abbrev pub state_or_blank : String → String → Option ForumControlAgentState → ForumControlAgentState
state_or_blank run_id agent_name none = blank_state run_id agent_name ""
state_or_blank run_id agent_name (some s) = s

-- `posts` is what `ListForumPosts(threadID, 1000)` answers, in the bodies of the posts.
module _ (decode : String → Option ForumControlPayload)
    (posts : String → Result (List String)) where
  abbrev pub mapped_state : String → Mapping → List ForumControlAgentState → ForumControlAgentState
  mapped_state run_id m states =
      record (state_or_blank run_id (trim_space m.agent_name)
        (find state_key (trim_space m.agent_name) states)) {
          thread_id = trim_space m.thread_id;
          ticket = trim_space m.ticket;
        }

  abbrev pub read_mapping :
      String
      → ForumControlAgentState
      → Result (List String)
      → List ForumControlAgentState
      → Result (List ForumControlAgentState)
  read_mapping run_id state (err e) states = err e
  read_mapping run_id state (ok bodies) states =
      ok (upsert state_key (apply_posts decode run_id bodies state) states)

  abbrev pub chain :
      Result (List ForumControlAgentState)
      → (List ForumControlAgentState → Result (List ForumControlAgentState))
      → Result (List ForumControlAgentState)
  chain (err e) rest = err e
  chain (ok states) rest = rest states

  -- The loop over the mappings
  unfoldable pub read_mappings :
      String → List Mapping → List ForumControlAgentState → Result (List ForumControlAgentState)
  read_mappings run_id [] states = ok states
  read_mappings run_id (m ∷ ms) states =
      chain
        (read_mapping run_id (mapped_state run_id m states) (posts (trim_space m.thread_id)) states)
        (read_mappings run_id ms)

  abbrev pub read_answer :
      String → List Agent → Result (List Mapping) → Result (List ForumControlAgentState)
  read_answer run_id agents (err e) = err e
  read_answer run_id agents (ok mappings) =
      read_mappings run_id mappings (states_of_agents run_id agents [])

  -- `mappings` is what `ListForumControlThreads` answers for a run.
  unfoldable pub forum_control_states_for_run :
      (String → Result (List Mapping)) → String → List Agent → Result (List ForumControlAgentState)
  forum_control_states_for_run mappings run_id agents =
      if trim_space run_id == ""
      then err (required "run_id")
      else read_answer (trim_space run_id) agents (mappings (trim_space run_id))
