-- ===== src/Model/Plan.antt =====
-- internal/model/types.go and the policy's fields that a run reads (internal/policy/policy.go): the
-- specification of a run, its plan, and the records of runs, steps and agents. The time columns,
-- which no operation that is modelled reads, are left out.
use metawsm.Base.{ℕ, String, Bool, Option, List}
use metawsm.Model.Run.{RunStatus, StepStatus, AgentStatus, HealthState}

pub record AgentSpec : Type 0 where
  pub name : String
  pub command : String

pub record RunSpec : Type 0 where
  pub run_id : String
  pub mode : String
  pub tickets : List String
  pub repos : List String
  pub doc_repo : String
  pub doc_home_repo : String
  pub doc_authority_mode : String
  pub doc_seed_mode : String
  pub doc_freshness_revision : String
  pub base_branch : String
  pub workspace_strategy : String
  pub agents : List AgentSpec
  pub policy_path : String
  pub dry_run : Bool

pub record Config : Type 0 where
  pub step_retries : ℕ
  pub session_pattern : String
  pub branch_prefix : String
  pub default_strategy : String
  pub base_branch : String
  pub authority_mode : String
  pub seed_mode : String

pub record PlanStep : Type 0 where
  pub index : ℕ
  pub name : String
  pub kind : String
  pub command : String
  pub blocking : Bool
  pub ticket : String
  pub workspace_name : String
  pub agent : String
  pub status : StepStatus

pub record StepRecord : Type 0 where
  pub run_id : String
  pub plan : PlanStep
  pub error_text : String

-- The values that spec_json and policy_json hold, before `json.Marshal`
pub record RunRow : Type 0 where
  pub run_id : String
  pub status : RunStatus
  pub spec : RunSpec
  pub policy : Config
  pub error_text : String

pub record AgentRecord : Type 0 where
  pub run_id : String
  pub name : String
  pub workspace_name : String
  pub session_name : String
  pub status : AgentStatus
  pub health_state : HealthState

pub record RunBrief : Type 0 where
  pub run_id : String
  pub ticket : String
  pub goal : String
  pub scope : String
  pub done_criteria : String
  pub constraints : String
  pub merge_intent : String
  pub qa : List (String × String)

pub data DocSyncStatus : Type 0 where
  pending synced failed : DocSyncStatus

pub record DocSyncState : Type 0 where
  pub run_id : String
  pub ticket : String
  pub workspace_name : String
  pub doc_home_repo : String
  pub doc_authority_mode : String
  pub doc_seed_mode : String
  pub status : DocSyncStatus
  pub revision : String
  pub error_text : String

pub record RunEvent : Type 0 where
  pub run_id : String
  pub entity_type : String
  pub entity_id : String
  pub event_type : String
  pub from_state : String
  pub to_state : String
  pub message : String

-- Times are counted in nanoseconds.
pub record OperatorRunState : Type 0 where
  pub run_id : String
  pub restart_attempts : ℕ
  pub last_restart_at : Option ℕ
  pub cooldown_until : Option ℕ
  pub updated_at : ℕ

-- The tables runs, run_tickets, steps, agents, events, run_briefs, doc_sync_states and
-- operator_run_states
pub record RunTables : Type 0 where
  pub runs : List RunRow
  pub tickets : List (String × String)
  pub steps : List StepRecord
  pub agents : List AgentRecord
  pub events : List RunEvent
  pub briefs : List RunBrief
  pub doc_syncs : List DocSyncState
  pub operator_states : List OperatorRunState

-- What the orchestrator asks of the world outside the database: the calls of wsm, docmgr, git and
-- tmux, and the files that they read.
pub data Command : Type 0 where
  run_shell kill_session session_is_missing await_startup workspace_path : String → Command
  doc_repo_path : String → String → List String → Command
  align_workspace : String → List String → String → Command
  sync_ticket_docs : String → String → String → List String → Command
  dirty_repo : String → List String → Command
  dirty_state : String → Command
  ticket_docs : String → String → Command

-- The answer to a command: its result, or the text of its error
pub data Reply : Type 0 where
  answered refused : String → Reply
