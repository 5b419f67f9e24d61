-- ===== src/Orchestrator/Close.antt =====
-- `Close` of internal/orchestrator/service.go, and the checks that come before it.
use metawsm.Base.{
  String, Bool, true, false, not, ◌||◌, Option, none, some, List, [], ◌∷◌, ◌==◌, string_eq,
  if◌then◌else◌,
}
use metawsm.Base.Text.{trim_space, concat, text_ltb}
use metawsm.Base.Rows.{find}
use metawsm.Model.Run.{RunStatus, run_eq}
use metawsm.Model.Plan.{
  RunSpec, AgentRecord, RunBrief, DocSyncStatus, DocSyncState, run_shell, workspace_path,
  doc_repo_path, dirty_repo, dirty_state, ticket_docs,
}
use metawsm.Store.Sql.{Error, refused, M, pure, raise, ◌>>=◌, ◌>>◌, call, ignore, handle}
use metawsm.Store.Runs.{get_run, get_run_brief, get_agents, get_tickets, list_doc_sync_states}
use metawsm.Control.{ForumControlAgentState, state_key}
use metawsm.Orchestrator.Names.{is_blank, or_else, shell_quote, effective_doc_home_repo}
use metawsm.Orchestrator.Steps.{transition_run}
use metawsm.Orchestrator.Forum.{ControlForum}
use metawsm.Orchestrator.Runs.{require}

-- The set of names that are not blank, sorted
abbrev insert_name : String → List String → List String
insert_name s [] = s ∷ []
insert_name s (t ∷ ts) =
    let rest = insert_name s ts in
    if s == t then t ∷ ts else if text_ltb s t then s ∷ t ∷ ts else t ∷ rest

unfoldable pub workspace_names_from_agents : List AgentRecord → List String
workspace_names_from_agents [] = []
workspace_names_from_agents (a ∷ agents) =
    let rest = workspace_names_from_agents agents in
    if is_blank a.workspace_name then rest else insert_name (trim_space a.workspace_name) rest

-- `stateByTicketWorkspace[key]`: the primary key leaves one state for a key.
abbrev sync_key : String → String → String
sync_key ticket workspace = concat ticket (concat "|" workspace)

abbrev find_sync : String → List DocSyncState → Option DocSyncState
find_sync k [] = none
find_sync k (s ∷ ss) =
    let rest = find_sync k ss in if sync_key s.ticket s.workspace_name == k then some s else rest

abbrev is_synced : DocSyncStatus → Bool
is_synced DocSyncStatus.synced = true
is_synced _ = false

abbrev pub require_synced : Option DocSyncState → M (Unit {0})
require_synced none = raise (refused "missing doc sync state; close blocked")
require_synced (some s) =
    if not (is_synced s.status)
    then raise (refused "doc sync status is not synced; close blocked")
    else if is_blank s.revision
    then raise (refused "missing doc sync revision; close blocked")
    else pure tt

-- `ticket_docs` answers "" where it finds no directory.
unfoldable pub check_ticket_docs : List DocSyncState → String → String → List String → M (Unit {0})
check_ticket_docs states workspace root [] = pure tt
check_ticket_docs states workspace root (t ∷ tickets) = do
  require_synced (find_sync (sync_key t workspace) states)
  paths ← call (ticket_docs root t)
  require (not (paths == "")) "docs missing; close blocked"
  check_ticket_docs states workspace root tickets

-- `dirty_state` answers "" where the repository has no uncommitted changes.
unfoldable pub check_workspace_docs :
    RunSpec → List DocSyncState → List String → List String → M (Unit {0})
check_workspace_docs spec states tickets [] = pure tt
check_workspace_docs spec states tickets (w ∷ workspaces) = do
  path ← call (workspace_path w)
  root ← call (doc_repo_path path (effective_doc_home_repo spec) spec.repos)
  check_ticket_docs states w root tickets
  dirty ← call (dirty_state root)
  require (dirty == "") "doc home repo has uncommitted changes; close blocked"
  check_workspace_docs spec states tickets workspaces

unfoldable pub ensure_workspace_doc_close_checks :
    String → RunSpec → List String → List String → M (Unit {0})
ensure_workspace_doc_close_checks run_id spec workspaces tickets =
    let mode = or_else "copy_from_repo_on_start" (trim_space spec.doc_seed_mode) in
    if not (mode == "copy_from_repo_on_start") then pure tt else do
      states ← list_doc_sync_states run_id
      check_workspace_docs spec states tickets workspaces

-- `dirty_repo` answers "" where no repository of the workspace has uncommitted changes.
unfoldable pub check_clean : RunSpec → List String → M (Unit {0})
check_clean spec [] = pure tt
check_clean spec (w ∷ workspaces) = do
  path ← call (workspace_path w)
  dirty ← call (dirty_repo path spec.repos)
  require (dirty == "") "workspace has uncommitted changes; close blocked"
  check_clean spec workspaces

abbrev is_pending : Option ForumControlAgentState → Bool
is_pending none = false
is_pending (some s) = s.pending_guidance

unfoldable pub any_pending : List AgentRecord → List ForumControlAgentState → Bool
any_pending [] states = false
any_pending (a ∷ agents) states =
    let rest = any_pending agents states in
    if is_pending (find state_key a.name states) then true else rest

abbrev pub state_blocks : String → Option ForumControlAgentState → Bool
state_blocks criteria none = true
state_blocks criteria (some s) =
    not s.completion_signaled
    || not (s.validation_status == "passed")
    || not (trim_space s.validation_done_criteria == trim_space criteria)

unfoldable pub any_blocks : String → List AgentRecord → List ForumControlAgentState → Bool
any_blocks criteria [] states = false
any_blocks criteria (a ∷ agents) states =
    let rest = any_blocks criteria agents states in
    if state_blocks criteria (find state_key a.name states) then true else rest

abbrev pub done_criteria_of : Option RunBrief → M String
done_criteria_of none = raise (refused "missing run brief; close blocked")
done_criteria_of (some brief) = pure brief.done_criteria

module _ (forum : ControlForum) where
  unfoldable pub ensure_bootstrap_close_checks : String → M (Unit {0})
  ensure_bootstrap_close_checks run_id = do
    _ ← get_run run_id
    brief ← get_run_brief run_id
    criteria ← done_criteria_of brief
    require (not (is_blank criteria)) "empty done criteria; close blocked"
    agents ← get_agents run_id
    states ← forum.control_states run_id agents
    require (not (any_pending agents states)) "pending forum guidance request(s); close blocked"
    require (not (any_blocks criteria agents states)) "agents are not done; close blocked"

module _ (text_of : Error → String) where
  abbrev pub shell_or_fail : String → String → M (Unit {0})
  shell_or_fail run_id command = handle (call (run_shell command) >>= λ _. pure tt) (λ e.
      ignore (transition_run run_id RunStatus.closing RunStatus.failed (text_of e)) >> raise e)

  unfoldable pub merge_workspaces : Bool → String → List String → M (Unit {0})
  merge_workspaces dry_run run_id [] = pure tt
  merge_workspaces dry_run run_id (w ∷ workspaces) = do
    if dry_run then pure tt else shell_or_fail run_id (concat "wsm merge " (shell_quote w))
    merge_workspaces dry_run run_id workspaces

  abbrev close_command : String → String → String
  close_command ticket entry =
      concat "docmgr ticket close --ticket "
        (concat (shell_quote ticket) (concat " --changelog-entry " (shell_quote entry)))

  unfoldable pub close_tickets : Bool → String → String → List String → M (Unit {0})
  close_tickets dry_run run_id entry [] = pure tt
  close_tickets dry_run run_id entry (t ∷ tickets) = do
    if dry_run then pure tt else shell_or_fail run_id (close_command t entry)
    close_tickets dry_run run_id entry tickets

  module _ (forum : ControlForum) where
    -- `Close` of a run that is completed
    unfoldable pub close_completed : Bool → String → String → RunSpec → M (Unit {0})
    close_completed dry_run entry run_id spec = do
      agents ← get_agents run_id
      tickets ← get_tickets run_id
      let workspaces = workspace_names_from_agents agents
      ensure_workspace_doc_close_checks run_id spec workspaces tickets
      check_clean spec workspaces
      if spec.mode == "bootstrap" then ensure_bootstrap_close_checks forum run_id else pure tt
      transition_run run_id RunStatus.completed RunStatus.closing "close started"
      merge_workspaces dry_run run_id workspaces
      close_tickets dry_run run_id
          (if is_blank entry then concat "Closed by metawsm run " run_id else entry) tickets
      transition_run run_id RunStatus.closing RunStatus.closed "close completed"

    unfoldable pub close : Bool → String → String → M (Unit {0})
    close dry_run entry run_id = do
      row ← get_run run_id
      if row.status == RunStatus.completed
          then close_completed dry_run entry run_id row.spec
          else if row.status == RunStatus.closed
          then pure tt
          else raise (refused "run must be in completed state before close")
