-- ===== src/Store/Runs.antt =====
-- internal/store/sqlite.go: the statements on runs, steps, agents and run events.
use mathlib.Core.Option
use Prim.Native.Nat.{◌%◌}
use metawsm.Base.{
  ℕ, ◌-◌, String, Bool, true, false, ◌&&◌, Option, none, some, List, [], ◌∷◌, ◌++◌, leb, ◌==◌,
  nat_eq, string_eq, if◌then◌else◌,
}
use metawsm.Base.Text.{trim_space, text_ltb}
use metawsm.Base.Rows.{find, update, insert, upsert}
use metawsm.Model.Run.{RunStatus, StepStatus, AgentStatus, HealthState}
use metawsm.Model.Plan.{
  RunSpec, Config, PlanStep, StepRecord, RunRow, AgentRecord, RunBrief, DocSyncState, RunEvent,
  RunTables, OperatorRunState,
}
use metawsm.Store.Schema.{Tables}
use metawsm.Store.Sql.{not_found, M, pure, raise, ◌>>=◌, ◌>>◌, exec, exec_each, query}

abbrev pub run_key : RunRow → String
run_key r = r.run_id

abbrev brief_key : RunBrief → String
brief_key b = b.run_id

-- A script that changes the run tables alone
abbrev pub on_runs : (RunTables → RunTables) → Tables → Option Tables
on_runs f db = some (record db { runs = f db.runs })

abbrev pub created_row : RunSpec → Config → RunRow
created_row spec policy = record {
  run_id = spec.run_id;
  status = RunStatus.created;
  spec = spec;
  policy = policy;
  error_text = "";
}

unfoldable pub insert_run : RunSpec → Config → Tables → Option Tables
insert_run spec policy db =
    Option.map (λ rows. record db { runs = record db.runs { runs = rows } })
      (insert run_key (created_row spec policy) db.runs.runs)

abbrev has_ticket : String → String → List (String × String) → Bool
has_ticket run_id ticket [] = false
has_ticket run_id ticket (r ∷ rs) =
    let rest = has_ticket run_id ticket rs in if r.0 == run_id && r.1 == ticket then true else rest

-- INSERT OR IGNORE of one ticket
abbrev pub insert_ticket : String → String → RunTables → RunTables
insert_ticket run_id ticket t = record t {
  tickets =
      if has_ticket run_id ticket t.tickets then t.tickets else t.tickets ++ (run_id, ticket) ∷ [];
}

abbrev pub on_tables : (RunTables → RunTables) → Tables → Tables
on_tables f db = record db { runs = f db.runs }

unfoldable pub ticket_statements : String → List String → List (Tables → Tables)
ticket_statements run_id [] = []
ticket_statements run_id (t ∷ ts) = on_tables (insert_ticket run_id t) ∷ ticket_statements run_id ts

-- The second script is sent where the specification has tickets.
unfoldable pub save_tickets : RunSpec → List String → M (Unit {0})
unfolding ticket_statements
save_tickets spec [] = pure tt
save_tickets spec (t ∷ ts) = exec_each (ticket_statements spec.run_id (t ∷ ts))

unfoldable pub create_run : RunSpec → Config → M (Unit {0})
create_run spec policy = do exec (insert_run spec policy); save_tickets spec spec.tickets

unfoldable pub is_step : String → ℕ → StepRecord → Bool
is_step run_id i r = r.run_id == run_id && r.plan.index == i

-- INSERT OR REPLACE takes the row away that has the key, and adds the new one.
unfoldable pub remove_step : String → ℕ → List StepRecord → List StepRecord
unfolding is_step
remove_step run_id i [] = []
remove_step run_id i (r ∷ rs) =
    let rest = remove_step run_id i rs in if is_step run_id i r then rest else r ∷ rest

abbrev step_row : String → PlanStep → StepRecord
step_row run_id step = record { run_id = run_id; plan = step; error_text = "" }

abbrev pub insert_step : String → PlanStep → RunTables → RunTables
insert_step run_id step t = record t {
  steps = remove_step run_id step.index t.steps ++ step_row run_id step ∷ [];
}

unfoldable pub step_statements : String → List PlanStep → List (Tables → Tables)
step_statements run_id [] = []
step_statements run_id (s ∷ ss) = on_tables (insert_step run_id s) ∷ step_statements run_id ss

unfoldable pub save_steps : String → List PlanStep → M (Unit {0})
unfolding step_statements
save_steps run_id [] = pure tt
save_steps run_id (s ∷ ss) = exec_each (step_statements run_id (s ∷ ss))

unfoldable pub is_agent : String → String → String → AgentRecord → Bool
is_agent run_id name workspace r =
    r.run_id == run_id && r.name == name && r.workspace_name == workspace

unfoldable pub remove_agent : AgentRecord → List AgentRecord → List AgentRecord
unfolding is_agent
remove_agent a [] = []
remove_agent a (r ∷ rs) =
    let rest = remove_agent a rs in
    if is_agent a.run_id a.name a.workspace_name r then rest else r ∷ rest

abbrev replace_agent : AgentRecord → RunTables → RunTables
replace_agent a t = record t { agents = remove_agent a t.agents ++ a ∷ [] }

unfoldable pub upsert_agent : AgentRecord → M (Unit {0})
upsert_agent a = exec (on_runs (replace_agent a))

abbrev pub set_status : RunStatus → String → RunRow → RunRow
set_status status text r = record r { status = status; error_text = text }

abbrev pub set_run_status : String → RunStatus → String → RunTables → RunTables
set_run_status run_id status text t = record t {
  runs = update run_key run_id (set_status status text) t.runs;
}

unfoldable pub update_run_status : String → RunStatus → String → M (Unit {0})
update_run_status run_id status text = exec (on_runs (set_run_status run_id status text))

abbrev pub set_step : StepStatus → String → StepRecord → StepRecord
set_step status text r = record r { plan = record r.plan { status = status }; error_text = text }

unfoldable pub update_steps : String → ℕ → StepStatus → String → List StepRecord → List StepRecord
unfolding is_step
update_steps run_id i status text [] = []
update_steps run_id i status text (r ∷ rs) =
    (if is_step run_id i r then set_step status text r else r)
    ∷ update_steps run_id i status text rs

abbrev pub set_step_status : String → ℕ → StepStatus → String → RunTables → RunTables
set_step_status run_id i status text t = record t {
  steps = update_steps run_id i status text t.steps;
}

unfoldable pub update_step_status : String → ℕ → StepStatus → String → M (Unit {0})
update_step_status run_id i status text = exec (on_runs (set_step_status run_id i status text))

abbrev set_agent : AgentStatus → HealthState → AgentRecord → AgentRecord
set_agent status state r = record r { status = status; health_state = state }

unfoldable pub update_agents :
    String → String → String → AgentStatus → HealthState → List AgentRecord → List AgentRecord
unfolding is_agent
update_agents run_id name workspace status state [] = []
update_agents run_id name workspace status state (r ∷ rs) =
    (if is_agent run_id name workspace r then set_agent status state r else r)
    ∷ update_agents run_id name workspace status state rs

abbrev pub set_agent_status :
    String → String → String → AgentStatus → HealthState → RunTables → RunTables
set_agent_status run_id name workspace status state t = record t {
  agents = update_agents run_id name workspace status state t.agents;
}

unfoldable pub update_agent_status :
    String → String → String → AgentStatus → HealthState → M (Unit {0})
update_agent_status run_id name workspace status state =
    exec (on_runs (set_agent_status run_id name workspace status state))

abbrev pub append_event : RunEvent → RunTables → RunTables
append_event e t = record t { events = t.events ++ e ∷ [] }

unfoldable pub add_event : RunEvent → M (Unit {0})
add_event e = exec (on_runs (append_event e))

abbrev remove_brief : String → List RunBrief → List RunBrief
remove_brief run_id [] = []
remove_brief run_id (b ∷ bs) =
    let rest = remove_brief run_id bs in if b.run_id == run_id then rest else b ∷ rest

abbrev replace_brief : RunBrief → RunTables → RunTables
replace_brief b t = record t { briefs = remove_brief b.run_id t.briefs ++ b ∷ [] }

unfoldable pub upsert_run_brief : RunBrief → M (Unit {0})
upsert_run_brief b = exec (on_runs (replace_brief b))

-- The primary key of doc_sync_states
abbrev same_sync : DocSyncState → DocSyncState → Bool
same_sync s r = r.run_id == s.run_id && r.ticket == s.ticket && r.workspace_name == s.workspace_name

abbrev remove_sync : DocSyncState → List DocSyncState → List DocSyncState
remove_sync s [] = []
remove_sync s (r ∷ rs) = let rest = remove_sync s rs in if same_sync s r then rest else r ∷ rest

abbrev replace_sync : DocSyncState → RunTables → RunTables
replace_sync s t = record t { doc_syncs = remove_sync s t.doc_syncs ++ s ∷ [] }

unfoldable pub upsert_doc_sync_state : DocSyncState → M (Unit {0})
upsert_doc_sync_state s = exec (on_runs (replace_sync s))

abbrev select_brief : String → List RunBrief → Option RunBrief
select_brief run_id [] = none
select_brief run_id (b ∷ bs) =
    let rest = select_brief run_id bs in if b.run_id == run_id then some b else rest

unfoldable pub get_run_brief : String → M (Option RunBrief)
get_run_brief run_id = query (λ db. select_brief run_id db.runs.briefs)

-- The rows of a run, in the order of their insertion: the caller puts them in a map.
abbrev select_syncs : String → List DocSyncState → List DocSyncState
select_syncs run_id [] = []
select_syncs run_id (s ∷ ss) =
    let rest = select_syncs run_id ss in if s.run_id == run_id then s ∷ rest else rest

unfoldable pub list_doc_sync_states : String → M (List DocSyncState)
list_doc_sync_states run_id = query (λ db. select_syncs run_id db.runs.doc_syncs)

abbrev pub found_run : String → Option RunRow → M RunRow
found_run run_id none = raise (not_found run_id)
found_run run_id (some r) = pure r

abbrev pub select_run : String → Tables → Option RunRow
select_run run_id db = find run_key run_id db.runs.runs

unfoldable pub get_run : String → M RunRow
get_run run_id = do row ← query (select_run run_id); found_run run_id row

abbrev pub set_run_spec : String → RunSpec → RunRow → RunRow
set_run_spec revision spec r = record r {
  spec = record spec { doc_freshness_revision = trim_space revision };
}

abbrev pub set_run_revision : String → String → RunSpec → RunTables → RunTables
set_run_revision run_id revision spec t = record t {
  runs = update run_key run_id (set_run_spec revision spec) t.runs;
}

unfoldable pub update_run_doc_freshness_revision : String → String → M (Unit {0})
update_run_doc_freshness_revision run_id revision = do
  row ← get_run run_id
  exec (on_runs (set_run_revision run_id revision row.spec))

-- ORDER BY step_index
abbrev pub insert_by_index : StepRecord → List StepRecord → List StepRecord
insert_by_index s [] = s ∷ []
insert_by_index s (r ∷ rs) =
    let rest = insert_by_index s rs in
    if leb s.plan.index r.plan.index then s ∷ r ∷ rs else r ∷ rest

unfoldable pub select_steps : String → List StepRecord → List StepRecord
select_steps run_id [] = []
select_steps run_id (r ∷ rs) =
    let rest = select_steps run_id rs in if r.run_id == run_id then insert_by_index r rest else rest

unfoldable pub get_steps : String → M (List StepRecord)
get_steps run_id = query (λ db. select_steps run_id db.runs.steps)

-- ORDER BY workspace_name, agent_name
abbrev agent_leb : AgentRecord → AgentRecord → Bool
agent_leb a b =
    if a.workspace_name == b.workspace_name
    then not_after a.name b.name
    else text_ltb a.workspace_name b.workspace_name
  where
    not_after : String → String → Bool
    not_after s t = if text_ltb t s then false else true

abbrev insert_by_name : AgentRecord → List AgentRecord → List AgentRecord
insert_by_name a [] = a ∷ []
insert_by_name a (b ∷ bs) =
    let rest = insert_by_name a bs in if agent_leb a b then a ∷ b ∷ bs else b ∷ rest

unfoldable pub select_agents : String → List AgentRecord → List AgentRecord
select_agents run_id [] = []
select_agents run_id (r ∷ rs) =
    let rest = select_agents run_id rs in if r.run_id == run_id then insert_by_name r rest else rest

unfoldable pub get_agents : String → M (List AgentRecord)
get_agents run_id = query (λ db. select_agents run_id db.runs.agents)

abbrev insert_text : String → List String → List String
insert_text s [] = s ∷ []
insert_text s (t ∷ ts) =
    let rest = insert_text s ts in if text_ltb t s then t ∷ rest else s ∷ t ∷ ts

-- ORDER BY ticket
unfoldable pub select_tickets : String → List (String × String) → List String
select_tickets run_id [] = []
select_tickets run_id (r ∷ rs) =
    let rest = select_tickets run_id rs in if r.0 == run_id then insert_text r.1 rest else rest

unfoldable pub get_tickets : String → M (List String)
get_tickets run_id = query (λ db. select_tickets run_id db.runs.tickets)

abbrev pub operator_key : OperatorRunState → String
operator_key s = s.run_id

-- `formatTime` writes whole seconds.
abbrev whole_seconds : ℕ → ℕ
whole_seconds t = t - t % 1000000000

abbrev pub stored_operator : OperatorRunState → OperatorRunState
stored_operator s = record s {
  last_restart_at = Option.map whole_seconds s.last_restart_at;
  cooldown_until = Option.map whole_seconds s.cooldown_until;
  updated_at = whole_seconds s.updated_at;
}

abbrev pub save_operator : OperatorRunState → RunTables → RunTables
save_operator s t = record t {
  operator_states = upsert operator_key (stored_operator s) t.operator_states;
}

-- INSERT OR REPLACE under the primary key run_id
unfoldable pub upsert_operator_run_state : OperatorRunState → M (Unit {0})
upsert_operator_run_state s = exec (on_runs (save_operator s))

abbrev pub find_operator : String → RunTables → Option OperatorRunState
find_operator run_id t = find operator_key run_id t.operator_states

unfoldable pub get_operator_run_state : String → M (Option OperatorRunState)
get_operator_run_state run_id = query (λ db. find_operator run_id db.runs)
