-- ===== src/Orchestrator/Quiet.antt =====
-- The calls below a run's operations that leave the statuses of runs alone
-- (internal/orchestrator/service.go, internal/store/sqlite.go).
use mathlib.Core.Option
use metawsm.Base.{
  ℕ, String, Bool, true, false, Option, none, some, List, [], ◌∷◌, ◌≡◌, refl, ap, ◌∙◌, ◌==◌,
  string_eq, if◌then◌else◌,
}
use metawsm.Base.Rows.{find, update, find-update}
use metawsm.Model.Run.{StepStatus, AgentStatus, HealthState}
use metawsm.Model.Plan.{
  RunSpec, Config, PlanStep, RunTables, RunRow, AgentRecord, DocSyncState, RunEvent, RunBrief,
}
use metawsm.Store.Sql.{Error, exec}
use metawsm.Store.Runs.{
  run_key, update_step_status, update_agent_status, add_event, upsert_agent, upsert_doc_sync_state,
  update_run_doc_freshness_revision, get_run, found_run, get_steps, get_agents, get_tickets,
  step_statements, save_steps, upsert_run_brief, on_runs, set_run_revision,
}
use metawsm.Orchestrator.Blind.{IsBlind}
use metawsm.Orchestrator.Blind.Attempts.{Frame-execute_step}
use metawsm.Orchestrator.Silent.{statuses, status_at, row_status, Silent, Silent-exec, Silent-other}
use metawsm.Orchestrator.Frame.{
  Frame-bind, Frame-query, Frame-pure, Frame-raise, Frame-if, Frame-exec_each, Each,
}
use metawsm.Orchestrator.Steps.{execute_steps, seed_from, seed_agents}

pub Silent-update_step_status :
    (run_id : String) (i : ℕ) (s : StepStatus) (text : String)
    → Silent (update_step_status run_id i s text)
unfolding update_step_status
Silent-update_step_status run_id i s text = Silent-other _ (λ t. refl)

pub Silent-update_agent_status :
    (run_id name workspace : String) (s : AgentStatus) (h : HealthState)
    → Silent (update_agent_status run_id name workspace s h)
unfolding update_agent_status
Silent-update_agent_status run_id name workspace s h = Silent-other _ (λ t. refl)

pub Silent-add_event : (e : RunEvent) → Silent (add_event e)
unfolding add_event
Silent-add_event e = Silent-other _ (λ t. refl)

pub Silent-upsert_agent : (a : AgentRecord) → Silent (upsert_agent a)
unfolding upsert_agent
Silent-upsert_agent a = Silent-other _ (λ t. refl)

pub Silent-upsert_doc_sync_state : (s : DocSyncState) → Silent (upsert_doc_sync_state s)
unfolding upsert_doc_sync_state
Silent-upsert_doc_sync_state s = Silent-other _ (λ t. refl)

pub Silent-get_agents : (run_id : String) → Silent (get_agents run_id)
unfolding get_agents
Silent-get_agents run_id = Frame-query _

pub Silent-get_steps : (run_id : String) → Silent (get_steps run_id)
unfolding get_steps
Silent-get_steps run_id = Frame-query _

pub Silent-get_tickets : (run_id : String) → Silent (get_tickets run_id)
unfolding get_tickets
Silent-get_tickets run_id = Frame-query _

Silent-found_run : (run_id : String) (o : Option RunRow) → Silent (found_run run_id o)
Silent-found_run run_id none = Frame-raise _
Silent-found_run run_id (some r) = Frame-pure r

pub Silent-get_run : (run_id : String) → Silent (get_run run_id)
unfolding get_run
Silent-get_run run_id = Frame-bind _ _ (Frame-query _) (Silent-found_run run_id)

-- A change of rows under one id that keeps their ids and statuses
status_at-update :
    (k j : String) (f : RunRow → RunRow) (t : RunTables)
    → ((r : RunRow) → run_key (f r) ≡ run_key r)
    → ((r : RunRow) → row_status (f r) ≡ row_status r)
    → status_at j (record t { runs = update run_key k f t.runs }) ≡ status_at j t
unfolding status_at
status_at-update k j f t key status =
    ap (Option.map row_status) (find-update run_key k j f t.runs key)
    ∙ map_kept (k == j) (find run_key j t.runs)
  where
    map_kept :
        (b : Bool) (o : Option RunRow)
        → Option.map row_status (if b then Option.map f o else o) ≡ Option.map row_status o
    map_kept true (some r) = ap some (status r)
    map_kept true none = refl
    map_kept false o = refl

Silent-set_run_spec :
    (run_id revision : String) (spec : RunSpec)
    → Silent (exec (on_runs (set_run_revision run_id revision spec)))
Silent-set_run_spec run_id revision spec =
    Silent-exec _ (λ t j. status_at-update run_id j _ t (λ r. refl) (λ r. refl))

pub Silent-update_revision :
    (run_id revision : String) → Silent (update_run_doc_freshness_revision run_id revision)
unfolding update_run_doc_freshness_revision
Silent-update_revision run_id revision =
    Frame-bind _ _ (Silent-get_run run_id) (λ row. Silent-set_run_spec run_id revision row.spec)

statuses-IsBlind : IsBlind statuses
statuses-IsBlind = record {
  to_agents = Silent-update_agent_status;
  to_events = Silent-add_event;
  to_syncs = Silent-upsert_doc_sync_state;
  to_revisions = Silent-update_revision;
}

module _ (text_of : Error → String) where
  pub Silent-execute_steps :
      (spec : RunSpec) (cfg : Config) (steps : List PlanStep)
      → Silent (execute_steps text_of spec cfg steps)
  unfolding execute_steps
  Silent-execute_steps spec cfg [] = Frame-pure tt
  Silent-execute_steps spec cfg (step ∷ steps) =
      Frame-bind _ _
        (Frame-execute_step statuses-IsBlind text_of spec cfg step
          (Silent-update_step_status spec.run_id step.index))
        (λ _. Silent-execute_steps spec cfg steps)

Silent-seed_from :
    (run_id : String) (steps : List PlanStep) (seen : List String)
    → Silent (seed_from run_id seen steps)
unfolding seed_from
Silent-seed_from run_id [] seen = Frame-pure tt
Silent-seed_from run_id (step ∷ steps) seen = Frame-if _ _ _ (Silent-seed_from run_id steps seen) (
    Frame-if _ _ _ (Silent-seed_from run_id steps seen)
      (Frame-bind _ _ (Silent-upsert_agent _) (λ _. Silent-seed_from run_id steps _)))

pub Silent-seed_agents :
    (run_id : String) (steps : List PlanStep) → Silent (seed_agents run_id steps)
unfolding seed_agents
Silent-seed_agents run_id steps = Silent-seed_from run_id steps []

Each-steps :
    (run_id : String) (steps : List PlanStep) → Each statuses (step_statements run_id steps)
unfolding step_statements status_at
Each-steps run_id [] = tt
Each-steps run_id (s ∷ ss) = ((λ t. refl), Each-steps run_id ss)

pub Silent-save_steps : (run_id : String) (steps : List PlanStep) → Silent (save_steps run_id steps)
unfolding save_steps
Silent-save_steps run_id [] = Frame-pure tt
Silent-save_steps run_id (s ∷ ss) = Frame-exec_each statuses _ (Each-steps run_id (s ∷ ss))

pub Silent-upsert_run_brief : (b : RunBrief) → Silent (upsert_run_brief b)
unfolding upsert_run_brief
Silent-upsert_run_brief b = Silent-other _ (λ t. refl)
