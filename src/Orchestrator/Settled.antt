-- ===== src/Orchestrator/Settled.antt =====
-- The statuses of the steps of a run while internal/orchestrator/service.go executes them.
pub mod Stays
pub mod Finished
pub mod Plan
mod Examples
use mathlib.Core.Option
use metawsm.Base.{
  ℕ, zero, suc, ◌+◌, String, Bool, true, false, ◌&&◌, ◌||◌, Option, none, some, List, [], ◌∷◌, ◌≡◌,
  refl, sym, ap, ◌∙◌, subst, ◌==◌, nat_eq, string_eq, if◌then◌else◌, arith, eq_iff, Bool-cases, inl,
  inr, ◌⊎◌, leb,
}
use metawsm.Model.Run.{StepStatus, step_eq}
use metawsm.Model.Plan.{RunSpec, Config, PlanStep, StepRecord, RunTables}
use metawsm.Store.Schema.{Tables}
use metawsm.Store.Sql.{Error, Result, ok, err, World, M, pure, raise, ◌>>=◌}
use metawsm.Store.Sql.Triple.{
  Ensures, Triple, Keeps, Triple-bind, Triple-query, Triple-pure, Triple-either, Keeps-pure,
  Keeps-bind, Keeps-if,
}
use metawsm.Store.Runs.{
  is_step, update_steps, set_step, set_step_status, update_step_status, update_agent_status,
  add_event, upsert_doc_sync_state, update_run_doc_freshness_revision, get_run, found_run,
  select_steps, insert_by_index, get_steps,
}
use metawsm.Orchestrator.Frame.{
  Frame, Frame-exec, Frame-query, Frame-pure, Frame-raise, Frame-if, Frame-bind, frame_rules,
}
use metawsm.Orchestrator.Blind.{IsBlind, Frame-execute_single_step}
use metawsm.Orchestrator.Steps.{
  settle_step, attempt_step, again, attempt_steps, conclude, unless_settled, execute_step,
  execute_steps, step_done_or_skipped,
}

-- The status of the step with this number, among the rows of a run
unfoldable pub find_status : String → ℕ → List StepRecord → Option StepStatus
find_status run_id i [] = none
find_status run_id i (r ∷ rs) =
    let rest = find_status run_id i rs in if is_step run_id i r then some r.plan.status else rest

abbrev pub step_status : String → ℕ → RunTables → Option StepStatus
step_status run_id i t = find_status run_id i t.steps

abbrev pub is_settled : Option StepStatus → Bool
is_settled none = false
is_settled (some s) = s == StepStatus.done || s == StepStatus.skipped

-- The first row of this number
abbrev first_status : ℕ → List StepRecord → Option StepStatus
first_status i [] = none
first_status i (r ∷ rs) =
    let rest = first_status i rs in if r.plan.index == i then some r.plan.status else rest

first_status-insert :
    (i : ℕ) (s : StepRecord) (rs : List StepRecord)
    → first_status i (insert_by_index s rs)
      ≡ (if s.plan.index == i then some s.plan.status else first_status i rs)
first_status-insert i s [] = refl
first_status-insert i s (r ∷ rs) = ground (arith, first_status-insert i s rs)

first_status-select :
    (run_id : String) (i : ℕ) (rs : List StepRecord)
    → first_status i (select_steps run_id rs) ≡ find_status run_id i rs
unfolding select_steps find_status is_step
first_status-select run_id i [] = refl
first_status-select run_id i (r ∷ rs) = ground (
  arith,
  eq_iff r.run_id run_id,
  first_status-select run_id i rs,
  first_status-insert i r (select_steps run_id rs),
)

step_done_or_skipped-first :
    (i : ℕ) (rs : List StepRecord) → step_done_or_skipped rs i ≡ is_settled (first_status i rs)
step_done_or_skipped-first i [] = refl
step_done_or_skipped-first i (r ∷ rs) = ground (arith, step_done_or_skipped-first i rs)

-- What `stepDoneOrSkipped` answers for the rows that `GetSteps` returns
pub step_done_or_skipped-select :
    (run_id : String) (i : ℕ) (rs : List StepRecord)
    → step_done_or_skipped (select_steps run_id rs) i ≡ is_settled (find_status run_id i rs)
step_done_or_skipped-select run_id i rs =
    step_done_or_skipped-first i (select_steps run_id rs)
    ∙ ap is_settled (first_status-select run_id i rs)

abbrev pub same_step : String → ℕ → String → ℕ → Bool
same_step k j run_id i = k == run_id && j == i

pub find_status-update :
    (k run_id : String) (j i : ℕ) (s : StepStatus) (text : String) (rs : List StepRecord)
    → find_status run_id i (update_steps k j s text rs) ≡ (
        if same_step k j run_id i
        then Option.map (λ _. s) (find_status run_id i rs)
        else find_status run_id i rs)
unfolding find_status update_steps is_step
find_status-update k run_id j i s text [] = ground arith
find_status-update k run_id j i s text (r ∷ rs) = ground (
  arith,
  eq_iff r.run_id run_id,
  eq_iff r.run_id k,
  eq_iff k run_id,
  find_status-update k run_id j i s text rs,
)

pub step_status-IsBlind : (run_id : String) (i : ℕ) → IsBlind (step_status run_id i)
unfolding update_agent_status add_event upsert_doc_sync_state update_run_doc_freshness_revision
    get_run
step_status-IsBlind run_id i = record {
  to_agents = λ k name workspace s h. Frame-exec _ (λ t. refl);
  to_events = λ e. Frame-exec _ (λ t. refl);
  to_syncs = λ s. Frame-exec _ (λ t. refl);
  to_revisions = λ k revision.
      Frame-bind _ _ (Frame-bind _ _ (Frame-query _) (found k)) (λ row. Frame-exec _ (λ t. refl));
}
  where
    found : {B : Type 0} {view : RunTables → B} (k : String) (o : _) → Frame view (found_run k o)
    found k none = Frame-raise _
    found k (some r) = Frame-pure r
