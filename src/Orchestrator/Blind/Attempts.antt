-- ===== src/Orchestrator/Blind/Attempts.antt =====
-- The attempts at a step (internal/orchestrator/service.go), for a view of the run tables that does
-- not change with the status of this step either.
use metawsm.Base.{ℕ, zero, suc, ◌+◌, String, Bool, true, false, Option, none, some}
use metawsm.Model.Run.{StepStatus, step_eq}
use metawsm.Model.Plan.{RunSpec, Config, PlanStep, RunTables}
use metawsm.Store.Sql.{Error, M}
use metawsm.Store.Runs.{update_step_status, get_steps}
use metawsm.Orchestrator.Frame.{Frame, Frame-pure, Frame-query, Frame-bind, Frame-if, frame_rules}
use metawsm.Orchestrator.Blind.{IsBlind, Frame-execute_single_step}
use metawsm.Orchestrator.Steps.{
  settle_step, attempt_step, again, attempt_steps, conclude, unless_settled, execute_step,
}

module _ {B : Type 0} {view : RunTables → B} (blind : IsBlind view) (text_of : Error → String)
    (spec : RunSpec) (cfg : Config) (step : PlanStep)
    (update : (s : StepStatus) (text : String)
      → Frame view (update_step_status spec.run_id step.index s text)) where
  Frame-settle_step :
      (failure : Option Error) → Frame view (settle_step text_of spec.run_id step failure)
  Frame-settle_step none = search (frame_rules, update, blind.to_events) depth 16
  Frame-settle_step (some e) = search (frame_rules, update, blind.to_events) depth 16

  Frame-attempt_step : (number : ℕ) → Frame view (attempt_step text_of spec cfg step number)
  unfolding attempt_step
  Frame-attempt_step number =
      search
        (frame_rules, update, Frame-settle_step, Frame-execute_single_step, blind, blind.to_events)
        depth 16

  Frame-again :
      (failure : Option Error) (m : M (Option Error))
      → Frame view m
      → Frame view (again text_of failure m)
  Frame-again none m h = Frame-pure none
  Frame-again (some e) m h = h

  Frame-attempt_steps :
      (retries number : ℕ) → Frame view (attempt_steps text_of spec cfg step retries number)
  unfolding attempt_steps
  Frame-attempt_steps zero number = Frame-attempt_step number
  Frame-attempt_steps (suc retries) number =
      Frame-bind _ _ (Frame-attempt_step number)
        (λ failure. Frame-again failure _ (Frame-attempt_steps retries (number + 1)))

  Frame-conclude : (failure : Option Error) → Frame view (conclude text_of spec step failure)
  Frame-conclude none = Frame-pure tt
  Frame-conclude (some e) = search (frame_rules, update)

  pub Frame-unsettled : Frame view (unless_settled text_of spec cfg step false)
  Frame-unsettled = Frame-bind _ _ (Frame-attempt_steps cfg.step_retries 1) Frame-conclude

  Frame-unless_settled : (b : Bool) → Frame view (unless_settled text_of spec cfg step b)
  Frame-unless_settled true = Frame-pure tt
  Frame-unless_settled false = Frame-unsettled

  pub Frame-execute_step : Frame view (execute_step text_of spec cfg step)
  unfolding execute_step get_steps
  Frame-execute_step =
      Frame-if _ _ _ (Frame-pure tt)
        (Frame-bind _ _ (Frame-query _) (λ rows. Frame-unless_settled _))
