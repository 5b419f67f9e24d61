-- ===== src/Orchestrator/Operations.antt =====
-- The operations of internal/orchestrator/service.go in any order, each returning or failing: what
-- becomes of a run.
pub mod Leave
pub mod Moves
pub mod Ending
mod Examples
use metawsm.Base.{
  String, Bool, true, false, Option, none, some, List, [], ◌∷◌, ◌≡◌, refl, sym, subst,
}
use metawsm.Model.Run.{RunStatus}
use metawsm.Model.Plan.{RunSpec, Config, RunBrief, RunTables}
use metawsm.Hsm.Reach.{Walk, InOrder, closing_order}
use metawsm.Store.Sql.{Error, World, M, pure, ◌>>=◌}
use metawsm.Store.Sql.Triple.{Triple-either}
use metawsm.Store.Runs.{get_run, get_agents}
use metawsm.Orchestrator.Forum.{ControlForum, IsControlForum}
use metawsm.Orchestrator.Silent.{status_at}
use metawsm.Orchestrator.Quiet.{Silent-get_agents}
use metawsm.Orchestrator.Runs.{run_spec, resume, stop, restart}
use metawsm.Orchestrator.Close.{close}
use metawsm.Orchestrator.Guidance.{guide, sync_bootstrap_signals}
use metawsm.Orchestrator.Lawful.{Lawful, Lawful-then, Lawful-get_run}
use metawsm.Orchestrator.Lawful.Operations.{
  run_spec-Lawful, resume-Lawful, stop-Lawful, restart-Lawful,
}
use metawsm.Orchestrator.Lawful.Endings.{close-Lawful, guide-Lawful, sync_bootstrap_signals-Lawful}

pub data Operation : Type 0 where
  op_run : RunSpec → Config → Option RunBrief → Operation
  op_resume op_stop op_sync : String → Operation
  op_restart : Bool → String → Operation
  op_guide : String → String → Operation
  op_close : Bool → String → String → Operation

-- The run that an operation is for
abbrev pub subject : Operation → String
subject (op_run spec cfg brief) = spec.run_id
subject (op_resume run_id) = run_id
subject (op_stop run_id) = run_id
subject (op_sync run_id) = run_id
subject (op_restart dry_run run_id) = run_id
subject (op_guide run_id answer) = run_id
subject (op_close dry_run entry run_id) = run_id

module _ (text_of : Error → String) (forum : ControlForum) where
  -- What `Status` does to a run: its record and its agents are read, and the signals are followed.
  abbrev pub sync_run : String → M (Unit {0})
  sync_run run_id = do
    row ← get_run run_id
    agents ← get_agents run_id
    sync_bootstrap_signals forum run_id row.status agents

  abbrev pub perform : Operation → M (Unit {0})
  perform (op_run spec cfg brief) = run_spec text_of spec cfg brief
  perform (op_resume run_id) = resume text_of run_id
  perform (op_stop run_id) = stop run_id
  perform (op_sync run_id) = sync_run run_id
  perform (op_restart dry_run run_id) = restart dry_run run_id
  perform (op_guide run_id answer) = guide forum run_id answer
  perform (op_close dry_run entry run_id) = close text_of forum dry_run entry run_id

  unfoldable pub perform_all : List Operation → World → World
  perform_all [] w = w
  perform_all (o ∷ os) w = perform_all os (perform o w).1
