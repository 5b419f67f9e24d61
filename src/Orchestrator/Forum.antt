-- ===== src/Orchestrator/Forum.antt =====
-- What `Guide` and `syncBootstrapSignals` (internal/orchestrator/service.go) ask of the forum.
use metawsm.Base.{◌≡◌, String, List}
use metawsm.Model.Plan.{AgentRecord, RunTables}
use metawsm.Store.Sql.{M}
use metawsm.Store.Sql.Triple.{Keeps}
use metawsm.Control.{ForumControlAgentState}

pub record ControlForum : Type 0 where
  pub control_states : String → List AgentRecord → M (List ForumControlAgentState)  -- `forumControlStatesForRun`
  pub append_answer : String → String → String → String → M (Unit {0})  -- `ForumAppendControlSignal` of an answer

-- Neither changes the tables of runs.
pub record IsControlForum (forum : ControlForum) : Type 0 where
  pub states_keep :
      (t : RunTables) (run_id : String) (agents : List AgentRecord)
      → Keeps (λ db. db.runs ≡ t) (forum.control_states run_id agents)
  pub answer_keeps :
      (t : RunTables) (run_id ticket agent answer : String)
      → Keeps (λ db. db.runs ≡ t) (forum.append_answer run_id ticket agent answer)
