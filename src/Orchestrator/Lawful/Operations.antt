-- ===== src/Orchestrator/Lawful/Operations.antt =====
-- The transitions of each operation of internal/orchestrator/service.go.
use metawsm.Base.{String, Bool, true, false, Option, none, some, List, [], ◌∷◌, string_eq}
use metawsm.Model.Run.{RunStatus, run_eq, agent_eq}
use metawsm.Model.Plan.{RunSpec, Config, PlanStep, RunBrief, AgentRecord}
use metawsm.Store.Sql.{Error}
use metawsm.Store.Sql.Triple.{Triple-bind}
use metawsm.Orchestrator.Blind.{Frame-start_session}
use metawsm.Orchestrator.Silent.{Silent}
use metawsm.Orchestrator.Frame.{Frame-pure, Frame-raise, Frame-bind, frame_rules}
use metawsm.Orchestrator.Quiet.{
  Silent-update_agent_status, Silent-add_event, Silent-get_agents, Silent-get_steps,
  Silent-execute_steps, Silent-seed_agents, Silent-save_steps, Silent-upsert_run_brief,
}
use metawsm.Orchestrator.History.{
  MayEnter, Traced, On, Triple-Silent, Traced-Silent, Triple-transition,
}
use metawsm.Orchestrator.Lawful.{
  Lawful, Lawful-weaken, Lawful-silent, Lawful-then, Lawful-before, Lawful-move, Lawful-move_then,
  Lawful-get_run, Lawful-if, Lawful-if_status, Lawful-ignore, Lawful-fail, Triple-handle-Silent,
}
use metawsm.Orchestrator.Lawful.Creation.{Triple-create_run, Triple-create_known}
use metawsm.Orchestrator.Runs.{
  require, require_transition, save_brief, prepare_run, execute_plan, start_plan, run_spec, resume,
  stop_agents, stop, restart_session, restart_agents, restart,
}

pub Silent-require : (b : Bool) (text : String) → Silent (require b text)
Silent-require true text = Frame-pure tt
Silent-require false text = Frame-raise _

Silent-require_transition : (from to : RunStatus) → Silent (require_transition from to)
Silent-require_transition from to = search frame_rules

Silent-stop_agents :
    (run_id : String) (agents : List AgentRecord) → Silent (stop_agents run_id agents)
Silent-stop_agents run_id [] = Frame-pure tt
Silent-stop_agents run_id (a ∷ agents) = Frame-bind _ _ (search frame_rules) (λ _.
    Frame-bind _ _ (search (frame_rules, Silent-update_agent_status))
      (λ _. Silent-stop_agents run_id agents))

Silent-restart_session :
    (dry_run : Bool) (run_id : String) (spec : RunSpec) (a : AgentRecord) (workdir : String)
    → Silent (restart_session dry_run run_id spec a workdir)
Silent-restart_session true run_id spec a workdir = Frame-pure tt
Silent-restart_session false run_id spec a workdir =
    search (frame_rules, Frame-start_session, Silent-update_agent_status)

Silent-restart_agents :
    (dry_run : Bool) (run_id : String) (spec : RunSpec) (agents : List AgentRecord)
    → Silent (restart_agents dry_run run_id spec agents)
Silent-restart_agents dry_run run_id spec [] = Frame-pure tt
Silent-restart_agents dry_run run_id spec (a ∷ agents) =
    Frame-bind _ _ (search frame_rules) (λ path. Frame-bind _ _ (search frame_rules) (λ workdir.
      Frame-bind _ _ (Silent-restart_session dry_run run_id spec a workdir)
        (λ _. Silent-restart_agents dry_run run_id spec agents)))

Silent-save_brief : (spec : RunSpec) (brief : Option RunBrief) → Silent (save_brief spec brief)
Silent-save_brief spec none = Frame-pure tt
Silent-save_brief spec (some b) = Silent-upsert_run_brief _

pub ruleset moves =
    (Lawful-then, Lawful-move_then, Lawful-move, Lawful-if, Lawful-get_run, Lawful-silent)

module _ (allows : String → Option RunStatus → Type 0) where
  pub stop-Lawful :
      (run_id : String)
      → ((s : RunStatus) → MayEnter allows run_id s RunStatus.stopping)
      → MayEnter allows run_id RunStatus.stopping RunStatus.stopped
      → Lawful allows (Traced allows) (stop run_id)
  unfolding stop
  stop-Lawful run_id may_stop may_end =
      search (moves, Silent-require_transition, Silent-get_agents, Silent-stop_agents) depth 12

  pub restart-Lawful :
      (dry_run : Bool) (run_id : String)
      → ((s : RunStatus) → MayEnter allows run_id s RunStatus.running)
      → Lawful allows (Traced allows) (restart dry_run run_id)
  unfolding restart
  restart-Lawful dry_run run_id may = Lawful-get_run allows run_id _ (λ row.
      Lawful-then allows _ _ run_id row.status (Silent-require _ _) (λ _.
        Lawful-then allows _ _ run_id row.status (Silent-get_agents run_id) (λ agents.
          Lawful-then allows _ _ run_id row.status (Silent-require _ _) (λ _.
            Lawful-before allows (On allows run_id row.status) _ _ (search (moves, Frame-pure))
              (λ _.
                Traced-Silent allows _
                  (search (frame_rules, Silent-restart_agents, Silent-add_event) depth 12))))))

  module _ (text_of : Error → String) where
    execute_plan-Lawful :
        (run_id : String) (spec : RunSpec) (cfg : Config) (steps : List PlanStep)
        (monitoring completed : String)
        → MayEnter allows run_id RunStatus.running RunStatus.failed
        → MayEnter allows run_id RunStatus.running RunStatus.completed
        → Lawful allows
            (On allows run_id RunStatus.running)
            (execute_plan text_of run_id spec cfg steps monitoring completed)
    unfolding execute_plan
    execute_plan-Lawful run_id spec cfg steps monitoring completed may_fail may_complete =
        Triple-bind _ _ (λ _. On allows run_id RunStatus.running) (λ _. Traced allows)
          (Triple-handle-Silent allows _ _ run_id RunStatus.running
            (Silent-execute_steps text_of spec cfg steps)
            (λ e.
              Lawful-fail allows _ e _ _
                (Lawful-ignore allows _ _ (Lawful-move allows _ _ _ _ may_fail))))
          (λ _. search (moves, frame_rules, Silent-add_event))

    pub resume-Lawful :
        (run_id : String)
        → ((s : RunStatus) → MayEnter allows run_id s RunStatus.running)
        → MayEnter allows run_id RunStatus.running RunStatus.failed
        → MayEnter allows run_id RunStatus.running RunStatus.completed
        → Lawful allows (Traced allows) (resume text_of run_id)
    unfolding resume
    resume-Lawful run_id may_run may_fail may_complete =
        search (moves, Silent-require_transition, Silent-get_steps, execute_plan-Lawful) depth 12

    start_plan-Lawful :
        (spec : RunSpec) (cfg : Config)
        → MayEnter allows spec.run_id RunStatus.planning RunStatus.paused
        → MayEnter allows spec.run_id RunStatus.planning RunStatus.running
        → MayEnter allows spec.run_id RunStatus.running RunStatus.failed
        → MayEnter allows spec.run_id RunStatus.running RunStatus.completed
        → Lawful allows (On allows spec.run_id RunStatus.planning) (start_plan text_of spec cfg)
    unfolding start_plan
    start_plan-Lawful spec cfg may_pause may_run may_fail may_complete =
        search (moves, execute_plan-Lawful)

    pub run_spec-Lawful :
        (spec : RunSpec) (cfg : Config) (brief : Option RunBrief)
        → allows spec.run_id (some RunStatus.created)
        → MayEnter allows spec.run_id RunStatus.created RunStatus.planning
        → MayEnter allows spec.run_id RunStatus.planning RunStatus.paused
        → MayEnter allows spec.run_id RunStatus.planning RunStatus.running
        → MayEnter allows spec.run_id RunStatus.running RunStatus.failed
        → MayEnter allows spec.run_id RunStatus.running RunStatus.completed
        → Lawful allows (Traced allows) (run_spec text_of spec cfg brief)
    unfolding run_spec prepare_run
    run_spec-Lawful spec cfg brief may_create may_plan may_pause may_run may_fail may_complete =
        Triple-bind _ _ (λ _. On allows spec.run_id RunStatus.planning) (λ _. Traced allows)
          (Triple-bind _ _ (λ _. On allows spec.run_id RunStatus.created)
            (λ _. On allows spec.run_id RunStatus.planning)
            (Triple-create_run allows spec cfg may_create)
            (λ _.
              Triple-bind _ _ (λ _. On allows spec.run_id RunStatus.created)
                (λ _. On allows spec.run_id RunStatus.planning)
                (Triple-Silent allows _ _ _ (Silent-save_brief spec brief))
                (λ _.
                  Triple-bind _ _ (λ _. On allows spec.run_id RunStatus.planning)
                    (λ _. On allows spec.run_id RunStatus.planning)
                    (Triple-transition allows _ _ _ _ may_plan)
                    (λ _. Triple-Silent allows _ _ _ (
                      Frame-bind _ _ (Silent-save_steps spec.run_id _)
                        (λ _. Silent-seed_agents spec.run_id _))))))
          (λ _. start_plan-Lawful spec cfg may_pause may_run may_fail may_complete)

    -- `Run` under an id that the tables have
    pub run_known-Lawful :
        (spec : RunSpec) (cfg : Config) (brief : Option RunBrief) (s : RunStatus)
        → Lawful allows (On allows spec.run_id s) (run_spec text_of spec cfg brief)
    unfolding run_spec prepare_run
    run_known-Lawful spec cfg brief s =
        Triple-bind _ _ (λ _ _. ⊥) (λ _. Traced allows)
          (Triple-bind _ _ (λ _ _. ⊥) (λ _ _. ⊥) (Triple-create_known allows spec cfg s)
            (λ _. record { at = λ w p. absurd p }))
          (λ _. record { at = λ w p. absurd p })
