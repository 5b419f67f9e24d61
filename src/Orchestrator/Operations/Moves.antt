-- ===== src/Orchestrator/Operations/Moves.antt =====
-- What one operation of internal/orchestrator/service.go may make of the status of its run.
use metawsm.Base.{
  String, Bool, true, false, ◌||◌, Option, none, some, ◌≡◌, refl, sym, ◌∙◌, subst, ◌==◌, string_eq,
  arith, eq_iff, eq_refl, Option-cases, ◌⊎◌, inl, inr,
}
use metawsm.Model.Run.{RunStatus, run_eq}
use metawsm.Model.Plan.{RunSpec, Config, RunBrief}
use metawsm.Hsm.{can_transition_run}
use metawsm.Store.Sql.{Error, World}
use metawsm.Store.Sql.Triple.{Triple-either}
use metawsm.Orchestrator.Forum.{ControlForum, IsControlForum}
use metawsm.Orchestrator.Silent.{status_at}
use metawsm.Orchestrator.Quiet.{Silent-get_agents}
use metawsm.Orchestrator.History.{MayEnter, Traced, On}
use metawsm.Orchestrator.Lawful.{Lawful, Lawful-then, Lawful-get_run}
use metawsm.Orchestrator.Lawful.Operations.{
  run_spec-Lawful, run_known-Lawful, resume-Lawful, stop-Lawful, restart-Lawful,
}
use metawsm.Orchestrator.Lawful.Endings.{close-Lawful, guide-Lawful, sync_bootstrap_signals-Lawful}
use metawsm.Orchestrator.Runs.{run_spec}
use metawsm.Orchestrator.Operations.{
  Operation, op_run, op_resume, op_stop, op_sync, op_restart, op_guide, op_close, subject, perform,
}
use metawsm.Orchestrator.Operations.Leave.{
  starts_as, may_leave, stays, stop_enters, stop_ends, resume_enters, resume_ends, restart_enters,
  guide_enters, sync_enters, close_enters,
}

-- The description holds of the operation's run, and every other run has its status still.
abbrev Moved : Operation → (String → Option RunStatus) → String → Option RunStatus → Type 0
Moved o found j p =
    ((subject o == j) ≡ true → may_leave o (found (subject o)) p ≡ true)
    × ((subject o == j) ≡ false → p ≡ found j)

module _ (o : Operation) (found : String → Option RunStatus) where
  Moved-found : (j : String) → Moved o found j (found j)
  Moved-found j = (
    (λ e.
        subst (λ k. may_leave o (found (subject o)) (found k) ≡ true) ((eq_iff (subject o) j).0 e)
          (stays o (found (subject o)))),
    (λ e. refl),
  )

  Moved-subject :
      (p : Option RunStatus)
      → may_leave o (found (subject o)) p ≡ true
      → Moved o found (subject o) p
  Moved-subject p h = ((λ e. h), (λ e. ground (arith, eq_refl (subject o))))

  Moved-MayEnter :
      (from to : RunStatus)
      → (may_leave o (found (subject o)) (some from) ≡ true
          → can_transition_run from to ≡ true
          → may_leave o (found (subject o)) (some to) ≡ true)
      → MayEnter (Moved o found) (subject o) from to
  Moved-MayEnter from to h = record {
    at = λ a k. Moved-subject (some to) (h (a.0 (eq_refl (subject o))) k);
  }

module _ (text_of : Error → String) (forum : ControlForum) (law : IsControlForum forum) where
  module _ (found : String → Option RunStatus) where
    may :
        (run_id : String) (s t : RunStatus)
        → (s == RunStatus.running || s == RunStatus.awaiting_guidance) ≡ true
        → (t == RunStatus.running
            || t == RunStatus.awaiting_guidance
            || t == RunStatus.completed
            || t == RunStatus.failed)
          ≡ true
        → MayEnter (Moved (op_sync run_id) found) run_id s t
    may run_id s t h k =
        Moved-MayEnter (op_sync run_id) found s t
          (λ a m. sync_enters run_id (found run_id) s t h k a)

    sync-Lawful :
        (run_id : String)
        → Lawful
            (Moved (op_sync run_id) found)
            (Traced (Moved (op_sync run_id) found))
            (perform text_of forum (op_sync run_id))
    sync-Lawful run_id = Lawful-get_run (Moved (op_sync run_id) found) run_id _ (λ row.
        Lawful-then (Moved (op_sync run_id) found) _ _ run_id row.status (Silent-get_agents run_id)
          (λ agents.
            sync_bootstrap_signals-Lawful _ forum law run_id row.status agents
              (may run_id _ _ refl refl) (may run_id _ _ refl refl) (may run_id _ _ refl refl)
              (may run_id _ _ refl refl) (may run_id _ _ refl refl)))

    close_op-Lawful :
        (dry_run : Bool) (entry run_id : String)
        → Lawful
            (Moved (op_close dry_run entry run_id) found)
            (Traced (Moved (op_close dry_run entry run_id) found))
            (perform text_of forum (op_close dry_run entry run_id))
    close_op-Lawful dry_run entry run_id =
        let o = op_close dry_run entry run_id in
        close-Lawful _ text_of forum law dry_run entry run_id (λ a.
          let enters =
            λ (t : RunStatus)
                (k : (t == RunStatus.closing || t == RunStatus.closed || t == RunStatus.failed)
                  ≡ true).
              close_enters dry_run entry run_id (found run_id) t (a.0 (eq_refl run_id)) k in
          (
            Moved-MayEnter o found _ _ (λ b m. enters _ refl),
            Moved-MayEnter o found _ _ (λ b m. enters _ refl),
            Moved-MayEnter o found _ _ (λ b m. enters _ refl),
          ))

    new_run :
        (spec : RunSpec) (cfg : Config) (brief : Option RunBrief) (t : RunStatus)
        → found spec.run_id ≡ none
        → starts_as (op_run spec cfg brief) t ≡ true
        → may_leave (op_run spec cfg brief) (found spec.run_id) (some t) ≡ true
    unfolding may_leave
    new_run spec cfg brief t absent h = rw absent h

    new_run-Lawful :
        (spec : RunSpec) (cfg : Config) (brief : Option RunBrief)
        → found spec.run_id ≡ none
        → Lawful
            (Moved (op_run spec cfg brief) found)
            (Traced (Moved (op_run spec cfg brief) found))
            (run_spec text_of spec cfg brief)
    unfolding starts_as
    new_run-Lawful spec cfg brief absent =
        let started = λ (t : RunStatus) (h : starts_as (op_run spec cfg brief) t ≡ true).
          new_run spec cfg brief t absent h in
        let may = λ (s t : RunStatus) (h : starts_as (op_run spec cfg brief) t ≡ true).
          Moved-MayEnter (op_run spec cfg brief) found s t (λ a m. started t h) in
        run_spec-Lawful _ text_of spec cfg brief
          (Moved-subject (op_run spec cfg brief) found _ (started _ refl)) (may _ _ refl)
          (may _ _ refl) (may _ _ refl) (may _ _ refl) (may _ _ refl)

    known_run-Lawful :
        (spec : RunSpec) (cfg : Config) (brief : Option RunBrief) (s : RunStatus)
        → Lawful
            (Moved (op_run spec cfg brief) found)
            (On (Moved (op_run spec cfg brief) found) spec.run_id s)
            (run_spec text_of spec cfg brief)
    known_run-Lawful spec cfg brief s =
        run_known-Lawful (Moved (op_run spec cfg brief) found) text_of spec cfg brief s

    Traced-found :
        (o : Operation) (w : World)
        → ((j : String) → status_at j w.tables.runs ≡ found j)
        → Traced (Moved o found) w.tables
    Traced-found o w same = λ j. subst (Moved o found j) (sym (same j)) (Moved-found o found j)

    perform-Lawful :
        (o : Operation)
        → ((spec : RunSpec)
            → found spec.run_id ≡ none ⊎ ((s : RunStatus) × (found spec.run_id ≡ some s)))
        → (w : World) → ((j : String) → status_at j w.tables.runs ≡ found j)
        → Traced (Moved o found) (perform text_of forum o w).1.tables
    perform-Lawful (op_run spec cfg brief) cases w same = elim (cases spec) [
      | inl absent ↦
          Triple-either _ w (new_run-Lawful spec cfg brief absent)
            (Traced-found (op_run spec cfg brief) w same)
      | inr (s, there) ↦
          Triple-either _ w (known_run-Lawful spec cfg brief s)
            (Traced-found (op_run spec cfg brief) w same, same spec.run_id ∙ there)
    ]
    perform-Lawful (op_resume run_id) cases w same =
        let o = op_resume run_id in
        Triple-either _ w
          (resume-Lawful _ text_of run_id
            (λ s. Moved-MayEnter o found s _ (resume_enters run_id (found run_id) s))
            (Moved-MayEnter o found _ _ (λ a m. (resume_ends run_id (found run_id) a).0))
            (Moved-MayEnter o found _ _ (λ a m. (resume_ends run_id (found run_id) a).1)))
          (Traced-found o w same)
    perform-Lawful (op_stop run_id) cases w same =
        let o = op_stop run_id in
        Triple-either _ w
          (stop-Lawful _ run_id
            (λ s. Moved-MayEnter o found s _ (stop_enters run_id (found run_id) s))
            (Moved-MayEnter o found _ _ (λ a m. stop_ends run_id (found run_id) a)))
          (Traced-found o w same)
    perform-Lawful (op_sync run_id) cases w same =
        Triple-either _ w (sync-Lawful run_id) (Traced-found (op_sync run_id) w same)
    perform-Lawful (op_restart dry_run run_id) cases w same =
        let o = op_restart dry_run run_id in
        Triple-either _ w
          (restart-Lawful _ dry_run run_id
            (λ s. Moved-MayEnter o found s _ (restart_enters dry_run run_id (found run_id) s)))
          (Traced-found o w same)
    perform-Lawful (op_guide run_id answer) cases w same =
        let o = op_guide run_id answer in
        Triple-either _ w
          (guide-Lawful _ forum law run_id answer
            (Moved-MayEnter o found _ _ (λ a m. guide_enters run_id answer (found run_id) a)))
          (Traced-found o w same)
    perform-Lawful (op_close dry_run entry run_id) cases w same =
        Triple-either _ w (close_op-Lawful dry_run entry run_id)
          (Traced-found (op_close dry_run entry run_id) w same)

  -- Whether an operation (Run, Resume, Stop, the signals that Status follows, Restart, Guide,
  -- Close) returns or fails, at any statement or command: its run keeps its status, or comes to
  -- one of those that `may_leave` lists for the status in which the operation found it (Close
  -- moves a completed run only, and no other operation leads to `closed`; Run leaves a known run
  -- as it is, and only Run makes a new one; no run vanishes); every other run has the status that
  -- it had.
  pub operation_moves :
      (o : Operation) (w : World)
      → let after = (perform text_of forum o w).1.tables.runs in
        (may_leave o (status_at (subject o) w.tables.runs) (status_at (subject o) after) ≡ true)
        × ((j : String) → (subject o == j) ≡ false → status_at j after ≡ status_at j w.tables.runs)
  operation_moves o w =
      let found = λ (j : String). status_at j w.tables.runs in
      let moved = perform-Lawful found o (λ spec. Option-cases (found spec.run_id)) w (λ j. refl) in
      ((moved (subject o)).0 (eq_refl (subject o)), (λ j e. (moved j).1 e))
