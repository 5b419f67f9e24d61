-- ===== src/Orchestrator/Operations/Ending.antt =====
-- How a run comes to be closed by the operations of internal/orchestrator/service.go.
use metawsm.Base.{
  String, Bool, true, false, Option, none, some, List, [], ◌∷◌, ◌++◌, ◌≡◌, refl, sym, ap, ◌∙◌,
  subst, ◌==◌, string_eq, arith, eq_iff, Bool-cases, inl, inr,
}
use metawsm.Model.Run.{RunStatus, run_eq, run_beq_iff}
use metawsm.Store.Sql.{Error, World}
use metawsm.Orchestrator.Forum.{ControlForum, IsControlForum}
use metawsm.Orchestrator.Silent.{status_at}
use metawsm.Orchestrator.Operations.{
  Operation, op_run, op_resume, op_stop, op_sync, op_restart, op_guide, op_close, subject, perform,
  perform_all,
}
use metawsm.Orchestrator.Operations.Moves.{operation_moves}
use metawsm.Orchestrator.Operations.Leave.{may_leave, moves_to, starts_as}

abbrev pub is_closed : Option RunStatus → Bool
is_closed none = false
is_closed (some s) = s == RunStatus.closed

is_closed_lem : (p : Option RunStatus) → is_closed p ≡ true → p ≡ some RunStatus.closed
is_closed_lem none h = cc
is_closed_lem (some s) h = ap some ((run_beq_iff s RunStatus.closed).0 h)

closed_open : is_closed (some RunStatus.closed) ≡ false → ⊥
closed_open h = cc

-- The operation is Close of this run.
abbrev pub IsClose : String → Operation → Type 0
IsClose run_id o = (dry_run : Bool) × (entry : String) × (o ≡ op_close dry_run entry run_id)

-- Only Close leads to `closed`, and only from `completed`.
closes :
    (o : Operation) (p : Option RunStatus)
    → is_closed p ≡ false
    → may_leave o p (some RunStatus.closed) ≡ true
    → IsClose (subject o) o × (p ≡ some RunStatus.completed)
unfolding may_leave moves_to starts_as
closes (op_run spec cfg brief) none h k = ground arith
closes (op_run spec cfg brief) (some s) h k = ground arith
closes (op_resume run_id) none h k = ground arith
closes (op_resume run_id) (some s) h k = ground arith
closes (op_stop run_id) none h k = ground arith
closes (op_stop run_id) (some s) h k = ground arith
closes (op_sync run_id) none h k = ground arith
closes (op_sync run_id) (some s) h k = ground arith
closes (op_restart dry_run run_id) none h k = ground arith
closes (op_restart dry_run run_id) (some s) h k = ground arith
closes (op_guide run_id answer) none h k = ground arith
closes (op_guide run_id answer) (some s) h k = ground arith
closes (op_close dry_run entry run_id) none h k = ground arith
closes (op_close dry_run entry run_id) (some s) h k =
    ((dry_run, entry, refl), ap some (ground (arith, run_beq_iff s RunStatus.completed)))

module _ (text_of : Error → String) (forum : ControlForum) (law : IsControlForum forum) where
  closing_step :
      (o : Operation) (w : World) (run_id : String)
      → is_closed (status_at run_id w.tables.runs) ≡ false
      → status_at run_id (perform text_of forum o w).1.tables.runs ≡ some RunStatus.closed
      → IsClose run_id o × (status_at run_id w.tables.runs ≡ some RunStatus.completed)
  closing_step o w run_id h k = elim (Bool-cases (subject o == run_id)) [
    | inl e ↦
        subst
          (λ j.
            is_closed (status_at j w.tables.runs) ≡ false
            → status_at j (perform text_of forum o w).1.tables.runs ≡ some RunStatus.closed
            → IsClose j o × (status_at j w.tables.runs ≡ some RunStatus.completed))
          ((eq_iff (subject o) run_id).0 e)
          (λ h k. closes o (status_at (subject o) w.tables.runs) h (
            subst (λ p. may_leave o (status_at (subject o) w.tables.runs) p ≡ true) k
              (operation_moves text_of forum law o w).0))
          h k
    | inr e ↦ absurd (open_closed (sym ((operation_moves text_of forum law o w).1 run_id e) ∙ k) h)
  ]
    where
      open_closed : {p : Option RunStatus} → p ≡ some RunStatus.closed → is_closed p ≡ false → ⊥
      open_closed e h = closed_open (subst (λ q. is_closed q ≡ false) e h)

  abbrev WasClosed : List Operation → World → String → Type 0
  WasClosed os w run_id =
      (first : List Operation) × (o : Operation) × (rest : List Operation) × (os
        ≡ first ++ o ∷ rest)
      × IsClose run_id o
      × (status_at run_id (perform_all text_of forum first w).tables.runs
          ≡ some RunStatus.completed)

  later :
      (o : Operation) (os : List Operation) (w : World) (run_id : String)
      → WasClosed os (perform text_of forum o w).1 run_id
      → WasClosed (o ∷ os) w run_id
  unfolding perform_all
  later o os w run_id (first, c, rest, same, is_close, there) =
      (o ∷ first, c, rest, ap (λ l. o ∷ l) same, is_close, there)

  first_is :
      (o : Operation) (os : List Operation) (w : World) (run_id : String)
      → IsClose run_id o × (status_at run_id w.tables.runs ≡ some RunStatus.completed)
      → WasClosed (o ∷ os) w run_id
  unfolding perform_all
  first_is o os w run_id (is_close, there) = ([], o, os, refl, is_close, there)

  -- When a run that was not closed, or was not there, is closed after any operations, each
  -- returning or failing, one of them is a Close of it, and the operations before that one leave
  -- the run in `completed`.
  pub closed_run_was_completed :
      (os : List Operation) (w : World) (run_id : String)
      → is_closed (status_at run_id w.tables.runs) ≡ false
      → status_at run_id (perform_all text_of forum os w).tables.runs ≡ some RunStatus.closed
      → (first : List Operation) × (o : Operation) × (rest : List Operation) × (os
          ≡ first ++ o ∷ rest)
        × IsClose run_id o
        × (status_at run_id (perform_all text_of forum first w).tables.runs
            ≡ some RunStatus.completed)
  unfolding perform_all
  closed_run_was_completed [] w run_id h k =
      absurd (closed_open (subst (λ q. is_closed q ≡ false) k h))
  closed_run_was_completed (o ∷ os) w run_id h k =
      let next = (perform text_of forum o w).1 in
      elim (Bool-cases (is_closed (status_at run_id next.tables.runs))) [
        | inl e ↦ first_is o os w run_id (closing_step o w run_id h (is_closed_lem _ e))
        | inr e ↦ later o os w run_id (closed_run_was_completed os next run_id e k)
      ]
