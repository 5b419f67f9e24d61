-- ===== src/Orchestrator/Settled/Plan.antt =====
-- A plan that internal/orchestrator/service.go has executed without an error, and a run that it has
-- carried out.
use mathlib.Core.Option
use mathlib.Core.Option.{some-injective}
use metawsm.Base.{
  ℕ, String, Bool, true, false, Option, none, some, List, [], ◌∷◌, ◌≡◌, refl, ap, ◌∙◌, subst, ◌==◌,
  nat_eq, string_eq, if◌then◌else◌, All,
}
use metawsm.Model.Run.{StepStatus, step_eq}
use metawsm.Model.Plan.{RunSpec, Config, PlanStep, RunTables}
use metawsm.Store.Schema.{Tables}
use metawsm.Store.Sql.{Error, Result, ok, err, World, M}
use metawsm.Store.Sql.Triple.{Ensures, Triple, Keeps, Triple-bind, Triple-pure, Triple-weaken}
use metawsm.Store.Runs.{update_steps, update_step_status}
use metawsm.Orchestrator.Frame.{Frame, Frame-exec, Keeps-Frame}
use metawsm.Orchestrator.Blind.{IsBlind}
use metawsm.Orchestrator.Blind.Attempts.{Frame-execute_step}
use metawsm.Orchestrator.Steps.{execute_step, execute_steps}
use metawsm.Orchestrator.Settled.{
  find_status, step_status, is_settled, same_step, find_status-update, step_status-IsBlind,
}
use metawsm.Orchestrator.Settled.Stays.{execute_steps-Keeps}
use metawsm.Orchestrator.Settled.Finished.{IsStored, IsSettled, Anything, execute_step-IsSettled}

abbrev is_there : Option StepStatus → Bool
is_there none = false
is_there (some _) = true

-- Which steps of the run the table has
abbrev pub stored : String → RunTables → ℕ → Bool
stored run_id t i = is_there (step_status run_id i t)

stored-IsStored :
    (run_id : String) (i : ℕ) (t : Tables) → stored run_id t.runs i ≡ true → IsStored run_id i t
stored-IsStored run_id i t h = by_status (step_status run_id i t.runs) h
  where
    by_status : (o : Option StepStatus) → is_there o ≡ true → (s : StepStatus) × (o ≡ some s)
    by_status none h = cc
    by_status (some s) h = (s, refl)

stored-update :
    (k : String) (j : ℕ) (run_id : String) (s : StepStatus) (text : String)
    → Frame (stored run_id) (update_step_status k j s text)
unfolding update_step_status
stored-update k j run_id s text = Frame-exec _ (λ t d i. same t i d)
  where
    kept :
        (b : Bool) (o : Option StepStatus)
        → is_there (if b then Option.map (λ _. s) o else o) ≡ is_there o
    kept true none = refl
    kept true (some r) = refl
    kept false o = refl

    same :
        (t : RunTables) (i : ℕ)
        → is_there (find_status run_id i (update_steps k j s text t.steps))
          ≡ is_there (find_status run_id i t.steps)
    same t i =
        ap is_there (find_status-update k run_id j i s text t.steps)
        ∙ kept (same_step k j run_id i) (find_status run_id i t.steps)

stored-IsBlind : (run_id : String) → IsBlind (stored run_id)
stored-IsBlind run_id =
    let blind = step_status-IsBlind run_id in
    record {
      to_agents = λ k name workspace s h. record {
        at = λ w d i. is_there (((blind i).to_agents k name workspace s h).at w d);
      };
      to_events = λ e. record { at = λ w d i. is_there (((blind i).to_events e).at w d) };
      to_syncs = λ s. record { at = λ w d i. is_there (((blind i).to_syncs s).at w d) };
      to_revisions = λ k r. record { at = λ w d i. is_there (((blind i).to_revisions k r).at w d) };
    }

-- Both of two postconditions
Triple-both :
    {A : Type 0} {P P' E : Tables → Type 0} {Q Q' : A → Tables → Type 0} (m : M A)
    (E' : Tables → Type 0)
    → Triple P m Q E
    → Triple P' m Q' E'
    → Triple (λ t. P t × P' t) m (λ a t. Q a t × Q' a t) E
Triple-both {A} {E = E} {Q = Q} {Q' = Q'} m E' h k = record {
  at = λ w p. both (m w).0 (m w).1.tables (h.at w p.0) (k.at w p.1);
}
  where
    both :
        (r : Result A) (t : Tables)
        → Ensures Q E r t
        → Ensures Q' E' r t
        → Ensures (λ a t. Q a t × Q' a t) E r t
    both (ok a) t q q' = (q, q')
    both (err e) t q q' = q

abbrev pub AllStored : List PlanStep → (ℕ → Bool) → Type 0
AllStored [] v = Unit
AllStored (s ∷ ss) v = (v s.index ≡ true) × AllStored ss v

abbrev pub AllSettled : String → List PlanStep → Tables → Type 0
AllSettled run_id [] t = Unit
AllSettled run_id (s ∷ ss) t = IsSettled run_id s.index t × AllSettled run_id ss t

-- A step that blocks the run and is not done in the plan
abbrev pub IsDue : PlanStep → Type 0
IsDue s = (s.blocking ≡ true) × ((s.status == StepStatus.done) ≡ false)

module _ (text_of : Error → String) (spec : RunSpec) (cfg : Config) where
  IsSettled-Keeps :
      (i : ℕ) (steps : List PlanStep)
      → Keeps (IsSettled spec.run_id i) (execute_steps text_of spec cfg steps)
  IsSettled-Keeps i steps = record {
    at = λ w p.
        settled (execute_steps text_of spec cfg steps w).0
          (execute_steps text_of spec cfg steps w).1.tables
          (step_status spec.run_id i w.tables.runs) p
          ((execute_steps-Keeps text_of spec.run_id i (step_status spec.run_id i w.tables.runs) p
              spec cfg steps).at
            w refl);
  }
    where
      settled :
          {A : Type 0} (r : Result A) (t : Tables) (o : Option StepStatus)
          → is_settled o ≡ true
          → Ensures
              (λ _ u. step_status spec.run_id i u.runs ≡ o)
              (λ u. step_status spec.run_id i u.runs ≡ o)
              r
              t
          → Ensures (λ _. IsSettled spec.run_id i) (IsSettled spec.run_id i) r t
      settled (ok a) t o p h = ap is_settled h ∙ p
      settled (err e) t o p h = ap is_settled h ∙ p

  execute_first :
      (step : PlanStep) (steps : List PlanStep)
      → IsDue step
      → Triple
          (λ t. AllStored (step ∷ steps) (stored spec.run_id t.runs))
          (execute_step text_of spec cfg step)
          (λ _ t. IsSettled spec.run_id step.index t × AllStored steps (stored spec.run_id t.runs))
          Anything
  execute_first step steps due =
      Triple-both _ (λ t. AllStored steps (stored spec.run_id t.runs))
        (Triple-weaken _ (IsStored spec.run_id step.index) _ _
          (execute_step-IsSettled text_of spec cfg step due.0 due.1)
          (λ t. stored-IsStored spec.run_id step.index t) (λ a t p. p))
        (Keeps-Frame _ (AllStored steps) (
          Frame-execute_step (stored-IsBlind spec.run_id) text_of spec cfg step
            (stored-update spec.run_id step.index spec.run_id)))

  pub execute_steps-AllSettled :
      (steps : List PlanStep)
      → All IsDue steps
      → Triple
          (λ t. AllStored steps (stored spec.run_id t.runs))
          (execute_steps text_of spec cfg steps)
          (λ _. AllSettled spec.run_id steps)
          Anything
  unfolding execute_steps
  execute_steps-AllSettled [] due = Triple-pure tt _ (λ t p. tt)
  execute_steps-AllSettled (step ∷ steps) due =
      Triple-bind _ _
        (λ _ t. IsSettled spec.run_id step.index t × AllStored steps (stored spec.run_id t.runs)) _
        (execute_first step steps due.0)
        (λ _.
          Triple-weaken _
            (λ t. AllStored steps (stored spec.run_id t.runs) × IsSettled spec.run_id step.index t)
            _ (λ _ t. AllSettled spec.run_id steps t × IsSettled spec.run_id step.index t)
            (Triple-both _ (IsSettled spec.run_id step.index) (execute_steps-AllSettled steps due.1)
              (IsSettled-Keeps step.index steps))
            (λ t p. (p.1, p.0)) (λ a t p. (p.1, p.0)))

result_of :
    {A : Type 0} (Q : A → Tables → Type 0) (r : Result A) (a : A) (t : Tables)
    → r ≡ ok a
    → Ensures Q Anything r t
    → Q a t
result_of Q r a t e h = subst (λ s. Ensures Q Anything s t) e h

-- When the execution of a plan returns without an error, in whatever world, every step of it is
-- done or skipped in the tables, provided that each step blocks the run, is not done in the plan,
-- and has a row before.
pub executed_plan_is_settled :
    (text_of : Error → String) (spec : RunSpec) (cfg : Config) (steps : List PlanStep) (w : World)
    → All IsDue steps
    → AllStored steps (stored spec.run_id w.tables.runs)
    → (execute_steps text_of spec cfg steps w).0 ≡ ok tt
    → AllSettled spec.run_id steps (execute_steps text_of spec cfg steps w).1.tables
executed_plan_is_settled text_of spec cfg steps w due there returned =
    result_of (λ _. AllSettled spec.run_id steps) _ tt _ returned
      ((execute_steps-AllSettled text_of spec cfg steps due).at w there)
