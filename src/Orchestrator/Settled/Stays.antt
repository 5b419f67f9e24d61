-- ===== src/Orchestrator/Settled/Stays.antt =====
-- A step that is done or skipped is not executed again (internal/orchestrator/service.go).
use metawsm.Base.{
  ℕ, String, Bool, true, false, Option, List, [], ◌∷◌, ◌≡◌, refl, ap, ◌∙◌, nat_eq, string_eq,
  Bool-cases, inl, inr, arith, eq_iff,
}
use metawsm.Model.Run.{StepStatus, step_eq}
use metawsm.Model.Plan.{RunSpec, Config, PlanStep, StepRecord}
use metawsm.Store.Schema.{Tables}
use metawsm.Store.Sql.{Error, World}
use metawsm.Store.Sql.Triple.{
  Triple, Keeps, Triple-bind, Triple-query, Triple-pure, Triple-weaken, Triple-either, Keeps-pure,
  Keeps-bind, Keeps-if,
}
use metawsm.Store.Runs.{update_step_status, select_steps, get_steps}
use metawsm.Orchestrator.Frame.{Frame, Frame-exec, Keeps-Frame}
use metawsm.Orchestrator.Blind.Attempts.{Frame-unsettled}
use metawsm.Orchestrator.Steps.{unless_settled, execute_step, execute_steps, step_done_or_skipped}
use metawsm.Orchestrator.Settled.{
  find_status, step_status, is_settled, step_done_or_skipped-select, same_step, find_status-update,
  step_status-IsBlind,
}

Frame-other_step :
    (k run_id : String) (j i : ℕ) (s : StepStatus) (text : String)
    → same_step k j run_id i ≡ false
    → Frame (step_status run_id i) (update_step_status k j s text)
unfolding update_step_status
Frame-other_step k run_id j i s text h =
    Frame-exec _ (λ t. rw (find_status-update k run_id j i s text t.steps) (rw h refl))

never : {A : Type 0} → false ≡ true → A
never h = cc

same_step-true :
    (k : String) (j : ℕ) (run_id : String) (i : ℕ)
    → same_step k j run_id i ≡ true
    → (k ≡ run_id) × (j ≡ i)
same_step-true k j run_id i h = ground (arith, eq_iff k run_id)

module _ (text_of : Error → String) (run_id : String) (i : ℕ) (o : Option StepStatus)
    (settled : is_settled o ≡ true) where
  abbrev Stays : Tables → Type 0
  Stays t = step_status run_id i t.runs ≡ o

  Reads : String → List StepRecord → Tables → Type 0
  Reads k rows t = Stays t × (rows ≡ select_steps k t.runs.steps)

  Reads-settled :
      (k : String) (j : ℕ) (rows : List StepRecord) (t : Tables)
      → same_step k j run_id i ≡ true
      → Reads k rows t
      → step_done_or_skipped rows j ≡ true
  unfolding Reads
  Reads-settled k j rows t same h =
      let (k_same, j_same) = same_step-true k j run_id i same in
      ap (λ rs. step_done_or_skipped rs j) h.1
      ∙ step_done_or_skipped-select k j t.runs.steps
      ∙ ap is_settled (
          ap (λ l. find_status l j t.runs.steps) k_same
          ∙ ap (λ l. find_status run_id l t.runs.steps) j_same
          ∙ h.0)
      ∙ settled

  Triple-same :
      (spec : RunSpec) (cfg : Config) (step : PlanStep) (k : String) (rows : List StepRecord)
      (b : Bool)
      → ((t : Tables) → Reads k rows t → b ≡ true)
      → Triple (Reads k rows) (unless_settled text_of spec cfg step b) (λ _. Stays) Stays
  unfolding Reads
  Triple-same spec cfg step k rows true h = Triple-pure tt (λ _. Stays) (λ t p. p.0)
  Triple-same spec cfg step k rows false h = record { at = λ w p. never (h w.tables p) }

  Triple-other :
      (spec : RunSpec) (cfg : Config) (step : PlanStep) (k : String) (rows : List StepRecord)
      (b : Bool)
      → same_step spec.run_id step.index run_id i ≡ false
      → Triple (Reads k rows) (unless_settled text_of spec cfg step b) (λ _. Stays) Stays
  unfolding Reads
  Triple-other spec cfg step k rows true other = Triple-pure tt (λ _. Stays) (λ t p. p.0)
  Triple-other spec cfg step k rows false other =
      Triple-weaken _ Stays (λ _. Stays) (λ _. Stays)
        (Keeps-Frame _ (λ v. v ≡ o)
          (Frame-unsettled (step_status-IsBlind run_id i) text_of spec cfg step
            (λ s text. Frame-other_step spec.run_id run_id step.index i s text other)))
        (λ t p. p.0) (λ a t p. p)

  pub execute_step-Keeps :
      (spec : RunSpec) (cfg : Config) (step : PlanStep)
      → Keeps Stays (execute_step text_of spec cfg step)
  unfolding execute_step get_steps Reads
  execute_step-Keeps spec cfg step = Keeps-if _ _ _ (Keeps-pure tt) (
      Triple-bind _ _ (λ rows. Reads spec.run_id rows) (λ _. Stays) (Triple-query _ (λ t p. p))
        (λ rows. elim (Bool-cases (same_step spec.run_id step.index run_id i)) [
          | inl same ↦
              Triple-same spec cfg step spec.run_id rows _
                (λ t. Reads-settled spec.run_id step.index rows t same)
          | inr other ↦ Triple-other spec cfg step spec.run_id rows _ other
        ]))

  pub execute_steps-Keeps :
      (spec : RunSpec) (cfg : Config) (steps : List PlanStep)
      → Keeps Stays (execute_steps text_of spec cfg steps)
  unfolding execute_steps
  execute_steps-Keeps spec cfg [] = Keeps-pure tt
  execute_steps-Keeps spec cfg (step ∷ steps) =
      Keeps-bind _ _ (execute_step-Keeps spec cfg step) (λ _. execute_steps-Keeps spec cfg steps)

-- A step that is done or skipped in the tables keeps its status while any plan of any run is
-- executed, whether the execution returns or fails.
pub settled_step_is_final :
    (text_of : Error → String) (spec : RunSpec) (cfg : Config) (steps : List PlanStep) (w : World)
    (run_id : String) (i : ℕ)
    → is_settled (step_status run_id i w.tables.runs) ≡ true
    → step_status run_id i (execute_steps text_of spec cfg steps w).1.tables.runs
      ≡ step_status run_id i w.tables.runs
settled_step_is_final text_of spec cfg steps w run_id i settled =
    Triple-either (execute_steps text_of spec cfg steps) w
      (execute_steps-Keeps text_of run_id i (step_status run_id i w.tables.runs) settled spec cfg
        steps)
      refl
