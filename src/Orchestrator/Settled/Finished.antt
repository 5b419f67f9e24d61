-- ===== src/Orchestrator/Settled/Finished.antt =====
-- When internal/orchestrator/service.go has executed a plan without an error.
use mathlib.Core.Option
use mathlib.Core.Option.{some-injective}
use metawsm.Base.{
  ℕ, zero, suc, ◌+◌, String, Bool, true, false, Option, none, some, List, ◌≡◌, refl, sym, ap, ◌∙◌,
  subst, ◌==◌, nat_eq, string_eq, if◌then◌else◌, arith, eq_refl,
}
use metawsm.Model.Run.{StepStatus, step_eq}
use metawsm.Model.Plan.{RunSpec, Config, PlanStep, StepRecord}
use metawsm.Store.Schema.{Tables}
use metawsm.Store.Sql.{Error, M, ignore}
use metawsm.Store.Sql.Triple.{
  Triple, Keeps, Triple-exec, Triple-bind, Triple-query, Triple-pure, Triple-raise, Triple-weaken,
  Triple-error, Triple-either, Keeps-exec,
}
use metawsm.Store.Runs.{set_step_status, update_step_status, select_steps, get_steps}
use metawsm.Orchestrator.Frame.{
  Frame, Frame-bind, Frame-pure, Frame-handle, Frame-ignore, Keeps-Frame,
}
use metawsm.Orchestrator.Blind.{Frame-execute_single_step}
use metawsm.Orchestrator.Steps.{
  settle_step, attempt_step, again, attempt_steps, conclude, unless_settled, execute_step,
  step_done_or_skipped,
}
use metawsm.Orchestrator.Settled.{
  find_status, step_status, is_settled, step_done_or_skipped-select, same_step, find_status-update,
  step_status-IsBlind,
}

-- The table has the step.
abbrev pub IsStored : String → ℕ → Tables → Type 0
IsStored run_id i t = (s : StepStatus) × (step_status run_id i t.runs ≡ some s)

-- The step is done or skipped in the table.
abbrev pub IsSettled : String → ℕ → Tables → Type 0
IsSettled run_id i t = is_settled (step_status run_id i t.runs) ≡ true

abbrev pub Anything : Tables → Type 0
Anything t = Unit

same_step_refl : (run_id : String) (i : ℕ) → same_step run_id i run_id i ≡ true
same_step_refl run_id i = ground (arith, eq_refl run_id)

-- `_ = m` keeps what `m` keeps.
Triple-ignore :
    {A : Type 0} {P E : Tables → Type 0} (m : M A) → Keeps P m → Triple P (ignore m) (λ _. P) E
unfolding ignore
Triple-ignore {P = P} m h = record { at = λ w p. Triple-either m w h p }

module _ (run_id : String) (i : ℕ) where
  set-IsStored :
      (k : String) (j : ℕ) (s : StepStatus) (text : String) (t : Tables)
      → IsStored run_id i t
      → IsStored run_id i (record t { runs = set_step_status k j s text t.runs })
  set-IsStored k j s text t h =
      rw (find_status-update k run_id j i s text t.runs.steps)
        (by_key (same_step k j run_id i) (find_status run_id i t.runs.steps) h)
    where
      by_key :
          (b : Bool) (o : Option StepStatus)
          → (r : StepStatus) × (o ≡ some r)
          → (r : StepStatus) × ((if b then Option.map (λ _. s) o else o) ≡ some r)
      by_key true o h = (s, rw h.1 refl)
      by_key false o h = h

  -- An update of any step keeps the step in the table.
  update-IsStored :
      (k : String) (j : ℕ) (s : StepStatus) (text : String)
      → Keeps (IsStored run_id i) (update_step_status k j s text)
  unfolding update_step_status
  update-IsStored k j s text =
      Keeps-exec _
        (λ t t' p e. subst (IsStored run_id i) (some-injective _ _ e) (set-IsStored k j s text t p))

  set-status :
      (s : StepStatus) (text : String) (t : Tables)
      → IsStored run_id i t
      → step_status run_id i (set_step_status run_id i s text t.runs) ≡ some s
  set-status s text t h =
      find_status-update run_id run_id i i s text t.runs.steps
      ∙ rw (same_step_refl run_id i) (ap (Option.map (λ _. s)) h.1)

  update-status :
      (s : StepStatus) (text : String)
      → Triple
          (IsStored run_id i)
          (update_step_status run_id i s text)
          (λ _ t. step_status run_id i t.runs ≡ some s)
          Anything
  unfolding update_step_status
  update-status s text =
      Triple-exec _ (λ t. step_status run_id i t.runs ≡ some s)
        (λ t t' p e.
          subst (λ u. step_status run_id i u.runs ≡ some s) (some-injective _ _ e)
            (set-status s text t p))
        (λ t p. tt)

  stays :
      {A : Type 0} (m : M A) (P : Option StepStatus → Type 0)
      → Frame (step_status run_id i) m
      → Triple
          (λ t. P (step_status run_id i t.runs))
          m
          (λ _ t. P (step_status run_id i t.runs))
          Anything
  stays m P h =
      Triple-error (λ t. P (step_status run_id i t.runs)) Anything (Keeps-Frame m P h) (λ t p. tt)

-- What is known after an attempt: the step is in the table, and done unless the attempt failed.
abbrev Attempted : PlanStep → String → Option Error → Tables → Type 0
Attempted step run_id failure t =
    IsStored run_id step.index t
    × (failure ≡ none → step_status run_id step.index t.runs ≡ some StepStatus.done)

module _ (text_of : Error → String) where
  settle_step-Attempted :
      (run_id : String) (step : PlanStep) (failure : Option Error)
      → Triple
          (IsStored run_id step.index)
          (settle_step text_of run_id step failure)
          (Attempted step run_id)
          Anything
  settle_step-Attempted run_id step none =
      Triple-bind _ _ (λ _ t. step_status run_id step.index t.runs ≡ some StepStatus.done) _
        (update-status run_id step.index StepStatus.done "")
        (λ _.
          Triple-bind _ _ (λ _ t. step_status run_id step.index t.runs ≡ some StepStatus.done) _
            (stays run_id step.index _ (λ v. v ≡ some StepStatus.done)
              (Frame-ignore _ ((step_status-IsBlind run_id step.index).to_events _)))
            (λ _. Triple-pure none _ (λ t p. ((StepStatus.done, p), λ e. p))))
  settle_step-Attempted run_id step (some e) =
      Triple-bind _ _ (λ _. IsStored run_id step.index) _
        (Triple-ignore _ (update-IsStored run_id step.index run_id step.index _ _))
        (λ _.
          Triple-bind _ _ (λ _. IsStored run_id step.index) _
            (stays run_id step.index _ (λ v. (s : StepStatus) × (v ≡ some s))
              (Frame-ignore _ ((step_status-IsBlind run_id step.index).to_events _)))
            (λ _. Triple-pure (some e) _ (λ t p. (p, λ h. cc))))

  attempt_step-Attempted :
      (spec : RunSpec) (cfg : Config) (step : PlanStep) (number : ℕ)
      → Triple
          (IsStored spec.run_id step.index)
          (attempt_step text_of spec cfg step number)
          (Attempted step spec.run_id)
          Anything
  unfolding attempt_step
  attempt_step-Attempted spec cfg step number =
      let blind = step_status-IsBlind spec.run_id step.index in
      Triple-bind _ _ (λ _. IsStored spec.run_id step.index) _
        (Triple-error _ Anything (update-IsStored spec.run_id step.index spec.run_id step.index _ _)
          (λ t p. tt))
        (λ _.
          Triple-bind _ _ (λ _. IsStored spec.run_id step.index) _
            (stays spec.run_id step.index _ (λ v. (s : StepStatus) × (v ≡ some s))
              (Frame-ignore _ (blind.to_events _)))
            (λ _.
              Triple-bind _ _ (λ _. IsStored spec.run_id step.index) _
                (stays spec.run_id step.index _ (λ v. (s : StepStatus) × (v ≡ some s))
                  (Frame-handle _ _
                    (Frame-bind _ _ (Frame-execute_single_step blind text_of spec cfg step)
                      (λ _. Frame-pure none))
                    (λ e. Frame-pure (some e))))
                (settle_step-Attempted spec.run_id step)))

  again-Attempted :
      (step : PlanStep) (run_id : String) (failure : Option Error) (m : M (Option Error))
      → Triple (IsStored run_id step.index) m (Attempted step run_id) Anything
      → Triple
          (Attempted step run_id failure)
          (again text_of failure m)
          (Attempted step run_id)
          Anything
  again-Attempted step run_id none m h = Triple-pure none (Attempted step run_id) (λ t p. p)
  again-Attempted step run_id (some e) m h =
      Triple-weaken m _ (Attempted step run_id) (Attempted step run_id) h (λ t p. p.0) (λ a t p. p)

  attempt_steps-Attempted :
      (spec : RunSpec) (cfg : Config) (step : PlanStep) (retries number : ℕ)
      → Triple
          (IsStored spec.run_id step.index)
          (attempt_steps text_of spec cfg step retries number)
          (Attempted step spec.run_id)
          Anything
  unfolding attempt_steps
  attempt_steps-Attempted spec cfg step zero number = attempt_step-Attempted spec cfg step number
  attempt_steps-Attempted spec cfg step (suc retries) number =
      Triple-bind _ _ (Attempted step spec.run_id) (Attempted step spec.run_id)
        (attempt_step-Attempted spec cfg step number)
        (λ failure.
          again-Attempted step spec.run_id failure _
            (attempt_steps-Attempted spec cfg step retries (number + 1)))

  conclude-IsSettled :
      (spec : RunSpec) (step : PlanStep) (failure : Option Error)
      → step.blocking ≡ true
      → Triple
          (Attempted step spec.run_id failure)
          (conclude text_of spec step failure)
          (λ _. IsSettled spec.run_id step.index)
          Anything
  conclude-IsSettled spec step none h = Triple-pure tt _ (λ t p. ap is_settled (p.1 refl))
  conclude-IsSettled spec step (some e) h = rw h (Triple-raise _ _ (λ t p. tt))

  pub execute_step-IsSettled :
      (spec : RunSpec) (cfg : Config) (step : PlanStep)
      → step.blocking ≡ true
      → (step.status == StepStatus.done) ≡ false
      → Triple
          (IsStored spec.run_id step.index)
          (execute_step text_of spec cfg step)
          (λ _. IsSettled spec.run_id step.index)
          Anything
  unfolding execute_step get_steps
  execute_step-IsSettled spec cfg step blocking pending = rw pending (
      Triple-bind _ _
        (λ rows t.
          IsStored spec.run_id step.index t × (rows ≡ select_steps spec.run_id t.runs.steps))
        _ (Triple-query _ (λ t p. tt))
        (λ rows. unless (step_done_or_skipped rows step.index) rows refl))
    where
      unless :
          (b : Bool) (rows : List StepRecord)
          → step_done_or_skipped rows step.index ≡ b
          → Triple
              (λ t.
                IsStored spec.run_id step.index t × (rows ≡ select_steps spec.run_id t.runs.steps))
              (unless_settled text_of spec cfg step b)
              (λ _. IsSettled spec.run_id step.index)
              Anything
      unless true rows e = Triple-pure tt _ (λ t p.
          sym (step_done_or_skipped-select spec.run_id step.index t.runs.steps)
          ∙ ap (λ rs. step_done_or_skipped rs step.index) (sym p.1)
          ∙ e)
      unless false rows e =
          Triple-weaken _ (IsStored spec.run_id step.index) _ _
            (Triple-bind _ _ (Attempted step spec.run_id) _
              (attempt_steps-Attempted spec cfg step cfg.step_retries 1)
              (λ failure. conclude-IsSettled spec step failure blocking))
            (λ t p. p.0) (λ a t p. p)
