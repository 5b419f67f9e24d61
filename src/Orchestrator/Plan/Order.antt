-- ===== src/Orchestrator/Plan/Order.antt =====
-- The numbers and the shape of the steps of `buildPlan` (internal/orchestrator/service.go).
use metawsm.Base.{
  ℕ, suc, ◌+◌, ◌*◌, ◌≡◌, ◌∙◌, refl, subst, String, true, List, [], ◌∷◌, ◌++◌, length, length-append,
  arith, ◌==◌, string_eq, if◌then◌else◌, Bool-cases, inl, inr,
}
use metawsm.Base.Text.{trim_space}
use metawsm.Model.Run.{StepStatus}
use metawsm.Model.Plan.{AgentSpec, RunSpec, Config, PlanStep}
use native.Mathlib.Nat.{suc-mul}
use metawsm.Orchestrator.Names.{workspace_name_for}
use metawsm.Orchestrator.Plan.{agent_steps, context_steps, ticket_steps, steps_from, build_plan}

-- The steps bear the numbers from the given one on, and each is pending and blocks the run.
abbrev pub IsNumbered : ℕ → List PlanStep → Type 0
IsNumbered n [] = Unit
IsNumbered n (s ∷ ss) =
    (s.index ≡ n) × (s.status ≡ StepStatus.pending) × (s.blocking ≡ true) × IsNumbered (n + 1) ss

IsNumbered-append :
    (n : ℕ) (xs ys : List PlanStep)
    → IsNumbered n xs
    → IsNumbered (n + length xs) ys
    → IsNumbered n (xs ++ ys)
IsNumbered-append n [] ys hx hy = subst (λ m. IsNumbered m ys) (omega arith) hy
IsNumbered-append n (x ∷ xs) ys hx hy = (
  hx.0,
  hx.1,
  hx.2,
  IsNumbered-append (n + 1) xs ys hx.3 (subst (λ m. IsNumbered m ys) (omega arith) hy),
)

agent_steps-IsNumbered :
    (n : ℕ) (ticket workspace : String) (agents : List AgentSpec)
    → IsNumbered n (agent_steps n ticket workspace agents)
unfolding agent_steps
agent_steps-IsNumbered n ticket workspace [] = tt
agent_steps-IsNumbered n ticket workspace (a ∷ agents) =
    (refl, refl, refl, agent_steps-IsNumbered (n + 1) ticket workspace agents)

length-agent_steps :
    (n : ℕ) (ticket workspace : String) (agents : List AgentSpec)
    → length (agent_steps n ticket workspace agents) ≡ length agents
unfolding agent_steps
length-agent_steps n ticket workspace [] = refl
length-agent_steps n ticket workspace (a ∷ agents) =
    omega (arith, length-agent_steps (n + 1) ticket workspace agents)

-- Whether the documents of a ticket are copied into its workspace, as a number of steps
abbrev pub copy_count : RunSpec → ℕ
copy_count spec = if trim_space spec.doc_seed_mode == "copy_from_repo_on_start" then 1 else 0

context_steps-IsNumbered :
    (spec : RunSpec) (n : ℕ) (ticket workspace : String)
    → IsNumbered n (context_steps spec n ticket workspace)
      × (length (context_steps spec n ticket workspace) ≡ copy_count spec + length spec.agents)
unfolding context_steps
context_steps-IsNumbered spec n ticket workspace =
    elim (Bool-cases (trim_space spec.doc_seed_mode == "copy_from_repo_on_start")) [
      | inl copies ↦ rw copies (
        (refl, refl, refl, agent_steps-IsNumbered (n + 1) ticket workspace spec.agents),
        omega (arith, length-agent_steps (n + 1) ticket workspace spec.agents),
      )
      | inr plain ↦ rw plain (
        agent_steps-IsNumbered n ticket workspace spec.agents,
        omega (arith, length-agent_steps n ticket workspace spec.agents),
      )
    ]

add_two : (n : ℕ) → n + 2 ≡ n + 1 + 1
add_two n = omega arith

one_more : {a b k : ℕ} (l : ℕ) → a ≡ k → b ≡ l * k → a + b ≡ suc l * k
one_more {k = k} l h e = omega (arith, suc-mul l k)

ticket_steps-IsNumbered :
    (spec : RunSpec) (cfg : Config) (n : ℕ) (ticket : String)
    → IsNumbered n (ticket_steps spec cfg n ticket)
      × (length (ticket_steps spec cfg n ticket) ≡ 2 + copy_count spec + length spec.agents)
unfolding ticket_steps
ticket_steps-IsNumbered spec cfg n ticket =
    let workspace = workspace_name_for ticket spec.run_id in
    let rest = context_steps-IsNumbered spec (n + 2) ticket workspace in
    (
      (
        refl,
        refl,
        refl,
        (
          refl,
          refl,
          refl,
          subst (λ m. IsNumbered m (context_steps spec (n + 2) ticket workspace)) (add_two n)
              rest.0,
        ),
      ),
      omega (arith, rest.1),
    )

steps_from-IsNumbered :
    (spec : RunSpec) (cfg : Config) (n : ℕ) (tickets : List String)
    → IsNumbered n (steps_from spec cfg n tickets)
      × (length (steps_from spec cfg n tickets)
          ≡ length tickets * (2 + copy_count spec + length spec.agents))
unfolding steps_from
steps_from-IsNumbered spec cfg n [] = (tt, omega arith)
steps_from-IsNumbered spec cfg n (t ∷ tickets) =
    let own = ticket_steps-IsNumbered spec cfg n t in
    let steps = ticket_steps spec cfg n t in
    let rest = steps_from-IsNumbered spec cfg (n + length steps) tickets in
    (
      IsNumbered-append n steps _ own.0 rest.0,
      length-append steps _ ∙ one_more (length tickets) own.1 rest.1,
    )

-- The plan of a run has, for each ticket, two steps, one more where the documents are copied, and
-- one for each agent; its steps are numbered from 1 without a gap, and each is pending and blocks
-- the run.
pub build_plan-IsNumbered :
    (spec : RunSpec) (cfg : Config)
    → IsNumbered 1 (build_plan spec cfg)
      × (length (build_plan spec cfg)
          ≡ length spec.tickets * (2 + copy_count spec + length spec.agents))
unfolding build_plan
build_plan-IsNumbered spec cfg = steps_from-IsNumbered spec cfg 1 spec.tickets
