-- ===== src/Orchestrator/Lawful.antt =====
-- Rules for calls of internal/orchestrator/service.go that move runs by transitionRun, each
-- transition between statuses that are allowed.
pub mod Creation
pub mod Operations
pub mod Checks
pub mod Endings
use mathlib.Core.Option
use mathlib.Core.Option.{some-injective}
use metawsm.Base.{
  ℕ, String, Bool, true, false, not, ◌&&◌, Option, none, some, List, [], ◌∷◌, ◌++◌, ◌≡◌, refl, sym,
  ap, ◌∙◌, subst, ◌==◌, string_eq, if◌then◌else◌, arith, eq_iff, Bool-cases, inl, inr,
}
use metawsm.Base.Rows.{find, insert, find-concat}
use metawsm.Model.Run.{RunStatus, run_eq, run_beq_iff}
use metawsm.Model.Plan.{
  RunSpec, Config, PlanStep, RunTables, RunRow, RunBrief, AgentRecord, StepRecord,
}
use metawsm.Hsm.{can_transition_run}
use metawsm.Hsm.Reach.{Walk, here}
use metawsm.Store.Schema.{Tables}
use metawsm.Store.Sql.{
  Error, Result, ok, err, World, M, pure, raise, ◌>>=◌, ◌>>◌, exec, ignore, handle, forget_error,
  handle_result,
}
use metawsm.Store.Sql.Triple.{
  Ensures, Triple, Triple-exec, Triple-bind, Triple-weaken, Triple-if, Triple-pure, Triple-raise,
}
use metawsm.Store.Runs.{run_key, created_row, insert_run, create_run, save_tickets, get_run}
use metawsm.Orchestrator.Steps.{transition_run}
use metawsm.Orchestrator.Silent.{Silent-at, status_at, row_status, Silent, Silent-other}
use metawsm.Orchestrator.Frame.{Frame-pure}
use metawsm.Orchestrator.History.{
  MayEnter, Traced, On, silent-On, Triple-Silent, Traced-Silent, Triple-transition, Triple-get_run,
}

module _ (allows : String → Option RunStatus → Type 0) where
  -- In whatever status the run of this id is, the call leaves all runs in statuses that are
  -- allowed.
  abbrev pub Lawful : {A : Type 0} → (Tables → Type 0) → M A → Type 0
  Lawful P m = Triple P m (λ _. Traced allows) (Traced allows)

  pub Lawful-weaken :
      {A : Type 0} (m : M A) (run_id : String) (s : RunStatus)
      → Lawful (Traced allows) m
      → Lawful (On allows run_id s) m
  Lawful-weaken m run_id s h =
      Triple-weaken m (Traced allows) (λ _. Traced allows) (λ _. Traced allows) h (λ t p. p.0)
        (λ a t p. p)

  pub Lawful-silent :
      {A : Type 0} (m : M A) (run_id : String) (s : RunStatus)
      → Silent m
      → Lawful (On allows run_id s) m
  Lawful-silent m run_id s h = Lawful-weaken m run_id s (Traced-Silent allows m h)

  pub Lawful-then :
      {A B : Type 0} (m : M A) (f : A → M B) (run_id : String) (s : RunStatus)
      → Silent m
      → ((a : A) → Lawful (On allows run_id s) (f a))
      → Lawful (On allows run_id s) (m >>= f)
  Lawful-then m f run_id s h k =
      Triple-bind m f (λ _. On allows run_id s) (λ _. Traced allows)
        (Triple-Silent allows m run_id s h) k

  pub Lawful-before :
      {A B : Type 0} (P : Tables → Type 0) (m : M A) (f : A → M B)
      → Lawful P m
      → ((a : A) → Lawful (Traced allows) (f a))
      → Lawful P (m >>= f)
  Lawful-before P m f h k = Triple-bind m f (λ _. Traced allows) (λ _. Traced allows) h k

  pub Lawful-move :
      (run_id : String) (from to : RunStatus) (text : String)
      → MayEnter allows run_id from to
      → Lawful (On allows run_id from) (transition_run run_id from to text)
  Lawful-move run_id from to text may =
      Triple-weaken _ (On allows run_id from) (λ _. Traced allows) (λ _. On allows run_id to)
        (Triple-transition allows run_id from to text may) (λ t p. p) (λ a t p. p.0)

  pub Lawful-move_then :
      {B : Type 0} (run_id : String) (from to : RunStatus) (text : String) (f : Unit {0} → M B)
      → MayEnter allows run_id from to
      → ((u : Unit {0}) → Lawful (On allows run_id to) (f u))
      → Lawful (On allows run_id from) (transition_run run_id from to text >>= f)
  Lawful-move_then run_id from to text f may k =
      Triple-bind _ f (λ _. On allows run_id to) (λ _. Traced allows)
        (Triple-transition allows run_id from to text may) k

  pub Lawful-get_run :
      {B : Type 0} (run_id : String) (f : RunRow → M B)
      → ((row : RunRow) → Lawful (On allows run_id row.status) (f row))
      → Lawful (Traced allows) (get_run run_id >>= f)
  Lawful-get_run run_id f k =
      Triple-bind _ f (λ row. On allows run_id row.status) (λ _. Traced allows)
        (Triple-get_run allows run_id) k

  pub Lawful-if :
      {A : Type 0} (P : Tables → Type 0) (b : Bool) (m n : M A)
      → Lawful P m
      → Lawful P n
      → Lawful P (if b then m else n)
  Lawful-if P b m n h k = Triple-if b m n (λ _. Traced allows) (λ _. h) (λ _. k)

  -- The status in which the run is, is allowed.
  pub Lawful-given :
      {A : Type 0} (m : M A) (run_id : String) (s : RunStatus)
      → (allows run_id (some s) → Lawful (On allows run_id s) m)
      → Lawful (On allows run_id s) m
  Lawful-given m run_id s h = record {
    at = λ w p. (h (subst (allows run_id) p.1 (p.0 run_id))).at w p;
  }

  -- A branch that a test of the status guards
  pub Lawful-if_status :
      {A : Type 0} (run_id : String) (s t : RunStatus) (m n : M A)
      → Lawful (On allows run_id t) m
      → Lawful (On allows run_id s) n
      → Lawful (On allows run_id s) (if s == t then m else n)
  Lawful-if_status run_id s t m n h k =
      Triple-if (s == t) m n (λ _. Traced allows)
        (λ e. subst (λ u. Lawful (On allows run_id u) m) (sym ((run_beq_iff s t).0 e)) h) (λ _. k)

  either :
      {A : Type 0} (r : Result A) (w : World)
      → Ensures (λ _. Traced allows) (Traced allows) r w.tables
      → Traced allows w.tables
  either (ok a) w h = h
  either (err e) w h = h

  pub Lawful-ignore :
      {A : Type 0} (P : Tables → Type 0) (m : M A) → Lawful P m → Lawful P (ignore m)
  unfolding ignore
  Lawful-ignore P m h = record { at = λ w p. either (m w).0 (m w).1 (h.at w p) }

  -- The errors that come after a call that fails again
  pub Lawful-fail :
      {A : Type 0} (m : M (Unit {0})) (e : Error) (P Q : Tables → Type 0)
      → Lawful P m
      → Triple P (m >>= λ _. raise {A = A} e) (λ _. Q) (Traced allows)
  Lawful-fail m e P Q h =
      Triple-bind m _ (λ _. Traced allows) (λ _. Q) h (λ _. Triple-raise e (λ _. Q) (λ t p. p))

  handled :
      {A : Type 0} (r : Result A) (w : World) (h : Error → M A) (Q : Tables → Type 0)
      → Q w.tables
      → ((e : Error) → Triple Q (h e) (λ _. Q) (Traced allows))
      → Ensures
          (λ _. Q)
          (Traced allows)
          (handle_result h (r, w)).0
          (handle_result h (r, w)).1.tables
  handled (ok a) w h Q p k = p
  handled (err e) w h Q p k = (k e).at w p

  -- A silent call whose failure moves the run
  pub Triple-handle-Silent :
      {A : Type 0} (m : M A) (h : Error → M A) (run_id : String) (s : RunStatus)
      → Silent m
      → ((e : Error) → Triple (On allows run_id s) (h e) (λ _. On allows run_id s) (Traced allows))
      → Triple (On allows run_id s) (handle m h) (λ _. On allows run_id s) (Traced allows)
  unfolding handle
  Triple-handle-Silent m h run_id s silent k = record {
    at = λ w p.
        handled (m w).0 (m w).1 h (On allows run_id s)
          (silent-On allows run_id s w (m w).1 (Silent-at m silent w) p) k;
  }
