-- ===== src/Orchestrator/Frame.antt =====
-- What a call of internal/orchestrator/service.go leaves as it is: a view of the run tables that no
-- outcome of it changes.
use mathlib.Core.Option.{some-injective}
use metawsm.Base.{
  ℕ, zero, suc, Bool, true, false, Option, none, some, List, [], ◌∷◌, ◌≡◌, refl, sym, ap, ◌∙◌,
  subst, if◌then◌else◌,
}
use metawsm.Model.Plan.{RunTables, Command}
use metawsm.Store.Schema.{Tables}
use metawsm.Store.Sql.{
  Error, Result, ok, err, World, M, pure, raise, continue, ◌>>=◌, exec, query, settle, Outcome,
  done, busy, failed, apply_all, run_each, exec_each, answer, call, ignore, handle, handle_result,
}
use metawsm.Store.Sql.Triple.{Ensures, Keeps, Triple-either}
use metawsm.Store.Runs.{on_runs}

-- Whatever the call returns, the view of the run tables is the same after it.
pub record Frame {B : Type 0} (view : RunTables → B) {A : Type 0} (m : M A) : Type 0 where
  pub at : (w : World) → view (m w).1.tables.runs ≡ view w.tables.runs

settle-view :
    {B : Type 0} (view : RunTables → B) (b : Bool) (o : Option Tables) (w : World)
    → ((t : Tables) → o ≡ some t → view t.runs ≡ view w.tables.runs)
    → view (settle b o w).1.tables.runs ≡ view w.tables.runs
settle-view view true (some t) w h = h t refl
settle-view view true none w h = refl
settle-view view false o w h = refl

answer-tables : {A : Type 0} (b : Bool) (a : A) (w : World) → (answer b a w).1.tables ≡ w.tables
answer-tables true a w = refl
answer-tables false a w = refl

settle_same :
    (b : Bool) (t : Tables) (w : World) → w.tables ≡ t → (settle b (some t) w).1.tables ≡ t
settle_same true t w h = refl
settle_same false t w h = h

module _ {B : Type 0} (view : RunTables → B) where
  -- Each statement leaves the view.
  abbrev pub Each : List (Tables → Tables) → Type 0
  Each [] = Unit
  Each (f ∷ fs) = ((t : Tables) → view (f t).runs ≡ view t.runs) × Each fs

  apply_all-view :
      (fs : List (Tables → Tables)) (t : Tables)
      → Each fs
      → view (apply_all fs t).runs ≡ view t.runs
  unfolding apply_all
  apply_all-view [] t h = refl
  apply_all-view (f ∷ fs) t h = apply_all-view fs (f t) h.1 ∙ h.0 t

  run_each-view :
      (script : List (Tables → Tables)) (n : ℕ) (outcomes : List Outcome)
      (rest : List (Tables → Tables)) (t : Tables)
      → Each script
      → Each rest
      → view (run_each script n outcomes rest t).2.runs ≡ view t.runs
  unfolding run_each
  run_each-view script n [] rest t h k = apply_all-view rest t k
  run_each-view script n (o ∷ outcomes) [] t h k = refl
  run_each-view script n (done ∷ outcomes) (f ∷ rest) t h k =
      run_each-view script n outcomes rest (f t) h k.1 ∙ k.0 t
  run_each-view script n (failed ∷ outcomes) (f ∷ rest) t h k = refl
  run_each-view script zero (busy ∷ outcomes) (f ∷ rest) t h k = refl
  run_each-view script (suc n) (busy ∷ outcomes) (f ∷ rest) t h k =
      run_each-view script n outcomes script t h h

  pub Frame-exec_each :
      (script : List (Tables → Tables)) → Each script → Frame view (exec_each script)
  unfolding exec_each
  Frame-exec_each script h = record {
    at = λ w.
        ap (λ t. view t.runs) (settle_same _ _ _ refl)
        ∙ run_each-view script w.retry_count w.outcomes script w.tables h h;
  }

module _ {B : Type 0} {view : RunTables → B} where
  pub Frame-exec :
      (f : RunTables → RunTables)
      → ((t : RunTables) → view (f t) ≡ view t)
      → Frame view (exec (on_runs f))
  unfolding exec
  Frame-exec f h = record {
    at = λ w.
        settle-view view _ (on_runs f w.tables) _
          (λ t e. ap (λ u. view u.runs) (sym (some-injective _ t e)) ∙ h w.tables.runs);
  }

  pub Frame-call : (c : Command) → Frame view (call c)
  unfolding call
  Frame-call c = record { at = λ w. refl }

  module _ {A : Type 0} where
    pub Frame-query : (select : Tables → A) → Frame view (query select)
    unfolding query
    Frame-query select = record {
      at = λ w. ap (λ t. view t.runs) (answer-tables _ (select w.tables) _);
    }

    pub Frame-pure : (a : A) → Frame view (pure a)
    unfolding pure
    Frame-pure a = record { at = λ w. refl }

    pub Frame-raise : (e : Error) → Frame view (raise {A = A} e)
    unfolding raise
    Frame-raise e = record { at = λ w. refl }

    pub Frame-ignore : (m : M A) → Frame view m → Frame view (ignore m)
    unfolding ignore
    Frame-ignore m h = record { at = h.at }

    handle-Frame :
        (r : Result A) (w : World) (h : Error → M A)
        → ((e : Error) → Frame view (h e))
        → view (handle_result h (r, w)).1.tables.runs ≡ view w.tables.runs
    handle-Frame (ok a) w h k = refl
    handle-Frame (err e) w h k = (k e).at w

    pub Frame-handle :
        (m : M A) (h : Error → M A)
        → Frame view m
        → ((e : Error) → Frame view (h e))
        → Frame view (handle m h)
    unfolding handle
    Frame-handle m h s k = record { at = λ w. handle-Frame (m w).0 (m w).1 h k ∙ s.at w }

    pub Frame-if :
        (b : Bool) (m n : M A) → Frame view m → Frame view n → Frame view (if b then m else n)
    Frame-if true m n yes_case no_case = yes_case
    Frame-if false m n yes_case no_case = no_case

    continue-Frame :
        {C : Type 0} (r : Result A) (f : A → M C) (w : World)
        → ((a : A) → Frame view (f a))
        → view (continue r f w).1.tables.runs ≡ view w.tables.runs
    continue-Frame (ok a) f w k = (k a).at w
    continue-Frame (err e) f w k = refl

    pub Frame-bind :
        {C : Type 0} (m : M A) (f : A → M C)
        → Frame view m
        → ((a : A) → Frame view (f a))
        → Frame view (m >>= f)
    unfolding ◌>>=◌
    Frame-bind m f s k = record { at = λ w. continue-Frame (m w).0 f (m w).1 k ∙ s.at w }

    -- What keeps the run tables keeps every view of them.
    pub Frame-Keeps : (m : M A) → ((t : RunTables) → Keeps (λ db. db.runs ≡ t) m) → Frame view m
    Frame-Keeps m h = record { at = λ w. ap view (Triple-either m w (h w.tables.runs) refl) }

-- What holds of a view that stays holds still.
pub Keeps-Frame :
    {A B : Type 0} {view : RunTables → B} (m : M A) (P : B → Type 0)
    → Frame view m
    → Keeps (λ t. P (view t.runs)) m
Keeps-Frame {view = view} m P h = record {
  at = λ w p. either (m w).0 (m w).1.tables (subst P (sym (h.at w)) p);
}
  where
    either :
        {A : Type 0} (r : Result A) (t : Tables)
        → P (view t.runs)
        → Ensures (λ _ t. P (view t.runs)) (λ t. P (view t.runs)) r t
    either (ok a) t p = p
    either (err e) t p = p

pub ruleset frame_rules = (
  Frame-query, Frame-pure, Frame-raise, Frame-ignore, Frame-handle, Frame-if, Frame-bind,
  Frame-call,
)
