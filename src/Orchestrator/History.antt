-- ===== src/Orchestrator/History.antt =====
-- What the transitions of internal/orchestrator/service.go and internal/hsm/hsm.go make of the
-- statuses of runs.
use mathlib.Core.Option
use mathlib.Core.Option.{some-injective}
use metawsm.Base.{
  String, Bool, true, false, Option, none, some, ◌≡◌, refl, sym, ap, ◌∙◌, subst, ◌==◌, string_eq,
  if◌then◌else◌, eq_iff, eq_refl, Bool-cases, inl, inr,
}
use metawsm.Base.Rows.{find, find-update}
use metawsm.Model.Run.{RunStatus, run_eq}
use metawsm.Model.Plan.{RunTables, RunRow}
use metawsm.Hsm.{can_transition_run}
use metawsm.Store.Schema.{Tables}
use metawsm.Store.Sql.{Result, ok, err, World, M}
use metawsm.Store.Sql.Triple.{
  Ensures, Triple, Triple-exec, Triple-bind, Triple-query, Triple-pure, Triple-raise,
}
use metawsm.Store.Runs.{
  run_key, set_status, update_run_status, set_run_status, get_run, found_run, select_run,
}
use metawsm.Orchestrator.Silent.{Silent-at, status_at, row_status, Silent}
use metawsm.Orchestrator.Quiet.{Silent-add_event}
use metawsm.Orchestrator.Steps.{transition_run}

-- The status of every run, or its absence, is one that is allowed.
abbrev pub Traced : (String → Option RunStatus → Type 0) → Tables → Type 0
Traced allows db = (j : String) → allows j (status_at j db.runs)

-- And the run of this id is in this status.
abbrev pub On : (String → Option RunStatus → Type 0) → String → RunStatus → Tables → Type 0
On allows run_id s db = Traced allows db × (status_at run_id db.runs ≡ some s)

-- A permitted transition of this run from the first to the second status stays among those allowed.
pub record MayEnter (allows : String → Option RunStatus → Type 0) (run_id : String)
    (from to : RunStatus) : Type 0 where
  pub at : allows run_id (some from) → can_transition_run from to ≡ true → allows run_id (some to)

status_at-set :
    (k j : String) (to : RunStatus) (text : String) (t : RunTables)
    → status_at j (set_run_status k to text t)
      ≡ (if k == j then Option.map (λ _. to) (status_at j t) else status_at j t)
unfolding status_at
status_at-set k j to text t =
    ap (Option.map row_status) (find-update run_key k j _ t.runs (λ r. refl))
    ∙ map_set (k == j) (find run_key j t.runs)
  where
    map_set :
        (b : Bool) (o : Option RunRow)
        → Option.map row_status (if b then Option.map (set_status to text) o else o)
          ≡ (if b then Option.map (λ _. to) (Option.map row_status o) else Option.map row_status o)
    map_set true (some r) = refl
    map_set true none = refl
    map_set false o = refl

module _ (allows : String → Option RunStatus → Type 0) where
  moved :
      (b : Bool) (j : String) (p : Option RunStatus) (to : RunStatus)
      → allows j p
      → (b ≡ true → (allows j (some to)) × ((t : RunStatus) × (p ≡ some t)))
      → allows j (if b then Option.map (λ _. to) p else p)
  moved true j (some t) to a e = (e refl).0
  moved true j none to a e = a
  moved false j p to a e = a

  set-On :
      (run_id : String) (from to : RunStatus) (text : String) (t : Tables)
      → MayEnter allows run_id from to
      → can_transition_run from to ≡ true
      → On allows run_id from t
      → On allows run_id to (record t { runs = set_run_status run_id to text t.runs })
  set-On run_id from to text t may h on =
      let entered = may.at (subst (allows run_id) on.1 (on.0 run_id)) h in
      (
        λ j. subst (allows j) (sym (status_at-set run_id j to text t.runs)) (
            moved (run_id == j) j (status_at j t.runs) to (on.0 j) (λ e.
              subst (λ k. (allows k (some to)) × ((u : RunStatus) × (status_at k t.runs ≡ some u)))
                ((eq_iff run_id j).0 e) (entered, (from, on.1)))),
        status_at-set run_id run_id to text t.runs
            ∙ rw (eq_refl run_id) (ap (Option.map (λ _. to)) on.1),
      )

  pub silent-Traced :
      (w v : World)
      → ((j : String) → status_at j v.tables.runs ≡ status_at j w.tables.runs)
      → Traced allows w.tables
      → Traced allows v.tables
  silent-Traced w v e p = λ j. subst (allows j) (sym (e j)) (p j)

  pub silent-On :
      (run_id : String) (s : RunStatus) (w v : World)
      → ((j : String) → status_at j v.tables.runs ≡ status_at j w.tables.runs)
      → On allows run_id s w.tables
      → On allows run_id s v.tables
  silent-On run_id s w v e p = (silent-Traced w v e p.0, e run_id ∙ p.1)

  either :
      {A : Type 0} (r : Result A) (t : Tables) (Q E : Tables → Type 0)
      → Q t
      → E t
      → Ensures (λ _. Q) E r t
  either (ok a) t Q E q e = q
  either (err x) t Q E q e = e

  -- A call that changes no status, whatever it returns
  pub Triple-Silent :
      {A : Type 0} (m : M A) (run_id : String) (s : RunStatus)
      → Silent m
      → Triple (On allows run_id s) m (λ _. On allows run_id s) (Traced allows)
  Triple-Silent m run_id s h = record {
    at = λ w p.
        let after = silent-On run_id s w (m w).1 (Silent-at m h w) p in
        either (m w).0 (m w).1.tables (On allows run_id s) (Traced allows) after after.0;
  }

  pub Traced-Silent :
      {A : Type 0} (m : M A)
      → Silent m
      → Triple (Traced allows) m (λ _. Traced allows) (Traced allows)
  Traced-Silent m h = record {
    at = λ w p.
        let after = silent-Traced w (m w).1 (Silent-at m h w) p in
        either (m w).0 (m w).1.tables (Traced allows) (Traced allows) after after;
  }

  pub Triple-transition :
      (run_id : String) (from to : RunStatus) (text : String)
      → MayEnter allows run_id from to
      → Triple
          (On allows run_id from)
          (transition_run run_id from to text)
          (λ _. On allows run_id to)
          (Traced allows)
  unfolding transition_run update_run_status
  Triple-transition run_id from to text may = elim (Bool-cases (can_transition_run from to)) [
    | inl e ↦ rw e (
        Triple-bind _ _ (λ _. On allows run_id to) (λ _. On allows run_id to)
          (Triple-exec _ (On allows run_id to)
            (λ t t' p h.
              subst (On allows run_id to) (some-injective _ _ h)
                (set-On run_id from to text t may e p))
            (λ t p. p.0))
          (λ _. Triple-Silent _ run_id to (Silent-add_event _)))
    | inr e ↦ rw e (Triple-raise _ (λ _. On allows run_id to) (λ t p. p.0))
  ]

  pub Triple-get_run :
      (run_id : String)
      → Triple (Traced allows) (get_run run_id) (λ row. On allows run_id row.status) (Traced allows)
  unfolding get_run status_at
  Triple-get_run run_id =
      Triple-bind _ _ (λ o t. Traced allows t × (o ≡ select_run run_id t))
        (λ row. On allows run_id row.status) (Triple-query _ (λ t p. p)) found
    where
      found :
          (o : Option RunRow)
          → Triple
              (λ t. Traced allows t × (o ≡ select_run run_id t))
              (found_run run_id o)
              (λ row. On allows run_id row.status)
              (Traced allows)
      found none = Triple-raise _ (λ row. On allows run_id row.status) (λ t p. p.0)
      found (some r) =
          Triple-pure r (λ row. On allows run_id row.status)
            (λ t p. (p.0, ap (Option.map row_status) (sym p.1)))
