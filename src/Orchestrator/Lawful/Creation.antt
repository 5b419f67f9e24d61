-- ===== src/Orchestrator/Lawful/Creation.antt =====
-- A run that internal/store/sqlite.go creates begins in `created`.
use mathlib.Core.Option
use mathlib.Core.Option.{some-injective}
use metawsm.Base.{
  String, Bool, true, false, Option, none, some, List, [], ◌∷◌, ◌++◌, ◌≡◌, refl, sym, ap, ◌∙◌,
  subst, ◌==◌, string_eq, if◌then◌else◌, eq_iff, eq_refl,
}
use metawsm.Base.Rows.{find, insert, find-concat}
use metawsm.Model.Run.{RunStatus}
use metawsm.Model.Plan.{RunSpec, Config, RunTables, RunRow}
use metawsm.Store.Schema.{Tables}
use metawsm.Store.Sql.Triple.{Triple, Triple-exec, Triple-bind}
use metawsm.Store.Runs.{
  run_key, created_row, insert_run, create_run, ticket_statements, save_tickets,
}
use metawsm.Orchestrator.Silent.{status_at, row_status, statuses, Silent}
use metawsm.Orchestrator.Frame.{Frame-pure, Frame-exec_each, Each}
use metawsm.Orchestrator.History.{Traced, On, Triple-Silent}

-- Where the table has no such run, the script adds it.
insert_run-eq-some :
    (spec : RunSpec) (policy : Config) (db : Tables) {t : Tables}
    → insert_run spec policy db ≡ some t
    → (find run_key spec.run_id db.runs.runs ≡ none)
      × (t ≡ record db {
        runs = record db.runs { runs = db.runs.runs ++ created_row spec policy ∷ [] };
      })
unfolding insert_run insert
insert_run-eq-some spec policy db {t} h = by_find (find run_key spec.run_id db.runs.runs) refl h
  where
    by_find :
        (o : Option RunRow)
        → find run_key spec.run_id db.runs.runs ≡ o
        → Option.map
            (λ rows. record db { runs = record db.runs { runs = rows } })
            (elim o [ none ↦ some (db.runs.runs ++ created_row spec policy ∷ []) | some _ ↦ none ])
          ≡ some t
        → (find run_key spec.run_id db.runs.runs ≡ none)
          × (t ≡ record db {
            runs = record db.runs { runs = db.runs.runs ++ created_row spec policy ∷ [] };
          })
    by_find none e k = (e, sym (some-injective _ t k))
    by_find (some r) e k = cc

status_at-append :
    (r : RunRow) (j : String) (t : RunTables)
    → find run_key (run_key r) t.runs ≡ none
    → status_at j (record t { runs = t.runs ++ r ∷ [] })
      ≡ (if run_key r == j then some r.status else status_at j t)
unfolding status_at
status_at-append r j t h =
    ap (Option.map row_status) (find-concat run_key j r t.runs h) ∙ map_new (run_key r == j)
  where
    map_new :
        (b : Bool)
        → Option.map row_status (if b then some r else find run_key j t.runs)
          ≡ (if b then some r.status else Option.map row_status (find run_key j t.runs))
    map_new true = refl
    map_new false = refl

status_at-none :
    (run_id : String) (t : RunTables)
    → find run_key run_id t.runs ≡ none
    → status_at run_id t ≡ none
unfolding status_at
status_at-none run_id t h = ap (Option.map row_status) h

Each-tickets :
    (run_id : String) (tickets : List String) → Each statuses (ticket_statements run_id tickets)
unfolding ticket_statements status_at
Each-tickets run_id [] = tt
Each-tickets run_id (t ∷ ts) = ((λ t. refl), Each-tickets run_id ts)

Silent-save_tickets : (spec : RunSpec) (tickets : List String) → Silent (save_tickets spec tickets)
unfolding save_tickets
Silent-save_tickets spec [] = Frame-pure tt
Silent-save_tickets spec (t ∷ ts) = Frame-exec_each statuses _ (Each-tickets spec.run_id (t ∷ ts))

module _ (allows : String → Option RunStatus → Type 0) where
  created_or_kept :
      (b : Bool) (j : String) (p : Option RunStatus)
      → allows j p
      → (b ≡ true → allows j (some RunStatus.created))
      → allows j (if b then some RunStatus.created else p)
  created_or_kept true j p a e = e refl
  created_or_kept false j p a e = a

  created-On :
      (spec : RunSpec) (policy : Config) (t t' : Tables)
      → allows spec.run_id (some RunStatus.created)
      → Traced allows t
      → insert_run spec policy t ≡ some t'
      → On allows spec.run_id RunStatus.created t'
  created-On spec policy t t' may p h =
      let (fresh, same) = insert_run-eq-some spec policy t {t = t'} h in
      let status = λ (j : String). status_at-append (created_row spec policy) j t.runs fresh in
      subst (On allows spec.run_id RunStatus.created) (sym same) (
        λ j. subst (allows j) (sym (status j)) (
            created_or_kept (spec.run_id == j) j (status_at j t.runs) (p j) (λ e.
              subst (λ k. allows k (some RunStatus.created)) ((eq_iff spec.run_id j).0 e) may)),
        status spec.run_id ∙ rw (eq_refl spec.run_id) refl,
      )

  pub Triple-create_run :
      (spec : RunSpec) (policy : Config)
      → allows spec.run_id (some RunStatus.created)
      → Triple
          (Traced allows)
          (create_run spec policy)
          (λ _. On allows spec.run_id RunStatus.created)
          (Traced allows)
  unfolding create_run
  Triple-create_run spec policy may =
      Triple-bind _ _ (λ _. On allows spec.run_id RunStatus.created)
        (λ _. On allows spec.run_id RunStatus.created)
        (Triple-exec _ (On allows spec.run_id RunStatus.created)
          (λ t t' p h. created-On spec policy t t' may p h) (λ t p. p))
        (λ _.
          Triple-Silent allows _ spec.run_id RunStatus.created
            (Silent-save_tickets spec spec.tickets))

  -- A run under an id that the tables have is not created.
  pub Triple-create_known :
      (spec : RunSpec) (policy : Config) (s : RunStatus)
      → Triple (On allows spec.run_id s) (create_run spec policy) (λ _ _. ⊥) (Traced allows)
  unfolding create_run
  Triple-create_known spec policy s =
      Triple-bind _ _ (λ _ _. ⊥) (λ _ _. ⊥)
        (Triple-exec _ (λ _. ⊥)
          (λ t t' p h.
            let absent =
              status_at-none spec.run_id t.runs (insert_run-eq-some spec policy t {t = t'} h).0 in
            clash (sym p.1 ∙ absent))
          (λ t p. p.0))
        (λ _. record { at = λ w p. absurd p })
    where
      clash : {s : RunStatus} → some s ≡ none → ⊥
      clash e = cc
