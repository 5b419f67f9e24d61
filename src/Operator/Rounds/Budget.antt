-- ===== src/Operator/Rounds/Budget.antt =====
-- The restarts that the operator loop of cmd/metawsm/main.go counts.
use mathlib.Core.Option.{some-injective}
use metawsm.Base.{
  ℕ, ◌+◌, ◌≤◌, ◌<◌, String, Bool, true, false, not, ◌&&◌, Option, none, some, List, [], ◌∷◌, ◌≡◌,
  refl, sym, subst, ◌==◌, string_eq, nat_eq, if◌then◌else◌, arith,
}
use metawsm.Base.Rows.{find, find-upsert}
use metawsm.Model.Plan.{OperatorRunState, RunTables}
use metawsm.Store.Schema.{Tables}
use metawsm.Store.Sql.{World, M}
use metawsm.Store.Sql.Triple.{
  Triple, Keeps, Triple-bind, Triple-query, Triple-pure, Triple-weaken, Triple-if, Triple-either,
  Triple-handle, Triple-ignored, Triple-error, Triple-exec,
}
use metawsm.Store.Runs.{
  operator_key, find_operator, save_operator, stored_operator, upsert_operator_run_state,
  get_operator_run_state,
}
use metawsm.Orchestrator.Frame.{Frame, Keeps-Frame}
use metawsm.Operator.{
  OperatorIntent, noop, auto_restart, OperatorRuleDecision, OperatorLlmResponse,
  OperatorMergedDecision, same_intent, merge_operator_decisions, executed_decision_is_the_rules,
}
use metawsm.Operator.Rules.{Settings}
use metawsm.Operator.Rounds.{
  Memory, restarted_state, count_restart, carry_out, alert, caught, decide, operator_round,
  operator_rounds, Round, is_last, operator_event,
}
use metawsm.Operator.Rounds.Room.{attempts_of, attempts, WithinBudget, CanRestart, Triple-build}

abbrev pub operator_states : RunTables → List OperatorRunState
operator_states t = t.operator_states

-- The action does not change the restarts that are counted.
abbrev pub IsAction : (String → OperatorIntent → M (Unit {0})) → Type 0
IsAction act =
    (run_id : String) (intent : OperatorIntent) → Frame operator_states (act run_id intent)

-- Room for one restart more
abbrev HasRoom : ℕ → String → Tables → Type 0
HasRoom budget run_id t = WithinBudget budget t × (attempts run_id t.runs + 1 ≤ budget)

restarted-WithinBudget :
    (settings : Settings) (budget : ℕ) (run_id : String) (now : ℕ) (t : Tables)
    → HasRoom budget run_id t
    → WithinBudget budget (record t {
      runs =
          save_operator
            (restarted_state run_id now settings.restart_cooldown (find_operator run_id t.runs))
            t.runs;
    })
restarted-WithinBudget settings budget run_id now t h j =
    let state =
      stored_operator
        (restarted_state run_id now settings.restart_cooldown (find_operator run_id t.runs)) in
    subst (λ o. attempts_of o ≤ budget)
      (sym (find-upsert operator_key j state t.runs.operator_states))
      (by_key (operator_key state == j) state (counted (find_operator run_id t.runs) h.1))
  where
    counted :
        (o : Option OperatorRunState)
        → attempts_of o + 1 ≤ budget
        → (restarted_state run_id now settings.restart_cooldown o).restart_attempts ≤ budget
    counted none k = omega (arith, k)
    counted (some s) k = k

    by_key :
        (b : Bool) (s : OperatorRunState)
        → s.restart_attempts ≤ budget
        → attempts_of (if b then some s else find operator_key j t.runs.operator_states) ≤ budget
    by_key true s k = k
    by_key false s k = h.0 j

Triple-count_restart :
    (settings : Settings) (budget : ℕ) (run_id : String) (now : ℕ)
    → Triple
        (HasRoom budget run_id)
        (count_restart settings run_id now)
        (λ _. WithinBudget budget)
        (WithinBudget budget)
unfolding count_restart get_operator_run_state upsert_operator_run_state
Triple-count_restart settings budget run_id now =
    Triple-bind _ _ (λ current t. HasRoom budget run_id t × (current ≡ find_operator run_id t.runs))
      _ (Triple-query _ (λ t p. p.0))
      (λ current.
        Triple-exec _ (WithinBudget budget)
          (λ t t' p e. subst (WithinBudget budget) (some-injective _ _ e) (
            subst
              (λ o. WithinBudget budget (record t {
                runs =
                    save_operator (restarted_state run_id now settings.restart_cooldown o) t.runs;
              }))
              (sym p.1) (restarted-WithinBudget settings budget run_id now t p.0)))
          (λ t p. p.0.0))

module _ (show_duration show_time : ℕ → String) (act : String → OperatorIntent → M (Unit {0}))
    (acts : IsAction act) where
  act-Keeps :
      (budget : ℕ) (run_id : String) (intent : OperatorIntent)
      → Keeps (WithinBudget budget) (act run_id intent)
  act-Keeps budget run_id intent =
      Keeps-Frame _ (λ v. (j : String) → attempts_of (find operator_key j v) ≤ budget)
        (acts run_id intent)

  act-HasRoom :
      (budget : ℕ) (run_id : String) (intent : OperatorIntent)
      → Triple
          (HasRoom budget run_id)
          (act run_id intent)
          (λ _. HasRoom budget run_id)
          (WithinBudget budget)
  act-HasRoom budget run_id intent =
      Triple-error (HasRoom budget run_id) (WithinBudget budget)
        (Keeps-Frame _
          (λ v.
            ((j : String) → attempts_of (find operator_key j v) ≤ budget)
            × (attempts_of (find operator_key run_id v) + 1 ≤ budget))
          (acts run_id intent))
        (λ t p. p.0)

  Restarts : ℕ → String → OperatorMergedDecision → Tables → Type 0
  Restarts budget run_id merged t =
      WithinBudget budget t
      × (merged.execute ≡ true
          → same_intent merged.intent auto_restart ≡ true
          → attempts run_id t.runs + 1 ≤ budget)

  Triple-carry_out :
      (settings : Settings) (budget : ℕ) (run_id : String) (now : ℕ)
      (merged : OperatorMergedDecision)
      → Triple
          (Restarts budget run_id merged)
          (carry_out show_duration show_time act settings run_id now merged)
          (λ _. WithinBudget budget)
          (WithinBudget budget)
  unfolding Restarts
  Triple-carry_out settings budget run_id now merged =
      Triple-if (not (merged.execute && not settings.dry_run)) _ _ _
        (λ _. Triple-pure tt _ (λ t p. p.0))
        (λ e.
          Triple-if (same_intent merged.intent auto_restart) _ _ _
            (λ i. Triple-ignored _ (
              Triple-weaken _ (HasRoom budget run_id) _ _
                (Triple-bind _ _ (λ _. HasRoom budget run_id) _ (act-HasRoom budget run_id _)
                  (λ _. Triple-count_restart settings budget run_id now))
                (λ t p. (p.0, p.1 (executes merged.execute settings.dry_run e) i)) (λ a t p. p)))
            (λ _. Triple-ignored _ (
              Triple-weaken _ (WithinBudget budget) _ _ (act-Keeps budget run_id _) (λ t p. p.0)
                (λ a t p. p))))
    where
      executes : (x d : Bool) → not (x && not d) ≡ false → x ≡ true
      executes x d e = ground arith

  Triple-alert :
      (settings : Settings) (budget : ℕ) (run_id : String) (now : ℕ) (m : Memory)
      (merged : OperatorMergedDecision)
      → Triple
          (Restarts budget run_id merged)
          (alert show_duration show_time act settings run_id now m merged)
          (λ _. WithinBudget budget)
          (WithinBudget budget)
  unfolding Restarts
  Triple-alert settings budget run_id now m merged =
      Triple-if (same_intent merged.intent noop) _ _ _ (λ _. Triple-pure _ _ (λ t p. p.0))
        (λ _.
          Triple-if (is_last m.last_alert (operator_event merged.intent)) _ _ _
            (λ _. Triple-pure _ _ (λ t p. p.0))
            (λ _.
              Triple-bind _ _ (λ _. WithinBudget budget) _
                (Triple-carry_out settings budget run_id now merged)
                (λ _. Triple-pure _ _ (λ t p. p))))

  Triple-decide :
      (settings : Settings) (budget : ℕ) (run_id : String) (now : ℕ) (m : Memory)
      (reply : Option OperatorLlmResponse) (rule : Option OperatorRuleDecision)
      → Triple
          (λ t.
            WithinBudget budget t
            × ((r : OperatorRuleDecision) → rule ≡ some r → CanRestart budget run_id r t))
          (decide show_duration show_time act settings run_id now m reply rule)
          (λ _. WithinBudget budget)
          (WithinBudget budget)
  unfolding Restarts
  Triple-decide settings budget run_id now m reply none = Triple-pure m _ (λ t p. p.0)
  Triple-decide settings budget run_id now m reply (some rule) =
      Triple-weaken _
        (Restarts budget run_id (merge_operator_decisions settings.llm_mode rule reply)) _ _
        (Triple-alert settings budget run_id now m
          (merge_operator_decisions settings.llm_mode rule reply))
        (λ t p. (
          p.0,
          λ x i.
              let own = executed_decision_is_the_rules settings.llm_mode rule reply x in
              p.1 rule refl own.0
                (subst (λ intent. same_intent intent auto_restart ≡ true) own.1 i),
        ))
        (λ a t p. p)

  Triple-caught :
      (budget : ℕ) (run_id : String) (m : M OperatorRuleDecision)
      → Triple
          (WithinBudget budget)
          m
          (λ rule t. WithinBudget budget t × CanRestart budget run_id rule t)
          (WithinBudget budget)
      → Triple
          (WithinBudget budget)
          (caught show_duration show_time act m)
          (λ rule t.
            WithinBudget budget t
            × ((r : OperatorRuleDecision) → rule ≡ some r → CanRestart budget run_id r t))
          (WithinBudget budget)
  Triple-caught budget run_id m h =
      Triple-handle _ _
        (Triple-bind _ _ (λ rule t. WithinBudget budget t × CanRestart budget run_id rule t) _ h
          (λ rule. Triple-pure _ _ (λ t p.
            (p.0, λ r e. subst (λ q. CanRestart budget run_id q t) (some-injective _ _ e) p.1))))
        (λ e. Triple-pure none _ (λ t p. (p, λ r k. cc)))

  Keeps-operator_round :
      (settings : Settings) (r : Round) (m : Memory)
      → 0 < settings.restart_budget
      → Keeps (WithinBudget settings.restart_budget) (
          operator_round show_duration show_time act r.probe r.reply settings r.snapshot
            r.updated_at r.now m)
  unfolding operator_round
  Keeps-operator_round settings r m positive =
      Triple-bind _ _
        (λ rule t.
          WithinBudget settings.restart_budget t
          × ((d : OperatorRuleDecision)
              → rule ≡ some d
              → CanRestart settings.restart_budget r.snapshot.run_id d t))
        _
        (Triple-caught settings.restart_budget r.snapshot.run_id _ (
          Triple-build show_duration show_time r.probe settings r.snapshot r.updated_at r.now _
            positive))
        (λ rule.
          Triple-decide settings settings.restart_budget r.snapshot.run_id r.now _ r.reply rule)

  -- However many rounds the operator makes, for any runs, snapshots, probes and proposals, and
  -- with any action that leaves the counts alone, no run has more counted restarts than the
  -- budget, provided that the budget is positive and held before.
  pub restarts_stay-WithinBudget :
      (settings : Settings) (rounds : List Round) (memory : String → Memory) (w : World)
      → 0 < settings.restart_budget
      → WithinBudget settings.restart_budget w.tables
      → WithinBudget settings.restart_budget
          (operator_rounds show_duration show_time act settings rounds memory w).tables
  unfolding operator_rounds
  restarts_stay-WithinBudget settings [] memory w positive h = h
  restarts_stay-WithinBudget settings (r ∷ rs) memory w positive h =
      restarts_stay-WithinBudget settings rs _ _ positive
        (Triple-either _ w (Keeps-operator_round settings r (memory r.snapshot.run_id) positive) h)
