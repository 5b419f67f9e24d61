-- ===== src/Control/Verdicts.antt =====
-- The verdicts of validations (internal/orchestrator/service_forum_control.go).
use metawsm.Base.{
  String, ◌≡◌, refl, subst, ◌⊎◌, inl, Bool, true, false, ◌||◌, not, Option, none, some, List, [],
  ◌∷◌, All, arith, eq_iff, ◌==◌, nat_eq, string_eq, if◌then◌else◌,
}
use metawsm.Base.Text.{trim_space}
use metawsm.Base.Rows.{find, upsert}
use metawsm.Store.Sql.{Error, required, Result, ok, err}
use metawsm.Control.{
  ForumControlType, guidance_request, guidance_answer, completion, validation, unknown, is_blank,
  ForumControlPayload, validate, validate_type, status_of, validated, parse_forum_control_payload,
  apply_payload, apply_posts, signal, ForumControlAgentState, Agent, Mapping, blank_state,
  state_key, states_of_agents, state_or_blank, mapped_state, read_mapping, chain, read_mappings,
  read_answer, forum_control_states_for_run,
}

-- A verdict is empty, `passed` or `failed`.
abbrev pub IsJudged : ForumControlAgentState → Type 0
IsJudged s =
    (s.validation_status ≡ "") ⊎ (s.validation_status ≡ "passed") ⊎ (s.validation_status ≡ "failed")

signal-IsJudged :
    (t : ForumControlType) (p : ForumControlPayload) (s : ForumControlAgentState)
    → validate_type t p ≡ none
    → IsJudged s
    → IsJudged (signal t p s)
signal-IsJudged guidance_request p s v h = h
signal-IsJudged guidance_answer p s v h = h
signal-IsJudged completion p s v h = h
signal-IsJudged validation p s v h =
    ground (arith, eq_iff (status_of p.status) "passed", eq_iff (status_of p.status) "failed")
signal-IsJudged unknown p s v h = h

validate-type :
    (p : ForumControlPayload) → validate p ≡ none → validate_type p.control_type p ≡ none
unfolding validate
validate-type p h = ground arith

module _ (decode : String → Option ForumControlPayload) (run_id : String) where
  apply_payload-IsJudged :
      (o : Option ForumControlPayload) (s : ForumControlAgentState)
      → IsJudged s
      → IsJudged (apply_payload decode run_id (validated decode o) s)
  apply_payload-IsJudged none s h = h
  apply_payload-IsJudged (some p) s h = by_error (validate p) refl
    where
      by_error :
          (e : Option Error)
          → validate p ≡ e
          → IsJudged (apply_payload decode run_id (elim e [ none ↦ some p | some _ ↦ none ]) s)
      by_error (some _) e = h
      by_error none e = by_test (not (p.run_id == run_id) || not (p.agent_name == s.agent_name))
        where
          by_test : (b : Bool) → IsJudged (if b then s else signal p.control_type p s)
          by_test true = h
          by_test false = signal-IsJudged p.control_type p s (validate-type p e) h

  parse-IsJudged :
      (body : String) (s : ForumControlAgentState)
      → IsJudged s
      → IsJudged (apply_payload decode run_id (parse_forum_control_payload decode body) s)
  unfolding parse_forum_control_payload
  parse-IsJudged body s h = by_blank (trim_space body == "")
    where
      by_blank :
          (b : Bool)
          → IsJudged (
              apply_payload decode run_id
                (if b then none else validated decode (decode (trim_space body)))
                s)
      by_blank true = h
      by_blank false = apply_payload-IsJudged (decode (trim_space body)) s h

  apply_posts-IsJudged :
      (bodies : List String) (s : ForumControlAgentState)
      → IsJudged s
      → IsJudged (apply_posts decode run_id bodies s)
  unfolding apply_posts
  apply_posts-IsJudged [] s h = h
  apply_posts-IsJudged (body ∷ bodies) s h = apply_posts-IsJudged bodies _ (parse-IsJudged body s h)

  upsert-All :
      (P : ForumControlAgentState → Type 0) (s : ForumControlAgentState)
      (states : List ForumControlAgentState)
      → P s
      → All P states
      → All P (upsert state_key s states)
  unfolding upsert
  upsert-All P s [] p h = (p, tt)
  upsert-All P s (t ∷ states) p h =
      by_key (t.agent_name == s.agent_name) (upsert-All P s states p h.1)
    where
      by_key :
          (b : Bool)
          → All P (upsert state_key s states)
          → All P (if b then s ∷ states else t ∷ upsert state_key s states)
      by_key true rest = (p, h.1)
      by_key false rest = (h.0, rest)

  state_or_blank-IsJudged :
      (name k : String) (states : List ForumControlAgentState)
      → All IsJudged states
      → IsJudged (state_or_blank run_id name (find state_key k states))
  unfolding find
  state_or_blank-IsJudged name k [] h = inl refl
  state_or_blank-IsJudged name k (t ∷ states) h =
      by_key (t.agent_name == k) (state_or_blank-IsJudged name k states h.1)
    where
      by_key :
          (b : Bool)
          → IsJudged (state_or_blank run_id name (find state_key k states))
          → IsJudged (state_or_blank run_id name (if b then some t else find state_key k states))
      by_key true rest = h.0
      by_key false rest = rest

  states_of_agents-IsJudged :
      (agents : List Agent) (states : List ForumControlAgentState)
      → All IsJudged states
      → All IsJudged (states_of_agents run_id agents states)
  unfolding states_of_agents
  states_of_agents-IsJudged [] states h = h
  states_of_agents-IsJudged (a ∷ agents) states h =
      by_name (is_blank a.name) _ _ (states_of_agents-IsJudged agents states h) (
        states_of_agents-IsJudged agents (upsert state_key new states)
          (upsert-All IsJudged new states (inl refl) h))
    where
      new : ForumControlAgentState
      new = blank_state run_id (trim_space a.name) (trim_space a.workspace_name)

      by_name :
          (b : Bool) (x y : List ForumControlAgentState)
          → All IsJudged x
          → All IsJudged y
          → All IsJudged (if b then x else y)
      by_name true x y h k = h
      by_name false x y h k = k

-- The states of a result, if there is one, have the property.
abbrev AllStates : (ForumControlAgentState → Type 0) → Result (List ForumControlAgentState) → Type 0
AllStates P (err e) = Unit
AllStates P (ok states) = All P states

module _ (decode : String → Option ForumControlPayload) (posts : String → Result (List String))
    (run_id : String) where
  read_mappings-IsJudged :
      (ms : List Mapping) (states : List ForumControlAgentState)
      → All IsJudged states
      → AllStates IsJudged (read_mappings decode posts run_id ms states)
  unfolding read_mappings
  read_mappings-IsJudged [] states h = h
  read_mappings-IsJudged (m ∷ ms) states h =
      by_posts (posts (trim_space m.thread_id)) (read_mappings-IsJudged ms)
    where
      by_posts :
          (r : Result (List String))
          → ((states : List ForumControlAgentState)
              → All IsJudged states
              → AllStates IsJudged (read_mappings decode posts run_id ms states))
          → AllStates IsJudged (
              chain decode posts
                (read_mapping decode posts run_id
                  (mapped_state decode posts run_id m states)
                  r
                  states)
                (read_mappings decode posts run_id ms))
      by_posts (err e) rest = tt
      by_posts (ok bodies) rest = rest _ (
          upsert-All decode run_id IsJudged
            (apply_posts decode run_id bodies (mapped_state decode posts run_id m states)) states
            (apply_posts-IsJudged decode run_id bodies (mapped_state decode posts run_id m states) (
              state_or_blank-IsJudged decode run_id (trim_space m.agent_name)
                (trim_space m.agent_name) states h))
            h)

-- Whatever the posts hold and however their JSON decodes, every state that is computed for a run
-- has an empty validation status, `passed` or `failed`.
pub control_states-IsJudged :
    (decode : String → Option ForumControlPayload) (posts : String → Result (List String))
    (mappings : String → Result (List Mapping)) (run_id : String) (agents : List Agent)
    (states : List ForumControlAgentState)
    → forum_control_states_for_run decode posts mappings run_id agents ≡ ok states
    → All IsJudged states
unfolding forum_control_states_for_run
control_states-IsJudged decode posts mappings run_id agents states e =
    subst (AllStates IsJudged) e (by_run (trim_space run_id == ""))
  where
    by_mappings :
        (r : Result (List Mapping))
        → AllStates IsJudged (read_answer decode posts (trim_space run_id) agents r)
    by_mappings (err e) = tt
    by_mappings (ok ms) =
        read_mappings-IsJudged decode posts (trim_space run_id) ms
          (states_of_agents (trim_space run_id) agents [])
          (states_of_agents-IsJudged decode (trim_space run_id) agents [] tt)

    by_run :
        (b : Bool)
        → AllStates IsJudged (
            if b
            then err (required "run_id")
            else read_answer decode posts (trim_space run_id) agents (mappings (trim_space run_id)))
    by_run true = tt
    by_run false = by_mappings (mappings (trim_space run_id))
