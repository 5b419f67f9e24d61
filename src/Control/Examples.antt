-- ===== src/Control/Examples.antt =====
-- A control thread with a request, its answer and a validation.
use metawsm.Base.{
  String, ◌≡◌, refl, Option, none, some, List, [], ◌∷◌, ◌||◌, ◌==◌, string_eq, if◌then◌else◌, All,
}
use metawsm.Base.Text.{trim_space, to_lower}
use metawsm.Base.Rows.{find, upsert}
use metawsm.Store.Sql.{Result, ok}
use metawsm.Control.{
  ForumControlType, guidance_request, guidance_answer, validation, ForumControlPayload, validate,
  parse_forum_control_payload, apply_posts, ForumControlAgentState, blank_state, Mapping,
  states_of_agents, read_mappings, forum_control_states_for_run,
}
use metawsm.Control.Signals.{
  own_payloads, open_question, has_completion, verdict, or_else, question_in, verdict_in,
  apply_posts_lem,
}
use metawsm.Control.Verdicts.{IsJudged, control_states-IsJudged}

abbrev payload : ForumControlType → ForumControlPayload
payload t = record {
  schema_version = 1;
  control_type = t;
  run_id = "r";
  agent_name = "a";
  question = " why? ";
  context = "";
  answer = "so";
  summary = "";
  status = "Passed ";
  done_criteria = "tests";
}

abbrev decode : String → Option ForumControlPayload
decode s =
    if s == "ask"
    then some (payload guidance_request)
    else if s == "tell"
    then some (payload guidance_answer)
    else if s == "check"
    then some (payload validation)
    else none

abbrev bodies : List String
bodies = "ask" ∷ "hello" ∷ "tell" ∷ "check" ∷ []

abbrev state : ForumControlAgentState
state = blank_state "r" "a" "w"

apply_posts_lem_example :
    let own = own_payloads decode "r" "a" bodies in
    let after = apply_posts decode "r" bodies state in
    (question_in after ≡ or_else (open_question own) (question_in state))
    × ((after.completion_signaled ≡ (state.completion_signaled || has_completion own))
        × (verdict_in after ≡ or_else (verdict own) (verdict_in state)))
apply_posts_lem_example = apply_posts_lem decode "r" bodies state

validated_after : verdict_in (apply_posts decode "r" bodies state) ≡ ("passed", "tests")
unfolding apply_posts parse_forum_control_payload validate trim_space to_lower
validated_after = refl

abbrev mapping : Mapping
mapping = record { agent_name = "a"; ticket = "K-1"; thread_id = "t" }

abbrev posts : String → Result (List String)
posts thread_id = ok bodies

abbrev mappings : String → Result (List Mapping)
mappings run_id = ok (mapping ∷ [])

abbrev validated_state : ForumControlAgentState
validated_state = record (blank_state "r" "a" "") {
  thread_id = "t";
  ticket = "K-1";
  validation_status = "passed";
  validation_done_criteria = "tests";
}

computed : forum_control_states_for_run decode posts mappings "r" [] ≡ ok (validated_state ∷ [])
unfolding forum_control_states_for_run read_mappings states_of_agents find upsert apply_posts
    parse_forum_control_payload validate trim_space to_lower
computed = refl

control_states-IsJudged_example : All IsJudged (validated_state ∷ [])
control_states-IsJudged_example =
    control_states-IsJudged decode posts mappings "r" [] (validated_state ∷ []) computed
