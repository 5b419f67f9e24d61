-- ===== src/Control/Signals.antt =====
-- What the control posts of a thread come to (internal/orchestrator/service_forum_control.go).
use metawsm.Base.{
  String, ◌≡◌, refl, sym, ap, ◌∙◌, subst, Bool, true, false, ◌&&◌, ◌||◌, not, Option, none, some,
  List, [], ◌∷◌, arith, ◌==◌, nat_eq, string_eq, if◌then◌else◌,
}
use metawsm.Base.Text.{trim_space}
use metawsm.Control.{
  ForumControlType, guidance_request, guidance_answer, completion, validation, unknown,
  ForumControlPayload, status_of, parse_forum_control_payload, apply_payload, apply_posts, signal,
  ForumControlAgentState,
}

-- A payload is for one agent of one run.
abbrev is_for : String → String → ForumControlPayload → Bool
is_for run_id agent_name p = p.run_id == run_id && p.agent_name == agent_name

abbrev pub add_own :
    String
    → String
    → Option ForumControlPayload
    → List ForumControlPayload
    → List ForumControlPayload
add_own run_id agent_name none rest = rest
add_own run_id agent_name (some p) rest = if is_for run_id agent_name p then p ∷ rest else rest

-- The valid payloads for one agent of one run, from the oldest post on
unfoldable pub own_payloads :
    (String → Option ForumControlPayload) → String → String → List String → List ForumControlPayload
own_payloads decode run_id agent_name [] = []
own_payloads decode run_id agent_name (body ∷ bodies) =
    add_own run_id agent_name (parse_forum_control_payload decode body)
      (own_payloads decode run_id agent_name bodies)

abbrev pub or_else : {A : Type 0} → Option A → A → A
or_else none a = a
or_else (some b) a = b

-- The question that the newest guidance message leaves open, `none` for an answer
abbrev question_of : ForumControlType → ForumControlPayload → Option (Option String)
question_of guidance_request p = some (some (trim_space p.question))
question_of guidance_answer p = some none
question_of _ p = none

abbrev pub prefer : {A : Type 0} → Option A → Option A → Option A
prefer none o = o
prefer (some a) o = some a

unfoldable pub open_question : List ForumControlPayload → Option (Option String)
open_question [] = none
open_question (p ∷ ps) = prefer (open_question ps) (question_of p.control_type p)

abbrev is_completion : ForumControlType → Bool
is_completion completion = true
is_completion _ = false

unfoldable pub has_completion : List ForumControlPayload → Bool
has_completion [] = false
has_completion (p ∷ ps) = is_completion p.control_type || has_completion ps

abbrev verdict_of : ForumControlType → ForumControlPayload → Option (String × String)
verdict_of validation p = some (status_of p.status, trim_space p.done_criteria)
verdict_of _ p = none

-- Status and criteria of the newest validation
unfoldable pub verdict : List ForumControlPayload → Option (String × String)
verdict [] = none
verdict (p ∷ ps) = prefer (verdict ps) (verdict_of p.control_type p)

abbrev pub question_in : ForumControlAgentState → Option String
question_in s = if s.pending_guidance then some s.pending_guidance_question else none

abbrev pub verdict_in : ForumControlAgentState → String × String
verdict_in s = (s.validation_status, s.validation_done_criteria)

-- What the payloads change between two states.
abbrev Summary :
    Option (Option String)
    → Bool
    → Option (String × String)
    → ForumControlAgentState
    → ForumControlAgentState
    → Type 0
Summary question done judged s after =
    (question_in after ≡ or_else question (question_in s))
    × ((after.completion_signaled ≡ (s.completion_signaled || done))
        × (verdict_in after ≡ or_else judged (verdict_in s)))

or_else-prefer :
    {A : Type 0} (o q : Option A) (a : A) → or_else (prefer o q) a ≡ or_else o (or_else q a)
or_else-prefer none q a = refl
or_else-prefer (some b) q a = refl

signal_question :
    (t : ForumControlType) (p : ForumControlPayload) (s : ForumControlAgentState)
    → question_in (signal t p s) ≡ or_else (question_of t p) (question_in s)
signal_question guidance_request p s = refl
signal_question guidance_answer p s = refl
signal_question completion p s = refl
signal_question validation p s = refl
signal_question unknown p s = refl

signal_completion :
    (t : ForumControlType) (p : ForumControlPayload) (s : ForumControlAgentState)
    → (signal t p s).completion_signaled ≡ (s.completion_signaled || is_completion t)
signal_completion t p s = ground arith

signal_verdict :
    (t : ForumControlType) (p : ForumControlPayload) (s : ForumControlAgentState)
    → verdict_in (signal t p s) ≡ or_else (verdict_of t p) (verdict_in s)
signal_verdict guidance_request p s = refl
signal_verdict guidance_answer p s = refl
signal_verdict completion p s = refl
signal_verdict validation p s = refl
signal_verdict unknown p s = refl

signal_agent :
    (t : ForumControlType) (p : ForumControlPayload) (s : ForumControlAgentState)
    → (signal t p s).agent_name ≡ s.agent_name
signal_agent guidance_request p s = refl
signal_agent guidance_answer p s = refl
signal_agent completion p s = refl
signal_agent validation p s = refl
signal_agent unknown p s = refl

signal-Summary :
    (t : ForumControlType) (p : ForumControlPayload) (q : Option (Option String)) (d : Bool)
    (v : Option (String × String)) (s after : ForumControlAgentState)
    → Summary q d v (signal t p s) after
    → Summary
        (prefer q (question_of t p))
        (is_completion t || d)
        (prefer v (verdict_of t p))
        s
        after
signal-Summary t p q d v s after h = (
  h.0 ∙ ap (or_else q) (signal_question t p s) ∙ sym (or_else-prefer q _ (question_in s)),
  (
    ground (arith, h.1.0, signal_completion t p s),
    h.1.1 ∙ ap (or_else v) (signal_verdict t p s) ∙ sym (or_else-prefer v _ (verdict_in s)),
  ),
)

-- The posts of a thread change an agent's state by the valid payloads for this agent and run only:
-- guidance is pending with the question of the newest guidance message if that is a request, and
-- not pending if it is an answer; the completion is signaled if it was or one payload signals it;
-- status and criteria are those of the newest validation. Without such payloads they stay.
pub apply_posts_lem :
    (decode : String → Option ForumControlPayload) (run_id : String) (bodies : List String)
    (s : ForumControlAgentState)
    → let own = own_payloads decode run_id s.agent_name bodies in
      Summary
        (open_question own)
        (has_completion own)
        (verdict own)
        s
        (apply_posts decode run_id bodies s)
unfolding apply_posts own_payloads open_question has_completion verdict
apply_posts_lem decode run_id [] s = (refl, (ground arith, refl))
apply_posts_lem decode run_id (body ∷ bodies) s =
    by_parse (parse_forum_control_payload decode body) (apply_posts_lem decode run_id bodies)
  where
    Rest : ForumControlAgentState → List ForumControlPayload → ForumControlAgentState → Type 0
    Rest s own t =
        Summary (open_question own) (has_completion own) (verdict own) s
          (apply_posts decode run_id bodies t)

    by_tests :
        (p : ForumControlPayload) (b c : Bool) (own : List ForumControlPayload)
        → Rest s own s
        → Rest (signal p.control_type p s) own (signal p.control_type p s)
        → Rest s
            (if b && c then p ∷ own else own)
            (if not b || not c then s else signal p.control_type p s)
    by_tests p true true own same signalled =
        signal-Summary p.control_type p (open_question own) (has_completion own) (verdict own) s
          (apply_posts decode run_id bodies (signal p.control_type p s)) signalled
    by_tests p true false own same signalled = same
    by_tests p false c own same signalled = same

    by_parse :
        (o : Option ForumControlPayload)
        → ((t : ForumControlAgentState) → Rest t (own_payloads decode run_id t.agent_name bodies) t)
        → Rest s
            (add_own run_id s.agent_name o (own_payloads decode run_id s.agent_name bodies))
            (apply_payload decode run_id o s)
    by_parse none rest = rest s
    by_parse (some p) rest =
        by_tests p (p.run_id == run_id) (p.agent_name == s.agent_name)
          (own_payloads decode run_id s.agent_name bodies) (rest s)
          (subst
            (λ name.
              Rest (signal p.control_type p s) (own_payloads decode run_id name bodies)
                (signal p.control_type p s))
            (signal_agent p.control_type p s) (rest (signal p.control_type p s)))
