-- ===== src/Orchestrator/Names.antt =====
-- internal/orchestrator/service.go and internal/policy/policy.go: the names and command lines that a
-- run is given.
use metawsm.Base.{
  ◌-◌, String, Bool, true, false, not, ◌&&◌, List, [], ◌∷◌, ◌++◌, ltb, ◌==◌, nat_eq, string_eq,
  if◌then◌else◌,
}
use metawsm.Base.Text.{trim_space, to_lower, concat, equal_fold}
use metawsm.Base.Words.{
  text_length, has_prefix, contains, drop_text, replace_all, replace_first, trim_prefix,
  trim_dashes, single_dashes, split_commas,
}
use metawsm.Model.Plan.{RunSpec, PlanStep}
use metawsm.Store.Sql.{refused, Result, ok, err}

abbrev pub is_blank : String → Bool
is_blank s = trim_space s == ""

abbrev pub or_else : String → String → String
or_else default s = if s == "" then default else s

unfoldable pub shell_quote : String → String
shell_quote s = concat "'" (concat (replace_all "'" "'\"'\"'" s) "'")

-- The replacer of `sanitizeToken`
abbrev dash_symbols : String → String
dash_symbols s = dash "/" (
    dash "\\" (
      dash ":" (
        dash "," (
          dash "." (
            dash "@"
              (dash "#" (dash "[" (dash "]" (dash "{" (dash "}" (dash "(" (dash ")" s))))))))))))
  where
    dash : String → String → String
    dash symbol t = replace_all symbol "-" t

unfoldable pub sanitize_token : String → String
sanitize_token token =
    or_else "x" (
      trim_dashes
        (single_dashes (dash_symbols (replace_all " " "-" (trim_space (to_lower token))))))

unfoldable pub render_session_name : String → String → String → String
render_session_name pattern agent workspace =
    let named =
      replace_all "{workspace}" (sanitize_token workspace)
        (replace_all "{agent}" (sanitize_token agent) pattern) in
    if is_blank named
    then concat (sanitize_token agent) (concat "-" (sanitize_token workspace))
    else named

-- The last 14 letters of a token that has more
abbrev last_fourteen : String → String
last_fourteen s = if ltb 14 (text_length s) then drop_text (text_length s - 14) s else s

unfoldable pub workspace_name_for : String → String → String
workspace_name_for ticket run_id =
    let name = replace_all " " "-" (replace_all "/" "-" (to_lower (trim_space ticket))) in
    let token = trim_prefix "run-" (to_lower (trim_space run_id)) in
    let dashed = replace_all ":" "-" (replace_all " " "-" (replace_all "/" "-" token)) in
    concat name (concat "-" (last_fourteen (or_else "x" (trim_dashes (single_dashes dashed)))))

unfoldable pub workspace_create_step : PlanStep → Bool
workspace_create_step step =
    if is_blank step.workspace_name
    then false
    else has_prefix "wsm create " (trim_space step.command)

unfoldable pub normalize_base_branch : String → String
normalize_base_branch branch = trim_prefix "origin/" (trim_space branch)

unfoldable pub normalize_agent_command : String → String
normalize_agent_command command =
    let given = trim_space command in
    if given == ""
    then "bash"
    else if contains "codex exec" given && not (contains "--skip-git-repo-check" given)
    then replace_first "codex exec" "codex exec --skip-git-repo-check" given
    else given

unfoldable pub wrap_agent_command_for_tmux : String → String
wrap_agent_command_for_tmux command =
    let given = or_else "bash" (trim_space command) in
    concat "bash -lc " (
      shell_quote (
        concat given (
          concat
            "; status=$?; printf '[metawsm] agent command exited with status %s at %s\\n' \"$status\" "
            "\"$(date -Iseconds)\"; exec bash")))

abbrev first_text : List String → String
first_text [] = ""
first_text (s ∷ _) = trim_space s

unfoldable pub normalize_doc_repo : String → List String → String
normalize_doc_repo doc_repo repos =
    let given = trim_space doc_repo in if given == "" then first_text repos else given

unfoldable pub effective_doc_home_repo : RunSpec → String
effective_doc_home_repo spec =
    let given = trim_space spec.doc_home_repo in
    if given == "" then normalize_doc_repo spec.doc_repo spec.repos else given

unfoldable pub resolve_doc_home_repo : String → String → List String → Result String
resolve_doc_home_repo doc_home_repo legacy repos =
    let home = trim_space doc_home_repo in
    let old = trim_space legacy in
    if not (home == "") && not (old == "") && not (equal_fold home old)
    then err (refused "doc home repo conflicts with --doc-repo value")
    else if not (home == "")
    then ok home
    else if not (old == "")
    then ok old
    else ok (normalize_doc_repo "" repos)

unfoldable pub contains_token : List String → String → Bool
contains_token [] target = false
contains_token (v ∷ vs) target =
    let rest = contains_token vs target in
    if equal_fold (trim_space v) (trim_space target) then true else rest

abbrev has_text : String → List String → Bool
has_text s [] = false
has_text s (t ∷ ts) = let rest = has_text s ts in if t == s then true else rest

-- The inner loop of `normalizeTokens`; `seen` holds what `out` holds.
unfoldable pub add_tokens : List String → List String → List String
add_tokens [] out = out
add_tokens (token ∷ tokens) out =
    let given = trim_space token in
    add_tokens tokens
      (if given == "" then out else if has_text given out then out else out ++ given ∷ [])

unfoldable pub normalize_tokens : List String → List String
normalize_tokens values = normalize_from values []
  where
    normalize_from : List String → List String → List String
    normalize_from [] out = out
    normalize_from (v ∷ vs) out = normalize_from vs (add_tokens (split_commas v) out)
