-- ===== src/Procedures/Definition.antt =====
-- agent_control/procedure_validation.py: the validation of a definition. A reason is a text, by its
-- code points.
use freaky_monkey.Base.{
  String, Bool, true, false, Option, none, some, List, [], ◌∷◌, ◌++◌, map, all, keep, not, ◌&&◌,
  ◌==◌, leb, if◌then◌else◌, str_eq,
}
use freaky_monkey.Base.Dict.{lookup}
use freaky_monkey.Base.Text.{codes, codes_eq, lower, upper, strip}
use freaky_monkey.Json.{Value, str}
use freaky_monkey.Policy.Paths.{Text, contains_text}
use freaky_monkey.Procedures.Model.{
  ProcedureStep, SourceType, verified_workflow, LearnedProcedure, Secrets, is_well_formed,
}
use freaky_monkey.Procedures.Placeholders.{
  findall, argument_placeholders, used_names, unresolved_names,
}

abbrev pub parameter_names : LearnedProcedure → List Text
parameter_names p = map (λ x. codes x.name) p.parameters

abbrev pub required_names : LearnedProcedure → List Text
required_names p = map (λ x. codes x.name) (keep (λ x. x.required) p.parameters)

-- `not value` of an optional text.
abbrev pub is_missing : Option String → Bool
is_missing none = true
is_missing (some t) = str_eq t ""

abbrev pub is_verified_workflow : SourceType → Bool
is_verified_workflow verified_workflow = true
is_verified_workflow _ = false

-- `if test: reasons.append(reason)`
abbrev pub when : Bool → String → List Text
when true reason = codes reason ∷ []
when false reason = []

abbrev named : String → Text → Text
named reason name = codes reason ++ name

abbrev pub is_nil {ℓ} : {A : Type ℓ} → List A → Bool
is_nil [] = true
is_nil (x ∷ xs) = false

-- The comparison of two texts by code points.
abbrev text_leb : Text → Text → Bool
text_leb [] ts = true
text_leb (c ∷ cs) [] = false
text_leb (c ∷ cs) (d ∷ ds) = if c == d then text_leb cs ds else leb c d

abbrev insert_sorted : Text → List Text → List Text
insert_sorted t [] = t ∷ []
insert_sorted t (u ∷ us) = if text_leb t u then t ∷ u ∷ us else u ∷ insert_sorted t us

abbrev sorted : List Text → List Text
sorted [] = []
sorted (t ∷ ts) = insert_sorted t (sorted ts)

-- `dict.fromkeys`: the first of equal texts stays.
unfoldable pub distinct : List Text → List Text → List Text
distinct seen [] = []
distinct seen (t ∷ ts) =
    let rest = distinct (t ∷ seen) ts in if contains_text seen t then rest else t ∷ rest

-- `str(verification.get("verdict", "")).upper() == "PASS"`: only a text can give it.
abbrev pub says_pass : Option Value → Bool
says_pass (some (str t)) = codes_eq (upper (codes t)) (codes "PASS")
says_pass _ = false

abbrev argument_reasons : List Text → ProcedureStep → List Text
argument_reasons known s =
    map (named "unresolved_parameter:") (unresolved_names known (argument_placeholders s.arguments))

abbrev pub verification_reasons : ProcedureStep → List Text
verification_reasons s =
    if says_pass (lookup "verdict" s.expected_verification)
    then []
    else named "independent_verification_missing:" (codes s.step_id) ∷ []

abbrev pub action_reasons : List Text → ProcedureStep → List Text
action_reasons known s =
    (if is_nil (strip (codes s.action_name))
      then named "semantic_action_missing:" (codes s.step_id) ∷ []
      else [])
    ++ argument_reasons known s

-- What one step adds to the reasons.
unfoldable pub step_reasons : List Text → ProcedureStep → List Text
unfolding argument_placeholders strip upper
step_reasons known s = action_reasons known s ++ verification_reasons s

abbrev pub steps_reasons : List Text → List ProcedureStep → List Text
steps_reasons known [] = []
steps_reasons known (s ∷ ss) = step_reasons known s ++ steps_reasons known ss

unfoldable pub used_in_arguments : List Text → List ProcedureStep → List Text
unfolding argument_placeholders
used_in_arguments known [] = []
used_in_arguments known (s ∷ ss) =
    used_names known (argument_placeholders s.arguments) ++ used_in_arguments known ss

unfoldable pub trigger_parameters : LearnedProcedure → List Text
unfolding findall
trigger_parameters p = used_names (parameter_names p) (findall (codes p.trigger_pattern))

abbrev unresolved_in_trigger : LearnedProcedure → List Text
unresolved_in_trigger p = unresolved_names (parameter_names p) (findall (codes p.trigger_pattern))

-- `required - used`
abbrev missing : List Text → List Text → List Text
missing required used = keep (λ n. not (contains_text used n)) required

-- The capabilities that the procedure and its steps name, in lower case.
abbrev folded_all : List String → List Text
folded_all cs = map (λ c. lower (codes c)) cs

unfoldable pub needed_capabilities : LearnedProcedure → List ProcedureStep → List Text
unfolding lower
needed_capabilities p [] = folded_all p.required_capabilities
needed_capabilities p (s ∷ ss) = folded_all s.required_capabilities ++ needed_capabilities p ss

abbrev generalizable_reasons : LearnedProcedure → List Text
generalizable_reasons p =
    if is_nil p.parameters
    then when true "not_generalizable:no_parameters"
    else when (is_nil (trigger_parameters p)) "not_generalizable:no_trigger_parameters"

-- `reasons.extend(…)`, one after the other.
abbrev pub together : List (List Text) → List Text
together [] = []
together (rs ∷ rss) = rs ++ together rss

-- The parts of the reasons against a definition that `validate` accepts.
abbrev pub definition_parts : LearnedProcedure → List String → Bool → List (List Text)
definition_parts p available semantic_actions_valid =
    let known = parameter_names p in
    let in_arguments = used_in_arguments known p.steps in
    when (not (is_verified_workflow p.provenance.source_type)) "provenance_not_verified_workflow"
    ∷ when (is_missing p.provenance.source_task_id) "provenance_source_task_missing"
    ∷ when (is_nil p.steps) "procedure_has_no_steps"
    ∷ steps_reasons known p.steps
    ∷ map (named "unresolved_parameter:") (unresolved_in_trigger p)
    ∷ map (named "parameter_not_used:")
        (sorted (missing (required_names p) (in_arguments ++ trigger_parameters p)))
    ∷ map (named "parameter_not_bound_into_action:")
        (sorted (missing (required_names p) in_arguments))
    ∷ generalizable_reasons p
    ∷ when (not (all (contains_text (folded_all available)) (needed_capabilities p p.steps)))
        "required_capabilities_unavailable"
    ∷ when (not semantic_actions_valid) "semantic_actions_invalid"
    ∷ []

unfoldable pub definition_reasons : LearnedProcedure → List String → Bool → List Text
unfolding trigger_parameters findall used_in_arguments needed_capabilities lower
definition_reasons p available semantic_actions_valid =
    together (definition_parts p available semantic_actions_valid)

unfoldable pub validate_procedure_definition :
    Secrets → LearnedProcedure → List String → Bool → List Text
unfolding is_well_formed definition_reasons distinct
validate_procedure_definition found p available semantic_actions_valid =
    if is_well_formed found p
    then distinct [] (definition_reasons p available semantic_actions_valid)
    else when true "malformed_procedure:ValueError"

-- `_structural_reusable`
unfoldable pub structural_reusable : LearnedProcedure → Bool
unfolding argument_placeholders findall trigger_parameters
structural_reusable p =
    not (is_nil p.steps)
    && all (λ s. is_nil (unresolved_names (parameter_names p) (argument_placeholders s.arguments)))
        p.steps
    && not (is_nil p.parameters)
    && is_nil (unresolved_in_trigger p)
    && not (is_nil (trigger_parameters p))
    && all (contains_text (trigger_parameters p)) (required_names p)
