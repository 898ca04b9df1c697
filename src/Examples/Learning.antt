-- ===== src/Examples/Learning.antt =====
-- Runs of the learned procedures on small stores.
use freaky_monkey.Base.{ℕ, true, false, none, some, [], ◌∷◌, ◌≡◌, refl, str_eq}
use freaky_monkey.Base.Dict.{lookup}
use freaky_monkey.Base.Text.{codes}
use freaky_monkey.Json.{null, str, end, field}
use freaky_monkey.Base.Text.{lower, upper, strip}
use freaky_monkey.Base.Dict.{insert}
use freaky_monkey.Procedures.Model.{
  ProcedureStatus, candidate, active, degraded, retired, validating, verified_workflow,
  LearnedProcedure, ProcedureParameter, ProcedureStep, Secrets, is_well_formed, text_ok,
  all_distinct, orders_from, step_ids, has_secret, contains_secret,
}
use freaky_monkey.Procedures.Store.{
  ProcedureStore, Stored, ok, raised, value_error, create_procedure, insert_procedure, has_version,
  failure, get_procedure,
}
use freaky_monkey.Procedures.Placeholders.{findall, placeholders, argument_placeholders}
use freaky_monkey.Procedures.Definition.{
  validate_procedure_definition, definition_reasons, distinct, structural_reusable,
  trigger_parameters, used_in_arguments, needed_capabilities, step_reasons,
}
use freaky_monkey.Procedures.Evidence.{
  ActivationPolicy, Evidence, Registry, found, as_dict, inspect_skill_registry, policy_reasons,
}
use freaky_monkey.Procedures.Promotion.{
  validate_and_promote, promotion, all_reasons, ValidationResult,
}
use freaky_monkey.Procedures.Health.{HealthPolicy, assess_health, assessed, degrade}
use freaky_monkey.Procedures.Writes.{HasStatus}
use freaky_monkey.Procedures.Lifecycle.{IsLawful}
use freaky_monkey.Procedures.History.{
  created, status_set, used, perform, perform_all, perform-IsLawful, perform_all-IsRetired,
  IsRetired,
}
use freaky_monkey.Procedures.Trusted.{validate_and_promote-IsTrusted, IsActive}
use freaky_monkey.Procedures.Criteria.{IsTrusted}
use freaky_monkey.Procedures.Promoted.{
  validate_and_promote-HasStatus, validate_and_promote-unrecorded,
}
use freaky_monkey.Procedures.Healthy.{assess_health-HasStatus}

abbrev patterns : Secrets
patterns t = str_eq t "password: hunter2"

abbrev pub song : ProcedureParameter
song = record {
  name = "song";
  description = "";
  type = "string";
  required = true;
  default = null;
  constraints = [];
  sensitive = false;
}

abbrev pub playing_step : ProcedureStep
playing_step = record {
  step_id = "s1";
  order = 0;
  action_name = "media_play";
  arguments = ("query", str "{song}") ∷ [];
  description = "";
  dependencies = [];
  required_capabilities = "media" ∷ [];
  expected_observation = [];
  expected_verification = ("verdict", str "pass") ∷ [];
  metadata = [];
}

abbrev pub play : ProcedureStatus → ℕ → LearnedProcedure
play status failures = record {
  procedure_id = "p1";
  name = "play";
  description = "play a song";
  trigger_pattern = "play {song}";
  status = status;
  version = 1;
  parameters = song ∷ [];
  steps = playing_step ∷ [];
  preconditions = [];
  postconditions = [];
  required_capabilities = [];
  resource_requirements = [];
  success_count = 2;
  failure_count = failures;
  unknown_count = 0;
  confidence = 50;
  importance = 50;
  created_at = 1;
  updated_at = 1;
  last_used_at = none;
  last_success_at = none;
  provenance = record {
    source_type = verified_workflow;
    source_task_id = some "t1";
    source_session_id = none;
    created_at = 1;
    parent_procedure_id = none;
    source_version = none;
  };
  source_task_id = some "t1";
  source_session_id = none;
  parent_procedure_id = none;
  metadata = [];
}

abbrev holding : LearnedProcedure → ProcedureStore
holding p = record { procedures = ("p1", p) ∷ []; events = [] }

abbrev empty : ProcedureStore
empty = record { procedures = []; events = [] }

abbrev strict : ActivationPolicy
strict = record {
  min_verified_evidence = 1;
  require_human_approval = true;
  require_verified_workflow_provenance = true;
  require_reusable = true;
  require_semantic_actions = true;
  require_capabilities = true;
  reject_failure_evidence = true;
  reject_unknown_evidence = true;
}

abbrev proof_of_use : Evidence
proof_of_use = record {
  verified_evidence = 2;
  independent_verification_pass = true;
  policy_compatible = true;
  recovery_clean = true;
  reusable = true;
  semantic_actions_valid = true;
  capabilities_available = true;
  human_approved = true;
  failure_evidence = false;
  unknown_evidence = false;
  source_task_id = some "t1";
  source_session_id = none;
  details = end;
}

-- The same with a credential among the details.
abbrev leaking : Evidence
leaking = record proof_of_use { details = field "note" (str "password: hunter2") end }

abbrev skills : Registry
skills = record { find_for_action = some (λ _. found); capabilities = some ("Media" ∷ []) }

names_found : findall (codes "play {song} {9x} {a-b}{") ≡ codes "song" ∷ codes "a-b" ∷ []
unfolding findall
names_found = refl

-- The store takes a candidate and refuses a procedure that is active from the start.
created_there :
    perform patterns empty (created (play candidate 0)) ≡ ok (holding (play candidate 0))
unfolding perform create_procedure insert_procedure is_well_formed text_ok all_distinct orders_from
    step_ids has_secret has_version lookup insert lower strip
created_there = refl

active_refused : perform patterns empty (created (play active 0)) ≡ raised value_error
unfolding perform create_procedure is_well_formed text_ok all_distinct orders_from step_ids
    has_secret lookup lower strip
active_refused = refl

nothing_against :
    all_reasons patterns 9 (play validating 0) strict proof_of_use [] none (some skills) ≡ []
unfolding all_reasons validate_procedure_definition definition_reasons distinct
    inspect_skill_registry policy_reasons structural_reusable argument_placeholders placeholders
    findall trigger_parameters used_in_arguments needed_capabilities step_reasons is_well_formed
    text_ok all_distinct orders_from step_ids has_secret lookup lower upper strip
nothing_against = refl

leaking_against :
    all_reasons patterns 9 (play validating 0) strict leaking [] none (some skills) ≡ []
unfolding all_reasons validate_procedure_definition definition_reasons distinct
    inspect_skill_registry policy_reasons structural_reusable argument_placeholders placeholders
    findall trigger_parameters used_in_arguments needed_capabilities step_reasons is_well_formed
    text_ok all_distinct orders_from step_ids has_secret lookup lower upper strip
leaking_against = refl

abbrev leaked : ProcedureStore × Stored ValidationResult
leaked =
    validate_and_promote patterns 9 "p1" leaking strict [] none (some skills)
      (holding (play validating 0))

validate_and_promote-unrecorded_example :
    (leaked.1 ≡ raised value_error)
    × HasStatus active (lookup "p1" leaked.0.procedures)
    × (leaked.0.events ≡ [])
unfolding get_procedure lookup has_secret as_dict contains_secret
validate_and_promote-unrecorded_example =
    validate_and_promote-unrecorded patterns 9 "p1" leaking strict [] none (some skills)
      (holding (play validating 0)) (play validating 0) refl refl leaking_against refl

perform-IsLawful_example : IsLawful empty (holding (play candidate 0))
perform-IsLawful_example =
    perform-IsLawful patterns empty (created (play candidate 0)) (holding (play candidate 0))
      created_there

perform_all-IsRetired_example : IsRetired (
    lookup "p1"
      (perform_all patterns
        (holding (play retired 0))
        (used 5 "p1" failure ∷ status_set 6 "p1" active ∷ [])).procedures)
unfolding lookup
perform_all-IsRetired_example =
    perform_all-IsRetired patterns (holding (play retired 0))
      (used 5 "p1" failure ∷ status_set 6 "p1" active ∷ []) "p1" refl

abbrev validated : ProcedureStore × Stored ValidationResult
validated =
    validate_and_promote patterns 9 "p1" proof_of_use strict [] none (some skills)
      (holding (play validating 0))

validated-IsActive : IsActive (lookup "p1" validated.0.procedures)
unfolding get_procedure lookup has_secret as_dict
validated-IsActive =
    let (_, now_active) =
      validate_and_promote-HasStatus patterns 9 "p1" proof_of_use strict [] none (some skills)
        (holding (play validating 0)) (play validating 0) refl refl nothing_against refl in
    now_active

validate_and_promote-HasStatus_example :
    (validated.1 ≡ ok (promotion patterns 9 validating))
    × HasStatus active (lookup "p1" validated.0.procedures)
unfolding get_procedure lookup has_secret as_dict
validate_and_promote-HasStatus_example =
    validate_and_promote-HasStatus patterns 9 "p1" proof_of_use strict [] none (some skills)
      (holding (play validating 0)) (play validating 0) refl refl nothing_against refl

validate_and_promote-IsTrusted_example : IsTrusted patterns strict proof_of_use (play validating 0)
unfolding get_procedure lookup
validate_and_promote-IsTrusted_example =
    validate_and_promote-IsTrusted patterns 9 "p1" proof_of_use strict [] none (some skills)
      (holding (play validating 0)) (play validating 0) refl refl validated-IsActive

abbrev lenient : HealthPolicy
lenient = record {
  degrade_after_failures = some 1;
  degrade_after_unknowns = some 1;
  invalidate_after_failures = none;
  invalidate_after_unknowns = none;
  require_explicit_invalid_evidence = true;
}

assess_health-HasStatus_example :
    ((assess_health patterns 9 "p1" lenient false false (holding (play active 1))).1 ≡ ok degrade)
    × HasStatus degraded (
        lookup "p1"
          (assess_health patterns 9 "p1" lenient false false
            (holding (play active 1))).0.procedures)
unfolding get_procedure lookup assessed
assess_health-HasStatus_example =
    assess_health-HasStatus patterns 9 "p1" lenient false false (holding (play active 1))
      (play active 1) (refl, (refl, (refl, (refl, tt)))) refl
