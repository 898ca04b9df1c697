-- ===== src/Procedures/Evidence.antt =====
-- agent_control/procedure_validation.py: the policy of an activation, the evidence for it, and what the
-- policy asks of the evidence.
use freaky_monkey.Base.{
  ℕ, String, Bool, true, false, Option, none, some, List, [], ◌∷◌, ◌++◌, any, not, ◌&&◌, ltb,
  if◌then◌else◌,
}
use freaky_monkey.Base.Text.{codes, is_prefix}
use freaky_monkey.Json.{Value, Fields, Params, null, bool, num, str, obj, end, field}
use freaky_monkey.Policy.Paths.{Text}
use freaky_monkey.Procedures.Model.{ProcedureStep, LearnedProcedure}
use freaky_monkey.Procedures.Definition.{
  is_verified_workflow, is_missing, when, structural_reusable,
}

pub record ActivationPolicy : Type 0 where
  pub min_verified_evidence : ℕ
  pub require_human_approval : Bool
  pub require_verified_workflow_provenance : Bool
  pub require_reusable : Bool
  pub require_semantic_actions : Bool
  pub require_capabilities : Bool
  pub reject_failure_evidence : Bool
  pub reject_unknown_evidence : Bool

pub record Evidence : Type 0 where
  pub verified_evidence : ℕ
  pub independent_verification_pass : Bool
  pub policy_compatible : Bool
  pub recovery_clean : Bool
  pub reusable : Bool
  pub semantic_actions_valid : Bool
  pub capabilities_available : Bool
  pub human_approved : Bool
  pub failure_evidence : Bool
  pub unknown_evidence : Bool
  pub source_task_id : Option String
  pub source_session_id : Option String
  pub details : Fields

abbrev optional : Option String → Value
optional none = null
optional (some t) = str t

unfoldable pub as_dict : Evidence → Params
as_dict e =
    ("verified_evidence", num e.verified_evidence)
    ∷ ("independent_verification_pass", bool e.independent_verification_pass)
    ∷ ("policy_compatible", bool e.policy_compatible)
    ∷ ("recovery_clean", bool e.recovery_clean)
    ∷ ("reusable", bool e.reusable)
    ∷ ("semantic_actions_valid", bool e.semantic_actions_valid)
    ∷ ("capabilities_available", bool e.capabilities_available)
    ∷ ("human_approved", bool e.human_approved)
    ∷ ("failure_evidence", bool e.failure_evidence)
    ∷ ("unknown_evidence", bool e.unknown_evidence)
    ∷ ("source_task_id", optional e.source_task_id)
    ∷ ("source_session_id", optional e.source_session_id)
    ∷ ("details", obj e.details)
    ∷ []

-- `policy.__dict__`
abbrev pub policy_fields : ActivationPolicy → Fields
policy_fields p = field "min_verified_evidence" (num p.min_verified_evidence) (
    field "require_human_approval" (bool p.require_human_approval) (
      field "require_verified_workflow_provenance" (bool p.require_verified_workflow_provenance) (
        field "require_reusable" (bool p.require_reusable) (
          field "require_semantic_actions" (bool p.require_semantic_actions) (
            field "require_capabilities" (bool p.require_capabilities) (
              field "reject_failure_evidence" (bool p.reject_failure_evidence)
                (field "reject_unknown_evidence" (bool p.reject_unknown_evidence) end)))))))

-- What `find_for_action` of a registry does for an action.
pub data Found : Type 0 where
  found missing failed : Found

-- A skill registry: its `find_for_action`, if it has one, and what its `capabilities` answers, if it
-- does.
pub record Registry : Type 0 where
  pub find_for_action : Option (String → Found)
  pub capabilities : Option (List String)

abbrev finds_all : (String → Found) → List ProcedureStep → Bool
finds_all find [] = true
finds_all find (s ∷ ss) = elim (find s.action_name) [
  | found ↦ finds_all find ss
  | missing ↦ false
  | failed ↦ false
]

abbrev advertised : Option (List String) → List String
advertised none = []
advertised (some cs) = cs

-- `_inspect_skill_registry`: whether every action has a skill, and the capabilities advertised.
unfoldable pub inspect_skill_registry : LearnedProcedure → Option Registry → Bool × List String
inspect_skill_registry p none = (false, [])
inspect_skill_registry p (some r) = elim r.find_for_action [
  | none ↦ (false, [])
  | some find ↦ if finds_all find p.steps then (true, advertised r.capabilities) else (false, [])
]

-- `if test: reasons.append(reason)`, one after the other.
abbrev pub complaints : List (Bool × String) → List Text
complaints [] = []
complaints ((test, reason) ∷ cs) = when test reason ++ complaints cs

-- What the policy asks of the evidence beside the definition.
abbrev pub policy_checks : ActivationPolicy → Evidence → LearnedProcedure → List (Bool × String)
policy_checks policy e p =
    (
      policy.require_verified_workflow_provenance
          && not (
              is_verified_workflow p.provenance.source_type
              && not (is_missing p.provenance.source_task_id)),
      "verified_workflow_provenance_required",
    )
    ∷ (
      policy.require_reusable && not (e.reusable && structural_reusable p),
      "procedure_not_reusable",
    )
    ∷ (
      policy.require_semantic_actions && not e.semantic_actions_valid,
      "semantic_actions_not_verified",
    )
    ∷ (policy.require_capabilities && not e.capabilities_available, "capabilities_not_verified")
    ∷ (not e.independent_verification_pass, "independent_verification_required")
    ∷ (not e.policy_compatible, "policy_compatibility_not_verified")
    ∷ (not e.recovery_clean, "recovery_clean_evidence_required")
    ∷ (ltb e.verified_evidence policy.min_verified_evidence, "insufficient_verified_evidence")
    ∷ (policy.reject_failure_evidence && e.failure_evidence, "failure_evidence_present")
    ∷ (policy.reject_unknown_evidence && e.unknown_evidence, "unknown_evidence_present")
    ∷ (policy.require_human_approval && not e.human_approved, "human_activation_approval_required")
    ∷ []

unfoldable pub policy_reasons : ActivationPolicy → Evidence → LearnedProcedure → List Text
unfolding structural_reusable
policy_reasons policy e p = complaints (policy_checks policy e p)

abbrev invalid_definition_reasons : List String
invalid_definition_reasons =
    "malformed_procedure" ∷ "provenance_missing" ∷ "provenance_not_verified_workflow"
    ∷ "provenance_source_task_missing" ∷ "procedure_has_no_steps" ∷ "semantic_action_missing"
    ∷ "unresolved_parameter" ∷ "parameter_not_used" ∷ "parameter_not_bound_into_action"
    ∷ "not_generalizable" ∷ "required_capabilities_unavailable" ∷ "semantic_actions_invalid"
    ∷ "procedure_not_reusable" ∷ "independent_verification_missing" ∷ []

unfoldable pub is_permanently_invalid : List Text → Bool
is_permanently_invalid reasons =
    any (λ r. any (λ prefix. is_prefix (codes prefix) r) invalid_definition_reasons) reasons
