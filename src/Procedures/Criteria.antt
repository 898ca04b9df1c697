-- ===== src/Procedures/Criteria.antt =====
-- agent_control/procedure_validation.py: what it means that nothing was said against a procedure.
use freaky_monkey.Base.{
  String, Bool, true, false, List, [], ◌∷◌, ◌++◌, ◌≡◌, inl, inr, refl, arith, Bool-cases, not, ◌&&◌,
  ◌||◌, ◌≤◌, All, if◌then◌else◌,
}
use freaky_monkey.Base.Dict.{lookup}
use freaky_monkey.Policy.Paths.{Text}
use freaky_monkey.Procedures.Model.{LearnedProcedure, ProcedureStep, Secrets, is_well_formed}
use freaky_monkey.Procedures.Definition.{
  when, distinct, definition_reasons, definition_parts, together, validate_procedure_definition,
  is_verified_workflow, says_pass, step_reasons, action_reasons, verification_reasons,
  steps_reasons, is_nil, parameter_names, structural_reusable,
}
use freaky_monkey.Procedures.Evidence.{
  ActivationPolicy, Evidence, policy_reasons, policy_checks, complaints,
}
use freaky_monkey.Procedures.Lifecycle.{not-false→}

when-eq-nil : (b : Bool) (reason : String) → when b reason ≡ [] → b ≡ false
when-eq-nil true reason h = cc
when-eq-nil false reason h = refl

pub append-eq-nil {ℓ} : {A : Type ℓ} (xs ys : List A) → xs ++ ys ≡ [] → (xs ≡ []) × (ys ≡ [])
append-eq-nil [] ys h = (refl, h)
append-eq-nil (x ∷ xs) ys h = cc

complaints-eq-nil : (cs : List (Bool × String)) → complaints cs ≡ [] → All (λ c. c.0 ≡ false) cs
complaints-eq-nil [] h = tt
complaints-eq-nil ((b, reason) ∷ cs) h =
    let (here, rest) = append-eq-nil (when b reason) (complaints cs) h in
    (when-eq-nil b reason here, complaints-eq-nil cs rest)

together-eq-nil : (rss : List (List Text)) → together rss ≡ [] → All (λ rs. rs ≡ []) rss
together-eq-nil [] h = tt
together-eq-nil (rs ∷ rss) h =
    let (here, rest) = append-eq-nil rs (together rss) h in (here, together-eq-nil rss rest)

pub distinct-eq-nil : (ts : List Text) → distinct [] ts ≡ [] → ts ≡ []
unfolding distinct
distinct-eq-nil [] h = refl
distinct-eq-nil (t ∷ ts) h = cc

-- Nothing that the evidence lacks is asked for.
abbrev pub IsSupported : ActivationPolicy → Evidence → LearnedProcedure → Type 0
IsSupported policy e p =
    ((not policy.require_reusable || (e.reusable && structural_reusable p)) ≡ true)
    × (e.independent_verification_pass ≡ true)
    × (e.policy_compatible ≡ true)
    × (e.recovery_clean ≡ true)
    × (policy.min_verified_evidence ≤ e.verified_evidence)
    × ((not policy.reject_failure_evidence || not e.failure_evidence) ≡ true)
    × ((not policy.reject_unknown_evidence || not e.unknown_evidence) ≡ true)
    × ((not policy.require_human_approval || e.human_approved) ≡ true)

pub policy_reasons-IsSupported :
    (policy : ActivationPolicy) (e : Evidence) (p : LearnedProcedure)
    → policy_reasons policy e p ≡ []
    → IsSupported policy e p
unfolding policy_reasons
policy_reasons-IsSupported policy e p h =
    let (
      _,
      (
        reusable,
        (
          _,
          (
            _,
            (independent, (compatible, (clean, (enough, (failures, (unknowns, (approval, _))))))),
          ),
        ),
      ),
    ) =
      complaints-eq-nil (policy_checks policy e p) h in
    (
      ground (arith, reusable),
      ground (arith, independent),
      ground (arith, compatible),
      ground (arith, clean),
      ground (arith, enough),
      ground (arith, failures),
      ground (arith, unknowns),
      ground (arith, approval),
    )

step-verified :
    (known : List Text) (s : ProcedureStep)
    → step_reasons known s ≡ []
    → says_pass (lookup "verdict" s.expected_verification) ≡ true
unfolding step_reasons
step-verified known s h =
    let (_, h2) = append-eq-nil (action_reasons known s) (verification_reasons s) h in
    by_test (says_pass (lookup "verdict" s.expected_verification)) _ h2
  where
    by_test : (b : Bool) (t : Text) → (if b then [] else t ∷ []) ≡ [] → b ≡ true
    by_test true t h = refl
    by_test false t h = cc

steps-verified :
    (known : List Text) (ss : List ProcedureStep)
    → steps_reasons known ss ≡ []
    → All (λ s. says_pass (lookup "verdict" s.expected_verification) ≡ true) ss
steps-verified known [] h = tt
steps-verified known (s ∷ ss) h =
    let (here, rest) = append-eq-nil (step_reasons known s) _ h in
    (step-verified known s here, steps-verified known ss rest)

-- The procedure comes from a verified workflow, has steps, and each of them expects a verification that
-- passes.
abbrev pub IsVerified : LearnedProcedure → Type 0
IsVerified p =
    (is_verified_workflow p.provenance.source_type ≡ true)
    × (is_nil p.steps ≡ false)
    × All (λ s. says_pass (lookup "verdict" s.expected_verification) ≡ true) p.steps

definition_reasons-nil :
    (p : LearnedProcedure) (available : List String) (semantic : Bool)
    → definition_reasons p available semantic ≡ []
    → IsVerified p
unfolding definition_reasons
definition_reasons-nil p available semantic h =
    let (workflow, (_, (steps, (verified, _)))) =
      together-eq-nil (definition_parts p available semantic) h in
    (
      not-false→ _ (when-eq-nil _ "provenance_not_verified_workflow" workflow),
      when-eq-nil _ "procedure_has_no_steps" steps,
      steps-verified (parameter_names p) p.steps verified,
    )

pub validate_procedure_definition-IsVerified :
    (secret : Secrets) (p : LearnedProcedure) (available : List String) (semantic : Bool)
    → validate_procedure_definition secret p available semantic ≡ []
    → (is_well_formed secret p ≡ true) × IsVerified p
unfolding validate_procedure_definition
validate_procedure_definition-IsVerified secret p available semantic h =
    elim (Bool-cases (is_well_formed secret p)) [
      | inl good ↦ (
        good,
        definition_reasons-nil p available semantic
            (distinct-eq-nil _ (chosen _ (when true "malformed_procedure:ValueError") good h)),
      )
      | inr bad ↦ absurd (refused _ _ bad h)
    ]
  where
    chosen : {b : Bool} (ts r : List Text) → b ≡ true → (if b then ts else r) ≡ [] → ts ≡ []
    chosen ts r good e = ground (arith, good, e)

    refused :
        {b : Bool} (ts : List Text) (r : Text) → b ≡ false → (if b then ts else r ∷ []) ≡ [] → ⊥
    refused ts r bad e = ground (arith, bad, e)

-- What an activation rests on: a definition that is accepted, and evidence for all the policy asks.
abbrev pub IsTrusted : Secrets → ActivationPolicy → Evidence → LearnedProcedure → Type 0
IsTrusted secret policy e p =
    (is_well_formed secret p ≡ true) × IsVerified p × IsSupported policy e p
