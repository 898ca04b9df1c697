-- ===== src/Procedures/Trusted.antt =====
-- agent_control/procedure_validation.py: what stands behind an activation.
use freaky_monkey.Base.{
  ℕ, String, Bool, false, Option, none, some, List, [], ◌∷◌, ◌≡◌, ◌⊎◌, inl, inr, refl, sym, subst,
  Bool-cases,
}
use freaky_monkey.Base.Dict.{lookup}
use freaky_monkey.Policy.Paths.{Text}
use freaky_monkey.Procedures.Model.{ProcedureStatus, active, LearnedProcedure, Secrets}
use freaky_monkey.Procedures.Store.{ProcedureStore, is_active, get_procedure}
use freaky_monkey.Procedures.Definition.{validate_procedure_definition}
use freaky_monkey.Procedures.Evidence.{ActivationPolicy, Evidence, Registry}
use freaky_monkey.Procedures.Promotion.{
  validate_and_promote, validate_found, all_reasons, decided, start_validation, may_start,
}
use freaky_monkey.Procedures.Quiet.{
  IsInactive, IsQuiet, Preserves, >>=-Preserves, start_validation-Preserves, rejected-Preserves,
}
use freaky_monkey.Procedures.Criteria.{
  IsTrusted, append-eq-nil, distinct-eq-nil, policy_reasons-IsSupported,
  validate_procedure_definition-IsVerified,
}

abbrev pub IsActive : Option LearnedProcedure → Type 0
IsActive none = ⊥
IsActive (some p) = p.status ≡ active

inactive-clash : (o : Option LearnedProcedure) → IsInactive o → IsActive o → ⊥
inactive-clash none quiet now_active = now_active
inactive-clash (some p) quiet now_active = active-clash (p.status) quiet now_active
  where
    active-clash : (s : ProcedureStatus) → is_active s ≡ false → s ≡ active → ⊥
    active-clash s calm same = cc

stored-IsQuiet :
    (k : String) (st : ProcedureStore) (p : LearnedProcedure)
    → get_procedure st k ≡ some p
    → is_active p.status ≡ false
    → IsQuiet k st
unfolding get_procedure
stored-IsQuiet k st p there inactive = rw there inactive

module _ (secret : Secrets) (now : ℕ) (k : String) (e : Evidence) (policy : ActivationPolicy)
    (available : List String) (semantic : Option Bool) (registry : Option Registry) where
  all_reasons-IsTrusted :
      (p : LearnedProcedure)
      → all_reasons secret now p policy e available semantic registry ≡ []
      → IsTrusted secret policy e p
  unfolding all_reasons
  all_reasons-IsTrusted p h =
      let (sound, supported) =
        append-eq-nil (validate_procedure_definition secret p _ _) _ (distinct-eq-nil _ h) in
      let (formed, verified) = validate_procedure_definition-IsVerified secret p _ _ sound in
      (formed, verified, policy_reasons-IsSupported policy e p supported)

  decided-IsQuiet :
      (s : ProcedureStatus) (reasons : List Text)
      → (reasons ≡ []) ⊎ Preserves (IsQuiet k) (decided secret now k policy e s reasons)
  decided-IsQuiet s [] = inl refl
  decided-IsQuiet s (r ∷ rs) = inr (rejected-Preserves k secret now e s (r ∷ rs))

  -- When `validate_and_promote` was called for a stored procedure that was not active, and that
  -- procedure is active afterwards, whether the call returned or raised: its definition is well formed,
  -- it comes from a verified workflow, has steps, and each of them expects a verification that passes;
  -- the evidence has a passed independent verification, policy compatibility, a clean recovery and at
  -- least the number of verified runs that the policy asks for; where the policy says so, it has the
  -- approval of a human, no failed and no unknown run, and the procedure is reusable.
  pub validate_and_promote-IsTrusted :
      (st : ProcedureStore) (p : LearnedProcedure)
      → get_procedure st k ≡ some p
      → is_active p.status ≡ false
      → IsActive (
          lookup k
            (validate_and_promote secret now k e policy available semantic registry
              st).0.procedures)
      → IsTrusted secret policy e p
  unfolding validate_and_promote
  validate_and_promote-IsTrusted st p there inactive result =
      elim (decided-IsQuiet p.status reasons) [
        | inl clear ↦ all_reasons-IsTrusted p clear
        | inr calm ↦ absurd (inactive-clash _ (end-IsQuiet calm) result)
      ]
    where
      start : IsQuiet k st
      start = stored-IsQuiet k st p there inactive

      reasons : List Text
      reasons = all_reasons secret now p policy e available semantic registry

      found-IsQuiet :
          Preserves (IsQuiet k) (decided secret now k policy e p.status reasons)
          → IsQuiet k
              (validate_found secret now k e policy available semantic registry (some p) st).0
      found-IsQuiet calm = elim (Bool-cases (may_start p.status)) [
        | inl may ↦ rw may (
            >>=-Preserves (IsQuiet k) (start_validation secret now k e p.status)
              (λ _. decided secret now k policy e p.status reasons)
              (start_validation-Preserves k secret now e p.status) (λ _. calm) st start)
        | inr shut ↦ rw shut start
      ]

      end-IsQuiet :
          Preserves (IsQuiet k) (decided secret now k policy e p.status reasons)
          → IsQuiet k (validate_and_promote secret now k e policy available semantic registry st).0
      end-IsQuiet calm =
          subst
            (λ o.
              IsQuiet k (validate_found secret now k e policy available semantic registry o st).0)
            (sym there) (found-IsQuiet calm)
