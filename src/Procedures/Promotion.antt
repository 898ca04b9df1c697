-- ===== src/Procedures/Promotion.antt =====
-- agent_control/procedure_validation.py: `validate_and_promote`. The store is passed on explicitly, since
-- what was written before an exception stays written.
use freaky_monkey.Base.{
  ℕ, String, Bool, true, false, Option, none, some, List, [], ◌∷◌, ◌++◌, if◌then◌else◌,
}
use freaky_monkey.Base.Text.{codes}
use freaky_monkey.Json.{Params, obj}
use freaky_monkey.Policy.Paths.{Text}
use freaky_monkey.Procedures.Model.{
  ProcedureStatus, candidate, validating, active, degraded, invalidated, retired, EventType,
  validation_started, validation_passed, validation_failed, promotion_granted, LearnedProcedure,
  Secrets,
}
use freaky_monkey.Procedures.Store.{
  ValidationEvent, ProcedureStore, Stored, ok, raised, key_error, get_procedure, set_status,
  record_validation_event,
}
use freaky_monkey.Procedures.Definition.{distinct, validate_procedure_definition}
use freaky_monkey.Procedures.Evidence.{
  ActivationPolicy, Evidence, as_dict, policy_fields, Registry, inspect_skill_registry,
  policy_reasons, is_permanently_invalid,
}

pub data ValidationDecision : Type 0 where
  promote keep_candidate invalidate : ValidationDecision

pub record ValidationResult : Type 0 where
  pub decision : ValidationDecision
  pub reasons : List Text
  pub transitioned_from : ProcedureStatus
  pub transitioned_to : ProcedureStatus

abbrev status_name : ProcedureStatus → String
status_name candidate = "CANDIDATE"
status_name validating = "VALIDATING"
status_name active = "ACTIVE"
status_name degraded = "DEGRADED"
status_name invalidated = "INVALIDATED"
status_name retired = "RETIRED"

abbrev pub may_start : ProcedureStatus → Bool
may_start candidate = true
may_start validating = true
may_start _ = false

-- The capabilities given, or those of the registry when none are.
abbrev capabilities_of : List String → Bool × List String → List String
capabilities_of [] inspected = if inspected.0 then inspected.1 else []
capabilities_of (c ∷ cs) inspected = c ∷ cs

-- A computation on the store that may raise.
abbrev pub Run {ℓ} : Type ℓ → Type ℓ
Run A = ProcedureStore → ProcedureStore × Stored A

abbrev pub bound {ℓ κ} :
    {A : Type ℓ} {B : Type κ} → ProcedureStore × Stored A → (A → Run B) → ProcedureStore × Stored B
bound (st, ok a) f = f a st
bound (st, raised e) f = (st, raised e)

infixl 5 ◌>>=◌ ◌>>◌
abbrev pub ◌>>=◌ {ℓ κ} : {A : Type ℓ} {B : Type κ} → Run A → (A → Run B) → Run B
(m >>= f) st = bound (m st) f

abbrev pub ◌>>◌ {ℓ κ} : {A : Type ℓ} {B : Type κ} → Run A → Run B → Run B
m >> k = m >>= λ _. k

abbrev pub return {ℓ} : {A : Type ℓ} → A → Run A
return a st = (st, ok a)

abbrev pub committed : ProcedureStore → Stored ProcedureStore → ProcedureStore × Stored (Unit {0})
committed st (ok after) = (after, ok tt)
committed st (raised e) = (st, raised e)

-- One write of the store: it is done whole, or raises and does nothing.
abbrev pub write : (ProcedureStore → Stored ProcedureStore) → Run (Unit {0})
write op st = committed st (op st)

-- `";".join(reasons)`
abbrev joined : List Text → Text
joined [] = []
joined (r ∷ []) = r
joined (r ∷ s ∷ rs) = r ++ codes ";" ++ joined (s ∷ rs)

-- The clock and the patterns of credentials are those of a call.
module _ (secret : Secrets) (now : ℕ) where
  abbrev pub event_of : String → EventType → String → Text → Evidence → Params → ValidationEvent
  event_of k event_type result reason e evidence = record {
    procedure_id = k;
    event_type = event_type;
    result = result;
    reason = reason;
    source_task_id = e.source_task_id;
    source_session_id = e.source_session_id;
    evidence = evidence;
    created_at = now;
  }

  abbrev pub started_event : String → Evidence → ValidationEvent
  started_event k e =
      event_of k validation_started "STARTED" (codes "candidate_validation_started") e (as_dict e)

  abbrev pub failed_event : String → Evidence → List Text → ValidationEvent
  failed_event k e reasons = event_of k validation_failed "FAIL" (joined reasons) e (as_dict e)

  abbrev pub passed_event : String → Evidence → ValidationEvent
  passed_event k e =
      event_of k validation_passed "PASS" (codes "activation_criteria_satisfied") e (as_dict e)

  abbrev pub granted_event : String → ActivationPolicy → Evidence → ValidationEvent
  granted_event k policy e =
      event_of k promotion_granted "ACTIVE" (codes "explicit_activation_policy_satisfied") e
        (as_dict e ++ ("policy", obj (policy_fields policy)) ∷ [])

  abbrev pub record_event : ValidationEvent → Run (Unit {0})
  record_event event = write (λ st. record_validation_event secret st event)

  abbrev pub is_validating_now : String → ProcedureStore → Bool
  is_validating_now k st = elim (get_procedure st k) [
    | none ↦ false
    | some p ↦ elim p.status [ candidate ↦ false | validating ↦ true | active ↦ false | _ ↦ false ]
  ]

  abbrev pub reset_status : String → ProcedureStatus → Run (Unit {0})
  reset_status k target st =
      if is_validating_now k st then write (λ s. set_status s now k target) st else (st, ok tt)

  abbrev pub rejection :
      ProcedureStatus → ProcedureStatus → (permanent : Bool) → List Text → ValidationResult
  rejection started_from target permanent reasons = record {
    decision = if permanent then invalidate else keep_candidate;
    reasons = reasons;
    transitioned_from = started_from;
    transitioned_to = target;
  }

  -- The end of a validation with reasons against it.
  unfoldable pub rejected : String → Evidence → ProcedureStatus → List Text → Run ValidationResult
  unfolding set_status record_validation_event is_permanently_invalid as_dict get_procedure
  rejected k e started_from reasons =
      let permanent = is_permanently_invalid reasons in
      let target = if permanent then invalidated else candidate in
      (reset_status k target
        >> record_event (failed_event k e reasons)
        >> return (rejection started_from target permanent reasons))

  abbrev pub promotion : ProcedureStatus → ValidationResult
  promotion started_from = record {
    decision = promote;
    reasons = codes "activation_criteria_satisfied" ∷ [];
    transitioned_from = started_from;
    transitioned_to = active;
  }

  -- The end of a validation with nothing against it.
  unfoldable pub granted :
      String → ActivationPolicy → Evidence → ProcedureStatus → Run ValidationResult
  unfolding set_status record_validation_event as_dict
  granted k policy e started_from = do
    write (λ st. set_status st now k active)
    record_event (passed_event k e)
    record_event (granted_event k policy e)
    return (promotion started_from)

  -- A candidate is marked as being validated.
  unfoldable pub start_validation : String → Evidence → ProcedureStatus → Run (Unit {0})
  unfolding set_status record_validation_event as_dict
  start_validation k e candidate = do
    write (λ st. set_status st now k validating)
    record_event (started_event k e)
  start_validation k e _ = return tt

  -- All reasons against an activation.
  unfoldable pub all_reasons :
      LearnedProcedure
      → ActivationPolicy
      → Evidence
      → List String
      → Option Bool
      → Option Registry
      → List Text
  unfolding distinct validate_procedure_definition inspect_skill_registry policy_reasons
  all_reasons p policy e available semantic_actions_valid registry =
      let inspected = inspect_skill_registry p registry in
      distinct [] (
        validate_procedure_definition secret p (capabilities_of available inspected)
          (elim semantic_actions_valid [ none ↦ inspected.0 | some b ↦ b ])
        ++ policy_reasons policy e p)

  -- What follows the start: a grant when nothing is against it.
  abbrev pub decided :
      String → ActivationPolicy → Evidence → ProcedureStatus → List Text → Run ValidationResult
  decided k policy e started_from [] = granted k policy e started_from
  decided k policy e started_from (r ∷ rs) = rejected k e started_from (r ∷ rs)

  abbrev kept_as_is : LearnedProcedure → Run ValidationResult
  kept_as_is p = return (record {
    decision = keep_candidate;
    reasons = (codes "invalid_validation_start_status:" ++ codes (status_name p.status)) ∷ [];
    transitioned_from = p.status;
    transitioned_to = p.status;
  })

  -- The call for what the store has at the key.
  abbrev pub validate_found :
      String
      → Evidence
      → ActivationPolicy
      → List String
      → Option Bool
      → Option Registry
      → Option LearnedProcedure
      → Run ValidationResult
  validate_found k e policy available semantic_actions_valid registry none st =
      (st, raised key_error)
  validate_found k e policy available semantic_actions_valid registry (some p) st =
      if may_start p.status
      then (start_validation k e p.status
            >> decided k policy e p.status
                (all_reasons p policy e available semantic_actions_valid registry))
          st
      else kept_as_is p st

  unfoldable pub validate_and_promote :
      String
      → Evidence
      → ActivationPolicy
      → List String
      → Option Bool
      → Option Registry
      → Run ValidationResult
  unfolding get_procedure start_validation granted rejected all_reasons
  validate_and_promote k e policy available semantic_actions_valid registry st =
      validate_found k e policy available semantic_actions_valid registry (get_procedure st k) st
