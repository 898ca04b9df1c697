-- ===== src/Procedures/Health.antt =====
-- agent_control/procedure_validation.py: `assess_health`.
use freaky_monkey.Base.{
  ℕ, String, Bool, true, false, Option, none, some, [], ◌∷◌, ◌&&◌, ◌||◌, leb, if◌then◌else◌,
}
use freaky_monkey.Base.Text.{codes}
use freaky_monkey.Json.{Params, bool, num}
use freaky_monkey.Procedures.Model.{
  ProcedureStatus, active, degraded, invalidated, EventType, degradation_detected,
  invalidation_detected, revalidation_passed, LearnedProcedure, Secrets,
}
use freaky_monkey.Procedures.Store.{
  ValidationEvent, raised, key_error, get_procedure, set_status, record_validation_event,
}
use freaky_monkey.Procedures.Promotion.{Run, ◌>>◌, return, write}

pub data HealthDecision : Type 0 where
  healthy degrade invalidate reactivate no_change : HealthDecision

pub record HealthPolicy : Type 0 where
  pub degrade_after_failures : Option ℕ
  pub degrade_after_unknowns : Option ℕ
  pub invalidate_after_failures : Option ℕ
  pub invalidate_after_unknowns : Option ℕ
  pub require_explicit_invalid_evidence : Bool

-- `threshold is not None and count >= threshold`
abbrev pub reaches : Option ℕ → ℕ → Bool
reaches none count = false
reaches (some most) count = leb most count

abbrev counters : LearnedProcedure → Params
counters p = ("failure_count", num p.failure_count) ∷ ("unknown_count", num p.unknown_count) ∷ []

-- The rules, in their order: the decision, the status to set with the event that says so.
pub record Move : Type 0 where
  pub target : ProcedureStatus
  pub event_type : EventType
  pub result : String
  pub reason : String
  pub evidence : Params

abbrev pub explicit : Move
explicit = record {
  target = invalidated;
  event_type = invalidation_detected;
  result = "INVALIDATED";
  reason = "explicit_invalid_evidence";
  evidence = ("invalid_evidence", bool true) ∷ [];
}

abbrev pub exceeded : LearnedProcedure → ProcedureStatus → EventType → String → Move
exceeded p target event_type result = record {
  target = target;
  event_type = event_type;
  result = result;
  reason = "health_threshold_exceeded";
  evidence = counters p;
}

abbrev pub reactivation : Move
reactivation = record {
  target = active;
  event_type = revalidation_passed;
  result = "ACTIVE";
  reason = "explicit_revalidation_passed";
  evidence = ("revalidation_passed", bool true) ∷ [];
}

abbrev pub assessed_as :
    HealthPolicy
    → (invalid_evidence revalidated : Bool) → LearnedProcedure
    → ProcedureStatus
    → HealthDecision × Option Move
assessed_as policy invalid_evidence revalidated p active =
    if invalid_evidence && policy.require_explicit_invalid_evidence
    then (invalidate, some explicit)
    else if reaches policy.invalidate_after_failures p.failure_count
        || reaches policy.invalidate_after_unknowns p.unknown_count
    then (invalidate, some (exceeded p invalidated invalidation_detected "INVALIDATED"))
    else if reaches policy.degrade_after_failures p.failure_count
        || reaches policy.degrade_after_unknowns p.unknown_count
    then (degrade, some (exceeded p degraded degradation_detected "DEGRADED"))
    else (healthy, none)
assessed_as policy invalid_evidence revalidated p degraded =
    if invalid_evidence
    then (invalidate, some explicit)
    else if revalidated
    then (reactivate, some reactivation)
    else (no_change, none)
assessed_as policy invalid_evidence revalidated p _ = (no_change, none)

unfoldable pub assessed :
    HealthPolicy
    → (invalid_evidence revalidated : Bool) → LearnedProcedure
    → HealthDecision × Option Move
assessed policy invalid_evidence revalidated p =
    assessed_as policy invalid_evidence revalidated p p.status

abbrev pub move_event : ℕ → String → Move → ValidationEvent
move_event now k m = record {
  procedure_id = k;
  event_type = m.event_type;
  result = m.result;
  reason = codes m.reason;
  source_task_id = none;
  source_session_id = none;
  evidence = m.evidence;
  created_at = now;
}

-- One rule applied: the status is set before the event is recorded.
unfoldable pub apply_move : Secrets → ℕ → String → Option Move → Run (Unit {0})
unfolding set_status record_validation_event
apply_move secret now k none = return tt
apply_move secret now k (some m) = do
  write (λ st. set_status st now k m.target)
  write (λ st. record_validation_event secret st (move_event now k m))

-- The call for what the store has at the key.
abbrev pub assess_found :
    Secrets
    → ℕ
    → String
    → HealthPolicy
    → (invalid_evidence revalidated : Bool) → Option LearnedProcedure
    → Run HealthDecision
assess_found secret now k policy invalid_evidence revalidated none st = (st, raised key_error)
assess_found secret now k policy invalid_evidence revalidated (some p) st =
    let verdict = assessed policy invalid_evidence revalidated p in
    (apply_move secret now k verdict.1 >> return verdict.0) st

unfoldable pub assess_health :
    Secrets → ℕ → String → HealthPolicy → (invalid_evidence revalidated : Bool) → Run HealthDecision
unfolding get_procedure assessed apply_move
assess_health secret now k policy invalid_evidence revalidated st =
    assess_found secret now k policy invalid_evidence revalidated (get_procedure st k) st
