-- ===== src/Procedures/Execution.antt =====
-- agent_control/procedure_execution.py: `execute_procedure`. A run returns its result with the actions that
-- it handed to an executor, in their order. Every exception of a skill is an answer of it.
use freaky_monkey.Base.{
  ℕ, suc, String, Bool, true, false, Option, none, some, List, [], ◌∷◌, ◌++◌, not, ◌&&◌, ◌||◌, leb,
  length, str_eq, if◌then◌else◌,
}
use freaky_monkey.Base.Text.{codes, codes_eq, upper}
use freaky_monkey.Json.{Value, str}
use freaky_monkey.Types.Failure.{FailureClass}
use freaky_monkey.Types.Action.{Action, ActionResult}
use freaky_monkey.Types.Verification.{Verdict, pass, fail, unknown, VerificationResult, verdict}
use freaky_monkey.Policy.Paths.{
  Host, Policy, Outcome, ok, denied, raised, Decision, allow, confirm, deny,
}
use freaky_monkey.Policy.Gate.{check, Reason}
use freaky_monkey.Procedures.Store.{is_active}
use Prim.Native.String.{◌++◌ as str_append}
use freaky_monkey.Procedures.Binding.{
  BindingStatus, bound, ValidationStatus, applicable, not_applicable, FailureReason,
  status_not_active, parameter_binding, not_applicable_because, current_state_not_applicable,
  current_state_unknown, execution_not_allowed, skill_registry_missing,
  procedure_step_budget_exceeded, policy_check_failed, approval_required, policy_denied,
  skill_registry_invalid, skill_resolution_failed, unsupported_action, execution_raised,
  execution_failed, verification_failed, verification_unknown, ProcedureMatch, Built, built,
  refused, build_actions,
}

pub data ExecutionStatus : Type 0 where
  not_executed executed failed : ExecutionStatus

pub record ExecutionResult : Type 0 where
  pub procedure_id : String
  pub execution_status : ExecutionStatus
  pub verification_status : Verdict
  pub failure_reason : Option FailureReason
  pub verification_evidence : Option VerificationResult
  pub action_results : List ActionResult
  pub fresh_observation : Option Value

-- What adapting an action and executing it does.
pub data Execution : Type 0 where
  threw : String → Execution
  returned : (ok : Bool) (error : Option String) (failure_class : Option FailureClass) → Execution

-- What asking for a verification does: it raises, or answers a VerificationResult, or an object with a
-- status, an `ok` and a detail.
pub data Verification : Type 0 where
  threw : String → Verification
  result : VerificationResult → Verification
  report : (status : String) (ok : Bool) (detail : String) → Verification

-- A skill answers by the number of actions that were executed before.
pub record Skill : Type 0 where
  pub execute : ℕ → Action → Execution
  pub observe : ℕ → Option Value
  pub verify : ℕ → Action → Verification

-- What `find_for_action` answers.
pub data Found : Type 0 where
  raises no_skill : Found
  skill : Skill → Found

-- The registry: none where it has no `find_for_action`.
abbrev pub Skills : Type 0
Skills = Option (String → Found)

-- `_failure`
abbrev pub failure : ProcedureMatch → FailureReason → ExecutionResult
failure m why = record {
  procedure_id = m.procedure.procedure_id;
  execution_status = not_executed;
  verification_status = unknown;
  failure_reason = some why;
  verification_evidence = none;
  action_results = [];
  fresh_observation = none;
}

-- The result when an executor raises or fails.
abbrev stopped : ProcedureMatch → FailureReason → List ActionResult → ExecutionResult
stopped m why results = record {
  procedure_id = m.procedure.procedure_id;
  execution_status = failed;
  verification_status = unknown;
  failure_reason = some why;
  verification_evidence = none;
  action_results = results;
  fresh_observation = none;
}

abbrev action_result :
    ProcedureMatch → Action → Bool → Option String → Option FailureClass → ActionResult
action_result m a succeeded error failure_class = record {
  action = a;
  ok = succeeded;
  detail = ("procedure_id", str m.procedure.procedure_id) ∷ [];
  error = error;
  failure_class = failure_class;
  duration_s = 0;
}

-- What the gate says of an action: a refusal, or the skill that may execute it.
pub data Admission : Type 0 where
  turned_away : FailureReason → Admission
  admitted : Skill → Admission

abbrev pub resolved : Skills → Action → Admission
resolved none a = turned_away skill_registry_invalid
resolved (some find) a = elim (find a.kind) [
  | raises ↦ turned_away skill_resolution_failed
  | no_skill ↦ turned_away (unsupported_action a.kind)
  | skill s ↦ admitted s
]

-- The decision of the policy, and the look-up of the skill after it.
abbrev pub by_decision : Skills → Action → Outcome (Decision × Reason) → Admission
by_decision skills a (ok (allow, why)) = resolved skills a
by_decision skills a (ok (confirm, why)) = turned_away approval_required
by_decision skills a (ok (deny, why)) = turned_away policy_denied
by_decision skills a (denied e) = turned_away policy_check_failed
by_decision skills a raised = turned_away policy_check_failed

unfoldable pub admission : Host → Policy → Skills → Action → Admission
unfolding check
admission h p skills a = by_decision skills a (check h p a)

-- How the loop over the actions ends: early, or with the last skill and action and all results.
pub data Ending : Type 0 where
  early : ExecutionResult → Ending
  through : Option (Skill × Action) → List ActionResult → Ending

-- `_normalize_verification`
abbrev report_verdict : String → Bool → Verdict
report_verdict status is_ok =
    if codes_eq (upper (codes status)) (codes "PASS") || (is_ok && str_eq status "")
    then pass
    else if codes_eq (upper (codes status)) (codes "UNKNOWN")
    then unknown
    else fail

-- The evidence of the check, a copy of the status, is left out.
abbrev single : Verdict → String → VerificationResult
single v reason = record {
  checks =
      record { name = "independent_verification"; verdict = v; evidence = []; reason = reason }
      ∷ [];
  label = "procedure-independent-verification";
}

unfoldable pub normalize_verification : Verification → Verdict × VerificationResult
unfolding verdict upper
normalize_verification (threw kind) =
    (unknown, single unknown (str_append "verification_exception:" kind))
normalize_verification (result v) = (verdict v, v)
normalize_verification (report status is_ok detail) =
    let v = report_verdict status is_ok in (v, single v detail)

abbrev pub status_of : Verdict → ExecutionStatus
status_of pass = executed
status_of fail = failed
status_of unknown = executed

abbrev reason_of : Verdict → Option FailureReason
reason_of pass = none
reason_of fail = some verification_failed
reason_of unknown = some verification_unknown

-- The fresh observation and the verification after the last action.
abbrev pub verified : ProcedureMatch → ℕ → Skill × Action → List ActionResult → ExecutionResult
verified m n (s, a) results =
    let judged = normalize_verification (s.verify n a) in
    record {
      procedure_id = m.procedure.procedure_id;
      execution_status = status_of judged.0;
      verification_status = judged.0;
      failure_reason = reason_of judged.0;
      verification_evidence = some judged.1;
      action_results = results;
      fresh_observation = s.observe n;
    }

module _ (h : Host) (p : Policy) (skills : Skills) (m : ProcedureMatch) where
  -- The loop over the actions, from the number of those executed and their results: how it ends, and the
  -- actions that it hands to an executor.
  abbrev Loop : Type 0
  Loop = ℕ → List ActionResult → Option (Skill × Action) → Ending × List Action

  abbrev pub executed_run :
      Loop → Action → ℕ → List ActionResult → Skill → Execution → Ending × List Action
  executed_run loop a n results s (threw kind) =
      (early (stopped m (execution_raised kind) results), a ∷ [])
  executed_run loop a n results s (returned false error failure_class) = (
    early
        (stopped m execution_failed (results ++ action_result m a false error failure_class ∷ [])),
    a ∷ [],
  )
  executed_run loop a n results s (returned true error failure_class) =
      let next =
        loop (suc n) (results ++ action_result m a true error failure_class ∷ []) (some (s, a)) in
      (next.0, a ∷ next.1)

  abbrev pub admitted_run : Loop → Action → ℕ → List ActionResult → Admission → Ending × List Action
  admitted_run loop a n results (turned_away why) = (early (failure m why), [])
  admitted_run loop a n results (admitted s) = executed_run loop a n results s (s.execute n a)

  unfoldable pub run_actions : List Action → Loop
  unfolding admission
  run_actions [] n results last = (through last results, [])
  run_actions (a ∷ rest) n results last =
      admitted_run (run_actions rest) a n results (admission h p skills a)

  -- What follows the loop. Without an action there is no skill, and the call of its verifier raises.
  abbrev pub concluded : Ending × List Action → ExecutionResult × List Action
  concluded (early r, log) = (r, log)
  concluded (through (some last) results, log) = (verified m (length log) last results, log)
  concluded (through none results, log) = (
    record {
      procedure_id = m.procedure.procedure_id;
      execution_status = executed;
      verification_status = unknown;
      failure_reason = some verification_unknown;
      verification_evidence = some (single unknown "verification_exception:AttributeError");
      action_results = results;
      fresh_observation = none;
    },
    log,
  )

  -- `except ValueError` around `_build_actions`, the budget of steps, and the loop.
  unfoldable pub run_built : ℕ → Built (List Action) → ExecutionResult × List Action
  unfolding run_actions admission normalize_verification
  run_built max_steps (refused why) = (failure m why, [])
  run_built max_steps (built actions) =
      if leb (length actions) (if leb 1 max_steps then max_steps else 1)
      then concluded (run_actions actions 0 [] none)
      else (failure m procedure_step_budget_exceeded, [])

abbrev is_bound : BindingStatus → Bool
is_bound bound = true
is_bound _ = false

abbrev is_applicable : ValidationStatus → Bool
is_applicable applicable = true
is_applicable _ = false

-- The first reason, or the text that stands for none.
abbrev inapplicable : ValidationStatus → List String → FailureReason
inapplicable not_applicable [] = current_state_not_applicable
inapplicable not_applicable (why ∷ whys) = not_applicable_because why
inapplicable _ whys = current_state_unknown

-- The guards before anything is executed.
abbrev pub guard : ProcedureMatch → (has_skills : Bool) → Option FailureReason
guard m has_skills =
    if not (is_active m.procedure.status)
    then some status_not_active
    else if not (is_bound m.binding.status)
    then some (parameter_binding m.binding.status)
    else if not (is_applicable m.validation.status)
    then some (inapplicable m.validation.status m.validation.reasons)
    else if not m.execution_allowed
    then some execution_not_allowed
    else if not has_skills
    then some skill_registry_missing
    else none

-- The first guard that fails ends the call.
abbrev pub guarded :
    ProcedureMatch
    → Option FailureReason
    → ExecutionResult × List Action
    → ExecutionResult × List Action
guarded m (some why) out = (failure m why, [])
guarded m none out = out

-- `skills` is none where the registry is missing.
unfoldable pub execute_procedure :
    Host → Policy → Option Skills → ProcedureMatch → (max_steps : ℕ) → ExecutionResult × List Action
unfolding build_actions run_built
execute_procedure h p none m max_steps =
    guarded m (guard m false) (failure m skill_registry_missing, [])
execute_procedure h p (some skills) m max_steps =
    guarded m (guard m true) (run_built h p skills m max_steps (build_actions m))
