-- ===== src/Orchestration/Executing.antt =====
-- agent_control/workflow/nodes.py: `execute` and `verify`. `none` is an exception that leaves the node.
use freaky_monkey.Base.{
  ℕ, String, Bool, true, false, Option, none, some, List, [], ◌∷◌, ◌||◌, ◌+◌, get_elem?,
  if◌then◌else◌,
}
use freaky_monkey.Base.Dict.{contains}
use freaky_monkey.Json.{Params, str, num, truthy, get}
use freaky_monkey.Types.Action.{Action}
use freaky_monkey.Recovery.Retry.{action_can_retry}
use freaky_monkey.Workflow.Status.{StepStatus, WorkflowStatus}
use freaky_monkey.Workflow.Model.{WorkflowStep, Workflow}
use freaky_monkey.Orchestration.State.{
  Said, said_waiting, said_failure, said_verify, said_pass, said_unknown, GraphState, Executed,
  Adapter, reload, put_step, VerdictText, pass, unknown, verdict_in, or_none,
}
use freaky_monkey.Orchestration.Selecting.{with_status}
use freaky_monkey.Orchestration.Acting.{at_step, step_and_flow}

-- A text that is there and not empty. A failure class that is no text does not occur.
abbrev text_in : String → Params → Option String
text_in k ps = elim (get k ps) as (λ _. Option String) [ str t ↦ or_none (some t) | _ ↦ none ]

abbrev pub or_else : Option String → Option String → Option String
or_else none b = b
or_else (some a) b = some a

abbrev last_text : List String → Option String
last_text [] = none
last_text (c ∷ []) = some c
last_text (c ∷ d ∷ cs) = last_text (d ∷ cs)

-- `error_category or failure_class or skill_failure_class`, then what the step has, then the last of
-- the outcome's categories.
abbrev category_of : Executed → WorkflowStep → Option String
category_of r s =
    or_else
      (or_else (or_none r.error_category)
        (or_else (text_in "failure_class" r.result) (text_in "skill_failure_class" r.result)))
      (or_else (or_none s.failure_category) (last_text r.failure_categories))

abbrev aborted : Executed → Params → Params
aborted r old = elim (or_none r.aborted_reason) as (λ _. Params) [
  | none ↦ old
  | some why ↦
      ("decision", str "ABORTED") ∷ ("reason", str why) ∷ ("attempts", num r.recovery_attempts) ∷ []
]

-- `verification or {"verdict": …}`
abbrev evidence_of : Executed → Params
evidence_of r = elim r.verification as (λ _. Params) [
  | [] ↦ ("verdict", str "UNKNOWN") ∷ []
  | v ∷ vs ↦ v ∷ vs
]

abbrev status_verdict : Option String → VerdictText
status_verdict o = elim (or_none o) as (λ _. VerdictText) [
  | none ↦ unknown
  | some t ↦ verdict_in (("verdict", str t) ∷ [])
]

abbrev executed_verdict : Executed → VerdictText
executed_verdict r =
    if truthy (get "verdict" (evidence_of r))
    then verdict_in (evidence_of r)
    else status_verdict r.verification_status

abbrev is_unknown_verdict : VerdictText → Bool
is_unknown_verdict unknown = true
is_unknown_verdict _ = false

abbrev default_category : VerdictText → String
default_category v = if is_unknown_verdict v then "verification_unknown" else "execution_exception"

abbrev pub or_text : Option String → String → String
or_text none b = b
or_text (some a) b = a

abbrev environment_categories : List String
environment_categories =
    "application_not_found" ∷ "environment" ∷ "permission_denied" ∷ "policy_denied" ∷ []

abbrev transient_categories : List String
transient_categories =
    "browser_connection_failed" ∷ "stale_observation" ∷ "target_not_found" ∷ "application_not_found"
    ∷ []

-- The statuses of the step and of the workflow after an execution that is not ok.
unfoldable pub failed_as : Bool → String → VerdictText → Action → StepStatus × WorkflowStatus
failed_as cancelling category v a =
    if cancelling
    then (StepStatus.cancelled, WorkflowStatus.cancelled)
    else if contains environment_categories category
    then (StepStatus.failed, WorkflowStatus.failed)
    else if is_unknown_verdict v
    then (StepStatus.recovery_required, WorkflowStatus.recovering)
    else if action_can_retry a false || contains transient_categories category
    then (StepStatus.recovery_required, WorkflowStatus.recovering)
    else (StepStatus.unknown, WorkflowStatus.unknown)

unfoldable pub execution_failed : Workflow → ℕ → WorkflowStep → Executed → Workflow
unfolding failed_as
execution_failed w i s r =
    let v = executed_verdict r in
    let category = or_text (category_of r s) (default_category v) in
    let (t, u) = failed_as w.cancel_requested category v s.action in
    step_and_flow w i
      (record s {
        error = some (or_text (or_none r.error) "workflow step failed");
        failure_category = some category;
        recovery = aborted r s.recovery;
        verification = evidence_of r;
      })
      t u

-- The workflow and the step after the call: those of the answer, if it holds a workflow.
abbrev answered : Workflow → ℕ → WorkflowStep → Option Workflow → Option (Workflow × WorkflowStep)
answered w i s none = some (w, s)
answered w i s (some p) =
    elim (get_elem? (reload p).steps i) as (λ _. Option (Workflow × WorkflowStep)) [
      | none ↦ none
      | some t ↦ some (reload p, t)
    ]

abbrev pub started : WorkflowStep → WorkflowStep
started s = record s { status = StepStatus.running; attempt_count = s.attempt_count + 1 }

unfoldable pub after_execution : Workflow → ℕ → WorkflowStep → Executed → Workflow
unfolding execution_failed
after_execution w i s r =
    if r.needs_input
    then with_status w WorkflowStatus.waiting_for_user
    else if r.is_ok
    then put_step w i (record s { status = StepStatus.verifying })
    else execution_failed w i s r

abbrev executed_decision : Executed → Said
executed_decision r =
    if r.needs_input then said_waiting else if r.is_ok then said_verify else said_failure

unfoldable pub execute : Adapter → GraphState → Option GraphState
unfolding after_execution
execute rt st = at_step st λ w i s.
    let w1 = with_status (put_step w i (started s)) WorkflowStatus.running in
    let r = rt.execute_step w1 i st.approved_action in
    elim (answered w1 i (started s) r.workflow) as (λ _. Option GraphState) [
      | none ↦ none
      | some (w2, s2) ↦ some (record st {
        workflow = some (after_execution w2 i s2 r);
        step_result = r.result;
        step_verification = r.verification;
        decision = some (executed_decision r);
      })
    ]

-- The branches by the verdict.
unfoldable pub apply_verdict : GraphState → Workflow → ℕ → WorkflowStep → VerdictText → GraphState
apply_verdict st w i s pass = record st {
  workflow = some (
      step_and_flow w i (record s { verification = st.step_verification; result = st.step_result })
        StepStatus.completed WorkflowStatus.running);
  decision = some said_pass;
  approved_action = none;
}
apply_verdict st w i s unknown = record st {
  workflow = some (
      step_and_flow w i
        (record s {
          verification = st.step_verification;
          failure_category = some "verification_unknown";
        })
        StepStatus.recovery_required WorkflowStatus.recovering);
  decision = some said_unknown;
  failure_class = some "INCONCLUSIVE";
  approved_action = none;
}
apply_verdict st w i s _ = record st {
  workflow = some (
      step_and_flow w i
        (record s {
          verification = st.step_verification;
          error =
              some
                (or_text (text_in "reason" st.step_verification) "independent verification failed");
        })
        StepStatus.failed WorkflowStatus.failed);
  decision = some said_failure;
  approved_action = none;
}

unfoldable pub verify : GraphState → Option GraphState
unfolding apply_verdict
verify st = at_step st λ w i s. some (apply_verdict st w i s (verdict_in st.step_verification))
