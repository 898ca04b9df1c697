-- ===== src/Examples/Driving.antt =====
-- Runs of agent_control/workflow/nodes.py over a workflow of one step.
use freaky_monkey.Base.{ℕ, String, Bool, true, false, Option, none, some, [], ◌∷◌, ◌≡◌, ◌⊎◌, refl}
use freaky_monkey.Base.Dict.{lookup}
use freaky_monkey.Json.{str}
use freaky_monkey.Policy.Paths.{allow}
use freaky_monkey.Workflow.Status.{StepStatus, WorkflowStatus}
use freaky_monkey.Workflow.Model.{WorkflowStep, Workflow, current_step}
use freaky_monkey.Workflow.Ready.{aggregate}
use freaky_monkey.Recovery.Retry.{retry_safety, high_level}
use freaky_monkey.Orchestration.State.{
  GraphState, Adapter, reload, said_allow, verdict_in, said_failure, said_retry, said_pass,
  said_unknown,
}
use freaky_monkey.Orchestration.Acting.{policy, step_and_flow}
use freaky_monkey.Orchestration.Executing.{verify}
use freaky_monkey.Orchestration.Recovering.{recover, safety_value}
use freaky_monkey.Orchestration.Routes.{
  Target, to, at_execute, at_approval, at_recover, at_verify, at_policy, at_next, at_failed, route,
  route_after_policy, route_after_verify, advance,
}
use freaky_monkey.Orchestration.Gating.{Reads, IsAdmitted, policy-IsAdmitted, approval-refused}
use freaky_monkey.Orchestration.Bounded.{Stops, Counts, recover-attempts}
use freaky_monkey.Orchestration.Edges.{verify-recover_advances, recover-hooks_unused}
use freaky_monkey.Orchestration.Retrying.{EndsAtFailed, recover-retry_fails}
use freaky_monkey.Orchestration.Completing.{HasPassed, recover-HasPassed}
use freaky_monkey.Examples.Scheduling.{step_of, workflow_of}

abbrev answering : String → Adapter
answering verdict = record {
  decompose_workflow = λ k g. workflow_of [];
  observe_step = λ w i. ("seen", str "page") ∷ [];
  policy_of = λ w i. (some allow, "ok", none);
  execute_step = λ w i a. record {
    is_ok = true;
    needs_input = false;
    error = none;
    error_category = none;
    failure_categories = [];
    aborted_reason = none;
    recovery_attempts = 0;
    result = [];
    verification = [];
    verification_status = none;
    workflow = none;
  };
  branch_step = λ w i. none;
  verify_step = some (λ w i. ("verdict", str verdict) ∷ []);
  recover_resource = none;
  replan_step = none;
  approve = λ w i. false;
  input = λ w ps. none;
}

abbrev lone : StepStatus → Workflow
lone t = workflow_of (step_of "open" t [] none ∷ [])

abbrev holding : Workflow → GraphState
holding w = record {
  workflow = some w;
  workflow_id = "w";
  goal = "read the page";
  decision = none;
  decision_reason = "";
  approved_action = none;
  pending_input = none;
  step_result = [];
  step_verification = [];
  failure_class = none;
  ready_step_ids = [];
  result_status = none;
}

pending_read :
    Reads
      (holding (lone StepStatus.pending))
      (reload (lone StepStatus.pending))
      0
      (step_of "open" StepStatus.pending [] none)
unfolding reload current_step
pending_read = (refl, refl)

abbrev allowed_state : GraphState
allowed_state = record (holding (reload (lone StepStatus.pending))) {
  decision = some said_allow;
  decision_reason = "ok";
}

allowed : policy (answering "PASS") (holding (lone StepStatus.pending)) ≡ some allowed_state
unfolding policy reload current_step
allowed = refl

led_to_execute : route at_policy allowed_state ≡ some (to at_execute)
unfolding route route_after_policy
led_to_execute = refl

policy-IsAdmitted_example :
    (w : Workflow) × (i : ℕ) × (s : WorkflowStep) × Reads (holding (lone StepStatus.pending)) w i s
    × IsAdmitted (answering "PASS") w i s
policy-IsAdmitted_example =
    policy-IsAdmitted (answering "PASS") (holding (lone StepStatus.pending)) allowed_state allowed
      led_to_execute

approval-refused_example :
    (st' : GraphState) × (advance (answering "PASS") at_approval (holding (lone StepStatus.pending))
      ≡ some (to at_execute, st'))
    × (st'.decision ≡ some said_failure)
    × (st'.workflow
        ≡ some (
            step_and_flow
              (reload (lone StepStatus.pending))
              0
              (step_of "open" StepStatus.pending [] none)
              StepStatus.cancelled
              WorkflowStatus.cancelled))
approval-refused_example =
    approval-refused (answering "PASS") (holding (lone StepStatus.pending))
      (reload (lone StepStatus.pending)) 0 (step_of "open" StepStatus.pending [] none) pending_read
      refl

-- A verification without a verdict, and what the nodes leave after it.
abbrev unverified : GraphState
unverified = holding (lone StepStatus.verifying)

abbrev inconclusive : GraphState
inconclusive = record unverified {
  workflow = some (
      step_and_flow (reload (lone StepStatus.verifying)) 0
        (record (step_of "open" StepStatus.verifying [] none) {
          failure_category = some "verification_unknown";
        })
        StepStatus.recovery_required WorkflowStatus.recovering);
  decision = some said_unknown;
  failure_class = some "INCONCLUSIVE";
}

verified : verify unverified ≡ some inconclusive
unfolding verify reload current_step verdict_in lookup
verified = refl

led_to_recover : route at_verify inconclusive ≡ some (to at_recover)
unfolding route route_after_verify
led_to_recover = refl

verify-recover_advances_example :
    (t : Target) × (st2 : GraphState) × (advance (answering "FAIL") at_recover inconclusive
      ≡ some (t, st2))
verify-recover_advances_example =
    verify-recover_advances (answering "FAIL") unverified inconclusive verified led_to_recover

abbrev helping : Option (Workflow → ℕ → Bool)
helping = some (λ w i. true)

recover-hooks_unused_example :
    recover
      (record (answering "FAIL") { recover_resource = helping; replan_step = helping })
      inconclusive
    ≡ recover (answering "FAIL") inconclusive
recover-hooks_unused_example =
    recover-hooks_unused (answering "FAIL") helping helping unverified inconclusive verified
      led_to_recover

-- What `recover` leaves, by the verdict of the runtime's verifier.
abbrev after_recovery : String → GraphState
unfolding recover retry_safety high_level verdict_in lookup safety_value aggregate reload
    current_step
after_recovery verdict = elim (recover (answering verdict) inconclusive) as (λ _. GraphState) [
  | none ↦ inconclusive
  | some st ↦ st
]

fails_again : recover (answering "FAIL") inconclusive ≡ some (after_recovery "FAIL")
unfolding recover retry_safety high_level verdict_in lookup safety_value aggregate reload
    current_step
fails_again = refl

passes_now : recover (answering "PASS") inconclusive ≡ some (after_recovery "PASS")
unfolding recover retry_safety high_level verdict_in lookup safety_value aggregate reload
    current_step
passes_now = refl

recover-attempts_example :
    (w : Workflow) × (i : ℕ) × (s : WorkflowStep) × Reads inconclusive w i s
    × (Stops (answering "PASS") inconclusive w (after_recovery "PASS")
        ⊎ Counts (answering "PASS") inconclusive w (after_recovery "PASS"))
recover-attempts_example =
    recover-attempts (answering "PASS") inconclusive (after_recovery "PASS") passes_now

passed_decision : (after_recovery "PASS").decision ≡ some said_pass
unfolding recover retry_safety high_level verdict_in lookup safety_value aggregate reload
    current_step
passed_decision = refl

recover-HasPassed_example :
    (w : Workflow) × (i : ℕ) × (s : WorkflowStep) × Reads inconclusive w i s
    × HasPassed (answering "PASS") i
recover-HasPassed_example =
    recover-HasPassed (answering "PASS") inconclusive (after_recovery "PASS") passes_now
      passed_decision

retry_decision : (after_recovery "FAIL").decision ≡ some said_retry
unfolding recover retry_safety high_level verdict_in lookup safety_value aggregate reload
    current_step
retry_decision = refl

abbrev failing_step : WorkflowStep
failing_step = record (step_of "open" StepStatus.recovery_required [] none) {
  failure_category = some "verification_unknown";
}

abbrev failing : Workflow
failing = record (reload (lone StepStatus.recovery_required)) {
  steps = failing_step ∷ [];
  status = WorkflowStatus.recovering;
}

failing_read : Reads inconclusive failing 0 failing_step
unfolding reload current_step
failing_read = (refl, refl)

recover-retry_fails_example :
    (st2 : GraphState) × (advance (answering "FAIL") at_recover inconclusive
      ≡ some (to at_next, after_recovery "FAIL"))
    × (advance (answering "FAIL") at_next (after_recovery "FAIL") ≡ some (to at_failed, st2))
    × EndsAtFailed (answering "FAIL") st2
recover-retry_fails_example =
    recover-retry_fails (answering "FAIL") inconclusive (after_recovery "FAIL") failing 0
      failing_step failing_read (refl, tt) fails_again retry_decision
