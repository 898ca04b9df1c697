-- ===== src/Orchestration/Acting.antt =====
-- agent_control/workflow/nodes.py: `observe`, `policy`, `approval` and
-- `workflow_input`. `none` is an exception that leaves the node.
use freaky_monkey.Base.{ℕ, String, Option, none, some, [], str_eq, if◌then◌else◌}
use freaky_monkey.Base.Dict.{insert}
use freaky_monkey.Json.{Params, str, get, is_bool_true}
use freaky_monkey.Policy.Paths.{Decision, allow, confirm, deny}
use freaky_monkey.Workflow.Status.{StepStatus, WorkflowStatus}
use freaky_monkey.Workflow.Model.{WorkflowStep, Workflow}
use freaky_monkey.Orchestration.State.{
  said_allow, said_approval, said_waiting, said_failure, GraphState, Adapter, workflow_in, current,
  put_step, or_none,
}
use freaky_monkey.Orchestration.Selecting.{with_status}

-- A node that reads the workflow and its current step.
abbrev pub at_step :
    GraphState → (Workflow → ℕ → WorkflowStep → Option GraphState) → Option GraphState
at_step st body = elim (workflow_in st) [
  | none ↦ none
  | some w ↦ elim (current w) [ none ↦ none | some (i, s) ↦ body w i s ]
]

abbrev observed_step : Params → WorkflowStep → WorkflowStep
observed_step seen s = record s {
  observation = seen;
  failure_category =
      if is_bool_true (get "stale" seen) then some "stale_observation" else s.failure_category;
}

-- The time stamp of the observation is left out.
unfoldable pub observe : Adapter → GraphState → Option GraphState
observe rt st = at_step st λ w i s.
    some (record st { workflow = some (put_step w i (observed_step (rt.observe_step w i) s)) })

-- The decision, the reason and what is asked of the person, for a step that may be approved already.
abbrev pub policy_for :
    Adapter → Workflow → ℕ → WorkflowStep → Option Decision × String × Option Params
policy_for rt w i s =
    if str_eq s.policy_state "APPROVED"
    then (some allow, "previously approved action is being recovered", none)
    else rt.policy_of w i

abbrev pub step_and_flow : Workflow → ℕ → WorkflowStep → StepStatus → WorkflowStatus → Workflow
step_and_flow w i s t u = record w {
  steps = (put_step w i (record s { status = t })).steps;
  status = u;
}

-- The branches by what is asked and by the decision. A decision that is neither CONFIRM nor DENY
-- allows.
unfoldable pub apply_policy :
    GraphState → Workflow → ℕ → WorkflowStep → Option Decision × String × Option Params → GraphState
apply_policy st w i s (d, reason, some pending) = record st {
  workflow = some (step_and_flow w i s StepStatus.waiting_for_user WorkflowStatus.waiting_for_user);
  decision = some said_waiting;
  decision_reason = reason;
  pending_input = some pending;
}
apply_policy st w i s (some confirm, reason, none) = record st {
  workflow =
      some
        (step_and_flow w i s StepStatus.waiting_for_approval WorkflowStatus.waiting_for_approval);
  decision = some said_approval;
  decision_reason = reason;
}
apply_policy st w i s (some deny, reason, none) = record st {
  workflow = some (
      step_and_flow w i (record s { error = some reason }) StepStatus.failed WorkflowStatus.failed);
  decision = some said_failure;
  decision_reason = reason;
}
apply_policy st w i s (some allow, reason, none) = record st {
  workflow = some w;
  decision = some said_allow;
  decision_reason = reason;
}
apply_policy st w i s (none, reason, none) = record st {
  workflow = some w;
  decision = some said_allow;
  decision_reason = reason;
}

unfoldable pub policy : Adapter → GraphState → Option GraphState
unfolding apply_policy
policy rt st = at_step st λ w i s. some (apply_policy st w i s (policy_for rt w i s))

unfoldable pub approval : Adapter → GraphState → Option GraphState
approval rt st = at_step st λ w i s.
    if rt.approve w i
    then some (record st {
      workflow = some (put_step w i (record s { policy_state = "APPROVED" }));
      approved_action = some s.action;
      decision = some said_allow;
    })
    else some (record st {
      workflow = some (step_and_flow w i s StepStatus.cancelled WorkflowStatus.cancelled);
      decision = some said_failure;
      decision_reason = "workflow step was not approved";
    })

abbrev pending_in : GraphState → Params
pending_in st = elim st.pending_input [ none ↦ [] | some ps ↦ ps ]

-- `str(pending.get("field", ""))`; a field that is no text does not occur.
abbrev field_of : Params → String
field_of ps = elim (get "field" ps) as (λ _. String) [ str t ↦ t | _ ↦ "" ]

abbrev filled : WorkflowStep → String → String → WorkflowStep
filled s key text = record s {
  action = record s.action { params = insert key (str text) s.action.params };
  status = StepStatus.pending;
  error = none;
}

-- The answer comes without white space at its ends; an empty one is none.
unfoldable pub workflow_input : Adapter → GraphState → Option GraphState
workflow_input rt st = elim (workflow_in st) [
  | none ↦ none
  | some w ↦ elim (or_none (rt.input w (pending_in st))) [
    | none ↦ some (record st { decision = some said_waiting })
    | some text ↦
        if str_eq (field_of (pending_in st)) ""
        then none
        else elim (current w) as (λ _. Option GraphState) [
          | none ↦ none
          | some (i, s) ↦ some (record st {
            workflow = some (
                with_status (put_step w i (filled s (field_of (pending_in st)) text))
                  WorkflowStatus.running);
            pending_input = none;
            decision = some said_allow;
          })
        ]
  ]
]
