-- ===== src/Examples/Scheduling.antt =====
-- The graph scheduler of agent_control/workflow/ on a workflow of two steps: the first is completed,
-- and the second depends on it and holds a tab.
use freaky_monkey.Base.{
  String, Bool, true, false, Option, none, some, List, [], ◌∷◌, ◌≡◌, refl, keep, All, ◌↔◌,
}
use freaky_monkey.Base.Dict.{lookup, insert}
use freaky_monkey.Types.Action.{Action, auto}
use freaky_monkey.Json.{str}
use freaky_monkey.Workflow.Status.{
  StepStatus, WorkflowStatus, value, runner_state-value, workflow_step_status_from_runner_state,
}
use freaky_monkey.Workflow.Model.{WorkflowStep, Workflow, find_step}
use freaky_monkey.Workflow.Transitions
use freaky_monkey.Workflow.Ready.{
  Result, ok, visit, ready_nodes, completed_ids, policy_ok, data_ok, deps_done, aggregate,
  aggregate_states, made_ready,
}
use freaky_monkey.Workflow.Readiness.{IsRunnable, ready_nodes-IsRunnable}
use freaky_monkey.Workflow.Graph.{validate}
use freaky_monkey.Workflow.Graph
use freaky_monkey.Workflow.Validation.{validate_total}
use freaky_monkey.Workflow.Accepted.{IsValid, validate-iff-IsValid}

abbrev pub click : Action
click = record {
  kind = "open_url";
  params = [];
  consequential = false;
  rationale = "";
  retry_safety = auto;
  idempotent = none;
  side_effect_level = "low";
  requires_fresh_observation = false;
  verification_required = false;
  recovery_strategy = none;
}

abbrev pub step_of : String → StepStatus → List String → Option String → WorkflowStep
step_of id status dependencies key = record {
  step_id = id;
  action = click;
  status = status;
  attempt_count = 0;
  max_step_retries = 1;
  resource_key = key;
  dependencies = dependencies;
  dependency_reasons = [];
  dependency_types = [];
  policy_state = "";
  requires_data = [];
  side_effect = false;
  requires_verification = false;
  observation = [];
  result = [];
  verification = [];
  error = none;
  failure_category = none;
  recovery = [];
  timing = [];
  index = 0;
}

abbrev pub workflow_of : List WorkflowStep → Workflow
workflow_of steps = record {
  workflow_id = "w";
  goal = "read the page";
  steps = steps;
  current_step_id = none;
  status = WorkflowStatus.running;
  context = [];
  resources = [];
  history = [];
  timing = [];
  created_at = 0;
  updated_at = 0;
  max_recovery_attempts = 1;
  recovery_attempts = 0;
  cancel_requested = false;
}

abbrev pub opened : WorkflowStep
opened = record (step_of "open" StepStatus.completed [] none) {
  verification = ("verdict", str "PASS") ∷ [];
}

abbrev pub read : WorkflowStep
read = step_of "read" StepStatus.pending ("open" ∷ []) (some "tab")

abbrev pub two_steps : Workflow
two_steps = workflow_of (opened ∷ read ∷ [])

abbrev scanned : List (WorkflowStep × Bool)
scanned = (opened, false) ∷ (made_ready read, true) ∷ []

two_steps_scan : ready_nodes two_steps ≡ ok scanned
unfolding ready_nodes visit completed_ids policy_ok data_ok deps_done
two_steps_scan = refl

ready_nodes-IsRunnable_example : All (λ m. IsRunnable two_steps m.0) (keep (λ m. m.1) scanned)
ready_nodes-IsRunnable_example = ready_nodes-IsRunnable two_steps scanned two_steps_scan

pub two_steps_valid : validate two_steps ≡ some (ok tt)
unfolding validate Graph.is_allowed_kind Graph.check_known Graph.check_node Graph.check_nodes
    Graph.zero_degrees Graph.no_children Graph.add_edges Graph.add_all_edges Graph.sources
    Graph.release_children Graph.kahn Graph.visited_count Graph.check_acyclic Graph.check_possible
    Graph.check_all_possible find_step lookup insert
two_steps_valid = refl

validate-iff-IsValid_example : (validate two_steps ≡ some (ok tt)) ↔ IsValid two_steps
validate-iff-IsValid_example = validate-iff-IsValid two_steps

-- A graph with a cycle.
abbrev cyclic : Workflow
cyclic = workflow_of (
    step_of "a" StepStatus.pending ("b" ∷ []) none
    ∷ step_of "b" StepStatus.pending ("a" ∷ []) none
    ∷ [])

validate_total_example : (r : Result (Unit {0})) × (validate cyclic ≡ some r)
validate_total_example = validate_total cyclic

abbrev way : List StepStatus
way = StepStatus.ready ∷ StepStatus.running ∷ StepStatus.verifying ∷ StepStatus.completed ∷ []

read_done : Transitions.transitions read way ≡ some (record read { status = StepStatus.completed })
unfolding Transitions.transitions Transitions.transition_to Transitions.allowed
read_done = refl

abbrev broken : WorkflowStep
broken = step_of "read" StepStatus.failed ("open" ∷ []) (some "tab")

abbrev half_done : Workflow
half_done = workflow_of (opened ∷ broken ∷ [])

half_done_found : find_step "read" half_done.steps ≡ some broken
unfolding find_step
half_done_found = refl

half_done_status : aggregate half_done ≡ WorkflowStatus.partial_failure
unfolding aggregate aggregate_states
half_done_status = refl

runner_state-value_example :
    workflow_step_status_from_runner_state (value StepStatus.blocked) ≡ some StepStatus.pending
runner_state-value_example = runner_state-value StepStatus.blocked
