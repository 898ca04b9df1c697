-- ===== src/Orchestration/Selecting.antt =====
-- agent_control/workflow/nodes.py: `load_workflow`, `decompose`, `select_next_step`, `next_step`,
-- and `failed` of agent_control/workflow/graph.py. `none` is an exception that leaves the node.
use freaky_monkey.Base.{
  String, Bool, true, false, Option, none, some, List, [], ◌∷◌, all, any, first, ◌&&◌, ◌||◌,
  if◌then◌else◌,
}
use freaky_monkey.Workflow.Status.{StepStatus, WorkflowStatus, is_completed, is_cancelled}
use freaky_monkey.Workflow.Model.{WorkflowStep, Workflow}
use freaky_monkey.Workflow.Ready.{
  ok, raised, ready_nodes, ready_ids, marked_steps, aggregate, completed_ids, deps_done,
}
use freaky_monkey.Workflow.Graph.{validate}
use freaky_monkey.Workflow.Rounds.{cancel_workflow}
use freaky_monkey.Orchestration.State.{
  said_cancelled, said_failed, said_wait, said_done, said_terminal, GraphState, Adapter, reload,
  bind_resources, workflow_in,
}

-- `status.value`
unfoldable pub status_value : WorkflowStatus → String
status_value WorkflowStatus.pending = "PENDING"
status_value WorkflowStatus.running = "RUNNING"
status_value WorkflowStatus.waiting_for_approval = "WAITING_FOR_APPROVAL"
status_value WorkflowStatus.waiting_for_user = "WAITING_FOR_USER"
status_value WorkflowStatus.recovering = "RECOVERING"
status_value WorkflowStatus.completed = "COMPLETED"
status_value WorkflowStatus.failed = "FAILED"
status_value WorkflowStatus.partial_failure = "PARTIAL_FAILURE"
status_value WorkflowStatus.unknown = "UNKNOWN"
status_value WorkflowStatus.blocked = "BLOCKED"
status_value WorkflowStatus.cancelled = "CANCELLED"

abbrev pub is_halted : Workflow → Bool
is_halted w = w.cancel_requested || is_cancelled w.status

abbrev pub with_status : Workflow → WorkflowStatus → Workflow
with_status w t = record w { status = t }

abbrev pub loaded_workflow : Adapter → GraphState → Workflow
loaded_workflow rt st = elim st.workflow as (λ _. Workflow) [
  | some w ↦ reload w
  | none ↦ rt.decompose_workflow st.workflow_id st.goal
]

unfoldable pub load_workflow : Adapter → GraphState → GraphState
unfolding bind_resources
load_workflow rt st =
    let w = bind_resources (loaded_workflow rt st) in
    if is_halted w
    then record st {
      workflow = some (with_status w WorkflowStatus.cancelled);
      decision = some said_cancelled;
    }
    else record st { workflow = some (with_status w WorkflowStatus.running); goal = w.goal }

unfoldable pub decompose : Adapter → GraphState → GraphState
unfolding bind_resources
decompose rt st =
    let w = bind_resources (loaded_workflow rt st) in
    if is_halted w
    then record st {
      workflow = some (with_status w WorkflowStatus.cancelled);
      decision = some said_cancelled;
    }
    else record st { workflow = some w }

-- `status in {FAILED, BLOCKED, PARTIAL_FAILURE, UNKNOWN}`
abbrev pub is_stuck : WorkflowStatus → Bool
is_stuck WorkflowStatus.failed = true
is_stuck WorkflowStatus.blocked = true
is_stuck WorkflowStatus.partial_failure = true
is_stuck WorkflowStatus.unknown = true
is_stuck _ = false

-- The branches after the scan, by the identifiers of the ready nodes.
unfoldable pub select_ready : Workflow → List String → GraphState → GraphState
select_ready w (k ∷ ks) st = record st {
  workflow = some (record w { status = WorkflowStatus.running; current_step_id = some k });
  ready_step_ids = k ∷ ks;
}
select_ready w [] st =
    if all (λ s. is_completed s.status) w.steps
    then record st {
      workflow = some (with_status w WorkflowStatus.completed);
      result_status = some "COMPLETED";
    }
    else let w' = with_status w (aggregate w) in
      record st {
        workflow = some w';
        decision = some (if is_stuck w'.status then said_failed else said_wait);
      }

unfoldable pub select_next_step : GraphState → Option GraphState
unfolding select_ready cancel_workflow
select_next_step st = elim (workflow_in st) [
  | none ↦ none
  | some w ↦
      if is_halted w
      then some (record st { workflow = some (cancel_workflow w); decision = some said_cancelled })
      else elim (validate w) [
        | none ↦ none
        | some (raised e) ↦ none
        | some (ok _) ↦ elim (ready_nodes w) [
          | raised e ↦ none
          | ok marked ↦
              some (select_ready (record w { steps = marked_steps marked }) (ready_ids marked) st)
        ]
      ]
]

abbrev pub is_pending : StepStatus → Bool
is_pending StepStatus.pending = true
is_pending _ = false

-- `_next_runnable_step`
unfoldable pub next_runnable_step : Workflow → Option WorkflowStep
unfolding completed_ids deps_done
next_runnable_step w =
    first (λ s. is_pending s.status && deps_done (completed_ids w.steps) s) w.steps

abbrev pub is_completed_workflow : WorkflowStatus → Bool
is_completed_workflow WorkflowStatus.completed = true
is_completed_workflow _ = false

-- No step can run: the state by the aggregate status.
unfoldable pub end_steps : Workflow → GraphState → GraphState
end_steps w st =
    if is_completed_workflow w.status
    then record st {
      workflow = some w;
      decision = some said_done;
      result_status = some "COMPLETED";
    }
    else record st {
      workflow = some w;
      decision = some said_terminal;
      result_status = some (status_value w.status);
    }

-- The step that was found becomes the current one.
unfoldable pub advance_to : GraphState → Workflow → Option WorkflowStep → GraphState
unfolding end_steps
advance_to st w (some s) = record st {
  workflow = some (record w { current_step_id = some s.step_id; status = WorkflowStatus.running });
}
advance_to st w none = end_steps (with_status w (aggregate w)) st

unfoldable pub next_step : GraphState → Option GraphState
unfolding next_runnable_step advance_to
next_step st = elim (workflow_in st) as (λ _. Option GraphState) [
  | none ↦ none
  | some w ↦ some (advance_to st w (next_runnable_step w))
]

-- The status that `failed` keeps; any other becomes FAILED.
abbrev pub failed_status : WorkflowStatus → WorkflowStatus
failed_status WorkflowStatus.failed = WorkflowStatus.failed
failed_status WorkflowStatus.partial_failure = WorkflowStatus.partial_failure
failed_status WorkflowStatus.unknown = WorkflowStatus.unknown
failed_status WorkflowStatus.cancelled = WorkflowStatus.cancelled
failed_status _ = WorkflowStatus.failed

abbrev is_failed : StepStatus → Bool
is_failed StepStatus.failed = true
is_failed _ = false

-- With a FAILED step the node reads `failure_reason`, an attribute that no step has: an AttributeError.
-- Of the result only its status is kept: the lists beside it are read off the steps.
unfoldable pub failed : GraphState → Option GraphState
unfolding status_value
failed st = elim (workflow_in st) [
  | none ↦ none
  | some w ↦
      if any (λ s. is_failed s.status) w.steps
      then none
      else (let status = failed_status w.status in
          some (record st {
            workflow = some (with_status w status);
            result_status = some (status_value status);
          }))
]
