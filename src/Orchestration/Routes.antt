-- ===== src/Orchestration/Routes.antt =====
-- agent_control/workflow/graph.py: the nodes and edges of `build_graph`, with the routes of
-- agent_control/workflow/nodes.py.
use freaky_monkey.Base.{String, Bool, true, false, Option, none, some, List, ◌∷◌, if◌then◌else◌}
use freaky_monkey.Workflow.Status.{WorkflowStatus}
use freaky_monkey.Orchestration.State.{
  Said, said_allow, said_approval, said_waiting, said_pass, said_unknown, said_retry, said_ask_user,
  said_cancelled, said_done, said_terminal, GraphState, Adapter, workflow_in,
}
use freaky_monkey.Orchestration.Selecting.{
  load_workflow, decompose, select_next_step, next_step, failed, is_completed_workflow,
}
use freaky_monkey.Orchestration.Acting.{observe, policy, approval, workflow_input}
use freaky_monkey.Orchestration.Executing.{execute, verify}
use freaky_monkey.Orchestration.Batch.{execute_ready_batch}
use freaky_monkey.Orchestration.Recovering.{recover}

pub data Node : Type 0 where
  at_load at_decompose at_select at_observe at_policy at_approval at_input : Node
  at_execute at_batch at_verify at_recover at_next at_failed : Node

-- Where an edge leads.
pub data Target : Type 0 where
  to : Node → Target
  finish : Target

unfoldable pub run_node : Adapter → Node → GraphState → Option GraphState
run_node rt at_load st = some (load_workflow rt st)
run_node rt at_decompose st = some (decompose rt st)
run_node rt at_select st = select_next_step st
run_node rt at_observe st = observe rt st
run_node rt at_policy st = policy rt st
run_node rt at_approval st = approval rt st
run_node rt at_input st = workflow_input rt st
run_node rt at_execute st = execute rt st
run_node rt at_batch st = execute_ready_batch rt st
run_node rt at_verify st = verify st
run_node rt at_recover st = recover rt st
run_node rt at_next st = next_step st
run_node rt at_failed st = failed st

-- FAILED, PARTIAL_FAILURE, UNKNOWN, CANCELLED or BLOCKED.
abbrev pub ends_in_failure : WorkflowStatus → Bool
ends_in_failure WorkflowStatus.failed = true
ends_in_failure WorkflowStatus.partial_failure = true
ends_in_failure WorkflowStatus.unknown = true
ends_in_failure WorkflowStatus.cancelled = true
ends_in_failure WorkflowStatus.blocked = true
ends_in_failure _ = false

abbrev many : List String → Bool
many (k ∷ j ∷ ks) = true
many _ = false

unfoldable pub route_after_select : GraphState → Option Target
route_after_select st = elim (workflow_in st) as (λ _. Option Target) [
  | none ↦ none
  | some w ↦ some (
      if is_completed_workflow w.status
      then finish
      else if ends_in_failure w.status
      then to at_failed
      else if many st.ready_step_ids
      then to at_batch
      else to at_observe)
]

abbrev after_batch : WorkflowStatus → Target
after_batch t =
    if is_completed_workflow t
    then finish
    else if ends_in_failure t
    then to at_failed
    else to at_next

unfoldable pub route_after_batch : GraphState → Option Target
route_after_batch st = elim st.decision as (λ _. Option Target) [
  | some said_approval ↦ some (to at_approval)
  | some said_waiting ↦ some (to at_input)
  | _ ↦ elim (workflow_in st) as (λ _. Option Target) [
    | none ↦ none
    | some w ↦ some (after_batch w.status)
  ]
]

unfoldable pub route_after_policy : Option Said → Target
route_after_policy (some said_allow) = to at_execute
route_after_policy (some said_approval) = to at_approval
route_after_policy (some said_waiting) = to at_input
route_after_policy _ = to at_failed

unfoldable pub route_after_verify : Option Said → Target
route_after_verify (some said_pass) = to at_next
route_after_verify (some said_unknown) = to at_recover
route_after_verify _ = to at_failed

unfoldable pub route_after_next : Option Said → Target
route_after_next (some said_done) = finish
route_after_next (some said_terminal) = to at_failed
route_after_next _ = to at_observe

-- `none`: the mapping has no edge for the decision.
unfoldable pub route_after_recover : Option Said → Option Target
route_after_recover (some said_retry) = some (to at_next)
route_after_recover (some said_pass) = some (to at_next)
route_after_recover (some said_unknown) = some (to at_failed)
route_after_recover (some said_ask_user) = some (to at_failed)
route_after_recover (some said_cancelled) = some (to at_failed)
route_after_recover none = some (to at_failed)
route_after_recover _ = none

unfoldable pub route : Node → GraphState → Option Target
route at_load st = some (to at_decompose)
route at_decompose st = some (to at_select)
route at_select st = route_after_select st
route at_observe st = some (to at_policy)
route at_batch st = route_after_batch st
route at_policy st = some (route_after_policy st.decision)
route at_approval st = some (to at_execute)
route at_input st = some (to at_observe)
route at_execute st = some (to at_verify)
route at_verify st = some (route_after_verify st.decision)
route at_next st = some (route_after_next st.decision)
route at_recover st = route_after_recover st.decision
route at_failed st = some finish

-- A step of the graph: a node runs, and an edge leads on.
unfoldable pub advance : Adapter → Node → GraphState → Option (Target × GraphState)
unfolding run_node route
advance rt n st = elim (run_node rt n st) as (λ _. Option (Target × GraphState)) [
  | none ↦ none
  | some st' ↦ elim (route n st') as (λ _. Option (Target × GraphState)) [
    | none ↦ none
    | some t ↦ some (t, st')
  ]
]
