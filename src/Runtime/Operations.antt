-- ===== src/Runtime/Operations.antt =====
-- agent_control/runtime.py: the public operations of `RuntimeManager` that change its state, as the
-- values of one type, and what one of them does.
use freaky_monkey.Base.{String, Bool, Option, List, [], ◌∷◌}
use freaky_monkey.Json.{Fields, Params}
use freaky_monkey.Runtime.State.{RuntimeState}
use freaky_monkey.Runtime.Task.{Resource, Change}
use freaky_monkey.Runtime.Manager.{
  Manager, Tick, Res, return, raise, NewTask, create_task, update_task, set_workflow,
  update_workflow, set_pending_input, clear_pending_input, record_event,
}
use freaky_monkey.Runtime.Moves.{
  transition_task, cancel_task, set_focus, attach_resource, detach_resource,
}
use freaky_monkey.Runtime.Cleanup.{garbage_collect, clear_history}
use freaky_monkey.Runtime.Approvals.{request_approval, resolve_approval}

pub data Operation : Type 0 where
  create : (task_id : String) → NewTask → Operation
  update : (task_id : String) → List Change → Operation
  workflow : (task_id : String) → Fields → Operation
  workflow_event : (task_id : String) → Fields → (event_type : String) → Operation
  ask_input : (task_id : String) → Fields → Operation
  clear_input : (task_id event_type : String) → Operation
  note : (task_id event_type : String) → Params → Operation
  transition :
      (task_id : String)
      → RuntimeState
      → Option String
      → (remove_approval : Bool) → List Change
      → Operation
  cancel : (task_id reason : String) → Operation
  focus : Option String → Operation
  attach : (task_id : String) → Resource → Operation
  detach : (task_id resource_key : String) → Operation
  ask_approval : (task_id : String) → Params → Operation
  answer_approval : (task_id : String) → Bool → Option String → Operation
  cleanup clear : Operation

abbrev pub outcome {ℓ} : {A : Type ℓ} → Manager × Res A → Manager × Res (Unit {0})
outcome (m, return a) = (m, return tt)
outcome (m, raise e) = (m, raise e)

unfoldable pub perform : Tick → Operation → Manager → Manager × Res (Unit {0})
perform tick (Operation.create k n) m = outcome (create_task tick k n m)
perform tick (Operation.update k cs) m = outcome (update_task tick k cs m)
perform tick (Operation.workflow k fs) m = outcome (set_workflow tick k fs m)
perform tick (Operation.workflow_event k fs e) m = outcome (update_workflow tick k fs e m)
perform tick (Operation.ask_input k fs) m = outcome (set_pending_input tick k fs m)
perform tick (Operation.clear_input k e) m = outcome (clear_pending_input tick k e m)
perform tick (Operation.note k e ps) m = outcome (record_event tick k e ps m)
perform tick (Operation.transition k s e gone cs) m = outcome (transition_task tick k s e gone cs m)
perform tick (Operation.cancel k reason) m = outcome (cancel_task tick k reason m)
perform tick (Operation.focus k) m = outcome (set_focus k m)
perform tick (Operation.attach k r) m = outcome (attach_resource tick k r m)
perform tick (Operation.detach k key) m = outcome (detach_resource tick k key m)
perform tick (Operation.ask_approval k p) m = outcome (request_approval tick k p m)
perform tick (Operation.answer_approval k b r) m = outcome (resolve_approval tick k b r m)
perform tick Operation.cleanup m = outcome (garbage_collect tick m)
perform tick Operation.clear m = outcome (clear_history tick m)

-- A run: operations one after the other, whatever they return or raise.
unfoldable pub perform_all : List (Tick × Operation) → Manager → Manager
unfolding perform
perform_all [] m = m
perform_all ((tick, op) ∷ ops) m = perform_all ops (perform tick op m).0
