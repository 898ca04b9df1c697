-- ===== src/Runtime/Stored.antt =====
-- agent_control/runtime.py over agent_control/runtime_persistence.py: every operation of `RuntimeManager`
-- leaves the stored tables redacted.
use freaky_monkey.Base.{String, true, some, List, [], ◌∷◌, keep}
use freaky_monkey.Base.Dict.{keys, remove}
use freaky_monkey.Json.{obj, Params}
use freaky_monkey.Runtime.State.{cancelled}
use freaky_monkey.Runtime.Redaction.{safe_fields}
use freaky_monkey.Runtime.Task.{RuntimeTask, RuntimeEvent, Change, replace}
use freaky_monkey.Runtime.Store.{plain}
use freaky_monkey.Runtime.Manager.{
  Manager, Tick, touched, save, with_event, make_event, create_task, with_task, with_entry,
  update_task, set_workflow, update_workflow, set_pending_input, clear_pending_input, record_event,
}
use freaky_monkey.Runtime.Moves.{
  transition_task, cancel_task, set_focus, attach_resource, detach_resource,
}
use freaky_monkey.Runtime.Cleanup.{garbage_collect, clear_history, terminal_entry}
use freaky_monkey.Runtime.Approvals.{request_approval, resolve_approval}
use freaky_monkey.Runtime.Operations.{Operation, perform, perform_all}
use freaky_monkey.Runtime.Redacted.{IsClean}
use freaky_monkey.Runtime.Saved.{
  Leaves, outcome-Leaves, saving-Leaves, create_task-Leaves, transition_task-Leaves,
}
use freaky_monkey.Runtime.Written.{
  set_workflow-Leaves, attach_resource-Leaves, detach_resource-Leaves, set_focus-Leaves,
  request_approval-Leaves, delete_terminal_tasks-Leaves, garbage_collect-Leaves,
  resolve_approval-Leaves,
}

module _ (tick : Tick) where
  -- The operations that change only a task's metadata and its time stamp.
  stamping-Leaves :
      (k : String) (f : RuntimeTask → Params) (e : RuntimeEvent) (m : Manager)
      → IsClean m.db
      → Leaves (
          with_task k m
            λ c. save tick (touched tick (record c { metadata = f c })) (with_event e) m)
  stamping-Leaves k f e m h =
      saving-Leaves tick k (λ c. touched tick (record c { metadata = f c })) (λ c. with_event e) m h

  perform-Leaves : (op : Operation) (m : Manager) → IsClean m.db → Leaves (perform tick op m)
  unfolding perform update_task update_workflow set_pending_input clear_pending_input record_event
      cancel_task clear_history
  perform-Leaves (Operation.create k n) m h =
      outcome-Leaves (create_task tick k n m) (create_task-Leaves tick k n m h)
  perform-Leaves (Operation.update k cs) m h =
      outcome-Leaves (update_task tick k cs m)
        (saving-Leaves tick k (λ c. touched tick (replace c cs)) (λ c. plain) m h)
  perform-Leaves (Operation.workflow k fs) m h =
      outcome-Leaves (set_workflow tick k fs m) (set_workflow-Leaves tick m h k fs)
  perform-Leaves (Operation.workflow_event k fs e) m h =
      outcome-Leaves (update_workflow tick k fs e m) (
        stamping-Leaves k (λ c. with_entry "workflow" fs c.metadata)
          (make_event tick k e (("workflow", obj (safe_fields fs)) ∷ [])) m h)
  perform-Leaves (Operation.ask_input k fs) m h = outcome-Leaves (set_pending_input tick k fs m) (
      stamping-Leaves k (λ c. with_entry "pending_input" fs c.metadata)
        (make_event tick k "INPUT_REQUESTED" (("pending_input", obj (safe_fields fs)) ∷ [])) m h)
  perform-Leaves (Operation.clear_input k e) m h =
      outcome-Leaves (clear_pending_input tick k e m)
        (stamping-Leaves k (λ c. remove "pending_input" c.metadata) (make_event tick k e []) m h)
  perform-Leaves (Operation.note k e ps) m h =
      outcome-Leaves (record_event tick k e ps m)
        (stamping-Leaves k (λ c. c.metadata) (make_event tick k e ps) m h)
  perform-Leaves (Operation.transition k s e gone cs) m h =
      outcome-Leaves (transition_task tick k s e gone cs m)
        (transition_task-Leaves tick k s e gone cs m h)
  perform-Leaves (Operation.cancel k reason) m h = outcome-Leaves (cancel_task tick k reason m) (
      transition_task-Leaves tick k cancelled (some "TASK_CANCELLED") true
        (Change.failure_state reason ∷ Change.current_phase "cancelled" ∷ []) m h)
  perform-Leaves (Operation.focus k) m h =
      outcome-Leaves (set_focus k m) (set_focus-Leaves tick m h k)
  perform-Leaves (Operation.attach k r) m h =
      outcome-Leaves (attach_resource tick k r m) (attach_resource-Leaves tick m h k r)
  perform-Leaves (Operation.detach k key) m h =
      outcome-Leaves (detach_resource tick k key m) (detach_resource-Leaves tick m h k key)
  perform-Leaves (Operation.ask_approval k p) m h =
      outcome-Leaves (request_approval tick k p m) (request_approval-Leaves tick m h k p)
  perform-Leaves (Operation.answer_approval k b r) m h =
      outcome-Leaves (resolve_approval tick k b r m) (resolve_approval-Leaves tick k b r m h)
  perform-Leaves Operation.cleanup m h =
      outcome-Leaves (garbage_collect tick m) (garbage_collect-Leaves tick m h)
  perform-Leaves Operation.clear m h =
      outcome-Leaves (clear_history tick m)
        (delete_terminal_tasks-Leaves tick (keys (keep terminal_entry m.tasks)) m h)

-- After any run of operations, whatever they return or raise and whichever transactions fail: in the
-- stored tables, no recovery context and no metadata of a task, no metadata of an event and no payload of
-- an approval keeps a value under a key with a sensitive name, at any depth, when this was so before.
pub perform_all-IsClean :
    (ops : List (Tick × Operation)) (m : Manager) → IsClean m.db → IsClean (perform_all ops m).db
unfolding perform_all
perform_all-IsClean [] m h = h
perform_all-IsClean ((tick, op) ∷ ops) m h =
    perform_all-IsClean ops (perform tick op m).0 (perform-Leaves tick op m h)
