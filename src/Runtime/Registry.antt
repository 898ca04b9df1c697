-- ===== src/Runtime/Registry.antt =====
-- agent_control/runtime.py: what every operation of `RuntimeManager` keeps, and a run of them.
use freaky_monkey.Base.{
  String, Bool, true, false, not, any, Option, none, some, List, [], ◌∷◌, ◌≡◌, refl, sym, subst,
  arith, inl, inr, Bool-cases,
}
use freaky_monkey.Base.Dict.{lookup}
use freaky_monkey.Runtime.State.{RuntimeState, is_terminal, allowed-terminal}
use freaky_monkey.Runtime.Task.{RuntimeTask}
use freaky_monkey.Runtime.Manager.{
  Manager, Tick, Res, return, raise, create_task, update_task, set_workflow, update_workflow,
  set_pending_input, clear_pending_input, record_event,
}
use freaky_monkey.Runtime.Approvals.{request_approval, resolve_approval}
use freaky_monkey.Runtime.Cleanup.{garbage_collect, clear_history}
use freaky_monkey.Runtime.Moves.{
  transition_task, cancel_task, set_focus, attach_resource, detach_resource,
}
use freaky_monkey.Runtime.Operations.{Operation, perform, perform_all, outcome}
use freaky_monkey.Runtime.Lawful.{Reaches, stay, step, moves, Sound, Steps}
use freaky_monkey.Runtime.Lifecycle.{
  gives_state, update_task-Steps, set_workflow-Steps, update_workflow-Steps,
  set_pending_input-Steps, clear_pending_input-Steps, record_event-Steps,
}
use freaky_monkey.Runtime.Transitions.{transition_task-Steps, cancel_task-Steps, set_focus-Steps}
use freaky_monkey.Runtime.Owners.{
  attach_resource-Steps, detach_resource-Steps, request_approval-Steps,
}
use freaky_monkey.Runtime.Evolution.{
  Evolves, follows, IsEvolved, create_task-Sound, update_task-Sound, resolve_approval-Steps,
}
use freaky_monkey.Runtime.Collection.{garbage_collect-Steps, clear_history-Steps}

outcome-keeps {ℓ} : {A : Type ℓ} (o : Manager × Res A) → (outcome o).0 ≡ o.0
outcome-keeps (m, return a) = refl
outcome-keeps (m, raise e) = refl

-- An operation that is not `update_task` with a `state`.
abbrev pub is_quiet : Operation → Bool
is_quiet (Operation.update k cs) = not (any gives_state cs)
is_quiet _ = true

abbrev Kept : Manager → Manager → Type 0
Kept m m' = Sound m' × IsEvolved m m'

Steps-Kept {ℓ} :
    {A : Type ℓ} (m : Manager) (o : Manager × Res A) → Steps m o.0 → Kept m (outcome o).0
Steps-Kept m (m', return a) (h, l) = (h, λ k. follows (l k))
Steps-Kept m (m', raise e) (h, l) = (h, λ k. follows (l k))

evolved-Kept {ℓ} :
    {A : Type ℓ} (m : Manager) (o : Manager × Res A) → Kept m o.0 → Kept m (outcome o).0
evolved-Kept m (m', return a) h = h
evolved-Kept m (m', raise e) h = h

perform-Kept :
    (tick : Tick) (op : Operation) (m : Manager)
    → Sound m
    → is_quiet op ≡ true
    → Kept m (perform tick op m).0
unfolding perform
perform-Kept tick (Operation.create k n) m h q =
    evolved-Kept m (create_task tick k n m) (create_task-Sound tick k n m h)
perform-Kept tick (Operation.update k cs) m h q =
    Steps-Kept m (update_task tick k cs m) (update_task-Steps tick k cs m h (ground arith))
perform-Kept tick (Operation.workflow k fs) m h q =
    Steps-Kept m (set_workflow tick k fs m) (set_workflow-Steps tick k fs m h)
perform-Kept tick (Operation.workflow_event k fs e) m h q =
    Steps-Kept m (update_workflow tick k fs e m) (update_workflow-Steps tick k fs e m h)
perform-Kept tick (Operation.ask_input k fs) m h q =
    Steps-Kept m (set_pending_input tick k fs m) (set_pending_input-Steps tick k fs m h)
perform-Kept tick (Operation.clear_input k e) m h q =
    Steps-Kept m (clear_pending_input tick k e m) (clear_pending_input-Steps tick k e m h)
perform-Kept tick (Operation.note k e ps) m h q =
    Steps-Kept m (record_event tick k e ps m) (record_event-Steps tick k e ps m h)
perform-Kept tick (Operation.transition k s e drop cs) m h q =
    Steps-Kept m (transition_task tick k s e drop cs m)
      (transition_task-Steps tick k s e drop cs m h)
perform-Kept tick (Operation.cancel k reason) m h q =
    Steps-Kept m (cancel_task tick k reason m) (cancel_task-Steps tick k reason m h)
perform-Kept tick (Operation.focus k) m h q = Steps-Kept m (set_focus k m) (set_focus-Steps k m h)
perform-Kept tick (Operation.attach k r) m h q =
    Steps-Kept m (attach_resource tick k r m) (attach_resource-Steps tick k r m h)
perform-Kept tick (Operation.detach k key) m h q =
    Steps-Kept m (detach_resource tick k key m) (detach_resource-Steps tick k key m h)
perform-Kept tick (Operation.ask_approval k p) m h q =
    Steps-Kept m (request_approval tick k p m) (request_approval-Steps tick k p m h)
perform-Kept tick (Operation.answer_approval k b r) m h q =
    Steps-Kept m (resolve_approval tick k b r m) (resolve_approval-Steps tick k b r m h)
perform-Kept tick Operation.cleanup m h q =
    Steps-Kept m (garbage_collect tick m) (garbage_collect-Steps tick m h)
perform-Kept tick Operation.clear m h q =
    Steps-Kept m (clear_history tick m) (clear_history-Steps tick m h)

-- For a registry in which each task stands under its own identifier and is stored as its row, and for
-- an operation that is not `update_task` with a `state`: afterwards each identifier's task is new and
-- CREATED, or gone, or in a state that the table of transitions reaches from its state before.
pub perform-IsEvolved :
    (tick : Tick) (op : Operation) (m : Manager)
    → Sound m
    → is_quiet op ≡ true
    → (k : String) → Evolves (lookup k m.tasks) (lookup k (perform tick op m).0.tasks)
perform-IsEvolved tick op m h q = (perform-Kept tick op m h q).1

perform-Sound : (tick : Tick) (op : Operation) (m : Manager) → Sound m → Sound (perform tick op m).0
unfolding perform
perform-Sound tick op m h = elim (Bool-cases (is_quiet op)) [
  | inl q ↦ (perform-Kept tick op m h q).0
  | inr loud ↦ loud_case op loud
]
  where
    loud_case : (op : Operation) → is_quiet op ≡ false → Sound (perform tick op m).0
    loud_case (Operation.update k cs) e =
        subst Sound (sym (outcome-keeps (update_task tick k cs m)))
          (update_task-Sound tick k cs m h)
    loud_case _ e = absurd (ground arith)

-- After any run of operations, whatever they return or raise and whichever transactions fail, each
-- task stands under its own identifier, and the table of tasks holds the row of each task and no
-- other, when this was so before.
pub perform_all-Sound :
    (ops : List (Tick × Operation)) (m : Manager) → Sound m → Sound (perform_all ops m)
unfolding perform_all
perform_all-Sound [] m h = h
perform_all-Sound ((tick, op) ∷ ops) m h =
    perform_all-Sound ops (perform tick op m).0 (perform-Sound tick op m h)

Reaches-terminal : (s t : RuntimeState) → is_terminal s ≡ true → Reaches s t → t ≡ s
Reaches-terminal s t h stay = refl
Reaches-terminal s t h (step {t = u} a r) = absurd (ground (arith, allowed-terminal s u h))

-- The task is gone, or it is in this state.
abbrev IsEndedAs : RuntimeState → Option RuntimeTask → Type 0
IsEndedAs s none = Unit
IsEndedAs s (some u) = u.state ≡ s

Evolves-terminal :
    (t : RuntimeTask) (o : Option RuntimeTask)
    → is_terminal t.state ≡ true
    → Evolves (some t) o
    → IsEndedAs t.state o
Evolves-terminal t none h e = tt
Evolves-terminal t (some u) h (follows (moves r)) = Reaches-terminal t.state u.state h r

-- A task that is COMPLETED, FAILED, CANCELLED or EXPIRED, in a registry as above: an operation that
-- is not `update_task` with a `state` leaves it in that state, or removes it.
perform-terminal :
    (tick : Tick) (op : Operation) (m : Manager) (k : String) (t : RuntimeTask)
    → Sound m
    → is_quiet op ≡ true
    → lookup k m.tasks ≡ some t
    → is_terminal t.state ≡ true
    → IsEndedAs t.state (lookup k (perform tick op m).0.tasks)
perform-terminal tick op m k t h q found ended =
    Evolves-terminal t (lookup k (perform tick op m).0.tasks) ended (
      subst (λ o. Evolves o (lookup k (perform tick op m).0.tasks)) found
        (perform-IsEvolved tick op m h q k))
