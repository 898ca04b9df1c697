-- ===== src/Examples/Locking.antt =====
-- The locks and the submission loop of agent_control/workflow/scheduler.py on two nodes that want the
-- same tab.
use freaky_monkey.Base.{◌+◌, ◌≤◌, String, Bool, true, some, List, [], ◌∷◌, ◌≢◌, arith, eq_iff}
use freaky_monkey.Base.Dict.{lookup}
use freaky_monkey.Workflow.Status.{StepStatus}
use freaky_monkey.Workflow.Model.{WorkflowStep}
use freaky_monkey.Workflow.Locks.{LockManager, new_manager, is_locked, IsConsistent}
use freaky_monkey.Workflow.Run.{dispatch}
use freaky_monkey.Workflow.Dispatch.{
  marked, holders, as_number, dispatch-marked, dispatch_exclusive,
}
use freaky_monkey.Examples.Scheduling.{step_of}

abbrev tab : String
tab = "tab"

tab_named : tab ≢ ""
tab_named h = absurd (ground (arith, eq_iff "tab" ""))

-- The tab is held by "read".
abbrev held : LockManager
held = record { locks = ("tab", true) ∷ []; owners = ("tab", "read") ∷ [] }

held-IsConsistent : IsConsistent held
unfolding lookup
held-IsConsistent r = ground arith

-- Two ready nodes.
abbrev rivals : List (WorkflowStep × Bool)
rivals =
    (step_of "read" StepStatus.ready [] (some "tab"), true)
    ∷ (step_of "write" StepStatus.ready [] (some "tab"), true)
    ∷ []

dispatch-marked_example : marked (dispatch 2 new_manager 0 rivals).1 + 0 ≤ 2
dispatch-marked_example = dispatch-marked 2 0 new_manager rivals (omega arith)

dispatch_exclusive_example :
    holders "tab" (dispatch 2 new_manager 0 rivals).1 + as_number (is_locked new_manager "tab") ≤ 1
dispatch_exclusive_example = dispatch_exclusive 2 0 new_manager rivals tab tab_named
