-- ===== src/Workflow/Recover.antt =====
-- agent_control/workflow/scheduler.py: `DependencyScheduler.recover_failed_node`.
use freaky_monkey.Base.{String, Bool, true, false, none, List, [], ◌∷◌, str_eq, if◌then◌else◌}
use freaky_monkey.Base.Dict.{insert}
use freaky_monkey.Json.{bool}
use freaky_monkey.Workflow.Status.{StepStatus}
use freaky_monkey.Workflow.Model.{WorkflowStep, Workflow}
use freaky_monkey.Workflow.Ready.{Result, ok, raised, ◌>>=◌, unknown_recovery_node, not_recoverable}

-- FAILED, UNKNOWN and RECOVERY_REQUIRED.
abbrev pub is_recoverable : StepStatus → Bool
is_recoverable StepStatus.failed = true
is_recoverable StepStatus.unknown = true
is_recoverable StepStatus.recovery_required = true
is_recoverable _ = false

abbrev pub recovered : WorkflowStep → WorkflowStep
recovered s = record s {
  status = StepStatus.ready;
  error = none;
  recovery = insert "recovered" (bool true) s.recovery;
}

-- The first node with the identifier is the one that changes.
unfoldable pub recover_in : String → List WorkflowStep → Result (List WorkflowStep)
recover_in node [] = raised (unknown_recovery_node node)
recover_in node (s ∷ ss) =
    if str_eq s.step_id node
    then if is_recoverable s.status then ok (recovered s ∷ ss) else raised (not_recoverable node)
    else recover_in node ss >>= λ ss'. ok (s ∷ ss')

unfoldable pub recover_failed_node : Workflow → String → Result Workflow
recover_failed_node w node = recover_in node w.steps >>= λ steps. ok (record w { steps = steps })
