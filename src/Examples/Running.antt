-- ===== src/Examples/Running.antt =====
-- `DependencyScheduler.run` of agent_control/workflow/scheduler.py, cancelled before its first round, and
-- with executors that raise.
use freaky_monkey.Base.{String, arith, true, false, List, [], ◌∷◌, ◌≡◌, refl}
use freaky_monkey.Base.Dict.{lookup}
use freaky_monkey.Workflow.Status.{StepStatus, WorkflowStatus}
use freaky_monkey.Workflow.Model.{WorkflowStep}
use freaky_monkey.Workflow.Locks.{is_locked, new_manager, new_manager-IsConsistent}
use freaky_monkey.Workflow.Ready.{ok}
use freaky_monkey.Workflow.Run.{threw, Environment, RunState}
use freaky_monkey.Workflow.Rounds.{run_loop, round_of, cancel_workflow}
use freaky_monkey.Workflow.Lasting.{AllLast}
use freaky_monkey.Workflow.Progress.{YieldsGiven, run_loop-AllLast}
use freaky_monkey.Workflow.Completes.{YieldsAll}
use freaky_monkey.Workflow.Ends.{run_loop-ends}
use freaky_monkey.Examples.Scheduling.{two_steps, two_steps_valid, opened, read}

abbrev cancelling : Environment
cancelling = record {
  executor = λ round s. threw "closed";
  arrival = λ round futures. futures;
  cancels = λ round. true;
  interrupts = λ round. false;
}

cancelling-YieldsGiven : YieldsGiven cancelling
cancelling-YieldsGiven round futures P h = h

abbrev before : RunState
before = record { workflow = two_steps; results = []; locks = new_manager }

abbrev cancelled_steps : List WorkflowStep
cancelled_steps = opened ∷ record read { status = StepStatus.cancelled } ∷ []

abbrev after : RunState
after = record before {
  workflow = record two_steps {
    steps = cancelled_steps;
    status = WorkflowStatus.cancelled;
    cancel_requested = true;
  };
}

run_ends : run_loop cancelling 2 1000 0 before ≡ ok (after, true)
unfolding run_loop round_of cancel_workflow
run_ends = refl

run_loop-AllLast_example : AllLast (opened ∷ read ∷ []) cancelled_steps
run_loop-AllLast_example =
    run_loop-AllLast cancelling cancelling-YieldsGiven 2 1000 0 before after true run_ends

free_before : (r : String) → is_locked new_manager r ≡ false
unfolding lookup
free_before r = refl

-- Every executor raises.
abbrev raising : Environment
raising = record {
  executor = λ round s. threw "closed";
  arrival = λ round futures. futures;
  cancels = λ round. false;
  interrupts = λ round. false;
}

raising-YieldsAll : YieldsAll raising
raising-YieldsAll round futures P h = h

run_loop-ends_example : (st1 : RunState) × (run_loop raising 2 1000 0 before ≡ ok (st1, true))
run_loop-ends_example =
    run_loop-ends raising 2 1000 before raising-YieldsAll (omega arith) two_steps_valid
      new_manager-IsConsistent (λ r named. free_before r) (omega arith)
