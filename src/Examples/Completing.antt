-- ===== src/Examples/Completing.antt =====
-- `DependencyScheduler.run` of agent_control/workflow/scheduler.py on a workflow of two steps, where the
-- executor of the open one succeeds and is verified.
use freaky_monkey.Base.{true, false, none, some, [], ◌∷◌, ◌≡◌, refl, arith, All}
use freaky_monkey.Base.Dict.{lookup}
use freaky_monkey.Base.Text.{upper}
use freaky_monkey.Json.{str}
use freaky_monkey.Workflow.Status.{StepStatus}
use freaky_monkey.Workflow.Model.{WorkflowStep}
use freaky_monkey.Workflow.Locks.{new_manager, new_manager-IsConsistent}
use freaky_monkey.Workflow.Ready.{ok, policy_ok, data_ok}
use freaky_monkey.Workflow.Run.{
  Payload, returned, Environment, RunState, finish, verified, status_named,
}
use freaky_monkey.Workflow.Rounds.{run_loop}
use freaky_monkey.Workflow.Completes.{IsCooperative}
use freaky_monkey.Workflow.Emptied.{IsFinished}
use freaky_monkey.Workflow.Completion.{IsStartable, run_loop-completes}
use freaky_monkey.Examples.Scheduling.{two_steps, two_steps_valid}

abbrev pub success : Payload
success = record {
  status = some "completed";
  ok = true;
  result = none;
  verification = some (("verdict", str "pass") ∷ []);
  error = none;
  error_category = none;
  failure_category = none;
  output = none;
  output_key = none;
}

-- The executor reports COMPLETED and nothing was verified: the node is COMPLETED all the same.
abbrev unverified : Payload
unverified = record success { verification = none }

unverified_completes :
    (s : WorkflowStep)
    → ((finish s unverified).status ≡ StepStatus.completed)
      × (verified (finish s unverified) ≡ false)
unfolding finish verified status_named upper lookup
unverified_completes s = (refl, refl)

abbrev pub succeeding : Environment
succeeding = record {
  executor = λ round s. returned success;
  arrival = λ round futures. futures;
  cancels = λ round. false;
  interrupts = λ round. false;
}

finish-success : (s : WorkflowStep) → verified (finish s success) ≡ true
unfolding finish verified status_named upper lookup
finish-success s = refl

pub succeeding-IsCooperative : IsCooperative succeeding
succeeding-IsCooperative = record {
  succeeds = λ round s. (success, refl, finish-success s);
  cancels = λ round. refl;
  interrupts = λ round. refl;
  arrives = λ round futures P h. h;
}

abbrev start : RunState
start = record { workflow = two_steps; results = []; locks = new_manager }

start-IsStartable : IsStartable start
unfolding policy_ok data_ok lookup verified upper
start-IsStartable = record {
  valid = two_steps_valid;
  alive = ((refl, refl), ((refl, refl), tt));
  proven = (refl, (refl, tt));
  inputs = (refl, (refl, tt));
  locks = new_manager-IsConsistent;
  free = λ r named. refl;
  cancel = refl;
  status = refl;
}

run_loop-completes_example :
    (st1 : RunState) × (run_loop succeeding 2 1 0 start ≡ ok (st1, true))
    × IsFinished st1
    × All (λ s. verified s ≡ true) st1.workflow.steps
run_loop-completes_example =
    run_loop-completes succeeding 2 1 start succeeding-IsCooperative (omega arith) start-IsStartable
      (omega arith) (omega arith)
