-- ===== src/Examples/Recovering.antt =====
-- The recovery of agent_control/recovery.py, the verdicts of agent_control/types.py and the redaction
-- of agent_control/runtime_persistence.py on concrete inputs.
use freaky_monkey.Base.{Bool, true, Option, none, List, [], ◌∷◌, ◌≡◌, refl, arith}
use freaky_monkey.Base.Text.{codes}
use freaky_monkey.Types.Verification.{Check, Verdict, VerificationResult}
use freaky_monkey.Types.Failure.{FailureClass}
use freaky_monkey.Types.Action.{ActionResult}
use freaky_monkey.Recovery.Retry.{action_can_retry, retry_safety, non_idempotent_kinds}
use freaky_monkey.Recovery.Budget.{RecoveryBudget, Recovery, default_budget, decide_all}
use freaky_monkey.Recovery.Runs.{Bounded, decide_all-Bounded}
use freaky_monkey.Runtime.Redaction.{safe_goal}
use freaky_monkey.Examples.Scheduling.{click}

abbrev check_of : Verdict → Check
check_of v = record { name = "page"; verdict = v; evidence = []; reason = "" }

click_retried : action_can_retry click true ≡ true
unfolding action_can_retry non_idempotent_kinds retry_safety
click_retried = refl

abbrev start : Recovery
start = record { budget = default_budget; enabled = true; interactive = true }

-- The only retry is used.
abbrev no_retry : RecoveryBudget
no_retry = record default_budget { retries_used = 1; recovery_attempts_used = 1 }

abbrev failures : List FailureClass
failures = FailureClass.transient ∷ FailureClass.transient ∷ FailureClass.stale_state ∷ []

decide_all-Bounded_example : Bounded default_budget (decide_all start failures).1
decide_all-Bounded_example = decide_all-Bounded start failures (record {
  retries = omega arith;
  reobserves = omega arith;
  replans = omega arith;
  attempts = omega arith;
})

abbrev result_of : Bool → Option FailureClass → ActionResult
result_of ok c = record {
  action = click;
  ok = ok;
  detail = [];
  error = none;
  failure_class = c;
  duration_s = 0;
}

abbrev checked : VerificationResult
checked = record { checks = check_of Verdict.fail ∷ []; label = "" }

safe_goal_runs :
    safe_goal (codes " log in, Password : hunter2 now ") ≡ codes "log in, Password=[REDACTED] now"
unfolding safe_goal
safe_goal_runs = refl
