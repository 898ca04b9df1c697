-- ===== src/Orchestration/Recovering.antt =====
-- agent_control/workflow/nodes.py: `recover`. `none` is an exception that leaves the node.
use freaky_monkey.Base.{
  ℕ, String, Bool, true, false, Option, none, some, List, [], ◌∷◌, ◌&&◌, ◌||◌, ◌+◌, leb, ltb,
  if◌then◌else◌,
}
use freaky_monkey.Base.Dict.{contains, insert}
use freaky_monkey.Json.{Params, str, num}
use freaky_monkey.Types.Action.{
  RetrySafety, safe_to_retry, reobserve_first, do_not_retry, ask_user, auto,
}
use freaky_monkey.Recovery.Retry.{retry_safety, action_can_retry, is_safe}
use freaky_monkey.Workflow.Status.{StepStatus, WorkflowStatus}
use freaky_monkey.Workflow.Model.{WorkflowStep, Workflow}
use freaky_monkey.Workflow.Ready.{aggregate}
use freaky_monkey.Orchestration.State.{
  said_failure, said_pass, said_unknown, said_retry, said_ask_user, said_cancelled, GraphState,
  Adapter, put_step, VerdictText, pass, fail, verdict_in, or_none,
}
use freaky_monkey.Orchestration.Selecting.{with_status, is_halted}
use freaky_monkey.Orchestration.Acting.{at_step, step_and_flow}
use freaky_monkey.Orchestration.Executing.{or_else, or_text}

unfoldable pub safety_value : RetrySafety → String
safety_value safe_to_retry = "SAFE_TO_RETRY"
safety_value reobserve_first = "REOBSERVE_FIRST"
safety_value do_not_retry = "DO_NOT_RETRY"
safety_value ask_user = "ASK_USER"
safety_value auto = "AUTO"

abbrev pub is_open : StepStatus → Bool
is_open StepStatus.unknown = true
is_open StepStatus.recovery_required = true
is_open _ = false

abbrev pub is_reobserve_first : RetrySafety → Bool
is_reobserve_first reobserve_first = true
is_reobserve_first _ = false

abbrev pub is_ask_user : RetrySafety → Bool
is_ask_user ask_user = true
is_ask_user _ = false

-- A limit is reached: UNKNOWN for a step that is unresolved, FAILED for any other.
unfoldable pub exhausted : GraphState → Workflow → ℕ → WorkflowStep → String → GraphState
exhausted st w i s why =
    let w' = put_step w i (record s {
      failure_category = some "recovery_exhausted";
      recovery = insert "decision" (str why) s.recovery;
    }) in
    if is_open s.status
    then record st {
      workflow = some (with_status w' WorkflowStatus.unknown);
      decision = some said_unknown;
    }
    else record st {
      workflow = some (with_status w' WorkflowStatus.failed);
      decision = some said_failure;
    }

-- `step.recovery.update({…})`
abbrev noted : ℕ → ℕ → String → RetrySafety → Params → Params
noted attempt most failure safety ps = insert "retry_safety" (str (safety_value safety)) (
    insert "failure_category" (str failure)
      (insert "max_attempts" (num most) (insert "attempt" (num attempt) ps)))

abbrev pub uncertain_failures : List String
uncertain_failures =
    "verification_unknown" ∷ "INCONCLUSIVE" ∷ "action_may_have_succeeded"
    ∷ "ACTION_MAY_HAVE_SUCCEEDED" ∷ []

abbrev pub resource_failures : List String
resource_failures = "browser_connection_failed" ∷ "resource_unavailable" ∷ []

abbrev pub replan_failures : List String
replan_failures =
    "target_not_found" ∷ "application_not_found" ∷ "precondition_failed" ∷ "STALE_STATE" ∷ []

abbrev pub reobserve_failures : List String
reobserve_failures =
    "browser_connection_failed" ∷ "target_not_found" ∷ "application_not_found" ∷ "stale_observation"
    ∷ []

-- The step is left UNKNOWN after its side effect may have happened.
abbrev pub left_unknown : GraphState → Workflow → ℕ → WorkflowStep → GraphState
left_unknown st w i s = record st {
  workflow = some (
      step_and_flow w i (record s { failure_category = some "verification_unknown" })
        StepStatus.unknown WorkflowStatus.unknown);
  decision = some said_unknown;
}

abbrev pub completed_again : GraphState → Workflow → ℕ → WorkflowStep → GraphState
completed_again st w i s =
    let w' = put_step w i (record s { status = StepStatus.completed }) in
    record st { workflow = some (with_status w' (aggregate w')); decision = some said_pass }

-- The verdict of a fresh verification decides.
unfoldable pub reverified :
    GraphState → Workflow → ℕ → WorkflowStep → RetrySafety → VerdictText → GraphState
reverified st w i s safety pass = completed_again st w i s
reverified st w i s safety fail =
    if is_safe safety
    then record st {
      workflow = some (put_step w i (record s { status = StepStatus.ready }));
      decision = some said_retry;
    }
    else left_unknown st w i s
reverified st w i s safety _ = left_unknown st w i s

-- The verifier is asked, if the runtime has one.
unfoldable pub verified_by :
    Option (Workflow → ℕ → Params)
    → GraphState
    → Workflow
    → ℕ
    → WorkflowStep
    → RetrySafety
    → GraphState
unfolding reverified
verified_by none st w i s safety = left_unknown st w i s
verified_by (some check) st w i s safety =
    let evidence = check (put_step w i s) i in
    reverified st w i (record s { verification = evidence }) safety (verdict_in evidence)

-- Observe and verify afresh, and never execute.
unfoldable pub reobserve :
    Adapter → GraphState → Workflow → ℕ → WorkflowStep → RetrySafety → GraphState
unfolding verified_by
reobserve rt st w i s safety =
    verified_by rt.verify_step st w i (record s { observation = rt.observe_step w i }) safety

abbrev pub asked : Option (Workflow → ℕ → Bool) → Workflow → ℕ → Bool
asked none w i = false
asked (some hook) w i = hook w i

abbrev pub retried : GraphState → Workflow → ℕ → WorkflowStep → GraphState
retried st w i s = record st {
  workflow = some (step_and_flow w i s StepStatus.ready WorkflowStatus.running);
  decision = some said_retry;
}

abbrev pub unresolved : GraphState → Workflow → ℕ → WorkflowStep → String → RetrySafety → GraphState
unresolved st w i s failure safety = record st {
  workflow = some (
      step_and_flow w i
        (record s {
          failure_category = some failure;
          recovery =
              insert "decision" (str (if is_ask_user safety then "ASK_USER" else "UNKNOWN"))
                s.recovery;
        })
        StepStatus.unknown WorkflowStatus.unknown);
  decision = some (if is_ask_user safety then said_ask_user else said_unknown);
}

-- A retry where the action allows one.
unfoldable pub last_resort :
    GraphState → Workflow → ℕ → WorkflowStep → String → RetrySafety → GraphState
last_resort st w i s failure safety =
    if action_can_retry s.action false then retried st w i s else unresolved st w i s failure safety

abbrev pub looked_at : Adapter → Workflow → ℕ → WorkflowStep → String → WorkflowStep
looked_at rt w i s failure =
    if contains reobserve_failures failure
    then record s { observation = rt.observe_step w i }
    else s

-- The strategies for a known failure, in their order.
unfoldable pub by_category :
    Adapter → GraphState → Workflow → ℕ → WorkflowStep → String → RetrySafety → GraphState
unfolding last_resort
by_category rt st w i s failure safety =
    if contains resource_failures failure && asked rt.recover_resource w i
    then retried st w i s
    else if contains replan_failures failure && asked rt.replan_step w i
    then retried st w i s
    else last_resort st w i (looked_at rt w i s failure) failure safety

abbrev pub failure_of : GraphState → WorkflowStep → String
failure_of st s =
    or_text (or_else (or_none st.failure_class) (or_none s.failure_category)) "execution_exception"

-- After an uncertain failure, and for an action that is not to be repeated blindly: observe first.
unfoldable pub strategy :
    Adapter → GraphState → Workflow → ℕ → WorkflowStep → String → RetrySafety → GraphState
unfolding reobserve by_category
strategy rt st w i s failure safety =
    if contains uncertain_failures failure || is_reobserve_first safety
    then reobserve rt st w i s safety
    else by_category rt st w i s failure safety

abbrev pub noted_step : GraphState → Workflow → WorkflowStep → WorkflowStep
noted_step st w s = record s {
  recovery =
      noted (w.recovery_attempts + 1) w.max_recovery_attempts (failure_of st s)
        (retry_safety s.action) s.recovery;
}

abbrev pub counted : Workflow → ℕ → WorkflowStep → Workflow
counted w i s = record w {
  steps = (put_step w i s).steps;
  recovery_attempts = w.recovery_attempts + 1;
}

-- An attempt is counted before a strategy is chosen.
unfoldable pub attempt_recovery : Adapter → GraphState → Workflow → ℕ → WorkflowStep → GraphState
unfolding strategy
attempt_recovery rt st w i s =
    strategy rt st (counted w i (noted_step st w s)) i (noted_step st w s) (failure_of st s)
      (retry_safety s.action)

unfoldable pub recover_from : Adapter → GraphState → Workflow → ℕ → WorkflowStep → GraphState
unfolding attempt_recovery exhausted
recover_from rt st w i s =
    if is_halted w
    then record st {
      workflow = some (step_and_flow w i s StepStatus.cancelled WorkflowStatus.cancelled);
      decision = some said_cancelled;
    }
    else if ltb s.max_step_retries s.attempt_count
    then exhausted st w i s "STEP_RETRY_EXHAUSTED"
    else if leb w.max_recovery_attempts w.recovery_attempts
    then exhausted st w i s "RECOVERY_EXHAUSTED"
    else attempt_recovery rt st w i s

unfoldable pub recover : Adapter → GraphState → Option GraphState
unfolding recover_from
recover rt st = at_step st λ w i s. some (recover_from rt st w i s)
