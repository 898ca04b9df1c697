-- ===== src/Orchestration/Batch.antt =====
-- agent_control/workflow/nodes.py: `execute_ready_batch`. Each branch writes only its own node, so
-- the branches are taken in the order in which they were submitted. `none` is an exception.
use mathlib.Core.Option
use freaky_monkey.Base.{
  ℕ, suc, String, Bool, true, false, Option, none, some, List, [], ◌∷◌, ◌++◌, ◌&&◌, str_eq,
  get_elem?, if◌then◌else◌,
}
use freaky_monkey.Base.Text.{codes, upper}
use freaky_monkey.Json.{Params, str, get}
use freaky_monkey.Policy.Paths.{Decision, allow, confirm, deny}
use freaky_monkey.Workflow.Status.{StepStatus, WorkflowStatus, is_completed}
use freaky_monkey.Workflow.Model.{WorkflowStep, Workflow}
use freaky_monkey.Workflow.Locks.{LockManager, new_manager, try_acquire}
use freaky_monkey.Workflow.Ready.{ok, raised, ready_nodes, ready_ids, marked_steps, aggregate}
use freaky_monkey.Orchestration.State.{
  said_approval, said_waiting, said_batch_done, GraphState, Executed, Adapter, workflow_in,
  put_step, VerdictText, pass, unknown, other, verdict_text, or_none,
}
use freaky_monkey.Orchestration.Selecting.{with_status}
use freaky_monkey.Orchestration.Acting.{step_and_flow}
use freaky_monkey.Orchestration.Executing.{or_text, started}

-- The place of the first node with an identifier.
unfoldable pub place_of : String → List WorkflowStep → Option ℕ
place_of k [] = none
place_of k (s ∷ ss) = if str_eq s.step_id k then some 0 else Option.map suc (place_of k ss)

-- What the first loop holds: the workflow, the node that waits for approval, the places to run. Or
-- it has returned, to wait for an input.
pub data Gathered : Type 0 where
  gathered : Workflow → Option String → List ℕ → Gathered
  asks_input : Workflow → Params → Gathered

-- The policy of a node that has been observed.
unfoldable pub admit :
    Workflow
    → Option String
    → List ℕ
    → ℕ
    → WorkflowStep
    → Option Decision × String × Option Params
    → Gathered
admit w waiting places i s (d, reason, some pending) =
    asks_input (step_and_flow w i s StepStatus.waiting_for_user WorkflowStatus.waiting_for_user)
      pending
admit w waiting places i s (some confirm, reason, none) =
    gathered (put_step w i (record s { status = StepStatus.waiting_for_approval })) (some s.step_id)
      places
admit w waiting places i s (some deny, reason, none) =
    gathered (put_step w i (record s { status = StepStatus.failed; error = some reason })) waiting
      places
admit w waiting places i s (some allow, reason, none) =
    gathered (put_step w i (record s { policy_state = "ALLOWED" })) waiting (places ++ (i ∷ []))
admit w waiting places i s (none, reason, none) =
    gathered (put_step w i (record s { policy_state = "ALLOWED" })) waiting (places ++ (i ∷ []))

unfoldable pub consider : Adapter → Workflow → Option String → List ℕ → String → Gathered
unfolding place_of admit
consider rt w waiting places k = elim (place_of k w.steps) as (λ _. Gathered) [
  | none ↦ gathered w waiting places
  | some i ↦ elim (get_elem? w.steps i) as (λ _. Gathered) [
    | none ↦ gathered w waiting places
    | some s ↦
        if is_completed s.status
        then gathered w waiting places
        else let s' = record s { observation = rt.observe_step w s.index } in
          admit (put_step w i s') waiting places i s' (rt.policy_of (put_step w i s') s.index)
  ]
]

unfoldable pub gather : Adapter → Gathered → List String → Gathered
unfolding consider
gather rt g [] = g
gather rt (asks_input w pending) (k ∷ ks) = asks_input w pending
gather rt (gathered w waiting places) (k ∷ ks) = gather rt (consider rt w waiting places k) ks

-- The second loop: a node whose resource is taken waits, any other is submitted.
unfoldable pub submit_branch : LockManager → Workflow → ℕ → LockManager × Workflow × Bool
submit_branch locks w i = elim (get_elem? w.steps i) as (λ _. LockManager × Workflow × Bool) [
  | none ↦ (locks, w, false)
  | some s ↦
      let (locks', got) = try_acquire locks s.resource_key s.step_id in
      if got
      then (locks', put_step w i (started s), true)
      else (locks', put_step w i (record s { status = StepStatus.waiting_resource }), false)
]

unfoldable pub submit_branches : LockManager → Workflow → List ℕ → Workflow × List ℕ
unfolding submit_branch
submit_branches locks w [] = (w, [])
submit_branches locks w (i ∷ is) =
    let (locks', w', sent) = submit_branch locks w i in
    let (w'', is') = submit_branches locks' w' is in (w'', if sent then i ∷ is' else is')

-- `str(verification.get("verdict", …)).upper()`, where a missing verdict is no verdict.
abbrev plain_verdict : Params → VerdictText
plain_verdict ps = elim (get "verdict" ps) as (λ _. VerdictText) [
  | str t ↦ verdict_text (upper (codes t))
  | _ ↦ other
]

abbrev is_pass : VerdictText → Bool
is_pass pass = true
is_pass _ = false

abbrev is_unknown_text : VerdictText → Bool
is_unknown_text unknown = true
is_unknown_text _ = false

abbrev failed_branch : WorkflowStep → String → WorkflowStep
failed_branch s why = record s { status = StepStatus.failed; error = some why }

-- A branch that has ended. The text of an exception is left out.
unfoldable pub end_branch : WorkflowStep → Option Executed → WorkflowStep
unfolding upper
end_branch s none = failed_branch s ""
end_branch s (some r) =
    let v = plain_verdict r.verification in
    if r.needs_input
    then record s { status = StepStatus.waiting_for_user }
    else if r.is_ok && is_pass v
    then record s {
      status = StepStatus.completed;
      result = r.result;
      verification = r.verification;
    }
    else if is_unknown_text v
    then record s { status = StepStatus.unknown; verification = r.verification }
    else record (failed_branch s (or_text (or_none r.error) "workflow step failed")) {
      verification = r.verification;
    }

-- The third loop. Every branch was given the workflow as it was submitted.
unfoldable pub end_branches : Adapter → Workflow → Workflow → List ℕ → Workflow
unfolding end_branch
end_branches rt sent w [] = w
end_branches rt sent w (i ∷ is) = elim (get_elem? w.steps i) as (λ _. Workflow) [
  | none ↦ end_branches rt sent w is
  | some s ↦ end_branches rt sent (put_step w i (end_branch s (rt.branch_step sent s.index))) is
]

unfoldable pub finish_batch : GraphState → Workflow → Option String → GraphState
finish_batch st w none = record st {
  workflow = some (with_status w (aggregate w));
  decision = some said_batch_done;
}
finish_batch st w (some k) = record st {
  workflow =
      some (record w { status = WorkflowStatus.waiting_for_approval; current_step_id = some k });
  decision = some said_approval;
}

unfoldable pub run_batch : Adapter → GraphState → Gathered → GraphState
unfolding submit_branches end_branches finish_batch
run_batch rt st (asks_input w pending) = record st {
  workflow = some w;
  decision = some said_waiting;
  pending_input = some pending;
}
run_batch rt st (gathered w waiting places) =
    let (sent, is) = submit_branches new_manager w places in
    finish_batch st (end_branches rt sent sent is) waiting

-- The workflow and the identifiers that the batch starts from.
unfoldable pub batch_ids : GraphState → Workflow → Option (Workflow × List String)
batch_ids st w = elim st.ready_step_ids as (λ _. Option (Workflow × List String)) [
  | k ∷ ks ↦ some (w, k ∷ ks)
  | [] ↦ elim (ready_nodes w) as (λ _. Option (Workflow × List String)) [
    | raised e ↦ none
    | ok marked ↦ some (record w { steps = marked_steps marked }, ready_ids marked)
  ]
]

unfoldable pub execute_ready_batch : Adapter → GraphState → Option GraphState
unfolding batch_ids gather run_batch
execute_ready_batch rt st = elim (workflow_in st) as (λ _. Option GraphState) [
  | none ↦ none
  | some w ↦ elim (batch_ids st w) as (λ _. Option GraphState) [
    | none ↦ none
    | some (w', ks) ↦ some (run_batch rt st (gather rt (gathered w' none []) ks))
  ]
]
