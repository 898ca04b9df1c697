-- ===== src/Workflow/Rounds.antt =====
-- agent_control/workflow/scheduler.py: one round of `DependencyScheduler.run`, and the loop.
use freaky_monkey.Base.{
  ℕ, zero, suc, ◌+◌, String, Bool, true, false, Option, none, some, List, [], ◌∷◌, map, not, ◌&&◌,
  ◌||◌, any, get_elem?, if◌then◌else◌,
}
use freaky_monkey.Base.Dict.{insert}
use freaky_monkey.Workflow.Status.{StepStatus, WorkflowStatus, is_cancelled}
use freaky_monkey.Workflow.Model.{WorkflowStep, Workflow}
use freaky_monkey.Workflow.Locks.{LockManager, release}
use freaky_monkey.Workflow.Ready.{
  Result, ok, raised, ◌>>=◌, lock_error, schedulable, ready_nodes, aggregate, marked_steps,
}
use freaky_monkey.Workflow.Run.{
  Payload, Outcome, returned, threw, Environment, RunState, dispatch, futures_from, finish,
  fail_with, verified, context_with, fill_dependent,
}

abbrev pub set_step : List WorkflowStep → ℕ → WorkflowStep → List WorkflowStep
set_step [] i s = []
set_step (t ∷ ts) zero s = s ∷ ts
set_step (t ∷ ts) (suc i) s = t ∷ set_step ts i s

-- The `try` body once the future has returned.
unfoldable pub receive : Workflow → ℕ → WorkflowStep → Payload → Workflow
unfolding finish
receive w i s p =
    let s' = finish s p in
    let steps = set_step w.steps i s' in
    let context = context_with p w.context in
    if verified s'
    then record w { steps = map (fill_dependent s'.step_id context) steps; context = context }
    else record w { steps = steps }

abbrev pub after_outcome : Workflow → ℕ → WorkflowStep → Outcome → Workflow
after_outcome w i s (returned p) = receive w i s p
after_outcome w i s (threw message) = record w { steps = set_step w.steps i (fail_with s message) }

abbrev pub with_locks : Workflow → List (String × Outcome) → Option LockManager → Result RunState
with_locks w results none = raised lock_error
with_locks w results (some locks) = ok (record { workflow = w; results = results; locks = locks })

-- One future of `as_completed`, the `finally` block included.
unfoldable pub complete : Environment → ℕ → RunState → ℕ → Result RunState
unfolding receive fail_with
complete env round st i = elim (get_elem? st.workflow.steps i) [
  | none ↦ ok st
  | some s ↦
      let outcome = env.executor round s in
      with_locks (after_outcome st.workflow i s outcome) (insert s.step_id outcome st.results)
        (release st.locks s.resource_key s.step_id)
]

unfoldable pub complete_all : Environment → ℕ → RunState → List ℕ → Result RunState
complete_all env round st [] = ok st
complete_all env round st (i ∷ is) =
    complete env round st i >>= λ st'. complete_all env round st' is

abbrev keeps_on_cancel : StepStatus → Bool
keeps_on_cancel StepStatus.completed = true
keeps_on_cancel StepStatus.cancelled = true
keeps_on_cancel _ = false

abbrev pub cancel_step : WorkflowStep → WorkflowStep
cancel_step s = if keeps_on_cancel s.status then s else record s { status = StepStatus.cancelled }

unfoldable pub cancel_workflow : Workflow → Workflow
cancel_workflow w = record w { status = WorkflowStatus.cancelled; steps = map cancel_step w.steps }

abbrev pub any_schedulable : List WorkflowStep → Bool
any_schedulable = any (λ s. schedulable s.status)

-- The statuses after which `run` leaves at once when no node is ready.
abbrev pub is_settled : WorkflowStatus → Bool
is_settled WorkflowStatus.completed = true
is_settled WorkflowStatus.failed = true
is_settled WorkflowStatus.partial_failure = true
is_settled WorkflowStatus.unknown = true
is_settled WorkflowStatus.cancelled = true
is_settled WorkflowStatus.waiting_for_approval = true
is_settled WorkflowStatus.waiting_for_user = true
is_settled _ = false

-- No node is ready: the loop ends.
unfoldable pub settle : Workflow → Workflow
settle w =
    let status = aggregate w in
    record w {
      status =
          if is_settled status
          then status
          else if any_schedulable w.steps
          then WorkflowStatus.blocked
          else status;
    }

-- The statuses after which `run` leaves at the end of a round.
abbrev pub is_over : WorkflowStatus → Bool
is_over WorkflowStatus.completed = true
is_over WorkflowStatus.partial_failure = true
is_over WorkflowStatus.unknown = true
is_over WorkflowStatus.failed = true
is_over WorkflowStatus.cancelled = true
is_over _ = false

-- What a round says of the loop.
pub data Next : Type 0 where
  leave again : Next

-- The flag as the thread of the loop finds it: another thread may have set it, before the round or
-- while the executors ran.
abbrev pub observe_cancel : Bool → RunState → RunState
observe_cancel seen st = record st {
  workflow = record st.workflow { cancel_requested = st.workflow.cancel_requested || seen };
}

abbrev pub after_round : RunState → RunState × Next
after_round st =
    let status = aggregate st.workflow in
    (
      record st { workflow = record st.workflow { status = status } },
      if is_over status && not (any_schedulable st.workflow.steps) then leave else again,
    )

abbrev pub set_steps : Workflow → List WorkflowStep → Workflow
set_steps w steps = record w { steps = steps }

-- A round from the list of marked nodes on.
unfoldable pub work :
    Environment → ℕ → ℕ → RunState → List (WorkflowStep × Bool) → Result (RunState × Next)
work env max_concurrency round st marked =
    if not (any (λ m. m.1) marked)
    then ok (record st { workflow = settle (set_steps st.workflow (marked_steps marked)) }, leave)
    else let (locks, sent) = dispatch max_concurrency st.locks 0 marked in
      let st' = record st { workflow = set_steps st.workflow (marked_steps sent); locks = locks } in
      if not (any (λ m. m.1) sent)
      then ok (st', again)
      else complete_all env round st' (env.arrival round (futures_from 0 sent)) >>= λ st''.
          ok (after_round (observe_cancel (env.interrupts round) st''))

unfoldable pub round_of : Environment → ℕ → ℕ → RunState → Result (RunState × Next)
round_of env max_concurrency round st =
    let st' = observe_cancel (env.cancels round) st in
    if st'.workflow.cancel_requested || is_cancelled st'.workflow.status
    then ok (record st' { workflow = cancel_workflow st'.workflow }, leave)
    else ready_nodes st'.workflow >>= work env max_concurrency round st'

-- `while rounds < max_rounds`, by the rounds left. The flag tells whether a `break` ended it.
unfoldable pub run_loop : Environment → ℕ → ℕ → ℕ → RunState → Result (RunState × Bool)
run_loop env max_concurrency zero round st = ok (st, false)
run_loop env max_concurrency (suc left) round st =
    round_of env max_concurrency round st >>= λ (st', next). elim next [
      | leave ↦ ok (st', true)
      | again ↦ run_loop env max_concurrency left (round + 1) st'
    ]
