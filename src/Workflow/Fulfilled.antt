-- ===== src/Workflow/Fulfilled.antt =====
-- agent_control/workflow/models.py and agent_control/workflow/scheduler.py together: `run` on the workflows
-- that `from_actions` builds.
use freaky_monkey.Base.{
  ℕ, suc, ◌≤◌, ◌<◌, String, Bool, true, false, List, [], ◌∷◌, ◌≡◌, ◌≢◌, refl, ap, sym, subst, arith,
  not, all, ◌||◌, All, length, tally-le-length,
}
use freaky_monkey.Base.Dict.{has_key}
use freaky_monkey.Json.{Params}
use freaky_monkey.Types.Action.{Action}
use freaky_monkey.Workflow.Status.{is_completed, is_cancelled}
use freaky_monkey.Workflow.Model.{WorkflowStep}
use freaky_monkey.Workflow.Locks.{is_locked, IsConsistent}
use freaky_monkey.Workflow.Ready.{ok, policy_ok, data_ok, schedulable}
use freaky_monkey.Workflow.Graph.{is_allowed_kind}
use freaky_monkey.Workflow.Run.{Environment, RunState, verified}
use freaky_monkey.Workflow.Rounds.{run_loop}
use freaky_monkey.Workflow.Ranking.{All-map}
use freaky_monkey.Workflow.Alive.{IsAlive}
use freaky_monkey.Workflow.Completes.{IsCooperative}
use freaky_monkey.Workflow.Emptied.{IsFinished}
use freaky_monkey.Workflow.Proven.{IsProven}
use freaky_monkey.Workflow.Completion.{run_loop-completes}
use freaky_monkey.Workflow.Inference.{Python}
use freaky_monkey.Workflow.Planning.{steps_from, from_actions, next_step}
use freaky_monkey.Workflow.Planned.{IsNew, from_actions-IsNew, from_actions-validate}

new-IsAlive : (s : WorkflowStep) → IsNew s → IsAlive s
unfolding policy_ok
new-IsAlive s h = (ap (λ x. is_completed x || schedulable x) h.status, ap policy_ok h.policy)

new-IsProven : (s : WorkflowStep) → IsNew s → IsProven s
new-IsProven s h = ap (λ x. not (is_completed x) || verified (record s { status = x })) h.status

new-data_ok : (context : Params) (s : WorkflowStep) → IsNew s → data_ok context s ≡ true
unfolding data_ok
new-data_ok context s h = ap (all (λ k. has_key k context)) h.inputs

module _ (py : Python) (workflow_id goal : String) (explicit_order : Bool) where
  length-steps_from :
      (i : ℕ) (recent : List WorkflowStep) (actions : List Action)
      → length (steps_from py workflow_id goal explicit_order i recent actions) ≡ length actions
  unfolding steps_from
  length-steps_from i recent [] = refl
  length-steps_from i recent (a ∷ later) = ap suc (
      length-steps_from (suc i) (next_step py workflow_id goal explicit_order i a recent ∷ recent)
        later)

  length-from_actions :
      (actions : List Action)
      → length (from_actions py workflow_id goal actions explicit_order) ≡ length actions
  unfolding from_actions
  length-from_actions actions = length-steps_from 0 [] actions

-- From the actions of a plan to the end: on a workflow whose steps `from_actions` built, from actions of
-- allowed kinds, with free locks and a concurrency of at least one, when nobody cancels, every executor
-- answers COMPLETED with the verdict PASS and every future that was submitted arrives: `run` completes
-- every step and reports COMPLETED, within as many rounds as there are actions, or in one if there is
-- none, and each step then has the verdict PASS. Python writes different numbers differently.
pub from_actions-completes :
    (py : Python) (env : Environment) (max left : ℕ) (st : RunState) (goal : String)
    (actions : List Action) (explicit_order : Bool)
    → ((i j : ℕ) → py.decimal i ≡ py.decimal j → i ≡ j)
    → All (λ a. is_allowed_kind a.kind ≡ true) actions
    → st.workflow.steps ≡ from_actions py st.workflow.workflow_id goal actions explicit_order
    → IsConsistent st.locks
    → ((r : String) → r ≢ "" → is_locked st.locks r ≡ false)
    → st.workflow.cancel_requested ≡ false
    → is_cancelled st.workflow.status ≡ false
    → IsCooperative env
    → 0 < max
    → 1 ≤ left
    → length actions ≤ left
    → (st1 : RunState) × (run_loop env max left 0 st ≡ ok (st1, true))
      × IsFinished st1
      × All (λ s. verified s ≡ true) st1.workflow.steps
from_actions-completes py env max left st goal actions explicit_order injective allowed built locks
      free cancel status coop positive some_left enough =
    run_loop-completes env max left st coop positive
      (record {
        valid =
            from_actions-validate py st.workflow goal actions explicit_order injective allowed
              built;
        alive = All-map st.workflow.steps new-IsAlive new;
        proven = All-map st.workflow.steps new-IsProven new;
        inputs = All-map st.workflow.steps (new-data_ok st.workflow.context) new;
        locks = locks;
        free = free;
        cancel = cancel;
        status = status;
      })
      some_left
      (omega (
        arith,
        enough,
        tally-le-length (λ (s : WorkflowStep). not (is_completed s.status)) st.workflow.steps,
        ap length built,
        length-from_actions py st.workflow.workflow_id goal explicit_order actions,
      ))
  where
    new : All IsNew st.workflow.steps
    new =
        subst (All IsNew) (sym built)
          (from_actions-IsNew py st.workflow.workflow_id goal explicit_order actions allowed)
