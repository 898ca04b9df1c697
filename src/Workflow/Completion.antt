-- ===== src/Workflow/Completion.antt =====
-- agent_control/workflow/scheduler.py: `run` as a whole, when every executor succeeds and is verified.
use freaky_monkey.Base.{
  ℕ, ◌≤◌, ◌<◌, true, false, some, List, [], ◌∷◌, ◌≡◌, ap, sym, ◌∙◌, subst, arith, All,
}
use freaky_monkey.Workflow.Status.{StepStatus, is_completed, is_cancelled}
use freaky_monkey.Workflow.Model.{WorkflowStep}
use freaky_monkey.Workflow.Locks.{IsConsistent}
use freaky_monkey.Workflow.Ready.{ok, data_ok}
use freaky_monkey.Workflow.Graph.{validate}
use freaky_monkey.Workflow.Run.{Environment, RunState, verified}
use freaky_monkey.Workflow.Rounds.{run_loop}
use freaky_monkey.Workflow.Alive.{IsAlive, open_count}
use freaky_monkey.Workflow.Completes.{IsCooperative}
use freaky_monkey.Workflow.Checked.{every_dep_known}
use freaky_monkey.Workflow.Accepted.{validate-iff-IsValid}
use freaky_monkey.Workflow.Emptied.{IsFinished, loop_lem}
use freaky_monkey.Workflow.Follows.{ended}
use freaky_monkey.Workflow.Proven.{IsProven, IsHonest, run_loop-IsProven}
use freaky_monkey.Workflow.Unlocked.{IsFree}

-- What the caller of `run` hands over: a workflow that `validate` accepts, nobody has cancelled and no
-- policy holds back, whose nodes are COMPLETED with the verdict PASS or may be scheduled, and have the
-- values that they require, and locks that are free.
pub record IsStartable (st : RunState) : Type 0 where
  pub valid : validate st.workflow ≡ some (ok tt)
  pub alive : All IsAlive st.workflow.steps
  pub proven : All IsProven st.workflow.steps
  pub inputs : All (λ s. data_ok st.workflow.context s ≡ true) st.workflow.steps
  pub locks : IsConsistent st.locks
  pub free : IsFree st.locks
  pub cancel : st.workflow.cancel_requested ≡ false
  pub status : is_cancelled st.workflow.status ≡ false

IsCooperative-IsHonest : (env : Environment) → IsCooperative env → IsHonest env
IsCooperative-IsHonest env coop round s p e =
    let (q, answer, good) = coop.succeeds round s in
    subst (λ o. IsProven (ended s o)) (sym answer ∙ e) (ground (arith, good))

closed_proven :
    (ss : List WorkflowStep)
    → All (λ s. s.status ≡ StepStatus.completed) ss
    → All IsProven ss
    → All (λ s. verified s ≡ true) ss
closed_proven [] h k = tt
closed_proven (s ∷ ss) h k = (ground (arith, ap is_completed h.0, k.0), closed_proven ss h.1 k.1)

-- When every executor answers COMPLETED with the verdict PASS, every future that was submitted arrives, in
-- any order, and nobody cancels: from a workflow that `validate` accepts, whose nodes are COMPLETED with
-- the verdict PASS or may be scheduled, with no policy that holds one back and every required value
-- there, with free locks and a concurrency of at least one, `run` completes every node and reports
-- COMPLETED, within as many rounds as there are open nodes, or in one if there is none; and each node
-- then has the verdict PASS.
pub run_loop-completes :
    (env : Environment) (max left : ℕ) (st : RunState)
    → IsCooperative env
    → 0 < max
    → IsStartable st
    → 1 ≤ left
    → open_count st.workflow.steps ≤ left
    → (st1 : RunState) × (run_loop env max left 0 st ≡ ok (st1, true))
      × IsFinished st1
      × All (λ s. verified s ≡ true) st1.workflow.steps
run_loop-completes env max left st coop positive start some_left enough =
    let v = (validate-iff-IsValid st.workflow).0 start.valid in
    let (st1, e, finished) =
      loop_lem env coop max positive v.acyclic.0 left 0 st
        (record {
          alive = start.alive;
          inputs = start.inputs;
          known = every_dep_known st.workflow.steps st.workflow.steps v.nodes;
          ranks = v.acyclic.1;
          locks = start.locks;
          free = start.free;
          cancel = start.cancel;
          status = start.status;
        })
        some_left enough in
    (
      st1,
      e,
      finished,
      closed_proven st1.workflow.steps finished.steps (
          run_loop-IsProven env (IsCooperative-IsHonest env coop) max left 0 st st1 true
            start.proven e),
    )
