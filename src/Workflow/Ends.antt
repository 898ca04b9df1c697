-- ===== src/Workflow/Ends.antt =====
-- agent_control/workflow/scheduler.py: the loop of `run` ends by itself, whatever the executors answer.
use freaky_monkey.Base.{
  ℕ, zero, suc, ◌+◌, ◌≤◌, ◌<◌, Bool, true, some, List, [], ◌≡◌, refl, ap, ◌∙◌, arith, any, ◌||◌,
  inl, inr, Bool-cases,
}
use freaky_monkey.Workflow.Status.{is_cancelled}
use freaky_monkey.Workflow.Model.{WorkflowStep}
use freaky_monkey.Workflow.Locks.{IsConsistent}
use freaky_monkey.Workflow.Ready.{Result, ok, ◌>>=◌, ready_nodes, completed_ids, marked_steps}
use freaky_monkey.Workflow.Readiness.{ready_nodes-Marks}
use freaky_monkey.Workflow.Graph.{validate}
use freaky_monkey.Workflow.Checked.{scan_total, every_dep_known, validate-IsSchedulable}
use freaky_monkey.Workflow.Ranking.{EveryDepKnown}
use freaky_monkey.Workflow.Run.{Environment, RunState}
use freaky_monkey.Workflow.Dispatch.{dispatch-Sends, dispatch_progress, marked}
use freaky_monkey.Workflow.Rounds.{
  Next, leave, again, observe_cancel, after_round, settle, set_steps, cancel_workflow, work,
  round_of, run_loop,
}
use freaky_monkey.Workflow.Completes.{YieldsAll}
use freaky_monkey.Workflow.Carried.{Same-EveryDepKnown}
use freaky_monkey.Workflow.Unlocked.{sent_of, IsFree, round_futures, marked-any}
use freaky_monkey.Workflow.Turns.{is_closed, turns, outcome-IsSettling, round-turns}

-- What holds between the rounds.
record IsTurning (st : RunState) : Type 0 where
  known : EveryDepKnown st.workflow.steps st.workflow.steps
  locks : IsConsistent st.locks
  free : IsFree st.locks

-- The round has ended the loop, or fewer nodes are looked at in the next.
abbrev Advances : RunState → Result (RunState × Next) → Type 0
Advances st r =
    (st1 : RunState) × (next : Next) × (r ≡ ok (st1, next))
    × (next ≡ again → IsTurning st1 × (turns st1.workflow.steps < turns st.workflow.steps))

module _ (env : Environment) (all_arrive : YieldsAll env) (max : ℕ) (positive : 0 < max) where
  work_turns :
      (round : ℕ) (st : RunState) (ms : List (WorkflowStep × Bool))
      → IsTurning st
      → ready_nodes st.workflow ≡ ok ms
      → Advances st (work env max round st ms)
  unfolding work
  work_turns round st ms h scanned = elim (Bool-cases (any (λ m. m.1) ms)) [
    | inr none_ready ↦ (
      record st { workflow = settle (set_steps st.workflow (marked_steps ms)) },
      leave,
      rw (none_ready, work) refl,
      λ e. cc,
    )
    | inl some_ready ↦
        let sent = dispatch_progress max st.locks ms positive h.free some_ready in
        let (st2, e, done, closed, free) =
          round_futures is_closed env round max ms st (outcome-IsSettling env) all_arrive h.locks
            h.free in
        let (same, fewer) =
          round-turns st.workflow.context (completed_ids st.workflow.steps) st.workflow.steps ms
            (sent_of max st ms) st2.workflow.steps (ready_nodes-Marks st.workflow ms scanned)
            (dispatch-Sends max 0 st.locks ms) done.steps closed in
        (
          (after_round (observe_cancel (env.interrupts round) st2)).0,
          (after_round (observe_cancel (env.interrupts round) st2)).1,
          rw (some_ready, sent, work) (ap (then_after round) e),
          λ _. (
            record {
              known = Same-EveryDepKnown st.workflow.steps st2.workflow.steps same h.known;
              locks = done.locks;
              free = free;
            },
            less st.workflow.steps st2.workflow.steps (sent_of max st ms) fewer
                (marked-any (sent_of max st ms) sent),
          ),
        )
  ]
    where
      then_after : ℕ → Result RunState → Result (RunState × Next)
      then_after round r =
          r >>= λ st''. ok (after_round (observe_cancel (env.interrupts round) st''))

      less :
          (ss ts : List WorkflowStep) (sent : List (WorkflowStep × Bool))
          → turns ts + marked sent ≤ turns ss
          → 1 ≤ marked sent
          → turns ts < turns ss
      less ss ts sent h k = omega arith

  round_turns : (round : ℕ) (st : RunState) → IsTurning st → Advances st (round_of env max round st)
  unfolding round_of ready_nodes
  round_turns round st h =
      let seen = observe_cancel (env.cancels round) st in
      elim (Bool-cases (seen.workflow.cancel_requested || is_cancelled seen.workflow.status)) [
        | inl halted ↦ (
          record seen { workflow = cancel_workflow seen.workflow },
          leave,
          rw (halted, round_of) refl,
          λ e. cc,
        )
        | inr going ↦
            let (ms, scanned) =
              scan_total seen.workflow.context (completed_ids seen.workflow.steps) []
                seen.workflow.steps h.known in
            let (st1, next, e, later) =
              work_turns round seen ms (record { known = h.known; locks = h.locks; free = h.free })
                scanned in
            (
              st1,
              next,
              rw (going, round_of) (ap (λ r. r >>= work env max round seen) scanned ∙ e),
              later,
            )
      ]

  loop_turns :
      (left round : ℕ) (st : RunState)
      → IsTurning st
      → turns st.workflow.steps < left
      → (st1 : RunState) × (run_loop env max left round st ≡ ok (st1, true))
  unfolding run_loop
  loop_turns zero round st h enough = absurd (omega arith)
  loop_turns (suc left) round st h enough =
      let (st1, next, e, later) = round_turns round st h in
      by_next st1 next e (λ k. loop_turns left (round + 1) st1 (later k).0 (fewer st1 (later k).1))
    where
      fewer :
          (st1 : RunState)
          → turns st1.workflow.steps < turns st.workflow.steps
          → turns st1.workflow.steps < left
      fewer st1 less = omega arith

      by_next :
          (st1 : RunState) (next : Next)
          → round_of env max round st ≡ ok (st1, next)
          → (next ≡ again
              → (st2 : RunState) × (run_loop env max left (round + 1) st1 ≡ ok (st2, true)))
          → (st2 : RunState) × (run_loop env max (suc left) round st ≡ ok (st2, true))
      by_next st1 leave e more = (st1, rw e refl)
      by_next st1 again e more = let (st2, e') = more refl in (st2, rw e e')

-- On a workflow that `validate` accepts, with free locks and a concurrency of at least one, and when every
-- future that was submitted arrives: whatever the executors answer or raise, in whatever order, and
-- whenever a cancellation is seen, `run` returns, and its own tests have ended the loop, not the bound on
-- the rounds, if that bound is above the number of nodes that may be scheduled at the start.
pub run_loop-ends :
    (env : Environment) (max left : ℕ) (st : RunState)
    → YieldsAll env
    → 0 < max
    → validate st.workflow ≡ some (ok tt)
    → IsConsistent st.locks
    → IsFree st.locks
    → turns st.workflow.steps < left
    → (st1 : RunState) × (run_loop env max left 0 st ≡ ok (st1, true))
run_loop-ends env max left st all_arrive positive valid locks free enough =
    loop_turns env all_arrive max positive left 0 st
      (record {
        known =
            every_dep_known st.workflow.steps st.workflow.steps
              (validate-IsSchedulable st.workflow valid).1;
        locks = locks;
        free = free;
      })
      enough
