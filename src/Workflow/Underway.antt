-- ===== src/Workflow/Underway.antt =====
-- agent_control/workflow/scheduler.py: what a round of `run` keeps when every executor succeeds.
use freaky_monkey.Base.{
  ℕ, ◌≤◌, ◌<◌, String, Bool, true, false, List, ◌≡◌, ap, sym, ◌∙◌, subst, arith, map, any, all, All,
  All-map_of,
}
use freaky_monkey.Base.Dict.{has_key}
use freaky_monkey.Workflow.Status.{is_cancelled, is_completed}
use freaky_monkey.Workflow.Model.{WorkflowStep, Workflow}
use freaky_monkey.Workflow.Locks.{IsConsistent}
use freaky_monkey.Workflow.Ready.{ok, data_ok, completed_ids}
use freaky_monkey.Workflow.Ranking.{Ranks, EveryDepKnown}
use freaky_monkey.Workflow.Run.{Environment, RunState}
use freaky_monkey.Workflow.Dispatch.{dispatch-Sends}
use freaky_monkey.Workflow.Rounds.{complete_all}
use freaky_monkey.Workflow.Alive.{IsAlive, visited, open_count}
use freaky_monkey.Workflow.Follows.{static, round-IsAlive}
use freaky_monkey.Workflow.Completes.{IsCooperative, succeeds-IsSettling}
use freaky_monkey.Workflow.Contexts.{data_ok-Within}
use freaky_monkey.Workflow.Carried.{All-Same, Same-EveryDepKnown, Same-Ranks}
use freaky_monkey.Workflow.Unlocked.{
  sent_of, sent_state, futures, IsFree, round_futures, marked-any,
}

-- What holds between the rounds: every node is COMPLETED or can still be scheduled, the graph has no
-- cycle and is known, no resource is locked, and nobody has cancelled.
pub record IsUnderway (rank : String → ℕ) (st : RunState) : Type 0 where
  pub alive : All IsAlive st.workflow.steps
  pub inputs : All (λ s. data_ok st.workflow.context s ≡ true) st.workflow.steps
  pub known : EveryDepKnown st.workflow.steps st.workflow.steps
  pub ranks : Ranks rank st.workflow.steps
  pub locks : IsConsistent st.locks
  pub free : IsFree st.locks
  pub cancel : st.workflow.cancel_requested ≡ false
  pub status : is_cancelled st.workflow.status ≡ false

data_ok-static :
    (w : Workflow) (s t : WorkflowStep)
    → static t ≡ static s
    → data_ok w.context s ≡ true
    → data_ok w.context t ≡ true
unfolding data_ok
data_ok-static w s t e h = subst (λ x. all (λ k. has_key k w.context) x.3 ≡ true) (sym e) h

abbrev pub scanned : RunState → List (WorkflowStep × Bool)
scanned st = map (visited (completed_ids st.workflow.steps)) st.workflow.steps

-- The submission loop and the futures of a round.
module _ (env : Environment) (coop : IsCooperative env) (max : ℕ) (rank : String → ℕ)
    (round : ℕ) where
  -- The futures of a round: fewer nodes are open, and all else holds as before.
  pub after_futures :
      (st : RunState)
      → IsUnderway rank st
      → 1 ≤ open_count st.workflow.steps
      → any (λ m. m.1) (scanned st) ≡ true
      → any (λ m. m.1) (sent_of max st (scanned st)) ≡ true
      → (st2 : RunState) × (complete_all env round
            (sent_state max st (scanned st))
            (env.arrival round (futures max st (scanned st)))
          ≡ ok st2)
        × IsUnderway rank st2
        × (open_count st2.workflow.steps < open_count st.workflow.steps)
  after_futures st h unfinished picked sent =
      let steps = st.workflow.steps in
      let (st2, e, done, finished, free) =
        round_futures is_completed env round max (scanned st) st (succeeds-IsSettling env coop)
          coop.arrives h.locks h.free in
      let (alive, same, fewer) =
        round-IsAlive (completed_ids steps) steps (sent_of max st (scanned st)) st2.workflow.steps
          h.alive (dispatch-Sends max 0 st.locks (scanned st)) done.steps finished in
      (
        st2,
        e,
        record {
          alive = alive;
          inputs =
              All-Same (λ s. data_ok st2.workflow.context s ≡ true) steps st2.workflow.steps
                (data_ok-static st2.workflow) same
                (All-map_of _ _ steps
                  (λ s k. data_ok-Within st.workflow.context st2.workflow.context s done.context k)
                  h.inputs);
          known = Same-EveryDepKnown steps st2.workflow.steps same h.known;
          ranks = Same-Ranks rank steps st2.workflow.steps same h.ranks;
          locks = done.locks;
          free = free;
          cancel = done.cancel ∙ h.cancel;
          status = ap is_cancelled done.status ∙ h.status;
        },
        omega (arith, fewer, marked-any (sent_of max st (scanned st)) sent),
      )
