-- ===== src/Workflow/Unlocked.antt =====
-- agent_control/workflow/scheduler.py: after a round of `run` no resource is locked.
use freaky_monkey.Base.{
  ℕ, zero, suc, ◌≤◌, String, Bool, true, false, some, List, [], ◌∷◌, ◌≡◌, ◌≢◌, arith, any, All,
  get_elem?, inl, inr, Bool-cases,
}
use freaky_monkey.Workflow.Status.{StepStatus}
use freaky_monkey.Workflow.Model.{WorkflowStep}
use freaky_monkey.Workflow.Locks.{LockManager, owner, owned_by, is_locked, IsConsistent}
use freaky_monkey.Workflow.Ready.{ok, marked_steps}
use freaky_monkey.Workflow.Run.{Environment, RunState, dispatch, futures_from}
use freaky_monkey.Workflow.Dispatch.{marked}
use freaky_monkey.Workflow.Rounds.{complete_all, set_steps}
use freaky_monkey.Workflow.Returns.{dispatch-IsConsistent}
use freaky_monkey.Workflow.Follows.{AllDone, IsDone, submitted_at}
use freaky_monkey.Workflow.Freed.{dispatch-owner, holder_at, unowned_free}
use freaky_monkey.Workflow.Completes.{
  YieldsAll, IsSettling, complete_all-Completes, Completes, IsFreed,
}

-- What a submission loop makes of the nodes that a scan left, and its futures.
abbrev pub sent_of : ℕ → RunState → List (WorkflowStep × Bool) → List (WorkflowStep × Bool)
sent_of max st ms = (dispatch max st.locks 0 ms).1

abbrev pub sent_state : ℕ → RunState → List (WorkflowStep × Bool) → RunState
sent_state max st ms = record st {
  workflow = set_steps st.workflow (marked_steps (sent_of max st ms));
  locks = (dispatch max st.locks 0 ms).0;
}

abbrev pub futures : ℕ → RunState → List (WorkflowStep × Bool) → List ℕ
futures max st ms = futures_from 0 (sent_of max st ms)

abbrev pub IsFree : LockManager → Type 0
IsFree m = (r : String) → r ≢ "" → is_locked m r ≡ false

pub marked-any : (ms : List (WorkflowStep × Bool)) → any (λ m. m.1) ms ≡ true → 1 ≤ marked ms
marked-any [] h = cc
marked-any (m ∷ ms) h = ground (arith, marked-any ms)

position_of :
    (sent : List (WorkflowStep × Bool)) (k : ℕ) (u : WorkflowStep)
    → get_elem? sent k ≡ some (u, true)
    → get_elem? (marked_steps sent) k ≡ some u
position_of [] k u e = cc
position_of (m ∷ sent) zero u e = ground arith
position_of (m ∷ sent) (suc k) u e = position_of sent k u e

free_owner :
    (m : LockManager) (r node : String)
    → IsConsistent m
    → is_locked m r ≡ false
    → owned_by (owner m r) node ≡ false
unfolding owner
free_owner m r node h free = ground (arith, h r, free)

-- After the futures no resource is locked.
IsFree-after :
    (settles : StepStatus → Bool) (max : ℕ) (ms : List (WorkflowStep × Bool)) (st st2 : RunState)
    → IsConsistent st.locks
    → IsFree st.locks
    → Completes settles (sent_state max st ms) st2
    → ((r node : String)
        → r ≢ ""
        → All (IsFreed st2.locks r node (sent_state max st ms).workflow.steps) (futures max st ms))
    → IsFree st2.locks
IsFree-after settles max ms st st2 locks free done freed r named =
    unowned_free st2.locks r done.locks (λ node.
      elim (Bool-cases (owned_by (owner st2.locks r) node)) [
        | inr gone ↦ gone
        | inl own ↦ elim (Bool-cases (owned_by (owner (sent_state max st ms).locks r) node)) [
          | inr before ↦ done.lost r node named before
          | inl held ↦
              let (k, u, e, holding) = holder_at (sent_of max st ms) r node (
                ground (
                  arith,
                  dispatch-owner max 0 st.locks ms r node held,
                  free_owner st.locks r node locks (free r named),
                )) in
              let back =
                submitted_at (IsFreed st2.locks r node (marked_steps (sent_of max st ms)))
                  (sent_of max st ms) k u (freed r node named) e in
              ground (arith, back, position_of (sent_of max st ms) k u e, holding, own)
        ]
      ])

-- The futures of a round: all come to an end, each node has settled, and no resource is locked.
pub round_futures :
    (settles : StepStatus → Bool) (env : Environment) (round max : ℕ)
    (ms : List (WorkflowStep × Bool)) (st : RunState)
    → IsSettling settles env
    → YieldsAll env
    → IsConsistent st.locks
    → IsFree st.locks
    → (st2 : RunState) × (complete_all env round
          (sent_state max st ms)
          (env.arrival round (futures max st ms))
        ≡ ok st2)
      × Completes settles (sent_state max st ms) st2
      × AllDone settles (sent_of max st ms) st2.workflow.steps
      × IsFree st2.locks
round_futures settles env round max ms st settling all_arrive locks free =
    let (st2, e, done, dones, freed) =
      complete_all-Completes settles env round settling (env.arrival round (futures max st ms))
        (sent_state max st ms) (dispatch-IsConsistent max 0 st.locks ms locks) in
    (
      st2,
      e,
      done,
      λ k u at.
          submitted_at (IsDone settles st2.workflow.steps) (sent_of max st ms) k u
            (all_arrive round (futures max st ms) (IsDone settles st2.workflow.steps) dones) at,
      IsFree-after settles max ms st st2 locks free done (λ r node named.
          all_arrive round (futures max st ms)
            (IsFreed st2.locks r node (sent_state max st ms).workflow.steps) (freed r node named)),
    )
