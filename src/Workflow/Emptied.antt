-- ===== src/Workflow/Emptied.antt =====
-- agent_control/workflow/scheduler.py: the rounds of `run` until no node is open, when every executor
-- succeeds.
use freaky_monkey.Base.{
  ℕ, zero, suc, ◌+◌, ◌≤◌, ◌<◌, ◌==◌, String, Bool, true, false, List, [], ◌∷◌, ◌≡◌, refl, ap, sym,
  ◌∙◌, subst, arith, map, any, ◌||◌, All, inl, inr, Bool-cases, if◌then◌else◌,
}
use freaky_monkey.Workflow.Status.{StepStatus, WorkflowStatus, is_completed, is_cancelled}
use freaky_monkey.Workflow.Model.{WorkflowStep, Workflow}
use freaky_monkey.Workflow.Ready.{
  Result, ok, ◌>>=◌, completed_ids, marked_steps, aggregate, schedulable,
}
use freaky_monkey.Workflow.Run.{Environment, RunState}
use freaky_monkey.Workflow.Dispatch.{dispatch_progress}
use freaky_monkey.Workflow.Rounds.{
  settle, Next, leave, again, observe_cancel, after_round, set_steps, work, round_of, run_loop,
}
use freaky_monkey.Workflow.Alive.{visited, open_count, ready_nodes-IsAlive, some_picked}
use freaky_monkey.Workflow.Completes.{IsCooperative}
use freaky_monkey.Workflow.Underway.{IsUnderway, scanned, after_futures}
use freaky_monkey.Workflow.Totals.{aggregate-IsAlive, some_open}

abbrev next_of : RunState → Next
next_of st = if open_count st.workflow.steps == 0 then leave else again

abbrev total : RunState → WorkflowStatus
total st =
    if open_count st.workflow.steps == 0 then WorkflowStatus.completed else WorkflowStatus.running

after_round_lem :
    (rank : String → ℕ) (st : RunState)
    → IsUnderway rank st
    → (st1 : RunState) × (after_round st ≡ (st1, next_of st1))
      × IsUnderway rank st1
      × (st1.workflow.steps ≡ st.workflow.steps)
      × (st1.workflow.status ≡ total st1)
after_round_lem rank st h =
    let sums = aggregate-IsAlive st.workflow (ground (arith, h.cancel, h.status)) h.alive in
    (
      record st { workflow = record st.workflow { status = aggregate st.workflow } },
      ground (arith, sums, some_open st.workflow.steps h.alive),
      record {
        alive = h.alive;
        inputs = h.inputs;
        known = h.known;
        ranks = h.ranks;
        locks = h.locks;
        free = h.free;
        cancel = h.cancel;
        status = ground (arith, sums);
      },
      refl,
      sums,
    )

seen_lem :
    (rank : String → ℕ) (b : Bool) (st : RunState)
    → b ≡ false
    → IsUnderway rank st
    → IsUnderway rank (observe_cancel b st)
seen_lem rank b st e h = record {
  alive = h.alive;
  inputs = h.inputs;
  known = h.known;
  ranks = h.ranks;
  locks = h.locks;
  free = h.free;
  cancel = ground (arith, h.cancel, e);
  status = h.status;
}

module _ (env : Environment) (coop : IsCooperative env) (max : ℕ) (positive : 0 < max)
    (rank : String → ℕ) (round : ℕ) where
  -- A round with an open node.
  work_lem :
      (st : RunState)
      → IsUnderway rank st
      → 1 ≤ open_count st.workflow.steps
      → (st1 : RunState) × (work env max round st (scanned st) ≡ ok (st1, next_of st1))
        × IsUnderway rank st1
        × (open_count st1.workflow.steps < open_count st.workflow.steps)
        × (st1.workflow.status ≡ total st1)
  unfolding work
  work_lem st h unfinished =
      let picked = some_picked st.workflow.steps rank h.ranks h.known h.alive unfinished in
      let sent = dispatch_progress max st.locks (scanned st) positive h.free picked in
      let (st2, e, under, fewer) =
        after_futures env coop max rank round st h unfinished picked sent in
      let (st1, e', under1, same, sums) =
        after_round_lem rank (observe_cancel (env.interrupts round) st2)
          (seen_lem rank (env.interrupts round) st2 (coop.interrupts round) under) in
      (
        st1,
        rw (picked, sent, work) (ap then_after e ∙ ap ok e'),
        under1,
        subst (λ ss. open_count ss < open_count st.workflow.steps) (sym same) fewer,
        sums,
      )
    where
      then_after : Result RunState → Result (RunState × Next)
      then_after r = r >>= λ st''. ok (after_round (observe_cancel (env.interrupts round) st''))

  round_of_lem :
      (st : RunState)
      → IsUnderway rank st
      → 1 ≤ open_count st.workflow.steps
      → (st1 : RunState) × (round_of env max round st ≡ ok (st1, next_of st1))
        × IsUnderway rank st1
        × (open_count st1.workflow.steps < open_count st.workflow.steps)
        × (st1.workflow.status ≡ total st1)
  unfolding round_of
  round_of_lem st h unfinished =
      let seen = observe_cancel (env.cancels round) st in
      let under = seen_lem rank (env.cancels round) st (coop.cancels round) h in
      let (st1, e, under1, fewer, sums) = work_lem seen under unfinished in
      let going : (seen.workflow.cancel_requested || is_cancelled seen.workflow.status) ≡ false =
        ground (arith, under.cancel, under.status) in
      let found = ready_nodes-IsAlive seen.workflow under.alive under.inputs under.known in
      (
        st1,
        rw (going, round_of) (ap (λ r. r >>= work env max round seen) found ∙ e),
        under1,
        fewer,
        sums,
      )

idle_scan :
    (completed : List String) (ss : List WorkflowStep)
    → open_count ss ≡ 0
    → (any (λ m. m.1) (map (visited completed) ss) ≡ false)
      × (marked_steps (map (visited completed) ss) ≡ ss)
idle_scan completed [] h = (refl, refl)
idle_scan completed (s ∷ ss) h =
    let (none_ready, same) = idle_scan completed ss (ground (arith, h)) in
    let closed = not_schedulable s.status (ground (arith, h)) in
    (rw closed none_ready, rw closed (ap (◌∷◌ s) same))
  where
    not_schedulable :
        (status : StepStatus) → is_completed status ≡ true → schedulable status ≡ false
    not_schedulable status h = ground arith

closed-All :
    (ss : List WorkflowStep) → open_count ss ≡ 0 → All (λ s. s.status ≡ StepStatus.completed) ss
closed-All [] h = tt
closed-All (s ∷ ss) h = (finished s.status (ground (arith, h)), closed-All ss (ground (arith, h)))
  where
    finished : (status : StepStatus) → is_completed status ≡ true → status ≡ StepStatus.completed
    finished status h = ground arith

-- What `run` is to reach.
pub record IsFinished (st : RunState) : Type 0 where
  pub steps : All (λ s. s.status ≡ StepStatus.completed) st.workflow.steps
  pub status : st.workflow.status ≡ WorkflowStatus.completed

settle_completed :
    (w : Workflow)
    → aggregate w ≡ WorkflowStatus.completed
    → (settle w).status ≡ WorkflowStatus.completed
unfolding settle
settle_completed w h = rw h refl

module _ (env : Environment) (coop : IsCooperative env) (max : ℕ) (positive : 0 < max)
    (rank : String → ℕ) where
  idle_round :
      (round : ℕ) (st : RunState)
      → IsUnderway rank st
      → open_count st.workflow.steps ≡ 0
      → (st1 : RunState) × (round_of env max round st ≡ ok (st1, leave)) × IsFinished st1
  unfolding round_of work settle
  idle_round round st h closed =
      let seen = observe_cancel (env.cancels round) st in
      let under = seen_lem rank (env.cancels round) st (coop.cancels round) h in
      let going : (seen.workflow.cancel_requested || is_cancelled seen.workflow.status) ≡ false =
        ground (arith, under.cancel, under.status) in
      let found = ready_nodes-IsAlive seen.workflow under.alive under.inputs under.known in
      let (none_ready, same) =
        idle_scan (completed_ids st.workflow.steps) st.workflow.steps closed in
      let idle =
        set_steps seen.workflow
          (marked_steps (map (visited (completed_ids st.workflow.steps)) st.workflow.steps)) in
      let sums : aggregate idle ≡ WorkflowStatus.completed =
        ap (λ ss. aggregate (set_steps seen.workflow ss)) same
        ∙ aggregate-IsAlive seen.workflow going under.alive
        ∙ ap (λ n. if n == 0 then WorkflowStatus.completed else WorkflowStatus.running) closed in
      (
        record seen { workflow = settle idle },
        rw (going, round_of)
            (ap (λ r. r >>= work env max round seen) found ∙ rw (none_ready, work) refl),
        record {
          steps =
              subst (All (λ s. s.status ≡ StepStatus.completed)) (sym same)
                (closed-All st.workflow.steps closed);
          status = settle_completed idle sums;
        },
      )

  -- The loop as a whole, between rounds.
  pub loop_lem :
      (left round : ℕ) (st : RunState)
      → IsUnderway rank st
      → 1 ≤ left
      → open_count st.workflow.steps ≤ left
      → (st1 : RunState) × (run_loop env max left round st ≡ ok (st1, true)) × IsFinished st1
  unfolding run_loop
  loop_lem zero round st h some_left enough = absurd (omega arith)
  loop_lem (suc left) round st h some_left enough =
      elim (Bool-cases (open_count st.workflow.steps == 0)) [
        | inl closed ↦
            let (st1, e, finished) = idle_round round st h (ground arith) in
            (st1, rw e refl, finished)
        | inr unfinished ↦
            let (st1, e, under, fewer, sums) =
              round_of_lem env coop max positive rank round st h (ground arith) in
            elim (Bool-cases (open_count st1.workflow.steps == 0)) [
              | inl closed ↦ (
                st1,
                rw (e, closed) refl,
                record {
                  steps = closed-All st1.workflow.steps (ground arith);
                  status = rw closed at sums;
                },
              )
              | inr more ↦
                  let (st2, e', finished) =
                    loop_lem left (round + 1) st1 under (ground arith) (omega (arith, fewer)) in
                  (st2, rw (e, more) e', finished)
            ]
      ]
