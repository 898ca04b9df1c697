-- ===== src/Workflow/Progress.antt =====
-- agent_control/workflow/scheduler.py: `run` as a whole keeps what is COMPLETED.
use freaky_monkey.Base.{
  ℕ, zero, suc, ◌+◌, ◌-◌, ◌≤◌, Bool, true, false, List, ◌≡◌, refl, sym, ◌∙◌, subst, arith, All,
  All-map_of, any, ◌||◌, inl, inr, Bool-cases,
}
use freaky_monkey.Workflow.Status.{is_cancelled}
use freaky_monkey.Workflow.Model.{WorkflowStep, Workflow}
use freaky_monkey.Workflow.Ready.{
  Result, ok, ◌>>=◌, >>=-eq-ok, ok-injective, ready_nodes, completed_ids, marked_steps,
}
use freaky_monkey.Workflow.Readiness.{Marks, ready_nodes-Marks}
use freaky_monkey.Workflow.Run.{Environment, RunState, dispatch, futures_from}
use freaky_monkey.Workflow.Dispatch.{dispatch-Sends}
use freaky_monkey.Workflow.Rounds.{
  complete_all, cancel_step, cancel_workflow, settle, Next, leave, again, observe_cancel,
  after_round, set_steps, work, round_of, run_loop,
}
use freaky_monkey.Workflow.Lasting.{
  Marks-AllLast, AllLast, AllLast-same, AllLast-append, map-AllLast, sent-AllLast, futures-IsOpen,
  IsOpen, complete_all-AllLast,
}

-- `as_completed` yields only futures that it was given: what holds of each of them holds of each
-- position that arrives. The order is free, and so is how often and whether one arrives.
abbrev pub YieldsGiven : Environment → Type 1
YieldsGiven env =
    (round : ℕ) (futures : List ℕ) (P : ℕ → Type 0)
    → All P futures
    → All P (env.arrival round futures)

module _ (env : Environment) (honest : YieldsGiven env) (max : ℕ) where
  -- The round after the submission loop.
  after_sent :
      (round : ℕ) (st st1 : RunState) (next : Next) (ms : List (WorkflowStep × Bool)) (is : List ℕ)
      (steps : List WorkflowStep)
      → AllLast steps st.workflow.steps
      → All (IsOpen steps) is
      → (complete_all env round st is >>= λ st''.
          ok (after_round (observe_cancel (env.interrupts round) st'')))
        ≡ ok (st1, next)
      → AllLast steps st1.workflow.steps
  after_sent round st st1 next ms is steps h o e =
      let (st2, done, last) = >>=-eq-ok (complete_all env round st is) _ e in
      subst (λ x. AllLast steps x.0.workflow.steps) (ok-injective last)
        (complete_all-AllLast env round steps is st st2 h o done)

  abbrev idle_state : RunState → List (WorkflowStep × Bool) → RunState
  idle_state st ms = record st { workflow = settle (set_steps st.workflow (marked_steps ms)) }

  abbrev sent_of : RunState → List (WorkflowStep × Bool) → List (WorkflowStep × Bool)
  sent_of st ms = (dispatch max st.locks 0 ms).1

  abbrev sent_state : RunState → List (WorkflowStep × Bool) → RunState
  sent_state st ms = record st {
    workflow = set_steps st.workflow (marked_steps (sent_of st ms));
    locks = (dispatch max st.locks 0 ms).0;
  }

  settle-steps : (w : Workflow) → (settle w).steps ≡ w.steps
  unfolding settle
  settle-steps w = refl

  sent_futures :
      (st : RunState) (ms : List (WorkflowStep × Bool))
      → Marks st.workflow.context (completed_ids st.workflow.steps) st.workflow.steps ms
      → All (IsOpen st.workflow.steps) (futures_from 0 (sent_of st ms))
  sent_futures st ms marks =
      All-map_of (λ i. (0 ≤ i) × IsOpen st.workflow.steps (i - 0)) (IsOpen st.workflow.steps)
        (futures_from 0 (sent_of st ms)) (λ i q. subst (IsOpen st.workflow.steps) (same i) q.1)
        (futures-IsOpen st.workflow.context (completed_ids st.workflow.steps) st.workflow.steps ms
          (sent_of st ms) 0 marks (dispatch-Sends max 0 st.locks ms))
    where
      same : (i : ℕ) → i - 0 ≡ i
      same i = omega arith

  work-AllLast :
      (round : ℕ) (st st1 : RunState) (next : Next) (ms : List (WorkflowStep × Bool))
      → ready_nodes st.workflow ≡ ok ms
      → work env max round st ms ≡ ok (st1, next)
      → AllLast st.workflow.steps st1.workflow.steps
  unfolding work
  work-AllLast round st st1 next ms scanned e =
      let steps = st.workflow.steps in
      let ids = completed_ids steps in
      let context = st.workflow.context in
      let marks = ready_nodes-Marks st.workflow ms scanned in
      let sends = dispatch-Sends max 0 st.locks ms in
      let kept = sent-AllLast context ids steps ms (sent_of st ms) marks sends in
      elim (Bool-cases (any (λ m. m.1) ms)) [
        | inr none_ready ↦
            subst (λ x. AllLast steps x.0.workflow.steps) (ok-injective (idle none_ready ∙ e))
              (subst (AllLast steps) (sym (settle-steps (set_steps st.workflow (marked_steps ms))))
                (Marks-AllLast context ids steps ms marks))
        | inl some_ready ↦ elim (Bool-cases (any (λ m. m.1) (sent_of st ms))) [
          | inr none_sent ↦
              subst (λ x. AllLast steps x.0.workflow.steps)
                (ok-injective (stuck some_ready none_sent ∙ e)) kept
          | inl some_sent ↦
              after_sent round (sent_state st ms) st1 next ms
                (env.arrival round (futures_from 0 (sent_of st ms))) steps kept
                (honest round (futures_from 0 (sent_of st ms)) (IsOpen steps)
                  (sent_futures st ms marks))
                (busy some_ready some_sent ∙ e)
        ]
      ]
    where
      idle : any (λ m. m.1) ms ≡ false → ok (idle_state st ms, leave) ≡ work env max round st ms
      idle h = rw (h, work) refl

      stuck :
          any (λ m. m.1) ms ≡ true
          → any (λ m. m.1) (sent_of st ms) ≡ false
          → ok (sent_state st ms, again) ≡ work env max round st ms
      stuck h k = rw (h, k, work) refl

      busy :
          any (λ m. m.1) ms ≡ true
          → any (λ m. m.1) (sent_of st ms) ≡ true
          → (complete_all env round
                (sent_state st ms)
                (env.arrival round (futures_from 0 (sent_of st ms)))
              >>= λ st''. ok (after_round (observe_cancel (env.interrupts round) st'')))
            ≡ work env max round st ms
      busy h k = rw (h, k, work) refl

  pub round_of-AllLast :
      (round : ℕ) (st st1 : RunState) (next : Next)
      → round_of env max round st ≡ ok (st1, next)
      → AllLast st.workflow.steps st1.workflow.steps
  unfolding round_of cancel_workflow
  round_of-AllLast round st st1 next e =
      let seen = observe_cancel (env.cancels round) st in
      let stop = seen.workflow.cancel_requested || is_cancelled seen.workflow.status in
      elim (Bool-cases stop) [
        | inl halted ↦
            subst (λ x. AllLast st.workflow.steps x.0.workflow.steps)
              (ok-injective (stopped halted ∙ e))
              (map-AllLast cancel_step st.workflow.steps st.workflow.steps (λ t. ground arith)
                (λ t. ground arith) (AllLast-same st.workflow.steps))
        | inr going ↦
            let (ms, scanned, rest) = >>=-eq-ok (ready_nodes seen.workflow) _ (goes_on going ∙ e) in
            work-AllLast round seen st1 next ms scanned rest
      ]
    where
      stopped :
          ((observe_cancel (env.cancels round) st).workflow.cancel_requested
              || is_cancelled (observe_cancel (env.cancels round) st).workflow.status)
            ≡ true
          → ok (
            record (observe_cancel (env.cancels round) st) {
              workflow = cancel_workflow (observe_cancel (env.cancels round) st).workflow;
            },
            leave,
          )
            ≡ round_of env max round st
      stopped h = rw (h, round_of) refl

      goes_on :
          ((observe_cancel (env.cancels round) st).workflow.cancel_requested
              || is_cancelled (observe_cancel (env.cancels round) st).workflow.status)
            ≡ false
          → (ready_nodes (observe_cancel (env.cancels round) st).workflow
              >>= work env max round (observe_cancel (env.cancels round) st))
            ≡ round_of env max round st
      goes_on h = rw (h, round_of) refl

  loop_rest :
      (left round : ℕ) (st st1 st2 : RunState) (done : Bool) (next : Next)
      → AllLast st.workflow.steps st2.workflow.steps
      → (run_loop env max left round st2 ≡ ok (st1, done)
          → AllLast st2.workflow.steps st1.workflow.steps)
      → (elim next as (λ _. Result (RunState × Bool)) [
        | leave ↦ ok (st2, true)
        | again ↦ run_loop env max left round st2
      ])
        ≡ ok (st1, done)
      → AllLast st.workflow.steps st1.workflow.steps
  loop_rest left round st st1 st2 done leave h later e =
      subst (λ x. AllLast st.workflow.steps x.0.workflow.steps) (ok-injective e) h
  loop_rest left round st st1 st2 done again h later e =
      AllLast-append st.workflow.steps st2.workflow.steps st1.workflow.steps h (later e)

  -- When the futures that arrive are among those that were submitted, and no exception ends the
  -- run: however many rounds `run` makes, whatever the executors answer or raise, and whenever it is
  -- cancelled, the nodes keep their number, their order, their identifiers and their dependencies,
  -- and a node that was COMPLETED is COMPLETED at its end.
  pub run_loop-AllLast :
      (left round : ℕ) (st st1 : RunState) (done : Bool)
      → run_loop env max left round st ≡ ok (st1, done)
      → AllLast st.workflow.steps st1.workflow.steps
  unfolding run_loop
  run_loop-AllLast zero round st st1 done e =
      subst (λ x. AllLast st.workflow.steps x.0.workflow.steps) (ok-injective e)
        (AllLast-same st.workflow.steps)
  run_loop-AllLast (suc left) round st st1 done e =
      let (r, first, rest) = >>=-eq-ok (round_of env max round st) _ e in
      loop_rest left (round + 1) st st1 r.0 done r.1 (round_of-AllLast round st r.0 r.1 first)
        (run_loop-AllLast left (round + 1) r.0 st1 done) rest
