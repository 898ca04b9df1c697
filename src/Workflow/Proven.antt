-- ===== src/Workflow/Proven.antt =====
-- agent_control/workflow/scheduler.py: the verdicts of the nodes that `run` completes.
use freaky_monkey.Base.{
  ℕ, zero, suc, ◌+◌, String, Bool, true, List, [], ◌∷◌, ◌≡◌, refl, subst, arith, All, any, map, not,
  ◌||◌, get_elem?, inl, inr, Bool-cases, Option-cases,
}
use freaky_monkey.Base.Dict.{insert}
use freaky_monkey.Json.{Params}
use freaky_monkey.Workflow.Status.{is_completed, is_cancelled}
use freaky_monkey.Workflow.Model.{WorkflowStep, Workflow}
use freaky_monkey.Workflow.Locks.{release}
use freaky_monkey.Workflow.Ready.{
  Result, ok, >>=-eq-ok, ok-injective, ready_nodes, completed_ids, marked_steps,
}
use freaky_monkey.Workflow.Readiness.{Marks, ready_nodes-Marks}
use freaky_monkey.Workflow.Run.{
  Payload, Outcome, returned, threw, Environment, RunState, dispatch, futures_from, finish,
  fail_with, verified, context_with, fill_dependent,
}
use freaky_monkey.Workflow.Dispatch.{Sends, dispatch-Sends}
use freaky_monkey.Workflow.Rounds.{
  set_step, receive, after_outcome, complete, complete_all, cancel_step, cancel_workflow, settle,
  Next, leave, again, observe_cancel, set_steps, work, round_of, run_loop,
}
use freaky_monkey.Workflow.Lasting.{with_locks-workflow}

-- The node is not COMPLETED, or its verdict is PASS.
abbrev pub IsProven : WorkflowStep → Type 0
IsProven s = (not (is_completed s.status) || verified s) ≡ true

-- No executor answers COMPLETED without the verdict PASS.
abbrev pub IsHonest : Environment → Type 0
IsHonest env =
    (round : ℕ) (s : WorkflowStep) (p : Payload)
    → env.executor round s ≡ returned p
    → IsProven (finish s p)

Marks-IsProven :
    (context : Params) (done : List String) (ss : List WorkflowStep)
    (ms : List (WorkflowStep × Bool))
    → Marks context done ss ms
    → All IsProven ss
    → All IsProven (marked_steps ms)
Marks-IsProven context done [] [] m h = tt
Marks-IsProven context done (s ∷ ss) ((t, r) ∷ ms) m h =
    let v = m.0 in (ground (arith, h.0), Marks-IsProven context done ss ms m.1 h.1)
Marks-IsProven context done [] (u ∷ ms) m h = absurd m
Marks-IsProven context done (s ∷ ss) [] m h = absurd m

Sends-IsProven :
    (ms sent : List (WorkflowStep × Bool))
    → Sends ms sent
    → All IsProven (marked_steps ms)
    → All IsProven (marked_steps sent)
Sends-IsProven [] [] k h = tt
Sends-IsProven ((s, r) ∷ ms) ((t, taken) ∷ sent) k h =
    let w = k.0 in (ground (arith, h.0), Sends-IsProven ms sent k.1 h.1)
Sends-IsProven [] (m ∷ sent) k h = absurd k
Sends-IsProven (m ∷ ms) [] k h = absurd k

set_step-IsProven :
    (ss : List WorkflowStep) (i : ℕ) (t : WorkflowStep)
    → All IsProven ss
    → IsProven t
    → All IsProven (set_step ss i t)
set_step-IsProven [] i t h k = tt
set_step-IsProven (s ∷ ss) zero t h k = (k, h.1)
set_step-IsProven (s ∷ ss) (suc i) t h k = (h.0, set_step-IsProven ss i t h.1 k)

map-IsProven :
    (f : WorkflowStep → WorkflowStep) (ss : List WorkflowStep)
    → ((s : WorkflowStep) → IsProven s → IsProven (f s))
    → All IsProven ss
    → All IsProven (map f ss)
map-IsProven f [] keeps h = tt
map-IsProven f (s ∷ ss) keeps h = (keeps s h.0, map-IsProven f ss keeps h.1)

fill_dependent-IsProven :
    (id : String) (context : Params) (s : WorkflowStep)
    → IsProven s
    → IsProven (fill_dependent id context s)
unfolding fill_dependent verified
fill_dependent-IsProven id context s h = ground (arith, h)

receive-IsProven :
    (w : Workflow) (i : ℕ) (s : WorkflowStep) (p : Payload)
    → All IsProven w.steps
    → IsProven (finish s p)
    → All IsProven (receive w i s p).steps
unfolding receive
receive-IsProven w i s p h k =
    let set = set_step-IsProven w.steps i (finish s p) h k in
    elim (Bool-cases (verified (finish s p))) [
      | inr e ↦ rw (e, receive) set
      | inl e ↦
          rw (e, receive)
            (map-IsProven (fill_dependent (finish s p).step_id (context_with p w.context))
              (set_step w.steps i (finish s p))
              (fill_dependent-IsProven (finish s p).step_id (context_with p w.context)) set)
    ]

module _ (env : Environment) (honest : IsHonest env) (round : ℕ) where
  answer-IsProven :
      (w : Workflow) (i : ℕ) (s : WorkflowStep) (o : Outcome)
      → env.executor round s ≡ o
      → All IsProven w.steps
      → All IsProven (after_outcome w i s o).steps
  unfolding fail_with
  answer-IsProven w i s (threw message) e h =
      set_step-IsProven w.steps i (fail_with s message) h refl
  answer-IsProven w i s (returned p) e h = receive-IsProven w i s p h (honest round s p e)

  complete-IsProven :
      (st st' : RunState) (i : ℕ)
      → All IsProven st.workflow.steps
      → complete env round st i ≡ ok st'
      → All IsProven st'.workflow.steps
  unfolding complete
  complete-IsProven st st' i h e = elim (Option-cases (get_elem? st.workflow.steps i)) [
    | inl absent ↦
        subst (λ x. All IsProven x.workflow.steps) (ok-injective (rw (absent, complete) at e)) h
    | inr (s, found) ↦
        let o = env.executor round s in
        subst (λ w. All IsProven w.steps)
          (with_locks-workflow (after_outcome st.workflow i s o) (insert s.step_id o st.results)
            (release st.locks s.resource_key s.step_id) st' (rw (found, complete) at e))
          (answer-IsProven st.workflow i s o refl h)
  ]

  complete_all-IsProven :
      (is : List ℕ) (st st' : RunState)
      → All IsProven st.workflow.steps
      → complete_all env round st is ≡ ok st'
      → All IsProven st'.workflow.steps
  unfolding complete_all
  complete_all-IsProven [] st st' h e =
      subst (λ x. All IsProven x.workflow.steps) (ok-injective e) h
  complete_all-IsProven (i ∷ is) st st' h e =
      let (st1, first, later) = >>=-eq-ok (complete env round st i) _ e in
      complete_all-IsProven is st1 st' (complete-IsProven st st1 i h first) later

  work-IsProven :
      (max : ℕ) (st st1 : RunState) (next : Next) (ms : List (WorkflowStep × Bool))
      → All IsProven st.workflow.steps
      → ready_nodes st.workflow ≡ ok ms
      → work env max round st ms ≡ ok (st1, next)
      → All IsProven st1.workflow.steps
  unfolding work settle
  work-IsProven max st st1 next ms h scanned e =
      let sent = (dispatch max st.locks 0 ms).1 in
      let marked =
        Marks-IsProven st.workflow.context (completed_ids st.workflow.steps) st.workflow.steps ms
          (ready_nodes-Marks st.workflow ms scanned) h in
      let kept = Sends-IsProven ms sent (dispatch-Sends max 0 st.locks ms) marked in
      elim (Bool-cases (any (λ m. m.1) ms)) [
        | inr none_ready ↦
            subst (λ x. All IsProven x.0.workflow.steps) (ok-injective (rw none_ready at e)) marked
        | inl some_ready ↦ elim (Bool-cases (any (λ m. m.1) sent)) [
          | inr none_sent ↦
              subst (λ x. All IsProven x.0.workflow.steps)
                (ok-injective (rw (some_ready, none_sent) at e)) kept
          | inl some_sent ↦
              let (st2, done, last) =
                >>=-eq-ok
                  (complete_all env round
                    (record st {
                      workflow = set_steps st.workflow (marked_steps sent);
                      locks = (dispatch max st.locks 0 ms).0;
                    })
                    (env.arrival round (futures_from 0 sent)))
                  _ (rw (some_ready, some_sent) at e) in
              subst (λ x. All IsProven x.0.workflow.steps) (ok-injective last)
                (complete_all-IsProven (env.arrival round (futures_from 0 sent)) _ st2 kept done)
        ]
      ]

cancel_step-IsProven : (s : WorkflowStep) → IsProven s → IsProven (cancel_step s)
unfolding verified
cancel_step-IsProven s h = ground (arith, h)

module _ (env : Environment) (honest : IsHonest env) (max : ℕ) where
  round_of-IsProven :
      (round : ℕ) (st st1 : RunState) (next : Next)
      → All IsProven st.workflow.steps
      → round_of env max round st ≡ ok (st1, next)
      → All IsProven st1.workflow.steps
  unfolding round_of cancel_workflow
  round_of-IsProven round st st1 next h e =
      let seen = observe_cancel (env.cancels round) st in
      elim (Bool-cases (seen.workflow.cancel_requested || is_cancelled seen.workflow.status)) [
        | inl halted ↦
            subst (λ x. All IsProven x.0.workflow.steps) (ok-injective (rw (halted, round_of) at e))
              (map-IsProven cancel_step st.workflow.steps cancel_step-IsProven h)
        | inr going ↦
            let (ms, scanned, rest) =
              >>=-eq-ok (ready_nodes seen.workflow) _ (rw (going, round_of) at e) in
            work-IsProven env honest round max seen st1 next ms h scanned rest
      ]

  loop_rest :
      (left round : ℕ) (st1 st2 : RunState) (done : Bool) (next : Next)
      → All IsProven st2.workflow.steps
      → (run_loop env max left round st2 ≡ ok (st1, done) → All IsProven st1.workflow.steps)
      → (elim next as (λ _. Result (RunState × Bool)) [
        | leave ↦ ok (st2, true)
        | again ↦ run_loop env max left round st2
      ])
        ≡ ok (st1, done)
      → All IsProven st1.workflow.steps
  loop_rest left round st1 st2 done leave h later e =
      subst (λ x. All IsProven x.0.workflow.steps) (ok-injective e) h
  loop_rest left round st1 st2 done again h later e = later e

  -- When no executor answers COMPLETED without the verdict PASS and the verdict of each COMPLETED node
  -- is PASS, the same holds after any number of rounds.
  pub run_loop-IsProven :
      (left round : ℕ) (st st1 : RunState) (done : Bool)
      → All IsProven st.workflow.steps
      → run_loop env max left round st ≡ ok (st1, done)
      → All IsProven st1.workflow.steps
  unfolding run_loop
  run_loop-IsProven zero round st st1 done h e =
      subst (λ x. All IsProven x.0.workflow.steps) (ok-injective e) h
  run_loop-IsProven (suc left) round st st1 done h e =
      let (r, first, rest) = >>=-eq-ok (round_of env max round st) _ e in
      loop_rest left (round + 1) st1 r.0 done r.1 (round_of-IsProven round st r.0 r.1 h first)
        (run_loop-IsProven left (round + 1) r.0 st1 done
          (round_of-IsProven round st r.0 r.1 h first))
        rest
