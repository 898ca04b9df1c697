-- ===== src/Orchestration/Edges.antt =====
-- agent_control/workflow/nodes.py and graph.py: what happens between `verify` and `recover`.
use freaky_monkey.Base.{
  ℕ, String, Bool, true, Option, some, ◌≡◌, inl, inr, refl, sym, ap, ◌∙◌, subst, leb, ltb,
  Bool-cases, if◌then◌else◌,
}
use freaky_monkey.Types.Action.{RetrySafety}
use freaky_monkey.Recovery.Retry.{retry_safety}
use freaky_monkey.Workflow.Status.{StepStatus, WorkflowStatus}
use freaky_monkey.Workflow.Model.{WorkflowStep, Workflow}
use freaky_monkey.Orchestration.State.{
  GraphState, Adapter, VerdictText, pass, fail, unknown, other, verdict_in, or_none, said_cancelled,
}
use freaky_monkey.Orchestration.Selecting.{is_halted}
use freaky_monkey.Orchestration.Acting.{step_and_flow}
use freaky_monkey.Orchestration.Executing.{or_text, or_else, apply_verdict, verify}
use freaky_monkey.Orchestration.Recovering.{
  is_open, exhausted, strategy, attempt_recovery, recover_from, recover, counted, noted_step,
  failure_of,
}
use freaky_monkey.Orchestration.Routes.{
  Target, to, at_failed, at_recover, at_verify, route_after_recover, route_after_verify, route,
  run_node, advance,
}
use freaky_monkey.Orchestration.Gating.{
  Reads, at_step-eq-some, at_step-Reads, some-injective, advance-some,
}
use freaky_monkey.Orchestration.Bounded.{HasEdge, strategy-Tried}
use freaky_monkey.Orchestration.Steady.{put-Reads}

exhausted-HasEdge :
    (st : GraphState) (w : Workflow) (i : ℕ) (s : WorkflowStep) (why : String)
    → is_open s.status ≡ true
    → HasEdge (exhausted st w i s why)
unfolding exhausted route_after_recover
exhausted-HasEdge st w i s why open_here = rw (open_here, exhausted) (to at_failed, refl)

recover_from-HasEdge :
    (rt : Adapter) (st : GraphState) (w : Workflow) (i : ℕ) (s : WorkflowStep)
    → is_open s.status ≡ true
    → HasEdge (recover_from rt st w i s)
unfolding recover_from attempt_recovery route_after_recover
recover_from-HasEdge rt st w i s open_here = elim (Bool-cases (is_halted w)) [
  | inl halted ↦ rw (halted, recover_from) (to at_failed, refl)
  | inr going ↦ elim (Bool-cases (ltb s.max_step_retries s.attempt_count)) [
    | inl spent ↦
        rw (going, spent, recover_from)
          (exhausted-HasEdge st w i s "STEP_RETRY_EXHAUSTED" open_here)
    | inr left ↦ elim (Bool-cases (leb w.max_recovery_attempts w.recovery_attempts)) [
      | inl over ↦
          rw (going, left, over, recover_from)
            (exhausted-HasEdge st w i s "RECOVERY_EXHAUSTED" open_here)
      | inr under ↦
          rw (going, left, under, recover_from, attempt_recovery)
            (strategy-Tried rt st (counted w i (noted_step st w s)) i (noted_step st w s)
              (failure_of st s) (retry_safety s.action)).1
    ]
  ]
]

-- What `verify` leaves for `recover`: the step to recover, and the failure class.
abbrev ForRecovery : GraphState → Type 0
ForRecovery st =
    ((w : Workflow) × (i : ℕ) × (s : WorkflowStep) × Reads st w i s × (is_open s.status ≡ true))
    × (st.failure_class ≡ some "INCONCLUSIVE")

verdict-ForRecovery :
    (st : GraphState) (w : Workflow) (i : ℕ) (s : WorkflowStep) (v : VerdictText)
    → Reads st w i s
    → route_after_verify (apply_verdict st w i s v).decision ≡ to at_recover
    → ForRecovery (apply_verdict st w i s v)
unfolding apply_verdict route_after_verify
verdict-ForRecovery st w i s pass reads led = absurd (cc)
verdict-ForRecovery st w i s unknown reads led = (
  (
    _,
    i,
    _,
    put-Reads st (apply_verdict st w i s unknown) w _ i s
        (record s {
          verification = st.step_verification;
          failure_category = some "verification_unknown";
          status = StepStatus.recovery_required;
        })
        reads refl refl refl refl refl,
    refl,
  ),
  refl,
)
verdict-ForRecovery st w i s fail reads led = absurd (cc)
verdict-ForRecovery st w i s other reads led = absurd (cc)

verify-ForRecovery :
    (st st1 : GraphState)
    → verify st ≡ some st1
    → route at_verify st1 ≡ some (to at_recover)
    → ForRecovery st1
unfolding verify route
verify-ForRecovery st st1 e r =
    let (w, i, s, reads, done) = at_step-eq-some st st1 _ e in
    let same : apply_verdict st w i s (verdict_in st.step_verification) ≡ st1 =
      some-injective done in
    subst ForRecovery same (
      verdict-ForRecovery st w i s (verdict_in st.step_verification) reads
        (ap (λ x. route_after_verify x.decision) same ∙ some-injective r))

-- When `verify` has ended and its edge leads to `recover`, then `recover` ends with a state too, and
-- the graph has an edge for the decision that it leaves.
pub verify-recover_advances :
    (rt : Adapter) (st st1 : GraphState)
    → verify st ≡ some st1
    → route at_verify st1 ≡ some (to at_recover)
    → (t : Target) × (st2 : GraphState) × (advance rt at_recover st1 ≡ some (t, st2))
unfolding recover run_node route
verify-recover_advances rt st st1 e r =
    let ((w, i, s, reads, open_here), _) = verify-ForRecovery st st1 e r in
    let (t, edge) = recover_from-HasEdge rt st1 w i s open_here in
    (
      t,
      recover_from rt st1 w i s,
      advance-some rt at_recover st1 (recover_from rt st1 w i s) t (at_step-Reads st1 _ w i s reads)
          edge,
    )

-- The strategy for an uncertain failure asks neither hook.
strategy_unasked :
    (rt : Adapter) (resource replan : Option (Workflow → ℕ → Bool)) (st : GraphState) (w : Workflow)
    (i : ℕ) (s : WorkflowStep) (safety : RetrySafety)
    → strategy
        (record rt { recover_resource = resource; replan_step = replan })
        st
        w
        i
        s
        "INCONCLUSIVE"
        safety
      ≡ strategy rt st w i s "INCONCLUSIVE" safety
unfolding strategy
strategy_unasked rt resource replan st w i s safety = refl

attempt_unasked :
    (rt : Adapter) (resource replan : Option (Workflow → ℕ → Bool)) (st : GraphState) (w : Workflow)
    (i : ℕ) (s : WorkflowStep)
    → st.failure_class ≡ some "INCONCLUSIVE"
    → attempt_recovery (record rt { recover_resource = resource; replan_step = replan }) st w i s
      ≡ attempt_recovery rt st w i s
unfolding attempt_recovery
attempt_unasked rt resource replan st w i s h =
    ap
      (λ f.
        strategy (record rt { recover_resource = resource; replan_step = replan }) st w' i s' f
          (retry_safety s.action))
      known
    ∙ strategy_unasked rt resource replan st w' i s' (retry_safety s.action)
    ∙ ap (λ f. strategy rt st w' i s' f (retry_safety s.action)) (sym known)
  where
    s' : WorkflowStep
    s' = noted_step st w s

    w' : Workflow
    w' = counted w i s'

    known : failure_of st s ≡ "INCONCLUSIVE"
    known =
        ap (λ o. or_text (or_else (or_none o) (or_none s.failure_category)) "execution_exception") h

recover_from_unasked :
    (rt : Adapter) (resource replan : Option (Workflow → ℕ → Bool)) (st : GraphState) (w : Workflow)
    (i : ℕ) (s : WorkflowStep)
    → st.failure_class ≡ some "INCONCLUSIVE"
    → recover_from (record rt { recover_resource = resource; replan_step = replan }) st w i s
      ≡ recover_from rt st w i s
unfolding recover_from
recover_from_unasked rt resource replan st w i s h =
    ap
      (λ x.
        if is_halted w
        then record st {
          workflow = some (step_and_flow w i s StepStatus.cancelled WorkflowStatus.cancelled);
          decision = some said_cancelled;
        }
        else if ltb s.max_step_retries s.attempt_count
        then exhausted st w i s "STEP_RETRY_EXHAUSTED"
        else if leb w.max_recovery_attempts w.recovery_attempts
        then exhausted st w i s "RECOVERY_EXHAUSTED"
        else x)
      (attempt_unasked rt resource replan st w i s h)

-- When the edge after `verify` has led to `recover`, what `recover` does is the same for every
-- resource hook and every hook that plans anew, whatever failure the execution reported: the
-- strategies that call them are not reached.
pub recover-hooks_unused :
    (rt : Adapter) (resource replan : Option (Workflow → ℕ → Bool)) (st st1 : GraphState)
    → verify st ≡ some st1
    → route at_verify st1 ≡ some (to at_recover)
    → recover (record rt { recover_resource = resource; replan_step = replan }) st1 ≡ recover rt st1
unfolding recover
recover-hooks_unused rt resource replan st st1 e r =
    let ((w, i, s, reads, open_here), class) = verify-ForRecovery st st1 e r in
    at_step-Reads st1 _ w i s reads
    ∙ ap some (recover_from_unasked rt resource replan st1 w i s class)
    ∙ sym (at_step-Reads st1 _ w i s reads)
