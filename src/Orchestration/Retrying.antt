-- ===== src/Orchestration/Retrying.antt =====
-- agent_control/workflow/nodes.py: what becomes of a step that `recover` wants retried.
use mathlib.Core.Option
use freaky_monkey.Base.{
  ℕ, zero, suc, String, Bool, true, false, Option, none, some, List, [], ◌∷◌, ◌≡◌, ◌≢◌, refl, sym,
  ap, ◌∙◌, arith, subst, map, All, all, first, get_elem?, ltb, leb, ◌&&◌, ◌||◌, Bool-cases, inl,
  inr, ◌⊎◌, Option-cases, if◌then◌else◌,
}
use freaky_monkey.Base.Dict.{contains}
use freaky_monkey.Json.{Params}
use freaky_monkey.Types.Action.{RetrySafety}
use freaky_monkey.Recovery.Retry.{retry_safety, action_can_retry, is_safe}
use freaky_monkey.Workflow.Status.{StepStatus, WorkflowStatus, reloaded, is_completed}
use freaky_monkey.Workflow.Model.{WorkflowStep, Workflow}
use freaky_monkey.Workflow.Ready.{aggregate, completed_ids, deps_done}
use freaky_monkey.Workflow.Rounds.{set_step}
use freaky_monkey.Workflow.Aggregate.{aggregate-completed_iff}
use freaky_monkey.Orchestration.State.{
  GraphState, Adapter, VerdictText, pass, fail, verdict_in, reload, reload_step, put_step,
  said_retry, said_ask_user, said_unknown, said_terminal,
}
use freaky_monkey.Orchestration.Selecting.{
  is_pending, is_halted, next_runnable_step, end_steps, advance_to, next_step,
  is_completed_workflow, with_status, failed,
}
use freaky_monkey.Orchestration.Recovering.{
  is_open, is_ask_user, exhausted, reverified, verified_by, reobserve, by_category, retried,
  unresolved, last_resort, looked_at, strategy, asked, counted, noted_step, failure_of,
  resource_failures, replan_failures, uncertain_failures, is_reobserve_first, attempt_recovery,
  recover_from, recover,
}
use freaky_monkey.Orchestration.Routes.{
  to, finish, at_failed, at_next, at_recover, advance, run_node, route, route_after_next,
  route_after_recover,
}
use freaky_monkey.Orchestration.Gating.{Reads, at_step-Reads, advance-some, some-injective}
use freaky_monkey.Orchestration.Bounded.{if_of}
use freaky_monkey.Orchestration.Steady.{get_elem?-set_step, current-gets}

-- A step that the next node does not see as PENDING.
abbrev pub NotPending : WorkflowStep → Type 0
NotPending s = is_pending (reloaded s.status) ≡ false

-- Some step is not COMPLETED as the next node sees it.
abbrev Unfinished : List WorkflowStep → Type 0
Unfinished ss = all is_completed (map (λ s. s.status) (map reload_step ss)) ≡ false

All-set_step :
    (ss : List WorkflowStep) (i : ℕ) (t : WorkflowStep)
    → All NotPending ss
    → NotPending t
    → All NotPending (set_step ss i t)
All-set_step [] i t h k = tt
All-set_step (s ∷ ss) zero t h k = (k, h.1)
All-set_step (s ∷ ss) (suc i) t h k = (h.0, All-set_step ss i t h.1 k)

set_step-Unfinished :
    (ss : List WorkflowStep) (i : ℕ) (s t : WorkflowStep)
    → get_elem? ss i ≡ some s
    → is_completed (reloaded t.status) ≡ false
    → Unfinished (set_step ss i t)
set_step-Unfinished [] i s t e k = cc
set_step-Unfinished (u ∷ ss) zero s t e k = rw k refl
set_step-Unfinished (u ∷ ss) (suc i) s t e k = ground (arith, set_step-Unfinished ss i s t e k)

-- The steps when a retry was decided.
abbrev Waits : GraphState → Type 0
Waits st' =
    st'.decision ≡ some said_retry
    → (w : Workflow) × (st'.workflow ≡ some w) × All NotPending w.steps × Unfinished w.steps

module _ (rt : Adapter) (st : GraphState) (w : Workflow) (i : ℕ) (u : WorkflowStep)
    (quiet : All NotPending w.steps) (here : get_elem? w.steps i ≡ some u) where
  retried-Waits : (s : WorkflowStep) → Waits (retried st w i s)
  retried-Waits s d = (
    _,
    refl,
    All-set_step w.steps i (record s { status = StepStatus.ready }) quiet refl,
    set_step-Unfinished w.steps i u (record s { status = StepStatus.ready }) here refl,
  )

  reverified-Waits :
      (s : WorkflowStep) (safety : RetrySafety) (v : VerdictText)
      → Waits (reverified st w i s safety v)
  unfolding reverified
  reverified-Waits s safety pass = λ d. absurd (cc)
  reverified-Waits s safety fail = elim (Bool-cases (is_safe safety)) [
    | inl safe ↦
        rw (safe, reverified)
          λ d. (
            _,
            refl,
            All-set_step w.steps i (record s { status = StepStatus.ready }) quiet refl,
            set_step-Unfinished w.steps i u (record s { status = StepStatus.ready }) here refl,
          )
    | inr unsafe ↦ rw (unsafe, reverified) λ d. absurd (cc)
  ]
  reverified-Waits s safety _ = λ d. absurd (cc)

  verified_by-Waits :
      (hook : Option (Workflow → ℕ → Params)) (s : WorkflowStep) (safety : RetrySafety)
      → Waits (verified_by hook st w i s safety)
  unfolding verified_by
  verified_by-Waits none s safety = λ d. absurd (cc)
  verified_by-Waits (some check) s safety =
      reverified-Waits (record s { verification = check (put_step w i s) i }) safety
        (verdict_in (check (put_step w i s) i))

  unresolved-Waits :
      (s : WorkflowStep) (failure : String) (safety : RetrySafety)
      → Waits (unresolved st w i s failure safety)
  unresolved-Waits s failure safety = by_safety (is_ask_user safety)
    where
      by_safety :
          (b : Bool)
          → (some (if b then said_ask_user else said_unknown) ≡ some said_retry)
          → (w1 : Workflow) × ((unresolved st w i s failure safety).workflow ≡ some w1)
            × All NotPending w1.steps
            × Unfinished w1.steps
      by_safety true d = absurd (cc)
      by_safety false d = absurd (cc)

  strategy-Waits :
      (s : WorkflowStep) (failure : String) (safety : RetrySafety)
      → Waits (strategy rt st w i s failure safety)
  unfolding strategy reobserve by_category last_resort
  strategy-Waits s failure safety =
      if_of Waits (contains uncertain_failures failure || is_reobserve_first safety)
        {x = reobserve rt st w i s safety} {y = by_category rt st w i s failure safety}
        (verified_by-Waits rt.verify_step (record s { observation = rt.observe_step w i }) safety)
        (if_of Waits (contains resource_failures failure && asked rt.recover_resource w i)
          {x = retried st w i s} (retried-Waits s)
          (if_of Waits (contains replan_failures failure && asked rt.replan_step w i)
            {x = retried st w i s} (retried-Waits s)
            (if_of Waits (action_can_retry (looked_at rt w i s failure).action false)
              {x = retried st w i (looked_at rt w i s failure)}
              {y = unresolved st w i (looked_at rt w i s failure) failure safety}
              (retried-Waits (looked_at rt w i s failure))
              (unresolved-Waits (looked_at rt w i s failure) failure safety))))

All-get_elem? :
    (ss : List WorkflowStep) (i : ℕ) (s : WorkflowStep)
    → All NotPending ss
    → get_elem? ss i ≡ some s
    → NotPending s
All-get_elem? [] i s h e = cc
All-get_elem? (u ∷ ss) zero s h e = subst NotPending (some-injective e) h.0
All-get_elem? (u ∷ ss) (suc i) s h e = All-get_elem? ss i s h.1 e

exhausted-Waits :
    (st : GraphState) (w : Workflow) (i : ℕ) (s : WorkflowStep) (why : String)
    → Waits (exhausted st w i s why)
unfolding exhausted
exhausted-Waits st w i s why = elim (Bool-cases (is_open s.status)) [
  | inl e ↦ rw (e, exhausted) λ d. absurd (cc)
  | inr e ↦ rw (e, exhausted) λ d. absurd (cc)
]

recover_from-Waits :
    (rt : Adapter) (st : GraphState) (w : Workflow) (i : ℕ) (s : WorkflowStep)
    → All NotPending w.steps
    → get_elem? w.steps i ≡ some s
    → Waits (recover_from rt st w i s)
unfolding recover_from attempt_recovery
recover_from-Waits rt st w i s quiet here = elim (Bool-cases (is_halted w)) [
  | inl halted ↦ rw (halted, recover_from) λ d. absurd (cc)
  | inr going ↦ elim (Bool-cases (ltb s.max_step_retries s.attempt_count)) [
    | inl spent ↦ rw (going, spent, recover_from) (exhausted-Waits st w i s "STEP_RETRY_EXHAUSTED")
    | inr left ↦ elim (Bool-cases (leb w.max_recovery_attempts w.recovery_attempts)) [
      | inl over ↦
          rw (going, left, over, recover_from) (exhausted-Waits st w i s "RECOVERY_EXHAUSTED")
      | inr under ↦
          rw (going, left, under, recover_from, attempt_recovery)
            (strategy-Waits rt st (counted w i s') i s'
              (All-set_step w.steps i s' quiet (All-get_elem? w.steps i s quiet here))
              (get_elem?-set_step w.steps i s s' here) s' (failure_of st s) (retry_safety s.action))
    ]
  ]
]
  where
    s' : WorkflowStep
    s' = noted_step st w s

first-none :
    (done : List String) (ss : List WorkflowStep)
    → All NotPending ss
    → first (λ s. is_pending s.status && deps_done done s) (map reload_step ss) ≡ none
first-none done [] h = refl
first-none done (s ∷ ss) h = rw h.0 (first-none done ss h.1)

not-Completed :
    (t : WorkflowStatus) → t ≢ WorkflowStatus.completed → is_completed_workflow t ≡ false
not-Completed WorkflowStatus.completed n = absurd (n refl)
not-Completed WorkflowStatus.running n = refl
not-Completed _ n = refl

aggregate-not_completed :
    (w : Workflow) → Unfinished w.steps → aggregate (reload w) ≢ WorkflowStatus.completed
unfolding reload
aggregate-not_completed w h e = cc (h, ((aggregate-completed_iff (reload w)).0 e).1)

end_steps-terminal :
    (w : Workflow) (st : GraphState)
    → is_completed_workflow w.status ≡ false
    → (end_steps w st).decision ≡ some said_terminal
unfolding end_steps
end_steps-terminal w st e = rw (e, end_steps) refl

next_step-ends :
    (st : GraphState) (w : Workflow)
    → st.workflow ≡ some w
    → All NotPending w.steps
    → Unfinished w.steps
    → (st' : GraphState) × (next_step st ≡ some st') × (st'.decision ≡ some said_terminal)
unfolding next_step next_runnable_step advance_to reload
next_step-ends st w here quiet open_here = (
  advance_to st (reload w) none,
  ap
        (λ o. elim (Option.map reload o) as (λ _. Option GraphState) [
          | none ↦ none
          | some v ↦ some (advance_to st v (next_runnable_step v))
        ])
        here
      ∙ ap (λ o. some (advance_to st (reload w) o))
          (first-none (completed_ids (reload w).steps) w.steps quiet),
  end_steps-terminal (with_status (reload w) (aggregate (reload w))) st
      (not-Completed (aggregate (reload w)) (aggregate-not_completed w open_here)),
)

-- The node `failed` is the last one: it ends the graph, or it raises.
abbrev pub EndsAtFailed : Adapter → GraphState → Type 0
EndsAtFailed rt st =
    (advance rt at_failed st ≡ none)
    ⊎ ((st' : GraphState) × (advance rt at_failed st ≡ some (finish, st')))

failed-ends : (rt : Adapter) (st : GraphState) → EndsAtFailed rt st
unfolding advance run_node route
failed-ends rt st = elim (Option-cases (failed st)) [
  | inl raises ↦ inl (rw (raises, advance, run_node) refl)
  | inr (st', ends) ↦ inr (st', advance-some rt at_failed st st' finish ends refl)
]

-- When `recover` decides RETRY and no step of the workflow is PENDING or BLOCKED: the edge of `recover`
-- leads to `next_step`, which finds no step to run, since the step to be retried is READY and not
-- PENDING; the edge of `next_step` leads to `failed`, which ends the graph or raises. No node that
-- executes a step is entered on the way.
pub recover-retry_fails :
    (rt : Adapter) (st st1 : GraphState) (w : Workflow) (i : ℕ) (s : WorkflowStep)
    → Reads st w i s
    → All NotPending w.steps
    → recover rt st ≡ some st1
    → st1.decision ≡ some said_retry
    → (st2 : GraphState) × (advance rt at_recover st ≡ some (to at_next, st1))
      × (advance rt at_next st1 ≡ some (to at_failed, st2))
      × EndsAtFailed rt st2
unfolding recover run_node route route_after_next route_after_recover
recover-retry_fails rt st st1 w i s reads quiet e d =
    let same : recover_from rt st w i s ≡ st1 =
      some-injective (sym (at_step-Reads st _ w i s reads) ∙ e) in
    let (w1, flow, still, open_here) =
      subst Waits same (recover_from-Waits rt st w i s quiet (current-gets w i s reads.1).1) d in
    let (st2, ran, ended) = next_step-ends st1 w1 flow still open_here in
    (
      st2,
      advance-some rt at_recover st st1 (to at_next) e (ap route_after_recover d),
      advance-some rt at_next st1 st2 (to at_failed) ran
          (ap (λ o. some (route_after_next o)) ended),
      failed-ends rt st2,
    )
