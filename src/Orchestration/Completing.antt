-- ===== src/Orchestration/Completing.antt =====
-- agent_control/workflow/nodes.py: what `verify` and `recover` take for a completed step.
use freaky_monkey.Base.{
  ℕ, String, Bool, true, false, Option, none, some, ◌≡◌, refl, subst, ltb, leb, ◌&&◌, ◌||◌,
  Bool-cases, inl, inr, if◌then◌else◌,
}
use freaky_monkey.Base.Dict.{contains}
use freaky_monkey.Json.{Params}
use freaky_monkey.Types.Action.{RetrySafety}
use freaky_monkey.Recovery.Retry.{retry_safety, action_can_retry, is_safe}
use freaky_monkey.Workflow.Model.{WorkflowStep, Workflow}
use freaky_monkey.Orchestration.State.{
  GraphState, Adapter, VerdictText, pass, fail, verdict_in, put_step, said_pass, said_ask_user,
  said_unknown,
}
use freaky_monkey.Orchestration.Selecting.{is_halted}
use freaky_monkey.Orchestration.Recovering.{
  is_open, is_ask_user, exhausted, reverified, verified_by, reobserve, by_category, retried,
  unresolved, last_resort, looked_at, strategy, asked, counted, noted_step, failure_of,
  resource_failures, replan_failures, uncertain_failures, is_reobserve_first, attempt_recovery,
  recover_from, recover,
}
use freaky_monkey.Orchestration.Gating.{Reads, at_step-eq-some, some-injective}
use freaky_monkey.Orchestration.Bounded.{if_of}

-- A verifier of the runtime answered PASS for the step at a place.
abbrev pub HasPassed : Adapter → ℕ → Type 0
HasPassed rt i =
    (check : Workflow → ℕ → Params) × (v : Workflow) × (rt.verify_step ≡ some check)
    × (verdict_in (check v i) ≡ pass)

abbrev Proves : Adapter → ℕ → GraphState → Type 0
Proves rt i st' = st'.decision ≡ some said_pass → HasPassed rt i

module _ (rt : Adapter) (st : GraphState) (w : Workflow) (i : ℕ) where
  reverified-pass :
      (s : WorkflowStep) (safety : RetrySafety) (v : VerdictText)
      → (reverified st w i s safety v).decision ≡ some said_pass
      → v ≡ pass
  unfolding reverified
  reverified-pass s safety pass = λ d. refl
  reverified-pass s safety fail = elim (Bool-cases (is_safe safety)) [
    | inl safe ↦ rw (safe, reverified) λ d. absurd (cc)
    | inr unsafe ↦ rw (unsafe, reverified) λ d. absurd (cc)
  ]
  reverified-pass s safety _ = λ d. absurd (cc)

  verified_by-Proves :
      (hook : Option (Workflow → ℕ → Params)) (s : WorkflowStep) (safety : RetrySafety)
      → rt.verify_step ≡ hook
      → Proves rt i (verified_by hook st w i s safety)
  unfolding verified_by
  verified_by-Proves none s safety h = λ d. absurd (cc)
  verified_by-Proves (some check) s safety h = λ d. (
    check,
    put_step w i s,
    h,
    reverified-pass (record s { verification = check (put_step w i s) i }) safety
        (verdict_in (check (put_step w i s) i)) d,
  )

  unresolved-Proves :
      (s : WorkflowStep) (failure : String) (safety : RetrySafety)
      → Proves rt i (unresolved st w i s failure safety)
  unresolved-Proves s failure safety = by_safety (is_ask_user safety)
    where
      by_safety :
          (b : Bool)
          → (some (if b then said_ask_user else said_unknown) ≡ some said_pass)
          → HasPassed rt i
      by_safety true d = absurd (cc)
      by_safety false d = absurd (cc)

  strategy-Proves :
      (s : WorkflowStep) (failure : String) (safety : RetrySafety)
      → Proves rt i (strategy rt st w i s failure safety)
  unfolding strategy reobserve by_category last_resort
  strategy-Proves s failure safety =
      if_of (Proves rt i) (contains uncertain_failures failure || is_reobserve_first safety)
        {x = reobserve rt st w i s safety} {y = by_category rt st w i s failure safety}
        (verified_by-Proves rt.verify_step (record s { observation = rt.observe_step w i }) safety
          refl)
        (if_of (Proves rt i) (contains resource_failures failure && asked rt.recover_resource w i)
          {x = retried st w i s} (λ d. absurd (cc))
          (if_of (Proves rt i) (contains replan_failures failure && asked rt.replan_step w i)
            {x = retried st w i s} (λ d. absurd (cc))
            (if_of (Proves rt i) (action_can_retry (looked_at rt w i s failure).action false)
              {x = retried st w i (looked_at rt w i s failure)}
              {y = unresolved st w i (looked_at rt w i s failure) failure safety} (λ d. absurd (cc))
              (unresolved-Proves (looked_at rt w i s failure) failure safety))))

  exhausted-Proves : (s : WorkflowStep) (why : String) → Proves rt i (exhausted st w i s why)
  unfolding exhausted
  exhausted-Proves s why = elim (Bool-cases (is_open s.status)) [
    | inl e ↦ rw (e, exhausted) λ d. absurd (cc)
    | inr e ↦ rw (e, exhausted) λ d. absurd (cc)
  ]

recover_from-Proves :
    (rt : Adapter) (st : GraphState) (w : Workflow) (i : ℕ) (s : WorkflowStep)
    → Proves rt i (recover_from rt st w i s)
unfolding recover_from attempt_recovery
recover_from-Proves rt st w i s = elim (Bool-cases (is_halted w)) [
  | inl halted ↦ rw (halted, recover_from) λ d. absurd (cc)
  | inr going ↦ elim (Bool-cases (ltb s.max_step_retries s.attempt_count)) [
    | inl spent ↦
        rw (going, spent, recover_from) (exhausted-Proves rt st w i s "STEP_RETRY_EXHAUSTED")
    | inr left ↦ elim (Bool-cases (leb w.max_recovery_attempts w.recovery_attempts)) [
      | inl over ↦
          rw (going, left, over, recover_from) (exhausted-Proves rt st w i s "RECOVERY_EXHAUSTED")
      | inr under ↦
          rw (going, left, under, recover_from, attempt_recovery)
            (strategy-Proves rt st (counted w i (noted_step st w s)) i (noted_step st w s)
              (failure_of st s) (retry_safety s.action))
    ]
  ]
]

-- `recover` decides PASS only when the runtime has a verifier of its own and that verifier, asked for
-- the current step, has answered PASS: never from what an execution reported.
pub recover-HasPassed :
    (rt : Adapter) (st st1 : GraphState)
    → recover rt st ≡ some st1
    → st1.decision ≡ some said_pass
    → (w : Workflow) × (i : ℕ) × (s : WorkflowStep) × Reads st w i s × HasPassed rt i
unfolding recover
recover-HasPassed rt st st1 e d =
    let (w, i, s, reads, done) = at_step-eq-some st st1 _ e in
    (w, i, s, reads, subst (Proves rt i) (some-injective done) (recover_from-Proves rt st w i s) d)
