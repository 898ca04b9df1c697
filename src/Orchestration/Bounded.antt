-- ===== src/Orchestration/Bounded.antt =====
-- agent_control/workflow/nodes.py: `recover` counts its attempts, and each of its decisions has an edge.
use freaky_monkey.Base.{
  ℕ, String, Bool, true, false, Option, none, some, ◌≡◌, ◌≢◌, ◌⊎◌, inl, inr, refl, arith, subst,
  ◌+◌, ◌<◌, leb, ltb, ◌&&◌, ◌||◌, Bool-cases, if◌then◌else◌,
}
use freaky_monkey.Base.Dict.{contains}
use freaky_monkey.Json.{Params}
use freaky_monkey.Types.Action.{RetrySafety}
use freaky_monkey.Recovery.Retry.{retry_safety, action_can_retry, is_safe}
use freaky_monkey.Workflow.Model.{WorkflowStep, Workflow}
use freaky_monkey.Orchestration.State.{
  GraphState, Adapter, VerdictText, pass, fail, verdict_in, put_step, said_pass, said_unknown,
  said_retry, said_ask_user,
}
use freaky_monkey.Orchestration.Selecting.{is_halted}
use freaky_monkey.Orchestration.Recovering.{
  is_open, is_ask_user, exhausted, retried, unresolved, last_resort, looked_at, strategy, asked,
  counted, noted_step, failure_of, resource_failures, replan_failures, uncertain_failures,
  is_reobserve_first, reverified, verified_by, reobserve, by_category, attempt_recovery,
  recover_from, recover,
}
use freaky_monkey.Orchestration.Routes.{Target, route_after_recover}
use freaky_monkey.Orchestration.Gating.{Reads, at_step-eq-some, some-injective}

-- A property of both branches is one of the conditional.
pub if_of {ℓ κ} :
    {A : Type ℓ} (P : A → Type κ) (b : Bool) {x y : A} → P x → P y → P (if b then x else y)
if_of P true h k = h
if_of P false h k = k

-- The state holds a workflow with a number of attempts and a limit.
abbrev pub Keeps : ℕ → ℕ → GraphState → Type 0
Keeps n most st =
    (w : Workflow) × (st.workflow ≡ some w)
    × (w.recovery_attempts ≡ n)
    × (w.max_recovery_attempts ≡ most)

-- The decision is one that an edge of the graph leads on from.
abbrev pub HasEdge : GraphState → Type 0
HasEdge st = (t : Target) × (route_after_recover st.decision ≡ some t)

-- Both, for the strategies of `recover`.
abbrev pub Tries : ℕ → ℕ → GraphState → Type 0
Tries n most st = Keeps n most st × HasEdge st

module _ (rt : Adapter) (st : GraphState) where
  reverified-Tries :
      (w : Workflow) (i : ℕ) (s : WorkflowStep) (safety : RetrySafety) (v : VerdictText)
      → Tries w.recovery_attempts w.max_recovery_attempts (reverified st w i s safety v)
  unfolding reverified route_after_recover
  reverified-Tries w i s safety pass = ((_, refl, refl, refl), (_, refl))
  reverified-Tries w i s safety fail =
      if_of (Tries w.recovery_attempts w.max_recovery_attempts) (is_safe safety)
        ((_, refl, refl, refl), (_, refl)) ((_, refl, refl, refl), (_, refl))
  reverified-Tries w i s safety _ = ((_, refl, refl, refl), (_, refl))

  verified_by-Tries :
      (hook : Option (Workflow → ℕ → Params)) (w : Workflow) (i : ℕ) (s : WorkflowStep)
      (safety : RetrySafety)
      → Tries w.recovery_attempts w.max_recovery_attempts (verified_by hook st w i s safety)
  unfolding verified_by route_after_recover
  verified_by-Tries none w i s safety = ((_, refl, refl, refl), (_, refl))
  verified_by-Tries (some check) w i s safety =
      reverified-Tries w i (record s { verification = check (put_step w i s) i }) safety
        (verdict_in (check (put_step w i s) i))

  module _ (w : Workflow) (i : ℕ) where
    abbrev pub Tried : GraphState → Type 0
    Tried = Tries w.recovery_attempts w.max_recovery_attempts

    retried-Tried : (s : WorkflowStep) → Tried (retried st w i s)
    unfolding route_after_recover
    retried-Tried s = ((_, refl, refl, refl), (_, refl))

    unresolved_edge :
        (b : Bool)
        → (t : Target) × (route_after_recover (some (if b then said_ask_user else said_unknown))
            ≡ some t)
    unfolding route_after_recover
    unresolved_edge true = (_, refl)
    unresolved_edge false = (_, refl)

    last_resort-Tried :
        (s : WorkflowStep) (failure : String) (safety : RetrySafety)
        → Tried (last_resort st w i s failure safety)
    unfolding last_resort
    last_resort-Tried s failure safety =
        if_of Tried (action_can_retry s.action false) {x = retried st w i s}
          {y = unresolved st w i s failure safety} (retried-Tried s)
          ((_, refl, refl, refl), unresolved_edge (is_ask_user safety))

    by_category-Tried :
        (s : WorkflowStep) (failure : String) (safety : RetrySafety)
        → Tried (by_category rt st w i s failure safety)
    unfolding by_category
    by_category-Tried s failure safety =
        if_of Tried (contains resource_failures failure && asked rt.recover_resource w i)
          {x = retried st w i s} (retried-Tried s)
          (if_of Tried (contains replan_failures failure && asked rt.replan_step w i)
            {x = retried st w i s} (retried-Tried s)
            (last_resort-Tried (looked_at rt w i s failure) failure safety))

    pub strategy-Tried :
        (s : WorkflowStep) (failure : String) (safety : RetrySafety)
        → Tried (strategy rt st w i s failure safety)
    unfolding strategy reobserve
    strategy-Tried s failure safety =
        if_of Tried (contains uncertain_failures failure || is_reobserve_first safety)
          {x = reobserve rt st w i s safety} {y = by_category rt st w i s failure safety}
          (verified_by-Tries rt.verify_step w i (record s { observation = rt.observe_step w i })
            safety)
          (by_category-Tried s failure safety)

  -- No attempt is made: the counters stay, and nothing is retried or completed.
  abbrev pub Stops : Workflow → GraphState → Type 0
  Stops w st' =
      Keeps w.recovery_attempts w.max_recovery_attempts st'
      × (st'.decision ≢ some said_retry)
      × (st'.decision ≢ some said_pass)

  -- An attempt is made below the limit, and it is counted.
  abbrev pub Counts : Workflow → GraphState → Type 0
  Counts w st' =
      (w.recovery_attempts < w.max_recovery_attempts)
      × Keeps (w.recovery_attempts + 1) w.max_recovery_attempts st'

  exhausted-Stops :
      (w : Workflow) (i : ℕ) (s : WorkflowStep) (why : String) → Stops w (exhausted st w i s why)
  unfolding exhausted
  exhausted-Stops w i s why = by_status (is_open s.status) refl
    where
      by_status : (b : Bool) → is_open s.status ≡ b → Stops w (exhausted st w i s why)
      by_status true e = rw (e, exhausted) ((_, refl, refl, refl), λ h. cc, λ h. cc)
      by_status false e = rw (e, exhausted) ((_, refl, refl, refl), λ h. cc, λ h. cc)

  recover_from_lem :
      (w : Workflow) (i : ℕ) (s : WorkflowStep)
      → Stops w (recover_from rt st w i s) ⊎ Counts w (recover_from rt st w i s)
  unfolding recover_from attempt_recovery
  recover_from_lem w i s = elim (Bool-cases (is_halted w)) [
    | inl halted ↦ rw (halted, recover_from) (inl ((_, refl, refl, refl), (λ h. cc), (λ h. cc)))
    | inr going ↦ elim (Bool-cases (ltb s.max_step_retries s.attempt_count)) [
      | inl spent ↦
          rw (going, spent, recover_from) (inl (exhausted-Stops w i s "STEP_RETRY_EXHAUSTED"))
      | inr left ↦ elim (Bool-cases (leb w.max_recovery_attempts w.recovery_attempts)) [
        | inl over ↦
            rw (going, left, over, recover_from) (inl (exhausted-Stops w i s "RECOVERY_EXHAUSTED"))
        | inr under ↦
            rw (going, left, under, recover_from, attempt_recovery)
              (inr (
                ground arith,
                (strategy-Tried (counted w i (noted_step st w s)) i (noted_step st w s)
                    (failure_of st s) (retry_safety s.action)).0,
              ))
      ]
    ]
  ]

-- Each run of `recover` either counts one attempt, and then the attempts were below the limit; or it
-- leaves the count as it was, and its decision is neither RETRY nor PASS. The limit never changes.
pub recover-attempts :
    (rt : Adapter) (st st' : GraphState)
    → recover rt st ≡ some st'
    → (w : Workflow) × (i : ℕ) × (s : WorkflowStep) × Reads st w i s
      × (Stops rt st w st' ⊎ Counts rt st w st')
unfolding recover
recover-attempts rt st st' e =
    let (w, i, s, reads, done) = at_step-eq-some st st' _ e in
    (
      w,
      i,
      s,
      reads,
      subst (λ x. Stops rt st w x ⊎ Counts rt st w x) (some-injective done)
          (recover_from_lem rt st w i s),
    )
