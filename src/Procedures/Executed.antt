-- ===== src/Procedures/Executed.antt =====
-- agent_control/procedure_execution.py: what was executed, and what a result says of it.
use freaky_monkey.Base.{
  ℕ, suc, true, false, Option, none, some, List, [], ◌∷◌, ◌≡◌, ◌≢◌, ◌⊎◌, ◌≤◌, String, refl, ap, sym,
  ◌∙◌, arith, All, inl, inr, leb, length, if◌then◌else◌, Bool-cases,
}
use freaky_monkey.Types.Failure.{FailureClass}
use freaky_monkey.Types.Action.{Action, ActionResult}
use freaky_monkey.Policy.Paths.{
  Host, Policy, Outcome, ok, denied, raised, Decision, allow, confirm, deny,
}
use freaky_monkey.Policy.Gate.{check, Reason}
use freaky_monkey.Orchestration.Bounded.{if_of}
use freaky_monkey.Procedures.Binding.{
  ProcedureMatch, FailureReason, procedure_step_budget_exceeded, skill_registry_missing, Built,
  built, refused, build_actions,
}
use freaky_monkey.Procedures.Execution.{
  executed, ExecutionResult, Execution, threw, returned, Skill, Skills, failure, Admission,
  turned_away, admitted, by_decision, admission, Ending, early, through, run_actions, admitted_run,
  executed_run, concluded, run_built, guard, guarded, execute_procedure,
}

module _ (h : Host) (p : Policy) where
  -- The policy allows the action.
  abbrev pub IsAllowed : Action → Type 0
  IsAllowed a = (why : Reason) × (check h p a ≡ ok (allow, why))

  by_decision-allow :
      (skills : Skills) (a : Action) (o : Outcome (Decision × Reason)) {s : Skill}
      → by_decision skills a o ≡ admitted s
      → (why : Reason) × (o ≡ ok (allow, why))
  by_decision-allow skills a (ok (allow, why)) e = (why, refl)
  by_decision-allow skills a (ok (confirm, why)) e = cc
  by_decision-allow skills a (ok (deny, why)) e = cc
  by_decision-allow skills a (denied d) e = cc
  by_decision-allow skills a raised e = cc

  module _ (skills : Skills) (m : ProcedureMatch) where
    admission-IsAllowed :
        (a : Action) {s : Skill} → admission h p skills a ≡ admitted s → IsAllowed a
    unfolding admission
    admission-IsAllowed a e = by_decision-allow skills a (check h p a) e

    -- A loop from any number of results.
    abbrev Rest : Type 0
    Rest = ℕ → List ActionResult → Option (Skill × Action) → Ending × List Action

    -- What the loop hands to executors is allowed, when it is so of the loop over the actions after it.
    executed_run-IsAllowed :
        (loop : Rest) (a : Action) (n : ℕ) (results : List ActionResult) (s : Skill) (x : Execution)
        → ((k : ℕ) (rs : List ActionResult) (last : Option (Skill × Action))
            → All IsAllowed (loop k rs last).1)
        → IsAllowed a
        → All IsAllowed (executed_run h p skills m loop a n results s x).1
    executed_run-IsAllowed loop a n results s (threw kind) after fine = (fine, tt)
    executed_run-IsAllowed loop a n results s (returned false error failure_class) after fine =
        (fine, tt)
    executed_run-IsAllowed loop a n results s (returned true error failure_class) after fine =
        (fine, after (suc n) _ _)

    admitted_run-IsAllowed :
        (loop : Rest) (a : Action) (n : ℕ) (results : List ActionResult) (d : Admission)
        → ((k : ℕ) (rs : List ActionResult) (last : Option (Skill × Action))
            → All IsAllowed (loop k rs last).1)
        → admission h p skills a ≡ d
        → All IsAllowed (admitted_run h p skills m loop a n results d).1
    admitted_run-IsAllowed loop a n results (turned_away why) after e = tt
    admitted_run-IsAllowed loop a n results (admitted s) after e =
        executed_run-IsAllowed loop a n results s (s.execute n a) after (admission-IsAllowed a e)

    run_actions-IsAllowed :
        (todo : List Action) (n : ℕ) (results : List ActionResult) (last : Option (Skill × Action))
        → All IsAllowed (run_actions h p skills m todo n results last).1
    unfolding run_actions
    run_actions-IsAllowed [] n results last = tt
    run_actions-IsAllowed (a ∷ rest) n results last =
        admitted_run-IsAllowed (run_actions h p skills m rest) a n results (admission h p skills a)
          (run_actions-IsAllowed rest) refl

    -- An early end is no execution, and a loop that goes through has executed all it was given.
    abbrev IsFull : List Action → Ending × List Action → Type 0
    IsFull todo (early r, log) = r.execution_status ≢ executed
    IsFull todo (through last results, log) = log ≡ todo

    later-IsFull :
        (a : Action) (rest : List Action) (out : Ending × List Action)
        → IsFull rest out
        → IsFull (a ∷ rest) (out.0, a ∷ out.1)
    later-IsFull a rest (early r, log) full = full
    later-IsFull a rest (through last results, log) full = ap (λ l. a ∷ l) full

    executed_run-IsFull :
        (loop : Rest) (a : Action) (rest : List Action) (n : ℕ) (results : List ActionResult)
        (s : Skill) (x : Execution)
        → ((k : ℕ) (rs : List ActionResult) (last : Option (Skill × Action))
            → IsFull rest (loop k rs last))
        → IsFull (a ∷ rest) (executed_run h p skills m loop a n results s x)
    executed_run-IsFull loop a rest n results s (threw kind) after = λ e. cc
    executed_run-IsFull loop a rest n results s (returned false error failure_class) after = λ e. cc
    executed_run-IsFull loop a rest n results s (returned true error failure_class) after =
        later-IsFull a rest _ (after (suc n) _ _)

    admitted_run-IsFull :
        (loop : Rest) (a : Action) (rest : List Action) (n : ℕ) (results : List ActionResult)
        (d : Admission)
        → ((k : ℕ) (rs : List ActionResult) (last : Option (Skill × Action))
            → IsFull rest (loop k rs last))
        → IsFull (a ∷ rest) (admitted_run h p skills m loop a n results d)
    admitted_run-IsFull loop a rest n results (turned_away why) after = λ e. cc
    admitted_run-IsFull loop a rest n results (admitted s) after =
        executed_run-IsFull loop a rest n results s (s.execute n a) after

    run_actions-IsFull :
        (todo : List Action) (n : ℕ) (results : List ActionResult) (last : Option (Skill × Action))
        → IsFull todo (run_actions h p skills m todo n results last)
    unfolding run_actions
    run_actions-IsFull [] n results last = refl
    run_actions-IsFull (a ∷ rest) n results last =
        admitted_run-IsFull (run_actions h p skills m rest) a rest n results
          (admission h p skills a) (run_actions-IsFull rest)

    concluded-IsAllowed :
        (out : Ending × List Action)
        → All IsAllowed out.1
        → All IsAllowed (concluded h p skills m out).1
    concluded-IsAllowed (early r, log) fine = fine
    concluded-IsAllowed (through none results, log) fine = fine
    concluded-IsAllowed (through (some last) results, log) fine = fine

    run_built-IsAllowed :
        (most : ℕ) (b : Built (List Action)) → All IsAllowed (run_built h p skills m most b).1
    unfolding run_built
    run_built-IsAllowed most (refused why) = tt
    run_built-IsAllowed most (built todo) =
        if_of (λ (out : ExecutionResult × List Action). All IsAllowed out.1)
          (leb (length todo) (if leb 1 most then most else 1))
          {x = concluded h p skills m (run_actions h p skills m todo 0 [] none)}
          {y = (failure m procedure_step_budget_exceeded, [])}
          (concluded-IsAllowed (run_actions h p skills m todo 0 [] none)
            (run_actions-IsAllowed todo 0 [] none))
          tt

    -- A run that says EXECUTED has handed every action to an executor, in the order of the steps.
    concluded-executed :
        (todo : List Action) (out : Ending × List Action)
        → IsFull todo out
        → (concluded h p skills m out).0.execution_status ≡ executed
        → (concluded h p skills m out).1 ≡ todo
    concluded-executed todo (early r, log) full e = absurd (full e)
    concluded-executed todo (through none results, log) full e = full
    concluded-executed todo (through (some last) results, log) full e = full

    run_built-executed :
        (most : ℕ) (b : Built (List Action))
        → (run_built h p skills m most b).0.execution_status ≡ executed
        → b ≡ built (run_built h p skills m most b).1
    unfolding run_built
    run_built-executed most (refused why) e = cc
    run_built-executed most (built todo) e =
        elim (Bool-cases (leb (length todo) (if leb 1 most then most else 1))) [
          | inl few ↦ rw few (
              ap built (
                sym (
                  concluded-executed todo _ (run_actions-IsFull todo 0 [] none)
                    (ground (arith, few, e)))))
          | inr many ↦ absurd (ground (arith, many, e))
        ]

  guarded-IsAllowed :
      (m : ProcedureMatch) (g : Option FailureReason) (out : ExecutionResult × List Action)
      → All IsAllowed out.1
      → All IsAllowed (guarded m g out).1 × (((guarded m g out).1 ≡ []) ⊎ (g ≡ none))
  guarded-IsAllowed m none out fine = (fine, inr refl)
  guarded-IsAllowed m (some why) out fine = (tt, inl refl)

  guarded_empty :
      (m : ProcedureMatch) (g : Option FailureReason) (out : ExecutionResult × List Action)
      → out.1 ≡ []
      → (guarded m g out).1 ≡ []
  guarded_empty m none out h = h
  guarded_empty m (some why) out h = refl

  guarded-executed :
      (m : ProcedureMatch) (g : Option FailureReason) (out : ExecutionResult × List Action)
      → (guarded m g out).0.execution_status ≡ executed
      → guarded m g out ≡ out
  guarded-executed m none out e = refl
  guarded-executed m (some why) out e = cc

  -- Every action that `execute_procedure` hands to an executor is one that `check` of the policy allows,
  -- and when there is one, the guards have passed: the procedure is ACTIVE, its parameters are bound, it
  -- is applicable, its execution is allowed and there is a registry.
  pub execute_procedure-IsAllowed :
      (skills : Option Skills) (m : ProcedureMatch) (max_steps : ℕ)
      → All IsAllowed (execute_procedure h p skills m max_steps).1
        × (((execute_procedure h p skills m max_steps).1 ≡ []) ⊎ (guard m true ≡ none))
  unfolding execute_procedure
  execute_procedure-IsAllowed none m max_steps =
      let (fine, _) =
        guarded-IsAllowed m (guard m false) (failure m skill_registry_missing, []) tt in
      (fine, inl (guarded_empty m (guard m false) (failure m skill_registry_missing, []) refl))
  execute_procedure-IsAllowed (some skills) m max_steps =
      guarded-IsAllowed m (guard m true) (run_built h p skills m max_steps (build_actions m))
        (run_built-IsAllowed skills m max_steps (build_actions m))

  -- When the result of `execute_procedure` says EXECUTED, the actions of all steps were built, and exactly
  -- these were handed to executors, in their order.
  pub execute_procedure-executed :
      (skills : Skills) (m : ProcedureMatch) (max_steps : ℕ)
      → (execute_procedure h p (some skills) m max_steps).0.execution_status ≡ executed
      → build_actions m ≡ built (execute_procedure h p (some skills) m max_steps).1
  unfolding execute_procedure
  execute_procedure-executed skills m max_steps e =
      let out = run_built h p skills m max_steps (build_actions m) in
      let same = guarded-executed m (guard m true) out e in
      run_built-executed skills m max_steps (build_actions m)
        (ap (λ r. r.0.execution_status) (sym same) ∙ e)
      ∙ ap (λ r. built r.1) (sym same)

  -- When the first action is executed with success and the gate turns the second away, the result says
  -- NOT_EXECUTED and has no results of actions, although the first action was executed.
  pub run_built-forgets :
      (skills : Skills) (m : ProcedureMatch) (a b : Action) (rest : List Action) (max_steps : ℕ)
      (s : Skill) (error : Option String) (failure_class : Option FailureClass)
      (why : FailureReason)
      → length (a ∷ b ∷ rest) ≤ max_steps
      → admission h p skills a ≡ admitted s
      → s.execute 0 a ≡ returned true error failure_class
      → admission h p skills b ≡ turned_away why
      → run_built h p skills m max_steps (built (a ∷ b ∷ rest)) ≡ (failure m why, a ∷ [])
  unfolding run_built run_actions
  run_built-forgets skills m a b rest most s error failure_class why few first ran second =
      rw (enough, first, ran, second) refl
    where
      enough : leb (length (a ∷ b ∷ rest)) (if leb 1 most then most else 1) ≡ true
      enough = ground arith
