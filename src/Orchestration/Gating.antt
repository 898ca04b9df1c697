-- ===== src/Orchestration/Gating.antt =====
-- agent_control/workflow/nodes.py: which steps get past `policy` and `approval`.
use freaky_monkey.Base.{
  ℕ, String, false, Option, none, some, ◌≡◌, ◌≢◌, ◌⊎◌, inl, inr, refl, ap, ◌∙◌, Bool-cases, str_eq,
  eq_iff,
}
use freaky_monkey.Json.{Params}
use freaky_monkey.Policy.Paths.{Decision, allow, confirm, deny}
use freaky_monkey.Workflow.Status.{StepStatus, WorkflowStatus}
use freaky_monkey.Workflow.Model.{WorkflowStep, Workflow}
use freaky_monkey.Orchestration.State.{GraphState, Adapter, workflow_in, current, said_failure}
use freaky_monkey.Orchestration.Acting.{
  at_step, policy_for, apply_policy, policy, approval, step_and_flow,
}
use freaky_monkey.Orchestration.Routes.{
  Node, Target, to, at_execute, at_policy, at_approval, route_after_policy, route, advance,
  run_node,
}

pub some-injective {ℓ} : {A : Type ℓ} {a b : A} → some a ≡ some b → a ≡ b
some-injective e = cc

-- A node that ends has read a workflow and its current step.
abbrev pub Reads : GraphState → Workflow → ℕ → WorkflowStep → Type 0
Reads st w i s = (workflow_in st ≡ some w) × (current w ≡ some (i, s))

pub at_step-eq-some :
    (st st' : GraphState) (body : Workflow → ℕ → WorkflowStep → Option GraphState)
    → at_step st body ≡ some st'
    → (w : Workflow) × (i : ℕ) × (s : WorkflowStep) × Reads st w i s × (body w i s ≡ some st')
at_step-eq-some st st' body e = by_flow (workflow_in st) refl e
  where
    Goal : Type 0
    Goal = (w : Workflow) × (i : ℕ) × (s : WorkflowStep) × Reads st w i s × (body w i s ≡ some st')

    by_step :
        (w : Workflow) (o : Option (ℕ × WorkflowStep))
        → workflow_in st ≡ some w
        → current w ≡ o
        → (elim o as (λ _. Option GraphState) [ none ↦ none | some p ↦ body w p.0 p.1 ]) ≡ some st'
        → Goal
    by_step w none e1 e2 e3 = cc
    by_step w (some (i, s)) e1 e2 e3 = (w, i, s, (e1, e2), e3)

    by_flow :
        (o : Option Workflow)
        → workflow_in st ≡ o
        → (elim o as (λ _. Option GraphState) [
          | none ↦ none
          | some w ↦ elim (current w) as (λ _. Option GraphState) [
            | none ↦ none
            | some p ↦ body w p.0 p.1
          ]
        ])
          ≡ some st'
        → Goal
    by_flow none e1 e2 = cc
    by_flow (some w) e1 e2 = by_step w (current w) e1 refl e2

pub at_step-Reads :
    (st : GraphState) (body : Workflow → ℕ → WorkflowStep → Option GraphState) (w : Workflow)
    (i : ℕ) (s : WorkflowStep)
    → Reads st w i s
    → at_step st body ≡ body w i s
at_step-Reads st body w i s h =
    ap
      (λ o. elim o as (λ _. Option GraphState) [
        | none ↦ none
        | some v ↦ elim (current v) as (λ _. Option GraphState) [
          | none ↦ none
          | some p ↦ body v p.0 p.1
        ]
      ])
      h.0
    ∙ ap (λ o. elim o as (λ _. Option GraphState) [ none ↦ none | some p ↦ body w p.0 p.1 ]) h.1

-- A node that ends with a state goes on along the edge of that state.
pub advance-some :
    (rt : Adapter) (n : Node) (st st' : GraphState) (t : Target)
    → run_node rt n st ≡ some st'
    → route n st' ≡ some t
    → advance rt n st ≡ some (t, st')
unfolding advance
advance-some rt n st st' t e r =
    ap
      (λ o. elim o as (λ _. Option (Target × GraphState)) [
        | none ↦ none
        | some x ↦ elim (route n x) as (λ _. Option (Target × GraphState)) [
          | none ↦ none
          | some u ↦ some (u, x)
        ]
      ])
      e
    ∙ ap
        (λ o. elim o as (λ _. Option (Target × GraphState)) [
          | none ↦ none
          | some u ↦ some (u, st')
        ])
        r

-- What lets a step through: a person has approved it, or the policy neither asks for an input nor
-- answers CONFIRM or DENY.
abbrev pub IsAdmitted : Adapter → Workflow → ℕ → WorkflowStep → Type 0
IsAdmitted rt w i s =
    (s.policy_state ≡ "APPROVED")
    ⊎ (((rt.policy_of w i).0 ≢ some confirm)
        × ((rt.policy_of w i).0 ≢ some deny)
        × ((rt.policy_of w i).2 ≡ none))

module _ (rt : Adapter) where
  admitted_by :
      (st : GraphState) (w : Workflow) (i : ℕ) (s : WorkflowStep)
      (p : Option Decision × String × Option Params)
      → route_after_policy (apply_policy st w i s p).decision ≡ to at_execute
      → (p.0 ≢ some confirm) × (p.0 ≢ some deny) × (p.2 ≡ none)
  unfolding route_after_policy apply_policy
  admitted_by st w i s (d, reason, some pending) e = cc
  admitted_by st w i s (some allow, reason, none) e = (λ h. cc, λ h. cc, refl)
  admitted_by st w i s (some confirm, reason, none) e = cc
  admitted_by st w i s (some deny, reason, none) e = cc
  admitted_by st w i s (none, reason, none) e = (λ h. cc, λ h. cc, refl)

  routed_by :
      (st : GraphState) (w : Workflow) (i : ℕ) (s : WorkflowStep)
      → route_after_policy (apply_policy st w i s (policy_for rt w i s)).decision ≡ to at_execute
      → IsAdmitted rt w i s
  routed_by st w i s e = elim (Bool-cases (str_eq s.policy_state "APPROVED")) [
    | inl approved ↦ inl ((eq_iff s.policy_state "APPROVED").0 approved)
    | inr other ↦ inr (admitted_by st w i s (rt.policy_of w i) (rw other at e))
  ]

  -- The edge after `policy` leads to `execute` only if the current step is approved already, or the
  -- runtime's policy asks for no input and its decision is neither CONFIRM nor DENY.
  pub policy-IsAdmitted :
      (st st' : GraphState)
      → policy rt st ≡ some st'
      → route at_policy st' ≡ some (to at_execute)
      → (w : Workflow) × (i : ℕ) × (s : WorkflowStep) × Reads st w i s × IsAdmitted rt w i s
  unfolding policy route
  policy-IsAdmitted st st' e r =
      let (w, i, s, reads, done) = at_step-eq-some st st' _ e in
      let same : apply_policy st w i s (policy_for rt w i s) ≡ st' = some-injective done in
      let led : route_after_policy st'.decision ≡ to at_execute = some-injective r in
      (w, i, s, reads, routed_by st w i s (ap (λ x. route_after_policy x.decision) same ∙ led))

  -- When the person refuses: the step and the workflow are CANCELLED and the decision is FAILURE,
  -- and yet the edge leads to `execute`.
  pub approval-refused :
      (st : GraphState) (w : Workflow) (i : ℕ) (s : WorkflowStep)
      → Reads st w i s
      → rt.approve w i ≡ false
      → (st' : GraphState) × (advance rt at_approval st ≡ some (to at_execute, st'))
        × (st'.decision ≡ some said_failure)
        × (st'.workflow ≡ some (step_and_flow w i s StepStatus.cancelled WorkflowStatus.cancelled))
  unfolding run_node route
  approval-refused st w i s reads no_answer =
      (refused, advance-some rt at_approval st refused (to at_execute) ran refl, refl, refl)
    where
      refused : GraphState
      refused = record st {
        workflow = some (step_and_flow w i s StepStatus.cancelled WorkflowStatus.cancelled);
        decision = some said_failure;
        decision_reason = "workflow step was not approved";
      }

      ran : approval rt st ≡ some refused
      ran = unfold approval in (at_step-Reads st _ w i s reads ∙ rw no_answer refl)
