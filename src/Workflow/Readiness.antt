-- ===== src/Workflow/Readiness.antt =====
-- What `ready_nodes` of agent_control/workflow/scheduler.py promises of the nodes it picks.
use mathlib.Core.List.{Memᴰ}
use freaky_monkey.Base.{
  All-keep, String, Bool, true, false, List, [], ◌∷◌, ◌++◌, ◌≡◌, refl, subst, ◌⊎◌, inl, inr, arith,
  keep, ◌&&◌, all, All, str_eq, eq_iff, Bool-cases,
}
use freaky_monkey.Base.Dict.{contains}
use freaky_monkey.Json.{Params}
use freaky_monkey.Workflow.Status.{StepStatus, is_completed}
use freaky_monkey.Workflow.Model.{WorkflowStep, Workflow}
use freaky_monkey.Workflow.Ready.{
  ok, >>=-eq-ok, ok-injective, schedulable, completed_ids, policy_ok, data_ok, deps_done,
  made_ready, made_blocked, visit, scan, ready_nodes,
}

-- What the scan may do to a node, given the identifiers completed at its start: leave it alone, pick
-- it, or block it.
abbrev pub Visited : Params → List String → WorkflowStep → WorkflowStep → Bool → Type 0
Visited context completed s t r =
    (t ≡ s) × (r ≡ false)
    ⊎ (schedulable s.status ≡ true)
      × (deps_done completed s ≡ true)
      × (policy_ok s.policy_state ≡ true)
      × (data_ok context s ≡ true)
      × (t ≡ made_ready s)
      × (r ≡ true)
    ⊎ (schedulable s.status ≡ true) × (t ≡ made_blocked s) × (r ≡ false)

pub visit-Visited :
    (context : Params) (completed : List String) (steps : List WorkflowStep) (s t : WorkflowStep)
    (r : Bool)
    → visit context completed steps s ≡ ok (t, r)
    → Visited context completed s t r
unfolding visit
visit-Visited context completed steps s t r h = ground arith

-- `Visited` of each node and its mark, in order.
abbrev pub Marks : Params → List String → List WorkflowStep → List (WorkflowStep × Bool) → Type 0
Marks context completed [] [] = Unit
Marks context completed (s ∷ ss) ((t, r) ∷ ms) =
    Visited context completed s t r × Marks context completed ss ms
Marks context completed _ _ = ⊥

scan-Marks :
    (context : Params) (completed : List String) (before steps : List WorkflowStep)
    (ms : List (WorkflowStep × Bool))
    → scan context completed before steps ≡ ok ms
    → Marks context completed steps ms
unfolding scan
scan-Marks context completed before [] [] h = tt
scan-Marks context completed before [] (m ∷ ms) h = cc
scan-Marks context completed before (s ∷ steps) ms h =
    let (m, visited, h') = >>=-eq-ok (visit context completed (before ++ (s ∷ steps)) s) _ h in
    let (rest, scanned, e) = >>=-eq-ok (scan context completed (before ++ (m.0 ∷ [])) steps) _ h' in
    subst (Marks context completed (s ∷ steps)) (ok-injective e) (
      visit-Visited context completed (before ++ (s ∷ steps)) s m.0 m.1 visited,
      scan-Marks context completed (before ++ (m.0 ∷ [])) steps rest scanned,
    )

-- The statuses are kept apart: a node that is marked was schedulable and is READY, and a node whose
-- status changed without a mark was schedulable and is BLOCKED.
pub ready_nodes-Marks :
    (w : Workflow) (ms : List (WorkflowStep × Bool))
    → ready_nodes w ≡ ok ms
    → Marks w.context (completed_ids w.steps) w.steps ms
unfolding ready_nodes
ready_nodes-Marks w ms h = scan-Marks w.context (completed_ids w.steps) [] w.steps ms h

-- A step of the list has this identifier and is COMPLETED.
abbrev pub CompletedIn : List WorkflowStep → String → Type 0
CompletedIn steps d =
    (p : WorkflowStep) × Memᴰ p steps × (p.step_id ≡ d) × (p.status ≡ StepStatus.completed)

CompletedIn-cons :
    (s : WorkflowStep) (steps : List WorkflowStep) (d : String)
    → CompletedIn steps d
    → CompletedIn (s ∷ steps) d
CompletedIn-cons s steps d (p, m, e, c) = (p, Memᴰ.tail m, e, c)

completed_ids-CompletedIn :
    (steps : List WorkflowStep) (d : String)
    → contains (completed_ids steps) d ≡ true
    → CompletedIn steps d
unfolding completed_ids
completed_ids-CompletedIn [] d h = cc
completed_ids-CompletedIn (s ∷ steps) d h =
    elim (Bool-cases (is_completed s.status && str_eq s.step_id d)) [
      | inl here ↦ (s, Memᴰ.head refl, ground (arith, eq_iff s.step_id d), ground arith)
      | inr there ↦
          CompletedIn-cons s steps d
            (completed_ids-CompletedIn steps d (ground (arith, eq_iff s.step_id d)))
    ]

deps_CompletedIn :
    (steps : List WorkflowStep) (ds : List String)
    → all (contains (completed_ids steps)) ds ≡ true
    → All (CompletedIn steps) ds
deps_CompletedIn steps [] h = tt
deps_CompletedIn steps (d ∷ ds) h =
    (completed_ids-CompletedIn steps d (ground arith), deps_CompletedIn steps ds (ground arith))

-- What a picked node may rely on.
pub record IsRunnable (w : Workflow) (t : WorkflowStep) : Type 0 where
  pub status : t.status ≡ StepStatus.ready
  pub prerequisites : All (CompletedIn w.steps) t.dependencies
  pub policy : policy_ok t.policy_state ≡ true
  pub inputs : data_ok w.context t ≡ true

Visited-IsRunnable :
    (w : Workflow) (s t : WorkflowStep)
    → Visited w.context (completed_ids w.steps) s t true
    → IsRunnable w t
unfolding deps_done data_ok
Visited-IsRunnable w s t v = record {
  status = ground arith;
  prerequisites = deps_CompletedIn w.steps t.dependencies (ground arith);
  policy = ground arith;
  inputs = ground arith;
}

Marks-IsRunnable :
    (w : Workflow) (steps : List WorkflowStep) (ms : List (WorkflowStep × Bool))
    → Marks w.context (completed_ids w.steps) steps ms
    → All (λ m. m.1 ≡ true → IsRunnable w m.0) ms
Marks-IsRunnable w [] [] h = tt
Marks-IsRunnable w (s ∷ steps) ((t, r) ∷ ms) h = (
  λ e. Visited-IsRunnable w s t (subst (Visited w.context (completed_ids w.steps) s t) e h.0),
  Marks-IsRunnable w steps ms h.1,
)
Marks-IsRunnable w [] (m ∷ ms) h = absurd h
Marks-IsRunnable w (s ∷ steps) [] h = absurd h

-- Every node that `ready_nodes` picks is READY, each of its dependencies is the identifier of a
-- COMPLETED step of the workflow, its policy state lets it run, and the context holds each value
-- that it requires.
pub ready_nodes-IsRunnable :
    (w : Workflow) (ms : List (WorkflowStep × Bool))
    → ready_nodes w ≡ ok ms
    → All (λ m. IsRunnable w m.0) (keep (λ m. m.1) ms)
ready_nodes-IsRunnable w ms h =
    All-keep (λ m. m.1) (λ m. IsRunnable w m.0) ms
      (Marks-IsRunnable w w.steps ms (ready_nodes-Marks w ms h))
