-- ===== src/Workflow/Revival.antt =====
-- agent_control/workflow/scheduler.py: a failed node comes back only by `recover_failed_node`.
use freaky_monkey.Base.{
  String, Bool, true, false, none, some, List, [], ◌∷◌, ◌++◌, ◌≡◌, refl, ap, ◌⊎◌, inl, inr, arith,
  str_eq, Bool-cases,
}
use freaky_monkey.Workflow.Model.{WorkflowStep, Workflow, find_step}
use freaky_monkey.Workflow.Ready.{ok, schedulable, ready_nodes, completed_ids}
use freaky_monkey.Workflow.Readiness.{Marks, ready_nodes-Marks}
use freaky_monkey.Workflow.Recover.{recover_in, recovered, recover_failed_node, is_recoverable}

-- The list of nodes with the first node of the identifier recovered.
abbrev pub Recovers : String → List WorkflowStep → WorkflowStep → List WorkflowStep → Type 0
Recovers node steps p steps' =
    (before : List WorkflowStep) × (after : List WorkflowStep) × (find_step node before ≡ none)
    × (steps ≡ before ++ (p ∷ after))
    × (steps' ≡ before ++ (recovered p ∷ after))

Recovers-cons :
    (node : String) (s p : WorkflowStep) (steps steps' : List WorkflowStep)
    → str_eq s.step_id node ≡ false
    → Recovers node steps p steps'
    → Recovers node (s ∷ steps) p (s ∷ steps')
unfolding find_step
Recovers-cons node s p steps steps' other (before, after, fresh, e, e') =
    (s ∷ before, after, ground arith, ap (◌∷◌ s) e, ap (◌∷◌ s) e')

recover_in_lem :
    (node : String) (steps : List WorkflowStep) (p : WorkflowStep)
    → find_step node steps ≡ some p
    → is_recoverable p.status ≡ true
    → (steps' : List WorkflowStep) × (recover_in node steps ≡ ok steps')
      × Recovers node steps p steps'
unfolding find_step recover_in
recover_in_lem node [] p h r = absurd (ground arith)
recover_in_lem node (s ∷ steps) p h r = elim (Bool-cases (str_eq s.step_id node)) [
  | inl here ↦ (recovered p ∷ steps, ground arith, ([], steps, refl, ground arith, refl))
  | inr there ↦
      let (steps', e, rec) = recover_in_lem node steps p (ground arith) r in
      (s ∷ steps', ground arith, Recovers-cons node s p steps steps' there rec)
]

-- A node that exists and is FAILED, UNKNOWN or RECOVERY_REQUIRED becomes READY, without error and
-- marked as recovered; every other node and the rest of the workflow stay as they were.
pub recover_failed_node_lem :
    (w : Workflow) (node : String) (p : WorkflowStep)
    → find_step node w.steps ≡ some p
    → is_recoverable p.status ≡ true
    → (steps' : List WorkflowStep) × (recover_failed_node w node ≡ ok (record w { steps = steps' }))
      × Recovers node w.steps p steps'
unfolding recover_failed_node
recover_failed_node_lem w node p h r =
    let (steps', e, rec) = recover_in_lem node w.steps p h r in (steps', ground (arith, e), rec)

-- A node that may not be scheduled is the same after the scan, and is not picked.
abbrev pub Untouched : List WorkflowStep → List (WorkflowStep × Bool) → Type 0
Untouched [] [] = Unit
Untouched (s ∷ ss) ((t, r) ∷ ms) =
    ((schedulable s.status ≡ true) ⊎ ((t ≡ s) × (r ≡ false))) × Untouched ss ms
Untouched _ _ = ⊥

Marks-Untouched :
    (w : Workflow) (ss : List WorkflowStep) (ms : List (WorkflowStep × Bool))
    → Marks w.context (completed_ids w.steps) ss ms
    → Untouched ss ms
Marks-Untouched w [] [] h = tt
Marks-Untouched w (s ∷ ss) ((t, r) ∷ ms) h =
    let v = h.0 in
    (
      elim (Bool-cases (schedulable s.status)) [
        | inl may ↦ inl may
        | inr not_now ↦ inr (ground arith, ground arith)
      ],
      Marks-Untouched w ss ms h.1,
    )
Marks-Untouched w [] (m ∷ ms) h = absurd h
Marks-Untouched w (s ∷ ss) [] h = absurd h

-- Normal scheduling revives nothing: the scan leaves every node that is not PENDING,
-- WAITING_RESOURCE or READY exactly as it was, and does not pick it.
pub ready_nodes-Untouched :
    (w : Workflow) (ms : List (WorkflowStep × Bool)) → ready_nodes w ≡ ok ms → Untouched w.steps ms
ready_nodes-Untouched w ms h = Marks-Untouched w w.steps ms (ready_nodes-Marks w ms h)
