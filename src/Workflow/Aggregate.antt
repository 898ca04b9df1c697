-- ===== src/Workflow/Aggregate.antt =====
-- What `aggregate` of agent_control/workflow/scheduler.py promises.
use mathlib.Core.List.{Perm, Permᴰ}
use mathlib.Core.Logic.{∥∥₁_elim}
use freaky_monkey.Base.{
  Bool, true, false, List, [], ◌∷◌, ◌≡◌, refl, ◌↔◌, ap, ◌∙◌, arith, map, any, all, ◌||◌,
  if◌then◌else◌,
}
use freaky_monkey.Workflow.Status.{StepStatus, WorkflowStatus, is_completed, is_cancelled}
use freaky_monkey.Workflow.Model.{Workflow}
use freaky_monkey.Workflow.Ready.{
  aggregate, aggregate_states, is_failed, is_step_cancelled, is_unknown, is_waiting_for_approval,
  is_waiting_for_user,
}

abbrev statuses : Workflow → List StepStatus
statuses w = map (λ s. s.status) w.steps

aggregate_states-completed :
    (ts : List StepStatus)
    → aggregate_states ts ≡ WorkflowStatus.completed
    → all is_completed ts ≡ true
unfolding aggregate_states
aggregate_states-completed [] h = refl
aggregate_states-completed (t ∷ ts) h = ground arith

completed-aggregate_states :
    (ts : List StepStatus)
    → all is_completed ts ≡ true
    → aggregate_states ts ≡ WorkflowStatus.completed
unfolding aggregate_states
completed-aggregate_states [] h = refl
completed-aggregate_states (t ∷ ts) h = ground arith

-- A workflow is COMPLETED exactly when it is not cancelled and every one of its steps is COMPLETED.
pub aggregate-completed_iff :
    (w : Workflow)
    → (aggregate w ≡ WorkflowStatus.completed) ↔ (
        ((w.cancel_requested || is_cancelled w.status) ≡ false)
        × (all is_completed (map (λ s. s.status) w.steps) ≡ true))
unfolding aggregate
aggregate-completed_iff w = (
  λ h. (ground arith, aggregate_states-completed (statuses w) (ground arith)),
  λ h. ground (arith, completed-aggregate_states (statuses w) h.1),
)

partial_states :
    (stop : Bool) (ts : List StepStatus)
    → (if stop then WorkflowStatus.cancelled else aggregate_states ts)
      ≡ WorkflowStatus.partial_failure
    → (any is_completed ts ≡ true) × (any is_failed ts ≡ true)
unfolding aggregate_states
partial_states stop [] h = ground arith
partial_states stop (t ∷ ts) h = ground arith

-- PARTIAL_FAILURE means that some step is COMPLETED and some step is FAILED, BLOCKED or CANCELLED.
pub aggregate-partial_failure :
    (w : Workflow)
    → aggregate w ≡ WorkflowStatus.partial_failure
    → (any is_completed (map (λ s. s.status) w.steps) ≡ true)
      × (any is_failed (map (λ s. s.status) w.steps) ≡ true)
unfolding aggregate
aggregate-partial_failure w =
    partial_states (w.cancel_requested || is_cancelled w.status) (statuses w)

all-permᴰ : (p : StepStatus → Bool) (xs ys : List StepStatus) → Permᴰ xs ys → all p xs ≡ all p ys
all-permᴰ p _ _ Permᴰ.nil = refl
all-permᴰ p _ _ (Permᴰ.cons {l₁ = xs} {l₂ = ys} e h) = ground (arith, ap p e, all-permᴰ p xs ys h)
all-permᴰ p _ _ (Permᴰ.swap e f) = ground (arith, ap p e, ap p f)
all-permᴰ p xs zs (Permᴰ.trans {l₂ = ys} h k) = all-permᴰ p xs ys h ∙ all-permᴰ p ys zs k

any-permᴰ : (p : StepStatus → Bool) (xs ys : List StepStatus) → Permᴰ xs ys → any p xs ≡ any p ys
any-permᴰ p _ _ Permᴰ.nil = refl
any-permᴰ p _ _ (Permᴰ.cons {l₁ = xs} {l₂ = ys} e h) = ground (arith, ap p e, any-permᴰ p xs ys h)
any-permᴰ p _ _ (Permᴰ.swap e f) = ground (arith, ap p e, ap p f)
any-permᴰ p xs zs (Permᴰ.trans {l₂ = ys} h k) = any-permᴰ p xs ys h ∙ any-permᴰ p ys zs k

-- The ladder of `aggregate_states`, on any list: the empty one passes its first test.
abbrev pub ladder : List StepStatus → WorkflowStatus
ladder states =
    if all is_completed states
    then WorkflowStatus.completed
    else if all is_step_cancelled states
    then WorkflowStatus.cancelled
    else if any is_unknown states
    then WorkflowStatus.unknown
    else if any is_waiting_for_approval states
    then WorkflowStatus.waiting_for_approval
    else if any is_waiting_for_user states
    then WorkflowStatus.waiting_for_user
    else if any is_failed states
    then if any is_completed states then WorkflowStatus.partial_failure else WorkflowStatus.failed
    else WorkflowStatus.running

pub aggregate_states-ladder : (ts : List StepStatus) → aggregate_states ts ≡ ladder ts
unfolding aggregate_states
aggregate_states-ladder [] = refl
aggregate_states-ladder (t ∷ ts) = refl

aggregate_states-permᴰ :
    (xs ys : List StepStatus) → Permᴰ xs ys → aggregate_states xs ≡ aggregate_states ys
aggregate_states-permᴰ xs ys h =
    rw (aggregate_states-ladder xs, aggregate_states-ladder ys)
      (ground (
        arith,
        all-permᴰ is_completed xs ys h,
        all-permᴰ is_step_cancelled xs ys h,
        any-permᴰ is_unknown xs ys h,
        any-permᴰ is_waiting_for_approval xs ys h,
        any-permᴰ is_waiting_for_user xs ys h,
        any-permᴰ is_failed xs ys h,
        any-permᴰ is_completed xs ys h,
      ))

WorkflowStatus-set : IsSet WorkflowStatus
WorkflowStatus-set = hlevel

-- The status that the steps of a workflow add up to does not depend on their order.
pub aggregate_states-perm :
    (xs ys : List StepStatus) → Perm xs ys → aggregate_states xs ≡ aggregate_states ys
aggregate_states-perm xs ys h = ∥∥₁_elim h (WorkflowStatus-set _ _) (aggregate_states-permᴰ xs ys)
