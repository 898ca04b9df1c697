-- ===== src/Workflow/Totals.antt =====
-- agent_control/workflow/scheduler.py: what nodes that are COMPLETED or may be scheduled add up to.
use freaky_monkey.Base.{
  ◌≤◌, ◌==◌, Bool, true, false, List, [], ◌∷◌, ◌≡◌, refl, arith, not, map, any, all, ◌&&◌, ◌||◌,
  All, inl, inr, Bool-cases, if◌then◌else◌,
}
use freaky_monkey.Workflow.Status.{StepStatus, WorkflowStatus, is_completed, is_cancelled}
use freaky_monkey.Workflow.Model.{WorkflowStep, Workflow}
use freaky_monkey.Workflow.Ready.{
  aggregate, is_step_cancelled, is_unknown, is_waiting_for_approval, is_waiting_for_user, is_failed,
  schedulable,
}
use freaky_monkey.Workflow.Aggregate.{aggregate_states-ladder}
use freaky_monkey.Workflow.Rounds.{any_schedulable}
use freaky_monkey.Workflow.Alive.{IsAlive, open_count}

none_such :
    (p : StepStatus → Bool) (ts : List WorkflowStep)
    → ((status : StepStatus)
        → (is_completed status || schedulable status) ≡ true
        → p status ≡ false)
    → All IsAlive ts
    → any p (map (λ s. s.status) ts) ≡ false
none_such p [] never h = refl
none_such p (t ∷ ts) never h = ground (arith, never t.status h.0.0, none_such p ts never h.1)

all_completed :
    (ts : List WorkflowStep) → all is_completed (map (λ s. s.status) ts) ≡ (open_count ts == 0)
all_completed [] = refl
all_completed (t ∷ ts) = ground (arith, all_completed ts)

pub some_open :
    (ts : List WorkflowStep) → All IsAlive ts → any_schedulable ts ≡ not (open_count ts == 0)
some_open [] h = refl
some_open (t ∷ ts) h = ground (arith, some_open ts h.1, h.0.0, schedulable_or t.status)
  where
    schedulable_or : (status : StepStatus) → (is_completed status && schedulable status) ≡ false
    schedulable_or status = ground arith

cancelled_none :
    (ts : List WorkflowStep)
    → All IsAlive ts
    → 1 ≤ open_count ts
    → all is_step_cancelled (map (λ s. s.status) ts) ≡ false
cancelled_none [] h some_left = absurd (omega arith)
cancelled_none (t ∷ ts) h some_left = ground (arith, not_cancelled t.status h.0.0)
  where
    not_cancelled :
        (status : StepStatus)
        → (is_completed status || schedulable status) ≡ true
        → is_step_cancelled status ≡ false
    not_cancelled status h = ground arith

-- Nodes that are alive add up to COMPLETED or RUNNING.
pub aggregate-IsAlive :
    (w : Workflow)
    → (w.cancel_requested || is_cancelled w.status) ≡ false
    → All IsAlive w.steps
    → aggregate w
      ≡ (if open_count w.steps == 0 then WorkflowStatus.completed else WorkflowStatus.running)
unfolding aggregate
aggregate-IsAlive w going h = elim (Bool-cases (open_count w.steps == 0)) [
  | inl over ↦
      rw (going, aggregate_states-ladder (map (λ s. s.status) w.steps), all_completed w.steps, over)
        refl
  | inr unfinished ↦
      rw
        (
          going,
          aggregate_states-ladder (map (λ s. s.status) w.steps),
          all_completed w.steps,
          unfinished,
        )
        (ground (
          arith,
          cancelled_none w.steps h (ground arith),
          none_such is_unknown w.steps (λ status alive. ground arith) h,
          none_such is_waiting_for_approval w.steps (λ status alive. ground arith) h,
          none_such is_waiting_for_user w.steps (λ status alive. ground arith) h,
          none_such is_failed w.steps (λ status alive. ground arith) h,
        ))
]
