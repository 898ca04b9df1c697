-- ===== src/Workflow/Model.antt =====
-- agent_control/workflow/models.py: `ResourceBinding`, `WorkflowStep`, `WorkflowContext` and
-- `Workflow`. Timings and time stamps are natural numbers.
use freaky_monkey.Base.{
  ℕ, String, Bool, Option, none, some, List, [], ◌∷◌, str_eq, get_elem?, if◌then◌else◌,
}
use freaky_monkey.Json.{Params}
use freaky_monkey.Types.Action.{Action}
use freaky_monkey.Workflow.Status.{StepStatus, WorkflowStatus}

pub record ResourceBinding : Type 0 where
  pub resource_key : String
  pub site : Option String
  pub reuse : Bool

pub record WorkflowStep : Type 0 where
  pub step_id : String
  pub action : Action
  pub status : StepStatus
  pub attempt_count : ℕ
  pub max_step_retries : ℕ
  pub resource_key : Option String
  pub dependencies : List String
  pub dependency_reasons : List (String × String)
  pub dependency_types : List (String × String)
  pub policy_state : String
  pub requires_data : List String
  pub side_effect : Bool
  pub requires_verification : Bool
  pub observation : Params
  pub result : Params
  pub verification : Params
  pub error : Option String
  pub failure_category : Option String
  pub recovery : Params
  pub timing : List (String × ℕ)
  pub index : ℕ

pub record Workflow : Type 0 where
  pub workflow_id : String
  pub goal : String
  pub steps : List WorkflowStep
  pub current_step_id : Option String
  pub status : WorkflowStatus
  pub context : Params
  pub resources : List (String × ResourceBinding)
  pub history : List Params
  pub timing : List (String × ℕ)
  pub created_at : ℕ
  pub updated_at : ℕ
  pub max_recovery_attempts : ℕ
  pub recovery_attempts : ℕ
  pub cancel_requested : Bool

-- `next(step for step in steps if step.step_id == k)`; `none` where Python raises StopIteration.
unfoldable pub find_step : String → List WorkflowStep → Option WorkflowStep
find_step k [] = none
find_step k (s ∷ ss) = if str_eq s.step_id k then some s else find_step k ss

-- The property `current_step` and its setter.
unfoldable pub current_step : Workflow → ℕ
unfolding find_step
current_step w = elim w.current_step_id [
  | none ↦ 0
  | some k ↦ elim (find_step k w.steps) [ none ↦ 0 | some s ↦ s.index ]
]

unfoldable pub set_current_step : ℕ → Workflow → Workflow
set_current_step i w = elim (get_elem? w.steps i) [
  | some s ↦ record w { current_step_id = some s.step_id }
  | none ↦ elim w.steps [ [] ↦ record w { current_step_id = none } | _ ↦ w ]
]
