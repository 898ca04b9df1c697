-- ===== src/Workflow/Status.antt =====
-- agent_control/workflow/models.py: `StepStatus`, `WorkflowStatus`, and the maps from the statuses
-- of the runner and of the runtime.
use freaky_monkey.Base.{
  ℕ, String, Bool, true, false, Option, none, some, List, [], ◌∷◌, ◌≡◌, refl, arith, if◌then◌else◌,
}
use freaky_monkey.Base.Text.{codes, codes_eq, upper}

pub data StepStatus : Type 0 where
  pending ready waiting_resource waiting_for_approval waiting_for_user : StepStatus
  running verifying completed failed recovery_required : StepStatus
  cancelled unknown blocked recovering : StepStatus

unfoldable pub value : StepStatus → String
value pending = "PENDING"
value ready = "READY"
value waiting_resource = "WAITING_RESOURCE"
value waiting_for_approval = "WAITING_FOR_APPROVAL"
value waiting_for_user = "WAITING_FOR_USER"
value running = "RUNNING"
value verifying = "VERIFYING"
value completed = "COMPLETED"
value failed = "FAILED"
value recovery_required = "RECOVERY_REQUIRED"
value cancelled = "CANCELLED"
value unknown = "UNKNOWN"
value blocked = "BLOCKED"
value recovering = "RECOVERING"

abbrev pub is_completed : StepStatus → Bool
is_completed completed = true
is_completed _ = false

-- The value of a key in a dictionary literal: a later entry replaces an earlier one.
literal_get {ℓ} : {V : Type ℓ} → List ℕ → List (String × V) → Option V
literal_get k [] = none
literal_get k ((j, v) ∷ m) = elim (literal_get k m) [
  | none ↦ if codes_eq k (codes j) then some v else none
  | some w ↦ some w
]

abbrev pub runner_step_status_map : List (String × StepStatus)
runner_step_status_map =
    ("PENDING", pending)
    ∷ ("READY", ready)
    ∷ ("WAITING_RESOURCE", waiting_resource)
    ∷ ("WAITING_FOR_APPROVAL", waiting_for_approval)
    ∷ ("WAITING_FOR_USER", waiting_for_user)
    ∷ ("RUNNING", running)
    ∷ ("VERIFYING", verifying)
    ∷ ("COMPLETED", completed)
    ∷ ("FAILED", failed)
    ∷ ("RECOVERY_REQUIRED", recovery_required)
    ∷ ("UNKNOWN", unknown)
    ∷ ("RECOVERING", recovering)
    ∷ ("BLOCKED", blocked)
    ∷ ("CANCELLED", cancelled)
    ∷ ("UNKNOWN", recovery_required)
    ∷ ("BLOCKED", pending)
    ∷ []

abbrev pub runtime_step_status_map : List (String × StepStatus)
runtime_step_status_map =
    ("RUNNING", running)
    ∷ ("WAITING_FOR_APPROVAL", waiting_for_approval)
    ∷ ("WAITING_FOR_USER", waiting_for_user)
    ∷ ("VERIFYING", verifying)
    ∷ ("COMPLETED", completed)
    ∷ ("FAILED", failed)
    ∷ ("CANCELLED", cancelled)
    ∷ ("BLOCKED", recovery_required)
    ∷ ("UNKNOWN", recovery_required)
    ∷ ("RECOVERING", recovery_required)
    ∷ ("READY", running)
    ∷ ("WAITING_RESOURCE", running)
    ∷ ("RECOVERY_REQUIRED", recovery_required)
    ∷ []

-- `none` is the ValueError for a text that the map does not hold.
unfoldable pub workflow_step_status_from_runner_state : String → Option StepStatus
unfolding literal_get upper
workflow_step_status_from_runner_state text =
    literal_get (upper (codes text)) runner_step_status_map

unfoldable pub workflow_step_status_from_runtime_state : String → StepStatus
unfolding literal_get upper
workflow_step_status_from_runtime_state text =
    elim (literal_get (upper (codes text)) runtime_step_status_map) [
      | none ↦ recovery_required
      | some s ↦ s
    ]

-- What a status becomes when a step is written by `to_json` and read back by `from_json`.
abbrev pub reloaded : StepStatus → StepStatus
reloaded unknown = recovery_required
reloaded blocked = pending
reloaded s = s

-- A stored status is read back as it was, but for two: UNKNOWN comes back as RECOVERY_REQUIRED and
-- BLOCKED as PENDING.
pub runner_state-value :
    (s : StepStatus) → workflow_step_status_from_runner_state (value s) ≡ some (reloaded s)
unfolding workflow_step_status_from_runner_state value
runner_state-value pending = refl
runner_state-value _ = refl

literal_get-completed :
    (k : List ℕ)
    → literal_get k runtime_step_status_map ≡ some completed
    → codes_eq k (codes "COMPLETED") ≡ true
unfolding literal_get
literal_get-completed k h = ground arith

-- A runtime state becomes COMPLETED only if its text is COMPLETED, in either case of letters: no
-- unknown lifecycle state turns into completion.
pub runtime_state-completed :
    (text : String)
    → workflow_step_status_from_runtime_state text ≡ completed
    → codes_eq (upper (codes text)) (codes "COMPLETED") ≡ true
unfolding workflow_step_status_from_runtime_state
runtime_state-completed text h =
    by_entry (literal_get (upper (codes text)) runtime_step_status_map) refl
  where
    by_entry :
        (o : Option StepStatus)
        → literal_get (upper (codes text)) runtime_step_status_map ≡ o
        → codes_eq (upper (codes text)) (codes "COMPLETED") ≡ true
    by_entry none e = ground (arith, e)
    by_entry (some s) e = literal_get-completed (upper (codes text)) (ground (arith, e))

pub data WorkflowStatus : Type 0 where
  pending running waiting_for_approval waiting_for_user recovering : WorkflowStatus
  completed failed partial_failure unknown blocked cancelled : WorkflowStatus

abbrev pub is_cancelled : WorkflowStatus → Bool
is_cancelled WorkflowStatus.cancelled = true
is_cancelled _ = false
