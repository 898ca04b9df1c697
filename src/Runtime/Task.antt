-- ===== src/Runtime/Task.antt =====
-- agent_control/runtime.py: `RuntimeTask` and `RuntimeEvent`, and the keyword arguments that replace
-- fields of a task. Time stamps are natural numbers, and a goal is its code points.
use freaky_monkey.Base.{
  ℕ, String, Bool, true, false, Option, some, List, [], ◌∷◌, any, if◌then◌else◌,
}
use freaky_monkey.Json.{Params}
use freaky_monkey.Runtime.State.{RuntimeState}

pub record RuntimeTask : Type 0 where
  pub task_id : String
  pub goal : List ℕ
  pub task_type : String
  pub source_input_id : String
  pub state : RuntimeState
  pub created_at : ℕ
  pub updated_at : ℕ
  pub started_at : Option ℕ
  pub completed_at : Option ℕ
  pub current_phase : String
  pub approval_state : String
  pub verification_state : String
  pub verification_summary : String
  pub failure_state : String
  pub failure_category : String
  pub parent_task_id : Option String
  pub browser_resource_key : Option String
  pub browser_site : Option String
  pub browser_resource_state : Option String
  pub result_summary : String
  pub recovery_context : Params
  pub metadata : Params

pub record RuntimeEvent : Type 0 where
  pub event_id : String
  pub task_id : String
  pub event_type : String
  pub timestamp : ℕ
  pub metadata : Params

-- The value of `_resources` for a key.
pub record Resource : Type 0 where
  pub task_id : String
  pub resource_key : String
  pub site : Option String
  pub state : String

-- One keyword argument of `update_task` and `transition_task`. `task_id` and `created_at` are
-- dropped by both; `updated_at` cannot be given, since both set it themselves.
pub data Change : Type 0 where
  task_id : String → Change
  created_at : ℕ → Change
  goal : List ℕ → Change
  task_type source_input_id : String → Change
  state : RuntimeState → Change
  started_at completed_at : Option ℕ → Change
  current_phase approval_state : String → Change
  verification_state verification_summary : String → Change
  failure_state failure_category result_summary : String → Change
  parent_task_id browser_resource_key browser_site browser_resource_state : Option String → Change
  recovery_context metadata : Params → Change

unfoldable pub change : RuntimeTask → Change → RuntimeTask
change t (task_id v) = t
change t (created_at v) = t
change t (goal v) = record t { goal = v }
change t (task_type v) = record t { task_type = v }
change t (source_input_id v) = record t { source_input_id = v }
change t (state v) = record t { state = v }
change t (started_at v) = record t { started_at = v }
change t (completed_at v) = record t { completed_at = v }
change t (current_phase v) = record t { current_phase = v }
change t (approval_state v) = record t { approval_state = v }
change t (verification_state v) = record t { verification_state = v }
change t (verification_summary v) = record t { verification_summary = v }
change t (failure_state v) = record t { failure_state = v }
change t (failure_category v) = record t { failure_category = v }
change t (result_summary v) = record t { result_summary = v }
change t (parent_task_id v) = record t { parent_task_id = v }
change t (browser_resource_key v) = record t { browser_resource_key = v }
change t (browser_site v) = record t { browser_site = v }
change t (browser_resource_state v) = record t { browser_resource_state = v }
change t (recovery_context v) = record t { recovery_context = v }
change t (metadata v) = record t { metadata = v }

-- `replace(current, **changes)`
unfoldable pub replace : RuntimeTask → List Change → RuntimeTask
replace t [] = t
replace t (c ∷ cs) = replace (change t c) cs

abbrev gives_started_at : Change → Bool
gives_started_at (started_at v) = true
gives_started_at _ = false

abbrev gives_completed_at : Change → Bool
gives_completed_at (completed_at v) = true
gives_completed_at _ = false

abbrev gives_current_phase : Change → Bool
gives_current_phase (current_phase v) = true
gives_current_phase _ = false

-- `changes.setdefault(key, value)`, for the three keys that `transition_task` fills in.
abbrev pub default_started_at : ℕ → List Change → List Change
default_started_at now cs = if any gives_started_at cs then cs else started_at (some now) ∷ cs

abbrev pub default_completed_at : ℕ → List Change → List Change
default_completed_at now cs = if any gives_completed_at cs then cs else completed_at (some now) ∷ cs

abbrev pub default_current_phase : String → List Change → List Change
default_current_phase phase cs = if any gives_current_phase cs then cs else current_phase phase ∷ cs
