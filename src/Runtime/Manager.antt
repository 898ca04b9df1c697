-- ===== src/Runtime/Manager.antt =====
-- agent_control/runtime.py: the state of `RuntimeManager` and its operations on one task. Each holds
-- the lock, so it is one step. An operation returns the manager also when it raises.
use freaky_monkey.Base.{
  ℕ, String, Bool, false, Option, none, some, List, [], ◌∷◌, ◌++◌, if◌then◌else◌,
}
use freaky_monkey.Base.Dict.{lookup, insert, remove}
use freaky_monkey.Json.{obj, Fields, Params}
use freaky_monkey.Runtime.State.{created}
use freaky_monkey.Runtime.Redaction.{safe_params, safe_fields}
use freaky_monkey.Runtime.Task.{RuntimeTask, RuntimeEvent, Resource, Change, replace}
use freaky_monkey.Runtime.Store.{Tables, Write, plain, commit}

pub record Manager : Type 0 where
  pub tasks : List (String × RuntimeTask)
  pub events : List RuntimeEvent
  pub approvals : List (String × Params)
  pub resources : List (String × Resource)
  pub focused_task_id : Option String
  pub terminal_retention_s : ℕ
  pub waiting_timeout_s : ℕ
  pub db : Tables

-- What an operation takes from outside: the clock, the identifier of the event it makes for a task,
-- and whether the transaction for a task, or the one that deletes, succeeds.
pub record Tick : Type 0 where
  pub now : ℕ
  pub event_id : (task_id : String) → String
  pub commits : (task_id : String) → Bool
  pub deletes : Bool

pub data RuntimeError : Type 0 where
  unknown_state invalid_transition invalid_approval approval_mismatch key_error : RuntimeError
  storage_error : RuntimeError

pub data Res {ℓ} (A : Type ℓ) : Type ℓ where
  return : A → Res A
  raise : RuntimeError → Res A

abbrev pub make_event : Tick → String → String → Params → RuntimeEvent
make_event tick task_id event_type metadata = record {
  event_id = tick.event_id task_id;
  task_id = task_id;
  event_type = event_type;
  timestamp = tick.now;
  metadata = safe_params metadata;
}

abbrev add_events : Option RuntimeEvent → List RuntimeEvent → List RuntimeEvent
add_events none es = es
add_events (some e) es = es ++ (e ∷ [])

-- The common end of an operation: the transaction, then the live task and the event.
unfoldable pub save : Tick → RuntimeTask → Write → Manager → Manager × Res RuntimeTask
save tick t w m =
    if tick.commits t.task_id
    then (
      record m {
        db = commit m.db t w;
        tasks = insert t.task_id t m.tasks;
        events = add_events w.event m.events;
      },
      return t,
    )
    else (m, raise storage_error)

abbrev pub with_event : RuntimeEvent → Write
with_event e = record { event = some e; approval = none; remove_approval = false; resource = none }

pub record NewTask : Type 0 where
  pub goal : List ℕ
  pub task_type : String
  pub source_input_id : String
  pub parent_task_id : Option String
  pub metadata : Params

unfoldable pub new_task : ℕ → String → NewTask → RuntimeTask
new_task now task_id n = record {
  task_id = task_id;
  goal = n.goal;
  task_type = n.task_type;
  source_input_id = n.source_input_id;
  state = created;
  created_at = now;
  updated_at = now;
  started_at = none;
  completed_at = none;
  current_phase = "created";
  approval_state = "NONE";
  verification_state = "NOT_STARTED";
  verification_summary = "";
  failure_state = "";
  failure_category = "";
  parent_task_id = n.parent_task_id;
  browser_resource_key = none;
  browser_site = none;
  browser_resource_state = none;
  result_summary = "";
  recovery_context = [];
  metadata = safe_params n.metadata;
}

abbrev pub focus_first : String → Manager × Res RuntimeTask → Manager × Res RuntimeTask
focus_first task_id (m, return t) = (
  record m { focused_task_id = elim m.focused_task_id [ none ↦ some task_id | some f ↦ some f ] },
  return t,
)
focus_first task_id (m, raise e) = (m, raise e)

-- `create_task`, with the identifier that is given or generated.
unfoldable pub create_task : Tick → String → NewTask → Manager → Manager × Res RuntimeTask
unfolding save new_task
create_task tick task_id n m = elim (lookup task_id m.tasks) [
  | some t ↦ (m, return t)
  | none ↦ focus_first task_id (
      save tick (new_task tick.now task_id n)
        (with_event (make_event tick task_id "TASK_CREATED" [])) m)
]

-- `_require`, and the rest of the operation with the task it found.
abbrev pub with_task :
    {A : Type 0} → String → Manager → (RuntimeTask → Manager × Res A) → Manager × Res A
with_task task_id m body = elim (lookup task_id m.tasks) [
  | none ↦ (m, raise key_error)
  | some t ↦ body t
]

abbrev pub touched : Tick → RuntimeTask → RuntimeTask
touched tick t = record t { updated_at = tick.now }

unfoldable pub update_task : Tick → String → List Change → Manager → Manager × Res RuntimeTask
unfolding save
update_task tick task_id changes m =
    with_task task_id m λ current. save tick (touched tick (replace current changes)) plain m

-- `{**metadata, key: safe_json(value)}`, for a dictionary.
abbrev pub with_entry : String → Fields → Params → Params
with_entry key fs metadata = insert key (obj (safe_fields fs)) metadata

unfoldable pub set_workflow : Tick → String → Fields → Manager → Manager × Res RuntimeTask
unfolding update_task
set_workflow tick task_id workflow m = with_task task_id m λ current.
    update_task tick task_id
      (Change.metadata (with_entry "workflow" workflow current.metadata) ∷ []) m

unfoldable pub update_workflow :
    Tick → String → Fields → String → Manager → Manager × Res RuntimeTask
unfolding save
update_workflow tick task_id workflow event_type m = with_task task_id m λ current.
    save tick
      (touched tick (record current { metadata = with_entry "workflow" workflow current.metadata }))
      (with_event
        (make_event tick task_id event_type (("workflow", obj (safe_fields workflow)) ∷ [])))
      m

unfoldable pub set_pending_input : Tick → String → Fields → Manager → Manager × Res RuntimeTask
unfolding save
set_pending_input tick task_id pending m = with_task task_id m λ current.
    save tick
      (touched tick
        (record current { metadata = with_entry "pending_input" pending current.metadata }))
      (with_event (
        make_event tick task_id "INPUT_REQUESTED"
          (("pending_input", obj (safe_fields pending)) ∷ [])))
      m

unfoldable pub clear_pending_input : Tick → String → String → Manager → Manager × Res RuntimeTask
unfolding save
clear_pending_input tick task_id event_type m = with_task task_id m λ current.
    save tick (touched tick (record current { metadata = remove "pending_input" current.metadata }))
      (with_event (make_event tick task_id event_type [])) m

-- `event`
unfoldable pub record_event : Tick → String → String → Params → Manager → Manager × Res RuntimeTask
unfolding save
record_event tick task_id event_type metadata m = with_task task_id m λ current.
    save tick (touched tick current) (with_event (make_event tick task_id event_type metadata)) m
