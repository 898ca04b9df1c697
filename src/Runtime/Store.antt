-- ===== src/Runtime/Store.antt =====
-- agent_control/runtime_persistence.py: the tables and the transactions of `RuntimePersistence`. A
-- row of the table of tasks is a task whose texts are redacted. SQLite itself is not modelled: a
-- transaction is atomic, and whether it fails is up to the caller's `Tick`.
use freaky_monkey.Base.{
  String, Bool, false, Option, none, some, List, [], ◌∷◌, ◌++◌, keep, not, ◌&&◌, str_eq,
  if◌then◌else◌,
}
use freaky_monkey.Base.Dict.{contains, lookup, insert, remove, has_key, keys}
use freaky_monkey.Json.{Params}
use freaky_monkey.Runtime.State.{is_terminal}
use freaky_monkey.Runtime.Redaction.{safe_goal, safe_params}
use freaky_monkey.Runtime.Task.{RuntimeTask, RuntimeEvent, Resource}

pub record Tables : Type 0 where
  pub tasks : List (String × RuntimeTask)
  pub events : List RuntimeEvent
  pub approvals : List (String × Params)
  pub resources : List (String × Resource)

abbrev text_or : String → String → String
text_or a b = if str_eq a "" then b else a

-- `_task_values`
unfoldable pub to_row : RuntimeTask → RuntimeTask
to_row t = record t {
  goal = safe_goal t.goal;
  failure_category = text_or t.failure_category t.failure_state;
  verification_summary = text_or t.verification_summary t.result_summary;
  recovery_context = safe_params t.recovery_context;
  metadata = safe_params t.metadata;
}

unfoldable pub safe_event : RuntimeEvent → RuntimeEvent
safe_event e = record e { metadata = safe_params e.metadata }

-- The optional arguments of `commit`.
pub record Write : Type 0 where
  pub event : Option RuntimeEvent
  pub approval : Option Params
  pub remove_approval : Bool
  pub resource : Option Resource

abbrev pub plain : Write
plain = record { event = none; approval = none; remove_approval = false; resource = none }

abbrev pub add_event : Option RuntimeEvent → List RuntimeEvent → List RuntimeEvent
add_event none es = es
add_event (some e) es = es ++ (e ∷ [])

abbrev pub safe_event? : Option RuntimeEvent → Option RuntimeEvent
safe_event? none = none
safe_event? (some e) = some (safe_event e)

abbrev pub write_approval :
    String → Option Params → Bool → List (String × Params) → List (String × Params)
write_approval k none gone m = if gone then remove k m else m
write_approval k (some p) gone m =
    if gone then remove k (insert k (safe_params p) m) else insert k (safe_params p) m

abbrev write_resource : Option Resource → List (String × Resource) → List (String × Resource)
write_resource none m = m
write_resource (some r) m = insert r.resource_key r m

-- `commit`, when it succeeds.
unfoldable pub commit : Tables → RuntimeTask → Write → Tables
commit db t w = record {
  tasks = insert t.task_id (to_row t) db.tasks;
  events = add_event (safe_event? w.event) db.events;
  approvals = write_approval t.task_id w.approval w.remove_approval db.approvals;
  resources = write_resource w.resource db.resources;
}

abbrev detached : String → Resource → Resource
detached owner r = if str_eq r.task_id owner then record r { state = "DETACHED" } else r

abbrev detach_row : String → String → List (String × Resource) → List (String × Resource)
detach_row owner key m = elim (lookup key m) [ none ↦ m | some r ↦ insert key (detached owner r) m ]

-- `delete_resource`, when it succeeds.
unfoldable pub delete_resource : Tables → String → String → RuntimeTask → RuntimeEvent → Tables
delete_resource db owner key t e = record {
  tasks = insert t.task_id (to_row t) db.tasks;
  events = db.events ++ (safe_event e ∷ []);
  approvals = db.approvals;
  resources = detach_row owner key db.resources;
}

-- The rows that `delete_terminal_tasks` may delete, for `allowed_states=TERMINAL`.
abbrev deletable_row : Tables → List String → String × RuntimeTask → Bool
deletable_row db ids (k, t) = contains ids k && is_terminal t.state && not (has_key k db.approvals)

unfoldable pub deletable : Tables → List String → List String
deletable db ids = keys (keep (deletable_row db ids) db.tasks)

abbrev pub event_of : List String → RuntimeEvent → Bool
event_of ids e = contains ids e.task_id

abbrev resource_of : List String → String × Resource → Bool
resource_of ids (k, r) = contains ids r.task_id

unfoldable pub delete_rows : Tables → List String → Tables
delete_rows db ids = record {
  tasks = keep (λ (k, t). not (contains ids k)) db.tasks;
  events = keep (λ e. not (event_of ids e)) db.events;
  approvals = db.approvals;
  resources = keep (λ r. not (resource_of ids r)) db.resources;
}
