-- ===== src/Runtime/Moves.antt =====
-- agent_control/runtime.py: `transition_task`, `cancel_task`, `set_focus` and the resources of
-- `RuntimeManager`.
use freaky_monkey.Base.{
  ℕ, String, Bool, true, false, Option, none, some, List, [], ◌∷◌, ◌++◌, not, ◌&&◌, str_eq,
  if◌then◌else◌,
}
use freaky_monkey.Base.Dict.{lookup, insert, remove}
use freaky_monkey.Json.{null, str, Params}
use freaky_monkey.Runtime.State.{
  RuntimeState, running, verifying, cancelled, is_known, is_terminal, same_state, may_move,
  state_text,
}
use freaky_monkey.Runtime.Task.{
  RuntimeTask, Resource, Change, replace, default_started_at, default_completed_at,
  default_current_phase,
}
use freaky_monkey.Runtime.Store.{delete_resource}
use freaky_monkey.Runtime.Manager.{
  Manager, Tick, unknown_state, invalid_transition, storage_error, Res, return, raise, make_event,
  save, with_task,
}

abbrev is_none : Option ℕ → Bool
is_none none = true
is_none (some n) = false

-- The keyword arguments of a transition with those that `transition_task` fills in.
unfoldable pub full_changes : ℕ → RuntimeTask → RuntimeState → List Change → List Change
full_changes now current target changes =
    let started =
      if same_state target running && is_none current.started_at
      then default_started_at now changes
      else changes in
    let ended = if is_terminal target then default_completed_at now started else started in
    if same_state target verifying then default_current_phase "verification" ended else ended

-- The task after an accepted transition.
unfoldable pub moved : ℕ → RuntimeTask → RuntimeState → List Change → RuntimeTask
moved now current target changes =
    record (replace current (full_changes now current target changes)) {
      state = target;
      updated_at = now;
    }

-- The name of the event: the caller's, or one of the two defaults.
abbrev pub event_name : Option String → RuntimeState → RuntimeState → String
event_name none s t = if same_state s t then "TASK_STATE_UPDATED" else "TASK_STATE_CHANGED"
event_name (some e) s t =
    if str_eq e ""
    then (if same_state s t then "TASK_STATE_UPDATED" else "TASK_STATE_CHANGED")
    else e

abbrev pub state_names : RuntimeState → RuntimeState → Params
state_names s t =
    if same_state s t then [] else ("from", str (state_text s)) ∷ ("to", str (state_text t)) ∷ []

abbrev pub drop_approval : Bool → String → Manager × Res RuntimeTask → Manager × Res RuntimeTask
drop_approval gone task_id (m, return t) =
    (if gone then record m { approvals = remove task_id m.approvals } else m, return t)
drop_approval gone task_id (m, raise e) = (m, raise e)

-- The end of `transition_task`, for a target that the table allows.
unfoldable pub move :
    Tick
    → RuntimeTask
    → RuntimeState
    → Option String
    → Bool
    → List Change
    → Manager
    → Manager × Res RuntimeTask
unfolding save
move tick current target event_type gone changes m = drop_approval gone current.task_id (
    save tick (moved tick.now current target changes)
      (record {
        event = some (
            make_event tick current.task_id (event_name event_type current.state target)
              (state_names current.state target));
        approval = none;
        remove_approval = gone;
        resource = none;
      })
      m)

unfoldable pub transition_task :
    Tick
    → String
    → RuntimeState
    → Option String
    → Bool
    → List Change
    → Manager
    → Manager × Res RuntimeTask
unfolding move
transition_task tick task_id target event_type gone changes m =
    if not (is_known target)
    then (m, raise unknown_state)
    else with_task task_id m λ current.
      if not (may_move current.state target)
      then (m, raise invalid_transition)
      else move tick current target event_type gone changes m

unfoldable pub cancel_task : Tick → String → String → Manager → Manager × Res RuntimeTask
cancel_task tick task_id reason =
    transition_task tick task_id cancelled (some "TASK_CANCELLED") true
      (Change.failure_state reason ∷ Change.current_phase "cancelled" ∷ [])

unfoldable pub set_focus : Option String → Manager → Manager × Res (Unit {0})
set_focus none m = (record m { focused_task_id = none }, return tt)
set_focus (some task_id) m =
    with_task task_id m λ t. (record m { focused_task_id = some task_id }, return tt)

abbrev pub resource_names : Resource → Params
resource_names r =
    ("resource_key", str r.resource_key)
    ∷ ("site", elim r.site [ none ↦ null | some site ↦ str site ])
    ∷ []

abbrev pub keep_resource : Resource → Manager × Res RuntimeTask → Manager × Res RuntimeTask
keep_resource r (m, return t) =
    (record m { resources = insert r.resource_key r m.resources }, return t)
keep_resource r (m, raise e) = (m, raise e)

unfoldable pub attach_resource : Tick → String → Resource → Manager → Manager × Res RuntimeTask
unfolding save
attach_resource tick task_id r m = with_task task_id m λ current. keep_resource r (
    save tick
      (record current {
        browser_resource_key = some r.resource_key;
        browser_site = r.site;
        browser_resource_state = some r.state;
        updated_at = tick.now;
      })
      (record {
        event = some (make_event tick task_id "RESOURCE_ATTACHED" (resource_names r));
        approval = none;
        remove_approval = false;
        resource = some r;
      })
      m)

abbrev pub detached_task : Tick → RuntimeTask → RuntimeTask
detached_task tick t = record t { browser_resource_state = some "DETACHED"; updated_at = tick.now }

abbrev pub detach :
    Tick → String → String → Resource → RuntimeTask → Manager → Manager × Res (Unit {0})
detach tick task_id key r t m =
    let e = make_event tick task_id "RESOURCE_DETACHED" (("resource_key", str key) ∷ []) in
    if tick.commits task_id
    then (
      record m {
        db = delete_resource m.db task_id key t e;
        resources = insert key (record r { state = "DETACHED" }) m.resources;
        tasks = insert task_id t m.tasks;
        events = m.events ++ (e ∷ []);
      },
      return tt,
    )
    else (m, raise storage_error)

unfoldable pub detach_resource : Tick → String → String → Manager → Manager × Res (Unit {0})
detach_resource tick task_id key m = elim (lookup key m.resources) [
  | none ↦ (m, return tt)
  | some r ↦
      if str_eq r.task_id task_id
      then with_task task_id m (λ t. detach tick task_id key r (detached_task tick t) m)
      else (m, return tt)
]
