-- ===== src/Runtime/Restart.antt =====
-- agent_control/runtime.py: `_load`, `_rehydrate_approval_states` and `_recover_after_restart`. The
-- rows are read as they were written, so none is passed over as unreadable, and in the order of the
-- tables: the `ORDER BY` of the queries, which decides the order of the dictionaries and the task in
-- focus, is not modelled.
use freaky_monkey.Base.{
  ℕ, String, Bool, true, false, Option, none, some, List, [], ◌∷◌, not, ◌&&◌, ◌||◌, str_eq,
  if◌then◌else◌,
}
use freaky_monkey.Base.Dict.{lookup, insert, values}
use freaky_monkey.Json.{bool, str, Params}
use freaky_monkey.Runtime.State.{
  waiting_for_approval, recovery_required, is_terminal, is_in_flight, same_state, state_text,
}
use freaky_monkey.Runtime.Task.{RuntimeTask, Resource}
use freaky_monkey.Runtime.Store.{Tables, plain}
use freaky_monkey.Runtime.Manager.{Manager, Tick, Res, return, raise, make_event, save, with_event}
use freaky_monkey.Runtime.Cleanup.{garbage_collect, first_key}

-- `_load`, up to the calls at its end
unfoldable pub read_tables : (retention_s timeout_s : ℕ) → Tables → Manager
read_tables retention_s timeout_s db = record {
  tasks = db.tasks;
  events = db.events;
  approvals = db.approvals;
  resources = db.resources;
  focused_task_id = first_key db.tasks;
  terminal_retention_s = retention_s;
  waiting_timeout_s = timeout_s;
  db = db;
}

-- Whether an approval leaves its task as it is.
abbrev pub is_settled : RuntimeTask → Bool
is_settled t =
    same_state t.state waiting_for_approval && str_eq t.approval_state "WAITING"
    || is_terminal t.state
    || same_state t.state recovery_required

abbrev pub owned : ℕ → RuntimeTask → RuntimeTask
owned now t = record t {
  state = waiting_for_approval;
  approval_state = "WAITING";
  current_phase = "approval";
  updated_at = now;
  completed_at = none;
}

abbrev rehydrated_names : RuntimeTask → Params
rehydrated_names t =
    ("previous_state", str (state_text t.state)) ∷ ("reason", str "persisted_approval_owner") ∷ []

-- One round of the loop of `_rehydrate_approval_states`: an error of the storage passes over it.
unfoldable pub rehydrate_one : Tick → String × Params → Manager → Manager
unfolding save
rehydrate_one tick (task_id, approval) m = elim (lookup task_id m.tasks) [
  | none ↦ m
  | some t ↦
      if is_settled t
      then m
      else ((save tick (owned tick.now t)
          (record {
            event = some (make_event tick task_id "APPROVAL_REHYDRATED" (rehydrated_names t));
            approval = some approval;
            remove_approval = false;
            resource = none;
          })
          m).0)
]

unfoldable pub rehydrate : Tick → List (String × Params) → Manager → Manager
unfolding rehydrate_one
rehydrate tick [] m = m
rehydrate tick (a ∷ rest) m = rehydrate tick rest (rehydrate_one tick a m)

abbrev stale_if_attached : Option String → Option String → Option String
stale_if_attached none s = s
stale_if_attached (some key) s = if str_eq key "" then s else some "STALE"

abbrev pub restart_names : RuntimeTask → Params
restart_names t =
    ("previous_state", str (state_text t.state)) ∷ ("reason", str "process_restart") ∷ []

-- The task that `_recover_after_restart` makes of one that was in flight.
unfoldable pub interrupted : ℕ → RuntimeTask → RuntimeTask
interrupted now t = record t {
  state = recovery_required;
  updated_at = now;
  current_phase = "recovery";
  recovery_context = insert "recovery_required" (bool true) (
      insert "reason" (str "process_restart")
        (insert "previous_state" (str (state_text t.state)) t.recovery_context));
  verification_state = "UNKNOWN";
  browser_resource_state = stale_if_attached t.browser_resource_key t.browser_resource_state;
}

unfoldable pub recover_one : Tick → RuntimeTask → Manager → Manager
unfolding save interrupted
recover_one tick t m =
    if not (is_in_flight t.state)
    then m
    else ((save tick (interrupted tick.now t)
        (with_event (make_event tick t.task_id "RECOVERY_REQUIRED" (restart_names t))) m).0)

unfoldable pub recover_tasks : Tick → List RuntimeTask → Manager → Manager
unfolding recover_one
recover_tasks tick [] m = m
recover_tasks tick (t ∷ ts) m = recover_tasks tick ts (recover_one tick t m)

-- One round of the loop over the resources.
unfoldable pub mark_stale : Tick → String × Resource → Manager → Manager
unfolding save
mark_stale tick (key, r) m =
    if not (str_eq r.state "ATTACHED" || str_eq r.state "RUNNING")
    then m
    else (let marked = record m {
      resources = insert key (record r { state = "STALE" }) m.resources;
    } in
        elim (lookup r.task_id m.tasks) [
          | none ↦ marked
          | some t ↦
              (save tick (record t { browser_resource_state = some "STALE"; updated_at = tick.now })
                plain marked).0
        ])

unfoldable pub mark_all : Tick → List (String × Resource) → Manager → Manager
unfolding mark_stale
mark_all tick [] m = m
mark_all tick (r ∷ rs) m = mark_all tick rs (mark_stale tick r m)

unfoldable pub recover_after_restart : Tick → Manager → Manager
unfolding recover_tasks mark_all
recover_after_restart tick m =
    let recovered = recover_tasks tick (values m.tasks) m in
    mark_all tick recovered.resources recovered

-- `__init__` over a database: an error of the first collection is raised.
unfoldable pub start : Tick → (retention_s timeout_s : ℕ) → Tables → Manager × Res (Unit {0})
unfolding garbage_collect rehydrate recover_after_restart
start tick retention_s timeout_s db =
    let r = garbage_collect tick (read_tables retention_s timeout_s db) in
    elim r.1 [
      | return ids ↦ (recover_after_restart tick (rehydrate tick r.0.approvals r.0), return tt)
      | raise e ↦ (r.0, raise e)
    ]
