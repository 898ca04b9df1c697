-- ===== src/Runtime/Cleanup.antt =====
-- agent_control/runtime.py: `_garbage_collect` and `clear_history`, over `delete_terminal_tasks` of
-- agent_control/runtime_persistence.py.
use freaky_monkey.Base.{
  String, Bool, true, Option, none, some, List, [], ◌∷◌, ◌+◌, keep, map, reverse, not, ◌&&◌, leb,
  str_eq, if◌then◌else◌,
}
use freaky_monkey.Base.Dict.{remove, keys, values}
use freaky_monkey.Runtime.State.{expired, is_terminal, is_waiting}
use freaky_monkey.Runtime.Task.{RuntimeTask, Resource, Change}
use freaky_monkey.Runtime.Store.{deletable, delete_rows}
use freaky_monkey.Runtime.Manager.{Manager, Tick, storage_error, Res, return, raise}
use freaky_monkey.Runtime.Moves.{transition_task}

-- A waiting task that has not been touched for longer than the time limit.
abbrev pub is_stale : Tick → Manager → RuntimeTask → Bool
is_stale tick m t = is_waiting t.state && not (leb tick.now (t.updated_at + m.waiting_timeout_s))

abbrev pub expiry : List Change
expiry =
    Change.current_phase "expired"
    ∷ Change.approval_state "EXPIRED"
    ∷ Change.failure_state "waiting timeout"
    ∷ Change.failure_category "EXPIRATION"
    ∷ []

unfoldable pub expire : Tick → String → Manager → Manager × Res RuntimeTask
expire tick task_id = transition_task tick task_id expired (some "TASK_EXPIRED") true expiry

abbrev pub note_expired :
    String → Manager × Res RuntimeTask → List String → Manager × Res (List String)
note_expired task_id (m, return t) ids = (m, return (task_id ∷ ids))
note_expired task_id (m, raise storage_error) ids = (m, raise storage_error)
note_expired task_id (m, raise _) ids = (m, return ids)

-- One round of the first loop of `_garbage_collect`. A `KeyError` or `ValueError` of the transition
-- passes over the task; an error of the storage ends the operation.
unfoldable pub expire_one : Tick → RuntimeTask → List String → Manager → Manager × Res (List String)
unfolding expire
expire_one tick t ids m =
    if is_stale tick m t
    then note_expired t.task_id (expire tick t.task_id m) ids
    else (m, return ids)

unfoldable pub expire_all :
    Tick → List RuntimeTask → List String → Manager → Manager × Res (List String)
unfolding expire_one
expire_all tick [] ids m = (m, return ids)
expire_all tick (t ∷ ts) ids m =
    let r = expire_one tick t ids m in
    elim r.1 [ return ids' ↦ expire_all tick ts ids' r.0 | raise e ↦ (r.0, raise e) ]

abbrev pub of_task : String → String × Resource → Bool
of_task task_id (k, r) = str_eq r.task_id task_id

abbrev pub first_key : List (String × RuntimeTask) → Option String
first_key [] = none
first_key ((k, t) ∷ m) = some k

abbrev refocus : String → Option String → List (String × RuntimeTask) → Option String
refocus task_id none ts = none
refocus task_id (some f) ts = if str_eq f task_id then first_key ts else some f

-- The body of the loop over the removed tasks.
unfoldable pub forget : String → Manager → Manager
forget task_id m = record m {
  tasks = remove task_id m.tasks;
  approvals = remove task_id m.approvals;
  events = keep (λ e. not (str_eq e.task_id task_id)) m.events;
  resources = keep (λ r. not (of_task task_id r)) m.resources;
  focused_task_id = refocus task_id m.focused_task_id (remove task_id m.tasks);
}

unfoldable pub forget_all : List String → Manager → Manager
forget_all [] m = m
forget_all (k ∷ ks) m = forget_all ks (forget k m)

-- `delete_terminal_tasks`, and the loop that follows it in both of its callers. It does nothing for
-- no candidates.
unfoldable pub delete_terminal_tasks : Tick → List String → Manager → Manager × Res (List String)
unfolding forget_all
delete_terminal_tasks tick [] m = (m, return [])
delete_terminal_tasks tick (k ∷ ks) m =
    let removed = deletable m.db (k ∷ ks) in
    if tick.deletes
    then (forget_all removed (record m { db = delete_rows m.db removed }), return removed)
    else (m, raise storage_error)

-- A terminal task that was last touched before the retention period.
abbrev pub is_old : Tick → Manager → RuntimeTask → Bool
is_old tick m t = is_terminal t.state && leb (t.updated_at + m.terminal_retention_s) tick.now

abbrev pub task_ids : List RuntimeTask → List String
task_ids = map (λ t. t.task_id)

abbrev pub Collected : Type 0
Collected = List String × List String

abbrev pub pair_removed : List String → Manager × Res (List String) → Manager × Res Collected
pair_removed ids (m, return removed) = (m, return (reverse ids, removed))
pair_removed ids (m, raise e) = (m, raise e)

-- The result is the identifiers of the expired and of the removed tasks.
unfoldable pub garbage_collect : Tick → Manager → Manager × Res Collected
unfolding expire_all delete_terminal_tasks
garbage_collect tick m =
    let r = expire_all tick (values m.tasks) [] m in
    elim r.1 [
      | return ids ↦
          pair_removed ids
            (delete_terminal_tasks tick (task_ids (keep (is_old tick r.0) (values r.0.tasks))) r.0)
      | raise e ↦ (r.0, raise e)
    ]

abbrev pub terminal_entry : String × RuntimeTask → Bool
terminal_entry (k, t) = is_terminal t.state

unfoldable pub clear_history : Tick → Manager → Manager × Res (List String)
unfolding delete_terminal_tasks
clear_history tick m = delete_terminal_tasks tick (keys (keep terminal_entry m.tasks)) m
