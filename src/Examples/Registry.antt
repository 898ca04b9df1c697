-- ===== src/Examples/Registry.antt =====
-- The registry of agent_control/runtime.py on a table of one task that waits for an approval.
use freaky_monkey.Base.{
  Bool, true, false, none, some, List, [], ◌∷◌, ◌≡◌, refl, arith, inl, inr, eq_iff, str_eq,
  Bool-cases,
}
use freaky_monkey.Base.Dict.{lookup}
use freaky_monkey.Json
use freaky_monkey.Json.{str, obj, Params}
use freaky_monkey.Runtime.Redaction.{safe_params}
use freaky_monkey.Runtime.Redacted.{IsClean}
use freaky_monkey.Runtime.Stored.{perform_all-IsClean}
use freaky_monkey.Runtime.State.{
  RuntimeState, waiting_for_approval, running, completed, may_move, allowed,
}
use freaky_monkey.Runtime.Task.{RuntimeTask, Change}
use freaky_monkey.Runtime.Store.{to_row}
use freaky_monkey.Runtime.Manager.{Manager, Tick}
use freaky_monkey.Runtime.Moves.{transition_task}
use freaky_monkey.Runtime.Approvals.{resolve_locked}
use freaky_monkey.Runtime.Restart.{recover_after_restart}
use freaky_monkey.Runtime.Operations.{Operation, perform, perform_all}
use freaky_monkey.Runtime.Lawful.{Sound, IsKeyed, IsStored}
use freaky_monkey.Runtime.Evolution.{Evolves}
use freaky_monkey.Runtime.Registry.{perform-IsEvolved, perform_all-Sound}
use freaky_monkey.Runtime.Outcomes.{returns, transition_task-returns, transition_task_raises}
use freaky_monkey.Runtime.Answers.{Answered, resolve_locked-Answered}
use freaky_monkey.Runtime.Recovered.{IsIdle, Commits, recover_after_restart-IsIdle}

abbrev task_in : RuntimeState → RuntimeTask
task_in state = record {
  task_id = "t";
  goal = [];
  task_type = "";
  source_input_id = "";
  state = state;
  created_at = 0;
  updated_at = 0;
  started_at = none;
  completed_at = none;
  current_phase = "";
  approval_state = "WAITING";
  verification_state = "";
  verification_summary = "";
  failure_state = "";
  failure_category = "";
  parent_task_id = none;
  browser_resource_key = none;
  browser_site = none;
  browser_resource_state = none;
  result_summary = "";
  recovery_context = [];
  metadata = [];
}

abbrev manager_of : RuntimeTask → Manager
manager_of t = record {
  tasks = (t.task_id, t) ∷ [];
  events = [];
  approvals = ("t", []) ∷ [];
  resources = [];
  focused_task_id = none;
  terminal_retention_s = 86400;
  waiting_timeout_s = 172800;
  db = record {
    tasks = (t.task_id, to_row t) ∷ [];
    events = [];
    approvals = ("t", []) ∷ [];
    resources = [];
  };
}

abbrev tick_of : Bool → Tick
tick_of works = record { now = 60; event_id = λ k. k; commits = λ k. works; deletes = works }

manager_of-Sound : (t : RuntimeTask) → Sound (manager_of t)
unfolding lookup
manager_of-Sound t = (keyed, stored)
  where
    keyed : IsKeyed (manager_of t)
    keyed k u found = elim (Bool-cases (str_eq t.task_id k)) [
      | inl hit ↦ ground (arith, eq_iff t.task_id k)
      | inr miss ↦ absurd (ground arith)
    ]

    stored : IsStored (manager_of t)
    stored k = ground arith

abbrev waiting : RuntimeTask
waiting = task_in waiting_for_approval

found : (t : RuntimeTask) → t.task_id ≡ "t" → lookup "t" (manager_of t).tasks ≡ some t
unfolding lookup
found t e = ground (arith, eq_iff t.task_id "t")

abbrev grant : Operation
grant = Operation.answer_approval "t" true none

perform-IsEvolved_example :
    Evolves
      (lookup "t" (manager_of waiting).tasks)
      (lookup "t" (perform (tick_of true) grant (manager_of waiting)).0.tasks)
perform-IsEvolved_example =
    perform-IsEvolved (tick_of true) grant (manager_of waiting) (manager_of-Sound waiting) refl "t"

abbrev script : List (Tick × Operation)
script =
    (tick_of false, grant)
    ∷ (tick_of true, grant)
    ∷ (tick_of true, Operation.cancel "t" "stop")
    ∷ (tick_of true, Operation.clear)
    ∷ []

perform_all-Sound_example : Sound (perform_all script (manager_of waiting))
perform_all-Sound_example = perform_all-Sound script (manager_of waiting) (manager_of-Sound waiting)

abbrev secret : Params
secret =
    ("card", obj (Json.field "api_key" (str "k-1") Json.end)) ∷ ("password", str "hunter2") ∷ []

abbrev revealing : List (Tick × Operation)
revealing =
    (tick_of true, Operation.update "t" (Change.metadata secret ∷ []))
    ∷ (tick_of true, Operation.note "t" "SEEN" secret)
    ∷ (tick_of true, Operation.ask_approval "t" secret)
    ∷ (tick_of true, grant)
    ∷ []

waiting-IsClean : IsClean (manager_of waiting).db
unfolding to_row safe_params
waiting-IsClean = record { tasks = (refl, tt); events = tt; approvals = (refl, tt) }

perform_all-IsClean_example : IsClean (perform_all revealing (manager_of waiting)).db
perform_all-IsClean_example = perform_all-IsClean revealing (manager_of waiting) waiting-IsClean

refused :
    returns (transition_task (tick_of true) "t" completed none true [] (manager_of waiting)).1
    ≡ false
unfolding may_move allowed
refused =
    transition_task-returns (tick_of true) completed none true [] (manager_of waiting) "t" waiting
      (found waiting refl)

transition_task_raises_example :
    (transition_task (tick_of true) "t" completed none true [] (manager_of waiting)).0
    ≡ manager_of waiting
transition_task_raises_example =
    transition_task_raises (tick_of true) completed none true [] (manager_of waiting) "t" refused

resolve_locked-Answered_example :
    Answered "t" true
      (manager_of waiting)
      (resolve_locked (tick_of true) "t" true none (manager_of waiting))
resolve_locked-Answered_example =
    resolve_locked-Answered (tick_of true) "t" true none (manager_of waiting)
      (manager_of-Sound waiting).0

all_commit : Commits (tick_of true)
all_commit k = refl

recover_after_restart-IsIdle_example :
    IsIdle (recover_after_restart (tick_of true) (manager_of (task_in running))) "t"
recover_after_restart-IsIdle_example =
    recover_after_restart-IsIdle (tick_of true) (manager_of (task_in running)) all_commit
      (manager_of-Sound (task_in running)).0 "t"
