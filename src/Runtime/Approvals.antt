-- ===== src/Runtime/Approvals.antt =====
-- agent_control/runtime.py: `request_approval` and `resolve_approval`.
use freaky_monkey.Base.{
  ℕ, String, Bool, true, false, Option, none, some, [], not, ◌||◌, ◌==◌, str_eq, if◌then◌else◌,
}
use freaky_monkey.Base.Dict.{lookup, insert, remove}
use freaky_monkey.Json.{str, Params}
use freaky_monkey.Runtime.State.{
  RuntimeState, waiting_for_approval, waiting_for_user, running, cancelled, same_state, allowed,
  may_move,
}
use freaky_monkey.Runtime.Redaction.{safe_params}
use freaky_monkey.Runtime.Task.{RuntimeTask}
use freaky_monkey.Runtime.Manager.{
  Manager, Tick, invalid_approval, approval_mismatch, Res, return, raise, make_event, save,
  with_task,
}
use freaky_monkey.Runtime.Cleanup.{garbage_collect}

-- `approval_transition_allowed`
abbrev pub may_request : RuntimeState → Bool
may_request s =
    same_state s waiting_for_approval
    || allowed s waiting_for_approval
    || same_state s waiting_for_user

abbrev pub asked_task : Tick → RuntimeTask → RuntimeTask
asked_task tick t = record t {
  state = waiting_for_approval;
  approval_state = "WAITING";
  current_phase = "approval";
  updated_at = tick.now;
}

abbrev pub keep_approval : String → Params → Manager × Res RuntimeTask → Manager × Res (Unit {0})
keep_approval task_id p (m, return t) =
    (record m { approvals = insert task_id p m.approvals }, return tt)
keep_approval task_id p (m, raise e) = (m, raise e)

unfoldable pub request_approval : Tick → String → Params → Manager → Manager × Res (Unit {0})
unfolding save
request_approval tick task_id payload m = with_task task_id m λ current.
    if not (may_request current.state)
    then (m, raise invalid_approval)
    else keep_approval task_id (safe_params payload) (
        save tick (asked_task tick current)
          (record {
            event = some (make_event tick task_id "APPROVAL_REQUESTED" []);
            approval = some (safe_params payload);
            remove_approval = false;
            resource = none;
          })
          m)

-- The test of `resolve_approval` on the identifier of the request, which it makes when one is given.
abbrev pub is_request : Option String → Option Params → Bool
is_request none existing = true
is_request (some id) none = false
is_request (some id) (some p) = elim (lookup "approval_request_id" p) [
  | some (str s) ↦ str_eq s id
  | _ ↦ false
]

abbrev or_now : ℕ → Option ℕ → Option ℕ
or_now now none = some now
or_now now (some n) = some (if n == 0 then now else n)

abbrev pub resolved_state : Bool → RuntimeState
resolved_state true = running
resolved_state false = cancelled

abbrev pub resolved_task : Tick → Bool → RuntimeTask → RuntimeTask
resolved_task tick true t = record t {
  state = running;
  approval_state = "GRANTED";
  current_phase = "execution";
  updated_at = tick.now;
  started_at = or_now tick.now t.started_at;
}
resolved_task tick false t = record t {
  state = cancelled;
  approval_state = "DENIED";
  current_phase = "cancelled";
  updated_at = tick.now;
  completed_at = some tick.now;
  failure_state = "approval denied";
}

abbrev pub resolved_event : Bool → String
resolved_event true = "APPROVAL_GRANTED"
resolved_event false = "APPROVAL_DENIED"

abbrev pub forget_value : Manager × Res RuntimeTask → Manager × Res (Unit {0})
forget_value (m, return t) = (m, return tt)
forget_value (m, raise e) = (m, raise e)

-- From the test of the transition on: the live approval is gone already.
unfoldable pub resolve : Tick → String → Bool → RuntimeTask → Manager → Manager × Res (Unit {0})
unfolding save
resolve tick task_id approved current m =
    if not (may_move current.state (resolved_state approved))
    then (m, raise invalid_approval)
    else forget_value (
        save tick (resolved_task tick approved current)
          (record {
            event = some (make_event tick task_id (resolved_event approved) []);
            approval = none;
            remove_approval = true;
            resource = none;
          })
          m)

-- The part of `resolve_approval` under the lock.
unfoldable pub resolve_locked :
    Tick → String → Bool → Option String → Manager → Manager × Res (Unit {0})
unfolding resolve
resolve_locked tick task_id approved request m = with_task task_id m λ current.
    if not (is_request request (lookup task_id m.approvals))
    then (m, raise approval_mismatch)
    else resolve tick task_id approved current (record m { approvals = remove task_id m.approvals })

unfoldable pub resolve_approval :
    Tick → String → Bool → Option String → Manager → Manager × Res (Unit {0})
unfolding garbage_collect resolve_locked
resolve_approval tick task_id approved request m =
    let r = garbage_collect tick m in
    elim r.1 [
      | return ids ↦ resolve_locked tick task_id approved request r.0
      | raise e ↦ (r.0, raise e)
    ]
