-- ===== src/Runtime/Transitions.antt =====
-- agent_control/runtime.py: the transitions of a task and the focus keep the registry sound and obey
-- the table.
use freaky_monkey.Base.{
  String, Bool, true, false, not, Option, none, some, List, [], ◌∷◌, ◌≡◌, refl, inl, inr,
  Bool-cases, if◌then◌else◌,
}
use freaky_monkey.Runtime.State.{RuntimeState, cancelled, is_known, may_move}
use freaky_monkey.Runtime.Task.{RuntimeTask, Change}
use freaky_monkey.Runtime.Store.{Write}
use freaky_monkey.Runtime.Manager.{
  Manager, Tick, Res, return, raise, RuntimeError, invalid_transition, save, make_event,
}
use freaky_monkey.Runtime.Moves.{
  moved, full_changes, move, transition_task, cancel_task, set_focus, drop_approval, event_name,
  state_names,
}
use freaky_monkey.Runtime.Lawful.{
  may_move-Reaches, Sound, Steps, Steps-same, IsSame, IsWritten, same-Steps,
}
use freaky_monkey.Runtime.Lifecycle.{replace-task_id, with_task-Steps, save-IsWritten, then_same}

drop_approval-IsSame :
    (gone : Bool) (k : String) (r : Manager × Res RuntimeTask)
    → IsSame r.0 (drop_approval gone k r).0
drop_approval-IsSame true k (m, return t) = (refl, refl)
drop_approval-IsSame false k (m, return t) = (refl, refl)
drop_approval-IsSame gone k (m, raise e) = (refl, refl)

abbrev pub move_write : Tick → RuntimeTask → RuntimeState → Option String → Bool → Write
move_write tick c target event_type gone = record {
  event = some (
      make_event tick c.task_id (event_name event_type c.state target)
        (state_names c.state target));
  approval = none;
  remove_approval = gone;
  resource = none;
}

pub move-IsWritten :
    (tick : Tick) (c : RuntimeTask) (target : RuntimeState) (e : Option String) (gone : Bool)
    (cs : List Change) (m : Manager)
    → may_move c.state target ≡ true
    → IsWritten c m (move tick c target e gone cs m).0
unfolding move moved
move-IsWritten tick c target e gone cs m h =
    let saved = save tick (moved tick.now c target cs) (move_write tick c target e gone) m in
    then_same c m saved.0 (move tick c target e gone cs m).0
      (save-IsWritten tick c (moved tick.now c target cs) (move_write tick c target e gone) m
        (replace-task_id c (full_changes tick.now c target cs)) (may_move-Reaches c.state target h))
      (drop_approval-IsSame gone c.task_id saved)

pub guard-IsWritten :
    {A : Type 0} (b : Bool) (c : RuntimeTask) (m : Manager) (e : RuntimeError)
    (act : Manager × Res A)
    → (b ≡ true → IsWritten c m act.0)
    → IsWritten c m (if not b then (m, raise e) else act).0
guard-IsWritten true c m e act f = f refl
guard-IsWritten false c m e act f = inl (refl, refl)

pub transition_task-Steps :
    (tick : Tick) (k : String) (target : RuntimeState) (e : Option String) (gone : Bool)
    (cs : List Change) (m : Manager)
    → Sound m
    → Steps m (transition_task tick k target e gone cs m).0
unfolding transition_task
transition_task-Steps tick k target e gone cs m h =
    let act = λ (c : RuntimeTask). move tick c target e gone cs m in
    elim (Bool-cases (is_known target)) [
      | inr unknown ↦ rw (unknown, transition_task) (Steps-same m h)
      | inl known ↦
          rw (known, transition_task)
            (with_task-Steps k m
              (λ c. if not (may_move c.state target) then (m, raise invalid_transition) else act c)
              h
              (λ c found.
                guard-IsWritten (may_move c.state target) c m invalid_transition (act c)
                  (move-IsWritten tick c target e gone cs m)))
    ]

pub cancel_task-Steps :
    (tick : Tick) (k reason : String) (m : Manager)
    → Sound m
    → Steps m (cancel_task tick k reason m).0
unfolding cancel_task
cancel_task-Steps tick k reason m h =
    transition_task-Steps tick k cancelled (some "TASK_CANCELLED") true
      (Change.failure_state reason ∷ Change.current_phase "cancelled" ∷ []) m h

pub set_focus-Steps : (k : Option String) (m : Manager) → Sound m → Steps m (set_focus k m).0
unfolding set_focus
set_focus-Steps none m h = same-Steps m (set_focus none m).0 h (refl, refl)
set_focus-Steps (some k) m h =
    with_task-Steps k m (λ t. (record m { focused_task_id = some k }, return tt)) h
      (λ c found. inl (refl, refl))
