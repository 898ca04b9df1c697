-- ===== src/Runtime/Outcomes.antt =====
-- agent_control/runtime.py: what `transition_task` returns, and what it leaves when it raises.
use freaky_monkey.Base.{
  String, Bool, true, false, Option, some, List, ◌≡◌, refl, ap, ◌∙◌, arith, ◌&&◌, inl, inr,
  Bool-cases, Option-cases,
}
use freaky_monkey.Base.Dict.{lookup}
use freaky_monkey.Runtime.State.{RuntimeState, is_known, may_move}
use freaky_monkey.Runtime.Task.{RuntimeTask, Change}
use freaky_monkey.Runtime.Store.{Write}
use freaky_monkey.Runtime.Manager.{Manager, Tick, Res, return, raise, save, with_task}
use freaky_monkey.Runtime.Moves.{moved, full_changes, move, transition_task, drop_approval}
use freaky_monkey.Runtime.Lifecycle.{replace-task_id}
use freaky_monkey.Runtime.Transitions.{move_write}

abbrev pub returns {ℓ} : {A : Type ℓ} → Res A → Bool
returns (return a) = true
returns (raise e) = false

pub save-returns :
    (tick : Tick) (t : RuntimeTask) (w : Write) (m : Manager)
    → returns (save tick t w m).1 ≡ tick.commits t.task_id
unfolding save
save-returns tick t w m = ground arith

drop_approval-returns :
    (b : Bool) (k : String) (o : Manager × Res RuntimeTask)
    → returns (drop_approval b k o).1 ≡ returns o.1
drop_approval-returns b k (m, return t) = refl
drop_approval-returns b k (m, raise e) = refl

pub save_raises :
    (tick : Tick) (t : RuntimeTask) (w : Write) (m : Manager)
    → tick.commits t.task_id ≡ false
    → (save tick t w m).0 ≡ m
unfolding save
save_raises tick t w m h = rw (h, save) refl

drop_approval_raises :
    (b : Bool) (k : String) (o : Manager × Res RuntimeTask)
    → returns o.1 ≡ false
    → (drop_approval b k o).0 ≡ o.0
drop_approval_raises b k (m, return t) h = absurd (ground arith)
drop_approval_raises b k (m, raise e) h = refl

module _ (tick : Tick) (target : RuntimeState) (e : Option String) (drop : Bool) (cs : List Change)
    (m : Manager) where
  move-returns :
      (c : RuntimeTask) → returns (move tick c target e drop cs m).1 ≡ tick.commits c.task_id
  unfolding move moved
  move-returns c =
      let t = moved tick.now c target cs in
      let w = move_write tick c target e drop in
      drop_approval-returns drop c.task_id (save tick t w m)
      ∙ save-returns tick t w m
      ∙ ap tick.commits (replace-task_id c (full_changes tick.now c target cs))

  move_raises :
      (c : RuntimeTask) → tick.commits c.task_id ≡ false → (move tick c target e drop cs m).0 ≡ m
  unfolding move moved
  move_raises c h =
      let t = moved tick.now c target cs in
      let w = move_write tick c target e drop in
      let bad = ap tick.commits (replace-task_id c (full_changes tick.now c target cs)) ∙ h in
      drop_approval_raises drop c.task_id (save tick t w m) (save-returns tick t w m ∙ bad)
      ∙ save_raises tick t w m bad

  -- For a task that is there: `transition_task` returns exactly when the target is a state of the
  -- program, it is the task's own or one that the table allows from it, and the transaction succeeds.
  pub transition_task-returns :
      (k : String) (t : RuntimeTask)
      → lookup k m.tasks ≡ some t
      → returns (transition_task tick k target e drop cs m).1
        ≡ (is_known target && (may_move t.state target && tick.commits t.task_id))
  unfolding transition_task
  transition_task-returns k t found = elim (Bool-cases (is_known target)) [
    | inr unknown ↦ rw (unknown, transition_task) refl
    | inl known ↦ elim (Bool-cases (may_move t.state target)) [
      | inr bad ↦ rw (known, found, bad, transition_task, with_task) refl
      | inl ok ↦ rw (known, found, ok, transition_task, with_task) (move-returns t)
    ]
  ]

  -- When `transition_task` raises, whatever the reason, the manager is what it was, its tables
  -- included.
  pub transition_task_raises :
      (k : String)
      → returns (transition_task tick k target e drop cs m).1 ≡ false
      → (transition_task tick k target e drop cs m).0 ≡ m
  unfolding transition_task
  transition_task_raises k h = elim (Bool-cases (is_known target)) [
    | inr unknown ↦ rw (unknown, transition_task) refl
    | inl known ↦ elim (Option-cases (lookup k m.tasks)) [
      | inl absent ↦ rw (known, absent, transition_task, with_task) refl
      | inr (t, found) ↦ elim (Bool-cases (may_move t.state target)) [
        | inr bad ↦ rw (known, found, bad, transition_task, with_task) refl
        | inl ok ↦
            rw (known, found, ok, transition_task, with_task)
              (move_raises t (ground (arith, transition_task-returns k t found)))
      ]
    ]
  ]
