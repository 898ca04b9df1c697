-- ===== src/Runtime/Saved.antt =====
-- agent_control/runtime.py: the operations on one task and the tables that they leave.
use freaky_monkey.Base.{
  String, Bool, true, false, Option, List, [], ◌∷◌, ◌≡◌, refl, inl, inr, Bool-cases, Option-cases,
}
use freaky_monkey.Base.Dict.{lookup}
use freaky_monkey.Json.{Params}
use freaky_monkey.Runtime.State.{RuntimeState, is_known, may_move}
use freaky_monkey.Runtime.Task.{RuntimeTask, Resource, Change}
use freaky_monkey.Runtime.Store.{Write}
use freaky_monkey.Runtime.Manager.{
  Manager, Tick, Res, return, raise, storage_error, save, NewTask, new_task, focus_first,
  with_event, make_event, create_task, with_task,
}
use freaky_monkey.Runtime.Moves.{moved, move, drop_approval, transition_task, keep_resource}
use freaky_monkey.Runtime.Cleanup.{note_expired, forget, forget_all, pair_removed}
use freaky_monkey.Runtime.Approvals.{keep_approval, forget_value}
use freaky_monkey.Runtime.Transitions.{move_write}
use freaky_monkey.Runtime.Operations.{outcome}
use freaky_monkey.Runtime.Redacted.{IsClean, commit-IsClean}

-- The stored tables after an operation are clean.
abbrev pub Leaves {ℓ} : {A : Type ℓ} → Manager × Res A → Type 0
Leaves o = IsClean o.0.db

-- What follows the transaction leaves the tables alone.
focus_first-Leaves :
    (k : String) (o : Manager × Res RuntimeTask) → Leaves o → Leaves (focus_first k o)
focus_first-Leaves k (m, return t) h = h
focus_first-Leaves k (m, raise e) h = h

drop_approval-Leaves :
    (gone : Bool) (k : String) (o : Manager × Res RuntimeTask)
    → Leaves o
    → Leaves (drop_approval gone k o)
drop_approval-Leaves true k (m, return t) h = h
drop_approval-Leaves false k (m, return t) h = h
drop_approval-Leaves gone k (m, raise e) h = h

pub keep_resource-Leaves :
    (r : Resource) (o : Manager × Res RuntimeTask) → Leaves o → Leaves (keep_resource r o)
keep_resource-Leaves r (m, return t) h = h
keep_resource-Leaves r (m, raise e) h = h

pub keep_approval-Leaves :
    (k : String) (p : Params) (o : Manager × Res RuntimeTask)
    → Leaves o
    → Leaves (keep_approval k p o)
keep_approval-Leaves k p (m, return t) h = h
keep_approval-Leaves k p (m, raise e) h = h

pub forget_value-Leaves : (o : Manager × Res RuntimeTask) → Leaves o → Leaves (forget_value o)
forget_value-Leaves (m, return t) h = h
forget_value-Leaves (m, raise e) h = h

pub outcome-Leaves {ℓ} : {A : Type ℓ} (o : Manager × Res A) → Leaves o → Leaves (outcome o)
outcome-Leaves (m, return a) h = h
outcome-Leaves (m, raise e) h = h

pub note_expired-Leaves :
    (k : String) (o : Manager × Res RuntimeTask) (ids : List String)
    → Leaves o
    → Leaves (note_expired k o ids)
note_expired-Leaves k (m, return t) ids h = h
note_expired-Leaves k (m, raise storage_error) ids h = h
note_expired-Leaves k (m, raise _) ids h = h

pub pair_removed-Leaves :
    (ids : List String) (o : Manager × Res (List String)) → Leaves o → Leaves (pair_removed ids o)
pair_removed-Leaves ids (m, return removed) h = h
pair_removed-Leaves ids (m, raise e) h = h

pub forget_all-db : (ks : List String) (m : Manager) → (forget_all ks m).db ≡ m.db
unfolding forget_all forget
forget_all-db [] m = refl
forget_all-db (k ∷ ks) m = forget_all-db ks (forget k m)

-- The rest of an operation runs only on a result.
pub then-Leaves :
    {A B : Type 0} (o : Manager × Res A) (rest : A → Manager × Res B)
    → Leaves o
    → ((a : A) → Leaves (rest a))
    → Leaves (elim o.1 as (λ _. Manager × Res B) [ return a ↦ rest a | raise e ↦ (o.0, raise e) ])
then-Leaves (m, return a) rest h k = k a
then-Leaves (m, raise e) rest h k = h

module _ (tick : Tick) where
  pub save-Leaves :
      (t : RuntimeTask) (w : Write) (m : Manager) → IsClean m.db → Leaves (save tick t w m)
  unfolding save
  save-Leaves t w m h = elim (Bool-cases (tick.commits t.task_id)) [
    | inl works ↦ rw (works, save) (commit-IsClean m.db h t w)
    | inr fails ↦ rw (fails, save) h
  ]

  pub with_task-Leaves :
      {A : Type 0} (k : String) (m : Manager) (body : RuntimeTask → Manager × Res A)
      → IsClean m.db
      → ((c : RuntimeTask) → Leaves (body c))
      → Leaves (with_task k m body)
  with_task-Leaves k m body h step = elim (Option-cases (lookup k m.tasks)) [
    | inl missing ↦ rw (missing, with_task) h
    | inr (c, found) ↦ rw (found, with_task) (step c)
  ]

  pub saving-Leaves :
      (k : String) (f : RuntimeTask → RuntimeTask) (w : RuntimeTask → Write) (m : Manager)
      → IsClean m.db
      → Leaves (with_task k m λ c. save tick (f c) (w c) m)
  saving-Leaves k f w m h =
      with_task-Leaves k m (λ c. save tick (f c) (w c) m) h λ c. save-Leaves (f c) (w c) m h

  pub create_task-Leaves :
      (k : String) (n : NewTask) (m : Manager) → IsClean m.db → Leaves (create_task tick k n m)
  unfolding create_task
  create_task-Leaves k n m h = elim (Option-cases (lookup k m.tasks)) [
    | inl missing ↦
        rw (missing, create_task)
          (focus_first-Leaves k
            (save tick (new_task tick.now k n) (with_event (make_event tick k "TASK_CREATED" [])) m)
            (save-Leaves (new_task tick.now k n) (with_event (make_event tick k "TASK_CREATED" []))
              m h))
    | inr (t, found) ↦ rw (found, create_task) h
  ]

  move-Leaves :
      (c : RuntimeTask) (target : RuntimeState) (e : Option String) (gone : Bool) (cs : List Change)
      (m : Manager)
      → IsClean m.db
      → Leaves (move tick c target e gone cs m)
  unfolding move
  move-Leaves c target e gone cs m h =
      let t = moved tick.now c target cs in
      let w = move_write tick c target e gone in
      drop_approval-Leaves gone c.task_id (save tick t w m) (save-Leaves t w m h)

  pub transition_task-Leaves :
      (k : String) (target : RuntimeState) (e : Option String) (gone : Bool) (cs : List Change)
      (m : Manager)
      → IsClean m.db
      → Leaves (transition_task tick k target e gone cs m)
  unfolding transition_task
  transition_task-Leaves k target e gone cs m h = elim (Bool-cases (is_known target)) [
    | inr unknown ↦ rw (unknown, transition_task) h
    | inl known ↦ elim (Option-cases (lookup k m.tasks)) [
      | inl absent ↦ rw (known, absent, transition_task, with_task) h
      | inr (t, found) ↦ elim (Bool-cases (may_move t.state target)) [
        | inr bad ↦ rw (known, found, bad, transition_task, with_task) h
        | inl good ↦
            rw (known, found, good, transition_task, with_task) (move-Leaves t target e gone cs m h)
      ]
    ]
  ]
