-- ===== src/Runtime/Answers.antt =====
-- agent_control/runtime.py: what the answer to an approval leaves behind.
use freaky_monkey.Base.{
  String, Bool, true, false, Option, none, some, List, ◌≡◌, refl, ap, ◌∙◌, str_eq, eq_refl, inl,
  inr, Bool-cases, Option-cases,
}
use freaky_monkey.Base.Dict.{lookup, remove, lookup-insert_hit, lookup-remove}
use freaky_monkey.Runtime.State.{may_move}
use freaky_monkey.Runtime.Task.{RuntimeTask}
use freaky_monkey.Runtime.Store.{commit}
use freaky_monkey.Runtime.Manager.{Manager, Tick, RuntimeError, Res, return, raise, save, with_task}
use freaky_monkey.Runtime.Approvals.{
  resolve, resolve_locked, is_request, resolved_state, resolved_task,
}
use freaky_monkey.Runtime.Lawful.{IsKeyed}

-- What an answer may leave of a manager: its task moved and no approval in either table, or nothing
-- changed, or the live approval gone and the stored tables as they were.
pub data Answered (k : String) (b : Bool) (m : Manager) : Manager × Res (Unit {0}) → Type 0 where
  granted :
      {m' : Manager} {u : RuntimeTask}
      → lookup k m'.tasks ≡ some u
      → u.state ≡ resolved_state b
      → lookup k m'.approvals ≡ none
      → lookup k m'.db.approvals ≡ none
      → Answered k b m (m', return tt)
  refused : {e : RuntimeError} → Answered k b m (m, raise e)
  lost :
      {e : RuntimeError} → Answered k b m (record m { approvals = remove k m.approvals }, raise e)

remove_hit : {V : Type 0} (k : String) (m : List (String × V)) → lookup k (remove k m) ≡ none
remove_hit k m = rw (lookup-remove k k m, eq_refl k) refl

resolved_state_lem :
    (tick : Tick) (b : Bool) (c : RuntimeTask) → (resolved_task tick b c).state ≡ resolved_state b
resolved_state_lem tick true c = refl
resolved_state_lem tick false c = refl

resolved_id :
    (tick : Tick) (b : Bool) (c : RuntimeTask) → (resolved_task tick b c).task_id ≡ c.task_id
resolved_id tick true c = refl
resolved_id tick false c = refl

resolve-Answered :
    (tick : Tick) (k : String) (b : Bool) (c : RuntimeTask) (m : Manager)
    → c.task_id ≡ k
    → Answered k b m (resolve tick k b c (record m { approvals = remove k m.approvals }))
unfolding resolve save commit
resolve-Answered tick k b c m own =
    let t = resolved_task tick b c in
    elim (Bool-cases (may_move c.state (resolved_state b))) [
      | inr bad ↦ rw (bad, resolve) lost
      | inl ok ↦ elim (Bool-cases (tick.commits t.task_id)) [
        | inr failed ↦ rw (ok, failed, resolve, save) lost
        | inl stored ↦
            rw (ok, stored, resolve, save)
              (granted
                (lookup-insert_hit t.task_id k t m.tasks
                  (ap (λ j. str_eq j k) (resolved_id tick b c ∙ own) ∙ eq_refl k))
                (resolved_state_lem tick b c) (remove_hit k m.approvals)
                (ap (λ j. lookup k (remove j m.db.approvals)) (resolved_id tick b c ∙ own)
                  ∙ remove_hit k m.db.approvals))
      ]
    ]

-- For a registry in which each task stands under its own identifier, `resolve_approval`, past its
-- clean-up: it returns with the task RUNNING or CANCELLED, as the answer says, and no approval of it
-- in either table; or it raises with nothing changed; or it raises with the live approval gone while
-- the stored one is still there.
pub resolve_locked-Answered :
    (tick : Tick) (k : String) (b : Bool) (request : Option String) (m : Manager)
    → IsKeyed m
    → Answered k b m (resolve_locked tick k b request m)
unfolding resolve_locked
resolve_locked-Answered tick k b request m keyed = elim (Option-cases (lookup k m.tasks)) [
  | inl absent ↦ rw (absent, resolve_locked, with_task) refused
  | inr (c, found) ↦ elim (Bool-cases (is_request request (lookup k m.approvals))) [
    | inr other ↦ rw (found, other, resolve_locked, with_task) refused
    | inl fits ↦
        rw (found, fits, resolve_locked, with_task)
          (resolve-Answered tick k b c m (keyed k c found))
  ]
]
