-- ===== src/Runtime/Written.antt =====
-- agent_control/runtime.py: the resources, the approvals and the clean-up, and the tables that they leave.
use freaky_monkey.Base.{
  String, Bool, true, false, Option, none, some, List, [], ◌∷◌, sym, subst, not, keep, inl, inr,
  Bool-cases, Option-cases, str_eq, if◌then◌else◌,
}
use freaky_monkey.Base.Dict.{lookup, values, remove}
use freaky_monkey.Json.{Fields, Params}
use freaky_monkey.Runtime.State.{expired, may_move}
use freaky_monkey.Runtime.Redaction.{safe_params}
use freaky_monkey.Runtime.Task.{RuntimeTask, Resource, Change, replace}
use freaky_monkey.Runtime.Store.{plain, deletable, delete_rows}
use freaky_monkey.Runtime.Manager.{
  Manager, Tick, touched, invalid_approval, approval_mismatch, Res, return, raise, RuntimeError,
  save, with_entry, update_task, set_workflow,
}
use freaky_monkey.Runtime.Moves.{set_focus, attach_resource, detached_task, detach, detach_resource}
use freaky_monkey.Runtime.Cleanup.{
  expiry, expire, expire_one, expire_all, delete_terminal_tasks, pair_removed, garbage_collect,
  is_stale, is_old, task_ids,
}
use freaky_monkey.Runtime.Approvals.{
  asked_task, resolved_task, may_request, keep_approval, request_approval, is_request, forget_value,
  resolved_state, resolve, resolve_locked, resolve_approval,
}
use freaky_monkey.Runtime.Owners.{attached_task, attach_write, ask_write, resolve_write}
use freaky_monkey.Runtime.Redacted.{IsClean, delete_resource-IsClean, delete_rows-IsClean}
use freaky_monkey.Runtime.Saved.{
  Leaves, note_expired-Leaves, pair_removed-Leaves, forget_all-db, then-Leaves, with_task-Leaves,
  saving-Leaves, transition_task-Leaves, keep_resource-Leaves, keep_approval-Leaves,
  forget_value-Leaves, save-Leaves,
}

guard-Leaves :
    {A : Type 0} (b : Bool) (m : Manager) (err : RuntimeError) (o : Manager × Res A)
    → IsClean m.db
    → Leaves o
    → Leaves (if not b then (m, raise err) else o)
guard-Leaves true m err o h k = k
guard-Leaves false m err o h k = h

module _ (tick : Tick) (m : Manager) (h : IsClean m.db) where
  pub set_workflow-Leaves : (k : String) (fs : Fields) → Leaves (set_workflow tick k fs m)
  unfolding set_workflow update_task
  set_workflow-Leaves k fs =
      with_task-Leaves tick k m
        (λ c. update_task tick k (Change.metadata (with_entry "workflow" fs c.metadata) ∷ []) m) h
        (λ c.
          saving-Leaves tick k
            (λ d.
              touched tick (replace d (Change.metadata (with_entry "workflow" fs c.metadata) ∷ [])))
            (λ d. plain) m h)

  pub attach_resource-Leaves : (k : String) (r : Resource) → Leaves (attach_resource tick k r m)
  unfolding attach_resource
  attach_resource-Leaves k r = with_task-Leaves tick k m _ h λ c.
      keep_resource-Leaves r (save tick (attached_task tick r c) (attach_write tick k r) m)
        (save-Leaves tick (attached_task tick r c) (attach_write tick k r) m h)

  detach-Leaves :
      (k key : String) (r : Resource) (t : RuntimeTask) → Leaves (detach tick k key r t m)
  detach-Leaves k key r t = elim (Bool-cases (tick.commits k)) [
    | inl works ↦ rw (works, detach) (delete_resource-IsClean m.db h k key t _)
    | inr fails ↦ rw (fails, detach) h
  ]

  pub detach_resource-Leaves : (k key : String) → Leaves (detach_resource tick k key m)
  unfolding detach_resource
  detach_resource-Leaves k key = elim (Option-cases (lookup key m.resources)) [
    | inl absent ↦ rw (absent, detach_resource) h
    | inr (r, found) ↦ elim (Bool-cases (str_eq r.task_id k)) [
      | inr other ↦ rw (found, other, detach_resource) h
      | inl own ↦
          rw (found, own, detach_resource)
            (with_task-Leaves tick k m (λ t. detach tick k key r (detached_task tick t) m) h
              λ t. detach-Leaves k key r (detached_task tick t))
    ]
  ]

  pub set_focus-Leaves : (o : Option String) → Leaves (set_focus o m)
  unfolding set_focus
  set_focus-Leaves none = h
  set_focus-Leaves (some k) =
      with_task-Leaves tick k m (λ t. (record m { focused_task_id = some k }, return tt)) h λ t. h

  pub request_approval-Leaves : (k : String) (p : Params) → Leaves (request_approval tick k p m)
  unfolding request_approval
  request_approval-Leaves k p = with_task-Leaves tick k m _ h λ c.
      guard-Leaves (may_request c.state) m invalid_approval
        (keep_approval k (safe_params p) (save tick (asked_task tick c) (ask_write tick k p) m)) h
        (keep_approval-Leaves k (safe_params p)
          (save tick (asked_task tick c) (ask_write tick k p) m)
          (save-Leaves tick (asked_task tick c) (ask_write tick k p) m h))

  resolve-Leaves : (k : String) (b : Bool) (c : RuntimeTask) → Leaves (resolve tick k b c m)
  unfolding resolve
  resolve-Leaves k b c =
      guard-Leaves (may_move c.state (resolved_state b)) m invalid_approval
        (forget_value (save tick (resolved_task tick b c) (resolve_write tick k b) m)) h
        (forget_value-Leaves (save tick (resolved_task tick b c) (resolve_write tick k b) m)
          (save-Leaves tick (resolved_task tick b c) (resolve_write tick k b) m h))

module _ (tick : Tick) where
  resolve_locked-Leaves :
      (k : String) (b : Bool) (request : Option String) (m : Manager)
      → IsClean m.db
      → Leaves (resolve_locked tick k b request m)
  unfolding resolve_locked
  resolve_locked-Leaves k b request m h =
      let gone = record m { approvals = remove k m.approvals } in
      with_task-Leaves tick k m _ h λ c.
        guard-Leaves (is_request request (lookup k m.approvals)) m approval_mismatch
          (resolve tick k b c gone) h (resolve-Leaves tick gone h k b c)

  expire_one-Leaves :
      (t : RuntimeTask) (ids : List String) (m : Manager)
      → IsClean m.db
      → Leaves (expire_one tick t ids m)
  unfolding expire_one expire
  expire_one-Leaves t ids m h = elim (Bool-cases (is_stale tick m t)) [
    | inr fresh ↦ rw (fresh, expire_one) h
    | inl stale ↦
        rw (stale, expire_one)
          (note_expired-Leaves t.task_id (expire tick t.task_id m) ids
            (transition_task-Leaves tick t.task_id expired (some "TASK_EXPIRED") true expiry m h))
  ]

  expire_all-Leaves :
      (ts : List RuntimeTask) (ids : List String) (m : Manager)
      → IsClean m.db
      → Leaves (expire_all tick ts ids m)
  unfolding expire_all
  expire_all-Leaves [] ids m h = h
  expire_all-Leaves (t ∷ ts) ids m h =
      let first = expire_one-Leaves t ids m h in
      then-Leaves (expire_one tick t ids m)
        (λ ids'. expire_all tick ts ids' (expire_one tick t ids m).0) first
        (λ ids'. expire_all-Leaves ts ids' (expire_one tick t ids m).0 first)

  pub delete_terminal_tasks-Leaves :
      (ids : List String) (m : Manager) → IsClean m.db → Leaves (delete_terminal_tasks tick ids m)
  unfolding delete_terminal_tasks
  delete_terminal_tasks-Leaves [] m h = h
  delete_terminal_tasks-Leaves (k ∷ ks) m h = elim (Bool-cases tick.deletes) [
    | inr fails ↦ rw (fails, delete_terminal_tasks) h
    | inl works ↦
        let removed = deletable m.db (k ∷ ks) in
        rw (works, delete_terminal_tasks)
          (subst IsClean (sym (forget_all-db removed (record m { db = delete_rows m.db removed })))
            (delete_rows-IsClean m.db h removed))
  ]

  pub garbage_collect-Leaves : (m : Manager) → IsClean m.db → Leaves (garbage_collect tick m)
  unfolding garbage_collect
  garbage_collect-Leaves m h =
      let r = expire_all tick (values m.tasks) [] m in
      let swept = expire_all-Leaves (values m.tasks) [] m h in
      let old = task_ids (keep (is_old tick r.0) (values r.0.tasks)) in
      then-Leaves r (λ ids. pair_removed ids (delete_terminal_tasks tick old r.0)) swept
        (λ ids.
          pair_removed-Leaves ids (delete_terminal_tasks tick old r.0)
            (delete_terminal_tasks-Leaves old r.0 swept))

  pub resolve_approval-Leaves :
      (k : String) (b : Bool) (request : Option String) (m : Manager)
      → IsClean m.db
      → Leaves (resolve_approval tick k b request m)
  unfolding resolve_approval
  resolve_approval-Leaves k b request m h =
      let swept = garbage_collect-Leaves m h in
      then-Leaves (garbage_collect tick m)
        (λ ids. resolve_locked tick k b request (garbage_collect tick m).0) swept
        (λ ids. resolve_locked-Leaves k b request (garbage_collect tick m).0 swept)
