-- ===== src/Runtime/Collection.antt =====
-- agent_control/runtime.py: `_garbage_collect`, `clear_history` and `create_task` keep the registry
-- sound; the first two obey the table.
use freaky_monkey.Base.{
  String, true, not, keep, none, some, List, [], ◌∷◌, ◌≡◌, refl, sym, ap, ◌∙◌, subst, arith, eq_iff,
  ◌⊎◌, inl, inr, Bool-cases, if◌then◌else◌,
}
use freaky_monkey.Base.Dict.{contains, lookup, values, keys, lookup-remove}
use freaky_monkey.Runtime.State.{expired}
use freaky_monkey.Runtime.Task.{RuntimeTask}
use freaky_monkey.Runtime.Store.{deletable, delete_rows}
use freaky_monkey.Runtime.Manager.{Manager, Tick, Res, return, raise, RuntimeError}
use freaky_monkey.Runtime.Cleanup.{
  is_stale, is_old, expire, expire_one, expire_all, forget, forget_all, delete_terminal_tasks,
  task_ids, garbage_collect, clear_history, note_expired, pair_removed, terminal_entry, expiry,
}
use freaky_monkey.Runtime.Lawful.{
  Follows, gone, Follows-same, Sound, Steps, Steps-same, Steps-append,
}
use freaky_monkey.Runtime.Transitions.{transition_task-Steps}

expire-Steps : (tick : Tick) (k : String) (m : Manager) → Sound m → Steps m (expire tick k m).0
unfolding expire
expire-Steps tick k m h = transition_task-Steps tick k expired (some "TASK_EXPIRED") true expiry m h

note_expired-keeps :
    (k : String) (o : Manager × Res RuntimeTask) (ids : List String)
    → (note_expired k o ids).0 ≡ o.0
note_expired-keeps k (m, return t) ids = refl
note_expired-keeps k (m, raise e) ids = ground arith

expire_one-Steps :
    (tick : Tick) (t : RuntimeTask) (ids : List String) (m : Manager)
    → Sound m
    → Steps m (expire_one tick t ids m).0
unfolding expire_one
expire_one-Steps tick t ids m h = elim (Bool-cases (is_stale tick m t)) [
  | inr fresh ↦ rw (fresh, expire_one) (Steps-same m h)
  | inl stale ↦
      rw (stale, expire_one)
        (subst (Steps m) (sym (note_expired-keeps t.task_id (expire tick t.task_id m) ids))
          (expire-Steps tick t.task_id m h))
]

pub Res-cases :
    {A : Type 0} (o : Res A) → ((a : A) × (o ≡ return a)) ⊎ ((e : RuntimeError) × (o ≡ raise e))
Res-cases (return a) = inl (a, refl)
Res-cases (raise e) = inr (e, refl)

expire_all-Steps :
    (tick : Tick) (ts : List RuntimeTask) (ids : List String) (m : Manager)
    → Sound m
    → Steps m (expire_all tick ts ids m).0
unfolding expire_all
expire_all-Steps tick [] ids m h = Steps-same m h
expire_all-Steps tick (t ∷ ts) ids m h =
    let one = expire_one-Steps tick t ids m h in
    let m' = (expire_one tick t ids m).0 in
    elim (Res-cases (expire_one tick t ids m).1) [
      | inl (ids', e) ↦
          rw (e, expire_all)
            (Steps-append m m' (expire_all tick ts ids' m').0 one
              (expire_all-Steps tick ts ids' m' one.0))
      | inr (x, e) ↦ rw (e, expire_all) one
    ]

lookup_kept :
    {V : Type 0} (ids : List String) (k : String) (m : List (String × V))
    → lookup k (keep (λ (j, v). not (contains ids j)) m)
      ≡ (if contains ids k then none else lookup k m)
unfolding lookup
lookup_kept ids k [] = ground arith
lookup_kept ids k ((j, v) ∷ m) = ground (arith, eq_iff j k, lookup_kept ids k m)

-- The table of tasks after the loop over the removed tasks.
forget_all-tasks :
    (ids : List String) (k : String) (m : Manager)
    → lookup k (forget_all ids m).tasks ≡ (if contains ids k then none else lookup k m.tasks)
unfolding forget_all forget
forget_all-tasks [] k m = refl
forget_all-tasks (j ∷ ids) k m =
    ground (arith, forget_all-tasks ids k (forget j m), lookup-remove j k m.tasks)

forget_all-db : (ids : List String) (m : Manager) → (forget_all ids m).db ≡ m.db
unfolding forget_all forget
forget_all-db [] m = refl
forget_all-db (j ∷ ids) m = forget_all-db ids (forget j m)

-- Both tables without the tasks of a list.
abbrev IsCut : List String → Manager → Manager → Type 0
IsCut ids m m' =
    (k : String)
    → (lookup k m'.tasks ≡ (if contains ids k then none else lookup k m.tasks))
      × (lookup k m'.db.tasks ≡ (if contains ids k then none else lookup k m.db.tasks))

cut-Steps : (ids : List String) (m m' : Manager) → Sound m → IsCut ids m m' → Steps m m'
cut-Steps ids m m' h cut = (
  (
    λ k t found. elim (Bool-cases (contains ids k)) [
      | inl dead ↦ absurd (ground (arith, cut k))
      | inr live ↦ h.0 k t (ground (arith, cut k))
    ],
    λ k. elim (Bool-cases (contains ids k)) [
      | inl dead ↦ ground (arith, cut k)
      | inr live ↦ ground (arith, cut k, h.1 k)
    ],
  ),
  λ k. elim (Bool-cases (contains ids k)) [
    | inl dead ↦ subst (Follows (lookup k m.tasks)) (ground (arith, cut k)) gone
    | inr live ↦
        subst (Follows (lookup k m.tasks)) (ground (arith, cut k)) (Follows-same (lookup k m.tasks))
  ],
)

delete-IsCut :
    (ids : List String) (m : Manager)
    → IsCut ids m (forget_all ids (record m { db = delete_rows m.db ids }))
unfolding delete_rows
delete-IsCut ids m k =
    let m' = record m { db = delete_rows m.db ids } in
    (
      forget_all-tasks ids k m',
      ap (λ d. lookup k d.tasks) (forget_all-db ids m') ∙ lookup_kept ids k m.db.tasks,
    )

pub delete_terminal_tasks-Steps :
    (tick : Tick) (ids : List String) (m : Manager)
    → Sound m
    → Steps m (delete_terminal_tasks tick ids m).0
unfolding delete_terminal_tasks
delete_terminal_tasks-Steps tick [] m h = Steps-same m h
delete_terminal_tasks-Steps tick (j ∷ ids) m h =
    let removed = deletable m.db (j ∷ ids) in
    elim (Bool-cases tick.deletes) [
      | inr e ↦ rw (e, delete_terminal_tasks) (Steps-same m h)
      | inl e ↦
          rw (e, delete_terminal_tasks)
            (cut-Steps removed m (forget_all removed (record m { db = delete_rows m.db removed })) h
              (delete-IsCut removed m))
    ]

pair_removed-keeps :
    (ids : List String) (o : Manager × Res (List String)) → (pair_removed ids o).0 ≡ o.0
pair_removed-keeps ids (m, return t) = refl
pair_removed-keeps ids (m, raise e) = refl

pub garbage_collect-Steps :
    (tick : Tick) (m : Manager) → Sound m → Steps m (garbage_collect tick m).0
unfolding garbage_collect
garbage_collect-Steps tick m h =
    let one = expire_all-Steps tick (values m.tasks) [] m h in
    let m' = (expire_all tick (values m.tasks) [] m).0 in
    let old = task_ids (keep (is_old tick m') (values m'.tasks)) in
    let two = delete_terminal_tasks tick old m' in
    elim (Res-cases (expire_all tick (values m.tasks) [] m).1) [
      | inl (ids, e) ↦
          rw (e, garbage_collect)
            (subst (Steps m) (sym (pair_removed-keeps ids two))
              (Steps-append m m' two.0 one (delete_terminal_tasks-Steps tick old m' one.0)))
      | inr (x, e) ↦ rw (e, garbage_collect) one
    ]

pub clear_history-Steps : (tick : Tick) (m : Manager) → Sound m → Steps m (clear_history tick m).0
unfolding clear_history
clear_history-Steps tick m h =
    delete_terminal_tasks-Steps tick (keys (keep terminal_entry m.tasks)) m h
