-- ===== src/Runtime/Recovered.antt =====
-- agent_control/runtime.py: no task is in flight after a restart.
use freaky_monkey.Base.{
  String, Bool, true, false, Option, none, some, List, [], ◌∷◌, ◌≡◌, refl, sym, ap, ◌∙◌, arith,
  ◌||◌, str_eq, eq_iff, ◌⊎◌, inl, inr, Bool-cases, Option-cases, if◌then◌else◌,
}
use freaky_monkey.Base.Dict.{lookup, insert, values, lookup-insert_hit, lookup-insert_miss}
use freaky_monkey.Runtime.State.{is_in_flight}
use freaky_monkey.Runtime.Task.{RuntimeTask, Resource}
use freaky_monkey.Runtime.Store.{Write, plain}
use freaky_monkey.Runtime.Manager.{Manager, Tick, save, with_event, make_event}
use freaky_monkey.Runtime.Restart.{
  interrupted, restart_names, recover_one, recover_tasks, mark_stale, mark_all,
  recover_after_restart,
}
use freaky_monkey.Runtime.Lawful.{IsKeyed}

abbrev is_busy : Option RuntimeTask → Bool
is_busy none = false
is_busy (some t) = is_in_flight t.state

abbrev pub IsIdle : Manager → String → Type 0
IsIdle m k = is_busy (lookup k m.tasks) ≡ false

-- Every transaction succeeds.
abbrev pub Commits : Tick → Type 0
Commits tick = (k : String) → tick.commits k ≡ true

save-tasks :
    (tick : Tick) (t : RuntimeTask) (w : Write) (m : Manager)
    → Commits tick
    → (save tick t w m).0.tasks ≡ insert t.task_id t m.tasks
unfolding save
save-tasks tick t w m h = rw (h t.task_id, save) refl

-- Saving a task that is not in flight makes its identifier idle, and keeps the idle ones.
save-IsIdle :
    (tick : Tick) (t : RuntimeTask) (w : Write) (m : Manager) (k : String)
    → Commits tick
    → is_in_flight t.state ≡ false
    → (str_eq t.task_id k ≡ true) ⊎ IsIdle m k
    → IsIdle (save tick t w m).0 k
save-IsIdle tick t w m k h calm why = elim (Bool-cases (str_eq t.task_id k)) [
  | inl hit ↦
      ap is_busy
        (ap (lookup k) (save-tasks tick t w m h) ∙ lookup-insert_hit t.task_id k t m.tasks hit)
      ∙ calm
  | inr miss ↦
      ap is_busy
        (ap (lookup k) (save-tasks tick t w m h) ∙ lookup-insert_miss t.task_id k t m.tasks miss)
      ∙ elim why [ inl hit ↦ absurd (ground arith) | inr idle ↦ idle ]
]

recover_one-IsIdle :
    (tick : Tick) (t : RuntimeTask) (m : Manager) (k : String)
    → Commits tick
    → IsIdle m k ⊎ ((t.task_id ≡ k) × (is_in_flight t.state ≡ true))
    → IsIdle (recover_one tick t m) k
unfolding recover_one interrupted
recover_one-IsIdle tick t m k h why = elim (Bool-cases (is_in_flight t.state)) [
  | inr calm ↦
      rw (calm, recover_one)
        (elim why [ inl idle ↦ idle | inr (own, busy) ↦ absurd (ground arith) ])
  | inl busy ↦
      rw (busy, recover_one)
        (save-IsIdle tick (interrupted tick.now t)
          (with_event (make_event tick t.task_id "RECOVERY_REQUIRED" (restart_names t))) m k h refl
          (elim why [ inl idle ↦ inr idle | inr (own, b) ↦ inl ((eq_iff t.task_id k).1 own) ]))
]

recover_tasks-IsIdle :
    (tick : Tick) (ts : List RuntimeTask) (m : Manager) (k : String)
    → Commits tick
    → IsIdle m k
    → IsIdle (recover_tasks tick ts m) k
unfolding recover_tasks
recover_tasks-IsIdle tick [] m k h idle = idle
recover_tasks-IsIdle tick (t ∷ ts) m k h idle =
    recover_tasks-IsIdle tick ts (recover_one tick t m) k h
      (recover_one-IsIdle tick t m k h (inl idle))

-- The task of an identifier, in flight, stands in the list that the loop goes over.
recover_tasks_found :
    (tick : Tick) (l : List (String × RuntimeTask)) (m : Manager) (k : String) (t : RuntimeTask)
    → Commits tick
    → lookup k l ≡ some t
    → t.task_id ≡ k
    → is_in_flight t.state ≡ true
    → IsIdle (recover_tasks tick (values l) m) k
unfolding recover_tasks lookup
recover_tasks_found tick [] m k t h found own busy = absurd (ground arith)
recover_tasks_found tick ((j, u) ∷ l) m k t h found own busy = elim (Bool-cases (str_eq j k)) [
  | inl hit ↦
      let same = head_found hit found in
      recover_tasks-IsIdle tick (values l) (recover_one tick u m) k h (
        recover_one-IsIdle tick u m k h
          (inr (ap (λ v. v.task_id) same ∙ own, ap (λ v. is_in_flight v.state) same ∙ busy)))
  | inr miss ↦ recover_tasks_found tick l (recover_one tick u m) k t h (ground arith) own busy
]
  where
    head_found : str_eq j k ≡ true → (if str_eq j k then some u else lookup k l) ≡ some t → u ≡ t
    head_found hit found = ground arith

mark_stale-IsIdle :
    (tick : Tick) (e : String × Resource) (m : Manager)
    → Commits tick
    → ((k : String) → IsIdle m k)
    → (k : String) → IsIdle (mark_stale tick e m) k
unfolding mark_stale
mark_stale-IsIdle tick (key, r) m h idle k =
    let marked = record m { resources = insert key (record r { state = "STALE" }) m.resources } in
    elim (Bool-cases (str_eq r.state "ATTACHED" || str_eq r.state "RUNNING")) [
      | inr e ↦ rw (e, mark_stale) (idle k)
      | inl e ↦ elim (Option-cases (lookup r.task_id m.tasks)) [
        | inl absent ↦ rw (e, absent, mark_stale) (idle k)
        | inr (t, found) ↦
            rw (e, found, mark_stale)
              (save-IsIdle tick
                (record t { browser_resource_state = some "STALE"; updated_at = tick.now }) plain
                marked k h (ap is_busy (sym found) ∙ idle r.task_id) (inr (idle k)))
      ]
    ]

mark_all-IsIdle :
    (tick : Tick) (rs : List (String × Resource)) (m : Manager)
    → Commits tick
    → ((k : String) → IsIdle m k)
    → (k : String) → IsIdle (mark_all tick rs m) k
unfolding mark_all
mark_all-IsIdle tick [] m h idle k = idle k
mark_all-IsIdle tick (r ∷ rs) m h idle k =
    mark_all-IsIdle tick rs (mark_stale tick r m) h (mark_stale-IsIdle tick r m h idle) k

-- In a registry in which each task stands under its own identifier, and when every transaction
-- succeeds: after `_recover_after_restart` no task is PLANNING, RUNNING or VERIFYING.
pub recover_after_restart-IsIdle :
    (tick : Tick) (m : Manager)
    → Commits tick
    → IsKeyed m
    → (k : String) → IsIdle (recover_after_restart tick m) k
unfolding recover_after_restart
recover_after_restart-IsIdle tick m h keyed =
    let recovered = recover_tasks tick (values m.tasks) m in
    mark_all-IsIdle tick recovered.resources recovered h λ k.
      elim (Option-cases (lookup k m.tasks)) [
        | inl absent ↦ recover_tasks-IsIdle tick (values m.tasks) m k h (ap is_busy absent)
        | inr (t, found) ↦ elim (Bool-cases (is_in_flight t.state)) [
          | inr calm ↦ recover_tasks-IsIdle tick (values m.tasks) m k h (ap is_busy found ∙ calm)
          | inl busy ↦ recover_tasks_found tick m.tasks m k t h found (keyed k t found) busy
        ]
      ]
