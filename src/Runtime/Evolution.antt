-- ===== src/Runtime/Evolution.antt =====
-- agent_control/runtime.py: what a new task, an answered approval and a free update do to the registry.
use freaky_monkey.Base.{
  String, Bool, Option, none, some, List, [], ◌≡◌, refl, sym, ap, ◌∙◌, subst, str_eq, eq_iff, inl,
  inr, Bool-cases, Option-cases,
}
use freaky_monkey.Base.Dict.{lookup, insert, lookup-insert_hit, lookup-insert_miss}
use freaky_monkey.Runtime.State.{created}
use freaky_monkey.Runtime.Task.{RuntimeTask, Change, replace}
use freaky_monkey.Runtime.Store.{plain}
use freaky_monkey.Runtime.Manager.{
  Manager, Tick, Res, return, raise, save, with_task, touched, NewTask, new_task, create_task,
  focus_first, with_event, make_event, update_task,
}
use freaky_monkey.Runtime.Approvals.{resolve_locked, resolve_approval}
use freaky_monkey.Runtime.Cleanup.{garbage_collect}
use freaky_monkey.Runtime.Lawful.{
  Follows, Follows-same, Sound, Steps, Steps-append, IsSame, same-Steps, put-Sound, save_puts,
}
use freaky_monkey.Runtime.Owners.{resolve_locked-Steps}
use freaky_monkey.Runtime.Collection.{garbage_collect-Steps, Res-cases}

focus_first-IsSame : (k : String) (o : Manager × Res RuntimeTask) → IsSame o.0 (focus_first k o).0
focus_first-IsSame k (m, return t) = (refl, refl)
focus_first-IsSame k (m, raise e) = (refl, refl)

pub resolve_approval-Steps :
    (tick : Tick) (k : String) (b : Bool) (request : Option String) (m : Manager)
    → Sound m
    → Steps m (resolve_approval tick k b request m).0
unfolding resolve_approval
resolve_approval-Steps tick k b request m h =
    let one = garbage_collect-Steps tick m h in
    let m' = (garbage_collect tick m).0 in
    elim (Res-cases (garbage_collect tick m).1) [
      | inl (ids, e) ↦
          rw (e, resolve_approval)
            (Steps-append m m' (resolve_locked tick k b request m').0 one
              (resolve_locked-Steps tick k b request m' one.0))
      | inr (x, e) ↦ rw (e, resolve_approval) one
    ]

-- What may become of the task of one identifier by any operation: it is new, or it follows the table.
pub data Evolves : Option RuntimeTask → Option RuntimeTask → Type 0 where
  is_new : {u : RuntimeTask} → u.state ≡ created → Evolves none (some u)
  follows : {o p : Option RuntimeTask} → Follows o p → Evolves o p

abbrev pub IsEvolved : Manager → Manager → Type 0
IsEvolved m m' = (k : String) → Evolves (lookup k m.tasks) (lookup k m'.tasks)

same-IsEvolved : (m m' : Manager) → m'.tasks ≡ m.tasks → IsEvolved m m'
same-IsEvolved m m' e k =
    subst (λ ts. Evolves (lookup k m.tasks) (lookup k ts)) (sym e)
      (follows (Follows-same (lookup k m.tasks)))

new-IsEvolved :
    (t : RuntimeTask) (m m' : Manager)
    → t.state ≡ created
    → lookup t.task_id m.tasks ≡ none
    → m'.tasks ≡ insert t.task_id t m.tasks
    → IsEvolved m m'
new-IsEvolved t m m' s absent e k = elim (Bool-cases (str_eq t.task_id k)) [
  | inl hit ↦
      subst (λ o. Evolves o (lookup k m'.tasks))
        (sym (ap (λ j. lookup j m.tasks) (sym ((eq_iff t.task_id k).0 hit)) ∙ absent))
        (subst (Evolves none) (sym (ap (lookup k) e ∙ lookup-insert_hit t.task_id k t m.tasks hit))
          (is_new s))
  | inr miss ↦
      subst (Evolves (lookup k m.tasks))
        (sym (ap (lookup k) e ∙ lookup-insert_miss t.task_id k t m.tasks miss))
        (follows (Follows-same (lookup k m.tasks)))
]

pub create_task-Sound :
    (tick : Tick) (k : String) (n : NewTask) (m : Manager)
    → Sound m
    → Sound (create_task tick k n m).0 × IsEvolved m (create_task tick k n m).0
unfolding create_task new_task
create_task-Sound tick k n m h = elim (Option-cases (lookup k m.tasks)) [
  | inr (t, found) ↦ rw (found, create_task) (h, same-IsEvolved m m refl)
  | inl absent ↦
      let t = new_task tick.now k n in
      let w = with_event (make_event tick k "TASK_CREATED" []) in
      let saved = save tick t w m in
      let m' = (focus_first k saved).0 in
      let same = focus_first-IsSame k saved in
      rw (absent, create_task)
        (elim (save_puts tick t w m) [
          | inl q ↦ (
            (same-Steps m m' h (same.0 ∙ q.0, same.1 ∙ q.1)).0,
            same-IsEvolved m m' (same.0 ∙ q.0),
          )
          | inr q ↦ (
            put-Sound t m m' h (same.0 ∙ q.0, same.1 ∙ q.1),
            new-IsEvolved t m m' refl absent (same.0 ∙ q.0),
          )
        ])
]

pub update_task-Sound :
    (tick : Tick) (k : String) (cs : List Change) (m : Manager)
    → Sound m
    → Sound (update_task tick k cs m).0
unfolding update_task
update_task-Sound tick k cs m h = elim (Option-cases (lookup k m.tasks)) [
  | inl absent ↦ rw (absent, update_task, with_task) h
  | inr (c, found) ↦
      let t = touched tick (replace c cs) in
      let m' = (save tick t plain m).0 in
      rw (found, update_task, with_task)
        (elim (save_puts tick t plain m) [
          | inl q ↦ (same-Steps m m' h q).0
          | inr q ↦ put-Sound t m m' h q
        ])
]
