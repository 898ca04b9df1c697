-- ===== src/Runtime/Lifecycle.antt =====
-- agent_control/runtime.py: the operations on one task keep the registry sound and obey the table.
use freaky_monkey.Base.{
  String, Bool, true, false, some, List, [], ◌∷◌, any, ◌≡◌, refl, sym, ◌∙◌, subst, arith, inl, inr,
  Option-cases,
}
use freaky_monkey.Base.Dict.{lookup, remove}
use freaky_monkey.Json.{Fields, Params, obj}
use freaky_monkey.Runtime.Redaction.{safe_fields}
use freaky_monkey.Runtime.Task.{RuntimeTask, RuntimeEvent, Change, change, replace}
use freaky_monkey.Runtime.Store.{Write, plain}
use freaky_monkey.Runtime.Manager.{
  Manager, Tick, Res, save, with_task, touched, with_entry, with_event, make_event, update_task,
  set_workflow, update_workflow, set_pending_input, clear_pending_input, record_event,
}
use freaky_monkey.Runtime.Lawful.{
  Reaches, stay, Sound, Steps, Steps-same, IsSame, IsWritten, save_puts, written-Steps,
}

change-task_id : (t : RuntimeTask) (c : Change) → (change t c).task_id ≡ t.task_id
unfolding change
change-task_id t c = ground arith

pub replace-task_id : (t : RuntimeTask) (cs : List Change) → (replace t cs).task_id ≡ t.task_id
unfolding replace
replace-task_id t [] = refl
replace-task_id t (c ∷ cs) = replace-task_id (change t c) cs ∙ change-task_id t c

-- Whether a keyword argument is `state`.
abbrev pub gives_state : Change → Bool
gives_state (Change.state s) = true
gives_state _ = false

change-state : (t : RuntimeTask) (c : Change) → gives_state c ≡ false → (change t c).state ≡ t.state
unfolding change
change-state t c h = ground arith

replace-state :
    (t : RuntimeTask) (cs : List Change)
    → any gives_state cs ≡ false
    → (replace t cs).state ≡ t.state
unfolding replace
replace-state t [] h = refl
replace-state t (c ∷ cs) h =
    replace-state (change t c) cs (ground arith) ∙ change-state t c (ground arith)

pub with_task-Steps :
    {A : Type 0} (k : String) (m : Manager) (body : RuntimeTask → Manager × Res A)
    → Sound m
    → ((c : RuntimeTask) → lookup k m.tasks ≡ some c → IsWritten c m (body c).0)
    → Steps m (with_task k m body).0
with_task-Steps k m body h step = elim (Option-cases (lookup k m.tasks)) [
  | inl missing ↦ rw (missing, with_task) (Steps-same m h)
  | inr (c, found) ↦ rw (found, with_task) (written-Steps k c m (body c).0 h found (step c found))
]

pub save-IsWritten :
    (tick : Tick) (c t : RuntimeTask) (w : Write) (m : Manager)
    → t.task_id ≡ c.task_id
    → Reaches c.state t.state
    → IsWritten c m (save tick t w m).0
save-IsWritten tick c t w m e r = elim (save_puts tick t w m) [
  | inl same ↦ inl same
  | inr put ↦ inr (t, e, r, put)
]

-- A later change of the other fields leaves it so.
pub then_same :
    (c : RuntimeTask) (m m' m'' : Manager) → IsWritten c m m' → IsSame m' m'' → IsWritten c m m''
then_same c m m' m'' (inl s) e = inl (e.0 ∙ s.0, e.1 ∙ s.1)
then_same c m m' m'' (inr (t, q, r, put)) e = inr (t, q, r, (e.0 ∙ put.0, e.1 ∙ put.1))

-- An operation that saves a new version of a task, for any transaction.
pub saving-Steps :
    (tick : Tick) (k : String) (f : RuntimeTask → RuntimeTask) (w : RuntimeTask → Write)
    (m : Manager)
    → Sound m
    → ((c : RuntimeTask) → (f c).task_id ≡ c.task_id)
    → ((c : RuntimeTask) → Reaches c.state (f c).state)
    → Steps m (with_task k m λ c. save tick (f c) (w c) m).0
saving-Steps tick k f w m h e r =
    with_task-Steps k m (λ c. save tick (f c) (w c) m) h
      λ c found. save-IsWritten tick c (f c) (w c) m (e c) (r c)

pub update_task-Steps :
    (tick : Tick) (k : String) (cs : List Change) (m : Manager)
    → Sound m
    → any gives_state cs ≡ false
    → Steps m (update_task tick k cs m).0
unfolding update_task
update_task-Steps tick k cs m h quiet =
    saving-Steps tick k (λ c. touched tick (replace c cs)) (λ c. plain) m h
      (λ c. replace-task_id c cs)
      (λ c. subst (Reaches c.state) (sym (replace-state c cs quiet)) stay)

pub set_workflow-Steps :
    (tick : Tick) (k : String) (fs : Fields) (m : Manager)
    → Sound m
    → Steps m (set_workflow tick k fs m).0
unfolding set_workflow
set_workflow-Steps tick k fs m h = elim (Option-cases (lookup k m.tasks)) [
  | inl missing ↦ rw (missing, set_workflow, with_task) (Steps-same m h)
  | inr (c, found) ↦
      rw (found, set_workflow, with_task)
        (update_task-Steps tick k (Change.metadata (with_entry "workflow" fs c.metadata) ∷ []) m h
          refl)
]

-- The operations that change only a task's metadata and its time stamp.
abbrev stamped : Tick → (RuntimeTask → Params) → RuntimeTask → RuntimeTask
stamped tick f c = touched tick (record c { metadata = f c })

stamping-Steps :
    (tick : Tick) (k : String) (f : RuntimeTask → Params) (e : RuntimeEvent) (m : Manager)
    → Sound m
    → Steps m (with_task k m λ c. save tick (stamped tick f c) (with_event e) m).0
stamping-Steps tick k f e m h =
    saving-Steps tick k (stamped tick f) (λ c. with_event e) m h (λ c. refl) (λ c. stay)

pub update_workflow-Steps :
    (tick : Tick) (k : String) (fs : Fields) (e : String) (m : Manager)
    → Sound m
    → Steps m (update_workflow tick k fs e m).0
unfolding update_workflow
update_workflow-Steps tick k fs e m h =
    stamping-Steps tick k (λ c. with_entry "workflow" fs c.metadata)
      (make_event tick k e (("workflow", obj (safe_fields fs)) ∷ [])) m h

pub set_pending_input-Steps :
    (tick : Tick) (k : String) (fs : Fields) (m : Manager)
    → Sound m
    → Steps m (set_pending_input tick k fs m).0
unfolding set_pending_input
set_pending_input-Steps tick k fs m h =
    stamping-Steps tick k (λ c. with_entry "pending_input" fs c.metadata)
      (make_event tick k "INPUT_REQUESTED" (("pending_input", obj (safe_fields fs)) ∷ [])) m h

pub clear_pending_input-Steps :
    (tick : Tick) (k e : String) (m : Manager)
    → Sound m
    → Steps m (clear_pending_input tick k e m).0
unfolding clear_pending_input
clear_pending_input-Steps tick k e m h =
    stamping-Steps tick k (λ c. remove "pending_input" c.metadata) (make_event tick k e []) m h

pub record_event-Steps :
    (tick : Tick) (k e : String) (ps : Params) (m : Manager)
    → Sound m
    → Steps m (record_event tick k e ps m).0
unfolding record_event
record_event-Steps tick k e ps m h =
    stamping-Steps tick k (λ c. c.metadata) (make_event tick k e ps) m h
