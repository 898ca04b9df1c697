-- ===== src/Runtime/Owners.antt =====
-- agent_control/runtime.py: attaching and detaching a resource, and asking for and answering an
-- approval, keep the registry sound and obey the table.
use freaky_monkey.Base.{
  String, Bool, true, false, not, Option, none, some, [], ◌≡◌, refl, sym, ap, subst, arith, str_eq,
  inl, inr, Bool-cases, Option-cases, if◌then◌else◌,
}
use freaky_monkey.Base.Dict.{lookup, insert, remove}
use freaky_monkey.Json.{Params}
use freaky_monkey.Runtime.Redaction.{safe_params}
use freaky_monkey.Runtime.State.{RuntimeState, waiting_for_approval, may_move, allowed}
use freaky_monkey.Runtime.Task.{RuntimeTask, Resource}
use freaky_monkey.Runtime.Store.{Write, delete_resource}
use freaky_monkey.Runtime.Manager.{
  Manager, Tick, Res, return, raise, invalid_approval, approval_mismatch, save, make_event,
}
use freaky_monkey.Runtime.Moves.{
  attach_resource, detach_resource, keep_resource, detach, detached_task, resource_names,
}
use freaky_monkey.Runtime.Approvals.{
  may_request, request_approval, resolve, resolve_locked, asked_task, keep_approval, resolved_task,
  resolved_state, resolved_event, forget_value, is_request,
}
use freaky_monkey.Runtime.Lawful.{
  Reaches, stay, step, may_move-Reaches, Sound, Steps, Steps-same, IsSame, IsWritten,
}
use freaky_monkey.Runtime.Lifecycle.{with_task-Steps, save-IsWritten, then_same}
use freaky_monkey.Runtime.Transitions.{guard-IsWritten}

keep_resource-IsSame :
    (r : Resource) (o : Manager × Res RuntimeTask) → IsSame o.0 (keep_resource r o).0
keep_resource-IsSame r (m, return t) = (refl, refl)
keep_resource-IsSame r (m, raise e) = (refl, refl)

keep_approval-IsSame :
    (k : String) (p : Params) (o : Manager × Res RuntimeTask) → IsSame o.0 (keep_approval k p o).0
keep_approval-IsSame k p (m, return t) = (refl, refl)
keep_approval-IsSame k p (m, raise e) = (refl, refl)

forget_value-IsSame : (o : Manager × Res RuntimeTask) → IsSame o.0 (forget_value o).0
forget_value-IsSame (m, return t) = (refl, refl)
forget_value-IsSame (m, raise e) = (refl, refl)

abbrev pub attached_task : Tick → Resource → RuntimeTask → RuntimeTask
attached_task tick r c = record c {
  browser_resource_key = some r.resource_key;
  browser_site = r.site;
  browser_resource_state = some r.state;
  updated_at = tick.now;
}

abbrev pub attach_write : Tick → String → Resource → Write
attach_write tick k r = record {
  event = some (make_event tick k "RESOURCE_ATTACHED" (resource_names r));
  approval = none;
  remove_approval = false;
  resource = some r;
}

pub attach_resource-Steps :
    (tick : Tick) (k : String) (r : Resource) (m : Manager)
    → Sound m
    → Steps m (attach_resource tick k r m).0
unfolding attach_resource
attach_resource-Steps tick k r m h =
    let saved = λ (c : RuntimeTask). save tick (attached_task tick r c) (attach_write tick k r) m in
    with_task-Steps k m (λ c. keep_resource r (saved c)) h
      (λ c found.
        then_same c m (saved c).0 (keep_resource r (saved c)).0
          (save-IsWritten tick c (attached_task tick r c) (attach_write tick k r) m refl stay)
          (keep_resource-IsSame r (saved c)))

detach-IsWritten :
    (tick : Tick) (k key : String) (r : Resource) (c : RuntimeTask) (m : Manager)
    → c.task_id ≡ k
    → IsWritten c m (detach tick k key r (detached_task tick c) m).0
unfolding delete_resource
detach-IsWritten tick k key r c m h = elim (Bool-cases (tick.commits k)) [
  | inl ok ↦ inr (
    detached_task tick c,
    refl,
    stay,
    rw (ok, detach) (ap (λ j. insert j (detached_task tick c) m.tasks) (sym h), refl),
  )
  | inr bad ↦ rw (bad, detach) (inl (refl, refl))
]

pub detach_resource-Steps :
    (tick : Tick) (k key : String) (m : Manager)
    → Sound m
    → Steps m (detach_resource tick k key m).0
unfolding detach_resource
detach_resource-Steps tick k key m h = elim (Option-cases (lookup key m.resources)) [
  | inl missing ↦ rw (missing, detach_resource) (Steps-same m h)
  | inr (r, found) ↦ elim (Bool-cases (str_eq r.task_id k)) [
    | inr other ↦ rw (found, other, detach_resource) (Steps-same m h)
    | inl own ↦
        rw (found, own, detach_resource)
          (with_task-Steps k m (λ c. detach tick k key r (detached_task tick c) m) h
            (λ c there. detach-IsWritten tick k key r c m (h.0 k c there)))
  ]
]

may_request-Reaches : (s : RuntimeState) → may_request s ≡ true → Reaches s waiting_for_approval
unfolding allowed
may_request-Reaches s h = elim (Bool-cases (allowed s waiting_for_approval)) [
  | inl a ↦ step a stay
  | inr n ↦ subst (λ u. Reaches u waiting_for_approval) (sym (already s h n)) stay
]
  where
    already :
        (s : RuntimeState)
        → may_request s ≡ true
        → allowed s waiting_for_approval ≡ false
        → s ≡ waiting_for_approval
    already s h n = ground arith

abbrev pub ask_write : Tick → String → Params → Write
ask_write tick k p = record {
  event = some (make_event tick k "APPROVAL_REQUESTED" []);
  approval = some (safe_params p);
  remove_approval = false;
  resource = none;
}

pub request_approval-Steps :
    (tick : Tick) (k : String) (p : Params) (m : Manager)
    → Sound m
    → Steps m (request_approval tick k p m).0
unfolding request_approval
request_approval-Steps tick k p m h =
    let saved = λ (c : RuntimeTask). save tick (asked_task tick c) (ask_write tick k p) m in
    let act = λ (c : RuntimeTask). keep_approval k (safe_params p) (saved c) in
    with_task-Steps k m
      (λ c. if not (may_request c.state) then (m, raise invalid_approval) else act c) h
      (λ c found. guard-IsWritten (may_request c.state) c m invalid_approval (act c) λ ok.
        then_same c m (saved c).0 (act c).0
          (save-IsWritten tick c (asked_task tick c) (ask_write tick k p) m refl
            (may_request-Reaches c.state ok))
          (keep_approval-IsSame k (safe_params p) (saved c)))

abbrev pub resolve_write : Tick → String → Bool → Write
resolve_write tick k b = record {
  event = some (make_event tick k (resolved_event b) []);
  approval = none;
  remove_approval = true;
  resource = none;
}

resolved-Reaches :
    (tick : Tick) (b : Bool) (c : RuntimeTask)
    → may_move c.state (resolved_state b) ≡ true
    → Reaches c.state (resolved_task tick b c).state
resolved-Reaches tick true c h = may_move-Reaches c.state (resolved_state true) h
resolved-Reaches tick false c h = may_move-Reaches c.state (resolved_state false) h

resolved-task_id :
    (tick : Tick) (b : Bool) (c : RuntimeTask) → (resolved_task tick b c).task_id ≡ c.task_id
resolved-task_id tick true c = refl
resolved-task_id tick false c = refl

resolve-IsWritten :
    (tick : Tick) (k : String) (b : Bool) (c : RuntimeTask) (m : Manager)
    → IsWritten c m (resolve tick k b c m).0
unfolding resolve
resolve-IsWritten tick k b c m =
    let saved = save tick (resolved_task tick b c) (resolve_write tick k b) m in
    guard-IsWritten (may_move c.state (resolved_state b)) c m invalid_approval (forget_value saved)
      λ ok.
        then_same c m saved.0 (forget_value saved).0
          (save-IsWritten tick c (resolved_task tick b c) (resolve_write tick k b) m
            (resolved-task_id tick b c) (resolved-Reaches tick b c ok))
          (forget_value-IsSame saved)

pub resolve_locked-Steps :
    (tick : Tick) (k : String) (b : Bool) (request : Option String) (m : Manager)
    → Sound m
    → Steps m (resolve_locked tick k b request m).0
unfolding resolve_locked
resolve_locked-Steps tick k b request m h =
    let popped = record m { approvals = remove k m.approvals } in
    let fits = is_request request (lookup k m.approvals) in
    with_task-Steps k m
      (λ c. if not fits then (m, raise approval_mismatch) else resolve tick k b c popped) h
      (λ c found.
        guard-IsWritten fits c m approval_mismatch (resolve tick k b c popped)
          λ ok. resolve-IsWritten tick k b c popped)
