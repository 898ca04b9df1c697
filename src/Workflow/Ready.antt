-- ===== src/Workflow/Ready.antt =====
-- agent_control/workflow/scheduler.py: `DependencyScheduler.ready_nodes` and `aggregate`. The scan
-- changes nodes as it goes, so the nodes before the one at hand are those already changed.
use freaky_monkey.Base.{
  String, Bool, true, false, none, some, List, [], ◌∷◌, ◌++◌, map, keep, not, ◌&&◌, ◌||◌, any, all,
  str_eq, if◌then◌else◌, ◌≡◌, refl, ◌⊎◌, inl, inr,
}
use freaky_monkey.Base.Dict.{contains, has_key}
use freaky_monkey.Json.{Params}
use freaky_monkey.Workflow.Status.{StepStatus, WorkflowStatus, is_completed, is_cancelled}
use freaky_monkey.Workflow.Model.{WorkflowStep, Workflow, find_step}

-- What the scheduler raises: WorkflowGraphError with its message as a constructor, and the errors
-- of Python that a malformed graph or lock table leads to.
pub data SchedulerError : Type 0 where
  duplicate_ids empty_id dependency_cycle : SchedulerError
  invalid_capability self_dependency : (node : String) → SchedulerError
  unknown_dependency impossible_dependency : (dependency node : String) → SchedulerError
  unknown_recovery_node not_recoverable : (node : String) → SchedulerError
  stop_iteration key_error lock_error : SchedulerError

pub data Result {ℓ} (A : Type ℓ) : Type ℓ where
  ok : A → Result A
  raised : SchedulerError → Result A

infixl 5 ◌>>=◌
abbrev pub ◌>>=◌ {ℓ κ} : {A : Type ℓ} {B : Type κ} → Result A → (A → Result B) → Result B
ok got >>= next = next got
raised e >>= next = raised e

pub >>=-eq-ok {ℓ κ} :
    {A : Type ℓ} {B : Type κ} (r : Result A) (next : A → Result B) {answer : B}
    → (r >>= next) ≡ ok answer
    → (got : A) × (r ≡ ok got) × (next got ≡ ok answer)
>>=-eq-ok (ok a) next h = (a, refl, h)
>>=-eq-ok (raised e) next h = cc

pub Result-cases {ℓ} :
    {A : Type ℓ} (m : Result A) → ((a : A) × (m ≡ ok a)) ⊎ ((e : SchedulerError) × (m ≡ raised e))
Result-cases (ok a) = inl (a, refl)
Result-cases (raised e) = inr (e, refl)

pub ok-injective {ℓ} : {A : Type ℓ} {a b : A} → ok a ≡ ok b → a ≡ b
ok-injective h = cc

-- PENDING, WAITING_RESOURCE and READY: a node that may be scheduled.
abbrev pub schedulable : StepStatus → Bool
schedulable StepStatus.pending = true
schedulable StepStatus.waiting_resource = true
schedulable StepStatus.ready = true
schedulable _ = false

-- A prerequisite in such a status will not complete.
abbrev pub is_dead : StepStatus → Bool
is_dead StepStatus.failed = true
is_dead StepStatus.unknown = true
is_dead StepStatus.blocked = true
is_dead StepStatus.cancelled = true
is_dead StepStatus.recovery_required = true
is_dead _ = false

unfoldable pub completed_ids : List WorkflowStep → List String
completed_ids steps = map (λ s. s.step_id) (keep (λ s. is_completed s.status) steps)

-- `node.policy_state in {"", "ALLOWED", "APPROVED"}`
unfoldable pub policy_ok : String → Bool
policy_ok p = str_eq p "" || str_eq p "ALLOWED" || str_eq p "APPROVED"

-- Every key that the node requires is in the workflow's context.
unfoldable pub data_ok : Params → WorkflowStep → Bool
data_ok context s = all (λ k. has_key k context) s.requires_data

unfoldable pub deps_done : List String → WorkflowStep → Bool
deps_done completed s = all (contains completed) s.dependencies

-- `any(next(...).status in {...} for dep_id in dependencies)`
unfoldable pub any_dead : List WorkflowStep → List String → Result Bool
any_dead steps [] = ok false
any_dead steps (d ∷ ds) = elim (find_step d steps) [
  | none ↦ raised stop_iteration
  | some p ↦ if is_dead p.status then ok true else any_dead steps ds
]

abbrev pub made_ready : WorkflowStep → WorkflowStep
made_ready s = record s { status = StepStatus.ready }

abbrev pub made_blocked : WorkflowStep → WorkflowStep
made_blocked s = record s {
  status = StepStatus.blocked;
  failure_category = some "dependency_failed";
  error = some "a prerequisite step did not complete successfully";
}

-- The body of the loop: the node afterwards, and whether it joins `ready`.
unfoldable pub visit :
    Params → List String → List WorkflowStep → WorkflowStep → Result (WorkflowStep × Bool)
visit context completed steps s =
    if not (schedulable s.status)
    then ok (s, false)
    else if deps_done completed s && policy_ok s.policy_state
    then if data_ok context s then ok (made_ready s, true) else ok (s, false)
    else any_dead steps s.dependencies >>= λ dead.
        if dead then ok (made_blocked s, false) else ok (s, false)

-- The nodes afterwards, each with whether it is in `ready`: `ready` lists them in this order.
unfoldable pub scan :
    Params
    → List String
    → List WorkflowStep
    → List WorkflowStep
    → Result (List (WorkflowStep × Bool))
scan context completed before [] = ok []
scan context completed before (s ∷ rest) =
    visit context completed (before ++ (s ∷ rest)) s >>= λ (s', r).
    scan context completed (before ++ (s' ∷ [])) rest >>= λ marked. ok ((s', r) ∷ marked)

unfoldable pub ready_nodes : Workflow → Result (List (WorkflowStep × Bool))
unfolding scan
ready_nodes w = scan w.context (completed_ids w.steps) [] w.steps

abbrev pub ready_ids : List (WorkflowStep × Bool) → List String
ready_ids marked = map (λ m. m.0.step_id) (keep (λ m. m.1) marked)

abbrev pub marked_steps : List (WorkflowStep × Bool) → List WorkflowStep
marked_steps = map (λ m. m.0)

abbrev pub is_step_cancelled : StepStatus → Bool
is_step_cancelled StepStatus.cancelled = true
is_step_cancelled _ = false

abbrev pub is_unknown : StepStatus → Bool
is_unknown StepStatus.unknown = true
is_unknown _ = false

abbrev pub is_waiting_for_approval : StepStatus → Bool
is_waiting_for_approval StepStatus.waiting_for_approval = true
is_waiting_for_approval _ = false

abbrev pub is_waiting_for_user : StepStatus → Bool
is_waiting_for_user StepStatus.waiting_for_user = true
is_waiting_for_user _ = false

-- FAILED, BLOCKED or CANCELLED.
abbrev pub is_failed : StepStatus → Bool
is_failed StepStatus.failed = true
is_failed StepStatus.blocked = true
is_failed StepStatus.cancelled = true
is_failed _ = false

-- The tests of `aggregate` on the list of states, after the one for cancellation.
unfoldable pub aggregate_states : List StepStatus → WorkflowStatus
aggregate_states [] = WorkflowStatus.completed
aggregate_states (t ∷ ts) =
    let states = t ∷ ts in
    if all is_completed states
    then WorkflowStatus.completed
    else if all is_step_cancelled states
    then WorkflowStatus.cancelled
    else if any is_unknown states
    then WorkflowStatus.unknown
    else if any is_waiting_for_approval states
    then WorkflowStatus.waiting_for_approval
    else if any is_waiting_for_user states
    then WorkflowStatus.waiting_for_user
    else if any is_failed states
    then if any is_completed states then WorkflowStatus.partial_failure else WorkflowStatus.failed
    else WorkflowStatus.running

unfoldable pub aggregate : Workflow → WorkflowStatus
unfolding aggregate_states
aggregate w =
    if w.cancel_requested || is_cancelled w.status
    then WorkflowStatus.cancelled
    else aggregate_states (map (λ s. s.status) w.steps)
