-- ===== src/Workflow/Run.antt =====
-- agent_control/workflow/scheduler.py: what a round of `DependencyScheduler.run` does to one node. What
-- the worker threads, the clock and other threads decide is the environment: what an executor answers,
-- in which order the answers arrive, and when a cancellation is requested.
use freaky_monkey.Base.{
  ℕ, ◌+◌, String, Bool, true, false, Option, none, some, List, [], ◌∷◌, ◌++◌, map, ◌&&◌, leb,
  str_eq, if◌then◌else◌,
}
use freaky_monkey.Base.Text.{codes, codes_eq, upper}
use freaky_monkey.Base.Dict.{contains, lookup, insert}
use freaky_monkey.Json.{Value, null, str, obj, Fields, end, field, Params, get}
use freaky_monkey.Types.Action.{Action}
use freaky_monkey.Workflow.Status.{StepStatus, is_completed}
use freaky_monkey.Workflow.Model.{WorkflowStep, Workflow}
use freaky_monkey.Workflow.Locks.{LockManager, try_acquire}

-- What an executor returns: the keys that the scheduler reads. A missing key is `none`.
pub record Payload : Type 0 where
  pub status : Option String
  pub ok : Bool
  pub result : Option Params
  pub verification : Option Params
  pub error : Option String
  pub error_category : Option String
  pub failure_category : Option String
  pub output : Option Value
  pub output_key : Option String

pub data Outcome : Type 0 where
  returned : Payload → Outcome
  threw : (message : String) → Outcome

pub record Environment : Type 0 where
  pub executor : (round : ℕ) → WorkflowStep → Outcome
  pub arrival : (round : ℕ) → List ℕ → List ℕ
  pub cancels : (round : ℕ) → Bool
  pub interrupts : (round : ℕ) → Bool

pub record RunState : Type 0 where
  pub workflow : Workflow
  pub results : List (String × Outcome)
  pub locks : LockManager

-- The body of the submission loop for a node of `ready`, with the number of futures so far: the
-- node afterwards, and whether it was submitted.
unfoldable pub submit : ℕ → LockManager → ℕ → WorkflowStep → LockManager × WorkflowStep × Bool
submit max_concurrency locks submitted s =
    if leb max_concurrency submitted
    then (locks, record s { status = StepStatus.waiting_resource }, false)
    else let (locks', acquired) = try_acquire locks s.resource_key s.step_id in
      if acquired
      then (locks', record s { status = StepStatus.running }, true)
      else (locks', record s { status = StepStatus.waiting_resource }, false)

abbrev count_if : Bool → ℕ → ℕ
count_if b n = if b then n + 1 else n

-- The loop: the nodes afterwards, each with whether it was submitted.
unfoldable pub dispatch :
    ℕ → LockManager → ℕ → List (WorkflowStep × Bool) → LockManager × List (WorkflowStep × Bool)
dispatch max_concurrency locks submitted [] = (locks, [])
dispatch max_concurrency locks submitted ((s, false) ∷ ms) =
    let (locks', rest) = dispatch max_concurrency locks submitted ms in (locks', (s, false) ∷ rest)
dispatch max_concurrency locks submitted ((s, true) ∷ ms) =
    let (locks', s', taken) = submit max_concurrency locks submitted s in
    let (locks'', rest) = dispatch max_concurrency locks' (count_if taken submitted) ms in
    (locks'', (s', taken) ∷ rest)

-- The positions of the submitted nodes.
unfoldable pub futures_from : ℕ → List (WorkflowStep × Bool) → List ℕ
futures_from i [] = []
futures_from i ((s, taken) ∷ ms) =
    let rest = futures_from (i + 1) ms in if taken then i ∷ rest else rest

abbrev text_is : List ℕ → String → Bool
text_is t s = codes_eq t (codes s)

abbrev pub status_text : Payload → String
status_text p = elim p.status [ some s ↦ s | none ↦ if p.ok then "COMPLETED" else "FAILED" ]

-- The ladder of tests on the upper-case text.
unfoldable pub status_named : List ℕ → StepStatus
status_named t =
    if text_is t "COMPLETED"
    then StepStatus.completed
    else if text_is t "UNKNOWN"
    then StepStatus.unknown
    else if text_is t "RECOVERING"
    then StepStatus.recovering
    else if text_is t "WAITING_FOR_APPROVAL"
    then StepStatus.waiting_for_approval
    else if text_is t "WAITING_FOR_USER"
    then StepStatus.waiting_for_user
    else if text_is t "CANCELLED"
    then StepStatus.cancelled
    else StepStatus.failed

-- `a or b`, of optional texts.
abbrev or_text : Option String → Option String → Option String
or_text none b = b
or_text (some a) b = if str_eq a "" then b else some a

abbrev params_or_empty : Option Params → Params
params_or_empty none = []
params_or_empty (some m) = m

-- The assignments to the node that returned.
unfoldable pub finish : WorkflowStep → Payload → WorkflowStep
unfolding status_named upper
finish s p = record s {
  status = status_named (upper (codes (status_text p)));
  result = params_or_empty p.result;
  verification = params_or_empty p.verification;
  error = p.error;
  failure_category =
      or_text p.error_category (or_text p.failure_category (or_text s.failure_category none));
}

-- The handler of an exception.
unfoldable pub fail_with : WorkflowStep → String → WorkflowStep
fail_with s message = record s {
  status = StepStatus.failed;
  error = some message;
  failure_category = some "execution_exception";
}

-- `str(value).upper() == "PASS"`; the text of a value that is no text is never PASS.
abbrev is_pass_text : Value → Bool
is_pass_text (str v) = text_is (upper (codes v)) "PASS"
is_pass_text _ = false

-- Only verified output becomes dependency data.
unfoldable pub verified : WorkflowStep → Bool
verified s = is_completed s.status && is_pass_text (get "verdict" s.verification)

abbrev fields_of : Params → Fields
fields_of [] = end
fields_of ((k, v) ∷ m) = field k v (fields_of m)

-- `context.values.update(data)`
abbrev pub update_with : Fields → Params → Params
update_with end m = m
update_with (field k v fs) m = update_with fs (insert k v m)

abbrev pub merge_output : Option Value → Params → Params
merge_output (some (obj fs)) m = update_with fs m
merge_output _ m = m

-- `result.get("data", result.get("result"))`
abbrev pub output_value : Payload → Value
output_value p = elim p.output [
  | some v ↦ v
  | none ↦ elim p.result [ none ↦ null | some m ↦ obj (fields_of m) ]
]

abbrev pub store_output : Option String → Value → Params → Params
store_output none v m = m
store_output (some k) v m = if str_eq k "" then m else insert k v m

unfoldable pub context_with : Payload → Params → Params
context_with p m = store_output p.output_key (output_value p) (merge_output p.output m)

abbrev is_token : String → Value → Bool
is_token key (str v) = codes_eq (codes v) (codes "${" ++ (codes key ++ codes "}"))
is_token key _ = false

-- The innermost loop: a parameter that is the token of the key takes the key's value.
unfoldable pub fill : String → Value → Params → Params
fill key value = map (λ (k, v). (k, if is_token key v then value else v))

unfoldable pub fill_keys : Params → List String → Params → Params
fill_keys context [] params = params
fill_keys context (key ∷ ks) params =
    fill_keys context ks
      (elim (lookup key context) [ none ↦ params | some value ↦ fill key value params ])

abbrev set_params : Action → Params → Action
set_params a params = record a { params = params }

unfoldable pub fill_dependent : String → Params → WorkflowStep → WorkflowStep
fill_dependent node_id context s =
    if contains s.dependencies node_id
    then record s {
      action = set_params s.action (fill_keys context s.requires_data s.action.params);
    }
    else s
