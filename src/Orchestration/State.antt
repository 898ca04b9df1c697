-- ===== src/Orchestration/State.antt =====
-- agent_control/workflow/state.py, `to_json` and `from_json` of agent_control/workflow/models.py as
-- one reading, and the runtime that the nodes of agent_control/workflow/nodes.py call.
use mathlib.Core.Option
use freaky_monkey.Base.{
  ℕ, String, Bool, true, Option, none, some, List, [], ◌∷◌, map, str_eq, get_elem?, if◌then◌else◌,
}
use freaky_monkey.Base.Dict.{insert, has_key}
use freaky_monkey.Base.Text.{codes, codes_eq, upper}
use freaky_monkey.Json.{Params, str, truthy, get}
use freaky_monkey.Types.Action.{Action}
use freaky_monkey.Policy.Paths.{Decision}
use freaky_monkey.Workflow.Status.{reloaded}
use freaky_monkey.Workflow.Model.{ResourceBinding, WorkflowStep, Workflow, current_step}
use freaky_monkey.Workflow.Rounds.{set_step}

-- The texts that the nodes leave under "decision".
pub data Said : Type 0 where
  said_allow said_approval said_waiting said_failure said_verify said_pass said_unknown : Said
  said_retry said_ask_user said_cancelled said_failed said_wait said_batch_done said_done
        said_terminal :
      Said

-- The keys of the state that a node or an edge reads. An absent workflow is `none`.
pub record GraphState : Type 0 where
  pub workflow : Option Workflow
  pub workflow_id : String
  pub goal : String
  pub decision : Option Said
  pub decision_reason : String
  pub approved_action : Option Action
  pub pending_input : Option Params
  pub step_result : Params
  pub step_verification : Params
  pub failure_class : Option String
  pub ready_step_ids : List String
  pub result_status : Option String

-- What `execute_workflow_step` answers.
pub record Executed : Type 0 where
  pub is_ok : Bool
  pub needs_input : Bool
  pub error : Option String
  pub error_category : Option String
  pub failure_categories : List String
  pub aborted_reason : Option String
  pub recovery_attempts : ℕ
  pub result : Params
  pub verification : Params
  pub verification_status : Option String
  pub workflow : Option Workflow

-- The runtime adapter. It answers each call and does not change the workflow that it is given; a
-- method that the adapter lacks is `none`. `approve` and `input` are what a person answers when the
-- graph is resumed. `branch_step` is `execute_workflow_step` in a thread of a batch, and `none` is an
-- exception there. A decision of `none` is a text that names no decision.
pub record Adapter : Type 0 where
  pub decompose_workflow : String → String → Workflow
  pub observe_step : Workflow → ℕ → Params
  pub policy_of : Workflow → ℕ → Option Decision × String × Option Params
  pub execute_step : Workflow → ℕ → Option Action → Executed
  pub branch_step : Workflow → ℕ → Option Executed
  pub verify_step : Option (Workflow → ℕ → Params)
  pub recover_resource : Option (Workflow → ℕ → Bool)
  pub replan_step : Option (Workflow → ℕ → Bool)
  pub approve : Workflow → ℕ → Bool
  pub input : Workflow → Params → Option String

-- A text that is not empty.
abbrev pub or_none : Option String → Option String
or_none none = none
or_none (some t) = if str_eq t "" then none else some t

-- A step that `to_json` writes and `from_json` reads back.
abbrev pub reload_step : WorkflowStep → WorkflowStep
reload_step s = record s { status = reloaded s.status; error = or_none s.error }

abbrev pub first_id : List WorkflowStep → Option String
first_id [] = none
first_id (s ∷ ss) = some s.step_id

abbrev pub bind_key :
    List (String × ResourceBinding) → Option String → List (String × ResourceBinding)
bind_key rs none = rs
bind_key rs (some k) =
    if str_eq k ""
    then rs
    else if has_key k rs
    then rs
    else insert k (record { resource_key = k; site = some k; reuse = true }) rs

unfoldable pub bind_steps :
    List WorkflowStep → List (String × ResourceBinding) → List (String × ResourceBinding)
bind_steps [] rs = rs
bind_steps (s ∷ ss) rs = bind_steps ss (bind_key rs s.resource_key)

-- `bind_resources`
unfoldable pub bind_resources : Workflow → Workflow
unfolding bind_steps
bind_resources w = record w { resources = bind_steps w.steps w.resources }

-- `Workflow.from_json(workflow.to_json())`, but for the time stamps.
unfoldable pub reload : Workflow → Workflow
unfolding bind_steps
reload w = record w {
  steps = map reload_step w.steps;
  current_step_id = elim w.current_step_id [ none ↦ first_id w.steps | some k ↦ some k ];
  resources = elim w.resources as (λ _. List (String × ResourceBinding)) [
    | [] ↦ bind_steps w.steps []
    | r ∷ rs ↦ r ∷ rs
  ];
}

-- `_workflow(state)`; `none` is the KeyError.
abbrev pub workflow_in : GraphState → Option Workflow
workflow_in st = Option.map reload st.workflow

-- A node that reads the workflow and its current step, with the step's place. `none` is the IndexError.
abbrev pub current : Workflow → Option (ℕ × WorkflowStep)
current w = elim (get_elem? w.steps (current_step w)) [
  | none ↦ none
  | some s ↦ some (current_step w, s)
]

-- The step at a place is replaced.
abbrev pub put_step : Workflow → ℕ → WorkflowStep → Workflow
put_step w i s = record w { steps = set_step w.steps i s }

-- `str(verification.get("verdict") or "UNKNOWN").upper()`
pub data VerdictText : Type 0 where
  pass fail unknown other : VerdictText

abbrev pub verdict_text : List ℕ → VerdictText
verdict_text t =
    if codes_eq t (codes "PASS")
    then pass
    else if codes_eq t (codes "FAIL")
    then fail
    else if codes_eq t (codes "UNKNOWN")
    then unknown
    else other

unfoldable pub verdict_in : Params → VerdictText
unfolding upper
verdict_in ps =
    if truthy (get "verdict" ps)
    then elim (get "verdict" ps) as (λ _. VerdictText) [
      | str t ↦ verdict_text (upper (codes t))
      | _ ↦ other
    ]
    else unknown
