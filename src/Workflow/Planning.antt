-- ===== src/Workflow/Planning.antt =====
-- agent_control/workflow/models.py: `Workflow.from_actions`.
use freaky_monkey.Base.{
  ℕ, suc, String, Bool, true, none, some, List, [], ◌∷◌, ◌&&◌, map, str_eq, if◌then◌else◌,
}
use freaky_monkey.Base.Dict.{insert}
use freaky_monkey.Base.Text.{strip}
use freaky_monkey.Json.{get}
use freaky_monkey.Types.Action.{Action, auto}
use freaky_monkey.Workflow.Model.{WorkflowStep}
use freaky_monkey.Workflow.Status.{pending}
use Prim.Native.String.{◌++◌ as str_append}
use freaky_monkey.Workflow.Inference.{
  DependencyType, state_dependency, data_dependency, auth_session_dependency, resource_dependency,
  explicit_user_order, Python, Inferred, is_nil_text, app_text, resource_key_for_action,
  infer_dependencies,
}

module _ (py : Python) where
  -- The action with the application of the newest step that launches one, or as it is.
  abbrev pub filled : Action → List WorkflowStep → Action
  filled a [] = a
  filled a (s ∷ older) =
      let rest = filled a older in
      if str_eq s.action.kind "launch_app"
      then record {
        kind = a.kind;
        params = insert "app" (get "app" s.action.params) a.params;
        consequential = a.consequential;
        rationale = a.rationale;
        retry_safety = auto;
        idempotent = none;
        side_effect_level = "normal";
        requires_fresh_observation = true;
        verification_required = true;
        recovery_strategy = none;
      }
      else rest

  abbrev pub action_for : Action → List WorkflowStep → Action
  action_for a recent =
      if str_eq a.kind "type_text" && is_nil_text (strip (app_text py a))
      then filled a recent
      else a

  abbrev type_name : DependencyType → String
  type_name state_dependency = "STATE_DEPENDENCY"
  type_name data_dependency = "DATA_DEPENDENCY"
  type_name auth_session_dependency = "AUTH_SESSION_DEPENDENCY"
  type_name resource_dependency = "RESOURCE_DEPENDENCY"
  type_name explicit_user_order = "EXPLICIT_USER_ORDER"

  -- A new step, from what was inferred for it.
  abbrev pub step_of : String → ℕ → Action → Inferred → WorkflowStep
  step_of workflow_id i a inf = record {
    step_id = str_append workflow_id (str_append ":step-" (py.decimal (suc i)));
    action = a;
    status = pending;
    attempt_count = 0;
    max_step_retries = 2;
    resource_key = elim (resource_key_for_action py a) [
      | none ↦ none
      | some t ↦ some (py.text_from t)
    ];
    dependencies = inf.dependencies;
    dependency_reasons = inf.reasons;
    dependency_types = map (λ e. (e.0, type_name e.1)) inf.types;
    policy_state = "";
    requires_data = [];
    side_effect = a.consequential;
    requires_verification = true;
    observation = [];
    result = [];
    verification = [];
    error = none;
    failure_category = none;
    recovery = [];
    timing = [];
    index = i;
  }

  abbrev pub next_step : String → String → Bool → ℕ → Action → List WorkflowStep → WorkflowStep
  next_step workflow_id goal explicit_order i a recent =
      let action = action_for a recent in
      step_of workflow_id i action (infer_dependencies py goal action recent explicit_order)

  -- The steps of `from_actions` after the ones that there are.
  unfoldable pub steps_from :
      (workflow_id goal : String) (explicit_order : Bool)
      → ℕ
      → List WorkflowStep
      → List Action
      → List WorkflowStep
  unfolding infer_dependencies resource_key_for_action strip insert
  steps_from workflow_id goal explicit_order i recent [] = []
  steps_from workflow_id goal explicit_order i recent (a ∷ later) =
      let s = next_step workflow_id goal explicit_order i a recent in
      s ∷ steps_from workflow_id goal explicit_order (suc i) (s ∷ recent) later

  -- The steps of `from_actions`.
  unfoldable pub from_actions :
      (workflow_id goal : String) → List Action → (explicit_order : Bool) → List WorkflowStep
  unfolding steps_from
  from_actions workflow_id goal actions explicit_order =
      steps_from workflow_id goal explicit_order 0 [] actions
