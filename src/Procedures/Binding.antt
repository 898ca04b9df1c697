-- ===== src/Procedures/Binding.antt =====
-- agent_control/procedure_retrieval.py and procedure_execution.py: a bound match and the actions that are
-- built from it.
use freaky_monkey.Base.{
  String, Bool, true, false, Option, none, some, List, [], ◌∷◌, reverse, ◌==◌, leb, if◌then◌else◌,
}
use freaky_monkey.Base.Dict.{contains}
use freaky_monkey.Base.Text.{codes, codes_eq, strip}
use freaky_monkey.Json.{Value, Fields, Items, Params, str, obj, arr, end, field, nil, cons}
use freaky_monkey.Types.Action.{Action, auto}
use freaky_monkey.Policy.Paths.{Text}
use freaky_monkey.Procedures.Model.{ProcedureParameter, ProcedureStep, LearnedProcedure}
use freaky_monkey.Procedures.Placeholders.{starts_name, continues_name}
use Prim.Native.String.{◌++◌ as str_append}

pub data BindingStatus : Type 0 where
  bound missing invalid ambiguous : BindingStatus

pub data ValidationStatus : Type 0 where
  applicable not_applicable unknown : ValidationStatus

pub record ParameterBinding : Type 0 where
  pub parameter : ProcedureParameter
  pub value : Value
  pub status : BindingStatus

pub record BindingResult : Type 0 where
  pub status : BindingStatus
  pub bindings : List ParameterBinding

pub record MatchValidation : Type 0 where
  pub status : ValidationStatus
  pub reasons : List String

pub record ProcedureMatch : Type 0 where
  pub procedure : LearnedProcedure
  pub binding : BindingResult
  pub validation : MatchValidation
  pub execution_allowed : Bool

-- The reasons of a failure, as the texts that the source gives.
pub data FailureReason : Type 0 where
  status_not_active execution_not_allowed skill_registry_missing skill_registry_invalid :
      FailureReason
  parameter_binding : BindingStatus → FailureReason
  not_applicable_because : String → FailureReason
  current_state_not_applicable current_state_unknown : FailureReason
  procedure_has_no_steps procedure_step_budget_exceeded : FailureReason
  duplicate_step malformed_step : String → FailureReason
  unresolved_parameter : Text → FailureReason
  policy_check_failed approval_required policy_denied skill_resolution_failed : FailureReason
  unsupported_action : String → FailureReason
  execution_raised : String → FailureReason
  execution_failed verification_failed verification_unknown : FailureReason

-- What may raise a ValueError with a reason.
pub data Built {ℓ} (A : Type ℓ) : Type ℓ where
  built : A → Built A
  refused : FailureReason → Built A

infixl 5 ◌>>=◌
abbrev pub ◌>>=◌ {ℓ κ} : {A : Type ℓ} {B : Type κ} → Built A → (A → Built B) → Built B
built a >>= f = f a
refused why >>= f = refused why

-- `BindingResult.values`, looked up: a later binding of a name wins.
unfoldable pub bound_value : List ParameterBinding → Text → Option Value
bound_value [] name = none
bound_value (b ∷ bs) name = elim (bound_value bs name) [
  | some v ↦ some v
  | none ↦ elim b.status [
    | bound ↦ if codes_eq (codes b.parameter.name) name then some b.value else none
    | _ ↦ none
  ]
]

-- What follows the opening brace of a text that is one placeholder.
abbrev placeholder_rest : Text → Text → Option Text
placeholder_rest acc [] = none
placeholder_rest [] (c ∷ cs) =
    let rest = placeholder_rest (c ∷ []) cs in if starts_name c then rest else none
placeholder_rest (a ∷ acc) (c ∷ []) = if c == 125 then some (reverse (a ∷ acc)) else none
placeholder_rest (a ∷ acc) (c ∷ d ∷ cs) =
    let rest = placeholder_rest (c ∷ a ∷ acc) (d ∷ cs) in if continues_name c then rest else none

-- `_PLACEHOLDER.fullmatch`
unfoldable pub whole_placeholder : Text → Option Text
whole_placeholder [] = none
whole_placeholder (c ∷ cs) = if c == 123 then placeholder_rest [] cs else none

abbrev bound_or_raise : List ParameterBinding → Text → Built Value
bound_or_raise bs name = elim (bound_value bs name) [
  | none ↦ refused (unresolved_parameter name)
  | some v ↦ built v
]

-- `_resolve_value`
unfoldable mutual
  pub resolve_value : List ParameterBinding → Value → Built Value
  resolve_value bs (str s) = elim (whole_placeholder (strip (codes s))) [
    | none ↦ built (str s)
    | some name ↦ bound_or_raise bs name
  ]
  resolve_value bs (obj fs) = resolve_fields bs fs >>= λ rs. built (obj rs)
  resolve_value bs (arr vs) = resolve_items bs vs >>= λ rs. built (arr rs)
  resolve_value bs v = built v

  pub resolve_fields : List ParameterBinding → Fields → Built Fields
  resolve_fields bs end = built end
  resolve_fields bs (field k v fs) =
      resolve_value bs v >>= λ r. resolve_fields bs fs >>= λ rs. built (field k r rs)

  pub resolve_items : List ParameterBinding → Items → Built Items
  resolve_items bs nil = built nil
  resolve_items bs (cons v vs) =
      resolve_value bs v >>= λ r. resolve_items bs vs >>= λ rs. built (cons r rs)

unfoldable pub resolve_arguments : List ParameterBinding → Params → Built Params
unfolding resolve_value
resolve_arguments bs [] = built []
resolve_arguments bs ((k, v) ∷ ps) =
    resolve_value bs v >>= λ r. resolve_arguments bs ps >>= λ rs. built ((k, r) ∷ rs)

abbrev insert_by_order : ProcedureStep → List ProcedureStep → List ProcedureStep
insert_by_order s [] = s ∷ []
insert_by_order s (t ∷ ts) = if leb s.order t.order then s ∷ t ∷ ts else t ∷ insert_by_order s ts

-- `sorted(steps, key=lambda s: s.order)`
abbrev sorted_steps : List ProcedureStep → List ProcedureStep
sorted_steps [] = []
sorted_steps (s ∷ ss) = insert_by_order s (sorted_steps ss)

abbrev pub action_of : LearnedProcedure → ProcedureStep → Params → Action
action_of p s params = record {
  kind = s.action_name;
  params = params;
  consequential = true;
  rationale = str_append "learned procedure " (str_append p.name (str_append " step " s.step_id));
  retry_safety = auto;
  idempotent = none;
  side_effect_level = "normal";
  requires_fresh_observation = true;
  verification_required = true;
  recovery_strategy = none;
}

abbrev pub is_blank : Text → Bool
is_blank [] = true
is_blank (c ∷ cs) = false

abbrev build_from : ProcedureMatch → List String → List ProcedureStep → Built (List Action)
build_from m seen [] = built []
build_from m seen (s ∷ ss) =
    let rest = build_from m (s.step_id ∷ seen) ss in
    if contains seen s.step_id
    then refused (duplicate_step s.step_id)
    else if is_blank (strip (codes s.action_name))
    then refused (malformed_step s.step_id)
    else (resolve_arguments m.binding.bindings s.arguments >>= λ params.
        rest >>= λ actions. built (action_of m.procedure s params ∷ actions))

unfoldable pub build_actions : ProcedureMatch → Built (List Action)
unfolding resolve_arguments strip
build_actions m = elim m.procedure.steps [
  | [] ↦ refused procedure_has_no_steps
  | s ∷ ss ↦ build_from m [] (sorted_steps (s ∷ ss))
]
