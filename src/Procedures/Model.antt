-- ===== src/Procedures/Model.antt =====
-- agent_control/procedure_store.py: the records of a learned procedure and their validation. A
-- confidence or an importance is a number of hundredths, and a time stamp a natural number. A parameter,
-- a step or a condition that exists has passed the tests of its constructor.
use freaky_monkey.Base.{
  ℕ, suc, String, Bool, true, false, Option, none, some, List, [], ◌∷◌, ◌++◌, map, all, any, not,
  ◌&&◌, ◌||◌, ◌==◌, leb, length, str_eq,
}
use freaky_monkey.Base.Text.{codes, lower, strip}
use freaky_monkey.Json.{Value, Fields, Items, Params, str, obj, arr, end, field, nil, cons}
use freaky_monkey.Policy.Paths.{Text, contains_text}

pub data ProcedureStatus : Type 0 where
  candidate validating active degraded invalidated retired : ProcedureStatus

pub data EventType : Type 0 where
  validation_started validation_passed validation_failed promotion_granted promotion_rejected :
      EventType
  degradation_detected invalidation_detected revalidation_passed revalidation_failed : EventType

pub data SourceType : Type 0 where
  verified_workflow manual imported system : SourceType

-- The transitions that `set_status` accepts.
unfoldable pub allowed : ProcedureStatus → ProcedureStatus → Bool
allowed candidate validating = true
allowed candidate invalidated = true
allowed candidate retired = true
allowed validating active = true
allowed validating candidate = true
allowed validating invalidated = true
allowed validating retired = true
allowed active degraded = true
allowed active invalidated = true
allowed active retired = true
allowed degraded active = true
allowed degraded invalidated = true
allowed degraded retired = true
allowed invalidated retired = true
allowed _ _ = false

pub record ProcedureParameter : Type 0 where
  pub name : String
  pub description : String
  pub type : String
  pub required : Bool
  pub default : Value
  pub constraints : Params
  pub sensitive : Bool

pub record ProcedureStep : Type 0 where
  pub step_id : String
  pub order : ℕ
  pub action_name : String
  pub arguments : Params
  pub description : String
  pub dependencies : List String
  pub required_capabilities : List String
  pub expected_observation : Params
  pub expected_verification : Params
  pub metadata : Params

pub record ProcedureCondition : Type 0 where
  pub condition_id : String
  pub condition : String
  pub metadata : Params

pub record ProcedureProvenance : Type 0 where
  pub source_type : SourceType
  pub source_task_id : Option String
  pub source_session_id : Option String
  pub created_at : ℕ
  pub parent_procedure_id : Option String
  pub source_version : Option ℕ

pub record LearnedProcedure : Type 0 where
  pub procedure_id : String
  pub name : String
  pub description : String
  pub trigger_pattern : String
  pub status : ProcedureStatus
  pub version : ℕ
  pub parameters : List ProcedureParameter
  pub steps : List ProcedureStep
  pub preconditions : List ProcedureCondition
  pub postconditions : List ProcedureCondition
  pub required_capabilities : List String
  pub resource_requirements : Params
  pub success_count : ℕ
  pub failure_count : ℕ
  pub unknown_count : ℕ
  pub confidence : ℕ
  pub importance : ℕ
  pub created_at : ℕ
  pub updated_at : ℕ
  pub last_used_at : Option ℕ
  pub last_success_at : Option ℕ
  pub provenance : ProcedureProvenance
  pub source_task_id : Option String
  pub source_session_id : Option String
  pub parent_procedure_id : Option String
  pub metadata : Params

-- Whether a text matches one of `_SECRET_PATTERNS`: the answer of the module `re`.
abbrev pub Secrets : Type 0
Secrets = String → Bool

unfoldable mutual
  pub contains_secret : Secrets → Value → Bool
  contains_secret found (str s) = found s
  contains_secret found (obj fs) = secret_fields found fs
  contains_secret found (arr vs) = secret_items found vs
  contains_secret found _ = false

  pub secret_fields : Secrets → Fields → Bool
  secret_fields found end = false
  secret_fields found (field k v fs) = found k || contains_secret found v || secret_fields found fs

  pub secret_items : Secrets → Items → Bool
  secret_items found nil = false
  secret_items found (cons v vs) = contains_secret found v || secret_items found vs

-- `_clean_metadata` raises for such a dictionary.
unfoldable pub has_secret : Secrets → Params → Bool
unfolding contains_secret
has_secret found ps = any (λ p. found p.0 || contains_secret found p.1) ps

-- `_validate_text(value, …)` for a text that is required.
unfoldable pub text_ok : ℕ → String → Bool
unfolding strip
text_ok most t = let n = length (strip (codes t)) in leb 1 n && leb n most

abbrev folded : String → Text
folded t = lower (codes t)

-- `len(xs) == len(set(xs))`
unfoldable pub all_distinct : List Text → Bool
all_distinct [] = true
all_distinct (t ∷ ts) = not (contains_text ts t) && all_distinct ts

unfoldable pub orders_from : ℕ → List ProcedureStep → Bool
orders_from n [] = true
orders_from n (s ∷ ss) = s.order == n && orders_from (suc n) ss

unfoldable pub step_ids : LearnedProcedure → List Text
unfolding lower
step_ids p = map (λ s. folded s.step_id) p.steps

abbrev same_text : Option String → Option String → Bool
same_text none none = true
same_text (some a) (some b) = str_eq a b
same_text _ _ = false

-- `LearnedProcedure.validate` raises nothing.
unfoldable pub is_well_formed : Secrets → LearnedProcedure → Bool
unfolding text_ok all_distinct orders_from step_ids has_secret lower
is_well_formed found p =
    text_ok 128 p.procedure_id
    && text_ok 200 p.name
    && text_ok 2000 p.description
    && text_ok 1000 p.trigger_pattern
    && leb 1 p.version
    && leb p.confidence 100
    && leb p.importance 100
    && all_distinct (map (λ x. folded x.name) p.parameters)
    && all_distinct (step_ids p)
    && orders_from 0 p.steps
    && all_distinct (map (λ c. folded c.condition_id) (p.preconditions ++ p.postconditions))
    && all (λ s. all (λ d. contains_text (step_ids p) (folded d)) s.dependencies) p.steps
    && not (has_secret found p.resource_requirements)
    && not (has_secret found p.metadata)
    && same_text p.provenance.parent_procedure_id p.parent_procedure_id
    && same_text p.provenance.source_task_id p.source_task_id
    && same_text p.provenance.source_session_id p.source_session_id
