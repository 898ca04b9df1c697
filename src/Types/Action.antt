-- ===== src/Types/Action.antt =====
-- agent_control/types.py: `RetrySafety`, `Action` and `ActionResult`.
use freaky_monkey.Base.{ℕ, String, Bool, Option}
use freaky_monkey.Json.{Params}
use freaky_monkey.Types.Failure.{FailureClass}

pub data RetrySafety : Type 0 where
  safe_to_retry reobserve_first do_not_retry ask_user auto : RetrySafety

pub record Action : Type 0 where
  pub kind : String
  pub params : Params
  pub consequential : Bool
  pub rationale : String
  pub retry_safety : RetrySafety
  pub idempotent : Option Bool
  pub side_effect_level : String
  pub requires_fresh_observation : Bool
  pub verification_required : Bool
  pub recovery_strategy : Option String

pub record ActionResult : Type 0 where
  pub action : Action
  pub ok : Bool
  pub detail : Params
  pub error : Option String
  pub failure_class : Option FailureClass
  pub duration_s : ℕ
