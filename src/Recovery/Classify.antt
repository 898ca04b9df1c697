-- ===== src/Recovery/Classify.antt =====
-- agent_control/recovery.py: `classify`. Ages are in one unit of time, as natural numbers.
use freaky_monkey.Base.{
  ℕ, Bool, false, Option, none, some, ltb, str_eq, not, ◌&&◌, ◌||◌, if◌then◌else◌,
}
use freaky_monkey.Base.Text.{codes, is_prefix}
use freaky_monkey.Json.{Value, str, get, or_value}
use freaky_monkey.Types.Verification.{Verdict, VerificationResult, verdict}
use freaky_monkey.Types.Failure.{FailureClass, is_unknown}
use freaky_monkey.Types.Action.{ActionResult}
use freaky_monkey.Recovery.Naming.{of_class, of_value, classify_failure_name}

-- The name that `classify_failure_name` gives, unless it is UNKNOWN.
abbrev known : Option FailureClass → Option FailureClass
known none = none
known (some c) = if is_unknown c then none else some c

abbrev denied : FailureClass → Option FailureClass
denied FailureClass.permission_denied = some FailureClass.permission_denied
denied _ = none

abbrev or_else : Option FailureClass → Option FailureClass → Option FailureClass
or_else none o = o
or_else (some c) o = some c

-- The first block: what the result itself names.
unfoldable pub explicit : Option ActionResult → Option FailureClass
explicit none = none
explicit (some r) = elim r.failure_class [
  | none ↦ none
  | some c ↦ or_else (known (classify_failure_name (of_class c))) (denied c)
]

unfoldable pub is_stale : Option ℕ → Option ℕ → Bool
is_stale (some age) (some limit) = ltb limit age
is_stale _ _ = false

abbrev class_or : FailureClass → Option FailureClass → FailureClass
class_or d none = d
class_or d (some c) = c

-- The class that a value of the detail names, unless it is UNKNOWN.
unfoldable pub named : Value → Option FailureClass
named v = known (classify_failure_name (of_value v))

-- The block for a result that is not ok.
unfoldable pub not_ok : ActionResult → FailureClass
not_ok r =
    class_or (class_or FailureClass.action_failed r.failure_class)
      (named (or_value (get "skill_failure_class" r.detail) (get "failure_class" r.detail)))

abbrev is_web_address : Value → Bool
is_web_address (str s) =
    is_prefix (codes "http://") (codes s) || is_prefix (codes "https://") (codes s)
is_web_address _ = false

-- A launched page whose evidence is missing must not be opened a second time.
unfoldable pub opened_page : Option ActionResult → Bool
opened_page none = false
opened_page (some r) =
    r.ok
    && str_eq r.action.kind "launch_app"
    && is_web_address (or_value (get "url" r.action.params) (get "open_path" r.action.params))

abbrev is_ok : Option ActionResult → Bool
is_ok none = false
is_ok (some r) = r.ok

unfoldable pub by_verdict : Option ActionResult → Verdict → FailureClass
by_verdict result Verdict.fail =
    if opened_page result then FailureClass.environment else FailureClass.verification_failed
by_verdict result Verdict.unknown =
    if is_ok result then FailureClass.inconclusive else FailureClass.unknown
by_verdict result Verdict.pass = FailureClass.unknown

unfoldable pub by_verification : Option ActionResult → Option VerificationResult → FailureClass
unfolding by_verdict
by_verification result none = FailureClass.unknown
by_verification result (some v) = by_verdict result (verdict v)

-- From the test of the result's own flag on.
abbrev from_result : Option ActionResult → Option VerificationResult → FailureClass
from_result none verification = by_verification none verification
from_result (some r) verification =
    if not r.ok then not_ok r else by_verification (some r) verification

unfoldable pub classify :
    Option ActionResult → Option VerificationResult → Option ℕ → Option ℕ → FailureClass
unfolding explicit is_stale by_verification
classify result verification precondition_age_s max_staleness_s = elim (explicit result) [
  | some c ↦ c
  | none ↦
      if is_stale precondition_age_s max_staleness_s
      then FailureClass.stale_state
      else from_result result verification
]
