-- ===== src/Recovery/Naming.antt =====
-- agent_control/recovery.py: `classify_failure_name`. Texts are compared by their code points, and
-- case and white space are those of ASCII.
use freaky_monkey.Base.{
  ℕ, String, Option, none, some, List, [], ◌∷◌, ◌++◌, ◌≡◌, refl, ◌||◌, if◌then◌else◌,
}
use freaky_monkey.Base.Text.{codes, codes_eq, upper, lower, strip}
use freaky_monkey.Json.{Value, str}
use freaky_monkey.Types.Failure.{FailureClass, members, name, value}

-- What the callers pass: a member of the enumeration, or a value of a payload.
pub data FailureName : Type 0 where
  of_class : FailureClass → FailureName
  of_value : Value → FailureName

-- The loop over the enumeration.
find_member : List ℕ → List FailureClass → Option FailureClass
find_member text [] = none
find_member text (c ∷ cs) =
    let rest = find_member text cs in
    if codes_eq text (codes (value c)) || codes_eq (upper text) (codes (name c))
    then some c
    else rest

abbrev pub aliases : List (String × FailureClass)
aliases =
    ("timeout", FailureClass.execution_timeout)
    ∷ ("browser_disconnected", FailureClass.browser_connection_failed)
    ∷ ("browser_connection_failed", FailureClass.browser_connection_failed)
    ∷ ("not_found", FailureClass.target_not_found)
    ∷ ("application_not_found", FailureClass.application_not_found)
    ∷ ("stale", FailureClass.stale_observation)
    ∷ ("unknown", FailureClass.verification_unknown)
    ∷ ("verification_unknown", FailureClass.verification_unknown)
    ∷ ("policy_denied", FailureClass.policy_denied)
    ∷ ("approval_required", FailureClass.approval_required)
    ∷ ("media_navigation_failed", FailureClass.expected_state_not_reached)
    ∷ ("expected_state_not_reached", FailureClass.expected_state_not_reached)
    ∷ ("navigation_timeout", FailureClass.navigation_timeout)
    ∷ ("browser_session_dead", FailureClass.browser_connection_failed)
    ∷ []

find_alias : List ℕ → List (String × FailureClass) → Option FailureClass
find_alias text [] = none
find_alias text ((a, c) ∷ rest) = if codes_eq text (codes a) then some c else find_alias text rest

-- The text after `strip`, from the test for the empty one on.
classify_text : List ℕ → Option FailureClass
unfolding find_member find_alias
classify_text [] = none
classify_text (t ∷ ts) = elim (find_member (t ∷ ts) members) [
  | some c ↦ some c
  | none ↦ find_alias (lower (t ∷ ts)) aliases
]

-- Python's `str` of a member is "FailureClass.NAME", and not its value. The texts of numbers,
-- flags, lists and dictionaries are neither names nor aliases, so they give `None`.
unfoldable pub classify_failure_name : FailureName → Option FailureClass
unfolding classify_text upper lower strip
classify_failure_name (of_class c) = classify_text (strip (codes "FailureClass." ++ codes (name c)))
classify_failure_name (of_value (str s)) = classify_text (strip (codes s))
classify_failure_name (of_value _) = none

-- A member of the enumeration itself is never recognised: its text carries the class's name.
pub classify_failure_name-of_class : (c : FailureClass) → classify_failure_name (of_class c) ≡ none
unfolding classify_failure_name
classify_failure_name-of_class FailureClass.transient = refl
classify_failure_name-of_class _ = refl

-- Every member's value, as a text, names that member.
pub classify_failure_name-value :
    (c : FailureClass) → classify_failure_name (of_value (str (value c))) ≡ some c
unfolding classify_failure_name
classify_failure_name-value FailureClass.transient = refl
classify_failure_name-value _ = refl
