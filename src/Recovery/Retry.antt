-- ===== src/Recovery/Retry.antt =====
-- agent_control/recovery.py: `_NON_IDEMPOTENT_KINDS`, `retry_safety` and `action_can_retry`.
use freaky_monkey.Base.{
  String, Bool, true, false, Option, some, List, [], ◌∷◌, ◌≡◌, ◌⊎◌, not, ◌||◌, arith, if◌then◌else◌,
}
use freaky_monkey.Base.Dict.{contains}
use freaky_monkey.Base.Text.{codes, codes_eq, lower}
use freaky_monkey.Types.Action.{RetrySafety, Action, safe_to_retry, reobserve_first, ask_user, auto}

abbrev pub non_idempotent_kinds : List String
non_idempotent_kinds =
    "gmail_send_email" ∷ "whatsapp_send_message" ∷ "delete_file" ∷ "form_submit" ∷ "payment"
    ∷ "type_text" ∷ []

abbrev pub is_auto : RetrySafety → Bool
is_auto auto = true
is_auto _ = false

-- `x is True` and `x is False`, of an optional flag.
abbrev pub is_true : Option Bool → Bool
is_true (some true) = true
is_true _ = false

abbrev pub is_false : Option Bool → Bool
is_false (some false) = true
is_false _ = false

-- `level.lower() in {"high", "critical"}`
unfoldable pub high_level : String → Bool
high_level level =
    let l = lower (codes level) in codes_eq l (codes "high") || codes_eq l (codes "critical")

unfoldable pub retry_safety : Action → RetrySafety
retry_safety a =
    if not (is_auto a.retry_safety)
    then a.retry_safety
    else if contains non_idempotent_kinds a.kind || is_false a.idempotent
    then reobserve_first
    else if is_true a.idempotent || not a.consequential
    then safe_to_retry
    else if high_level a.side_effect_level
    then ask_user
    else safe_to_retry

abbrev pub is_safe : RetrySafety → Bool
is_safe safe_to_retry = true
is_safe _ = false

abbrev pub is_safe_or_reobserve : RetrySafety → Bool
is_safe_or_reobserve safe_to_retry = true
is_safe_or_reobserve reobserve_first = true
is_safe_or_reobserve _ = false

unfoldable pub action_can_retry : Action → Bool → Bool
action_can_retry a post_action_unknown =
    if post_action_unknown then is_safe (retry_safety a) else is_safe_or_reobserve (retry_safety a)

-- After an uncertain execution an action may be repeated only if its own metadata says that this is
-- safe, or if it leaves the choice to the default, is of no kind known to be non-idempotent, is not
-- marked as non-idempotent, and is marked idempotent, not consequential or not of a high level.
pub action_can_retry_unknown :
    (a : Action)
    → action_can_retry a true ≡ true
    → (a.retry_safety ≡ safe_to_retry)
      ⊎ ((a.retry_safety ≡ auto)
          × (contains non_idempotent_kinds a.kind ≡ false)
          × (is_false a.idempotent ≡ false)
          × ((is_true a.idempotent || not a.consequential || not (high_level a.side_effect_level))
              ≡ true))
unfolding action_can_retry retry_safety
action_can_retry_unknown a h = ground arith
