-- ===== src/Policy/Gate.antt =====
-- agent_control/policy.py: `Policy.check` and `enforce`.
use freaky_monkey.Base.{
  String, Bool, none, some, List, [], ◌∷◌, not, ◌&&◌, ◌||◌, str_eq, if◌then◌else◌,
}
use freaky_monkey.Base.Dict.{contains, has_key}
use freaky_monkey.Base.Text.{codes, lower, strip}
use freaky_monkey.Json.{Value, get, str}
use freaky_monkey.Types.Action.{Action}
use freaky_monkey.Policy.Paths.{
  Text, Decision, allow, confirm, deny, Denial, Outcome, ok, denied, raised, ◌>>=◌, ◌>>◌, require,
  Host, Policy, contains_text, resolve_read_path, resolve_write_path, needs_param,
  launch_has_target, launch_has_url, needs_app, app_blocked,
}
use freaky_monkey.Policy.Urls.{check_url, check_browser_url}
use freaky_monkey.Policy.Commands.{blocked_app_executables, strip_suffix, check_executable, listed}

abbrev pub high_impact_kinds : List String
high_impact_kinds =
    "delete_path" ∷ "kill_process" ∷ "run_elevated" ∷ "set_env_global" ∷ "whatsapp_send_message"
    ∷ "gmail_send_email" ∷ []

abbrev pub reading_kinds : List String
reading_kinds = "open_file" ∷ "list_directory" ∷ "read_text_file" ∷ "search_files" ∷ []

abbrev pub navigating_kinds : List String
navigating_kinds = "open_url" ∷ "browser_open_url" ∷ "browser_open_new_tab" ∷ []

unfoldable pub is_explicitly_approved : Host → Policy → Action → Bool
is_explicitly_approved h p a = contains p.approved_action_fingerprints (h.digest a.kind a.params)

abbrev pub passed : {A : Type 0} → Outcome A → Outcome (Unit {0})
passed (ok a) = ok tt
passed (denied e) = denied e
passed raised = raised

abbrev pub has_param : Action → String → Bool
has_param a k = has_key k a.params

-- `if k not in params: raise PolicyDenied(...)`, then the check of its value.
abbrev pub with_param : Action → String → (Value → Outcome (Unit {0})) → Outcome (Unit {0})
with_param a k check_value = require (has_param a k) (needs_param k) >> check_value (get k a.params)

-- `if k in params:` the check of its value.
abbrev pub if_param : Action → String → (Value → Outcome (Unit {0})) → Outcome (Unit {0})
if_param a k check_value = if has_param a k then check_value (get k a.params) else ok tt

-- `if action.kind == kind:`
abbrev pub if_kind : Action → String → Outcome (Unit {0}) → Outcome (Unit {0})
if_kind a kind body = if str_eq a.kind kind then body else ok tt

abbrev pub reads : Host → Policy → Value → Outcome (Unit {0})
reads h p v = passed (resolve_read_path h p v)

abbrev pub writes : Host → Policy → Value → Outcome (Unit {0})
writes h p v = passed (resolve_write_path h p v)

-- `for key in ("path", "dest", "dir", "venv")`
unfoldable pub check_write_keys : Host → Policy → Action → List String → Outcome (Unit {0})
check_write_keys h p a [] = ok tt
check_write_keys h p a (k ∷ ks) = if_param a k (writes h p) >> check_write_keys h p a ks

abbrev pub write_keys : List String
write_keys = "path" ∷ "dest" ∷ "dir" ∷ "venv" ∷ []

-- The first chain of branches: what the action reads or writes.
unfoldable pub check_targets : Host → Policy → Action → Outcome (Unit {0})
check_targets h p a =
    if contains reading_kinds a.kind
    then with_param a "path" (reads h p)
    else if str_eq a.kind "open_url"
    then require (has_param a "url") (needs_param "url")
    else if str_eq a.kind "launch_app"
    then require (not (has_param a "open_path" || has_param a "url")) launch_has_target
    else check_write_keys h p a write_keys

unfoldable pub check_apply_job : Host → Policy → Action → Outcome (Unit {0})
check_apply_job h p a =
    if_kind a "browser_apply_job"
      (with_param a "job_url" (check_browser_url h) >> with_param a "resume_path" (reads h p))

unfoldable pub check_network : Host → Policy → Action → Outcome (Unit {0})
check_network h p a = if_param a "url" λ v.
    if contains navigating_kinds a.kind
    then check_browser_url h v
    else if str_eq a.kind "launch_app"
    then denied launch_has_url
    else check_url h p v

unfoldable pub check_argv : Policy → Action → Outcome (Unit {0})
check_argv p a = if_param a "argv" λ v. listed v >>= check_executable p

-- The name that the list of blocked applications is asked for.
unfoldable pub app_name : Text → Text
unfolding strip lower strip_suffix
app_name app =
    let n = lower (strip app) in
    elim (strip_suffix (codes ".exe") n) as (λ _. Text) [ none ↦ n | some s ↦ s ]

unfoldable pub check_app : Value → Outcome (Unit {0})
check_app (str s) =
    if str_eq s ""
    then denied needs_app
    else require (not (contains_text blocked_app_executables (app_name (codes s)))) app_blocked
check_app _ = denied needs_app

-- The body of the `try`.
unfoldable pub check_body : Host → Policy → Action → Outcome (Unit {0})
check_body h p a = do
  check_targets h p a
  check_apply_job h p a
  if_kind a "browser_upload_file" (with_param a "file_path" (reads h p))
  if_kind a "browser_download_file" (with_param a "output_path" (writes h p))
  check_network h p a
  check_argv p a
  if_kind a "launch_app" (check_app (get "app" a.params))

-- The reason beside a decision.
pub data Reason : Type 0 where
  fine : Reason
  high_impact : String → String → Reason
  because : Denial → Reason

-- The decision for a high-impact action that nobody has approved.
unfoldable pub by_mode : String → Decision
by_mode mode =
    if str_eq mode "deny"
    then deny
    else if str_eq mode "ask"
    then confirm
    else if str_eq mode "allow"
    then allow
    else deny

-- `except PolicyDenied`: any other exception leaves `check`.
abbrev pub classified : Outcome (Unit {0}) → Outcome (Decision × Reason)
classified (ok _) = ok (allow, fine)
classified (denied e) = ok (deny, because e)
classified raised = raised

abbrev pub is_high_impact : Action → Bool
is_high_impact a = contains high_impact_kinds a.kind

unfoldable pub check : Host → Policy → Action → Outcome (Decision × Reason)
check h p a =
    if is_high_impact a && not (is_explicitly_approved h p a)
    then ok (by_mode p.confirm_mode, high_impact a.kind p.confirm_mode)
    else classified (check_body h p a)

-- The PolicyDenied of `enforce` carries the decision and the reason.
pub data Enforced : Type 0 where
  proceeds : Enforced
  refused : Decision → Reason → Enforced
  broken : Enforced

abbrev pub enforced : Decision → Reason → Enforced
enforced allow r = proceeds
enforced d r = refused d r

abbrev pub settled : Outcome (Decision × Reason) → Enforced
settled (ok (d, r)) = enforced d r
settled (denied e) = refused deny (because e)
settled raised = broken

unfoldable pub enforce : Host → Policy → Action → Enforced
enforce h p a = settled (check h p a)
