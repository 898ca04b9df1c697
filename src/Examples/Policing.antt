-- ===== src/Examples/Policing.antt =====
-- Runs of agent_control/policy.py.
use freaky_monkey.Base.{String, true, false, none, some, List, [], ◌∷◌, ◌≡◌, ◌↔◌, refl}
use freaky_monkey.Base.Text.{codes, lower, strip}
use freaky_monkey.Base.Dict.{lookup}
use freaky_monkey.Json.{Value, str, arr, cons, nil}
use freaky_monkey.Types.Action.{Action, auto}
use freaky_monkey.Policy.Paths.{
  Host, Policy, ok, denied, allow, sensitive, write_outside, resolve_write_path, resolve_read_path,
  refuse_sensitive, candidate, is_relative_to, contains_text, host_not_allowed,
}
use freaky_monkey.Policy.Urls.{hostname, urlparse, check_url}
use freaky_monkey.Policy.Commands.{executable_name, check_executable, listed}
use freaky_monkey.Policy.Gate.{
  check, check_body, check_targets, check_apply_job, check_network, check_argv, check_write_keys,
  is_explicitly_approved, fine, enforce, proceeds,
}
use freaky_monkey.Policy.Permits.{Permitted}
use freaky_monkey.Policy.Allowed.{check-Permitted, enforce-proceeds_iff}
use freaky_monkey.Policy.Hosts.{check_url-ignores_user}

-- A file system without links.
abbrev pub plain : Host
plain = record {
  real = λ p. some p.parts;
  is_file = λ q. true;
  bracketed = λ t. true;
  digest = λ k ps. k;
  elevated = false;
}

abbrev pub sandbox : Policy
sandbox = record {
  workspace = codes "work" ∷ [];
  allowed_executables = codes "git" ∷ codes "python" ∷ [];
  allowed_hosts = codes "github.com" ∷ [];
  confirm_mode = "allow";
  readable_roots = [];
  max_download_bytes = 2097152;
  refuse_if_elevated = true;
  approved_action_fingerprints = [];
}

abbrev pub acting : String → List (String × Value) → Action
acting kind params = record {
  kind = kind;
  params = params;
  consequential = true;
  rationale = "";
  retry_safety = auto;
  idempotent = none;
  side_effect_level = "";
  requires_fresh_observation = false;
  verification_required = true;
  recovery_strategy = none;
}

abbrev committing : Action
committing = acting "run_command" (
    ("dir", str "repo")
    ∷ ("argv", arr (cons (str "/usr/bin/Git.exe") (cons (str "commit") nil)))
    ∷ [])

commits : check plain sandbox committing ≡ ok (allow, fine)
unfolding check check_body check_targets check_apply_job check_network check_argv check_write_keys
    check_executable listed executable_name resolve_write_path candidate refuse_sensitive
    is_relative_to is_explicitly_approved lookup
commits = refl

check-Permitted_example : Permitted plain sandbox committing
check-Permitted_example = check-Permitted plain sandbox committing fine refl commits

abbrev deleting : Action
deleting = acting "delete_path" (("path", str "/etc") ∷ [])

enforce-proceeds_iff_example :
    (enforce plain sandbox deleting ≡ proceeds) ↔ (◌≡◌ {A = String} "allow" "allow")
unfolding is_explicitly_approved
enforce-proceeds_iff_example = enforce-proceeds_iff plain sandbox deleting

notes :
    resolve_write_path plain sandbox (str "a/./notes.txt")
    ≡ ok (codes "work" ∷ codes "a" ∷ codes "notes.txt" ∷ [])
unfolding resolve_write_path candidate refuse_sensitive is_relative_to
notes = refl

outside : resolve_write_path plain sandbox (str "/etc/hosts") ≡ denied write_outside
unfolding resolve_write_path candidate refuse_sensitive is_relative_to
outside = refl

keys : resolve_read_path plain sandbox (str ".SSH/id") ≡ denied (sensitive (codes ".ssh"))
unfolding resolve_read_path candidate refuse_sensitive is_relative_to
keys = refl

disguised :
    urlparse plain (codes " HTTPS://github.com@Evil.com:443/x")
    ≡ some (record { scheme = codes "https"; netloc = codes "github.com@Evil.com:443" })
unfolding urlparse
disguised = refl

-- The address that a browser would open at evil.com.
abbrev mail : Policy
mail = record sandbox { allowed_hosts = codes "github.com" ∷ codes "evil.com" ∷ [] }

mail_parsed :
    urlparse plain (codes "https://github.com@evil.com/x")
    ≡ some (record { scheme = codes "https"; netloc = codes "github.com@evil.com" })
unfolding urlparse
mail_parsed = refl

mail_allowed : check_url plain mail (str "https://github.com@evil.com/x") ≡ ok tt
unfolding check_url urlparse hostname strip
mail_allowed = refl

evil_refused :
    check_url plain sandbox (str "https://github.com@evil.com/x")
    ≡ denied (host_not_allowed (codes "evil.com"))
unfolding check_url urlparse hostname strip
evil_refused = refl

check_url-ignores_user_example :
    contains_text mail.allowed_hosts (lower (lower (codes "evil.com"))) ≡ true
unfolding strip
check_url-ignores_user_example =
    check_url-ignores_user plain mail (str "https://github.com@evil.com/x")
      (codes "https://github.com@evil.com/x")
      (record { scheme = codes "https"; netloc = codes "github.com@evil.com" }) (codes "github.com")
      (codes "evil.com") refl mail_parsed refl (refl, refl, refl, refl) mail_allowed

fetched : check_url plain sandbox (str "https://GitHub.com:443/x") ≡ ok tt
unfolding check_url urlparse hostname strip
fetched = refl
