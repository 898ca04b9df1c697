-- ===== src/Examples/Executing.antt =====
-- Runs of agent_control/procedure_execution.py.
use freaky_monkey.Base.{true, none, some, [], ◌∷◌, ◌≡◌, ◌⊎◌, refl, All, arith}
use freaky_monkey.Base.Dict.{lookup}
use freaky_monkey.Base.Text.{upper, strip}
use freaky_monkey.Json.{str}
use freaky_monkey.Types.Action.{Action}
use freaky_monkey.Policy.Paths.{ok, allow}
use freaky_monkey.Policy.Gate.{
  check, check_body, check_targets, check_apply_job, check_network, check_argv, check_write_keys,
  is_explicitly_approved, check_app, fine,
}
use freaky_monkey.Procedures.Model.{active}
use freaky_monkey.Procedures.Binding.{
  ProcedureMatch, bound, applicable, built, build_actions, resolve_arguments, resolve_value,
  bound_value, whole_placeholder, action_of, policy_denied,
}
use freaky_monkey.Procedures.Execution.{
  Skill, Skills, skill, returned, report, executed, admission, admitted, turned_away, run_built,
  run_actions, execute_procedure, failure, normalize_verification, guard,
}
use freaky_monkey.Procedures.Executed.{
  IsAllowed, execute_procedure-IsAllowed, execute_procedure-executed, run_built-forgets,
}
use freaky_monkey.Examples.Policing.{plain, sandbox, acting}
use freaky_monkey.Examples.Learning.{play, song, playing_step}

abbrev matched : ProcedureMatch
matched = record {
  procedure = play active 0;
  binding = record {
    status = bound;
    bindings = record { parameter = song; value = str "Clocks"; status = bound } ∷ [];
  };
  validation = record { status = applicable; reasons = [] };
  execution_allowed = true;
}

-- A skill that succeeds, with a verifier that says so.
abbrev player : Skill
player = record {
  execute = λ n a. returned true none none;
  observe = λ n. none;
  verify = λ n a. report "pass" true "";
}

abbrev players : Skills
players = some (λ kind. skill player)

abbrev playing : Action
playing = action_of (play active 0) playing_step (("query", str "Clocks") ∷ [])

plays : check plain sandbox playing ≡ ok (allow, fine)
unfolding check check_body check_targets check_apply_job check_network check_argv check_write_keys
    lookup
plays = refl

builds : build_actions matched ≡ built (playing ∷ [])
unfolding build_actions resolve_arguments resolve_value bound_value whole_placeholder strip
builds = refl

runs : (execute_procedure plain sandbox (some players) matched 8).1 ≡ playing ∷ []
unfolding execute_procedure run_built run_actions admission check check_body check_targets
    check_apply_job check_network check_argv check_write_keys lookup build_actions resolve_arguments
    resolve_value bound_value whole_placeholder strip normalize_verification upper
runs = refl

says_executed :
    (execute_procedure plain sandbox (some players) matched 8).0.execution_status ≡ executed
unfolding execute_procedure run_built run_actions admission check check_body check_targets
    check_apply_job check_network check_argv check_write_keys lookup build_actions resolve_arguments
    resolve_value bound_value whole_placeholder strip normalize_verification upper
says_executed = refl

execute_procedure-IsAllowed_example :
    All (IsAllowed plain sandbox) (execute_procedure plain sandbox (some players) matched 8).1
    × (((execute_procedure plain sandbox (some players) matched 8).1 ≡ [])
        ⊎ (guard matched true ≡ none))
execute_procedure-IsAllowed_example =
    execute_procedure-IsAllowed plain sandbox (some players) matched 8

execute_procedure-executed_example :
    build_actions matched ≡ built (execute_procedure plain sandbox (some players) matched 8).1
execute_procedure-executed_example =
    execute_procedure-executed plain sandbox players matched 8 says_executed

abbrev launching : Action
launching = acting "launch_app" []

admits : admission plain sandbox players playing ≡ admitted player
unfolding admission check check_body check_targets check_apply_job check_network check_argv
    check_write_keys lookup
admits = refl

refuses : admission plain sandbox players launching ≡ turned_away policy_denied
unfolding admission check check_body check_targets check_apply_job check_network check_argv
    check_app is_explicitly_approved lookup
refuses = refl

run_built-forgets_example :
    run_built plain sandbox players matched 8 (built (playing ∷ launching ∷ []))
    ≡ (failure matched policy_denied, playing ∷ [])
run_built-forgets_example =
    run_built-forgets plain sandbox players matched playing launching [] 8 player none none
      policy_denied (omega arith) admits refl refuses
