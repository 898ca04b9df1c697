-- ===== src/Examples/Planning.antt =====
-- A run of `Workflow.from_actions`.
use freaky_monkey.Base.{zero, suc, String, false, List, [], ◌∷◌, ◌≡◌, refl}
use freaky_monkey.Base.Dict.{insert, lookup}
use freaky_monkey.Base.Text.{codes, lower, strip}
use freaky_monkey.Json.{str}
use freaky_monkey.Types.Action.{Action}
use freaky_monkey.Workflow.Model.{WorkflowStep}
use freaky_monkey.Workflow.Inference.{
  Python, infer_dependencies, semantic_target_parent, is_browser_application,
  resource_key_for_action,
}
use freaky_monkey.Workflow.Planning.{from_actions, steps_from}
use freaky_monkey.Examples.Policing.{acting}

abbrev pub small : Python
small = record {
  text_of = λ v. elim v [ str s ↦ codes s | _ ↦ [] ];
  text_of_params = λ ps. [];
  says_order = λ t. false;
  decimal = λ n. elim n [ zero ↦ "0" | suc k ↦ elim k [ zero ↦ "1" | suc j ↦ "2" ] ];
  text_from = λ t. "chrome";
}

abbrev pub song : List Action
song =
    acting "launch_app" (("app", str "Chrome") ∷ [])
    ∷ acting "browser_play_song" (("song", str "Clocks") ∷ [])
    ∷ []

abbrev dependencies_of : List WorkflowStep → List (List String)
dependencies_of [] = []
dependencies_of (s ∷ ss) = s.dependencies ∷ dependencies_of ss

-- The song waits for the browser.
song_waits :
    dependencies_of (from_actions small "w" "play Clocks" song false) ≡ [] ∷ ("w:step-1" ∷ []) ∷ []
unfolding from_actions steps_from infer_dependencies semantic_target_parent is_browser_application
    resource_key_for_action insert lookup lower strip
song_waits = refl
