-- ===== src/Workflow/Inference.antt =====
-- agent_control/workflow/models.py: `infer_dependencies` and `resource_key_for_action`. The steps so far are kept with the newest first. Python's `str` of a value or
-- a dictionary and the search for the words of an order are parameters.
use freaky_monkey.Base.{
  ℕ, String, Bool, true, false, Option, none, some, List, [], ◌∷◌, ◌++◌, not, ◌&&◌, ◌||◌, any,
  str_eq, if◌then◌else◌,
}
use freaky_monkey.Base.Dict.{contains, insert, lookup}
use freaky_monkey.Base.Text.{codes, codes_eq, lower, strip, is_prefix, is_infix, is_space}
use freaky_monkey.Json.{Value, Fields, Params, str, obj, end, field, get, or_value}
use freaky_monkey.Types.Action.{Action}
use freaky_monkey.Policy.Paths.{Text, contains_text}
use freaky_monkey.Workflow.Model.{WorkflowStep}

pub data DependencyType : Type 0 where
  state_dependency data_dependency auth_session_dependency resource_dependency explicit_user_order :
      DependencyType

pub record Python : Type 0 where
  pub text_of : Value → Text
  pub text_of_params : Params → Text
  -- `\bthen\b|\bafter that\b|\bonce\b`
  pub says_order : Text → Bool
  -- `str` of a number, and the text of its code points.
  pub decimal : ℕ → String
  pub text_from : Text → String

pub record Inferred : Type 0 where
  pub dependencies : List String
  pub reasons : List (String × String)
  pub types : List (String × DependencyType)

abbrev pub nothing_inferred : Inferred
nothing_inferred = record { dependencies = []; reasons = []; types = [] }

-- A dependency is added once; the last reason for it stays.
abbrev pub noted : WorkflowStep → String → DependencyType → Inferred → Inferred
noted s reason kind inf = record {
  dependencies =
      if contains inf.dependencies s.step_id
      then inf.dependencies
      else inf.dependencies ++ s.step_id ∷ [];
  reasons = insert s.step_id reason inf.reasons;
  types = insert s.step_id kind inf.types;
}

-- The first step, the newest first, that has a reason.
abbrev pub noted_first :
    (WorkflowStep → Option String) → DependencyType → List WorkflowStep → Inferred → Inferred
noted_first f kind [] inf = inf
noted_first f kind (s ∷ older) inf = elim (f s) [
  | some reason ↦ noted s reason kind inf
  | none ↦ noted_first f kind older inf
]

-- Every step that passes a test, the oldest first.
abbrev pub noted_each :
    (WorkflowStep → Bool) → String → DependencyType → List WorkflowStep → Inferred → Inferred
noted_each test reason kind [] inf = inf
noted_each test reason kind (s ∷ older) inf =
    let before = noted_each test reason kind older inf in
    if test s then noted s reason kind before else before

-- `" ".join(text.split())`
abbrev squeezed : (started gap : Bool) → Text → Text
squeezed started gap [] = []
squeezed started gap (c ∷ cs) =
    let rest = squeezed (started || not (is_space c)) (is_space c) cs in
    if is_space c then rest else if started && gap then 32 ∷ c ∷ rest else c ∷ rest

abbrev starts_with : String → String → Bool
starts_with kind prefix = is_prefix (codes prefix) (codes kind)

abbrev field_value : String → Fields → Option Value
field_value k end = none
field_value k (field j v fs) = if str_eq j k then some v else field_value k fs

abbrev pub is_nil_text : Text → Bool
is_nil_text [] = true
is_nil_text (c ∷ cs) = false

-- The first of the keys that has a text which is not blank, in lower case.
abbrev first_text : (String → Option Value) → List String → Option Text
first_text find [] = none
first_text find (k ∷ ks) =
    let rest = first_text find ks in
    elim (find k) [
      | some (str t) ↦
          if is_nil_text (strip (codes t)) then rest else some (lower (strip (codes t)))
      | _ ↦ rest
    ]

unfoldable pub semantic_target_parent : Action → Option Text
unfolding strip lower lookup
semantic_target_parent a =
    elim (first_text (λ k. lookup k a.params)
      ("parent_resource" ∷ "parent_application" ∷ "application" ∷ "parent_app" ∷ [])) [
        | some t ↦ some t
        | none ↦ elim (lookup "target_semantic" a.params) [
          | some (obj fs) ↦
              first_text (λ k. field_value k fs)
                ("parent_resource" ∷ "application" ∷ "parent_app" ∷ [])
          | _ ↦ none
        ]
      ]

unfoldable pub is_browser_application : Text → Bool
unfolding lower strip
is_browser_application app =
    contains_text
      (codes "chrome" ∷ codes "google chrome" ∷ codes "edge" ∷ codes "microsoft edge" ∷ [])
      (strip (lower app))

module _ (py : Python) where
  -- `str(params.get("app", ""))`
  abbrev pub app_text : Action → Text
  app_text a = elim (lookup "app" a.params) [ none ↦ [] | some v ↦ py.text_of v ]

  unfoldable pub resource_key_for_action : Action → Option Text
  unfolding lower strip lookup
  resource_key_for_action a =
      let app = lower (strip (app_text a)) in
      if contains ("launch_app" ∷ "type_text" ∷ []) a.kind && not (is_nil_text app)
      then some app
      else if starts_with a.kind "whatsapp_"
      then some (codes "whatsapp")
      else if starts_with a.kind "gmail_"
      then some (codes "gmail")
      else if str_eq a.kind "browser_play_song"
      then some (codes "youtube")
      else if starts_with a.kind "browser_" || str_eq a.kind "open_url"
      then some (codes "browser")
      else none

  -- The application that the action asks for: its own, or the declared parent of its target.
  abbrev requested_app : Action → Text
  requested_app a =
      let own = strip (lower (app_text a)) in
      if is_nil_text own
      then elim (semantic_target_parent a) [ none ↦ own | some parent ↦ parent ]
      else own

  -- Why an action waits for a step that launches an application.
  abbrev pub target_reason : Text → Action → WorkflowStep → Option String
  target_reason text a s =
      let app = strip (lower (app_text s.action)) in
      let requested = requested_app a in
      if not (str_eq s.action.kind "launch_app")
      then none
      else if not (is_nil_text requested) && codes_eq app requested
      then some "requires_target_application"
      else if starts_with a.kind "browser_" && is_browser_application app
      then some "requires_browser_application"
      else if is_nil_text requested
          && not (starts_with a.kind "browser_")
          && not (is_nil_text app)
          && (is_infix app text || is_infix app (lower (py.text_of_params a.params)))
      then some "requires_foreground_application"
      else none

  abbrev pub browser_reason : WorkflowStep → Option String
  browser_reason s =
      if str_eq s.action.kind "launch_app" && is_browser_application (app_text s.action)
      then some "requires_browser_readiness"
      else none

  abbrev pub has_target : Action → Bool
  has_target a = starts_with a.kind "browser_" || contains ("type_text" ∷ "open_file" ∷ []) a.kind

  abbrev pub names_source : Action → WorkflowStep → Bool
  names_source a s = elim (or_value (get "depends_on" a.params) (get "input_from" a.params)) [
    | str source ↦ str_eq source s.step_id
    | _ ↦ false
  ]

  abbrev pub wants_session : Action → Bool
  wants_session a =
      any (λ token. is_infix (codes token) (lower (codes a.kind)))
        ("authenticated" ∷ "account" ∷ "send" ∷ "delete" ∷ "apply" ∷ [])

  abbrev pub opens_session : WorkflowStep → Bool
  opens_session s =
      is_infix (codes "login") (lower (codes s.action.kind))
      || is_infix (codes "authenticate") (lower (codes s.action.kind))

  -- `previous = prior_steps[-1]`
  abbrev pub noted_session : Bool → List WorkflowStep → Inferred → Inferred
  noted_session wants [] inf = inf
  noted_session wants (s ∷ older) inf =
      if wants && opens_session s
      then noted s "authenticated_session_required" auth_session_dependency inf
      else inf

  abbrev pub by_state : Text → Action → List WorkflowStep → Inferred → Inferred
  by_state text a recent inf =
      if has_target a then noted_first (target_reason text a) state_dependency recent inf else inf

  abbrev pub by_browser : Action → List WorkflowStep → Inferred → Inferred
  by_browser a recent inf =
      if str_eq a.kind "browser_play_song"
      then noted_first browser_reason state_dependency recent inf
      else inf

  abbrev pub by_meaning : Text → Action → List WorkflowStep → Inferred
  by_meaning text a recent = noted_session (wants_session a) recent (
      noted_each (names_source a) "verified_output_required" data_dependency recent
        (by_browser a recent (by_state text a recent nothing_inferred)))

  abbrev pub by_order : Bool → Text → Action → List WorkflowStep → Inferred
  by_order ordered text a [] = by_meaning text a []
  by_order ordered text a (s ∷ older) =
      if ordered
      then noted s "explicit_user_order" explicit_user_order nothing_inferred
      else by_meaning text a (s ∷ older)

  unfoldable pub infer_dependencies :
      String → Action → List WorkflowStep → (explicit_order : Bool) → Inferred
  unfolding lower strip lookup insert semantic_target_parent is_browser_application
  infer_dependencies goal a recent explicit_order =
      let text = squeezed false false (lower (codes goal)) in
      by_order (explicit_order || py.says_order text) text a recent
