-- ===== src/Workflow/Inferred.antt =====
-- agent_control/workflow/models.py: the dependencies that are inferred.
use freaky_monkey.Base.{
  ℕ, suc, String, Bool, true, Option, none, some, List, [], ◌∷◌, ◌≡◌, refl, arith, All, All-append,
  map, str_eq, eq_refl, ◌&&◌,
}
use freaky_monkey.Base.Dict.{contains}
use freaky_monkey.Types.Action.{Action}
use freaky_monkey.Policy.Paths.{Text}
use freaky_monkey.Orchestration.Bounded.{if_of}
use freaky_monkey.Workflow.Model.{WorkflowStep}
use freaky_monkey.Workflow.Inference.{
  DependencyType, Python, Inferred, nothing_inferred, noted, noted_first, noted_each, noted_session,
  by_state, by_browser, by_meaning, by_order, infer_dependencies, auth_session_dependency,
  state_dependency, data_dependency, explicit_user_order, has_target, target_reason, browser_reason,
  names_source, wants_session, opens_session,
}
use freaky_monkey.Workflow.Planning.{next_step, steps_from, from_actions, action_for}

abbrev pub ids : List WorkflowStep → List String
ids = map (λ s. s.step_id)

-- Every dependency is the identifier of one of the steps.
abbrev pub IsAmong : List WorkflowStep → List String → Type 0
IsAmong recent ds = All (λ d. contains (ids recent) d ≡ true) ds

abbrev Stands : List WorkflowStep → List WorkflowStep → Type 0
Stands recent ss = All (λ s. contains (ids recent) s.step_id ≡ true) ss

later-Stands :
    (s : WorkflowStep) (recent ss : List WorkflowStep) → Stands recent ss → Stands (s ∷ recent) ss
later-Stands s recent [] h = tt
later-Stands s recent (t ∷ ts) (here, rest) = (ground (arith, here), later-Stands s recent ts rest)

Stands-refl : (ss : List WorkflowStep) → Stands ss ss
Stands-refl [] = tt
Stands-refl (s ∷ ss) = (rw (eq_refl s.step_id) refl, later-Stands s ss ss (Stands-refl ss))

module _ (recent : List WorkflowStep) where
  noted-IsAmong :
      (s : WorkflowStep) (reason : String) (kind : DependencyType) (inf : Inferred)
      → contains (ids recent) s.step_id ≡ true
      → IsAmong recent inf.dependencies
      → IsAmong recent (noted s reason kind inf).dependencies
  noted-IsAmong s reason kind inf there h =
      if_of (IsAmong recent) (contains inf.dependencies s.step_id) h (
        All-append (λ d. contains (ids recent) d ≡ true) inf.dependencies (s.step_id ∷ []) h
          (there, tt))

  noted_first-IsAmong :
      (f : WorkflowStep → Option String) (kind : DependencyType) (ss : List WorkflowStep)
      (inf : Inferred)
      → Stands recent ss
      → IsAmong recent inf.dependencies
      → IsAmong recent (noted_first f kind ss inf).dependencies
  noted_first-IsAmong f kind [] inf there h = h
  noted_first-IsAmong f kind (s ∷ older) inf (here, rest) h =
      by_reason (f s) (noted_first-IsAmong f kind older inf rest h)
    where
      by_reason :
          (o : Option String)
          → IsAmong recent (noted_first f kind older inf).dependencies
          → IsAmong recent
              (elim o as (λ _. Inferred) [
                | some reason ↦ noted s reason kind inf
                | none ↦ noted_first f kind older inf
              ]).dependencies
      by_reason none after = after
      by_reason (some reason) after = noted-IsAmong s reason kind inf here h

  noted_each-IsAmong :
      (test : WorkflowStep → Bool) (reason : String) (kind : DependencyType)
      (ss : List WorkflowStep) (inf : Inferred)
      → Stands recent ss
      → IsAmong recent inf.dependencies
      → IsAmong recent (noted_each test reason kind ss inf).dependencies
  noted_each-IsAmong test reason kind [] inf there h = h
  noted_each-IsAmong test reason kind (s ∷ older) inf (here, rest) h =
      let after = noted_each-IsAmong test reason kind older inf rest h in
      if_of (λ (i : Inferred). IsAmong recent i.dependencies) (test s)
        {x = noted s reason kind (noted_each test reason kind older inf)}
        {y = noted_each test reason kind older inf}
        (noted-IsAmong s reason kind (noted_each test reason kind older inf) here after) after

-- Each step depends on steps before it alone.
abbrev pub IsOrdered : List WorkflowStep → List WorkflowStep → Type 0
IsOrdered recent [] = Unit
IsOrdered recent (s ∷ ss) = IsAmong recent s.dependencies × IsOrdered (s ∷ recent) ss

module _ (py : Python) where
  by_state-IsAmong :
      (text : Text) (a : Action) (recent : List WorkflowStep)
      → IsAmong recent (by_state py text a recent nothing_inferred).dependencies
  by_state-IsAmong text a recent =
      if_of (λ (i : Inferred). IsAmong recent i.dependencies) (has_target py a)
        {x = noted_first (target_reason py text a) state_dependency recent nothing_inferred}
        {y = nothing_inferred}
        (noted_first-IsAmong recent (target_reason py text a) state_dependency recent
          nothing_inferred (Stands-refl recent) tt)
        tt

  by_browser-IsAmong :
      (a : Action) (recent : List WorkflowStep) (inf : Inferred)
      → IsAmong recent inf.dependencies
      → IsAmong recent (by_browser py a recent inf).dependencies
  by_browser-IsAmong a recent inf h =
      if_of (λ (i : Inferred). IsAmong recent i.dependencies) (str_eq a.kind "browser_play_song")
        {x = noted_first (browser_reason py) state_dependency recent inf} {y = inf}
        (noted_first-IsAmong recent (browser_reason py) state_dependency recent inf
          (Stands-refl recent) h)
        h

  noted_session-IsAmong :
      (wants : Bool) (recent : List WorkflowStep) (inf : Inferred)
      → IsAmong recent inf.dependencies
      → IsAmong recent (noted_session py wants recent inf).dependencies
  noted_session-IsAmong wants [] inf h = h
  noted_session-IsAmong wants (s ∷ older) inf h =
      if_of (λ (i : Inferred). IsAmong (s ∷ older) i.dependencies) (wants && opens_session py s)
        {x = noted s "authenticated_session_required" auth_session_dependency inf} {y = inf}
        (noted-IsAmong (s ∷ older) s "authenticated_session_required" auth_session_dependency inf
          (Stands-refl (s ∷ older)).0 h)
        h

  by_meaning-IsAmong :
      (text : Text) (a : Action) (recent : List WorkflowStep)
      → IsAmong recent (by_meaning py text a recent).dependencies
  by_meaning-IsAmong text a recent = noted_session-IsAmong (wants_session py a) recent _ (
      noted_each-IsAmong recent (names_source py a) "verified_output_required" data_dependency
        recent _ (Stands-refl recent)
        (by_browser-IsAmong a recent _ (by_state-IsAmong text a recent)))

  by_order-IsAmong :
      (ordered : Bool) (text : Text) (a : Action) (recent : List WorkflowStep)
      → IsAmong recent (by_order py ordered text a recent).dependencies
  by_order-IsAmong ordered text a [] = by_meaning-IsAmong text a []
  by_order-IsAmong ordered text a (s ∷ older) =
      if_of (λ (i : Inferred). IsAmong (s ∷ older) i.dependencies) ordered
        {x = noted s "explicit_user_order" explicit_user_order nothing_inferred}
        {y = by_meaning py text a (s ∷ older)} ((Stands-refl (s ∷ older)).0, tt)
        (by_meaning-IsAmong text a (s ∷ older))

  infer_dependencies-IsAmong :
      (goal : String) (a : Action) (recent : List WorkflowStep) (explicit_order : Bool)
      → IsAmong recent (infer_dependencies py goal a recent explicit_order).dependencies
  unfolding infer_dependencies
  infer_dependencies-IsAmong goal a recent explicit_order = by_order-IsAmong _ _ a recent

  steps_from-IsOrdered :
      (workflow_id goal : String) (explicit_order : Bool) (i : ℕ) (recent : List WorkflowStep)
      (actions : List Action)
      → IsOrdered recent (steps_from py workflow_id goal explicit_order i recent actions)
  unfolding steps_from
  steps_from-IsOrdered workflow_id goal explicit_order i recent [] = tt
  steps_from-IsOrdered workflow_id goal explicit_order i recent (a ∷ later) = (
    infer_dependencies-IsAmong goal (action_for py a recent) recent explicit_order,
    steps_from-IsOrdered workflow_id goal explicit_order (suc i)
        (next_step py workflow_id goal explicit_order i a recent ∷ recent) later,
  )

  -- In a workflow that `from_actions` builds, whatever the goal and the actions, every dependency of a
  -- step is the identifier of a step before it.
  pub from_actions-IsOrdered :
      (workflow_id goal : String) (actions : List Action) (explicit_order : Bool)
      → IsOrdered [] (from_actions py workflow_id goal actions explicit_order)
  unfolding from_actions
  from_actions-IsOrdered workflow_id goal actions explicit_order =
      steps_from-IsOrdered workflow_id goal explicit_order 0 [] actions
