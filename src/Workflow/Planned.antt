-- ===== src/Workflow/Planned.antt =====
-- agent_control/workflow/models.py and agent_control/workflow/scheduler.py together: what `validate` says
-- of the workflows that `from_actions` builds.
use text.Mathlib.TextLemmas.{append_cancel_left, append-eq-nil_iff}
use Prim.Native.String.{◌++◌ as str_append}
use freaky_monkey.Base.{
  ℕ, suc, ◌≤◌, ◌<◌, String, Bool, true, false, some, List, [], ◌∷◌, ◌≡◌, ◌≢◌, refl, ap, sym, ◌∙◌,
  subst, arith, All, str_eq, eq_iff, inl, inr, Bool-cases,
}
use freaky_monkey.Base.Dict.{contains}
use freaky_monkey.Types.Action.{Action}
use freaky_monkey.Workflow.Status.{StepStatus}
use freaky_monkey.Workflow.Model.{WorkflowStep, Workflow, find_step}
use freaky_monkey.Workflow.Ready.{ok}
use freaky_monkey.Workflow.Graph.{ids_of, is_allowed_kind, is_impossible, validate}
use freaky_monkey.Workflow.Checked.{IsSchedulable, IsPossible}
use freaky_monkey.Workflow.Ranking.{Ranks, EveryDepKnown, position, All-map}
use freaky_monkey.Workflow.Accepted.{validate-iff-IsValid}
use freaky_monkey.Workflow.Inference.{Python}
use freaky_monkey.Workflow.Planning.{filled, action_for, next_step, steps_from, from_actions}
use freaky_monkey.Workflow.Inferred.{IsOrdered, from_actions-IsOrdered}
use freaky_monkey.Workflow.Placed.{Fresh, onto, Fresh-IsDistinct, ordered-Ranks}

-- What a step of `from_actions` is like.
pub record IsNew (s : WorkflowStep) : Type 0 where
  pub named : s.step_id ≢ ""
  pub kind : is_allowed_kind s.action.kind ≡ true
  pub status : s.status ≡ StepStatus.pending
  pub policy : s.policy_state ≡ ""
  pub inputs : s.requires_data ≡ []

module _ (py : Python) where
  id_of : String → ℕ → String
  id_of workflow_id i = str_append workflow_id (str_append ":step-" (py.decimal (suc i)))

  id_of-ne : (workflow_id : String) (i : ℕ) → id_of workflow_id i ≢ ""
  unfolding id_of
  id_of-ne workflow_id i e = not_nil ((append-eq-nil_iff.0 ((append-eq-nil_iff.0 e).1)).0)
    where
      not_nil : ◌≡◌ {A = String} ":step-" "" → ⊥
      not_nil e = cc

  filled-kind : (a : Action) (recent : List WorkflowStep) → (filled py a recent).kind ≡ a.kind
  filled-kind a [] = refl
  filled-kind a (s ∷ older) = ground (arith, filled-kind a older)

  action_for-kind :
      (a : Action) (recent : List WorkflowStep) → (action_for py a recent).kind ≡ a.kind
  action_for-kind a recent = ground (arith, filled-kind a recent)

  module _ (workflow_id goal : String) (explicit_order : Bool) where
    steps_from-IsNew :
        (i : ℕ) (recent : List WorkflowStep) (actions : List Action)
        → All (λ a. is_allowed_kind a.kind ≡ true) actions
        → All IsNew (steps_from py workflow_id goal explicit_order i recent actions)
    unfolding steps_from id_of
    steps_from-IsNew i recent [] h = tt
    steps_from-IsNew i recent (a ∷ later) (here, h) = (
      record {
        named = id_of-ne workflow_id i;
        kind = ap is_allowed_kind (action_for-kind a recent) ∙ here;
        status = refl;
        policy = refl;
        inputs = refl;
      },
      steps_from-IsNew (suc i) (next_step py workflow_id goal explicit_order i a recent ∷ recent)
          later h,
    )

    module _ (injective : (i j : ℕ) → py.decimal i ≡ py.decimal j → i ≡ j) where
      id_of-injective : (i j : ℕ) → id_of workflow_id i ≡ id_of workflow_id j → i ≡ j
      unfolding id_of
      id_of-injective i j e =
          let same =
            injective (suc i) (suc j) (append_cancel_left _ _ _ (append_cancel_left _ _ _ e)) in
          omega arith

      steps_from-Fresh :
          (i : ℕ) (recent : List WorkflowStep) (actions : List Action)
          → ((k : ℕ) → i ≤ k → contains (ids_of recent) (id_of workflow_id k) ≡ false)
          → Fresh
              (ids_of recent)
              (ids_of (steps_from py workflow_id goal explicit_order i recent actions))
      unfolding steps_from id_of Fresh
      steps_from-Fresh i recent [] h = tt
      steps_from-Fresh i recent (a ∷ later) h = (
        h i (omega arith),
        steps_from-Fresh (suc i) (next_step py workflow_id goal explicit_order i a recent ∷ recent)
            later
            (λ k above. elim (Bool-cases (str_eq (id_of workflow_id i) (id_of workflow_id k))) [
              | inl same ↦ absurd (
                  distinct_ids k above
                    ((eq_iff (id_of workflow_id i) (id_of workflow_id k)).0 same))
              | inr apart ↦ ground (arith, apart, h k (omega arith))
            ]),
      )
        where
          distinct_ids : (k : ℕ) → suc i ≤ k → id_of workflow_id i ≡ id_of workflow_id k → ⊥
          distinct_ids k above e = let same = id_of-injective i k e in omega arith

find_new :
    (d : String) (steps : List WorkflowStep)
    → contains (ids_of steps) d ≡ true
    → All IsNew steps
    → (p : WorkflowStep) × (find_step d steps ≡ some p) × (is_impossible p.status ≡ false)
unfolding find_step
find_new d [] there h = cc
find_new d (s ∷ steps) there (new, h) = elim (Bool-cases (str_eq s.step_id d)) [
  | inl same ↦ (s, ground (arith, same), ap is_impossible new.status)
  | inr apart ↦
      let (p, e, possible) = find_new d steps (ground (arith, apart, there)) h in
      (p, ground (arith, apart, e), possible)
]

new-IsPossible :
    (steps : List WorkflowStep) (rank : String → ℕ) (s : WorkflowStep) (ds : List String)
    → All IsNew steps
    → All (λ d. contains (ids_of steps) d ≡ true) ds
    → All (λ d. rank d < rank s.step_id) ds
    → All (IsPossible steps s) ds
new-IsPossible steps rank s [] h known ranks = tt
new-IsPossible steps rank s (d ∷ ds) h (here, known) (lt, ranks) = (
  (λ e. absurd (less (ap rank e)), find_new d steps here h),
  new-IsPossible steps rank s ds h known ranks,
)
  where
    less : rank d ≡ rank s.step_id → ⊥
    less e = omega arith

new-IsSchedulable :
    (steps ss : List WorkflowStep) (rank : String → ℕ)
    → All IsNew steps
    → All IsNew ss
    → EveryDepKnown steps ss
    → Ranks rank ss
    → All (IsSchedulable steps) ss
new-IsSchedulable steps [] rank h new known ranks = tt
new-IsSchedulable steps (s ∷ ss) rank h (here, new) (deps, known) (lt, ranks) = (
  record {
    named = here.named;
    kind = here.kind;
    dependencies = new-IsPossible steps rank s s.dependencies h deps lt;
  },
  new-IsSchedulable steps ss rank h new known ranks,
)

ordered-known :
    (steps recent ss : List WorkflowStep)
    → IsOrdered recent ss
    → ((d : String) → contains (ids_of recent) d ≡ true → contains (ids_of steps) d ≡ true)
    → ((d : String) → contains (ids_of ss) d ≡ true → contains (ids_of steps) d ≡ true)
    → EveryDepKnown steps ss
ordered-known steps recent [] h before after = tt
ordered-known steps recent (s ∷ ss) (deps, h) before after = (
  All-map s.dependencies before deps,
  ordered-known steps (s ∷ recent) ss h
      (λ d there. elim (Bool-cases (str_eq s.step_id d)) [
        | inl same ↦ after d (ground (arith, same))
        | inr apart ↦ before d (ground (arith, apart, there))
      ])
      (λ d there. after d (ground (arith, there))),
)

pub from_actions-IsNew :
    (py : Python) (workflow_id goal : String) (explicit_order : Bool) (actions : List Action)
    → All (λ a. is_allowed_kind a.kind ≡ true) actions
    → All IsNew (from_actions py workflow_id goal actions explicit_order)
unfolding from_actions
from_actions-IsNew py workflow_id goal explicit_order actions allowed =
    steps_from-IsNew py workflow_id goal explicit_order 0 [] actions allowed

-- A workflow whose steps `from_actions` built, whatever the goal, is one that `validate` accepts, when
-- every action has an allowed kind and Python writes different numbers differently.
pub from_actions-validate :
    (py : Python) (w : Workflow) (goal : String) (actions : List Action) (explicit_order : Bool)
    → ((i j : ℕ) → py.decimal i ≡ py.decimal j → i ≡ j)
    → All (λ a. is_allowed_kind a.kind ≡ true) actions
    → w.steps ≡ from_actions py w.workflow_id goal actions explicit_order
    → validate w ≡ some (ok tt)
unfolding from_actions
from_actions-validate py w goal actions explicit_order injective allowed built =
    (validate-iff-IsValid w).1 (record {
      distinct = Fresh-IsDistinct [] (ids_of w.steps) fresh;
      nodes =
          new-IsSchedulable w.steps w.steps (position (onto (ids_of w.steps) [])) new new
            (ordered-known w.steps [] w.steps order (λ d there. cc) (λ d there. there)) ranks;
      acyclic = (position (onto (ids_of w.steps) []), ranks);
    })
  where
    fresh : Fresh [] (ids_of w.steps)
    fresh =
        subst (λ ss. Fresh [] (ids_of ss)) (sym built)
          (steps_from-Fresh py w.workflow_id goal explicit_order injective 0 [] actions
            (λ k above. refl))

    order : IsOrdered [] w.steps
    order =
        subst (IsOrdered []) (sym built)
          (from_actions-IsOrdered py w.workflow_id goal actions explicit_order)

    new : All IsNew w.steps
    new =
        subst (All IsNew) (sym built)
          (from_actions-IsNew py w.workflow_id goal explicit_order actions allowed)

    ranks : Ranks (position (onto (ids_of w.steps) [])) w.steps
    ranks = ordered-Ranks [] w.steps order fresh
