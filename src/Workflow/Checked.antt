-- ===== src/Workflow/Checked.antt =====
-- What a graph that `validate` of agent_control/workflow/scheduler.py accepts is like, and that the scan
-- of a graph with known dependencies does not raise.
use freaky_monkey.Base.{
  String, Bool, true, false, Option, none, some, List, [], ◌∷◌, ◌++◌, ◌≡◌, ◌≢◌, refl, subst, ap,
  inl, inr, arith, not, All, eq_iff, Option-cases, if◌then◌else◌,
}
use freaky_monkey.Base.Dict.{contains}
use freaky_monkey.Json.{Params}
use freaky_monkey.Workflow.Model.{WorkflowStep, Workflow, find_step}
use freaky_monkey.Workflow.Ready.{
  ok, raised, >>=-eq-ok, Result-cases, visit, scan, any_dead, SchedulerError, is_dead,
}
use freaky_monkey.Workflow.Readiness.{visit-Visited}
use freaky_monkey.Workflow.Graph.{
  is_allowed_kind, has_duplicate, ids_of, check_node, check_nodes, check_acyclic, check_possible,
  check_all_possible, is_impossible, validate,
}

-- A dependency of a node: some other node, which has not been cancelled or blocked.
abbrev pub IsPossible : List WorkflowStep → WorkflowStep → String → Type 0
IsPossible steps s d =
    (d ≢ s.step_id)
    × ((p : WorkflowStep) × (find_step d steps ≡ some p) × (is_impossible p.status ≡ false))

pub record IsSchedulable (steps : List WorkflowStep) (s : WorkflowStep) : Type 0 where
  pub named : s.step_id ≢ ""
  pub kind : is_allowed_kind s.action.kind ≡ true
  pub dependencies : All (IsPossible steps s) s.dependencies

pub no_self : (ds : List String) (k : String) → contains ds k ≡ false → All (λ d. d ≢ k) ds
no_self [] k h = tt
no_self (d ∷ ds) k h = (λ e. absurd (ground (arith, eq_iff d k, e)), no_self ds k (ground arith))

check_possible-All :
    (steps : List WorkflowStep) (node : String) (ds : List String)
    → check_possible steps node ds ≡ ok tt
    → All
        (λ d. (p : WorkflowStep) × (find_step d steps ≡ some p) × (is_impossible p.status ≡ false))
        ds
unfolding check_possible
check_possible-All steps node [] h = tt
check_possible-All steps node (d ∷ ds) h = elim (Option-cases (find_step d steps)) [
  | inl missing ↦ ground arith
  | inr (p, e) ↦ ((p, e, ground arith), check_possible-All steps node ds (ground arith))
]

All-zip :
    {A : Type 0} (P Q : A → Type 0) (xs : List A) → All P xs → All Q xs → All (λ x. P x × Q x) xs
All-zip P Q [] h k = tt
All-zip P Q (x ∷ xs) h k = ((h.0, k.0), All-zip P Q xs h.1 k.1)

check_node_lem :
    (known : List String) (s : WorkflowStep)
    → check_node known s ≡ ok tt
    → (s.step_id ≢ "")
      × (is_allowed_kind s.action.kind ≡ true)
      × (contains s.dependencies s.step_id ≡ false)
unfolding check_node
check_node_lem known s h =
    (λ e. absurd (ground (arith, eq_iff s.step_id "", e)), ground arith, ground arith)

check-IsSchedulable :
    (known : List String) (steps ss : List WorkflowStep)
    → check_nodes known ss ≡ ok tt
    → check_all_possible steps ss ≡ ok tt
    → All (IsSchedulable steps) ss
unfolding check_nodes check_all_possible
check-IsSchedulable known steps [] h k = tt
check-IsSchedulable known steps (s ∷ ss) h k =
    let (_, h₀, h₁) = >>=-eq-ok (check_node known s) _ h in
    let (_, k₀, k₁) = >>=-eq-ok (check_possible steps s.step_id s.dependencies) _ k in
    let (named, kind, other) = check_node_lem known s h₀ in
    (
      record {
        named = named;
        kind = kind;
        dependencies =
            All-zip _ _ s.dependencies (no_self s.dependencies s.step_id other)
              (check_possible-All steps s.step_id s.dependencies k₀);
      },
      check-IsSchedulable known steps ss h₁ k₁,
    )

pub validate-parts :
    (w : Workflow)
    → validate w ≡ some (ok tt)
    → (has_duplicate (ids_of w.steps) ≡ false)
      × (check_nodes (ids_of w.steps) w.steps ≡ ok tt)
      × (check_acyclic w.steps ≡ some (ok tt))
      × (check_all_possible w.steps w.steps ≡ ok tt)
unfolding validate
validate-parts w h = ground arith

-- In a workflow that `validate` accepts the identifiers are unique, and every node has a name and an
-- allowed capability, and each of its dependencies is another node of the workflow that has not
-- been cancelled or blocked.
pub validate-IsSchedulable :
    (w : Workflow)
    → validate w ≡ some (ok tt)
    → (has_duplicate (ids_of w.steps) ≡ false) × All (IsSchedulable w.steps) w.steps
validate-IsSchedulable w h =
    let (unique, nodes, _, possible) = validate-parts w h in
    (unique, check-IsSchedulable (ids_of w.steps) w.steps w.steps nodes possible)

abbrev is_none : Option WorkflowStep → Bool
is_none none = true
is_none (some p) = false

pub known_ids :
    (k : String) (ss : List WorkflowStep) → contains (ids_of ss) k ≡ not (is_none (find_step k ss))
unfolding find_step
known_ids k [] = refl
known_ids k (s ∷ ss) = ground (arith, known_ids k ss)

any_dead_total :
    (steps : List WorkflowStep) (ds : List String)
    → All (λ d. contains (ids_of steps) d ≡ true) ds
    → (b : Bool) × (any_dead steps ds ≡ ok b)
unfolding any_dead
any_dead_total steps [] h = (false, refl)
any_dead_total steps (d ∷ ds) h = elim (Option-cases (find_step d steps)) [
  | inl missing ↦ absurd (ground (arith, known_ids d steps, h.0))
  | inr (p, e) ↦
      let (b, found) = any_dead_total steps ds h.1 in
      (if is_dead p.status then true else b, ground (arith, e, found))
]

visit_raises :
    (context : Params) (completed : List String) (steps : List WorkflowStep) (s : WorkflowStep)
    (x : SchedulerError) (dead : Bool)
    → any_dead steps s.dependencies ≡ ok dead
    → visit context completed steps s ≡ raised x
    → ⊥
unfolding visit
visit_raises context completed steps s x dead found e = ground arith

visit_total :
    (context : Params) (completed : List String) (steps : List WorkflowStep) (s : WorkflowStep)
    → All (λ d. contains (ids_of steps) d ≡ true) s.dependencies
    → (m : WorkflowStep × Bool) × (visit context completed steps s ≡ ok m)
visit_total context completed steps s h =
    let (dead, found) = any_dead_total steps s.dependencies h in
    elim (Result-cases (visit context completed steps s)) [
      | inl done ↦ done
      | inr (x, e) ↦ absurd (visit_raises context completed steps s x dead found e)
    ]

visit_id :
    (context : Params) (completed : List String) (steps : List WorkflowStep) (s t : WorkflowStep)
    (r : Bool)
    → visit context completed steps s ≡ ok (t, r)
    → t.step_id ≡ s.step_id
visit_id context completed steps s t r h =
    let v = visit-Visited context completed steps s t r h in ground arith

pub ids_same :
    (before ss : List WorkflowStep) (s t : WorkflowStep)
    → t.step_id ≡ s.step_id
    → ids_of (before ++ (s ∷ ss)) ≡ ids_of ((before ++ (t ∷ [])) ++ ss)
ids_same [] ss s t e = cc
ids_same (b ∷ before) ss s t e = ap (◌∷◌ b.step_id) (ids_same before ss s t e)

pub scan_total :
    (context : Params) (completed : List String) (before ss : List WorkflowStep)
    → All (λ s. All (λ d. contains (ids_of (before ++ ss)) d ≡ true) s.dependencies) ss
    → (ms : List (WorkflowStep × Bool)) × (scan context completed before ss ≡ ok ms)
unfolding scan
scan_total context completed before [] h = ([], refl)
scan_total context completed before (s ∷ ss) h =
    let ((t, r), e) = visit_total context completed (before ++ (s ∷ ss)) s h.0 in
    let same = visit_id context completed (before ++ (s ∷ ss)) s t r e in
    let (ms, e') = scan_total context completed (before ++ (t ∷ [])) ss (
      subst (λ ids. All (λ u. All (λ d. contains ids d ≡ true) u.dependencies) ss)
        (ids_same before ss s t same) h.1) in
    ((t, r) ∷ ms, ground (arith, e, e'))

deps_known :
    (steps : List WorkflowStep) (s : WorkflowStep) (ds : List String)
    → All (IsPossible steps s) ds
    → All (λ d. contains (ids_of steps) d ≡ true) ds
deps_known steps s [] h = tt
deps_known steps s (d ∷ ds) h =
    let (_, known) = h.0 in
    let (p, e, _) = known in (ground (arith, known_ids d steps, e), deps_known steps s ds h.1)

pub every_dep_known :
    (steps ss : List WorkflowStep)
    → All (IsSchedulable steps) ss
    → All (λ s. All (λ d. contains (ids_of steps) d ≡ true) s.dependencies) ss
every_dep_known steps [] h = tt
every_dep_known steps (s ∷ ss) h =
    (deps_known steps s s.dependencies h.0.dependencies, every_dep_known steps ss h.1)
