-- ===== src/Workflow/Accepted.antt =====
-- What the workflows are like that `validate` of agent_control/workflow/scheduler.py accepts: the
-- description from both sides.
use freaky_monkey.Base.{
  String, true, false, some, List, [], ◌∷◌, ◌≡◌, ◌≢◌, ◌↔◌, refl, ap, arith, inl, inr, All, str_eq,
  eq_iff, Bool-cases,
}
use freaky_monkey.Base.Dict.{contains}
use freaky_monkey.Workflow.Model.{WorkflowStep, Workflow}
use freaky_monkey.Workflow.Ready.{ok}
use freaky_monkey.Workflow.Graph.{
  ids_of, has_duplicate, check_known, check_node, check_nodes, check_possible, check_all_possible,
  validate, is_allowed_kind,
}
use freaky_monkey.Workflow.Checked.{
  IsSchedulable, IsPossible, validate-IsSchedulable, validate-parts, every_dep_known, no_self,
}
use freaky_monkey.Workflow.Acyclic.{IsAcyclic, check_acyclic_iff}

abbrev pub IsDistinct : List String → Type 0
IsDistinct [] = Unit
IsDistinct (k ∷ ks) = All (λ j. j ≢ k) ks × IsDistinct ks

-- A workflow that can be run: distinct names, nodes that can be scheduled, and no cycle.
pub record IsValid (w : Workflow) : Type 0 where
  pub distinct : IsDistinct (ids_of w.steps)
  pub nodes : All (IsSchedulable w.steps) w.steps
  pub acyclic : IsAcyclic w.steps

no_duplicate : (ks : List String) → has_duplicate ks ≡ false → IsDistinct ks
no_duplicate [] h = tt
no_duplicate (k ∷ ks) h = (no_self ks k (ground arith), no_duplicate ks (ground arith))

not_among : (k : String) (ks : List String) → All (λ j. j ≢ k) ks → contains ks k ≡ false
not_among k [] h = refl
not_among k (j ∷ ks) (other, h) = elim (Bool-cases (str_eq j k)) [
  | inl same ↦ absurd (other ((eq_iff j k).0 same))
  | inr apart ↦ ground (arith, apart, not_among k ks h)
]

distinct_unique : (ks : List String) → IsDistinct ks → has_duplicate ks ≡ false
distinct_unique [] h = refl
distinct_unique (k ∷ ks) (here, h) = ground (arith, not_among k ks here, distinct_unique ks h)

check_known_ok :
    (known : List String) (node : String) (ds : List String)
    → All (λ d. contains known d ≡ true) ds
    → check_known known node ds ≡ ok tt
unfolding check_known
check_known_ok known node [] h = refl
check_known_ok known node (d ∷ ds) h = ground (arith, check_known_ok known node ds h.1)

nonempty_kind : (k : String) → is_allowed_kind k ≡ true → str_eq k "" ≡ false
unfolding is_allowed_kind
nonempty_kind k h = elim (Bool-cases (str_eq k "")) [
  | inr named ↦ named
  | inl empty ↦ absurd (no_empty (ap is_allowed_kind ((eq_iff k "").0 empty)))
]
  where
    no_empty : is_allowed_kind k ≡ false → ⊥
    no_empty e = cc

apart : (a b : String) → a ≢ b → str_eq a b ≡ false
apart a b h = elim (Bool-cases (str_eq a b)) [
  | inr other ↦ other
  | inl same ↦ absurd (h ((eq_iff a b).0 same))
]

other_nodes :
    (steps : List WorkflowStep) (s : WorkflowStep) (ds : List String)
    → All (IsPossible steps s) ds
    → All (λ d. d ≢ s.step_id) ds
other_nodes steps s [] h = tt
other_nodes steps s (d ∷ ds) h = (h.0.0, other_nodes steps s ds h.1)

check_node_ok :
    (steps : List WorkflowStep) (s : WorkflowStep)
    → IsSchedulable steps s
    → All (λ d. contains (ids_of steps) d ≡ true) s.dependencies
    → check_node (ids_of steps) s ≡ ok tt
unfolding check_node
check_node_ok steps s good known = ground (
  arith,
  apart s.step_id "" good.named,
  nonempty_kind s.action.kind good.kind,
  good.kind,
  not_among s.step_id s.dependencies (other_nodes steps s s.dependencies good.dependencies),
  check_known_ok (ids_of steps) s.step_id s.dependencies known,
)

check_possible_ok :
    (steps : List WorkflowStep) (s : WorkflowStep) (node : String) (ds : List String)
    → All (IsPossible steps s) ds
    → check_possible steps node ds ≡ ok tt
unfolding check_possible
check_possible_ok steps s node [] h = refl
check_possible_ok steps s node (d ∷ ds) ((other, (p, found, possible)), h) =
    ground (arith, found, possible, check_possible_ok steps s node ds h)

checks_ok :
    (steps ss : List WorkflowStep)
    → All (IsSchedulable steps) ss
    → (check_nodes (ids_of steps) ss ≡ ok tt) × (check_all_possible steps ss ≡ ok tt)
unfolding check_nodes check_all_possible
checks_ok steps [] h = (refl, refl)
checks_ok steps (s ∷ ss) (good, h) =
    let (named, possible) = checks_ok steps ss h in
    let (known, rest) = every_dep_known steps (s ∷ ss) (good, h) in
    (
      ground (arith, check_node_ok steps s good known, named),
      ground
          (arith, check_possible_ok steps s s.step_id s.dependencies good.dependencies, possible),
    )

-- `validate` accepts exactly the workflows whose nodes have distinct non-empty names and allowed
-- capabilities, whose dependencies are other nodes that have not been cancelled or blocked, and whose
-- nodes can be ranked so that each stands above all its dependencies, that is, without a cycle.
pub validate-iff-IsValid : (w : Workflow) → (validate w ≡ some (ok tt)) ↔ IsValid w
unfolding validate
validate-iff-IsValid w = (accepted, valid)
  where
    accepted : validate w ≡ some (ok tt) → IsValid w
    accepted h =
        let (unique, nodes, acyclic, possible) = validate-parts w h in
        let good = (validate-IsSchedulable w h).1 in
        record {
          distinct = no_duplicate (ids_of w.steps) unique;
          nodes = good;
          acyclic =
              (check_acyclic_iff w.steps unique (every_dep_known w.steps w.steps good)).0 acyclic;
        }

    valid : IsValid w → validate w ≡ some (ok tt)
    valid v =
        let unique = distinct_unique (ids_of w.steps) v.distinct in
        let (named, possible) = checks_ok w.steps w.steps v.nodes in
        let acyclic =
          (check_acyclic_iff w.steps unique (every_dep_known w.steps w.steps v.nodes)).1
            v.acyclic in
        ground (arith, unique, named, acyclic, possible)
