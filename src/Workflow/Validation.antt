-- ===== src/Workflow/Validation.antt =====
-- The search for cycles in `validate` of agent_control/workflow/scheduler.py always ends.
use freaky_monkey.Base.{
  ℕ, zero, suc, ◌+◌, ◌≤◌, String, Bool, true, false, some, List, [], ◌∷◌, ◌≡◌, refl, inl, inr,
  arith, tally, length, ◌++◌, ◌==◌, ◌∙◌, ap, Bool-cases, Option-cases, if◌then◌else◌,
}
use freaky_monkey.Base.Dict.{lookup, insert}
use freaky_monkey.Workflow.Model.{WorkflowStep, Workflow}
use freaky_monkey.Workflow.Ready.{
  Result, ok, raised, >>=-eq-ok, key_error, duplicate_ids, dependency_cycle, Result-cases,
}
use freaky_monkey.Workflow.Graph.{
  Degree, count, below, incr, decr, is_zero, Degrees, Children, zero_degrees, no_children,
  add_edges, add_all_edges, sources, release_children, kahn, visited_count, check_acyclic, validate,
  has_duplicate, ids_of, check_nodes, check_all_possible,
}

abbrev is_pos : Degree → Bool
is_pos (count zero) = false
is_pos (count (suc n)) = true
is_pos (below n) = false

-- Nodes that still wait for a prerequisite.
abbrev waiting : Degrees → ℕ
waiting = tally (λ e. is_pos e.1)

abbrev as_number : Bool → ℕ
as_number b = if b then 1 else 0

waiting-insert :
    (k : String) (n m : Degree) (degrees : Degrees)
    → lookup k degrees ≡ some n
    → waiting (insert k m degrees) + as_number (is_pos n) ≡ waiting degrees + as_number (is_pos m)
unfolding lookup insert
waiting-insert k n m [] h = cc
waiting-insert k n m ((j, v) ∷ degrees) h = ground (arith, waiting-insert k n m degrees)

decr_pos :
    (n : Degree) → as_number (is_zero (decr n)) + as_number (is_pos (decr n)) ≤ as_number (is_pos n)
decr_pos (count zero) = omega arith
decr_pos (count (suc zero)) = omega arith
decr_pos (count (suc (suc n))) = omega arith
decr_pos (below n) = omega arith

release_children-le :
    (cs : List String) (degrees degrees' : Degrees) (queue queue' : List String)
    → release_children cs degrees queue ≡ ok (degrees', queue')
    → length queue' + waiting degrees' ≤ length queue + waiting degrees
unfolding release_children
release_children-le [] degrees degrees' queue queue' h = ground arith
release_children-le (c ∷ cs) degrees degrees' queue queue' h =
    elim (Option-cases (lookup c degrees)) [
      | inl missing ↦ ground arith
      | inr (n, e) ↦ ground (
        arith,
        e,
        decr_pos n,
        waiting-insert c n (decr n) degrees,
        release_children-le cs (insert c (decr n) degrees) degrees'
            (if is_zero (decr n) then c ∷ queue else queue) queue',
      )
    ]

kahn_total :
    (fuel : ℕ) (children : Children) (queue : List String) (degrees : Degrees) (visited : ℕ)
    → length queue + waiting degrees ≤ fuel
    → (r : Result ℕ) × (kahn fuel children queue degrees visited ≡ some r)
unfolding kahn
kahn_total zero children [] degrees visited h = (ok visited, refl)
kahn_total (suc fuel) children [] degrees visited h = (ok visited, refl)
kahn_total zero children (k ∷ queue) degrees visited h = absurd (omega arith)
kahn_total (suc fuel) children (k ∷ queue) degrees visited h =
    elim (Option-cases (lookup k children)) [
      | inl missing ↦ (raised key_error, ground arith)
      | inr (cs, e) ↦ elim (Result-cases (release_children cs degrees queue)) [
        | inr (x, failed) ↦ (raised x, ground (arith, e, failed))
        | inl (next, e') ↦
            let fewer = release_children-le cs degrees next.0 queue next.1 e' in
            let (r, found) = kahn_total fuel children next.1 next.0 (visited + 1) (omega arith) in
            (r, ground (arith, e, e', found))
      ]
    ]

length-sources :
    (m : Degrees) (queue : List String)
    → length (sources m queue) + waiting m ≤ length queue + length m
unfolding sources
length-sources [] queue = omega arith
length-sources ((k, n) ∷ m) queue =
    omega (
      arith,
      length-sources m (if is_zero n then k ∷ queue else queue),
      source_or_waiting k n queue,
    )
  where
    source_or_waiting :
        (k : String) (n : Degree) (queue : List String)
        → length (if is_zero n then k ∷ queue else queue) + as_number (is_pos n) ≤ length queue + 1
    source_or_waiting k (count zero) queue = omega arith
    source_or_waiting k (count (suc n)) queue = omega arith
    source_or_waiting k (below n) queue = omega arith

length-insert :
    (k : String) (n m : Degree) (degrees : Degrees)
    → lookup k degrees ≡ some n
    → length (insert k m degrees) ≡ length degrees
unfolding lookup insert
length-insert k n m [] h = cc
length-insert k n m ((j, v) ∷ degrees) h = ground (arith, length-insert k n m degrees)

length-add_edges :
    (node : String) (ds : List String) (degrees : Degrees) (children : Children)
    (g : Degrees × Children)
    → add_edges node ds (degrees, children) ≡ ok g
    → length g.0 ≡ length degrees
unfolding add_edges
length-add_edges node [] degrees children g h = ground arith
length-add_edges node (d ∷ ds) degrees children g h = elim (Option-cases (lookup node degrees)) [
  | inl missing ↦ ground arith
  | inr (n, e) ↦ elim (Option-cases (lookup d children)) [
    | inl missing ↦ ground arith
    | inr (cs, e') ↦
        length-add_edges node ds (insert node (incr n) degrees)
          (insert d (cs ++ (node ∷ [])) children) g (ground (arith, e, e'))
        ∙ length-insert node n (incr n) degrees e
  ]
]

length-add_all_edges :
    (ss : List WorkflowStep) (g h : Degrees × Children)
    → add_all_edges ss g ≡ ok h
    → length h.0 ≡ length g.0
unfolding add_all_edges
length-add_all_edges [] g h e = ground arith
length-add_all_edges (s ∷ ss) g h e =
    let (m, first, rest) = >>=-eq-ok (add_edges s.step_id s.dependencies g) _ e in
    length-add_all_edges ss m h rest ∙ length-add_edges s.step_id s.dependencies g.0 g.1 m first

length-zero_degrees : (ss : List WorkflowStep) → length (zero_degrees ss) ≡ length ss
unfolding zero_degrees
length-zero_degrees [] = refl
length-zero_degrees (s ∷ ss) = ap suc (length-zero_degrees ss)

pub visited_count_total : (ss : List WorkflowStep) → (r : Result ℕ) × (visited_count ss ≡ some r)
unfolding visited_count
visited_count_total ss = elim (Result-cases (add_all_edges ss (zero_degrees ss, no_children ss))) [
  | inr (x, failed) ↦ (raised x, ground (arith, failed))
  | inl (g, e) ↦
      let (r, found) = kahn_total (length ss) g.1 (sources g.0 []) g.0 0 (
        omega (
          arith,
          length-sources g.0 [],
          length-add_all_edges ss (zero_degrees ss, no_children ss) g e,
          length-zero_degrees ss,
        )) in
      (r, ground (arith, e, found))
]

check_acyclic_total :
    (ss : List WorkflowStep) → (r : Result (Unit {0})) × (check_acyclic ss ≡ some r)
unfolding check_acyclic
check_acyclic_total ss =
    let (r, e) = visited_count_total ss in
    elim (Result-cases r) [
      | inr (x, e') ↦ (raised x, ground (arith, e, e'))
      | inl (n, e') ↦
          (if n == length ss then ok tt else raised dependency_cycle, ground (arith, e, e'))
    ]

-- The number of nodes is enough fuel for the search for cycles: `validate` always answers, on every
-- graph, also one with cycles, with duplicate identifiers or with edges that lead nowhere.
pub validate_total : (w : Workflow) → (r : Result (Unit {0})) × (validate w ≡ some r)
unfolding validate
validate_total w = elim (Bool-cases (has_duplicate (ids_of w.steps))) [
  | inl twice ↦ (raised duplicate_ids, ground arith)
  | inr once ↦ elim (Result-cases (check_nodes (ids_of w.steps) w.steps)) [
    | inr (x, e) ↦ (raised x, ground (arith, e))
    | inl (u, e) ↦
        let (r, e') = check_acyclic_total w.steps in
        elim (Result-cases r) [
          | inr (x, e'') ↦ (raised x, ground (arith, e, e', e''))
          | inl (v, e'') ↦ (check_all_possible w.steps w.steps, ground (arith, e, e', e''))
        ]
  ]
]
