-- ===== src/Workflow/Acyclic.antt =====
-- What the search for cycles in `validate` of agent_control/workflow/scheduler.py decides.
use freaky_monkey.Base.{
  ℕ, String, true, false, some, List, [], ◌∷◌, ◌≡◌, arith, length, All, ◌↔◌, eq_refl,
}
use freaky_monkey.Base.Dict.{contains}
use freaky_monkey.Workflow.Model.{WorkflowStep}
use freaky_monkey.Workflow.Ready.{ok}
use freaky_monkey.Workflow.Graph.{
  Degrees, ids_of, sources, has_duplicate, kahn, visited_count, check_acyclic,
}
use freaky_monkey.Workflow.Validation.{visited_count_total}
use freaky_monkey.Workflow.Counting.{add_all_edges_total}
use freaky_monkey.Workflow.Sorting.{IsSorting, kahn-IsSorting}
use freaky_monkey.Workflow.Sources.{sources-IsSorting}
use freaky_monkey.Workflow.Ranking.{
  Ranks, EveryDepKnown, position, done_of_full, order-Ranks, full_of_Ranks,
}

-- No cycle: the nodes can be ranked so that each stands above all its dependencies.
abbrev pub IsAcyclic : List WorkflowStep → Type 0
IsAcyclic steps = (rank : String → ℕ) × Ranks rank steps

nodes_known :
    (ids : List String) (ss : List WorkflowStep)
    → ((c : String) → contains (ids_of ss) c ≡ true → contains ids c ≡ true)
    → All (λ s. All (λ d. contains ids d ≡ true) s.dependencies) ss
    → All
        (λ s. (contains ids s.step_id ≡ true) × All (λ d. contains ids d ≡ true) s.dependencies)
        ss
nodes_known ids [] h known = tt
nodes_known ids (s ∷ ss) h (here, known) = (
  (h s.step_id (ground (arith, eq_refl s.step_id)), here),
  nodes_known ids ss (λ c e. h c (ground (arith, e))) known,
)

-- The count of visited nodes is the length of an order of the nodes.
visited_count-IsSorting :
    (steps : List WorkflowStep)
    → has_duplicate (ids_of steps) ≡ false
    → EveryDepKnown steps steps
    → (past : List String) × (degrees : Degrees) × (visited_count steps ≡ some (ok (length past)))
      × IsSorting steps [] past degrees
unfolding visited_count
visited_count-IsSorting steps unique known =
    let (g, built, counts, links) =
      add_all_edges_total steps (nodes_known (ids_of steps) steps (λ c h. h) known) in
    let (r, e) = visited_count_total steps in
    let ran : kahn (length steps) g.1 (sources g.0 []) g.0 0 ≡ some r = ground (arith, built, e) in
    let (past, degrees, answer, sorting) =
      kahn-IsSorting steps (length steps) g.1 (sources g.0 []) [] g.0 r links
        (sources-IsSorting steps g unique built counts) ran in
    (past, degrees, ground (arith, e, answer), sorting)

-- On nodes with unique identifiers whose dependencies are all nodes, the search for cycles accepts exactly
-- the graphs whose nodes can be ranked.
pub check_acyclic_iff :
    (steps : List WorkflowStep)
    → has_duplicate (ids_of steps) ≡ false
    → EveryDepKnown steps steps
    → (check_acyclic steps ≡ some (ok tt)) ↔ IsAcyclic steps
unfolding check_acyclic
check_acyclic_iff steps unique known =
    let (past, degrees, visited, sorting) = visited_count-IsSorting steps unique known in
    (
      (λ e. (
        position past,
        order-Ranks steps past degrees sorting steps
            (done_of_full steps past degrees sorting (ground (arith, visited, e)))
            (λ c done. omega arith),
      )),
      (λ acyclic.
          let full = full_of_Ranks steps acyclic.0 acyclic.1 known past degrees sorting unique in
          ground (arith, visited, full)),
    )
