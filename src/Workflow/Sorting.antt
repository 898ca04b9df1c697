-- ===== src/Workflow/Sorting.antt =====
-- The loop of `validate` of agent_control/workflow/scheduler.py that takes the nodes: they come in an
-- order in which every node stands after its dependencies.
use freaky_monkey.Base.{
  ℕ, zero, suc, ◌+◌, String, true, false, some, List, [], ◌∷◌, ◌≡◌, refl, ◌∙◌, arith, not, tally,
  length, str_eq, eq_iff, eq_refl, Bool-cases, inl, inr, if◌then◌else◌, ◌==◌, All, Option-cases,
}
use freaky_monkey.Base.Dict.{contains, keys, lookup, insert}
use freaky_monkey.Workflow.Model.{WorkflowStep}
use freaky_monkey.Workflow.Ready.{Result, ok}
use freaky_monkey.Workflow.Graph.{decr, Degrees, Children, ids_of, is_zero, release_children, kahn}
use freaky_monkey.Workflow.Counting.{
  occurs, unmet, edges_to, Counts, Counts-ext, Links, keys-insert,
}
use freaky_monkey.Workflow.Releasing.{zeros, when_zero, release_children_lem}

pub contains-occurs : (ks : List String) (k : String) → contains ks k ≡ not (occurs k ks == 0)
contains-occurs [] k = refl
contains-occurs (j ∷ ks) k = ground (arith, contains-occurs ks k)

-- One more node is done: what waited for it waits for it no longer.
tally_done :
    (ds past : List String) (k : String)
    → contains past k ≡ false
    → tally (λ d. not (contains past d)) ds
      ≡ tally (λ d. not (contains (k ∷ past) d)) ds + occurs k ds
tally_done [] past k fresh = refl
tally_done (d ∷ ds) past k fresh = elim (Bool-cases (str_eq d k)) [
  | inl same ↦ ground (arith, tally_done ds past k fresh, same, fresh, eq_iff d k, eq_iff k d)
  | inr other ↦ ground (arith, tally_done ds past k fresh, other, eq_iff d k, eq_iff k d)
]

unmet_done :
    (ss : List WorkflowStep) (c : String) (past : List String) (k : String)
    → contains past k ≡ false
    → unmet ss c past ≡ unmet ss c (k ∷ past) + edges_to ss k c
unfolding unmet edges_to
unmet_done [] c past k fresh = refl
unmet_done (s ∷ ss) c past k fresh =
    ground (arith, unmet_done ss c past k fresh, tally_done s.dependencies past k fresh)

edges_to_unknown :
    (ss : List WorkflowStep) (k c : String) → contains (ids_of ss) c ≡ false → edges_to ss k c ≡ 0
unfolding edges_to
edges_to_unknown [] k c h = refl
edges_to_unknown (s ∷ ss) k c h = ground (arith, edges_to_unknown ss k c)

known_each :
    (keys cs : List String)
    → ((c : String) → contains keys c ≡ false → occurs c cs ≡ 0)
    → All (λ c. contains keys c ≡ true) cs
known_each keys [] h = tt
known_each keys (c ∷ cs) h = (first, known_each keys cs (λ d unknown. ground (arith, h d unknown)))
  where
    first : contains keys c ≡ true
    first = elim (Bool-cases (contains keys c)) [
      | inl known ↦ known
      | inr unknown ↦ absurd (ground (arith, h c unknown, eq_refl c))
    ]

release_children-keys :
    (cs : List String) (degrees degrees' : Degrees) (queue queue' : List String)
    → release_children cs degrees queue ≡ ok (degrees', queue')
    → keys degrees' ≡ keys degrees
unfolding release_children
release_children-keys [] degrees degrees' queue queue' h = ground arith
release_children-keys (c ∷ cs) degrees degrees' queue queue' h =
    elim (Option-cases (lookup c degrees)) [
      | inl missing ↦ ground arith
      | inr (n, e) ↦
          release_children-keys cs (insert c (decr n) degrees) degrees'
            (if is_zero (decr n) then c ∷ queue else queue) queue' (ground (arith, e, h))
          ∙ keys-insert c n (decr n) degrees e
    ]

module _ (steps : List WorkflowStep) where
  -- An order, the last one first: each node once, after all its dependencies.
  abbrev pub IsOrder : List String → Type 0
  IsOrder [] = Unit
  IsOrder (k ∷ past) = (unmet steps k past ≡ 0) × (contains past k ≡ false) × IsOrder past

  -- What holds whenever the loop tests its queue.
  pub record IsSorting (queue past : List String) (degrees : Degrees) : Type 0 where
    pub counts : Counts degrees (ids_of steps) (λ c. unmet steps c past)
    pub once :
        (c : String)
        → occurs c queue + occurs c past
          ≡ (if contains (ids_of steps) c then when_zero (unmet steps c past) else 0)
    pub order : IsOrder past
    pub named : keys degrees ≡ ids_of steps
    pub zero_count : zeros degrees ≡ length queue + length past

  -- The node on top of the queue is one of the graph, it is fresh, and nothing that it waits for is open.
  top_lem :
      (k : String) (queue past : List String) (degrees : Degrees)
      → IsSorting (k ∷ queue) past degrees
      → (contains (ids_of steps) k ≡ true) × (unmet steps k past ≡ 0) × (contains past k ≡ false)
  top_lem k queue past degrees sorting =
      let h = sorting.once k in
      (
        ground (arith, eq_refl k, h),
        ground (arith, eq_refl k, h),
        ground (arith, eq_refl k, h, contains-occurs past k),
      )

  -- One round of the loop.
  IsSorting-step :
      (children : Children) (k : String) (queue past : List String) (degrees : Degrees)
      → Links children (ids_of steps) (edges_to steps)
      → IsSorting (k ∷ queue) past degrees
      → (cs : List String) × (lookup k children ≡ some cs)
        × (m : Degrees × List String) × (release_children cs degrees queue ≡ ok m)
        × IsSorting m.1 (k ∷ past) m.0
  IsSorting-step children k queue past degrees links sorting =
      let (known, met, fresh) = top_lem k queue past degrees sorting in
      let (cs, found, n) = links k known in
      let unknown_free = λ (c : String) (unknown : contains (ids_of steps) c ≡ false).
        n c ∙ edges_to_unknown steps k c unknown in
      let less = λ (c : String). unmet_done steps c past k fresh in
      let (m, done, counts, queued, same) =
        release_children_lem (ids_of steps) cs degrees queue (λ c. unmet steps c past)
          (known_each (ids_of steps) cs unknown_free) (λ c. omega (arith, n c, less c))
          sorting.counts in
      (
        cs,
        found,
        m,
        done,
        record {
          counts = Counts-ext m.0 (ids_of steps) _ _ (λ c. omega (arith, n c, less c)) counts;
          once = λ c.
              ground (arith, queued c, sorting.once c, n c, less c, edges_to_unknown steps k c);
          order = (met, fresh, sorting.order);
          named = release_children-keys cs degrees m.0 queue m.1 done ∙ sorting.named;
          zero_count = omega (arith, same, sorting.zero_count);
        },
      )

  -- The loop ends on an order, and its count is the length of that order.
  pub kahn-IsSorting :
      (fuel : ℕ) (children : Children) (queue past : List String) (degrees : Degrees) (r : Result ℕ)
      → Links children (ids_of steps) (edges_to steps)
      → IsSorting queue past degrees
      → kahn fuel children queue degrees (length past) ≡ some r
      → (past' : List String) × (degrees' : Degrees) × (r ≡ ok (length past'))
        × IsSorting [] past' degrees'
  unfolding kahn
  kahn-IsSorting zero children [] past degrees r links sorting e = (past, degrees, cc, sorting)
  kahn-IsSorting (suc fuel) children [] past degrees r links sorting e =
      (past, degrees, cc, sorting)
  kahn-IsSorting zero children (k ∷ queue) past degrees r links sorting e = absurd (ground arith)
  kahn-IsSorting (suc fuel) children (k ∷ queue) past degrees r links sorting e =
      let (cs, found, m, done, next) = IsSorting-step children k queue past degrees links sorting in
      kahn-IsSorting fuel children m.1 (k ∷ past) m.0 r links next (ground (arith, found, done, e))
