-- ===== src/Workflow/Counting.antt =====
-- The tables of degrees and children that `validate` of agent_control/workflow/scheduler.py builds, as
-- counts of the edges of the graph.
use freaky_monkey.Base.{
  ℕ, suc, ◌+◌, String, true, none, some, List, [], ◌∷◌, ◌++◌, ◌≡◌, refl, ap, ◌∙◌, subst, arith, not,
  tally, tally-append, length, All, str_eq, eq_iff, Bool-cases, inl, inr, if◌then◌else◌,
}
use freaky_monkey.Base.Dict.{contains, keys, lookup, insert, lookup-insert}
use freaky_monkey.Workflow.Model.{WorkflowStep}
use freaky_monkey.Workflow.Ready.{Result, ok}
use freaky_monkey.Workflow.Graph.{
  Degree, count, incr, Degrees, Children, ids_of, zero_degrees, no_children, add_edges,
  add_all_edges,
}

abbrev pub occurs : String → List String → ℕ
occurs c = tally (λ d. str_eq d c)

-- The dependencies of a node that are not among those done, each as often as it is written.
unfoldable pub unmet : List WorkflowStep → String → List String → ℕ
unmet [] c past = 0
unmet (s ∷ ss) c past =
    (if str_eq s.step_id c then tally (λ d. not (contains past d)) s.dependencies else 0)
    + unmet ss c past

-- How often the second node names the first as its dependency.
unfoldable pub edges_to : List WorkflowStep → String → String → ℕ
edges_to [] k c = 0
edges_to (s ∷ ss) k c =
    (if str_eq s.step_id c then occurs k s.dependencies else 0) + edges_to ss k c

-- The table of degrees has these numbers for these keys, and no others.
abbrev pub Counts : Degrees → List String → (String → ℕ) → Type 0
Counts degrees keys f =
    (c : String) → lookup c degrees ≡ (if contains keys c then some (count (f c)) else none)

-- The children of a key have each node this often.
abbrev pub Links : Children → List String → (String → String → ℕ) → Type 0
Links children keys g =
    (k : String)
    → contains keys k ≡ true
    → (cs : List String) × (lookup k children ≡ some cs) × ((c : String) → occurs c cs ≡ g k c)

pub Counts-ext :
    (degrees : Degrees) (keys : List String) (f g : String → ℕ)
    → ((c : String) → f c ≡ g c)
    → Counts degrees keys f
    → Counts degrees keys g
Counts-ext degrees keys f g same h c =
    h c ∙ ap (λ n. if contains keys c then some (count n) else none) (same c)

Links-ext :
    (children : Children) (keys : List String) (f g : String → String → ℕ)
    → ((k c : String) → f k c ≡ g k c)
    → Links children keys f
    → Links children keys g
Links-ext children keys f g same h k known =
    let (cs, found, n) = h k known in (cs, found, λ c. n c ∙ same k c)

pub keys-insert :
    {V : Type 0} (k : String) (n m : V) (table : List (String × V))
    → lookup k table ≡ some n
    → keys (insert k m table) ≡ keys table
unfolding lookup insert
keys-insert k n m [] h = cc
keys-insert k n m ((j, v) ∷ table) h = elim (Bool-cases (str_eq j k)) [
  | inl here ↦ ground (arith, here)
  | inr other ↦ rw other (ap (◌∷◌ j) (keys-insert k n m table (ground (arith, other, h))))
]

zero_degrees-Counts : (ss : List WorkflowStep) → Counts (zero_degrees ss) (ids_of ss) (λ c. 0)
unfolding zero_degrees lookup
zero_degrees-Counts [] c = refl
zero_degrees-Counts (s ∷ ss) c = ground (arith, zero_degrees-Counts ss c)

no_children-Links : (ss : List WorkflowStep) → Links (no_children ss) (ids_of ss) (λ k c. 0)
unfolding no_children lookup
no_children-Links [] k known = cc
no_children-Links (s ∷ ss) k known = elim (Bool-cases (str_eq s.step_id k)) [
  | inl here ↦ ([], rw here refl, λ c. refl)
  | inr other ↦
      let (cs, found, n) = no_children-Links ss k (ground arith) in (cs, rw other found, n)
]

contains_subst :
    (keys : List String) (k c : String)
    → str_eq k c ≡ true
    → contains keys k ≡ true
    → contains keys c ≡ true
contains_subst keys k c same known =
    subst (λ x. contains keys x ≡ true) (ground (arith, same, eq_iff k c)) known

pub insert-Counts :
    (degrees : Degrees) (keys : List String) (f g : String → ℕ) (k : String) (n : ℕ)
    → contains keys k ≡ true
    → Counts degrees keys f
    → ((c : String) → g c ≡ (if str_eq k c then n else f c))
    → Counts (insert k (count n) degrees) keys g
insert-Counts degrees keys f g k n known h new c = elim (Bool-cases (str_eq k c)) [
  | inl same ↦
      rw (lookup-insert k c (count n) degrees, contains_subst keys k c same known, new c, same) refl
  | inr other ↦ rw (lookup-insert k c (count n) degrees, new c, other) (h c)
]

-- A child more for one key.
insert-Links :
    (children : Children) (keys : List String) (f g : String → String → ℕ) (d node : String)
    (cs : List String)
    → lookup d children ≡ some cs
    → Links children keys f
    → ((k c : String)
        → g k c ≡ f k c + (if str_eq d k then (if str_eq node c then 1 else 0) else 0))
    → Links (insert d (cs ++ (node ∷ [])) children) keys g
insert-Links children keys f g d node cs found h new k known = elim (Bool-cases (str_eq d k)) [
  | inl same ↦
      let (cs', found', n) = h k known in
      (
        cs ++ (node ∷ []),
        rw (lookup-insert d k (cs ++ (node ∷ [])) children, same) refl,
        λ c. ground (
          arith,
          tally-append (λ x. str_eq x c) cs (node ∷ []),
          new k c,
          n c,
          same,
          found,
          found',
          eq_iff d k,
        ),
      )
  | inr other ↦
      let (cs', found', n) = h k known in
      (
        cs',
        rw (lookup-insert d k (cs ++ (node ∷ [])) children, other) found',
        λ c. ground (arith, new k c, n c, other),
      )
]

-- The tables after the edges of a node were added: they are there, with these numbers.
abbrev Added :
    List String → (String → ℕ) → (String → String → ℕ) → Result (Degrees × Children) → Type 0
Added keys f g r = (m : Degrees × Children) × (r ≡ ok m) × Counts m.0 keys f × Links m.1 keys g

add_edges_step :
    (node d : String) (ds : List String) (degrees : Degrees) (children : Children) (n : Degree)
    (cs : List String)
    → lookup node degrees ≡ some n
    → lookup d children ≡ some cs
    → add_edges node (d ∷ ds) (degrees, children)
      ≡ add_edges node ds (insert node (incr n) degrees, insert d (cs ++ (node ∷ [])) children)
unfolding add_edges
add_edges_step node d ds degrees children n cs e e' = ground (arith, e, e')

add_edges_lem :
    (keys : List String) (node : String) (ds : List String) (degrees : Degrees)
    (children : Children) (f : String → ℕ) (g : String → String → ℕ)
    → contains keys node ≡ true
    → All (λ d. contains keys d ≡ true) ds
    → Counts degrees keys f
    → Links children keys g
    → Added keys
        (λ c. f c + (if str_eq node c then length ds else 0))
        (λ k c. g k c + (if str_eq node c then occurs k ds else 0))
        (add_edges node ds (degrees, children))
unfolding add_edges
add_edges_lem keys node [] degrees children f g known ds_known counts links = (
  (degrees, children),
  refl,
  Counts-ext degrees keys f _ (λ c. ground arith) counts,
  Links-ext children keys g _ (λ k c. ground arith) links,
)
add_edges_lem keys node (d ∷ ds) degrees children f g known (d_known, ds_known) counts links =
    let (cs, found, n) = links d d_known in
    let f' = λ (c : String). f c + (if str_eq node c then 1 else 0) in
    let g' =
      λ (k c : String). g k c + (if str_eq d k then (if str_eq node c then 1 else 0) else 0) in
    let (m, done, counts', links') =
      add_edges_lem keys node ds (insert node (count (suc (f node))) degrees)
        (insert d (cs ++ (node ∷ [])) children) f' g' known ds_known
        (insert-Counts degrees keys f f' node (suc (f node)) known counts
          (λ c. ground (arith, eq_iff node c)))
        (insert-Links children keys g g' d node cs found links (λ k c. refl)) in
    (
      m,
      add_edges_step node d ds degrees children (count (f node)) cs
            (counts node ∙ ap (λ b. if b then some (count (f node)) else none) known) found
          ∙ done,
      Counts-ext m.0 keys _ _ (λ c. ground arith) counts',
      Links-ext m.1 keys _ _ (λ k c. ground arith) links',
    )

tally_all : (ds : List String) → tally (λ d. not (contains [] d)) ds ≡ length ds
tally_all [] = refl
tally_all (d ∷ ds) = omega (arith, tally_all ds)

add_all_edges_lem :
    (keys : List String) (ss : List WorkflowStep) (m : Degrees × Children) (f : String → ℕ)
    (g : String → String → ℕ)
    → All
        (λ s. (contains keys s.step_id ≡ true) × All (λ d. contains keys d ≡ true) s.dependencies)
        ss
    → Counts m.0 keys f
    → Links m.1 keys g
    → Added keys (λ c. f c + unmet ss c []) (λ k c. g k c + edges_to ss k c) (add_all_edges ss m)
unfolding add_all_edges unmet edges_to
add_all_edges_lem keys [] m f g known counts links = (
  m,
  refl,
  Counts-ext m.0 keys f _ (λ c. omega arith) counts,
  Links-ext m.1 keys g _ (λ k c. omega arith) links,
)
add_all_edges_lem keys (s ∷ ss) m f g ((here, deps), known) counts links =
    let (m1, done, counts1, links1) =
      add_edges_lem keys s.step_id s.dependencies m.0 m.1 f g here deps counts links in
    let (m2, done2, counts2, links2) = add_all_edges_lem keys ss m1 _ _ known counts1 links1 in
    (
      m2,
      rw done done2,
      Counts-ext m2.0 keys _ _ (λ c. ground (arith, tally_all s.dependencies)) counts2,
      Links-ext m2.1 keys _ _ (λ k c. ground arith) links2,
    )

-- The tables of a graph whose dependencies are all nodes: every node with the number of its
-- dependencies, and with the nodes that name it as its children.
pub add_all_edges_total :
    (ss : List WorkflowStep)
    → All
        (λ s.
          (contains (ids_of ss) s.step_id ≡ true)
          × All (λ d. contains (ids_of ss) d ≡ true) s.dependencies)
        ss
    → (m : Degrees × Children) × (add_all_edges ss (zero_degrees ss, no_children ss) ≡ ok m)
      × Counts m.0 (ids_of ss) (λ c. unmet ss c [])
      × Links m.1 (ids_of ss) (edges_to ss)
add_all_edges_total ss known =
    let (m, done, counts, links) =
      add_all_edges_lem (ids_of ss) ss (zero_degrees ss, no_children ss) (λ c. 0) (λ k c. 0) known
        (zero_degrees-Counts ss) (no_children-Links ss) in
    (
      m,
      done,
      Counts-ext m.0 (ids_of ss) _ _ (λ c. omega arith) counts,
      Links-ext m.1 (ids_of ss) _ _ (λ k c. omega arith) links,
    )
