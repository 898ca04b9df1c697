-- ===== src/Workflow/Sources.antt =====
-- The start of the loop of `validate` of agent_control/workflow/scheduler.py: the nodes without
-- dependencies.
use freaky_monkey.Base.{
  ℕ, ◌+◌, String, false, none, some, List, [], ◌∷◌, ◌++◌, ◌≡◌, refl, ap, ◌∙◌, arith, length, str_eq,
  eq_iff, Bool-cases, inl, inr, if◌then◌else◌, Option-cases,
}
use freaky_monkey.Base.Dict.{contains, keys, lookup, insert}
use freaky_monkey.Workflow.Model.{WorkflowStep}
use freaky_monkey.Workflow.Ready.{ok, >>=-eq-ok}
use freaky_monkey.Workflow.Graph.{
  Degree, count, incr, Degrees, Children, ids_of, is_zero, sources, has_duplicate, add_edges,
  add_all_edges, zero_degrees, no_children,
}
use freaky_monkey.Workflow.Counting.{occurs, unmet, Counts, keys-insert}
use freaky_monkey.Workflow.Releasing.{zeros, when_zero, is_zero-when_zero}
use freaky_monkey.Workflow.Sorting.{IsSorting}

add_edges-keys :
    (node : String) (ds : List String) (degrees : Degrees) (children : Children)
    (g : Degrees × Children)
    → add_edges node ds (degrees, children) ≡ ok g
    → keys g.0 ≡ keys degrees
unfolding add_edges
add_edges-keys node [] degrees children g h = ground arith
add_edges-keys node (d ∷ ds) degrees children g h = elim (Option-cases (lookup node degrees)) [
  | inl missing ↦ ground arith
  | inr (n, e) ↦ elim (Option-cases (lookup d children)) [
    | inl missing ↦ ground arith
    | inr (cs, e') ↦
        add_edges-keys node ds (insert node (incr n) degrees)
          (insert d (cs ++ (node ∷ [])) children) g (ground (arith, e, e'))
        ∙ keys-insert node n (incr n) degrees e
  ]
]

add_all_edges-keys :
    (ss : List WorkflowStep) (g h : Degrees × Children)
    → add_all_edges ss g ≡ ok h
    → keys h.0 ≡ keys g.0
unfolding add_all_edges
add_all_edges-keys [] g h e = ground arith
add_all_edges-keys (s ∷ ss) g h e =
    let (m, first, rest) = >>=-eq-ok (add_edges s.step_id s.dependencies g) _ e in
    add_all_edges-keys ss m h rest ∙ add_edges-keys s.step_id s.dependencies g.0 g.1 m first

zero_degrees-keys : (ss : List WorkflowStep) → keys (zero_degrees ss) ≡ ids_of ss
unfolding zero_degrees
zero_degrees-keys [] = refl
zero_degrees-keys (s ∷ ss) = ap (◌∷◌ s.step_id) (zero_degrees-keys ss)

length-sources-zeros :
    (m : Degrees) (queue : List String) → length (sources m queue) ≡ length queue + zeros m
unfolding sources
length-sources-zeros [] queue = omega arith
length-sources-zeros ((k, n) ∷ m) queue = elim (Bool-cases (is_zero n)) [
  | inl source ↦ rw source (omega (arith, length-sources-zeros m (k ∷ queue)))
  | inr other ↦ rw other (omega (arith, length-sources-zeros m queue))
]

-- How often the table lists the key with degree zero.
hits : String → Degrees → ℕ
hits c [] = 0
hits c ((k, n) ∷ m) = (if is_zero n then (if str_eq k c then 1 else 0) else 0) + hits c m

occurs-sources :
    (c : String) (m : Degrees) (queue : List String)
    → occurs c (sources m queue) ≡ occurs c queue + hits c m
unfolding sources hits
occurs-sources c [] queue = omega arith
occurs-sources c ((k, n) ∷ m) queue = elim (Bool-cases (is_zero n)) [
  | inl source ↦ rw source (omega (arith, occurs-sources c m (k ∷ queue)))
  | inr other ↦ rw other (omega (arith, occurs-sources c m queue))
]

hits_other : (c : String) (m : Degrees) → contains (keys m) c ≡ false → hits c m ≡ 0
unfolding hits
hits_other c [] h = refl
hits_other c ((k, n) ∷ m) h = ground (arith, hits_other c m)

hits_once :
    (c : String) (m : Degrees) (n : Degree)
    → has_duplicate (keys m) ≡ false
    → lookup c m ≡ some n
    → hits c m ≡ (if is_zero n then 1 else 0)
unfolding hits lookup
hits_once c [] n unique e = cc
hits_once c ((k, v) ∷ m) n unique e = elim (Bool-cases (str_eq k c)) [
  | inl here ↦ ground (arith, here, eq_iff k c, hits_other c m)
  | inr other ↦ ground (arith, other, hits_once c m n)
]

-- Before the first round the queue holds each node without dependencies once.
pub sources-IsSorting :
    (steps : List WorkflowStep) (g : Degrees × Children)
    → has_duplicate (ids_of steps) ≡ false
    → add_all_edges steps (zero_degrees steps, no_children steps) ≡ ok g
    → Counts g.0 (ids_of steps) (λ c. unmet steps c [])
    → IsSorting steps (sources g.0 []) [] g.0
sources-IsSorting steps g unique done counts = record {
  counts = counts;
  once = once;
  order = tt;
  named = named;
  zero_count = omega (arith, length-sources-zeros g.0 []);
}
  where
    named : keys g.0 ≡ ids_of steps
    named = add_all_edges-keys steps _ g done ∙ zero_degrees-keys steps

    once :
        (c : String)
        → occurs c (sources g.0 []) + 0
          ≡ (if contains (ids_of steps) c then when_zero (unmet steps c []) else 0)
    once c = elim (Bool-cases (contains (ids_of steps) c)) [
      | inl known ↦ ground (
        arith,
        known,
        occurs-sources c g.0 [],
        is_zero-when_zero (unmet steps c []),
        hits_once c g.0 (count (unmet steps c [])) (ap has_duplicate named ∙ unique)
            (counts c ∙ ap (λ b. if b then some (count (unmet steps c [])) else none) known),
      )
      | inr unknown ↦ ground (
        arith,
        unknown,
        occurs-sources c g.0 [],
        hits_other c g.0 (ap (λ ks. contains ks c) named ∙ unknown),
      )
    ]
