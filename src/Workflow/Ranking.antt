-- ===== src/Workflow/Ranking.antt =====
-- The order that the loop of `validate` of agent_control/workflow/scheduler.py leaves, against a ranking of
-- the nodes.
use freaky_monkey.Base.{
  ℕ, zero, suc, ◌≤◌, ◌<◌, String, true, false, none, some, List, [], ◌∷◌, ◌≡◌, refl, ap, sym, ◌∙◌,
  subst, arith, not, tally, length, str_eq, eq_iff, eq_refl, Bool-cases, inl, inr, if◌then◌else◌,
  All, tally-le-length,
}
use freaky_monkey.Base.Dict.{contains, keys, lookup}
use freaky_monkey.Workflow.Model.{WorkflowStep}
use freaky_monkey.Workflow.Graph.{Degree, count, Degrees, ids_of, is_zero, has_duplicate}
use freaky_monkey.Workflow.Counting.{unmet}
use freaky_monkey.Workflow.Releasing.{zeros}
use freaky_monkey.Workflow.Sorting.{IsOrder, IsSorting, contains-occurs}

-- Each node stands above all its dependencies.
abbrev pub Ranks : (String → ℕ) → List WorkflowStep → Type 0
Ranks rank steps = All (λ s. All (λ d. rank d < rank s.step_id) s.dependencies) steps

-- The place of a node in an order, counted from its end.
unfoldable pub position : List String → String → ℕ
position [] c = 0
position (k ∷ past) c = if str_eq k c then suc (length past) else position past c

pub position-le : (past : List String) (c : String) → position past c ≤ length past
unfolding position
position-le [] c = omega arith
position-le (k ∷ past) c = ground (arith, position-le past c)

met_each :
    (past ds : List String)
    → tally (λ d. not (contains past d)) ds ≡ 0
    → All (λ d. contains past d ≡ true) ds
met_each past [] h = tt
met_each past (d ∷ ds) h = (ground arith, met_each past ds (ground arith))

pub All-map {ℓ κ} :
    {A : Type 0} {P : A → Type ℓ} {Q : A → Type κ} (xs : List A)
    → ((x : A) → P x → Q x)
    → All P xs
    → All Q xs
All-map [] f h = tt
All-map (x ∷ xs) f h = (f x h.0, All-map xs f h.1)

-- Every node of an order stands above its dependencies.
position-lt :
    (steps : List WorkflowStep) (past : List String) (c : String) (ds : List String)
    → IsOrder steps past
    → ((done : List String) → tally (λ d. not (contains done d)) ds ≤ unmet steps c done)
    → contains past c ≡ true
    → All (λ d. (contains past d ≡ true) × (position past d < position past c)) ds
unfolding position
position-lt steps [] c ds order within h = absurd (ground arith)
position-lt steps (k ∷ past) c ds (met, fresh, order) within h = elim (Bool-cases (str_eq k c)) [
  | inl here ↦
      let same = (eq_iff k c).0 here in
      All-map ds (λ d known. ground (arith, here, known, fresh, eq_iff k d, position-le past d))
        (met_each past ds (ground (arith, within past, ap (λ x. unmet steps x past) same, met)))
  | inr other ↦
      All-map ds (λ d before. ground (arith, other, before, fresh, eq_iff k d))
        (position-lt steps past c ds order within (ground (arith, other, h)))
]

pub length-keys : (m : Degrees) → length (keys m) ≡ length m
length-keys [] = refl
length-keys (e ∷ m) = ap suc (length-keys m)

length-ids_of : (ss : List WorkflowStep) → length (ids_of ss) ≡ length ss
length-ids_of [] = refl
length-ids_of (s ∷ ss) = ap suc (length-ids_of ss)

zero_of_full :
    (c : String) (n : Degree) (m : Degrees)
    → length m ≤ zeros m
    → lookup c m ≡ some n
    → is_zero n ≡ true
unfolding lookup
zero_of_full c n [] full e = cc
zero_of_full c n ((k, v) ∷ m) full e = elim (Bool-cases (str_eq k c)) [
  | inl here ↦ ground (arith, here, e, tally-le-length (λ (x : String × Degree). is_zero x.1) m)
  | inr other ↦
      zero_of_full c n m (ground (arith, tally-le-length (λ (x : String × Degree). is_zero x.1) m))
        (ground (arith, other, e))
]

lookup-keys :
    (c : String) (n : Degree) (m : Degrees) → lookup c m ≡ some n → contains (keys m) c ≡ true
unfolding lookup
lookup-keys c n [] e = cc
lookup-keys c n ((k, v) ∷ m) e = ground (arith, lookup-keys c n m)

full_of_zero :
    (m : Degrees)
    → has_duplicate (keys m) ≡ false
    → ((c : String) (n : Degree) → lookup c m ≡ some n → is_zero n ≡ true)
    → zeros m ≡ length m
unfolding lookup
full_of_zero [] unique h = refl
full_of_zero ((k, v) ∷ m) unique h =
    let head : is_zero v ≡ true = h k v (rw (eq_refl k) refl) in
    let rest =
      full_of_zero m (ground arith)
        (λ c n e. h c n (ground (arith, e, lookup-keys c n m e, eq_iff k c))) in
    ground (arith, head, rest)

is_zero-count : (n : ℕ) → is_zero (count n) ≡ true → n ≡ 0
is_zero-count zero h = refl
is_zero-count (suc n) h = cc

module _ (steps : List WorkflowStep) (past : List String) (degrees : Degrees)
    (sorting : IsSorting steps [] past degrees) where
  met-done :
      (c : String)
      → contains (ids_of steps) c ≡ true
      → unmet steps c past ≡ 0
      → contains past c ≡ true
  met-done c known met = ground (arith, sorting.once c, known, met, contains-occurs past c)

  degree_of :
      (c : String)
      → contains (ids_of steps) c ≡ true
      → lookup c degrees ≡ some (count (unmet steps c past))
  degree_of c known =
      sorting.counts c ∙ ap (λ b. if b then some (count (unmet steps c past)) else none) known

  pub done_of_full :
      length past ≡ length steps
      → (c : String) → contains (ids_of steps) c ≡ true
      → contains past c ≡ true
  done_of_full full c known = met-done c known (
      is_zero-count (unmet steps c past) (
        zero_of_full c (count (unmet steps c past)) degrees
          (omega (
            arith,
            sorting.zero_count,
            full,
            length-keys degrees,
            length-ids_of steps,
            ap length sorting.named,
          ))
          (degree_of c known)))

  pub order-Ranks :
      (ss : List WorkflowStep)
      → ((c : String) → contains (ids_of ss) c ≡ true → contains past c ≡ true)
      → ((c : String) (done : List String) → unmet ss c done ≤ unmet steps c done)
      → Ranks (position past) ss
  unfolding unmet
  order-Ranks [] all_done within = tt
  order-Ranks (s ∷ ss) all_done within = (
    All-map s.dependencies (λ d before. before.1)
        (position-lt steps past s.step_id s.dependencies sorting.order
          (λ done. ground (arith, within s.step_id done, eq_refl s.step_id))
          (all_done s.step_id (ground (arith, eq_refl s.step_id)))),
    order-Ranks ss (λ c h. all_done c (ground (arith, h))) (λ c done. omega (arith, within c done)),
  )

abbrev pub EveryDepKnown : List WorkflowStep → List WorkflowStep → Type 0
EveryDepKnown steps = All (λ s. All (λ d. contains (ids_of steps) d ≡ true) s.dependencies)

tally_met :
    (steps : List WorkflowStep) (rank : String → ℕ) (past ds : List String) (top : ℕ)
    → ((d : String) → rank d < top → contains (ids_of steps) d ≡ true → contains past d ≡ true)
    → All (λ d. rank d < top) ds
    → All (λ d. contains (ids_of steps) d ≡ true) ds
    → tally (λ d. not (contains past d)) ds ≡ 0
tally_met steps rank past [] top below_done ranks known = refl
tally_met steps rank past (d ∷ ds) top below_done (lt, ranks) (here, known) =
    ground (arith, below_done d lt here, tally_met steps rank past ds top below_done ranks known)

unmet_of_Ranks :
    (steps ss : List WorkflowStep) (rank : String → ℕ) (past : List String) (c : String)
    → ((d : String) → rank d < rank c → contains (ids_of steps) d ≡ true → contains past d ≡ true)
    → Ranks rank ss
    → EveryDepKnown steps ss
    → unmet ss c past ≡ 0
unfolding unmet
unmet_of_Ranks steps [] rank past c below_done ranks known = refl
unmet_of_Ranks steps (s ∷ ss) rank past c below_done (ranks, rest) (here, known) =
    let others = unmet_of_Ranks steps ss rank past c below_done rest known in
    elim (Bool-cases (str_eq s.step_id c)) [
      | inl same ↦ ground (
        arith,
        same,
        others,
        tally_met steps rank past s.dependencies (rank c) below_done
            (subst (λ k. All (λ d. rank d < rank k) s.dependencies) ((eq_iff s.step_id c).0 same)
              ranks)
            here,
      )
      | inr other ↦ ground (arith, other, others)
    ]

module _ (steps : List WorkflowStep) (rank : String → ℕ) (ranks : Ranks rank steps)
    (known : EveryDepKnown steps steps) (past : List String) (degrees : Degrees)
    (sorting : IsSorting steps [] past degrees) where
  done_below :
      (bound : ℕ) (c : String)
      → rank c < bound
      → contains (ids_of steps) c ≡ true
      → contains past c ≡ true
  done_below zero c lt here = absurd (omega arith)
  done_below (suc bound) c lt here = met-done steps past degrees sorting c here (
      unmet_of_Ranks steps steps rank past c
        (λ d less there. done_below bound d (omega arith) there) ranks known)

  all_zero : (c : String) (n : Degree) → lookup c degrees ≡ some n → is_zero n ≡ true
  all_zero c n e =
      let here : contains (ids_of steps) c ≡ true =
        ap (λ ks. contains ks c) (sym sorting.named) ∙ lookup-keys c n degrees e in
      let met =
        unmet_of_Ranks steps steps rank past c (λ d less there. done_below (rank c) d less there)
          ranks known in
      ground (arith, e, degree_of steps past degrees sorting c here, met)

  pub full_of_Ranks : has_duplicate (ids_of steps) ≡ false → length past ≡ length steps
  full_of_Ranks unique =
      let full = full_of_zero degrees (ap has_duplicate sorting.named ∙ unique) all_zero in
      omega (
        arith,
        full,
        sorting.zero_count,
        length-keys degrees,
        length-ids_of steps,
        ap length sorting.named,
      )
