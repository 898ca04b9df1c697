-- ===== src/Workflow/Placed.antt =====
-- agent_control/workflow/models.py: in a list of steps with distinct names in which each depends on steps
-- before it, the place of a step ranks it.
use freaky_monkey.Base.{
  suc, ◌≤◌, String, true, false, List, [], ◌∷◌, ◌≡◌, ◌≢◌, refl, ap, ◌∙◌, arith, All, str_eq, eq_iff,
  eq_refl, ◌⊎◌, inl, inr, Bool-cases, length,
}
use freaky_monkey.Base.Dict.{contains}
use freaky_monkey.Workflow.Model.{WorkflowStep}
use freaky_monkey.Workflow.Graph.{ids_of}
use freaky_monkey.Workflow.Ranking.{Ranks, position, position-le, All-map}
use freaky_monkey.Workflow.Accepted.{IsDistinct}
use freaky_monkey.Workflow.Inferred.{IsOrdered}

-- Distinct names that are none of the first.
unfoldable pub Fresh : List String → List String → Type 0
Fresh past [] = Unit
Fresh past (k ∷ ks) = (contains past k ≡ false) × Fresh (k ∷ past) ks

Fresh-ne :
    (past ks : List String) (d : String)
    → Fresh past ks
    → contains past d ≡ true
    → All (λ j. j ≢ d) ks
unfolding Fresh
Fresh-ne past [] d h there = tt
Fresh-ne past (k ∷ ks) d (new, h) there = (
  λ e. absurd (ground (arith, ap (contains past) e, new, there)),
  Fresh-ne (k ∷ past) ks d h (ground (arith, there)),
)

pub Fresh-IsDistinct : (past ks : List String) → Fresh past ks → IsDistinct ks
unfolding Fresh
Fresh-IsDistinct past [] h = tt
Fresh-IsDistinct past (k ∷ ks) (new, h) =
    (Fresh-ne (k ∷ past) ks k h (ground (arith, eq_refl k)), Fresh-IsDistinct (k ∷ past) ks h)

-- All names, the last one first.
unfoldable pub onto : List String → List String → List String
onto [] past = past
onto (k ∷ ks) past = onto ks (k ∷ past)

position-onto :
    (past ks : List String) (d : String)
    → Fresh past ks
    → contains past d ≡ true
    → position (onto ks past) d ≡ position past d
unfolding Fresh onto position
position-onto past [] d h there = refl
position-onto past (k ∷ ks) d (new, h) there =
    position-onto (k ∷ past) ks d h (ground (arith, there)) ∙ other (Bool-cases (str_eq k d))
  where
    other : (str_eq k d ≡ true) ⊎ (str_eq k d ≡ false) → position (k ∷ past) d ≡ position past d
    other (inl same) = absurd (ground (arith, ap (contains past) ((eq_iff k d).0 same), new, there))
    other (inr apart) = rw apart refl

top_position : (k : String) (past : List String) → position (k ∷ past) k ≡ suc (length past)
unfolding position
top_position k past = rw (eq_refl k) refl

below_top :
    (k : String) (past : List String) (d : String)
    → contains past k ≡ false
    → contains past d ≡ true
    → position (k ∷ past) d ≤ length past
unfolding position
below_top k past d new there = elim (Bool-cases (str_eq k d)) [
  | inl same ↦ absurd (ground (arith, ap (contains past) ((eq_iff k d).0 same), new, there))
  | inr apart ↦ rw apart (position-le past d)
]

pub ordered-Ranks :
    (recent ss : List WorkflowStep)
    → IsOrdered recent ss
    → Fresh (ids_of recent) (ids_of ss)
    → Ranks (position (onto (ids_of ss) (ids_of recent))) ss
unfolding Fresh onto
ordered-Ranks recent [] h fresh = tt
ordered-Ranks recent (s ∷ ss) (deps, h) (new, fresh) = (
  All-map s.dependencies
      (λ d there. omega (
        arith,
        position-onto (s.step_id ∷ ids_of recent) (ids_of ss) d fresh (later d there),
        position-onto (s.step_id ∷ ids_of recent) (ids_of ss) s.step_id fresh
            (ground (arith, eq_refl s.step_id)),
        below d there,
        top,
      ))
      deps,
  ordered-Ranks (s ∷ recent) ss h fresh,
)
  where
    later :
        (d : String)
        → contains (ids_of recent) d ≡ true
        → contains (s.step_id ∷ ids_of recent) d ≡ true
    later d there = ground (arith, there)

    top : position (s.step_id ∷ ids_of recent) s.step_id ≡ suc (length (ids_of recent))
    top = top_position s.step_id (ids_of recent)

    below :
        (d : String)
        → contains (ids_of recent) d ≡ true
        → position (s.step_id ∷ ids_of recent) d ≤ length (ids_of recent)
    below d there = below_top s.step_id (ids_of recent) d new there
