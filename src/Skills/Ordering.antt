-- ===== src/Skills/Ordering.antt =====
-- agent_control/skills/registry.py: `find_for_action` and the order of registration.
use mathlib.Core.List.{Perm, Permᴰ}
use mathlib.Core.Logic.{∥∥₁_elim}
use mathlib.Core.HLevel.{hedberg}
use freaky_monkey.Base.{
  String, Bool, true, false, Option, List, [], ◌∷◌, ◌≡◌, refl, ap, ◌∙◌, arith, keep, str_eq, eq_iff,
  Bool-cases, inl, inr,
}
use freaky_monkey.Base.Dict.{values}
use freaky_monkey.Skills.Registry.{Skill, SkillRegistry, Answer, serves, sole, find_for_action}

-- The sole one of the skills that pass a test, each with its name.
abbrev sole_of : (String × Skill → Bool) → List (String × Skill) → Answer (Option Skill)
sole_of p d = sole (values (keep p d))

-- How many skills are left, as far as `sole` looks.
abbrev is_empty : List Skill → Bool
is_empty [] = true
is_empty (s ∷ ss) = false

sole-cons :
    (s : Skill) (ss ts : List Skill) → is_empty ss ≡ is_empty ts → sole (s ∷ ss) ≡ sole (s ∷ ts)
sole-cons s [] [] h = refl
sole-cons s (t ∷ ss) (u ∷ ts) h = refl
sole-cons s [] (u ∷ ts) h = cc
sole-cons s (t ∷ ss) [] h = cc

module _ (p : String × Skill → Bool) where
  empty-permᴰ :
      (d e : List (String × Skill))
      → Permᴰ d e
      → is_empty (values (keep p d)) ≡ is_empty (values (keep p e))
  empty-permᴰ _ _ Permᴰ.nil = refl
  empty-permᴰ _ _ (Permᴰ.cons {l₁ = d} {l₂ = e} same h) =
      ground (arith, ap p same, empty-permᴰ d e h)
  empty-permᴰ _ _ (Permᴰ.swap same same') = ground (arith, ap p same, ap p same')
  empty-permᴰ d f (Permᴰ.trans {l₂ = e} h k) = empty-permᴰ d e h ∙ empty-permᴰ e f k

  sole-swap :
      (a b : String × Skill) (d : List (String × Skill))
      → sole_of p (a ∷ b ∷ d) ≡ sole_of p (b ∷ a ∷ d)
  sole-swap a b d = elim (Bool-cases (p a)) [
    | inl first ↦ elim (Bool-cases (p b)) [
      | inl second ↦ rw (first, second) refl
      | inr other ↦ rw (first, other) refl
    ]
    | inr other ↦ rw other refl
  ]

  sole-permᴰ : (d e : List (String × Skill)) → Permᴰ d e → sole_of p d ≡ sole_of p e
  sole-permᴰ _ _ Permᴰ.nil = refl
  sole-permᴰ _ _ (Permᴰ.cons {a = x} {b = y} {l₁ = d} {l₂ = e} same h) = elim (Bool-cases (p x)) [
    | inl served ↦
        rw served (sole-cons x.1 (values (keep p d)) (values (keep p e)) (empty-permᴰ d e h))
        ∙ ap (λ z. sole_of p (z ∷ e)) same
    | inr other ↦ rw other (sole-permᴰ d e h) ∙ ap (λ z. sole_of p (z ∷ e)) same
  ]
  sole-permᴰ _ _ (Permᴰ.swap {a = a} {b = b} {l = d} same same') =
      sole-swap a b d ∙ cc (same, same')
  sole-permᴰ d f (Permᴰ.trans {l₂ = e} h k) = sole-permᴰ d e h ∙ sole-permᴰ e f k

String-discrete : Discrete String
String-discrete s t = elim (Bool-cases (str_eq s t)) [
  | inl same ↦ yes ((eq_iff s t).0 same)
  | inr other ↦ no (λ e. cc ((eq_iff s t).1 e, other))
]

String-set : IsSet String
String-set = hedberg String-discrete

Answer-set : IsSet (Answer (Option Skill))
Answer-set = hlevel (String-set)

-- Which skill `find_for_action` gives, or that it raises, does not depend on the order in which the skills
-- were registered.
pub find_for_action-perm :
    (kind : String) (r : SkillRegistry) (d : List (String × Skill))
    → Perm r.skills d
    → find_for_action kind r ≡ find_for_action kind (record r { skills = d })
unfolding find_for_action
find_for_action-perm kind r d h =
    ∥∥₁_elim h (Answer-set _ _) (sole-permᴰ (serves r kind) r.skills d)
