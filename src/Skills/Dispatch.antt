-- ===== src/Skills/Dispatch.antt =====
-- agent_control/skills: what reaches the planner and what is dispatched.
use freaky_monkey.Base.{
  String, true, some, List, [], ◌∷◌, ◌≡◌, ◌↔◌, refl, sym, ap, ◌∙◌, subst, arith, All, All-keep,
  All-map_of, and-true→, keep, length, ◌+◌, not,
}
use freaky_monkey.Base.Dict.{lookup, values}
use freaky_monkey.Skills.Gate.{SkillAuditReport, is_planner_visible, blocked_reason, not_blocked}
use freaky_monkey.Skills.Registry.{
  Skill, SkillRegistry, ok, supports, approved_by, is_visible, serves, sole, find_for_action,
  planner_visible, restricted,
}
use freaky_monkey.Skills.Audited.{IsAudited, IsValid, audited}

-- A report has no reason to be blocked exactly when its skill is approved.
pub blocked_reason-visible :
    (r : SkillAuditReport) → (blocked_reason r ≡ not_blocked) ↔ (is_planner_visible r ≡ true)
unfolding blocked_reason
blocked_reason-visible r = (λ h. ground arith, λ h. ground arith)

-- Each registered skill is either visible to the planner or restricted, never both.
pub planner_visible-restricted :
    (r : SkillRegistry) → length (planner_visible r) + length (restricted r) ≡ length r.skills
unfolding planner_visible restricted
planner_visible-restricted r = split r.skills
  where
    split :
        (d : List (String × Skill))
        → length (values (keep (is_visible r) d))
            + length (values (keep (λ e. not (is_visible r e)) d))
          ≡ length d
    split [] = refl
    split (e ∷ d) = ground (arith, split d)

sole_same : (t s : Skill) → ok (some t) ≡ ok (some s) → t ≡ s
sole_same t s e = cc

-- A skill that is served stands in the list.
sole-All :
    (P : String × Skill → Type 0) (d : List (String × Skill)) (s : Skill)
    → All P d
    → sole (values d) ≡ ok (some s)
    → (k : String) × P (k, s)
sole-All P [] s h e = absurd (ground arith)
sole-All P ((k, t) ∷ []) s h e = (k, subst (λ u. P (k, u)) (sole_same t s e) h.0)
sole-All P ((k, t) ∷ f ∷ d) s h e = absurd (ground arith)

module _ (audit : Skill → SkillAuditReport) (r : SkillRegistry) (kind : String) where
  abbrev Serving : String × Skill → Type 0
  Serving e = (lookup e.0 r.skills ≡ some e.1) × (serves r kind e ≡ true)

  All-Serving :
      (d : List (String × Skill))
      → All (λ e. lookup e.0 r.skills ≡ some e.1) d
      → All Serving (keep (serves r kind) d)
  All-Serving d h = All-keep (serves r kind) Serving d (
      All-map_of (λ e. lookup e.0 r.skills ≡ some e.1) (λ e. serves r kind e ≡ true → Serving e) d
        (λ e found yes. (found, yes)) h)

  audit_visible :
      (k : String) (s : Skill)
      → IsAudited audit r
      → lookup k r.skills ≡ some s
      → is_visible r (k, s) ≡ true
      → is_planner_visible (audit s) ≡ true
  audit_visible k s h found seen = ap approved_by (sym (h k ∙ ap (audited audit) found)) ∙ seen

  -- In a valid registry the skill that `find_for_action` dispatches an action to is registered, its
  -- own audit approves it, and it supports the action.
  pub find_for_action-IsApproved :
      (s : Skill)
      → IsValid audit r
      → find_for_action kind r ≡ ok (some s)
      → (name : String) × (lookup name r.skills ≡ some s)
        × (is_planner_visible (audit s) ≡ true)
        × (supports s kind ≡ true)
  unfolding find_for_action
  find_for_action-IsApproved s h e =
      let (name, found_served) =
        sole-All Serving (keep (serves r kind) r.skills) s (All-Serving r.skills h.0) e in
      let found = found_served.0 in
      let served = found_served.1 in
      (
        name,
        found,
        audit_visible name s h.1 found
            (and-true→ (is_visible r (name, s)) (supports s kind) served).0,
        (and-true→ (is_visible r (name, s)) (supports s kind) served).1,
      )
