-- ===== src/Skills/Registry.antt =====
-- agent_control/skills/registry.py: `SkillRegistry`. The audit of a skill, which inspects its Python
-- source, is a parameter. The tests for an object that is no skill hold by the types.
use Prim.Native.Char.{code}
use freaky_monkey.Base.{
  String, Bool, false, Option, none, some, List, [], ◌∷◌, keep, not, ◌&&◌, str_eq, if◌then◌else◌,
}
use freaky_monkey.Base.Dict.{contains, lookup, insert, remove, has_key, keys, values}
use freaky_monkey.Base.Text.{is_space}
use freaky_monkey.Skills.Gate.{SkillAuditReport, is_planner_visible}

-- The name and the action kinds of `info`; `supports` is the method of the base class.
pub record Skill : Type 0 where
  pub name : String
  pub action_kinds : List String

abbrev pub supports : Skill → String → Bool
supports s kind = contains s.action_kinds kind

pub record SkillRegistry : Type 0 where
  pub skills : List (String × Skill)
  pub reports : List (String × SkillAuditReport)

abbrev pub no_skills : SkillRegistry
no_skills = record { skills = []; reports = [] }

pub data SkillError : Type 0 where
  empty_name already_registered unknown_skill ambiguous_action : SkillError

pub data Answer {ℓ} (A : Type ℓ) : Type ℓ where
  ok : A → Answer A
  raised : SkillError → Answer A

abbrev drop_spaces : String → String
drop_spaces String.[] = String.[]
drop_spaces (String.◌∷◌ c s) =
    let rest = drop_spaces s in if is_space (code c) then rest else String.◌∷◌ c s

abbrev backwards : String → String → String
backwards String.[] done = done
backwards (String.◌∷◌ c s) done = backwards s (String.◌∷◌ c done)

-- `name.strip()`
unfoldable pub strip_name : String → String
strip_name s = backwards (drop_spaces (backwards (drop_spaces s) String.[])) String.[]

abbrev pub approved_by : Option SkillAuditReport → Bool
approved_by none = false
approved_by (some r) = is_planner_visible r

abbrev pub is_visible : SkillRegistry → String × Skill → Bool
is_visible r (name, s) = approved_by (lookup name r.reports)

unfoldable pub planner_visible : SkillRegistry → List Skill
planner_visible r = values (keep (is_visible r) r.skills)

unfoldable pub restricted : SkillRegistry → List Skill
restricted r = values (keep (λ e. not (is_visible r e)) r.skills)

abbrev pub serves : SkillRegistry → String → String × Skill → Bool
serves r kind (name, s) = is_visible r (name, s) && supports s kind

abbrev pub sole : List Skill → Answer (Option Skill)
sole [] = ok none
sole (s ∷ []) = ok (some s)
sole (s ∷ t ∷ ss) = raised ambiguous_action

unfoldable pub find_for_action : String → SkillRegistry → Answer (Option Skill)
find_for_action kind r = sole (values (keep (serves r kind) r.skills))

module _ (audit : Skill → SkillAuditReport) where
  unfoldable pub register : Skill → SkillRegistry → SkillRegistry × Answer SkillAuditReport
  register s r =
      let name = strip_name s.name in
      if str_eq name ""
      then (r, raised empty_name)
      else if has_key name r.skills
      then (r, raised already_registered)
      else (
        record { skills = insert name s r.skills; reports = insert name (audit s) r.reports },
        ok (audit s),
      )

  unfoldable pub refresh_audit : String → SkillRegistry → SkillRegistry × Answer SkillAuditReport
  refresh_audit name r = elim (lookup name r.skills) [
    | none ↦ (r, raised unknown_skill)
    | some s ↦ (record r { reports = insert name (audit s) r.reports }, ok (audit s))
  ]

  unfoldable pub refresh_all : List String → SkillRegistry → SkillRegistry
  unfolding refresh_audit
  refresh_all [] r = r
  refresh_all (k ∷ ks) r = refresh_all ks (refresh_audit k r).0

  unfoldable pub refresh_all_audits : SkillRegistry → SkillRegistry
  unfolding refresh_all
  refresh_all_audits r = refresh_all (keys r.skills) r

unfoldable pub unregister : String → SkillRegistry → SkillRegistry × Option Skill
unregister name r = (
  record { skills = remove name r.skills; reports = remove name r.reports },
  lookup name r.skills,
)
