-- ===== src/Examples/Skilled.antt =====
-- The registry of agent_control/skills with one skill that its audit approves.
use mathlib.Core.List.Perm
use freaky_monkey.Base.{String, true, some, [], ◌∷◌, ◌≡◌, refl, arith, eq_iff}
use freaky_monkey.Base.Dict.{lookup}
use freaky_monkey.Skills.Gate.{SkillStatus, SkillAuditReport, is_planner_visible}
use freaky_monkey.Skills.Registry.{Skill, SkillRegistry, ok, supports, find_for_action}
use freaky_monkey.Skills.Audited.{
  IsValid, register_skill, refresh_skills, perform_all, perform_all-IsValid,
}
use freaky_monkey.Skills.Dispatch.{find_for_action-IsApproved}
use freaky_monkey.Skills.Ordering.{find_for_action-perm}

abbrev report_of : SkillStatus → SkillAuditReport
report_of status = record {
  skill_name = "browser";
  declared_capabilities = [];
  observed_capabilities = [];
  findings = [];
  status = status;
  source_available = true;
}

abbrev trusting : Skill → SkillAuditReport
trusting s = report_of SkillStatus.approved

abbrev browser : Skill
browser = record { name = "browser"; action_kinds = "open_url" ∷ [] }

abbrev one_skill : SkillRegistry
one_skill = record {
  skills = ("browser", browser) ∷ [];
  reports = ("browser", trusting browser) ∷ [];
}

one_skill-IsValid : IsValid trusting one_skill
unfolding lookup
one_skill-IsValid = ((refl, tt), λ k. ground (arith, eq_iff "browser" k))

perform_all-IsValid_example :
    IsValid trusting (perform_all trusting (register_skill browser ∷ refresh_skills ∷ []) one_skill)
perform_all-IsValid_example =
    perform_all-IsValid trusting (register_skill browser ∷ refresh_skills ∷ []) one_skill
      one_skill-IsValid

open_url_found : find_for_action "open_url" one_skill ≡ ok (some browser)
unfolding find_for_action lookup is_planner_visible
open_url_found = refl

find_for_action-IsApproved_example :
    (name : String) × (lookup name one_skill.skills ≡ some browser)
    × (is_planner_visible (report_of SkillStatus.approved) ≡ true)
    × (supports browser "open_url" ≡ true)
find_for_action-IsApproved_example =
    find_for_action-IsApproved trusting one_skill "open_url" browser one_skill-IsValid
      open_url_found

abbrev mail : Skill
mail = record { name = "mail"; action_kinds = "gmail_read_mail" ∷ [] }

abbrev two_skills : SkillRegistry
two_skills = record {
  skills = ("browser", browser) ∷ ("mail", mail) ∷ [];
  reports = ("browser", trusting browser) ∷ ("mail", trusting mail) ∷ [];
}

find_for_action-perm_example :
    find_for_action "open_url" two_skills
    ≡ find_for_action "open_url"
        (record two_skills { skills = ("mail", mail) ∷ ("browser", browser) ∷ [] })
find_for_action-perm_example =
    find_for_action-perm "open_url" two_skills (("mail", mail) ∷ ("browser", browser) ∷ [])
      (Perm.swap ("mail", mail) ("browser", browser) [])
