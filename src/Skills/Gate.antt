-- ===== src/Skills/Gate.antt =====
-- agent_control/skills/status.py and gate.py, with the fields of a skill (base.py) and of an audit
-- report that they read. Capabilities and severities are their texts, and a set is a list.
use freaky_monkey.Base.{
  String, Bool, true, false, Option, none, some, List, [], ◌∷◌, map, keep, not, str_eq,
  if◌then◌else◌,
}
use freaky_monkey.Base.Dict.{contains}

pub data SkillStatus : Type 0 where
  discovered approved restricted quarantined blocked : SkillStatus

abbrev pub is_approved : SkillStatus → Bool
is_approved approved = true
is_approved _ = false

abbrev pub is_quarantined : SkillStatus → Bool
is_quarantined quarantined = true
is_quarantined _ = false

abbrev pub is_blocked : SkillStatus → Bool
is_blocked blocked = true
is_blocked _ = false

pub record SecurityFinding : Type 0 where
  pub message : String
  pub severity : String
  pub capability : Option String

pub record SkillAuditReport : Type 0 where
  pub skill_name : String
  pub declared_capabilities : List String
  pub observed_capabilities : List String
  pub findings : List SecurityFinding
  pub status : SkillStatus
  pub source_available : Bool

abbrev pub unexpected_capabilities : SkillAuditReport → List String
unexpected_capabilities r =
    keep (λ c. not (contains r.declared_capabilities c)) r.observed_capabilities

-- `is_planner_visible`
unfoldable pub is_planner_visible : SkillAuditReport → Bool
is_planner_visible r = is_approved r.status

unfoldable pub planner_visible_reports : List SkillAuditReport → List SkillAuditReport
unfolding is_planner_visible
planner_visible_reports = keep is_planner_visible

-- What the text of `blocked_reason` says, with the messages and capabilities that it lists.
pub data BlockedReason : Type 0 where
  not_blocked source_missing critical_findings gate_not_passed : BlockedReason
  disallowed_behavior needs_review undeclared : List String → BlockedReason

abbrev is_critical : SecurityFinding → Bool
is_critical f = str_eq f.severity "CRITICAL"

abbrev is_dynamic : SecurityFinding → Bool
is_dynamic f = elim f.capability [ none ↦ false | some c ↦ str_eq c "dynamic_code" ]

abbrev messages : (SecurityFinding → Bool) → SkillAuditReport → List String
messages p r = map (λ f. f.message) (keep p r.findings)

-- The branches after the one on critical findings.
abbrev other_reason : SkillAuditReport → BlockedReason
other_reason r =
    if is_quarantined r.status
    then needs_review (messages is_dynamic r)
    else elim (unexpected_capabilities r) [
      | c ∷ cs ↦ undeclared (c ∷ cs)
      | [] ↦ if is_blocked r.status then critical_findings else gate_not_passed
    ]

unfoldable pub blocked_reason : SkillAuditReport → BlockedReason
unfolding is_planner_visible
blocked_reason r =
    if is_planner_visible r
    then not_blocked
    else if not r.source_available
    then source_missing
    else elim (messages is_critical r) [
      | c ∷ cs ↦ disallowed_behavior (c ∷ cs)
      | [] ↦ other_reason r
    ]
