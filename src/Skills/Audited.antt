-- ===== src/Skills/Audited.antt =====
-- agent_control/skills/registry.py: every registered skill has the report of its own audit.
use freaky_monkey.Base.{
  String, true, false, Option, none, some, List, [], ◌∷◌, ◌≡◌, sym, ap, subst, arith, All,
  All-map_of, eq_iff, eq_refl, str_eq, inl, inr, Bool-cases, Option-cases,
}
use freaky_monkey.Base.Dict.{lookup, insert, remove, keys, lookup-insert, lookup-remove, has_key}
use freaky_monkey.Skills.Gate.{SkillAuditReport}
use freaky_monkey.Skills.Registry.{
  Skill, SkillRegistry, register, unregister, refresh_audit, refresh_all, refresh_all_audits,
  strip_name,
}

-- Each entry is the one that its key finds: there is one entry for a key.
abbrev pub IsDict : List (String × Skill) → Type 0
IsDict d = All (λ e. lookup e.0 d ≡ some e.1) d

lookup-insert_absent :
    (name k : String) (s t : Skill) (d : List (String × Skill))
    → lookup name d ≡ none
    → lookup k d ≡ some t
    → lookup k (insert name s d) ≡ some t
lookup-insert_absent name k s t d absent found =
    ground (arith, eq_iff name k, lookup-insert name k s d, ap (λ j. lookup j d))

insert-All :
    (P : String × Skill → Type 0) (name : String) (s : Skill) (d : List (String × Skill))
    → All P d
    → ((k : String) → str_eq k name ≡ true → P (k, s))
    → All P (insert name s d)
unfolding insert
insert-All P name s [] h p = (p name (eq_refl name), tt)
insert-All P name s ((j, t) ∷ d) h p = elim (Bool-cases (str_eq j name)) [
  | inl e ↦ rw e (p j e, h.1)
  | inr e ↦ rw e (h.0, insert-All P name s d h.1 p)
]

remove-All :
    (P : String × Skill → Type 0) (name : String) (d : List (String × Skill))
    → All P d
    → All (λ e. (str_eq e.0 name ≡ false) × P e) (remove name d)
unfolding remove
remove-All P name [] h = tt
remove-All P name ((j, t) ∷ d) h = elim (Bool-cases (str_eq j name)) [
  | inl e ↦ rw e (remove-All P name d h.1)
  | inr e ↦ rw e ((e, h.0), remove-All P name d h.1)
]

insert-IsDict :
    (name : String) (s : Skill) (d : List (String × Skill))
    → IsDict d
    → lookup name d ≡ none
    → IsDict (insert name s d)
insert-IsDict name s d h absent =
    let P = λ (e : String × Skill). lookup e.0 (insert name s d) ≡ some e.1 in
    insert-All P name s d
      (All-map_of (λ e. lookup e.0 d ≡ some e.1) P d
        (λ e found. lookup-insert_absent name e.0 s e.1 d absent found) h)
      (λ k e. ground (arith, eq_iff k name, eq_iff name k, lookup-insert name k s d))

remove-IsDict : (name : String) (d : List (String × Skill)) → IsDict d → IsDict (remove name d)
remove-IsDict name d h =
    let P = λ (e : String × Skill). lookup e.0 d ≡ some e.1 in
    All-map_of (λ e. (str_eq e.0 name ≡ false) × P e) (λ e. lookup e.0 (remove name d) ≡ some e.1)
      (remove name d) (λ e h. kept_lookup e.0 e.1 h.0 h.1) (remove-All P name d h)
  where
    kept_lookup :
        (k : String) (s : Skill)
        → str_eq k name ≡ false
        → lookup k d ≡ some s
        → lookup k (remove name d) ≡ some s
    kept_lookup k s other found =
        ground (arith, eq_iff k name, eq_iff name k, lookup-remove name k d)

module _ (audit : Skill → SkillAuditReport) where
  abbrev pub audited : Option Skill → Option SkillAuditReport
  audited none = none
  audited (some s) = some (audit s)

  abbrev pub IsAudited : SkillRegistry → Type 0
  IsAudited r = (k : String) → lookup k r.reports ≡ audited (lookup k r.skills)

  register-IsAudited :
      (s : Skill) (r : SkillRegistry) → IsAudited r → IsAudited (register audit s r).0
  unfolding register
  register-IsAudited s r h k =
      let name = strip_name s.name in
      ground (arith, h k, lookup-insert name k s r.skills, lookup-insert name k (audit s) r.reports)

  unregister-IsAudited :
      (name : String) (r : SkillRegistry) → IsAudited r → IsAudited (unregister name r).0
  unfolding unregister
  unregister-IsAudited name r h k =
      ground (arith, h k, lookup-remove name k r.skills, lookup-remove name k r.reports)

  refresh-IsAudited :
      (name : String) (r : SkillRegistry) → IsAudited r → IsAudited (refresh_audit audit name r).0
  unfolding refresh_audit
  refresh-IsAudited name r h k = elim (Option-cases (lookup name r.skills)) [
    | inl absent ↦ rw (absent, refresh_audit) (h k)
    | inr (s, found) ↦
        rw (found, refresh_audit) ground
          (arith, h k, eq_iff name k, lookup-insert name k (audit s) r.reports)
  ]

  -- The operations that change the registry.
  pub data Operation : Type 0 where
    register_skill : Skill → Operation
    unregister_skill refresh_skill : String → Operation
    refresh_skills : Operation

  unfoldable pub perform : Operation → SkillRegistry → SkillRegistry
  perform (register_skill s) r = (register audit s r).0
  perform (unregister_skill name) r = (unregister name r).0
  perform (refresh_skill name) r = (refresh_audit audit name r).0
  perform refresh_skills r = refresh_all_audits audit r

  unfoldable pub perform_all : List Operation → SkillRegistry → SkillRegistry
  unfolding perform
  perform_all [] r = r
  perform_all (op ∷ ops) r = perform_all ops (perform op r)

  -- The two tables agree, and the skills have one entry for a name.
  abbrev pub IsValid : SkillRegistry → Type 0
  IsValid r = IsDict r.skills × IsAudited r

  register-IsDict :
      (s : Skill) (r : SkillRegistry) → IsDict r.skills → IsDict (register audit s r).0.skills
  unfolding register
  register-IsDict s r h =
      let name = strip_name s.name in
      elim (Bool-cases (str_eq name "")) [
        | inl e ↦ rw (e, register) h
        | inr e ↦ elim (Option-cases (lookup name r.skills)) [
          | inr (t, found) ↦ rw (e, found, register, has_key) h
          | inl absent ↦ rw (e, absent, register, has_key) (insert-IsDict name s r.skills h absent)
        ]
      ]

  refresh_audit-skills :
      (name : String) (r : SkillRegistry) → (refresh_audit audit name r).0.skills ≡ r.skills
  unfolding refresh_audit
  refresh_audit-skills name r = ground arith

  refresh_all-IsValid :
      (ks : List String) (r : SkillRegistry) → IsValid r → IsValid (refresh_all audit ks r)
  unfolding refresh_all
  refresh_all-IsValid [] r h = h
  refresh_all-IsValid (k ∷ ks) r h =
      refresh_all-IsValid ks (refresh_audit audit k r).0
        (subst IsDict (sym (refresh_audit-skills k r)) h.0, refresh-IsAudited k r h.1)

  perform-IsValid : (op : Operation) (r : SkillRegistry) → IsValid r → IsValid (perform op r)
  unfolding perform refresh_all_audits unregister
  perform-IsValid (register_skill s) r h = (register-IsDict s r h.0, register-IsAudited s r h.1)
  perform-IsValid (unregister_skill name) r h =
      (remove-IsDict name r.skills h.0, unregister-IsAudited name r h.1)
  perform-IsValid (refresh_skill name) r h =
      (subst IsDict (sym (refresh_audit-skills name r)) h.0, refresh-IsAudited name r h.1)
  perform-IsValid refresh_skills r h = refresh_all-IsValid (keys r.skills) r h

  -- After any run of registrations, removals and new audits, from a valid registry, each skill has
  -- one entry and its report is that of its own audit, and no report is left without its skill.
  pub perform_all-IsValid :
      (ops : List Operation) (r : SkillRegistry) → IsValid r → IsValid (perform_all ops r)
  unfolding perform_all
  perform_all-IsValid [] r h = h
  perform_all-IsValid (op ∷ ops) r h =
      perform_all-IsValid ops (perform op r) (perform-IsValid op r h)
