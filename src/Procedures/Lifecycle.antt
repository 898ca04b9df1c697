-- ===== src/Procedures/Lifecycle.antt =====
-- agent_control/procedure_store.py: what the writes of the store do to the status of a procedure.
use freaky_monkey.Base.{
  ℕ, String, Bool, true, false, Option, none, some, List, ◌≡◌, ◌⊎◌, inl, inr, refl, ap, arith,
  subst, Bool-cases, not, ◌||◌, str_eq, eq_iff, Option-cases,
}
use freaky_monkey.Base.Dict.{lookup, insert, has_key, lookup-insert_hit, lookup-insert_miss}
use freaky_monkey.Procedures.Model.{
  ProcedureStatus, candidate, validating, active, degraded, invalidated, retired, allowed,
  LearnedProcedure, Secrets, is_well_formed,
}
use freaky_monkey.Procedures.Store.{
  ValidationEvent, ProcedureStore, Stored, StoreError, ok, raised, ◌>>=◌, ◌>>◌, refuse_if,
  is_active, existing, get_procedure, insert_procedure, create_procedure, create_new_version,
  same_status, update_procedure, set_status, record_count, Counter, success, failure, unknown,
  record_validation_event, put, or_empty, counted, value_error, integrity_error, has_version,
  parent_missing,
}

-- What may become of the row of one key: it keeps its status or takes an allowed one, and a new row is
-- not active.
abbrev pub Evolves : Option LearnedProcedure → Option LearnedProcedure → Type 0
Evolves none none = Unit
Evolves none (some q) = is_active q.status ≡ false
Evolves (some p) none = ⊥
Evolves (some p) (some q) = (p.status ≡ q.status) ⊎ (allowed p.status q.status ≡ true)

abbrev pub IsLawful : ProcedureStore → ProcedureStore → Type 0
IsLawful st after = (j : String) → Evolves (lookup j st.procedures) (lookup j after.procedures)

pub Evolves-refl : (o : Option LearnedProcedure) → Evolves o o
Evolves-refl none = tt
Evolves-refl (some p) = inl refl

-- A write of one row is lawful when the row evolves.
pub insert-IsLawful :
    (st : ProcedureStore) (k : String) (q : LearnedProcedure)
    → Evolves (lookup k st.procedures) (some q)
    → IsLawful st (record st { procedures = insert k q st.procedures })
insert-IsLawful st k q h j = elim (Bool-cases (str_eq k j)) [
  | inl same ↦
      rw (lookup-insert_hit k j q st.procedures same) (
        subst (λ i. Evolves (lookup i st.procedures) (some q)) (ground (arith, same, eq_iff k j)) h)
  | inr other ↦
      rw (lookup-insert_miss k j q st.procedures other) (Evolves-refl (lookup j st.procedures))
]

-- The steps of a chain that ends.
pub refuse_if-eq-ok {ℓ} :
    {A : Type ℓ} (test : Bool) (e : StoreError) (k : Stored A) {a : A}
    → (refuse_if test e >> k) ≡ ok a
    → (test ≡ false) × (k ≡ ok a)
refuse_if-eq-ok true e k h = cc
refuse_if-eq-ok false e k h = (refl, h)

pub existing-eq-ok {ℓ} :
    {A : Type ℓ} (st : ProcedureStore) (k : String) (f : LearnedProcedure → Stored A) {a : A}
    → (existing st k >>= f) ≡ ok a
    → (p : LearnedProcedure) × (get_procedure st k ≡ some p) × (f p ≡ ok a)
existing-eq-ok st k f h = elim (Option-cases (get_procedure st k)) [
  | inl gone ↦ absurd (ground (arith, gone))
  | inr (p, there) ↦ (p, there, ground (arith, there))
]

pub ok-injective : {st after : ProcedureStore} → ok st ≡ ok after → st ≡ after
ok-injective e = cc

same_status→≡ : (a b : ProcedureStatus) → same_status a b ≡ true → a ≡ b
same_status→≡ candidate candidate h = refl
same_status→≡ validating validating h = refl
same_status→≡ active active h = refl
same_status→≡ degraded degraded h = refl
same_status→≡ invalidated invalidated h = refl
same_status→≡ retired retired h = refl
same_status→≡ _ _ h = cc

pub not-false→ : (b : Bool) → not b ≡ false → b ≡ true
not-false→ b h = ground arith

pub or-false→ : (a b : Bool) → (a || b) ≡ false → a ≡ false
or-false→ a b h = ground arith

-- A key that is not there may be given to a row that is not active.
absent-Evolves :
    (k : String) (rows : List (String × LearnedProcedure)) (q : LearnedProcedure)
    → has_key k rows ≡ false
    → is_active q.status ≡ false
    → Evolves (lookup k rows) (some q)
absent-Evolves k rows q fresh inactive = elim (Option-cases (lookup k rows)) [
  | inl gone ↦ rw gone inactive
  | inr (p, there) ↦ absurd (ground (arith, there))
]

present-Evolves :
    (st : ProcedureStore) (k : String) (p q : LearnedProcedure)
    → get_procedure st k ≡ some p
    → (p.status ≡ q.status) ⊎ (allowed p.status q.status ≡ true)
    → Evolves (lookup k st.procedures) (some q)
unfolding get_procedure
present-Evolves st k p q there h = rw there h

insert_procedure-IsLawful :
    (st : ProcedureStore) (p : LearnedProcedure) {after : ProcedureStore}
    → is_active p.status ≡ false
    → insert_procedure st p ≡ ok after
    → IsLawful st after
unfolding insert_procedure
insert_procedure-IsLawful st p inactive h =
    let (fresh, e) =
      refuse_if-eq-ok
        (has_key p.procedure_id st.procedures
          || has_version st p.name p.version
          || parent_missing st p)
        integrity_error (ok (put st p)) h in
    subst (IsLawful st) (ok-injective e) (
      insert-IsLawful st p.procedure_id p (
        absent-Evolves p.procedure_id st.procedures p (or-false→ _ _ (or-false→ _ _ fresh))
          inactive))

pub create_procedure-IsLawful :
    (found : Secrets) (st : ProcedureStore) (p : LearnedProcedure) {after : ProcedureStore}
    → create_procedure found st p ≡ ok after
    → IsLawful st after
unfolding create_procedure
create_procedure-IsLawful found st p h =
    let (_, e) = refuse_if-eq-ok _ value_error _ h in
    let (inactive, e1) = refuse_if-eq-ok (is_active p.status) value_error _ e in
    let (_, e2) = refuse_if-eq-ok _ value_error (insert_procedure st p) e1 in
    insert_procedure-IsLawful st p inactive e2

pub set_status-IsLawful :
    (st : ProcedureStore) (now : ℕ) (k : String) (target : ProcedureStatus) {after : ProcedureStore}
    → set_status st now k target ≡ ok after
    → IsLawful st after
unfolding set_status
set_status-IsLawful st now k target h =
    let (p, there, e) = existing-eq-ok st k _ h in
    let (lawful, e1) = refuse_if-eq-ok (not (allowed p.status target)) value_error _ e in
    subst (IsLawful st) (ok-injective e1) (
      insert-IsLawful st k (record p { status = target; updated_at = now })
        (present-Evolves st k p (record p { status = target; updated_at = now }) there
          (inr (not-false→ _ lawful))))

version_parent :
    (st : ProcedureStore) (k : String) (f : LearnedProcedure → Stored ProcedureStore)
    {after : ProcedureStore}
    → elim (get_procedure st k) as (λ _. Stored ProcedureStore) [
      | none ↦ raised value_error
      | some p ↦ f p
    ]
      ≡ ok after
    → (p : LearnedProcedure) × (f p ≡ ok after)
version_parent st k f h = elim (Option-cases (get_procedure st k)) [
  | inl gone ↦ absurd (ground (arith, gone))
  | inr (p, there) ↦ (p, ground (arith, there))
]

or-false_last : (a b : Bool) → (a || b) ≡ false → b ≡ false
or-false_last a b h = ground arith

pub create_new_version-IsLawful :
    (found : Secrets) (st : ProcedureStore) (p : LearnedProcedure) (version : ℕ)
    {after : ProcedureStore}
    → create_new_version found st p version ≡ ok after
    → IsLawful st after
unfolding create_new_version
create_new_version-IsLawful found st p version h =
    let (_, e) = refuse_if-eq-ok _ value_error _ h in
    let (_, e1) = refuse_if-eq-ok _ value_error _ e in
    let (parent, e2) = version_parent st (or_empty p.parent_procedure_id) _ e1 in
    let (checks, e3) = refuse_if-eq-ok _ value_error (insert_procedure st p) e2 in
    insert_procedure-IsLawful st p (or-false_last _ _ checks) e3

pub update_procedure-IsLawful :
    (found : Secrets) (st : ProcedureStore) (now : ℕ) (p : LearnedProcedure)
    {after : ProcedureStore}
    → update_procedure found st now p ≡ ok after
    → IsLawful st after
unfolding update_procedure
update_procedure-IsLawful found st now p h =
    let (_, e) = refuse_if-eq-ok (not (is_well_formed found p)) value_error _ h in
    let (current, there, e1) = existing-eq-ok st p.procedure_id _ e in
    let (_, e2) = refuse_if-eq-ok _ value_error _ e1 in
    let (same, e3) = refuse_if-eq-ok (not (same_status current.status p.status)) value_error _ e2 in
    let (_, e4) = refuse_if-eq-ok (parent_missing st p) integrity_error _ e3 in
    let new = record p { created_at = current.created_at; updated_at = now } in
    subst (IsLawful st) (ok-injective e4) (
      insert-IsLawful st p.procedure_id new (
        present-Evolves st p.procedure_id current new there
          (inl (same_status→≡ current.status p.status (not-false→ _ same)))))

counted-status :
    (c : Counter) (now : ℕ) (p : LearnedProcedure) → p.status ≡ (counted c now p).status
counted-status success now p = refl
counted-status failure now p = refl
counted-status unknown now p = refl

pub record_count-IsLawful :
    (st : ProcedureStore) (now : ℕ) (k : String) (c : Counter) {after : ProcedureStore}
    → record_count st now k c ≡ ok after
    → IsLawful st after
unfolding record_count
record_count-IsLawful st now k c h =
    let (p, there, e) = existing-eq-ok st k _ h in
    subst (IsLawful st) (ok-injective e) (
      insert-IsLawful st k (counted c now p)
        (present-Evolves st k p (counted c now p) there (inl (counted-status c now p))))

pub record_validation_event-procedures :
    (found : Secrets) (st : ProcedureStore) (e : ValidationEvent) {after : ProcedureStore}
    → record_validation_event found st e ≡ ok after
    → st.procedures ≡ after.procedures
unfolding record_validation_event
record_validation_event-procedures found st event h =
    let (p, there, e) = existing-eq-ok st event.procedure_id _ h in
    let (_, e1) = refuse_if-eq-ok _ value_error _ e in ap (λ s. s.procedures) (ok-injective e1)
