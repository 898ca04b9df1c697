-- ===== src/Procedures/Store.antt =====
-- agent_control/procedure_store.py: `ProcedureStore`. A write is one transaction: what raises changes
-- nothing. Generated identifiers of events do not collide. A row keeps its parameters and conditions in
-- the order given: the source reads them back sorted, and no operation depends on their order.
use freaky_monkey.Base.{
  ℕ, ◌+◌, String, Bool, true, false, Option, none, some, List, [], ◌∷◌, ◌++◌, any, not, ◌&&◌, ◌||◌,
  ◌==◌, leb, length, str_eq,
}
use freaky_monkey.Base.Dict.{lookup, insert, has_key, values}
use freaky_monkey.Base.Text.{strip}
use freaky_monkey.Json.{Params}
use freaky_monkey.Policy.Paths.{Text}
use freaky_monkey.Procedures.Model.{
  ProcedureStatus, candidate, validating, active, degraded, invalidated, retired, EventType,
  allowed, LearnedProcedure, Secrets, has_secret, is_well_formed,
}

pub record ValidationEvent : Type 0 where
  pub procedure_id : String
  pub event_type : EventType
  pub result : String
  pub reason : Text
  pub source_task_id : Option String
  pub source_session_id : Option String
  pub evidence : Params
  pub created_at : ℕ

-- The tables. Rows are found by their primary key.
pub record ProcedureStore : Type 0 where
  pub procedures : List (String × LearnedProcedure)
  pub events : List ValidationEvent

pub data StoreError : Type 0 where
  value_error key_error integrity_error : StoreError

pub data Stored {ℓ} (A : Type ℓ) : Type ℓ where
  ok : A → Stored A
  raised : StoreError → Stored A

infixl 5 ◌>>=◌ ◌>>◌
abbrev pub ◌>>=◌ {ℓ κ} : {A : Type ℓ} {B : Type κ} → Stored A → (A → Stored B) → Stored B
ok a >>= f = f a
raised e >>= f = raised e

abbrev pub ◌>>◌ {ℓ κ} : {A : Type ℓ} {B : Type κ} → Stored A → Stored B → Stored B
m >> k = m >>= λ _. k

-- `if test: raise e`
abbrev pub refuse_if : Bool → StoreError → Stored (Unit {0})
refuse_if true e = raised e
refuse_if false e = ok tt

abbrev pub is_active : ProcedureStatus → Bool
is_active active = true
is_active _ = false

unfoldable pub get_procedure : ProcedureStore → String → Option LearnedProcedure
get_procedure st k = lookup k st.procedures

-- `if current is None: raise KeyError`
abbrev pub existing : ProcedureStore → String → Stored LearnedProcedure
existing st k = elim (get_procedure st k) [ none ↦ raised key_error | some p ↦ ok p ]

-- UNIQUE(name, version)
unfoldable pub has_version : ProcedureStore → String → ℕ → Bool
has_version st name version =
    any (λ p. str_eq p.name name && p.version == version) (values st.procedures)

-- FOREIGN KEY(parent_procedure_id)
abbrev pub parent_missing : ProcedureStore → LearnedProcedure → Bool
parent_missing st p = elim p.parent_procedure_id [
  | none ↦ false
  | some k ↦ not (has_key k st.procedures)
]

abbrev pub put : ProcedureStore → LearnedProcedure → ProcedureStore
put st p = record st { procedures = insert p.procedure_id p st.procedures }

-- `_insert_procedure`, with the constraints of the table.
unfoldable pub insert_procedure : ProcedureStore → LearnedProcedure → Stored ProcedureStore
unfolding has_version
insert_procedure st p = do
  refuse_if
      (has_key p.procedure_id st.procedures
        || has_version st p.name p.version
        || parent_missing st p)
      integrity_error
  ok (put st p)

abbrev truthy_text : Option String → Bool
truthy_text none = false
truthy_text (some t) = not (str_eq t "")

abbrev pub or_empty : Option String → String
or_empty none = ""
or_empty (some t) = t

unfoldable pub create_procedure :
    Secrets → ProcedureStore → LearnedProcedure → Stored ProcedureStore
unfolding insert_procedure
create_procedure found st p = do
  refuse_if (not (is_well_formed found p)) value_error
  refuse_if (is_active p.status) value_error
  refuse_if
      (truthy_text p.parent_procedure_id
        && not (has_key (or_empty p.parent_procedure_id) st.procedures))
      value_error
  insert_procedure st p

unfoldable pub create_new_version :
    Secrets → ProcedureStore → LearnedProcedure → ℕ → Stored ProcedureStore
unfolding insert_procedure get_procedure
create_new_version found st p version = do
  refuse_if (not (is_well_formed found p)) value_error
  refuse_if (leb version 1) value_error
  elim (get_procedure st (or_empty p.parent_procedure_id)) as (λ _. Stored ProcedureStore) [
    | none ↦ raised value_error
    | some parent ↦
        refuse_if
          (leb version parent.version
            || not (p.version == version)
            || not (str_eq p.name parent.name)
            || is_active p.status)
          value_error
        >>= λ _. insert_procedure st p
  ]

abbrev pub same_status : ProcedureStatus → ProcedureStatus → Bool
same_status candidate candidate = true
same_status validating validating = true
same_status active active = true
same_status degraded degraded = true
same_status invalidated invalidated = true
same_status retired retired = true
same_status _ _ = false

unfoldable pub update_procedure :
    Secrets → ProcedureStore → ℕ → LearnedProcedure → Stored ProcedureStore
unfolding get_procedure
update_procedure found st now p = do
  refuse_if (not (is_well_formed found p)) value_error
  current ← existing st p.procedure_id
  refuse_if (not (current.version == p.version) || not (str_eq current.name p.name)) value_error
  refuse_if (not (same_status current.status p.status)) value_error
  refuse_if (parent_missing st p) integrity_error
  ok (put st (record p { created_at = current.created_at; updated_at = now }))

unfoldable pub set_status : ProcedureStore → ℕ → String → ProcedureStatus → Stored ProcedureStore
unfolding get_procedure
set_status st now k target = do
  current ← existing st k
  refuse_if (not (allowed current.status target)) value_error
  ok (record st {
    procedures = insert k (record current { status = target; updated_at = now }) st.procedures;
  })

unfoldable pub invalidate_procedure : ProcedureStore → ℕ → String → Stored ProcedureStore
unfolding set_status
invalidate_procedure st now k = set_status st now k invalidated

-- The counters that `_record` raises.
pub data Counter : Type 0 where
  success failure unknown : Counter

abbrev pub counted : Counter → ℕ → LearnedProcedure → LearnedProcedure
counted success now p = record p {
  success_count = p.success_count + 1;
  updated_at = now;
  last_used_at = some now;
  last_success_at = some now;
}
counted failure now p = record p {
  failure_count = p.failure_count + 1;
  updated_at = now;
  last_used_at = some now;
}
counted unknown now p = record p {
  unknown_count = p.unknown_count + 1;
  updated_at = now;
  last_used_at = some now;
}

-- `_record`, which `record_success`, `record_failure` and `record_unknown` call.
unfoldable pub record_count : ProcedureStore → ℕ → String → Counter → Stored ProcedureStore
unfolding get_procedure
record_count st now k c = do
  current ← existing st k
  ok (record st { procedures = insert k (counted c now current) st.procedures })

-- Of the validation of an event only the length of the reason and the test for credentials can fail
-- here: the other texts are literals and identifiers that are stored.
unfoldable pub record_validation_event :
    Secrets → ProcedureStore → ValidationEvent → Stored ProcedureStore
unfolding get_procedure strip
record_validation_event found st e = do
  current ← existing st e.procedure_id
  refuse_if (not (leb (length (strip e.reason)) 2000) || has_secret found e.evidence) value_error
  ok (record st { events = st.events ++ (e ∷ []) })
