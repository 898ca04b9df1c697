-- ===== src/Procedures/History.antt =====
-- agent_control/procedure_store.py: sequences of writes of the store.
use freaky_monkey.Base.{
  ℕ, String, true, Option, none, some, List, [], ◌∷◌, ◌≡◌, ◌⊎◌, inl, inr, refl, sym, ◌∙◌, subst,
}
use freaky_monkey.Base.Dict.{lookup}
use freaky_monkey.Procedures.Model.{
  ProcedureStatus, candidate, validating, active, degraded, invalidated, retired, allowed,
  LearnedProcedure, Secrets,
}
use freaky_monkey.Procedures.Store.{
  ValidationEvent, ProcedureStore, Stored, StoreError, ok, raised, create_procedure,
  create_new_version, update_procedure, set_status, record_count, Counter, record_validation_event,
}
use freaky_monkey.Procedures.Lifecycle.{
  Evolves, IsLawful, Evolves-refl, create_procedure-IsLawful, create_new_version-IsLawful,
  update_procedure-IsLawful, set_status-IsLawful, record_count-IsLawful,
  record_validation_event-procedures,
}

abbrev pub IsRetired : Option LearnedProcedure → Type 0
IsRetired none = ⊥
IsRetired (some p) = p.status ≡ retired

retired_final : (s : ProcedureStatus) → allowed retired s ≡ true → s ≡ retired
unfolding allowed
retired_final candidate h = cc
retired_final validating h = cc
retired_final active h = cc
retired_final degraded h = cc
retired_final invalidated h = cc
retired_final retired h = refl

Evolves-IsRetired : (o o' : Option LearnedProcedure) → Evolves o o' → IsRetired o → IsRetired o'
Evolves-IsRetired (some p) (some q) (inl same) h = sym same ∙ h
Evolves-IsRetired (some p) (some q) (inr lawful) h =
    retired_final q.status (subst (λ s. allowed s q.status ≡ true) h lawful)
Evolves-IsRetired (some p) none e h = e
Evolves-IsRetired none o' e h = absurd h

pub Stored-cases {ℓ} :
    {A : Type ℓ} (m : Stored A) → ((a : A) × (m ≡ ok a)) ⊎ ((e : StoreError) × (m ≡ raised e))
Stored-cases (ok a) = inl (a, refl)
Stored-cases (raised e) = inr (e, refl)

-- One write of the store, with the time it is done at.
pub data StoreWrite : Type 0 where
  created : LearnedProcedure → StoreWrite
  new_version : LearnedProcedure → ℕ → StoreWrite
  updated : ℕ → LearnedProcedure → StoreWrite
  status_set : ℕ → String → ProcedureStatus → StoreWrite
  used : ℕ → String → Counter → StoreWrite
  judged : ValidationEvent → StoreWrite

module _ (found : Secrets) where
  unfoldable pub perform : ProcedureStore → StoreWrite → Stored ProcedureStore
  unfolding create_procedure create_new_version update_procedure set_status record_count
      record_validation_event
  perform st (created p) = create_procedure found st p
  perform st (new_version p version) = create_new_version found st p version
  perform st (updated now p) = update_procedure found st now p
  perform st (status_set now k target) = set_status st now k target
  perform st (used now k c) = record_count st now k c
  perform st (judged e) = record_validation_event found st e

  -- For every write of the store that succeeds: each procedure that was stored is stored after it, with
  -- the same status or one that the table of transitions allows from it, and a procedure that was not
  -- stored before is not active.
  pub perform-IsLawful :
      (st : ProcedureStore) (w : StoreWrite) (after : ProcedureStore)
      → perform st w ≡ ok after
      → IsLawful st after
  unfolding perform
  perform-IsLawful st (created p) after h = create_procedure-IsLawful found st p h
  perform-IsLawful st (new_version p version) after h =
      create_new_version-IsLawful found st p version h
  perform-IsLawful st (updated now p) after h = update_procedure-IsLawful found st now p h
  perform-IsLawful st (status_set now k target) after h = set_status-IsLawful st now k target h
  perform-IsLawful st (used now k c) after h = record_count-IsLawful st now k c h
  perform-IsLawful st (judged e) after h = λ j.
      subst (λ rows. Evolves (lookup j st.procedures) (lookup j rows))
        (record_validation_event-procedures found st e h) (Evolves-refl (lookup j st.procedures))

  -- What the store is after one write, done or refused.
  abbrev pub attempt : ProcedureStore → StoreWrite → ProcedureStore
  attempt st w = elim (perform st w) [ ok after ↦ after | raised e ↦ st ]

  unfoldable pub perform_all : ProcedureStore → List StoreWrite → ProcedureStore
  perform_all st [] = st
  perform_all st (w ∷ ws) = perform_all (attempt st w) ws

  attempt-IsLawful : (st : ProcedureStore) (w : StoreWrite) → IsLawful st (attempt st w)
  attempt-IsLawful st w = elim (Stored-cases (perform st w)) [
    | inl (after, done) ↦ rw (done, attempt) (perform-IsLawful st w after done)
    | inr (e, refused) ↦ rw (refused, attempt) (λ j. Evolves-refl (lookup j st.procedures))
  ]

  -- A procedure that is retired stays stored and retired, whatever writes are tried.
  pub perform_all-IsRetired :
      (st : ProcedureStore) (ws : List StoreWrite) (k : String)
      → IsRetired (lookup k st.procedures)
      → IsRetired (lookup k (perform_all st ws).procedures)
  unfolding perform_all
  perform_all-IsRetired st [] k h = h
  perform_all-IsRetired st (w ∷ ws) k h = perform_all-IsRetired (attempt st w) ws k (
      Evolves-IsRetired (lookup k st.procedures) (lookup k (attempt st w).procedures)
        (attempt-IsLawful st w k) h)
