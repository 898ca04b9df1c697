-- ===== src/Procedures/Writes.antt =====
-- agent_control/procedure_store.py: writes that succeed.
use freaky_monkey.Base.{
  ℕ, String, Bool, true, false, Option, none, some, [], ◌∷◌, ◌++◌, ◌≡◌, refl, sym, ap, ◌∙◌, subst,
  arith, not, ◌||◌, leb, length, eq_refl,
}
use freaky_monkey.Base.Dict.{lookup, insert, lookup-insert_hit}
use freaky_monkey.Base.Text.{strip}
use freaky_monkey.Procedures.Model.{ProcedureStatus, LearnedProcedure, Secrets, allowed, has_secret}
use freaky_monkey.Procedures.Store.{
  ValidationEvent, ProcedureStore, Stored, StoreError, value_error, refuse_if, existing, ◌>>=◌,
  ◌>>◌, ok, raised, get_procedure, set_status, record_validation_event,
}

-- The procedure with a status that was set.
abbrev pub moved : ℕ → ProcedureStatus → LearnedProcedure → LearnedProcedure
moved now target p = record p { status = target; updated_at = now }

abbrev pub with_row : ProcedureStore → String → LearnedProcedure → ProcedureStore
with_row st k q = record st { procedures = insert k q st.procedures }

abbrev pub with_event : ProcedureStore → ValidationEvent → ProcedureStore
with_event st e = record st { events = st.events ++ (e ∷ []) }

-- An event that the store takes: its reason is short, and nothing in it looks like a credential.
abbrev pub IsClean : Secrets → ValidationEvent → Type 0
IsClean secret e =
    (leb (length (strip e.reason)) 2000 ≡ true) × (has_secret secret e.evidence ≡ false)

module _ (st : ProcedureStore) (k : String) (p : LearnedProcedure)
    (there : get_procedure st k ≡ some p) where
  existing-done : existing st k ≡ ok p
  existing-done = rw (there, existing) refl

  chain_done :
      (f : LearnedProcedure → Stored ProcedureStore) {after : ProcedureStore}
      → f p ≡ ok after
      → (existing st k >>= f) ≡ ok after
  chain_done f h = ap (λ m. m >>= f) existing-done ∙ h

  checked :
      (b : Bool) (e : StoreError) (m : Stored ProcedureStore) → b ≡ false → (refuse_if b e >> m) ≡ m
  checked true e m h = cc
  checked false e m h = refl

  pub set_status-done :
      (now : ℕ) (target : ProcedureStatus)
      → allowed p.status target ≡ true
      → set_status st now k target ≡ ok (with_row st k (moved now target p))
  unfolding set_status
  set_status-done now target lawful =
      chain_done
        (λ q.
          refuse_if (not (allowed q.status target)) value_error
          >> ok (with_row st k (moved now target q)))
        (checked (not (allowed p.status target)) value_error
          (ok (with_row st k (moved now target p))) (ap not lawful))

  pub event-done :
      (secret : Secrets) (e : ValidationEvent)
      → e.procedure_id ≡ k
      → IsClean secret e
      → record_validation_event secret st e ≡ ok (with_event st e)
  unfolding record_validation_event
  event-done secret e same (short, clean) =
      subst
        (λ i.
          (existing st i >>= λ _. refuse_if (fault e) value_error >> ok (with_event st e))
          ≡ ok (with_event st e))
        (sym same)
        (chain_done (λ _. refuse_if (fault e) value_error >> ok (with_event st e))
          (checked (fault e) value_error (ok (with_event st e)) (ground (arith, short, clean))))
    where
      fault : ValidationEvent → Bool
      fault e = not (leb (length (strip e.reason)) 2000) || has_secret secret e.evidence

  -- An event in which a credential is found is refused.
  pub event-refused :
      (secret : Secrets) (e : ValidationEvent)
      → e.procedure_id ≡ k
      → has_secret secret e.evidence ≡ true
      → record_validation_event secret st e ≡ raised value_error
  unfolding record_validation_event
  event-refused secret e same dirty =
      subst
        (λ i.
          (existing st i >>= λ _. refuse_if (fault e) value_error >> ok (with_event st e))
          ≡ raised value_error)
        (sym same)
        (ap (λ m. m >>= λ _. refuse_if (fault e) value_error >> ok (with_event st e)) existing-done
          ∙ stopped (fault e) (ok (with_event st e)) (ground (arith, dirty)))
    where
      fault : ValidationEvent → Bool
      fault e = not (leb (length (strip e.reason)) 2000) || has_secret secret e.evidence

      stopped :
          (b : Bool) (m : Stored ProcedureStore)
          → b ≡ true
          → (refuse_if b value_error >> m) ≡ raised value_error
      stopped true m h = refl
      stopped false m h = cc

pub with_row-there :
    (st : ProcedureStore) (k : String) (q : LearnedProcedure)
    → get_procedure (with_row st k q) k ≡ some q
unfolding get_procedure
with_row-there st k q = lookup-insert_hit k k q st.procedures (eq_refl k)

pub with_event-there :
    (st : ProcedureStore) (e : ValidationEvent) (k : String)
    → get_procedure (with_event st e) k ≡ get_procedure st k
unfolding get_procedure
with_event-there st e k = refl

-- The row of the key, where there is one, has this status.
abbrev pub HasStatus : ProcedureStatus → Option LearnedProcedure → Type 0
HasStatus s none = ⊥
HasStatus s (some q) = q.status ≡ s

-- A run returned this value and left the key with this status.
abbrev pub Ends : {A : Type 0} → String → A → ProcedureStatus → ProcedureStore × Stored A → Type 0
Ends k a s out = (out.1 ≡ ok a) × HasStatus s (lookup k out.0.procedures)
