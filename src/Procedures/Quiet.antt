-- ===== src/Procedures/Quiet.antt =====
-- agent_control/procedure_validation.py: what a validation that ends with reasons does to the store.
use freaky_monkey.Base.{
  ℕ, String, Bool, true, false, Option, none, some, List, ◌≡◌, inl, inr, refl, subst, Bool-cases,
  str_eq, if◌then◌else◌,
}
use freaky_monkey.Base.Dict.{lookup, insert, lookup-insert_hit, lookup-insert_miss}
use freaky_monkey.Policy.Paths.{Text}
use freaky_monkey.Procedures.Model.{
  ProcedureStatus, candidate, validating, invalidated, LearnedProcedure, Secrets,
}
use freaky_monkey.Procedures.Store.{
  ValidationEvent, ProcedureStore, Stored, ok, raised, is_active, set_status,
  record_validation_event, value_error,
}
use freaky_monkey.Procedures.Evidence.{Evidence, is_permanently_invalid}
use freaky_monkey.Procedures.Promotion.{
  rejection, return, bound, committed, reset_status, started_event, failed_event, Run, ◌>>=◌, ◌>>◌,
  write, record_event, rejected, start_validation, is_validating_now,
}
use freaky_monkey.Procedures.Lifecycle.{
  refuse_if-eq-ok, existing-eq-ok, ok-injective, record_validation_event-procedures,
}

abbrev pub IsInactive : Option LearnedProcedure → Type 0
IsInactive none = Unit
IsInactive (some p) = is_active p.status ≡ false

-- No row of the store at this key is active.
abbrev pub IsQuiet : String → ProcedureStore → Type 0
IsQuiet k st = IsInactive (lookup k st.procedures)

-- A run, whether it raises or not, leaves such a store such.
abbrev pub Preserves {ℓ} : {A : Type ℓ} → (ProcedureStore → Type 0) → Run A → Type 0
Preserves P m = (st : ProcedureStore) → P st → P (m st).0

pub >>=-Preserves {ℓ κ} :
    {A : Type ℓ} {B : Type κ} (P : ProcedureStore → Type 0) (m : Run A) (f : A → Run B)
    → Preserves P m
    → ((a : A) → Preserves P (f a))
    → Preserves P (m >>= f)
>>=-Preserves {A = A} P m f h g st quiet = bound-of (m st) (h st quiet)
  where
    bound-of : (r : ProcedureStore × Stored A) → P r.0 → P (bound r f).0
    bound-of (s, ok a) q = g a s q
    bound-of (s, raised e) q = q

-- A write preserves what holds after it when it succeeds.
pub write-Preserves :
    (P : ProcedureStore → Type 0) (op : ProcedureStore → Stored ProcedureStore)
    → ((st after : ProcedureStore) → P st → op st ≡ ok after → P after)
    → Preserves P (write op)
write-Preserves P op h st quiet = committed-of (op st) (λ s e. h st s quiet e)
  where
    committed-of :
        (r : Stored ProcedureStore) → ((s : ProcedureStore) → r ≡ ok s → P s) → P (committed st r).0
    committed-of (ok s) g = g s refl
    committed-of (raised e) g = quiet

module _ (k : String) where
  set_status-IsQuiet :
      (now : ℕ) (j : String) (target : ProcedureStatus) (st after : ProcedureStore)
      → is_active target ≡ false
      → IsQuiet k st
      → set_status st now j target ≡ ok after
      → IsQuiet k after
  unfolding set_status
  set_status-IsQuiet now j target st after calm quiet h =
      let (p, there, e) = existing-eq-ok st j _ h in
      let (_, e1) = refuse_if-eq-ok _ value_error _ e in
      subst (IsQuiet k) (ok-injective e1)
        (written (record p { status = target; updated_at = now }) calm)
    where
      written :
          (q : LearnedProcedure)
          → is_active q.status ≡ false
          → IsQuiet k (record st { procedures = insert j q st.procedures })
      written q inactive = elim (Bool-cases (str_eq j k)) [
        | inl same ↦ rw (lookup-insert_hit j k q st.procedures same) inactive
        | inr other ↦ rw (lookup-insert_miss j k q st.procedures other) quiet
      ]

  record_validation_event-IsQuiet :
      (found : Secrets) (event : ValidationEvent) (st after : ProcedureStore)
      → IsQuiet k st
      → record_validation_event found st event ≡ ok after
      → IsQuiet k after
  record_validation_event-IsQuiet found event st after quiet h =
      subst (λ rows. IsInactive (lookup k rows))
        (record_validation_event-procedures found st event h) quiet

  pub event-Preserves :
      (secret : Secrets) (now : ℕ) (event : ValidationEvent)
      → Preserves (IsQuiet k) (record_event secret now event)
  event-Preserves secret now event =
      write-Preserves (IsQuiet k) (λ st. record_validation_event secret st event)
        (λ st after quiet h. record_validation_event-IsQuiet secret event st after quiet h)

  pub status-Preserves :
      (now : ℕ) (j : String) (target : ProcedureStatus)
      → is_active target ≡ false
      → Preserves (IsQuiet k) (write (λ st. set_status st now j target))
  status-Preserves now j target calm =
      write-Preserves (IsQuiet k) (λ st. set_status st now j target)
        (λ st after quiet h. set_status-IsQuiet now j target st after calm quiet h)

  module _ (secret : Secrets) (now : ℕ) (e : Evidence) where
    pub start_validation-Preserves :
        (s : ProcedureStatus) → Preserves (IsQuiet k) (start_validation secret now k e s)
    unfolding start_validation
    start_validation-Preserves candidate =
        >>=-Preserves (IsQuiet k) (write (λ st. set_status st now k validating))
          (λ _. record_event secret now (started_event secret now k e))
          (status-Preserves now k validating refl)
          (λ _. event-Preserves secret now (started_event secret now k e))
    start_validation-Preserves _ = λ st quiet. quiet

    reset_status-Preserves :
        (b : Bool)
        → Preserves (IsQuiet k) (reset_status secret now k (if b then invalidated else candidate))
    reset_status-Preserves b st quiet = elim (Bool-cases (is_validating_now secret now k st)) [
      | inl now_so ↦ rw (now_so, reset_status) (status-Preserves now k _ (calm b) st quiet)
      | inr not_so ↦ rw (not_so, reset_status) quiet
    ]
      where
        calm : (b : Bool) → is_active (if b then invalidated else candidate) ≡ false
        calm true = refl
        calm false = refl

    pub rejected-Preserves :
        (s : ProcedureStatus) (reasons : List Text)
        → Preserves (IsQuiet k) (rejected secret now k e s reasons)
    unfolding rejected
    rejected-Preserves s reasons =
        let permanent = is_permanently_invalid reasons in
        let event = failed_event secret now k e reasons in
        let target = if permanent then invalidated else candidate in
        >>=-Preserves (IsQuiet k)
          (reset_status secret now k target >> record_event secret now event)
          (λ _. return (rejection secret now s target permanent reasons))
          (>>=-Preserves (IsQuiet k) (reset_status secret now k target)
            (λ _. record_event secret now event) (reset_status-Preserves permanent)
            (λ _. event-Preserves secret now event))
          (λ _ st quiet. quiet)
