-- ===== src/Procedures/Promoted.antt =====
-- agent_control/procedure_validation.py: a procedure that nothing is said against is activated.
use freaky_monkey.Base.{
  ℕ, String, Bool, true, false, Option, some, List, [], ◌≡◌, refl, sym, ap, ◌∙◌, subst, any-append,
}
use freaky_monkey.Base.Dict.{lookup}
use freaky_monkey.Base.Text.{strip}
use freaky_monkey.Procedures.Model.{
  ProcedureStatus, active, degraded, invalidated, candidate, validating, retired, LearnedProcedure,
  Secrets, allowed, has_secret,
}
use freaky_monkey.Procedures.Store.{ProcedureStore, value_error, ok, raised, get_procedure}
use freaky_monkey.Procedures.Evidence.{ActivationPolicy, Evidence, Registry, as_dict}
use freaky_monkey.Procedures.Promotion.{
  validate_and_promote, validate_found, all_reasons, granted, start_validation, may_start,
  promotion, started_event, passed_event, granted_event,
}
use freaky_monkey.Procedures.Lifecycle.{or-false→}
use freaky_monkey.Procedures.Writes.{
  HasStatus, Ends, moved, with_row, with_event, set_status-done, event-done, event-refused,
  with_row-there, with_event-there,
}

module _ (secret : Secrets) (now : ℕ) (k : String) (e : Evidence) (policy : ActivationPolicy) where
  -- No credential is found in the evidence or in the policy that are recorded.
  abbrev pub HasNoSecret : Type 0
  HasNoSecret = has_secret secret (granted_event secret now k policy e).evidence ≡ false

  evidence_clean : HasNoSecret → has_secret secret (as_dict e) ≡ false
  unfolding has_secret
  evidence_clean h = or-false→ _ _ (sym (any-append _ (as_dict e) _) ∙ h)

  granted-Ends :
      (st : ProcedureStore) (p : LearnedProcedure) (s : ProcedureStatus)
      → get_procedure st k ≡ some p
      → p.status ≡ validating
      → HasNoSecret
      → Ends k (promotion secret now s) active (granted secret now k policy e s st)
  unfolding granted allowed strip get_procedure
  granted-Ends st p s there validated clean =
      let q = moved now active p in
      let st1 = with_row st k q in
      let e1 = passed_event secret now k e in
      let st2 = with_event st1 e1 in
      let e2 = granted_event secret now k policy e in
      rw
        (
          set_status-done st k p there now active (ap (λ x. allowed x active) validated),
          event-done st1 k q (with_row-there st k q) secret e1 refl (refl, evidence_clean clean),
          event-done st2 k q (with_row-there st k q) secret e2 refl (refl, clean),
        )
        (refl, rw (with_row-there st k q) refl)

  -- A start that returned left the key with a row that is being validated.
  abbrev IsStarted : ProcedureStatus → ProcedureStore → Type 0
  IsStarted s st =
      (after : ProcedureStore) × (q : LearnedProcedure) × (start_validation secret now k e s st
        ≡ (after, ok tt))
      × (get_procedure after k ≡ some q)
      × (q.status ≡ validating)

  start_validation-IsStarted :
      (st : ProcedureStore) (p : LearnedProcedure) (s : ProcedureStatus)
      → get_procedure st k ≡ some p
      → p.status ≡ s
      → may_start s ≡ true
      → HasNoSecret
      → IsStarted s st
  unfolding start_validation allowed strip
  start_validation-IsStarted st p candidate there same may clean =
      let q = moved now validating p in
      let st1 = with_row st k q in
      let e1 = started_event secret now k e in
      (
        with_event st1 e1,
        q,
        rw
            (
              set_status-done st k p there now validating (ap (λ x. allowed x validating) same),
              event-done st1 k q (with_row-there st k q) secret e1 refl
                  (refl, evidence_clean clean),
            )
            refl,
        with_event-there st1 e1 k ∙ with_row-there st k q,
        refl,
      )
  start_validation-IsStarted st p validating there same may clean = (st, p, refl, there, same)
  start_validation-IsStarted st p active there same may clean = cc
  start_validation-IsStarted st p degraded there same may clean = cc
  start_validation-IsStarted st p invalidated there same may clean = cc
  start_validation-IsStarted st p retired there same may clean = cc

  -- When a stored procedure is a candidate or being validated, nothing is said against it, and the
  -- search for credentials finds nothing in the evidence and the policy that are recorded,
  -- `validate_and_promote` raises nothing: it returns the result of a promotion, from the status that
  -- the procedure had, and the procedure is then stored as active.
  pub validate_and_promote-HasStatus :
      (available : List String) (semantic : Option Bool) (registry : Option Registry)
      (st : ProcedureStore) (p : LearnedProcedure)
      → get_procedure st k ≡ some p
      → may_start p.status ≡ true
      → all_reasons secret now p policy e available semantic registry ≡ []
      → HasNoSecret
      → ((validate_and_promote secret now k e policy available semantic registry st).1
          ≡ ok (promotion secret now p.status))
        × HasStatus active (
            lookup k
              (validate_and_promote secret now k e policy available semantic registry
                st).0.procedures)
  unfolding validate_and_promote
  validate_and_promote-HasStatus available semantic registry st p there may clear clean =
      let (after, q, started, there1, validated) =
        start_validation-IsStarted st p p.status there refl may clean in
      subst
        (λ o.
          Ends k (promotion secret now p.status) active
            (validate_found secret now k e policy available semantic registry o st))
        (sym there)
        (rw (may, clear, started) (granted-Ends after q p.status there1 validated clean))

  -- When a stored procedure is being validated, nothing is said against it, and a credential is found in
  -- the evidence, `validate_and_promote` raises a ValueError, and the procedure is stored as active
  -- without any event that says so.
  pub validate_and_promote-unrecorded :
      (available : List String) (semantic : Option Bool) (registry : Option Registry)
      (st : ProcedureStore) (p : LearnedProcedure)
      → get_procedure st k ≡ some p
      → p.status ≡ validating
      → all_reasons secret now p policy e available semantic registry ≡ []
      → has_secret secret (as_dict e) ≡ true
      → ((validate_and_promote secret now k e policy available semantic registry st).1
          ≡ raised value_error)
        × HasStatus active (
            lookup k
              (validate_and_promote secret now k e policy available semantic registry
                st).0.procedures)
        × ((validate_and_promote secret now k e policy available semantic registry st).0.events
            ≡ st.events)
  unfolding validate_and_promote granted start_validation allowed get_procedure
  validate_and_promote-unrecorded available semantic registry st p there validated clear dirty =
      let q = moved now active p in
      subst
        (λ o.
          let out = validate_found secret now k e policy available semantic registry o st in
          (out.1 ≡ raised value_error)
          × HasStatus active (lookup k out.0.procedures)
          × (out.0.events ≡ st.events))
        (sym there)
        (rw
          (
            validated,
            clear,
            set_status-done st k p there now active (ap (λ x. allowed x active) validated),
            event-refused (with_row st k q) k q (with_row-there st k q) secret
                (passed_event secret now k e) refl dirty,
          )
          (refl, rw (with_row-there st k q) refl, refl))
