-- ===== src/Procedures/Healthy.antt =====
-- agent_control/procedure_validation.py: an assessment returns, and the stored status agrees with it.
use freaky_monkey.Base.{
  ℕ, String, Bool, true, false, Option, none, some, List, [], ◌∷◌, ◌≡◌, refl, sym, subst, All, ◌&&◌,
  ◌||◌,
}
use freaky_monkey.Base.Dict.{lookup}
use freaky_monkey.Base.Text.{strip}
use freaky_monkey.Procedures.Model.{
  ProcedureStatus, active, degraded, invalidated, LearnedProcedure, Secrets, allowed, has_secret,
  contains_secret,
}
use freaky_monkey.Procedures.Store.{ProcedureStore, ok, get_procedure}
use freaky_monkey.Procedures.Promotion.{◌>>◌, return}
use freaky_monkey.Procedures.Health.{
  HealthDecision, degrade, invalidate, reactivate, HealthPolicy, Move, assessed, assessed_as,
  move_event, apply_move, assess_found, assess_health, reaches,
}
use freaky_monkey.Procedures.Writes.{
  HasStatus, Ends, moved, with_row, IsClean, set_status-done, event-done, with_row-there,
}
use freaky_monkey.Orchestration.Bounded.{if_of}

-- The status that a decision stands for.
abbrev pub status_of : HealthDecision → ProcedureStatus → ProcedureStatus
status_of degrade s = degraded
status_of invalidate s = invalidated
status_of reactivate s = active
status_of _ s = s

-- The keys of the evidence that an assessment records.
abbrev pub health_keys : List String
health_keys = "failure_count" ∷ "unknown_count" ∷ "invalid_evidence" ∷ "revalidation_passed" ∷ []

module _ (secret : Secrets) (now : ℕ) (k : String) where
  abbrev Fits : ProcedureStatus → HealthDecision × Option Move → Type 0
  Fits s (d, none) = s ≡ status_of d s
  Fits s (d, some m) =
      (allowed s m.target ≡ true) × (m.target ≡ status_of d s) × IsClean secret (move_event now k m)

  assessed_as-Fits :
      (policy : HealthPolicy) (invalid_evidence revalidated : Bool) (p : LearnedProcedure)
      → All (λ t. secret t ≡ false) health_keys
      → (s : ProcedureStatus) → Fits s (assessed_as policy invalid_evidence revalidated p s)
  unfolding allowed strip has_secret contains_secret
  assessed_as-Fits policy i r p (failures, (unknowns, (invalid, (passed, _)))) active =
      if_of (Fits active) (i && policy.require_explicit_invalid_evidence)
        (refl, refl, (refl, rw invalid refl))
        (if_of (Fits active)
          (reaches policy.invalidate_after_failures p.failure_count
            || reaches policy.invalidate_after_unknowns p.unknown_count)
          (refl, refl, (refl, rw (failures, unknowns) refl))
          (if_of (Fits active)
            (reaches policy.degrade_after_failures p.failure_count
              || reaches policy.degrade_after_unknowns p.unknown_count)
            (refl, refl, (refl, rw (failures, unknowns) refl)) refl))
  assessed_as-Fits policy i r p (_, (_, (invalid, (passed, _)))) degraded =
      if_of (Fits degraded) i (refl, refl, (refl, rw invalid refl))
        (if_of (Fits degraded) r (refl, refl, (refl, rw passed refl)) refl)
  assessed_as-Fits policy i r p h _ = refl

  moved_lem :
      (st : ProcedureStore) (p : LearnedProcedure) (d : HealthDecision) (m : Option Move)
      → get_procedure st k ≡ some p
      → Fits p.status (d, m)
      → Ends k d (status_of d p.status) ((apply_move secret now k m >> return d) st)
  unfolding apply_move get_procedure
  moved_lem st p d none there same = (refl, rw there same)
  moved_lem st p d (some m) there (lawful, same, clean) =
      let q = moved now m.target p in
      let st1 = with_row st k q in
      let e = move_event now k m in
      rw
        (
          set_status-done st k p there now m.target lawful,
          event-done st1 k q (with_row-there st k q) secret e refl clean,
        )
        (refl, rw (with_row-there st k q) same)

  -- For a stored procedure, and a search for credentials that finds nothing in the four words that are the keys of an assessment's evidence, `assess_health` raises nothing: it
  -- returns the decision of its rules, and the procedure is then stored as degraded, invalidated or
  -- active when the decision is to degrade, to invalidate or to reactivate, and with its old status when
  -- the decision is that it is healthy or that nothing changes.
  pub assess_health-HasStatus :
      (policy : HealthPolicy) (invalid_evidence revalidated : Bool) (st : ProcedureStore)
      (p : LearnedProcedure)
      → All (λ t. secret t ≡ false) health_keys
      → get_procedure st k ≡ some p
      → ((assess_health secret now k policy invalid_evidence revalidated st).1
          ≡ ok (assessed policy invalid_evidence revalidated p).0)
        × HasStatus (status_of (assessed policy invalid_evidence revalidated p).0 p.status) (
            lookup k
              (assess_health secret now k policy invalid_evidence revalidated st).0.procedures)
  unfolding assess_health assessed
  assess_health-HasStatus policy i r st p plain there =
      let v = assessed_as policy i r p p.status in
      subst (λ o. Ends k v.0 (status_of v.0 p.status) (assess_found secret now k policy i r o st))
        (sym there) (moved_lem st p v.0 v.1 there (assessed_as-Fits policy i r p plain p.status))
