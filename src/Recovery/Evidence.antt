-- ===== src/Recovery/Evidence.antt =====
-- What `classify` of agent_control/recovery.py makes of the evidence.
use freaky_monkey.Base.{
  ℕ, true, false, Option, none, some, ◌≡◌, ◌≢◌, refl, arith, if◌then◌else◌, ◌<◌,
}
use freaky_monkey.Json.{Value, null, get, or_value}
use freaky_monkey.Types.Verification.{Verdict, VerificationResult, verdict}
use freaky_monkey.Types.Failure.{FailureClass}
use freaky_monkey.Types.Action.{ActionResult}
use freaky_monkey.Recovery.Naming.{classify_failure_name, classify_failure_name-of_class}
use freaky_monkey.Recovery.Classify.{classify, explicit, opened_page, named, not_ok}

-- Of the classes that a result can carry, only PERMISSION_DENIED is read before the evidence.
pub explicit_iff :
    (r : ActionResult) (c : FailureClass)
    → explicit (some r) ≡ some c
    → (c ≡ FailureClass.permission_denied) × (r.failure_class ≡ some FailureClass.permission_denied)
unfolding explicit
explicit_iff r c h = by_class r.failure_class refl
  where
    by_class :
        (o : Option FailureClass)
        → r.failure_class ≡ o
        → (c ≡ FailureClass.permission_denied)
          × (r.failure_class ≡ some FailureClass.permission_denied)
    by_class none e = ground (arith, e)
    by_class (some d) e = ground (arith, e, classify_failure_name-of_class d)

explicit-none :
    (r : ActionResult)
    → r.failure_class ≢ some FailureClass.permission_denied
    → explicit (some r) ≡ none
unfolding explicit
explicit-none r h = by_class r.failure_class refl
  where
    by_class : (o : Option FailureClass) → r.failure_class ≡ o → explicit (some r) ≡ none
    by_class none e = ground (arith, e)
    by_class (some d) e = ground (arith, e, classify_failure_name-of_class d)

-- A stale precondition hides whatever else the result or the verification says, unless the result
-- carries PERMISSION_DENIED.
pub classify_stale :
    (r : ActionResult) (v : Option VerificationResult) (age limit : ℕ)
    → r.failure_class ≢ some FailureClass.permission_denied
    → limit < age
    → classify (some r) v (some age) (some limit) ≡ FailureClass.stale_state
unfolding classify
classify_stale r v age limit h k = rw (explicit-none r h, classify) (ground arith)

-- A result that reports success and carries a class other than PERMISSION_DENIED is classified as
-- if it carried none: with no verification the class is lost, and the answer is UNKNOWN.
pub classify_loses_class :
    (r : ActionResult) (c : FailureClass)
    → r.ok ≡ true
    → r.failure_class ≡ some c
    → c ≢ FailureClass.permission_denied
    → classify (some r) none none none ≡ FailureClass.unknown
unfolding classify
classify_loses_class r c h e k =
    rw (explicit-none r (λ p. k (ground (arith, p, e))), classify) (ground arith)

named-null : (v : Value) → v ≡ null → named v ≡ none
unfolding named classify_failure_name
named-null v e = rw e

-- A fresh result that is not ok and whose detail names no failure keeps the class that it carries,
-- or is ACTION_FAILED if it carries none.
pub classify_not_ok :
    (r : ActionResult) (v : Option VerificationResult)
    → r.ok ≡ false
    → r.failure_class ≢ some FailureClass.permission_denied
    → or_value (get "skill_failure_class" r.detail) (get "failure_class" r.detail) ≡ null
    → classify (some r) v none none
      ≡ elim r.failure_class [ none ↦ FailureClass.action_failed | some c ↦ c ]
unfolding classify not_ok
classify_not_ok r v h k d = rw (explicit-none r k, classify) (ground (arith, named-null _ d))

-- After an action that reported success and carries no class, with fresh preconditions, the verdict
-- decides: FAIL is a failed verification, but an environment failure for a page that was opened;
-- UNKNOWN is inconclusive; PASS is no failure of a known class.
pub classify_by_verdict :
    (r : ActionResult) (v : VerificationResult)
    → r.ok ≡ true
    → r.failure_class ≡ none
    → classify (some r) (some v) none none ≡ elim (verdict v) [
      | Verdict.fail ↦
          if opened_page (some r)
          then FailureClass.environment
          else FailureClass.verification_failed
      | Verdict.unknown ↦ FailureClass.inconclusive
      | Verdict.pass ↦ FailureClass.unknown
    ]
unfolding classify
classify_by_verdict r v h e =
    rw (explicit-none r (λ p. ground (arith, p, e)), classify) (ground arith)
