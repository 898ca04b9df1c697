-- ===== src/Recovery/Budget.antt =====
-- agent_control/recovery.py: `RecoveryDecision`, `RecoveryBudget`, `_STRATEGY` and
-- `Recovery.decide`. Counters are natural numbers, so that `max(0, a - b)` is their subtraction.
use freaky_monkey.Base.{
  ℕ, ◌+◌, ◌-◌, Bool, true, false, List, [], ◌∷◌, ◌==◌, not, ◌&&◌, ◌||◌, if◌then◌else◌,
}
use freaky_monkey.Types.Failure.{FailureClass}

pub data RecoveryDecision : Type 0 where
  retry reobserve reobserve_then_retry replan ask_user abort : RecoveryDecision

pub record RecoveryBudget : Type 0 where
  pub max_retries : ℕ
  pub max_reobserves : ℕ
  pub max_replans : ℕ
  pub max_recovery_attempts : ℕ
  pub retries_used : ℕ
  pub reobserves_used : ℕ
  pub replans_used : ℕ
  pub recovery_attempts_used : ℕ

-- The defaults of the class.
abbrev pub default_budget : RecoveryBudget
default_budget = record {
  max_retries = 1;
  max_reobserves = 1;
  max_replans = 1;
  max_recovery_attempts = 4;
  retries_used = 0;
  reobserves_used = 0;
  replans_used = 0;
  recovery_attempts_used = 0;
}

pub record Remaining : Type 0 where
  pub retries : ℕ
  pub reobserves : ℕ
  pub replans : ℕ

unfoldable pub remaining : RecoveryBudget → Remaining
remaining b = record {
  retries = b.max_retries - b.retries_used;
  reobserves = b.max_reobserves - b.reobserves_used;
  replans = b.max_replans - b.replans_used;
}

unfoldable pub exhausted : RecoveryBudget → Bool
exhausted b = b.max_recovery_attempts - b.recovery_attempts_used == 0

-- The branches of `spend` under the common counter. `b` is the budget with the attempt charged.
abbrev spend_on : RecoveryDecision → Remaining → RecoveryBudget → RecoveryBudget × Bool
spend_on retry left b =
    if left.retries == 0 then (b, false) else (record b { retries_used = b.retries_used + 1 }, true)
spend_on reobserve left b =
    if left.reobserves == 0
    then (record b { recovery_attempts_used = b.recovery_attempts_used - 1 }, false)
    else (record b { reobserves_used = b.reobserves_used + 1 }, true)
spend_on reobserve_then_retry left b =
    if left.reobserves == 0 || left.retries == 0 then (b, false) else (
      record b { reobserves_used = b.reobserves_used + 1; retries_used = b.retries_used + 1 },
      true,
    )
spend_on replan left b =
    if left.replans == 0 then (b, false) else (record b { replans_used = b.replans_used + 1 }, true)
spend_on _ left b = (b, true)

-- The decisions that count as an attempt.
abbrev pub is_attempt : RecoveryDecision → Bool
is_attempt ask_user = false
is_attempt abort = false
is_attempt _ = true

unfoldable pub spend : RecoveryBudget → RecoveryDecision → RecoveryBudget × Bool
unfolding remaining exhausted
spend b d =
    if is_attempt d
    then if exhausted b
      then (b, false)
      else spend_on d (remaining b)
          (record b { recovery_attempts_used = b.recovery_attempts_used + 1 })
    else (b, true)

-- The first choice for a failure. A class that the table does not list aborts.
unfoldable pub strategy : FailureClass → RecoveryDecision
strategy FailureClass.transient = retry
strategy FailureClass.stale_state = reobserve_then_retry
strategy FailureClass.precondition_failed = replan
strategy FailureClass.action_failed = retry
strategy FailureClass.expected_state_not_reached = reobserve_then_retry
strategy FailureClass.verification_failed = reobserve_then_retry
strategy FailureClass.permission_denied = ask_user
strategy FailureClass.inconclusive = reobserve_then_retry
strategy FailureClass.ambiguous = ask_user
strategy FailureClass.execution_exception = retry
strategy FailureClass.execution_timeout = retry
strategy FailureClass.browser_connection_failed = reobserve_then_retry
strategy FailureClass.application_not_found = replan
strategy FailureClass.target_not_found = replan
strategy FailureClass.stale_observation = reobserve_then_retry
strategy FailureClass.verification_unknown = reobserve_then_retry
strategy FailureClass.resource_unavailable = retry
strategy FailureClass.action_may_have_succeeded = reobserve_then_retry
strategy _ = abort

pub record Recovery : Type 0 where
  pub budget : RecoveryBudget
  pub enabled : Bool
  pub interactive : Bool

pub data Reason : Type 0 where
  disabled : Reason
  needs_user_decision not_recoverable : FailureClass → Reason
  budget_exhausted : RecoveryDecision → Reason
  chosen : FailureClass → RecoveryDecision → Reason

abbrev is_ask_user : RecoveryDecision → Bool
is_ask_user ask_user = true
is_ask_user _ = false

abbrev is_abort : RecoveryDecision → Bool
is_abort abort = true
is_abort _ = false

-- The end of `decide`, with the answer of `spend`.
abbrev spent :
    Recovery
    → FailureClass
    → RecoveryDecision
    → RecoveryBudget × Bool
    → Recovery × RecoveryDecision × Reason
spent r c d (b, true) = (record r { budget = b }, d, chosen c d)
spent r c d (b, false) = (record r { budget = b }, abort, budget_exhausted d)

unfoldable pub decide_on :
    Recovery → FailureClass → RecoveryDecision → Recovery × RecoveryDecision × Reason
unfolding spend
decide_on r c preferred =
    if not r.enabled
    then (r, abort, disabled)
    else if is_ask_user preferred && not r.interactive
    then (r, abort, needs_user_decision c)
    else if is_abort preferred
    then (r, preferred, not_recoverable c)
    else spent r c preferred (spend r.budget preferred)

-- The recovery object with its budget spent in place, the decision and its reason.
unfoldable pub decide : Recovery → FailureClass → Recovery × RecoveryDecision × Reason
unfolding decide_on
decide r c = decide_on r c (strategy c)

-- A run of failures, each answered in turn.
unfoldable pub decide_all : Recovery → List FailureClass → Recovery × List RecoveryDecision
decide_all r [] = (r, [])
decide_all r (c ∷ cs) =
    let (r', d, _) = decide r c in let (r'', ds) = decide_all r' cs in (r'', d ∷ ds)
