-- ===== src/Recovery/Bounds.antt =====
-- What one `spend` and one `decide` of agent_control/recovery.py do to the budget.
use freaky_monkey.Base.{
  not, ◌||◌, ℕ, ◌+◌, ◌≤◌, ◌<◌, Bool, true, false, ◌≡◌, ◌≢◌, ◌⊎◌, arith, if◌then◌else◌,
}
use freaky_monkey.Types.Failure.{FailureClass}
use freaky_monkey.Recovery.Budget.{
  RecoveryDecision, RecoveryBudget, Recovery, retry, reobserve, reobserve_then_retry, replan,
  ask_user, abort, is_attempt, spend, strategy, decide, decide_on,
}

-- No counter is above its ceiling.
pub record WithinLimits (b : RecoveryBudget) : Type 0 where
  pub retries : b.retries_used ≤ b.max_retries
  pub reobserves : b.reobserves_used ≤ b.max_reobserves
  pub replans : b.replans_used ≤ b.max_replans
  pub attempts : b.recovery_attempts_used ≤ b.max_recovery_attempts

-- The ceilings of two budgets are the same.
pub record SameLimits (b c : RecoveryBudget) : Type 0 where
  pub retries : c.max_retries ≡ b.max_retries
  pub reobserves : c.max_reobserves ≡ b.max_reobserves
  pub replans : c.max_replans ≡ b.max_replans
  pub attempts : c.max_recovery_attempts ≡ b.max_recovery_attempts

abbrev pub uses_retry : RecoveryDecision → ℕ
uses_retry retry = 1
uses_retry reobserve_then_retry = 1
uses_retry _ = 0

abbrev pub uses_reobserve : RecoveryDecision → ℕ
uses_reobserve reobserve = 1
uses_reobserve reobserve_then_retry = 1
uses_reobserve _ = 0

abbrev pub uses_replan : RecoveryDecision → ℕ
uses_replan replan = 1
uses_replan _ = 0

abbrev pub uses_attempt : RecoveryDecision → ℕ
uses_attempt d = if is_attempt d then 1 else 0

-- What a granted or refused decision costs: nothing is granted for free, and no counter falls.
pub record Charged (b c : RecoveryBudget) (d : RecoveryDecision) : Type 0 where
  pub retries : c.retries_used ≡ b.retries_used + uses_retry d
  pub reobserves : c.reobserves_used ≡ b.reobserves_used + uses_reobserve d
  pub replans : c.replans_used ≡ b.replans_used + uses_replan d
  pub attempts : b.recovery_attempts_used + uses_attempt d ≤ c.recovery_attempts_used

-- Spending keeps every counter below its ceiling, whether or not the decision is granted.
pub spend-WithinLimits :
    (b : RecoveryBudget) (d : RecoveryDecision) → WithinLimits b → WithinLimits (spend b d).0
unfolding spend
spend-WithinLimits b retry h = ground arith
spend-WithinLimits b _ h = ground arith

spend-SameLimits : (b : RecoveryBudget) (d : RecoveryDecision) → SameLimits b (spend b d).0
unfolding spend
spend-SameLimits b retry = ground arith
spend-SameLimits b _ = ground arith

-- A refused decision leaves every counter but that of the attempts as it was.
pub spend_refused :
    (b : RecoveryBudget) (d : RecoveryDecision)
    → (spend b d).1 ≡ false
    → (spend b d).0 ≡ record b { recovery_attempts_used = (spend b d).0.recovery_attempts_used }
unfolding spend
spend_refused b retry h = ground arith
spend_refused b _ h = ground arith

-- A retry that the retry ceiling refuses still uses up one of the attempts.
pub spend_refused_charges :
    (b : RecoveryBudget)
    → b.recovery_attempts_used < b.max_recovery_attempts
    → b.max_retries ≤ b.retries_used
    → spend b retry ≡ (record b { recovery_attempts_used = b.recovery_attempts_used + 1 }, false)
unfolding spend
spend_refused_charges b h k = ground arith

decide_on-WithinLimits :
    (r : Recovery) (c : FailureClass) (d : RecoveryDecision)
    → WithinLimits r.budget
    → WithinLimits (decide_on r c d).0.budget
unfolding decide_on
decide_on-WithinLimits r c retry h = ground arith
decide_on-WithinLimits r c _ h = ground arith

decide_on-SameLimits :
    (r : Recovery) (c : FailureClass) (d : RecoveryDecision)
    → SameLimits r.budget (decide_on r c d).0.budget
unfolding decide_on
decide_on-SameLimits r c retry = ground arith
decide_on-SameLimits r c _ = ground arith

decide_on-Charged :
    (r : Recovery) (c : FailureClass) (d : RecoveryDecision)
    → Charged r.budget (decide_on r c d).0.budget (decide_on r c d).1
unfolding decide_on
decide_on-Charged r c retry = ground arith
decide_on-Charged r c _ = ground arith

pub decide-WithinLimits :
    (r : Recovery) (c : FailureClass) → WithinLimits r.budget → WithinLimits (decide r c).0.budget
unfolding decide
decide-WithinLimits r c = decide_on-WithinLimits r c (strategy c)

pub decide-SameLimits :
    (r : Recovery) (c : FailureClass) → SameLimits r.budget (decide r c).0.budget
unfolding decide
decide-SameLimits r c = decide_on-SameLimits r c (strategy c)

-- `decide` raises the counters of retries, of re-observations and of re-plans by exactly what its
-- answer uses of each, and the counter of the attempts by at least that.
pub decide-Charged :
    (r : Recovery) (c : FailureClass) → Charged r.budget (decide r c).0.budget (decide r c).1
unfolding decide
decide-Charged r c = decide_on-Charged r c (strategy c)

decide_on_free :
    (r : Recovery) (c : FailureClass) (d : RecoveryDecision)
    → ((r.enabled ≡ false) ⊎ (is_attempt d ≡ false))
    → (decide_on r c d).0 ≡ r
unfolding decide_on
decide_on_free r c retry h = ground arith
decide_on_free r c _ h = ground arith

abbrev pub asks : RecoveryDecision → Bool
asks ask_user = true
asks _ = false

decide_on_answers :
    (r : Recovery) (c : FailureClass) (d : RecoveryDecision)
    → ((decide_on r c d).1 ≢ abort)
    → (r.enabled ≡ true) × ((decide_on r c d).1 ≡ d) × ((not (asks d) || r.interactive) ≡ true)
unfolding decide_on
decide_on_answers r c retry h = (ground arith, ground arith, ground arith)
decide_on_answers r c _ h = (ground arith, ground arith, ground arith)

-- An answer other than ABORT is the table's first choice for the failure and needs recovery to be
-- enabled; ASK_USER also needs an interactive run.
pub decide_answers :
    (r : Recovery) (c : FailureClass)
    → (decide r c).1 ≢ abort
    → (r.enabled ≡ true)
      × ((decide r c).1 ≡ strategy c)
      × ((not (asks (strategy c)) || r.interactive) ≡ true)
unfolding decide
decide_answers r c = decide_on_answers r c (strategy c)

-- With recovery disabled, and for a failure whose first choice is to ask or to abort, nothing is
-- charged and nothing changes.
pub decide_free :
    (r : Recovery) (c : FailureClass)
    → ((r.enabled ≡ false) ⊎ (is_attempt (strategy c) ≡ false))
    → (decide r c).0 ≡ r
unfolding decide
decide_free r c = decide_on_free r c (strategy c)
