-- ===== src/Recovery/Runs.antt =====
-- What agent_control/recovery.py promises over a whole run of failures.
use freaky_monkey.Base.{ℕ, ◌+◌, ◌≤◌, List, [], ◌∷◌, arith}
use freaky_monkey.Types.Failure.{FailureClass}
use freaky_monkey.Recovery.Budget.{RecoveryDecision, RecoveryBudget, Recovery, decide, decide_all}
use freaky_monkey.Recovery.Bounds.{
  WithinLimits, SameLimits, Charged, uses_retry, uses_reobserve, uses_replan, uses_attempt,
  decide-WithinLimits, decide-SameLimits, decide-Charged,
}

-- A cost summed over the answers.
abbrev pub total : (RecoveryDecision → ℕ) → List RecoveryDecision → ℕ
total cost [] = 0
total cost (d ∷ ds) = cost d + total cost ds

-- What a run has used, and what it had at its start.
pub record Bounded (b : RecoveryBudget) (ds : List RecoveryDecision) : Type 0 where
  pub retries : b.retries_used + total uses_retry ds ≤ b.max_retries
  pub reobserves : b.reobserves_used + total uses_reobserve ds ≤ b.max_reobserves
  pub replans : b.replans_used + total uses_replan ds ≤ b.max_replans
  pub attempts : b.recovery_attempts_used + total uses_attempt ds ≤ b.max_recovery_attempts

Bounded-cons :
    (b c : RecoveryBudget) (d : RecoveryDecision) (ds : List RecoveryDecision)
    → SameLimits b c
    → Charged b c d
    → Bounded c ds
    → Bounded b (d ∷ ds)
Bounded-cons b c d ds s g h = record {
  retries = omega arith;
  reobserves = omega arith;
  replans = omega arith;
  attempts = omega arith;
}

-- However long the run of failures, the retries, the re-observations, the re-plans and the
-- recovery attempts that are granted stay within what was left of each ceiling at its start.
pub decide_all-Bounded :
    (r : Recovery) (cs : List FailureClass)
    → WithinLimits r.budget
    → Bounded r.budget (decide_all r cs).1
unfolding decide_all
decide_all-Bounded r [] h = record {
  retries = omega arith;
  reobserves = omega arith;
  replans = omega arith;
  attempts = omega arith;
}
decide_all-Bounded r (c ∷ cs) h =
    let r' = (decide r c).0 in
    Bounded-cons r.budget r'.budget (decide r c).1 (decide_all r' cs).1 (decide-SameLimits r c)
      (decide-Charged r c) (decide_all-Bounded r' cs (decide-WithinLimits r c h))
