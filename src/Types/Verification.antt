-- ===== src/Types/Verification.antt =====
-- agent_control/types.py: `Verdict`, `Check` and `VerificationResult`.
use freaky_monkey.Base.{String, Bool, true, false, List, [], ◌∷◌, any, keep, not, if◌then◌else◌}
use freaky_monkey.Json.{Params}

pub data Verdict : Type 0 where
  pass fail unknown : Verdict

abbrev pub is_pass : Verdict → Bool
is_pass pass = true
is_pass _ = false

abbrev pub is_fail : Verdict → Bool
is_fail fail = true
is_fail _ = false

abbrev pub is_unknown : Verdict → Bool
is_unknown unknown = true
is_unknown _ = false

pub record Check : Type 0 where
  pub name : String
  pub verdict : Verdict
  pub evidence : Params
  pub reason : String

pub record VerificationResult : Type 0 where
  pub checks : List Check
  pub label : String

-- The property `verdict`, over the checks.
unfoldable pub verdict_of : List Check → Verdict
verdict_of [] = unknown
verdict_of (c ∷ cs) =
    if any (λ c'. is_fail c'.verdict) (c ∷ cs)
    then fail
    else if any (λ c'. is_unknown c'.verdict) (c ∷ cs)
    then unknown
    else pass

unfoldable pub verdict : VerificationResult → Verdict
unfolding verdict_of
verdict v = verdict_of v.checks

unfoldable pub failed : VerificationResult → List Check
failed v = keep (λ c. not (is_pass c.verdict)) v.checks
