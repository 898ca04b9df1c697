-- ===== src/Types/Verdicts.antt =====
-- What the aggregate verdict of agent_control/types.py promises.
use freaky_monkey.Base.{
  true, false, List, [], ◌∷◌, ◌++◌, ◌≡◌, ◌≢◌, refl, ◌↔◌, any, all, any-append, arith,
}
use freaky_monkey.Types.Verification.{
  Verdict, Check, pass, fail, unknown, is_pass, is_fail, is_unknown, verdict_of,
}

all_pass_iff :
    (cs : List Check)
    → (all (λ c. is_pass c.verdict) cs ≡ true)
      ↔ ((any (λ c. is_fail c.verdict) cs ≡ false) × (any (λ c. is_unknown c.verdict) cs ≡ false))
all_pass_iff [] = (λ h. (refl, refl), λ h. refl)
all_pass_iff (c ∷ cs) =
    let (to, from) = all_pass_iff cs in (λ h. ground (arith, to), λ h. ground (arith, from))

-- The aggregate is PASS exactly when there is a check and every check is PASS: an UNKNOWN check,
-- or no check at all, never becomes success.
pub verdict-pass_iff :
    (cs : List Check)
    → (verdict_of cs ≡ pass) ↔ ((cs ≢ []) × (all (λ c. is_pass c.verdict) cs ≡ true))
unfolding verdict_of
verdict-pass_iff [] = (λ h. cc, λ h. absurd (h.0 refl))
verdict-pass_iff (c ∷ cs) =
    let (to, from) = all_pass_iff (c ∷ cs) in
    (λ h. (λ e. cc, from (ground arith)), λ h. ground (arith, to h.1))

-- The worse of two verdicts: FAIL before UNKNOWN before PASS.
abbrev pub worse : Verdict → Verdict → Verdict
worse fail w = fail
worse unknown fail = fail
worse unknown w = unknown
worse pass w = w

-- Two non-empty groups of checks taken together have the worse of their two verdicts, so neither
-- the order of the checks nor more of them can turn a FAIL or an UNKNOWN into a PASS.
pub verdict-append :
    (cs ds : List Check)
    → cs ≢ []
    → ds ≢ []
    → verdict_of (cs ++ ds) ≡ worse (verdict_of cs) (verdict_of ds)
unfolding verdict_of
verdict-append [] ds h k = absurd (h refl)
verdict-append (c ∷ cs) [] h k = absurd (k refl)
verdict-append (c ∷ cs) (d ∷ ds) h k = ground (
  arith,
  any-append (λ x. is_fail x.verdict) cs (d ∷ ds),
  any-append (λ x. is_unknown x.verdict) cs (d ∷ ds),
)
