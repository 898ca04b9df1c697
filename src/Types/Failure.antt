-- ===== src/Types/Failure.antt =====
-- agent_control/types.py: `FailureClass`. A member has a name and a value, which differ for the
-- workflow-facing classes.
use freaky_monkey.Base.{String, Bool, true, false, List, [], ◌∷◌}

pub data FailureClass : Type 0 where
  transient stale_state precondition_failed action_failed : FailureClass
  expected_state_not_reached navigation_timeout verification_failed : FailureClass
  permission_denied environment inconclusive ambiguous unknown : FailureClass
  execution_exception execution_timeout browser_connection_failed : FailureClass
  application_not_found target_not_found stale_observation : FailureClass
  verification_unknown policy_denied approval_required resource_unavailable : FailureClass
  dependency_failed action_may_have_succeeded cancellation_requested : FailureClass
  recovery_exhausted unrecoverable_failure : FailureClass

-- The members in the order of the class body.
abbrev pub members : List FailureClass
members =
    transient ∷ stale_state ∷ precondition_failed ∷ action_failed ∷ expected_state_not_reached
    ∷ navigation_timeout ∷ verification_failed ∷ permission_denied ∷ environment ∷ inconclusive
    ∷ ambiguous ∷ unknown ∷ execution_exception ∷ execution_timeout ∷ browser_connection_failed
    ∷ application_not_found ∷ target_not_found ∷ stale_observation ∷ verification_unknown
    ∷ policy_denied ∷ approval_required ∷ resource_unavailable ∷ dependency_failed
    ∷ action_may_have_succeeded ∷ cancellation_requested ∷ recovery_exhausted
    ∷ unrecoverable_failure ∷ []

abbrev pub name : FailureClass → String
name transient = "TRANSIENT"
name stale_state = "STALE_STATE"
name precondition_failed = "PRECONDITION_FAILED"
name action_failed = "ACTION_FAILED"
name expected_state_not_reached = "EXPECTED_STATE_NOT_REACHED"
name navigation_timeout = "NAVIGATION_TIMEOUT"
name verification_failed = "VERIFICATION_FAILED"
name permission_denied = "PERMISSION_DENIED"
name environment = "ENVIRONMENT"
name inconclusive = "INCONCLUSIVE"
name ambiguous = "AMBIGUOUS"
name unknown = "UNKNOWN"
name execution_exception = "EXECUTION_EXCEPTION"
name execution_timeout = "EXECUTION_TIMEOUT"
name browser_connection_failed = "BROWSER_CONNECTION_FAILED"
name application_not_found = "APPLICATION_NOT_FOUND"
name target_not_found = "TARGET_NOT_FOUND"
name stale_observation = "STALE_OBSERVATION"
name verification_unknown = "VERIFICATION_UNKNOWN"
name policy_denied = "POLICY_DENIED"
name approval_required = "APPROVAL_REQUIRED"
name resource_unavailable = "RESOURCE_UNAVAILABLE"
name dependency_failed = "DEPENDENCY_FAILED"
name action_may_have_succeeded = "ACTION_MAY_HAVE_SUCCEEDED"
name cancellation_requested = "CANCELLATION_REQUESTED"
name recovery_exhausted = "RECOVERY_EXHAUSTED"
name unrecoverable_failure = "UNRECOVERABLE_FAILURE"

-- `.value`: the coarse classes repeat the name, the later ones are in lower case.
abbrev pub value : FailureClass → String
value expected_state_not_reached = "expected_state_not_reached"
value navigation_timeout = "navigation_timeout"
value execution_exception = "execution_exception"
value execution_timeout = "execution_timeout"
value browser_connection_failed = "browser_connection_failed"
value application_not_found = "application_not_found"
value target_not_found = "target_not_found"
value stale_observation = "stale_observation"
value verification_unknown = "verification_unknown"
value policy_denied = "policy_denied"
value approval_required = "approval_required"
value resource_unavailable = "resource_unavailable"
value dependency_failed = "dependency_failed"
value action_may_have_succeeded = "action_may_have_succeeded"
value cancellation_requested = "cancellation_requested"
value recovery_exhausted = "recovery_exhausted"
value unrecoverable_failure = "unrecoverable_failure"
value c = name c

abbrev pub is_unknown : FailureClass → Bool
is_unknown unknown = true
is_unknown _ = false
