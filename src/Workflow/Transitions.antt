-- ===== src/Workflow/Transitions.antt =====
-- agent_control/workflow/models.py: `WorkflowStep.transition_to`, the state machine of one step.
use freaky_monkey.Base.{
  Bool, true, false, Option, none, some, List, [], ◌∷◌, ◌≡◌, ◌≢◌, refl, ◌⊎◌, inl, inr, arith,
  if◌then◌else◌, any, Bool-cases,
}
use freaky_monkey.Workflow.Status.{
  StepStatus, pending, ready, waiting_resource, waiting_for_approval, waiting_for_user, running,
  verifying, completed, failed, recovery_required, cancelled, unknown, blocked, recovering,
}
use freaky_monkey.Workflow.Model.{WorkflowStep}

-- `target in allowed.get(self.status, set())`
unfoldable pub allowed : StepStatus → StepStatus → Bool
allowed pending ready = true
allowed pending waiting_resource = true
allowed pending waiting_for_approval = true
allowed pending waiting_for_user = true
allowed pending cancelled = true
allowed pending blocked = true
allowed ready running = true
allowed ready waiting_resource = true
allowed ready cancelled = true
allowed waiting_resource ready = true
allowed waiting_resource running = true
allowed waiting_resource cancelled = true
allowed waiting_for_approval ready = true
allowed waiting_for_approval cancelled = true
allowed waiting_for_user pending = true
allowed waiting_for_user cancelled = true
allowed running verifying = true
allowed running failed = true
allowed running unknown = true
allowed running cancelled = true
allowed verifying completed = true
allowed verifying failed = true
allowed verifying unknown = true
allowed verifying recovery_required = true
allowed recovering ready = true
allowed recovering cancelled = true
allowed recovering failed = true
allowed failed recovering = true
allowed failed cancelled = true
allowed unknown recovering = true
allowed unknown cancelled = true
allowed blocked recovering = true
allowed blocked cancelled = true
allowed recovery_required recovering = true
allowed recovery_required cancelled = true
allowed _ _ = false

-- `none` is the ValueError of a transition that is not allowed; the step stays as it was.
unfoldable pub transition_to : WorkflowStep → StepStatus → Option WorkflowStep
transition_to s target =
    if allowed s.status target then some (record s { status = target }) else none

-- Transitions one after the other; the first that is refused ends the run.
unfoldable pub transitions : WorkflowStep → List StepStatus → Option WorkflowStep
transitions s [] = some s
transitions s (t ∷ ts) = elim (transition_to s t) [ none ↦ none | some s' ↦ transitions s' ts ]

abbrev pub IsFinal : StepStatus → Type 0
IsFinal s = (s ≡ completed) ⊎ (s ≡ cancelled)

allowed-final : (s t : StepStatus) → IsFinal s → allowed s t ≡ false
unfolding allowed
allowed-final s t h = ground arith

-- A completed or cancelled step takes no transition at all.
pub transition_to-final :
    (s : WorkflowStep) (t : StepStatus) → IsFinal s.status → transition_to s t ≡ none
unfolding transition_to
transition_to-final s t h = rw (allowed-final s.status t h)

abbrev pub is_verifying : StepStatus → Bool
is_verifying verifying = true
is_verifying _ = false

abbrev pub is_running : StepStatus → Bool
is_running running = true
is_running _ = false

-- The statuses a step has to leave before it can be verified, and before it can be completed.
abbrev past_running : StepStatus → Bool
past_running running = true
past_running verifying = true
past_running completed = true
past_running _ = false

abbrev past_verifying : StepStatus → Bool
past_verifying verifying = true
past_verifying completed = true
past_verifying _ = false

allowed-running :
    (s t : StepStatus)
    → allowed s t ≡ true
    → past_running s ≡ false
    → (is_running t ≡ true) ⊎ (past_running t ≡ false)
unfolding allowed
allowed-running s t h k = ground arith

allowed-verifying :
    (s t : StepStatus)
    → allowed s t ≡ true
    → past_verifying s ≡ false
    → (is_verifying t ≡ true) ⊎ (past_verifying t ≡ false)
unfolding allowed
allowed-verifying s t h k = ground arith

verifying_needed :
    (s t : WorkflowStep) (ts : List StepStatus)
    → past_verifying s.status ≡ false
    → transitions s ts ≡ some t
    → past_verifying t.status ≡ true
    → any is_verifying ts ≡ true
unfolding transitions transition_to
verifying_needed s t [] h e k = ground arith
verifying_needed s t (u ∷ ts) h e k = elim (Bool-cases (allowed s.status u)) [
  | inr no_move ↦ ground arith
  | inl move ↦ elim (allowed-verifying s.status u move h) [
    | inl now ↦ ground arith
    | inr later ↦
        ground (arith, verifying_needed (record s { status = u }) t ts later (ground arith) k)
  ]
]

running_needed :
    (s t : WorkflowStep) (ts : List StepStatus)
    → past_running s.status ≡ false
    → transitions s ts ≡ some t
    → past_running t.status ≡ true
    → any is_running ts ≡ true
unfolding transitions transition_to
running_needed s t [] h e k = ground arith
running_needed s t (u ∷ ts) h e k = elim (Bool-cases (allowed s.status u)) [
  | inr no_move ↦ ground arith
  | inl move ↦ elim (allowed-running s.status u move h) [
    | inl now ↦ ground arith
    | inr later ↦
        ground (arith, running_needed (record s { status = u }) t ts later (ground arith) k)
  ]
]

-- A step that starts PENDING and is COMPLETED by its state machine has been RUNNING and VERIFYING
-- on the way: there is no path to success that skips the verification.
pub transitions-completed :
    (s t : WorkflowStep) (ts : List StepStatus)
    → s.status ≡ pending
    → transitions s ts ≡ some t
    → t.status ≡ completed
    → (any is_running ts ≡ true) × (any is_verifying ts ≡ true)
transitions-completed s t ts h e k =
    (running_needed s t ts (rw h) e (rw k), verifying_needed s t ts (rw h) e (rw k))

-- A shortest way to completion.
abbrev route : StepStatus → List StepStatus
route pending = ready ∷ running ∷ verifying ∷ completed ∷ []
route ready = running ∷ verifying ∷ completed ∷ []
route waiting_resource = running ∷ verifying ∷ completed ∷ []
route waiting_for_approval = ready ∷ running ∷ verifying ∷ completed ∷ []
route waiting_for_user = pending ∷ ready ∷ running ∷ verifying ∷ completed ∷ []
route running = verifying ∷ completed ∷ []
route verifying = completed ∷ []
route recovering = ready ∷ running ∷ verifying ∷ completed ∷ []
route completed = []
route _ = recovering ∷ ready ∷ running ∷ verifying ∷ completed ∷ []

route_from :
    (s : WorkflowStep) (k : StepStatus)
    → s.status ≡ k
    → k ≢ cancelled
    → transitions s (route k) ≡ some (record s { status = completed })
unfolding transitions transition_to allowed
route_from s pending e h = ground arith
route_from s _ e h = ground arith

-- From every status but CANCELLED, the failed and blocked ones included, some sequence of allowed
-- transitions completes the step.
pub completion_reachable :
    (s : WorkflowStep)
    → s.status ≢ cancelled
    → (ts : List StepStatus) × (transitions s ts ≡ some (record s { status = completed }))
completion_reachable s h = (route s.status, route_from s s.status refl h)
