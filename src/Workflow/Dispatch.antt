-- ===== src/Workflow/Dispatch.antt =====
-- What the submission loop of agent_control/workflow/scheduler.py promises.
use freaky_monkey.Base.{
  ℕ, ◌+◌, ◌≤◌, ◌<◌, String, Bool, true, false, Option, none, some, List, [], ◌∷◌, ◌≡◌, ◌≢◌, refl,
  ◌⊎◌, inl, inr, arith, any, tally, leb, ◌&&◌, str_eq, eq_iff, Bool-cases, if◌then◌else◌,
}
use freaky_monkey.Base.Dict.{lookup-insert}
use freaky_monkey.Workflow.Status.{StepStatus}
use freaky_monkey.Workflow.Model.{WorkflowStep}
use freaky_monkey.Workflow.Locks.{LockManager, try_acquire, is_locked}
use freaky_monkey.Workflow.Run.{submit, dispatch}

-- The nodes that a list marks.
abbrev pub marked : List (WorkflowStep × Bool) → ℕ
marked = tally (λ m. m.1)

submit-count :
    (max n : ℕ) (locks : LockManager) (s : WorkflowStep)
    → (if (submit max locks n s).2 then 1 else 0) + n ≤ (if leb max n then n else n + 1)
unfolding submit
submit-count max n locks s = ground arith

-- At most `max_concurrency` nodes run at once, whatever the list of ready nodes.
pub dispatch-marked :
    (max n : ℕ) (locks : LockManager) (ms : List (WorkflowStep × Bool))
    → n ≤ max
    → marked (dispatch max locks n ms).1 + n ≤ max
unfolding dispatch
dispatch-marked max n locks [] h = omega arith
dispatch-marked max n locks ((s, false) ∷ ms) h = omega (arith, dispatch-marked max n locks ms h)
dispatch-marked max n locks ((s, true) ∷ ms) h = elim (Bool-cases (submit max locks n s).2) [
  | inl taken ↦
      ground
        (arith, submit-count max n locks s, dispatch-marked max (n + 1) (submit max locks n s).0 ms)
  | inr kept ↦ ground (arith, dispatch-marked max n (submit max locks n s).0 ms)
]

-- A step's resource is this one.
abbrev pub uses : String → WorkflowStep → Bool
uses r s = elim s.resource_key [ none ↦ false | some q ↦ str_eq q r ]

abbrev pub as_number : Bool → ℕ
as_number b = if b then 1 else 0

abbrev pub key_is : String → Option String → Bool
key_is r none = false
key_is r (some q) = str_eq q r

try_acquire-locked :
    (locks : LockManager) (o : Option String) (node r : String)
    → r ≢ ""
    → as_number ((try_acquire locks o node).1 && key_is r o) + as_number (is_locked locks r)
      ≡ as_number (is_locked (try_acquire locks o node).0 r)
unfolding try_acquire
try_acquire-locked locks none node r named = omega arith
try_acquire-locked locks (some q) node r named =
    ground (arith, eq_iff q "", eq_iff q r, lookup-insert q r true locks.locks)

-- How many marked nodes use a resource.
abbrev pub holders : String → List (WorkflowStep × Bool) → ℕ
holders r = tally (λ m. m.1 && uses r m.0)

submit-locked :
    (max n : ℕ) (locks : LockManager) (s : WorkflowStep) (r : String)
    → r ≢ ""
    → as_number ((submit max locks n s).2 && uses r (submit max locks n s).1)
        + as_number (is_locked locks r)
      ≡ as_number (is_locked (submit max locks n s).0 r)
unfolding submit
submit-locked max n locks s r named =
    ground (arith, try_acquire-locked locks s.resource_key s.step_id r named)

-- After the submission loop a resource is locked exactly as often as submitted nodes hold it, on
-- top of its lock before.
pub dispatch-locked :
    (max n : ℕ) (locks : LockManager) (ms : List (WorkflowStep × Bool)) (r : String)
    → r ≢ ""
    → holders r (dispatch max locks n ms).1 + as_number (is_locked locks r)
      ≡ as_number (is_locked (dispatch max locks n ms).0 r)
unfolding dispatch
dispatch-locked max n locks [] r named = omega arith
dispatch-locked max n locks ((s, false) ∷ ms) r named =
    omega (arith, dispatch-locked max n locks ms r named)
dispatch-locked max n locks ((s, true) ∷ ms) r named =
    let (locks', s', taken) = submit max locks n s in
    omega (
      arith,
      submit-locked max n locks s r named,
      dispatch-locked max (if taken then n + 1 else n) locks' ms r named,
    )

as_number-le : (b : Bool) → as_number b ≤ 1
as_number-le b = ground arith

-- No two nodes of one round use the same resource, and none uses a resource that was locked before.
pub dispatch_exclusive :
    (max n : ℕ) (locks : LockManager) (ms : List (WorkflowStep × Bool)) (r : String)
    → r ≢ ""
    → holders r (dispatch max locks n ms).1 + as_number (is_locked locks r) ≤ 1
dispatch_exclusive max n locks ms r named = omega (
  arith,
  dispatch-locked max n locks ms r named,
  as_number-le (is_locked (dispatch max locks n ms).0 r),
)

-- What the submission loop does to a node: a node that is not ready is left alone, and a ready node
-- is submitted and RUNNING or waits for a resource.
abbrev pub Sent : WorkflowStep → Bool → WorkflowStep → Bool → Type 0
Sent s r t taken =
    (r ≡ false) × (t ≡ s) × (taken ≡ false)
    ⊎ (r ≡ true) × (t ≡ record s { status = StepStatus.running }) × (taken ≡ true)
    ⊎ (r ≡ true) × (t ≡ record s { status = StepStatus.waiting_resource }) × (taken ≡ false)

abbrev pub Sends : List (WorkflowStep × Bool) → List (WorkflowStep × Bool) → Type 0
Sends [] [] = Unit
Sends ((s, r) ∷ ms) ((t, taken) ∷ sent) = Sent s r t taken × Sends ms sent
Sends _ _ = ⊥

submit-Sent :
    (max n : ℕ) (locks : LockManager) (s : WorkflowStep)
    → Sent s true (submit max locks n s).1 (submit max locks n s).2
unfolding submit
submit-Sent max n locks s = ground arith

-- The submission loop leaves a node that is not ready alone. A ready node is submitted and RUNNING,
-- or is left out and WAITING_RESOURCE.
pub dispatch-Sends :
    (max n : ℕ) (locks : LockManager) (ms : List (WorkflowStep × Bool))
    → Sends ms (dispatch max locks n ms).1
unfolding dispatch
dispatch-Sends max n locks [] = tt
dispatch-Sends max n locks ((s, false) ∷ ms) =
    (inl (refl, refl, refl), dispatch-Sends max n locks ms)
dispatch-Sends max n locks ((s, true) ∷ ms) =
    let (locks', s', taken) = submit max locks n s in
    (submit-Sent max n locks s, dispatch-Sends max (if taken then n + 1 else n) locks' ms)

submit_first :
    (max : ℕ) (locks : LockManager) (s : WorkflowStep)
    → 0 < max
    → ((r : String) → r ≢ "" → is_locked locks r ≡ false)
    → (submit max locks 0 s).2 ≡ true
unfolding submit try_acquire
submit_first max locks s h free = by_key s.resource_key refl
  where
    by_key : (o : Option String) → s.resource_key ≡ o → (submit max locks 0 s).2 ≡ true
    by_key none e = ground (arith, e)
    by_key (some q) e = elim (Bool-cases (str_eq q "")) [
      | inl empty ↦ ground (arith, e, empty)
      | inr named ↦
          ground (arith, e, named, free q (λ p. absurd (ground (arith, eq_iff q "", p, named))))
    ]

-- With a concurrency of at least one and no resource locked, a round that has a ready node submits
-- one: the branch that rescans without any future is never taken.
pub dispatch_progress :
    (max : ℕ) (locks : LockManager) (ms : List (WorkflowStep × Bool))
    → 0 < max
    → ((r : String) → r ≢ "" → is_locked locks r ≡ false)
    → any (λ m. m.1) ms ≡ true
    → any (λ m. m.1) (dispatch max locks 0 ms).1 ≡ true
unfolding dispatch
dispatch_progress max locks [] h free some_ready = cc
dispatch_progress max locks ((s, false) ∷ ms) h free some_ready =
    dispatch_progress max locks ms h free some_ready
dispatch_progress max locks ((s, true) ∷ ms) h free some_ready =
    ground (arith, submit_first max locks s h free)
