-- ===== src/Workflow/Freed.antt =====
-- agent_control/workflow/scheduler.py: the owners of the resources through a round of `run`.
use freaky_monkey.Base.{
  ℕ, suc, ◌+◌, String, Bool, true, false, Option, none, some, List, [], ◌∷◌, ◌≡◌, ◌≢◌, refl, ◌∙◌,
  arith, ◌&&◌, ◌||◌, any, get_elem?, str_eq, eq_iff, inl, inr, Bool-cases, Option-cases,
  if◌then◌else◌,
}
use freaky_monkey.Base.Dict.{lookup-insert}
use freaky_monkey.Workflow.Model.{WorkflowStep}
use freaky_monkey.Workflow.Locks.{
  LockManager, release, try_acquire, owner, owned_by, is_locked, IsConsistent, release_lem,
}
use freaky_monkey.Workflow.Run.{submit, dispatch}
use freaky_monkey.Workflow.Dispatch.{key_is}

-- The owner of a resource after a node has released its own.
abbrev pub released : LockManager → Option String → String → String → Option String
released m key node q = if key_is q key && owned_by (owner m q) node then none else owner m q

pub owner-release :
    (m : LockManager) (key : Option String) (node : String)
    → IsConsistent m
    → (m' : LockManager) × (release m key node ≡ some m')
      × IsConsistent m'
      × ((q : String) → q ≢ "" → owner m' q ≡ released m key node q)
unfolding release
owner-release m none node h = (m, refl, h, λ q named. refl)
owner-release m (some r) node h = elim (Bool-cases (str_eq r "")) [
  | inl empty ↦ (m, ground arith, h, λ q named. ground (arith, eq_iff r "", eq_iff r q, named))
  | inr named ↦
      let (m', e, c, f) =
        release_lem m r node (λ p. absurd (ground (arith, eq_iff r "", p, named))) h in
      (m', e, c, λ q _. ground (arith, f q, eq_iff r q))
]

-- The node holds the resource.
abbrev pub holds : String → String → WorkflowStep → Bool
holds r node s = key_is r s.resource_key && str_eq s.step_id node

submit-owner :
    (max n : ℕ) (locks : LockManager) (s : WorkflowStep) (r node : String)
    → owned_by (owner (submit max locks n s).0 r) node ≡ true
    → (owned_by (owner locks r) node
        || (submit max locks n s).2 && holds r node (submit max locks n s).1)
      ≡ true
unfolding submit try_acquire owner
submit-owner max n locks s r node h = by_key s.resource_key refl
  where
    by_key :
        (o : Option String)
        → s.resource_key ≡ o
        → (owned_by (owner locks r) node
            || (submit max locks n s).2 && holds r node (submit max locks n s).1)
          ≡ true
    by_key none e = ground (arith, e, h)
    by_key (some q) e =
        ground (arith, e, h, eq_iff q "", eq_iff q r, lookup-insert q r s.step_id locks.owners)

-- Who owns a resource after the submission loop owned it before, or is a node that was submitted and holds it.
pub dispatch-owner :
    (max n : ℕ) (locks : LockManager) (ms : List (WorkflowStep × Bool)) (r node : String)
    → owned_by (owner (dispatch max locks n ms).0 r) node ≡ true
    → (owned_by (owner locks r) node
        || any (λ m. m.1 && holds r node m.0) (dispatch max locks n ms).1)
      ≡ true
unfolding dispatch
dispatch-owner max n locks [] r node h = ground arith
dispatch-owner max n locks ((s, false) ∷ ms) r node h = dispatch-owner max n locks ms r node h
dispatch-owner max n locks ((s, true) ∷ ms) r node h = ground (
  arith,
  submit-owner max n locks s r node,
  dispatch-owner max (if (submit max locks n s).2 then n + 1 else n) (submit max locks n s).0 ms r
      node h,
)

-- A node of a list that was submitted and holds the resource.
pub holder_at :
    (sent : List (WorkflowStep × Bool)) (r node : String)
    → any (λ m. m.1 && holds r node m.0) sent ≡ true
    → (k : ℕ) × (u : WorkflowStep) × (get_elem? sent k ≡ some (u, true)) × (holds r node u ≡ true)
holder_at [] r node h = cc
holder_at ((s, taken) ∷ sent) r node h = elim (Bool-cases (taken && holds r node s)) [
  | inl here ↦ (0, s, ground arith, ground arith)
  | inr there ↦ let (k, u, e, held) = holder_at sent r node (ground arith) in (suc k, u, e, held)
]

-- A resource whose owner is gone is free.
pub unowned_free :
    (m : LockManager) (r : String)
    → IsConsistent m
    → ((node : String) → owned_by (owner m r) node ≡ false)
    → is_locked m r ≡ false
unfolding owner
unowned_free m r h gone = elim (Option-cases (owner m r)) [
  | inl nobody ↦ h r ∙ (ground (arith, nobody))
  | inr (o, e) ↦ absurd (ground (arith, e, gone o, eq_iff o o))
]
