-- ===== src/Workflow/Locks.antt =====
-- agent_control/workflow/scheduler.py: `ResourceLockManager`. A lock is a flag; the guard makes each
-- method one step.
use freaky_monkey.Base.{
  String, Bool, true, false, Option, none, some, List, [], ◌≡◌, ◌≢◌, refl, arith, str_eq, eq_iff,
  not, if◌then◌else◌, Bool-cases, inl, inr,
}
use freaky_monkey.Base.Dict.{lookup, insert, remove, has_key, get_or, lookup-insert, lookup-remove}

pub record LockManager : Type 0 where
  pub locks : List (String × Bool)
  pub owners : List (String × String)

-- A manager that no one has used.
abbrev pub new_manager : LockManager
new_manager = record { locks = []; owners = [] }

-- `not resource`: there is no key, or it is empty.
abbrev pub no_resource : Option String → Bool
no_resource none = true
no_resource (some r) = str_eq r ""

-- A lock that is not in the table yet is free.
abbrev pub is_locked : LockManager → String → Bool
is_locked m r = get_or false r m.locks

acquire_named : LockManager → String → String → LockManager × Bool
acquire_named m r node =
    if is_locked m r
    then (m, false)
    else (record { locks = insert r true m.locks; owners = insert r node m.owners }, true)

unfoldable pub try_acquire : LockManager → Option String → String → LockManager × Bool
unfolding acquire_named
try_acquire m none node = (m, true)
try_acquire m (some r) node = if no_resource (some r) then (m, true) else acquire_named m r node

abbrev pub owned_by : Option String → String → Bool
owned_by none node = false
owned_by (some o) node = str_eq o node

-- `none` is the RuntimeError of releasing a lock that is free.
free_lock : List (String × Bool) → String → Option (List (String × Bool))
free_lock locks r = elim (lookup r locks) [
  | none ↦ some locks
  | some held ↦ if held then some (insert r false locks) else none
]

release_named : LockManager → String → String → Option LockManager
unfolding free_lock
release_named m r node =
    if owned_by (lookup r m.owners) node
    then elim (free_lock m.locks r) [
      | none ↦ none
      | some locks ↦ some (record { locks = locks; owners = remove r m.owners })
    ]
    else some m

unfoldable pub release : LockManager → Option String → String → Option LockManager
unfolding release_named
release m none node = some m
release m (some r) node = if no_resource (some r) then some m else release_named m r node

unfoldable pub owner : LockManager → String → Option String
owner m r = lookup r m.owners

-- A lock is held exactly while its resource has an owner.
abbrev pub IsConsistent : LockManager → Type 0
IsConsistent m = (r : String) → is_locked m r ≡ has_key r m.owners

pub new_manager-IsConsistent : IsConsistent new_manager
unfolding lookup
new_manager-IsConsistent r = refl

acquire_named-IsConsistent :
    (m : LockManager) (r node : String) → IsConsistent m → IsConsistent (acquire_named m r node).0
unfolding acquire_named
acquire_named-IsConsistent m r node h q =
    ground (arith, h q, lookup-insert r q true m.locks, lookup-insert r q node m.owners)

-- Acquiring keeps locks and owners in step, whether it succeeds or not.
pub try_acquire-IsConsistent :
    (m : LockManager) (r : Option String) (node : String)
    → IsConsistent m
    → IsConsistent (try_acquire m r node).0
unfolding try_acquire
try_acquire-IsConsistent m none node h = h
try_acquire-IsConsistent m (some r) node h = elim (Bool-cases (str_eq r "")) [
  | inl empty ↦ λ q. rw empty (h q)
  | inr named ↦ λ q. rw named (acquire_named-IsConsistent m r node h q)
]

-- The owner of each resource after a release: the resource is freed if the node owned it, and
-- nothing else changes.
abbrev pub Releases : LockManager → String → String → LockManager → Type 0
Releases m r node m' =
    (q : String)
    → owner m' q
      ≡ (if str_eq r q then (if owned_by (owner m r) node then none else owner m r) else owner m q)

release_named_lem :
    (m : LockManager) (r node : String)
    → IsConsistent m
    → (m' : LockManager) × (release_named m r node ≡ some m')
      × IsConsistent m'
      × Releases m r node m'
unfolding release_named owner
release_named_lem m r node h = elim (Bool-cases (owned_by (lookup r m.owners) node)) [
  | inr other ↦ (m, ground arith, h, λ q. ground (arith, eq_iff r q))
  | inl own ↦ (
    record { locks = insert r false m.locks; owners = remove r m.owners },
    ground (arith, h r),
    λ q. ground (arith, h q, lookup-insert r q false m.locks, lookup-remove r q m.owners),
    λ q. ground (arith, lookup-remove r q m.owners),
  )
]

-- On consistent state a release never fails. It frees the resource if the node owns it and leaves
-- every other owner alone; a release by a node that is not the owner changes no owner.
pub release_lem :
    (m : LockManager) (r node : String)
    → r ≢ ""
    → IsConsistent m
    → (m' : LockManager) × (release m (some r) node ≡ some m')
      × IsConsistent m'
      × Releases m r node m'
unfolding release
release_lem m r node named h =
    let (m', e, c, f) = release_named_lem m r node h in (m', ground (arith, eq_iff r ""), c, f)

-- A resource is granted exactly when it has no owner; it then belongs to the node, and no other
-- resource changes hands. A refused request changes no owner.
pub try_acquire_lem :
    (m : LockManager) (r node q : String)
    → r ≢ ""
    → IsConsistent m
    → ((try_acquire m (some r) node).1 ≡ not (has_key r m.owners))
      × (owner (try_acquire m (some r) node).0 q ≡ (
          if not (has_key r m.owners)
          then (if str_eq r q then some node else owner m q)
          else owner m q))
unfolding try_acquire owner
try_acquire_lem m r node q named h =
    ground (arith, h r, eq_iff r "", lookup-insert r q node m.owners)
