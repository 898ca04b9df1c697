-- ===== src/Workflow/Lasting.antt =====
-- agent_control/workflow/scheduler.py: a COMPLETED node stays COMPLETED through `run`.
use freaky_monkey.Base.{
  ℕ, zero, suc, ◌+◌, ◌-◌, ◌≤◌, String, Bool, true, false, Option, none, some, List, [], ◌∷◌, ◌≡◌,
  refl, ap, ◌∙◌, subst, arith, All, All-map_of, map, not, ◌||◌, get_elem?, inl, inr, Bool-cases,
  Option-cases,
}
use freaky_monkey.Base.Dict.{insert}
use freaky_monkey.Json.{Params}
use freaky_monkey.Workflow.Status.{is_completed}
use freaky_monkey.Workflow.Model.{WorkflowStep, Workflow}
use freaky_monkey.Workflow.Locks.{LockManager, release}
use freaky_monkey.Workflow.Ready.{ok, >>=-eq-ok, ok-injective, marked_steps}
use freaky_monkey.Workflow.Readiness.{Marks}
use freaky_monkey.Workflow.Run.{
  Outcome, returned, threw, Environment, RunState, futures_from, finish, fail_with, verified,
  context_with, fill_dependent,
}
use freaky_monkey.Workflow.Dispatch.{Sends}
use freaky_monkey.Workflow.Rounds.{
  set_step, receive, after_outcome, with_locks, complete, complete_all,
}

-- What an edge of the graph names.
abbrev pub shape : WorkflowStep → String × List String
shape s = (s.step_id, s.dependencies)

-- The node keeps its identifier and its dependencies, and is COMPLETED if it was.
abbrev pub Lasts : WorkflowStep → WorkflowStep → Type 0
Lasts s t = (shape t ≡ shape s) × ((not (is_completed s.status) || is_completed t.status) ≡ true)

abbrev pub AllLast : List WorkflowStep → List WorkflowStep → Type 0
AllLast [] [] = Unit
AllLast (s ∷ ss) (t ∷ ts) = Lasts s t × AllLast ss ts
AllLast _ _ = ⊥

pub AllLast-same : (ss : List WorkflowStep) → AllLast ss ss
AllLast-same [] = tt
AllLast-same (s ∷ ss) = ((refl, ground arith), AllLast-same ss)

pub AllLast-append : (ss ts us : List WorkflowStep) → AllLast ss ts → AllLast ts us → AllLast ss us
AllLast-append [] [] us h k = k
AllLast-append (s ∷ ss) (t ∷ ts) (u ∷ us) h k =
    ((k.0.0 ∙ h.0.0, ground arith), AllLast-append ss ts us h.1 k.1)
AllLast-append [] (t ∷ ts) us h k = absurd h
AllLast-append (s ∷ ss) [] us h k = absurd h
AllLast-append (s ∷ ss) (t ∷ ts) [] h k = absurd k

pub map-AllLast :
    (f : WorkflowStep → WorkflowStep) (ss ts : List WorkflowStep)
    → ((t : WorkflowStep) → shape (f t) ≡ shape t)
    → ((t : WorkflowStep) → (not (is_completed t.status) || is_completed (f t).status) ≡ true)
    → AllLast ss ts
    → AllLast ss (map f ts)
map-AllLast f [] [] i c h = tt
map-AllLast f (s ∷ ss) (t ∷ ts) i c h =
    ((i t ∙ h.0.0, ground (arith, c t)), map-AllLast f ss ts i c h.1)
map-AllLast f [] (t ∷ ts) i c h = absurd h
map-AllLast f (s ∷ ss) [] i c h = absurd h

-- The node at a position, if there is one, is not COMPLETED.
abbrev is_open : Option WorkflowStep → Bool
is_open none = true
is_open (some s) = not (is_completed s.status)

abbrev pub IsOpen : List WorkflowStep → ℕ → Type 0
IsOpen ss i = is_open (get_elem? ss i) ≡ true

found_id : (u t : WorkflowStep) → some u ≡ some t → shape t ≡ shape u
found_id u t e = cc

set_step-AllLast :
    (ss ts : List WorkflowStep) (i : ℕ) (t t' : WorkflowStep)
    → AllLast ss ts
    → IsOpen ss i
    → get_elem? ts i ≡ some t
    → shape t' ≡ shape t
    → AllLast ss (set_step ts i t')
set_step-AllLast [] [] i t t' h o e k = tt
set_step-AllLast (s ∷ ss) (u ∷ ts) zero t t' h o e k =
    ((k ∙ found_id u t e ∙ h.0.0, ground arith), h.1)
set_step-AllLast (s ∷ ss) (u ∷ ts) (suc i) t t' h o e k =
    (h.0, set_step-AllLast ss ts i t t' h.1 o e k)
set_step-AllLast [] (u ∷ ts) i t t' h o e k = absurd h
set_step-AllLast (s ∷ ss) [] i t t' h o e k = absurd h

pub Marks-AllLast :
    (context : Params) (done : List String) (ss : List WorkflowStep)
    (ms : List (WorkflowStep × Bool))
    → Marks context done ss ms
    → AllLast ss (marked_steps ms)
Marks-AllLast context done [] [] h = tt
Marks-AllLast context done (s ∷ ss) ((t, r) ∷ ms) h =
    let v = h.0 in ((ground arith, ground arith), Marks-AllLast context done ss ms h.1)
Marks-AllLast context done [] (m ∷ ms) h = absurd h
Marks-AllLast context done (s ∷ ss) [] h = absurd h

-- A scan and a submission loop together.
pub sent-AllLast :
    (context : Params) (done : List String) (ss : List WorkflowStep)
    (ms sent : List (WorkflowStep × Bool))
    → Marks context done ss ms
    → Sends ms sent
    → AllLast ss (marked_steps sent)
sent-AllLast context done [] [] [] h k = tt
sent-AllLast context done (s ∷ ss) ((t, r) ∷ ms) ((u, taken) ∷ sent) h k =
    let v = h.0 in
    let w = k.0 in ((ground arith, ground arith), sent-AllLast context done ss ms sent h.1 k.1)
sent-AllLast context done [] (m ∷ ms) sent h k = absurd h
sent-AllLast context done (s ∷ ss) [] sent h k = absurd h
sent-AllLast context done [] [] (m ∷ sent) h k = absurd k
sent-AllLast context done (s ∷ ss) (m ∷ ms) [] h k = absurd k

shift-IsOpen :
    (s : WorkflowStep) (ss : List WorkflowStep) (n : ℕ) (is : List ℕ)
    → All (λ i. (n + 1 ≤ i) × IsOpen ss (i - (n + 1))) is
    → All (λ i. (n ≤ i) × IsOpen (s ∷ ss) (i - n)) is
shift-IsOpen s ss n is =
    All-map_of (λ i. (n + 1 ≤ i) × IsOpen ss (i - (n + 1))) (λ i. (n ≤ i) × IsOpen (s ∷ ss) (i - n))
      is (λ i q. (omega (arith, q.0), subst (IsOpen (s ∷ ss)) (one_more i q.0) q.1))
  where
    one_more : (i : ℕ) → n + 1 ≤ i → suc (i - (n + 1)) ≡ i - n
    one_more i h = omega arith

pub futures-IsOpen :
    (context : Params) (done : List String) (ss : List WorkflowStep)
    (ms sent : List (WorkflowStep × Bool)) (n : ℕ)
    → Marks context done ss ms
    → Sends ms sent
    → All (λ i. (n ≤ i) × IsOpen ss (i - n)) (futures_from n sent)
unfolding futures_from
futures-IsOpen context done [] [] [] n h k = tt
futures-IsOpen context done (s ∷ ss) ((t, r) ∷ ms) ((u, false) ∷ sent) n h k =
    shift-IsOpen s ss n (futures_from (n + 1) sent)
      (futures-IsOpen context done ss ms sent (n + 1) h.1 k.1)
futures-IsOpen context done (s ∷ ss) ((t, r) ∷ ms) ((u, true) ∷ sent) n h k =
    let v = h.0 in
    let w = k.0 in
    (
      (omega arith, subst (IsOpen (s ∷ ss)) zero_shift (ground arith)),
      shift-IsOpen s ss n (futures_from (n + 1) sent)
          (futures-IsOpen context done ss ms sent (n + 1) h.1 k.1),
    )
  where
    zero_shift : 0 ≡ n - n
    zero_shift = omega arith
futures-IsOpen context done [] (m ∷ ms) sent n h k = absurd h
futures-IsOpen context done (s ∷ ss) [] sent n h k = absurd h
futures-IsOpen context done [] [] (m ∷ sent) n h k = absurd k
futures-IsOpen context done (s ∷ ss) (m ∷ ms) [] n h k = absurd k

fill_dependent-Lasts :
    (id : String) (context : Params) (t : WorkflowStep)
    → (shape (fill_dependent id context t) ≡ shape t)
      × ((fill_dependent id context t).status ≡ t.status)
unfolding fill_dependent
fill_dependent-Lasts id context t = (ground arith, ground arith)

after_outcome-AllLast :
    (ss : List WorkflowStep) (w : Workflow) (i : ℕ) (s : WorkflowStep) (o : Outcome)
    → AllLast ss w.steps
    → IsOpen ss i
    → get_elem? w.steps i ≡ some s
    → AllLast ss (after_outcome w i s o).steps
unfolding receive finish fail_with
after_outcome-AllLast ss w i s (threw message) h open_here found =
    set_step-AllLast ss w.steps i s (fail_with s message) h open_here found refl
after_outcome-AllLast ss w i s (returned p) h open_here found =
    let s' = finish s p in
    let context = context_with p w.context in
    let set = set_step-AllLast ss w.steps i s s' h open_here found refl in
    elim (Bool-cases (verified s')) [
      | inr e ↦ rw (e, receive) set
      | inl e ↦
          rw (e, receive)
            (map-AllLast (fill_dependent s'.step_id context) ss (set_step w.steps i s')
              (λ t. (fill_dependent-Lasts s'.step_id context t).0)
              (λ t. ground (arith, fill_dependent-Lasts s'.step_id context t)) set)
    ]

pub with_locks-workflow :
    (w : Workflow) (results : List (String × Outcome)) (o : Option LockManager) (st : RunState)
    → with_locks w results o ≡ ok st
    → w ≡ st.workflow
with_locks-workflow w results none st e = absurd (ground arith)
with_locks-workflow w results (some locks) st e = ap (λ x. x.workflow) (ok-injective e)

module _ (env : Environment) (round : ℕ) (ss : List WorkflowStep) where
  complete-AllLast :
      (st st' : RunState) (i : ℕ)
      → AllLast ss st.workflow.steps
      → IsOpen ss i
      → complete env round st i ≡ ok st'
      → AllLast ss st'.workflow.steps
  unfolding complete
  complete-AllLast st st' i h open_here e = elim (Option-cases (get_elem? st.workflow.steps i)) [
    | inl absent ↦ subst (λ x. AllLast ss x.workflow.steps) (ok-injective (nothing absent ∙ e)) h
    | inr (s, found) ↦
        let o = env.executor round s in
        subst (λ w. AllLast ss w.steps)
          (with_locks-workflow (after_outcome st.workflow i s o) (insert s.step_id o st.results)
            (release st.locks s.resource_key s.step_id) st' (something s found ∙ e))
          (after_outcome-AllLast ss st.workflow i s o h open_here found)
  ]
    where
      nothing : get_elem? st.workflow.steps i ≡ none → ok st ≡ complete env round st i
      nothing absent = rw (absent, complete) refl

      something :
          (s : WorkflowStep)
          → get_elem? st.workflow.steps i ≡ some s
          → with_locks
              (after_outcome st.workflow i s (env.executor round s))
              (insert s.step_id (env.executor round s) st.results)
              (release st.locks s.resource_key s.step_id)
            ≡ complete env round st i
      something s found = rw (found, complete) refl

  pub complete_all-AllLast :
      (is : List ℕ) (st st' : RunState)
      → AllLast ss st.workflow.steps
      → All (IsOpen ss) is
      → complete_all env round st is ≡ ok st'
      → AllLast ss st'.workflow.steps
  unfolding complete_all
  complete_all-AllLast [] st st' h o e = subst (λ x. AllLast ss x.workflow.steps) (ok-injective e) h
  complete_all-AllLast (i ∷ is) st st' h o e =
      let (st1, first, later) = >>=-eq-ok (complete env round st i) _ e in
      complete_all-AllLast is st1 st' (complete-AllLast st st1 i h o.0 first) o.1 later
