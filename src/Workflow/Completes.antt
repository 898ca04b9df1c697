-- ===== src/Workflow/Completes.antt =====
-- agent_control/workflow/scheduler.py: the futures of a round of `run` when every executor succeeds.
use freaky_monkey.Base.{
  ℕ, zero, suc, String, Bool, true, false, Option, none, some, List, [], ◌∷◌, ◌≡◌, ◌≢◌, refl, ap,
  ◌∙◌, subst, arith, not, ◌&&◌, All, get_elem?, str_eq, eq_iff, inl, inr, Bool-cases, Option-cases,
}
use freaky_monkey.Base.Dict.{insert}
use freaky_monkey.Workflow.Status.{StepStatus, is_completed}
use freaky_monkey.Workflow.Model.{WorkflowStep, Workflow}
use freaky_monkey.Workflow.Locks.{LockManager, owner, owned_by, IsConsistent}
use freaky_monkey.Workflow.Ready.{ok, ◌>>=◌}
use freaky_monkey.Workflow.Run.{
  Payload, Outcome, returned, threw, Environment, RunState, finish, verified,
}
use freaky_monkey.Workflow.Rounds.{receive, after_outcome, complete, complete_all}
use freaky_monkey.Workflow.Dispatch.{key_is}
use freaky_monkey.Workflow.Follows.{
  Follows, Follows-refl, Follows-trans, Follows-IsDone, IsDone, ended, after_outcome-Follows,
  static,
}
use freaky_monkey.Workflow.Freed.{owner-release, released, holds}
use freaky_monkey.Workflow.Contexts.{Within, context_with-Within}

-- Every future that was submitted arrives.
abbrev pub YieldsAll : Environment → Type 1
YieldsAll env =
    (round : ℕ) (futures : List ℕ) (P : ℕ → Type 0)
    → All P (env.arrival round futures)
    → All P futures

-- Every executor answers COMPLETED with the verdict PASS, nobody cancels, and every future that was
-- submitted arrives, in any order.
pub record IsCooperative (env : Environment) : Type 1 where
  pub succeeds :
      (round : ℕ) (s : WorkflowStep)
      → (p : Payload) × (env.executor round s ≡ returned p) × (verified (finish s p) ≡ true)
  pub cancels : (round : ℕ) → env.cancels round ≡ false
  pub interrupts : (round : ℕ) → env.interrupts round ≡ false
  pub arrives : YieldsAll env

receive-context :
    (w : Workflow) (i : ℕ) (s : WorkflowStep) (p : Payload)
    → Within w.context (receive w i s p).context
unfolding receive
receive-context w i s p k h = elim (Bool-cases (verified (finish s p))) [
  | inl passed ↦ rw (passed, receive) (context_with-Within p w.context k h)
  | inr other ↦ rw (other, receive) h
]

receive-cancel :
    (w : Workflow) (i : ℕ) (s : WorkflowStep) (p : Payload)
    → ((receive w i s p).cancel_requested ≡ w.cancel_requested)
      × ((receive w i s p).status ≡ w.status)
unfolding receive
receive-cancel w i s p = ground arith

after_outcome-context :
    (w : Workflow) (i : ℕ) (s : WorkflowStep) (o : Outcome)
    → Within w.context (after_outcome w i s o).context
after_outcome-context w i s (returned p) k h = receive-context w i s p k h
after_outcome-context w i s (threw message) k h = h

after_outcome-cancel :
    (w : Workflow) (i : ℕ) (s : WorkflowStep) (o : Outcome)
    → ((after_outcome w i s o).cancel_requested ≡ w.cancel_requested)
      × ((after_outcome w i s o).status ≡ w.status)
after_outcome-cancel w i s (returned p) = receive-cancel w i s p
after_outcome-cancel w i s (threw message) = (refl, refl)

-- The node at a position does not hold the resource for its owner any more.
abbrev freed : Option String → String → String → Option WorkflowStep → Bool
freed o r node none = true
freed o r node (some s) = not (holds r node s && owned_by o node)

abbrev pub IsFreed : LockManager → String → String → List WorkflowStep → ℕ → Type 0
IsFreed m r node ss i = freed (owner m r) r node (get_elem? ss i) ≡ true

-- What some futures have done to the state.
pub record Completes (settles : StepStatus → Bool) (st st1 : RunState) : Type 0 where
  pub steps : Follows settles st.workflow.steps st1.workflow.steps
  pub locks : IsConsistent st1.locks
  pub lost :
      (r node : String)
      → r ≢ ""
      → owned_by (owner st.locks r) node ≡ false
      → owned_by (owner st1.locks r) node ≡ false
  pub context : Within st.workflow.context st1.workflow.context
  pub cancel : st1.workflow.cancel_requested ≡ st.workflow.cancel_requested
  pub status : st1.workflow.status ≡ st.workflow.status

Completes-refl :
    (settles : StepStatus → Bool) (st : RunState) → IsConsistent st.locks → Completes settles st st
Completes-refl settles st h = record {
  steps = Follows-refl settles st.workflow.steps;
  locks = h;
  lost = λ r node _ gone. gone;
  context = λ k there. there;
  cancel = refl;
  status = refl;
}

Completes-trans :
    (settles : StepStatus → Bool) (st st1 st2 : RunState)
    → Completes settles st st1
    → Completes settles st1 st2
    → Completes settles st st2
Completes-trans settles st st1 st2 h k = record {
  steps =
      Follows-trans settles st.workflow.steps st1.workflow.steps st2.workflow.steps h.steps k.steps;
  locks = k.locks;
  lost = λ r node named gone. k.lost r node named (h.lost r node named gone);
  context = λ key there. k.context key (h.context key there);
  cancel = k.cancel ∙ h.cancel;
  status = k.status ∙ h.status;
}

released-lost :
    (m : LockManager) (key : Option String) (id q node : String)
    → owned_by (owner m q) node ≡ false
    → owned_by (released m key id q) node ≡ false
released-lost m key id q node h = ground arith

released-freed :
    (m : LockManager) (key : Option String) (id q node : String)
    → (key_is q key && str_eq id node) ≡ true
    → owned_by (released m key id q) node ≡ false
released-freed m key id q node h = elim (Bool-cases (owned_by (owner m q) id)) [
  | inl own ↦ ground (arith, own)
  | inr other ↦
      subst (λ k. owned_by (released m key id q) k ≡ false) ((eq_iff id node).0 (ground arith))
        (ground (arith, other))
]

-- Whatever an executor answers, its node settles.
abbrev pub IsSettling : (StepStatus → Bool) → Environment → Type 0
IsSettling settles env =
    (round : ℕ) (s : WorkflowStep) → settles (ended s (env.executor round s)).status ≡ true

module _ (settles : StepStatus → Bool) (env : Environment) (round : ℕ)
    (settling : IsSettling settles env) where
  complete-Completes :
      (st : RunState) (i : ℕ)
      → IsConsistent st.locks
      → (st1 : RunState) × (complete env round st i ≡ ok st1)
        × Completes settles st st1
        × IsDone settles st1.workflow.steps i
        × ((r node : String) → r ≢ "" → IsFreed st1.locks r node st.workflow.steps i)
  unfolding complete
  complete-Completes st i h = elim (Option-cases (get_elem? st.workflow.steps i)) [
    | inl absent ↦ (
      st,
      ground (arith, absent),
      Completes-refl settles st h,
      rw absent refl,
      λ r node named. rw absent refl,
    )
    | inr (s, found) ↦
        let o = env.executor round s in
        let (m', e, c, f) = owner-release st.locks s.resource_key s.step_id h in
        let (follows, is_done) =
          after_outcome-Follows settles st.workflow i s o found (settling round s) in
        (
          record {
            workflow = after_outcome st.workflow i s o;
            results = insert s.step_id o st.results;
            locks = m';
          },
          rw (found, e, complete) refl,
          record {
            steps = follows;
            locks = c;
            lost = λ r node named gone.
                rw (f r named) (released-lost st.locks s.resource_key s.step_id r node gone);
            context = after_outcome-context st.workflow i s o;
            cancel = (after_outcome-cancel st.workflow i s o).0;
            status = (after_outcome-cancel st.workflow i s o).1;
          },
          is_done,
          λ r node named.
              rw (found, f r named)
                (elim (Bool-cases (holds r node s)) [
                  | inl held ↦
                      ground
                        (arith, held, released-freed st.locks s.resource_key s.step_id r node held)
                  | inr other ↦ ground (arith, other)
                ]),
        )
  ]

Follows-IsFreed :
    (settles : StepStatus → Bool) (m : LockManager) (r node : String) (ss ts : List WorkflowStep)
    (i : ℕ)
    → Follows settles ss ts
    → IsFreed m r node ts i
    → IsFreed m r node ss i
Follows-IsFreed settles m r node [] [] i h k = k
Follows-IsFreed settles m r node (s ∷ ss) (t ∷ ts) zero h k = same_holds (h.0.0)
  where
    same_holds : static t ≡ static s → freed (owner m r) r node (some s) ≡ true
    same_holds e = ground (arith, e, k)
Follows-IsFreed settles m r node (s ∷ ss) (t ∷ ts) (suc i) h k =
    Follows-IsFreed settles m r node ss ts i h.1 k
Follows-IsFreed settles m r node [] (t ∷ ts) i h k = absurd h
Follows-IsFreed settles m r node (s ∷ ss) [] i h k = absurd h

-- What is freed stays freed.
lost-IsFreed :
    (m m' : LockManager) (r node : String) (o : Option WorkflowStep)
    → (owned_by (owner m r) node ≡ false → owned_by (owner m' r) node ≡ false)
    → freed (owner m r) r node o ≡ true
    → freed (owner m' r) r node o ≡ true
lost-IsFreed m m' r node none lost h = refl
lost-IsFreed m m' r node (some s) lost h = elim (Bool-cases (owned_by (owner m r) node)) [
  | inl own ↦ ground (arith, own)
  | inr gone ↦ ground (arith, lost gone)
]

All-through : {P Q : ℕ → Type 0} (is : List ℕ) → ((i : ℕ) → P i → Q i) → All P is → All Q is
All-through [] f h = tt
All-through (i ∷ is) f h = (f i h.0, All-through is f h.1)

-- All futures of a round: each node has settled and has given its resource back.
pub complete_all-Completes :
    (settles : StepStatus → Bool) (env : Environment) (round : ℕ)
    → IsSettling settles env
    → (is : List ℕ) (st : RunState) → IsConsistent st.locks
    → (st1 : RunState) × (complete_all env round st is ≡ ok st1)
      × Completes settles st st1
      × All (IsDone settles st1.workflow.steps) is
      × ((r node : String) → r ≢ "" → All (IsFreed st1.locks r node st.workflow.steps) is)
unfolding complete_all
complete_all-Completes settles env round settling [] st h =
    (st, refl, Completes-refl settles st h, tt, λ r node named. tt)
complete_all-Completes settles env round settling (i ∷ is) st h =
    let (st1, e, one, done_one, freed_one) = complete-Completes settles env round settling st i h in
    let (st2, e', rest, done_rest, freed_rest) =
      complete_all-Completes settles env round settling is st1 one.locks in
    (
      st2,
      ap (λ r. r >>= λ st'. complete_all env round st' is) e ∙ e',
      Completes-trans settles st st1 st2 one rest,
      (
        Follows-IsDone settles st1.workflow.steps st2.workflow.steps i rest.steps done_one,
        done_rest,
      ),
      λ r node named. (
        lost-IsFreed st1.locks st2.locks r node (get_elem? st.workflow.steps i)
            (rest.lost r node named) (freed_one r node named),
        All-through is
            (λ j.
              Follows-IsFreed settles st2.locks r node st.workflow.steps st1.workflow.steps j
                one.steps)
            (freed_rest r node named),
      ),
    )

-- What succeeds settles as COMPLETED.
pub verified-completed : (s : WorkflowStep) → verified s ≡ true → is_completed s.status ≡ true
unfolding verified
verified-completed s h = ground arith

pub succeeds-IsSettling : (env : Environment) → IsCooperative env → IsSettling is_completed env
succeeds-IsSettling env coop round s =
    let (p, answer, good) = coop.succeeds round s in
    ap (λ o. is_completed (ended s o).status) answer ∙ verified-completed (finish s p) good
