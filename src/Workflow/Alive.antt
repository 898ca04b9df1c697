-- ===== src/Workflow/Alive.antt =====
-- agent_control/workflow/scheduler.py: the scan of `ready_nodes` while nothing has failed. As long as a
-- node of a graph without cycles is open, it finds one that is ready.
use freaky_monkey.Base.{
  ℕ, zero, suc, ◌<◌, ◌≤◌, String, Bool, true, false, some, List, [], ◌∷◌, ◌++◌, ◌≡◌, refl, ◌∙◌,
  subst, arith, map, any, all, not, ◌&&◌, ◌||◌, All, All-append, tally, str_eq, eq_iff, inl, inr,
  Bool-cases, Option-cases, if◌then◌else◌,
}
use freaky_monkey.Base.Dict.{contains}
use freaky_monkey.Json.{Params}
use freaky_monkey.Workflow.Status.{StepStatus, is_completed}
use freaky_monkey.Workflow.Model.{WorkflowStep, Workflow, find_step}
use freaky_monkey.Workflow.Ready.{
  ok, schedulable, is_dead, completed_ids, policy_ok, data_ok, deps_done, any_dead, made_ready,
  visit, scan, ready_nodes,
}
use freaky_monkey.Workflow.Graph.{ids_of}
use freaky_monkey.Workflow.Checked.{known_ids, ids_same}
use freaky_monkey.Workflow.Ranking.{Ranks, EveryDepKnown}

-- A node that is COMPLETED or may be scheduled, and that no policy holds back.
abbrev pub IsAlive : WorkflowStep → Type 0
IsAlive s =
    ((is_completed s.status || schedulable s.status) ≡ true) × (policy_ok s.policy_state ≡ true)

-- What the scan does to such a node.
abbrev pub visited : List String → WorkflowStep → WorkflowStep × Bool
visited completed s =
    if schedulable s.status && deps_done completed s then (made_ready s, true) else (s, false)

find_step-IsAlive :
    (d : String) (steps : List WorkflowStep) (p : WorkflowStep)
    → find_step d steps ≡ some p
    → All IsAlive steps
    → is_dead p.status ≡ false
unfolding find_step
find_step-IsAlive d [] p e h = cc
find_step-IsAlive d (s ∷ steps) p e (here, h) = elim (Bool-cases (str_eq s.step_id d)) [
  | inl same ↦ ground (arith, same, e, not_dead s.status here.0)
  | inr other ↦ find_step-IsAlive d steps p (ground (arith, other, e)) h
]
  where
    not_dead :
        (status : StepStatus)
        → (is_completed status || schedulable status) ≡ true
        → is_dead status ≡ false
    not_dead status h = ground arith

any_dead-IsAlive :
    (steps : List WorkflowStep) (ds : List String)
    → All IsAlive steps
    → All (λ d. contains (ids_of steps) d ≡ true) ds
    → any_dead steps ds ≡ ok false
unfolding any_dead
any_dead-IsAlive steps [] alive h = refl
any_dead-IsAlive steps (d ∷ ds) alive h = elim (Option-cases (find_step d steps)) [
  | inl missing ↦ absurd (ground (arith, known_ids d steps, h.0))
  | inr (p, e) ↦
      ground (arith, e, find_step-IsAlive d steps p e alive, any_dead-IsAlive steps ds alive h.1)
]

visit-IsAlive :
    (context : Params) (completed : List String) (steps : List WorkflowStep) (s : WorkflowStep)
    → IsAlive s
    → data_ok context s ≡ true
    → any_dead steps s.dependencies ≡ ok false
    → visit context completed steps s ≡ ok (visited completed s)
unfolding visit
visit-IsAlive context completed steps s alive inputs none_dead = ground arith

visited-IsAlive :
    (completed : List String) (s : WorkflowStep) → IsAlive s → IsAlive (visited completed s).0
visited-IsAlive completed s h = elim (Bool-cases (schedulable s.status && deps_done completed s)) [
  | inl picked ↦ rw picked (refl, h.1)
  | inr left ↦ rw left h
]

visited_id :
    (completed : List String) (s : WorkflowStep) → (visited completed s).0.step_id ≡ s.step_id
visited_id completed s = ground arith

scan-IsAlive :
    (context : Params) (completed : List String) (before ss : List WorkflowStep)
    → All IsAlive before
    → All IsAlive ss
    → All (λ s. data_ok context s ≡ true) ss
    → All (λ s. All (λ d. contains (ids_of (before ++ ss)) d ≡ true) s.dependencies) ss
    → scan context completed before ss ≡ ok (map (visited completed) ss)
unfolding scan
scan-IsAlive context completed before [] alive h inputs known = refl
scan-IsAlive context completed before (s ∷ ss) alive h inputs known =
    let t = (visited completed s).0 in
    let visits = visit-IsAlive context completed (before ++ (s ∷ ss)) s h.0 inputs.0 (
      any_dead-IsAlive (before ++ (s ∷ ss)) s.dependencies
        (All-append IsAlive before (s ∷ ss) alive h) known.0) in
    let rest =
      scan-IsAlive context completed (before ++ (t ∷ [])) ss
        (All-append IsAlive before (t ∷ []) alive (visited-IsAlive completed s h.0, tt)) h.1
        inputs.1
        (subst (λ ids. All (λ u. All (λ d. contains ids d ≡ true) u.dependencies) ss)
          (ids_same before ss s t (visited_id completed s)) known.1) in
    rw (visits, rest) refl

pub ready_nodes-IsAlive :
    (w : Workflow)
    → All IsAlive w.steps
    → All (λ s. data_ok w.context s ≡ true) w.steps
    → EveryDepKnown w.steps w.steps
    → ready_nodes w ≡ ok (map (visited (completed_ids w.steps)) w.steps)
unfolding ready_nodes
ready_nodes-IsAlive w alive inputs known =
    scan-IsAlive w.context (completed_ids w.steps) [] w.steps tt alive inputs known

-- The nodes that are not COMPLETED.
abbrev pub open_count : List WorkflowStep → ℕ
open_count = tally (λ s. not (is_completed s.status))

abbrev pub picks : List String → WorkflowStep → Bool
picks completed s = schedulable s.status && deps_done completed s

any-visited :
    (completed : List String) (ss : List WorkflowStep)
    → any (λ m. m.1) (map (visited completed) ss) ≡ any (picks completed) ss
any-visited completed [] = refl
any-visited completed (s ∷ ss) = ground (arith, any-visited completed ss)

done_each :
    (completed ds : List String)
    → All (λ d. contains completed d ≡ true) ds
    → all (contains completed) ds ≡ true
done_each completed [] h = refl
done_each completed (d ∷ ds) h = ground (arith, done_each completed ds h.1)

-- No node is picked: then a node whose dependencies are done is COMPLETED.
unpicked :
    (completed : List String) (s : WorkflowStep)
    → IsAlive s
    → picks completed s ≡ false
    → All (λ d. contains completed d ≡ true) s.dependencies
    → is_completed s.status ≡ true
unfolding deps_done
unpicked completed s alive h done = ground (arith, done_each completed s.dependencies done)

module _ (steps : List WorkflowStep) (rank : String → ℕ) (ranks : Ranks rank steps)
    (known : EveryDepKnown steps steps) (alive : All IsAlive steps)
    (idle : any (picks (completed_ids steps)) steps ≡ false) where
  both_done :
      (ds : List String) (top : ℕ)
      → ((d : String)
          → rank d < top
          → contains (ids_of steps) d ≡ true
          → contains (completed_ids steps) d ≡ true)
      → All (λ d. rank d < top) ds
      → All (λ d. contains (ids_of steps) d ≡ true) ds
      → All (λ d. contains (completed_ids steps) d ≡ true) ds
  both_done [] top below_done lt h = tt
  both_done (d ∷ ds) top below_done lt h =
      (below_done d lt.0 h.0, both_done ds top below_done lt.1 h.1)

  completed-among :
      (ss : List WorkflowStep) (c : String)
      → ((d : String)
          → rank d < rank c
          → contains (ids_of steps) d ≡ true
          → contains (completed_ids steps) d ≡ true)
      → Ranks rank ss
      → EveryDepKnown steps ss
      → All IsAlive ss
      → any (picks (completed_ids steps)) ss ≡ false
      → contains (ids_of ss) c ≡ true
      → contains (completed_ids ss) c ≡ true
  unfolding completed_ids
  completed-among [] c below_done lt deps living none_picked there = cc
  completed-among (s ∷ ss) c below_done lt deps living none_picked there =
      elim (Bool-cases (str_eq s.step_id c)) [
        | inl same ↦
            let below =
              subst (λ k. All (λ d. rank d < rank k) s.dependencies) ((eq_iff s.step_id c).0 same)
                lt.0 in
            let done =
              unpicked (completed_ids steps) s living.0 (ground arith)
                (both_done s.dependencies (rank c) below_done below deps.0) in
            ground (arith, same, done)
        | inr other ↦ ground (
          arith,
          other,
          completed-among ss c below_done lt.1 deps.1 living.1 (ground arith)
              (ground (arith, other, there)),
        )
      ]

  completed_below :
      (bound : ℕ) (c : String)
      → rank c < bound
      → contains (ids_of steps) c ≡ true
      → contains (completed_ids steps) c ≡ true
  completed_below zero c lt here = absurd (omega arith)
  completed_below (suc bound) c lt here =
      completed-among steps c (λ d less there. completed_below bound d (omega arith) there) ranks
        known alive idle here

  none_open :
      (ss : List WorkflowStep)
      → Ranks rank ss
      → EveryDepKnown steps ss
      → All IsAlive ss
      → any (picks (completed_ids steps)) ss ≡ false
      → open_count ss ≡ 0
  none_open [] lt deps living none_picked = refl
  none_open (s ∷ ss) lt deps living none_picked =
      let done = unpicked (completed_ids steps) s living.0 (ground arith) (
        both_done s.dependencies (rank s.step_id)
          (λ d less there. completed_below (rank s.step_id) d less there) lt.0 deps.0) in
      ground (arith, done, none_open ss lt.1 deps.1 living.1)

-- As long as a node is open, the scan picks one.
pub some_picked :
    (steps : List WorkflowStep) (rank : String → ℕ)
    → Ranks rank steps
    → EveryDepKnown steps steps
    → All IsAlive steps
    → 1 ≤ open_count steps
    → any (λ m. m.1) (map (visited (completed_ids steps)) steps) ≡ true
some_picked steps rank ranks known alive h =
    elim (Bool-cases (any (picks (completed_ids steps)) steps)) [
      | inl found ↦ any-visited (completed_ids steps) steps ∙ found
      | inr idle ↦
          absurd (
            omega (arith, none_open steps rank ranks known alive idle steps ranks known alive idle))
    ]
