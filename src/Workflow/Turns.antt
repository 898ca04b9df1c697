-- ===== src/Workflow/Turns.antt =====
-- agent_control/workflow/scheduler.py: how many nodes a round of `run` leaves that the
-- next scan looks at, whatever the executors answer.
use freaky_monkey.Base.{
  ℕ, suc, ◌+◌, ◌≤◌, String, Bool, true, false, some, List, [], ◌∷◌, ◌≡◌, refl, ap, ◌∙◌, arith, not,
  tally, inl, inr, ◌⊎◌,
}
use freaky_monkey.Base.Text.{codes, upper}
use freaky_monkey.Json.{Params}
use freaky_monkey.Workflow.Status.{StepStatus}
use freaky_monkey.Workflow.Model.{WorkflowStep}
use freaky_monkey.Workflow.Ready.{marked_steps, schedulable}
use freaky_monkey.Workflow.Readiness.{Visited, Marks}
use freaky_monkey.Workflow.Run.{
  Outcome, returned, threw, Environment, finish, fail_with, status_named, status_text,
}
use freaky_monkey.Workflow.Dispatch.{Sent, Sends, marked, as_number}
use freaky_monkey.Workflow.Follows.{Follows, AllDone, Same, static, ended}
use freaky_monkey.Workflow.Completes.{IsSettling}

-- A status in which the scan does not look at a node any more.
abbrev pub is_closed : StepStatus → Bool
is_closed status = not (schedulable status)

status_named-is_closed : (t : List ℕ) → is_closed (status_named t) ≡ true
unfolding status_named
status_named-is_closed t = ground arith

ended-is_closed : (s : WorkflowStep) (o : Outcome) → is_closed (ended s o).status ≡ true
unfolding finish fail_with
ended-is_closed s (returned p) = status_named-is_closed (upper (codes (status_text p)))
ended-is_closed s (threw message) = refl

-- No outcome leaves a node that may be scheduled.
pub outcome-IsSettling : (env : Environment) → IsSettling is_closed env
outcome-IsSettling env round s = ended-is_closed s (env.executor round s)

-- The nodes that the scan looks at.
abbrev pub turns : List WorkflowStep → ℕ
turns = tally (λ s. schedulable s.status)

-- A node that was not submitted is looked at only if it was before, and one that was submitted was looked
-- at.
Turn : WorkflowStep → WorkflowStep → Bool → Type 0
Turn s t taken =
    (taken ≡ false) × (as_number (schedulable t.status) ≤ as_number (schedulable s.status))
    ⊎ (taken ≡ true) × (schedulable s.status ≡ true)

-- A node that the scan left, in the submission loop.
Turn-after :
    (s r t : WorkflowStep) (mark taken : Bool)
    → static r ≡ static s
    → as_number (schedulable r.status) ≤ as_number (schedulable s.status)
    → (mark ≡ true → schedulable s.status ≡ true)
    → Sent r mark t taken
    → (static t ≡ static s) × Turn s t taken
unfolding Turn
Turn-after s r t mark taken same fewer was (inl (m, e, k)) = (ground arith, inl (k, ground arith))
Turn-after s r t mark taken same fewer was (inr (inl (m, e, k))) =
    (ap static e ∙ same, inr (k, was m))
Turn-after s r t mark taken same fewer was (inr (inr (m, e, k))) =
    (ap static e ∙ same, inl (k, ground (arith, was m)))

Visited-turn :
    (context : Params) (completed : List String) (s r : WorkflowStep) (mark : Bool)
    → Visited context completed s r mark
    → (static r ≡ static s)
      × (as_number (schedulable r.status) ≤ as_number (schedulable s.status))
      × (mark ≡ true → schedulable s.status ≡ true)
Visited-turn context completed s r mark (inl (e, m)) = (ap static e, ground arith, λ k. cc)
Visited-turn context completed s r mark (inr (inl (was, done, policy, inputs, e, m))) =
    (ap static e, ground arith, λ k. was)
Visited-turn context completed s r mark (inr (inr (was, e, m))) =
    (ap static e, ground arith, λ k. was)

fewer_turns :
    (s t u : WorkflowStep) (taken : Bool)
    → Turn s t taken
    → (u.status ≡ t.status) ⊎ (is_closed u.status ≡ true)
    → (taken ≡ true → is_closed u.status ≡ true)
    → as_number (schedulable u.status) + as_number taken ≤ as_number (schedulable s.status)
unfolding Turn
fewer_turns s t u taken turn o h = ground (arith, h)

-- A round of the loop looks at as many fewer nodes as it has submitted.
pub round-turns :
    (context : Params) (completed : List String) (ss : List WorkflowStep)
    (ms sent : List (WorkflowStep × Bool)) (ts : List WorkflowStep)
    → Marks context completed ss ms
    → Sends ms sent
    → Follows is_closed (marked_steps sent) ts
    → AllDone is_closed sent ts
    → Same ss ts × (turns ts + marked sent ≤ turns ss)
round-turns context completed [] [] [] [] v h k d = (tt, omega arith)
round-turns context completed (s ∷ ss) ((r, mark) ∷ ms) ((t, taken) ∷ sent) (u ∷ us) (v0, v) (h0, h)
      ((same, o), k) d =
    let (rest_same, fewer) =
      round-turns context completed ss ms sent us v h k (λ i x e. d (suc i) x e) in
    let (unchanged, least, was) = Visited-turn context completed s r mark v0 in
    let (unsent, turn) = Turn-after s r t mark taken unchanged least was h0 in
    let less = fewer_turns s t u taken turn o (λ e. d 0 t (ap (λ b. some (t, b)) e)) in
    ((same ∙ unsent, rest_same), omega (arith, fewer, less))
round-turns context completed [] (m ∷ ms) sent ts v h k d = absurd v
round-turns context completed (s ∷ ss) [] sent ts v h k d = absurd v
round-turns context completed [] [] (m ∷ sent) ts v h k d = absurd h
round-turns context completed (s ∷ ss) (m ∷ ms) [] ts v h k d = absurd h
round-turns context completed [] [] [] (u ∷ us) v h k d = absurd k
round-turns context completed (s ∷ ss) (m ∷ ms) (n ∷ sent) [] v h k d = absurd k
