-- ===== src/Workflow/Follows.antt =====
-- agent_control/workflow/scheduler.py: what a round of `run` does to the nodes when every executor
-- succeeds.
use freaky_monkey.Base.{
  ℕ, zero, suc, ◌+◌, ◌≤◌, String, Bool, true, false, Option, none, some, List, [], ◌∷◌, ◌≡◌, refl,
  ap, ◌∙◌, subst, arith, map, not, ◌||◌, All, get_elem?, inl, inr, ◌⊎◌, Bool-cases,
}
use freaky_monkey.Json.{Params}
use freaky_monkey.Workflow.Status.{StepStatus, is_completed}
use freaky_monkey.Workflow.Model.{WorkflowStep, Workflow}
use freaky_monkey.Workflow.Ready.{schedulable, made_ready, marked_steps}
use freaky_monkey.Workflow.Run.{
  Payload, Outcome, returned, threw, fail_with, finish, fill_dependent, verified, context_with,
  futures_from,
}
use freaky_monkey.Workflow.Dispatch.{Sent, Sends, marked, as_number}
use freaky_monkey.Workflow.Rounds.{set_step, receive, after_outcome}
use freaky_monkey.Workflow.Alive.{IsAlive, visited, picks, open_count}

-- What a round leaves alone in a node.
abbrev pub static : WorkflowStep → String × List String × String × List String × Option String
static s = (s.step_id, s.dependencies, s.policy_state, s.requires_data, s.resource_key)

fill_dependent-static :
    (node : String) (context : Params) (s : WorkflowStep)
    → static (fill_dependent node context s) ≡ static s
unfolding fill_dependent
fill_dependent-static node context s = ground arith

fill_dependent-status :
    (node : String) (context : Params) (s : WorkflowStep)
    → (fill_dependent node context s).status ≡ s.status
unfolding fill_dependent
fill_dependent-status node context s = ground arith

found_static : (u s : WorkflowStep) → some u ≡ some s → static s ≡ static u
found_static u s e = cc

-- A node after its executor has ended.
abbrev pub ended : WorkflowStep → Outcome → WorkflowStep
ended s (returned p) = finish s p
ended s (threw message) = fail_with s message

-- Some statuses are those in which a node has settled.
module _ (settles : StepStatus → Bool) where
  -- The node has the status that it had, or one in which it has settled.
  abbrev pub Follows : List WorkflowStep → List WorkflowStep → Type 0
  Follows [] [] = Unit
  Follows (s ∷ ss) (t ∷ ts) =
      ((static t ≡ static s) × ((t.status ≡ s.status) ⊎ (settles t.status ≡ true))) × Follows ss ts
  Follows _ _ = ⊥

  pub Follows-refl : (ss : List WorkflowStep) → Follows ss ss
  Follows-refl [] = tt
  Follows-refl (s ∷ ss) = ((refl, inl refl), Follows-refl ss)

  pub Follows-trans : (ss ts us : List WorkflowStep) → Follows ss ts → Follows ts us → Follows ss us
  Follows-trans [] [] [] h k = tt
  Follows-trans (s ∷ ss) (t ∷ ts) (u ∷ us) ((e, o), h) ((e', o'), k) =
      ((e' ∙ e, ground arith), Follows-trans ss ts us h k)
  Follows-trans [] (t ∷ ts) us h k = absurd h
  Follows-trans (s ∷ ss) [] us h k = absurd h
  Follows-trans [] [] (u ∷ us) h k = absurd k
  Follows-trans (s ∷ ss) (t ∷ ts) [] h k = absurd k

  Follows-map :
      (node : String) (context : Params) (ss ts : List WorkflowStep)
      → Follows ss ts
      → Follows ss (map (fill_dependent node context) ts)
  Follows-map node context [] [] h = tt
  Follows-map node context (s ∷ ss) (t ∷ ts) ((e, o), h) = (
    (
      fill_dependent-static node context t ∙ e,
      ground (arith, o, fill_dependent-status node context t),
    ),
    Follows-map node context ss ts h,
  )
  Follows-map node context [] (t ∷ ts) h = absurd h
  Follows-map node context (s ∷ ss) [] h = absurd h

  Follows-set_step :
      (ss : List WorkflowStep) (i : ℕ) (s t : WorkflowStep)
      → get_elem? ss i ≡ some s
      → static t ≡ static s
      → settles t.status ≡ true
      → Follows ss (set_step ss i t)
  Follows-set_step [] i s t e same done = tt
  Follows-set_step (u ∷ ss) zero s t e same done =
      ((same ∙ found_static u s e, inr done), Follows-refl ss)
  Follows-set_step (u ∷ ss) (suc i) s t e same done =
      ((refl, inl refl), Follows-set_step ss i s t e same done)

  -- The node at a position, if there is one, has settled.
  abbrev done : Option WorkflowStep → Bool
  done none = true
  done (some s) = settles s.status

  abbrev pub IsDone : List WorkflowStep → ℕ → Type 0
  IsDone ss i = done (get_elem? ss i) ≡ true

  pub Follows-IsDone :
      (ss ts : List WorkflowStep) (i : ℕ) → Follows ss ts → IsDone ss i → IsDone ts i
  Follows-IsDone [] [] i h d = refl
  Follows-IsDone (s ∷ ss) (t ∷ ts) zero h d = ground (arith, h.0.1)
  Follows-IsDone (s ∷ ss) (t ∷ ts) (suc i) h d = Follows-IsDone ss ts i h.1 d
  Follows-IsDone [] (t ∷ ts) i h d = absurd h
  Follows-IsDone (s ∷ ss) [] i h d = absurd h

  set_step-IsDone :
      (ss : List WorkflowStep) (i : ℕ) (t : WorkflowStep)
      → settles t.status ≡ true
      → IsDone (set_step ss i t) i
  set_step-IsDone [] i t h = refl
  set_step-IsDone (s ∷ ss) zero t h = h
  set_step-IsDone (s ∷ ss) (suc i) t h = set_step-IsDone ss i t h

  -- A node whose executor returned: nothing else changes but parameters.
  receive-Follows :
      (w : Workflow) (i : ℕ) (s : WorkflowStep) (p : Payload)
      → get_elem? w.steps i ≡ some s
      → settles (finish s p).status ≡ true
      → Follows w.steps (receive w i s p).steps × IsDone (receive w i s p).steps i
  unfolding receive
  receive-Follows w i s p e ok = elim (Bool-cases (verified (finish s p))) [
    | inl passed ↦
        let later =
          Follows-map (finish s p).step_id (context_with p w.context) w.steps
            (set_step w.steps i (finish s p)) here in
        rw (passed, receive)
          (
            later,
            Follows-IsDone (set_step w.steps i (finish s p)) _ i
                (Follows-map (finish s p).step_id (context_with p w.context) _ _
                  (Follows-refl (set_step w.steps i (finish s p))))
                (set_step-IsDone w.steps i (finish s p) ok),
          )
    | inr other ↦ rw (other, receive) (here, set_step-IsDone w.steps i (finish s p) ok)
  ]
    where
      here : Follows w.steps (set_step w.steps i (finish s p))
      here = Follows-set_step w.steps i s (finish s p) e refl ok

  -- One future: nothing else changes but parameters.
  pub after_outcome-Follows :
      (w : Workflow) (i : ℕ) (s : WorkflowStep) (o : Outcome)
      → get_elem? w.steps i ≡ some s
      → settles (ended s o).status ≡ true
      → Follows w.steps (after_outcome w i s o).steps × IsDone (after_outcome w i s o).steps i
  unfolding fail_with
  after_outcome-Follows w i s (returned p) e h = receive-Follows w i s p e h
  after_outcome-Follows w i s (threw message) e h = (
    Follows-set_step w.steps i s (fail_with s message) e refl h,
    set_step-IsDone w.steps i (fail_with s message) h,
  )

-- What holds of each future holds at the position of each node that was submitted.
counted_at :
    (P : ℕ → Type 0) (sent : List (WorkflowStep × Bool)) (n k : ℕ) (u : WorkflowStep)
    → All P (futures_from n sent)
    → get_elem? sent k ≡ some (u, true)
    → P (n + k)
unfolding futures_from
counted_at P [] n k u h e = cc
counted_at P ((s, true) ∷ sent) n zero u h e = subst P (omega arith) h.0
counted_at P ((s, false) ∷ sent) n zero u h e = cc
counted_at P ((s, true) ∷ sent) n (suc k) u h e =
    subst P (omega arith) (counted_at P sent (n + 1) k u h.1 e)
counted_at P ((s, false) ∷ sent) n (suc k) u h e =
    subst P (omega arith) (counted_at P sent (n + 1) k u h e)

pub submitted_at :
    (P : ℕ → Type 0) (sent : List (WorkflowStep × Bool)) (k : ℕ) (u : WorkflowStep)
    → All P (futures_from 0 sent)
    → get_elem? sent k ≡ some (u, true)
    → P k
submitted_at P sent k u h e = subst P (zero_more k) (counted_at P sent 0 k u h e)
  where
    zero_more : (k : ℕ) → 0 + k ≡ k
    zero_more k = omega arith

-- Every node that was submitted has settled.
abbrev pub AllDone : (StepStatus → Bool) → List (WorkflowStep × Bool) → List WorkflowStep → Type 0
AllDone settles sent ts =
    (k : ℕ) (u : WorkflowStep) → get_elem? sent k ≡ some (u, true) → IsDone settles ts k

schedulable_open : (status : StepStatus) → schedulable status ≡ true → is_completed status ≡ false
schedulable_open status h = ground arith

-- A node that was not submitted is as open as before, and a node that was submitted was open.
Submitted : WorkflowStep → WorkflowStep → Bool → Type 0
Submitted s t taken =
    (taken ≡ false)
      × ((is_completed t.status || schedulable t.status) ≡ true)
      × (is_completed t.status ≡ is_completed s.status)
    ⊎ (taken ≡ true) × (is_completed s.status ≡ false)

Sent-Submitted :
    (s r t : WorkflowStep) (mark taken : Bool)
    → IsAlive s
    → ((r ≡ made_ready s) × (mark ≡ true) × (is_completed s.status ≡ false)
        ⊎ (r ≡ s) × (mark ≡ false))
    → Sent r mark t taken
    → (static t ≡ static s) × Submitted s t taken
unfolding Submitted
Sent-Submitted s r t mark taken alive (inl (e, m, o)) sent =
    (ground (arith, sent), ground (arith, sent))
Sent-Submitted s r t mark taken alive (inr (e, m)) sent = (
  ground (arith, sent),
  inl (ground (arith, sent), ground (arith, sent, alive.0), ground (arith, sent)),
)

visited_cases :
    (completed : List String) (s : WorkflowStep)
    → (((visited completed s).0 ≡ made_ready s)
          × ((visited completed s).1 ≡ true)
          × (is_completed s.status ≡ false)
        ⊎ ((visited completed s).0 ≡ s) × ((visited completed s).1 ≡ false))
visited_cases completed s = elim (Bool-cases (picks completed s)) [
  | inl picked ↦ inl (rw picked refl, rw picked refl, schedulable_open s.status (ground arith))
  | inr left ↦ inr (rw left refl, rw left refl)
]

-- One node through a scan, a submission and the end of the round.
IsAlive-after :
    (s t u : WorkflowStep) (taken : Bool)
    → IsAlive s
    → static t ≡ static s
    → Submitted s t taken
    → static u ≡ static t
    → (u.status ≡ t.status) ⊎ (is_completed u.status ≡ true)
    → (taken ≡ true → is_completed u.status ≡ true)
    → IsAlive u
      × (as_number (not (is_completed u.status)) + as_number taken
          ≤ as_number (not (is_completed s.status)))
unfolding Submitted
IsAlive-after s t u taken alive same' sent same o h =
    ((ground (arith, h), ground arith), ground (arith, h))

abbrev pub Same : List WorkflowStep → List WorkflowStep → Type 0
Same [] [] = Unit
Same (s ∷ ss) (t ∷ ts) = (static t ≡ static s) × Same ss ts
Same _ _ = ⊥

-- A round in which every executor succeeds: it leaves nodes that are alive, and as many fewer open ones as
-- it submitted.
pub round-IsAlive :
    (completed : List String) (ss : List WorkflowStep) (sent : List (WorkflowStep × Bool))
    (ts : List WorkflowStep)
    → All IsAlive ss
    → Sends (map (visited completed) ss) sent
    → Follows is_completed (marked_steps sent) ts
    → AllDone is_completed sent ts
    → All IsAlive ts × Same ss ts × (open_count ts + marked sent ≤ open_count ss)
round-IsAlive completed [] [] [] alive h k d = (tt, tt, omega arith)
round-IsAlive completed (s ∷ ss) ((t, taken) ∷ sent) (u ∷ us) (here, alive) (h0, h) ((same, o), k)
      d =
    let (rest_alive, rest_same, fewer) =
      round-IsAlive completed ss sent us alive h k (λ i v e. d (suc i) v e) in
    let (unchanged, submitted) =
      Sent-Submitted s (visited completed s).0 t (visited completed s).1 taken here
        (visited_cases completed s) h0 in
    let (now, less) =
      IsAlive-after s t u taken here unchanged submitted same o
        (λ e. d 0 t (ap (λ b. some (t, b)) e)) in
    ((now, rest_alive), (same ∙ unchanged, rest_same), omega (arith, fewer, less))
round-IsAlive completed [] (m ∷ sent) ts alive h k d = absurd h
round-IsAlive completed (s ∷ ss) [] ts alive h k d = absurd h
round-IsAlive completed [] [] (u ∷ us) alive h k d = absurd k
round-IsAlive completed (s ∷ ss) (m ∷ sent) [] alive h k d = absurd k
