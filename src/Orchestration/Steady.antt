-- ===== src/Orchestration/Steady.antt =====
-- agent_control/workflow/nodes.py: a node that replaces its current step, keeping the step's
-- identifier and index, leaves it the current step of the next node.
use mathlib.Core.Option
use freaky_monkey.Base.{
  ℕ, zero, suc, String, Bool, true, false, Option, none, some, List, [], ◌∷◌, ◌≡◌, refl, sym, ap,
  ◌∙◌, map, get_elem?, str_eq, if◌then◌else◌,
}
use freaky_monkey.Workflow.Model.{WorkflowStep, Workflow, find_step, current_step}
use freaky_monkey.Workflow.Rounds.{set_step}
use freaky_monkey.Orchestration.State.{GraphState, reload, reload_step, first_id, current}
use freaky_monkey.Orchestration.Gating.{Reads, some-injective}

-- The index of the step with an identifier, 0 if there is none.
abbrev index_of : String → List WorkflowStep → ℕ
index_of k ss = elim (find_step k ss) as (λ _. ℕ) [ none ↦ 0 | some s ↦ s.index ]

pub get_elem?-set_step :
    (ss : List WorkflowStep) (i : ℕ) (s t : WorkflowStep)
    → get_elem? ss i ≡ some s
    → get_elem? (set_step ss i t) i ≡ some t
get_elem?-set_step [] i s t e = cc
get_elem?-set_step (u ∷ ss) zero s t e = refl
get_elem?-set_step (u ∷ ss) (suc i) s t e = get_elem?-set_step ss i s t e

get_elem?-map :
    (ss : List WorkflowStep) (i : ℕ) (s : WorkflowStep)
    → get_elem? ss i ≡ some s
    → get_elem? (map reload_step ss) i ≡ some (reload_step s)
get_elem?-map [] i s e = cc
get_elem?-map (u ∷ ss) zero s e = ap (λ o. Option.map reload_step o) e
get_elem?-map (u ∷ ss) (suc i) s e = get_elem?-map ss i s e

index_cons :
    (k : String) (u : WorkflowStep) (ss : List WorkflowStep)
    → index_of k (u ∷ ss) ≡ (if str_eq u.step_id k then u.index else index_of k ss)
unfolding find_step
index_cons k u ss = by_test (str_eq u.step_id k)
  where
    by_test :
        (c : Bool)
        → (elim (if c then some u else find_step k ss) as (λ _. ℕ) [ none ↦ 0 | some s ↦ s.index ])
          ≡ (if c then u.index else index_of k ss)
    by_test true = refl
    by_test false = refl

-- Two heads with one identifier and one index, over tails that agree.
index_heads :
    (k : String) (t u : WorkflowStep) (ts us : List WorkflowStep)
    → t.step_id ≡ u.step_id
    → t.index ≡ u.index
    → index_of k ts ≡ index_of k us
    → index_of k (t ∷ ts) ≡ index_of k (u ∷ us)
index_heads k t u ts us name place rest =
    index_cons k t ts
    ∙ ap (λ x. if str_eq x k then t.index else index_of k ts) name
    ∙ ap (λ n. if str_eq u.step_id k then n else index_of k ts) place
    ∙ ap (λ n. if str_eq u.step_id k then u.index else n) rest
    ∙ sym (index_cons k u us)

index_of-set_step :
    (k : String) (ss : List WorkflowStep) (i : ℕ) (s t : WorkflowStep)
    → get_elem? ss i ≡ some s
    → t.step_id ≡ s.step_id
    → t.index ≡ s.index
    → index_of k (set_step ss i t) ≡ index_of k ss
index_of-set_step k [] i s t e a b = refl
index_of-set_step k (u ∷ ss) zero s t e a b =
    let same : s ≡ u = sym (some-injective e) in
    index_heads k t u ss ss (a ∙ ap (λ x. x.step_id) same) (b ∙ ap (λ x. x.index) same) refl
index_of-set_step k (u ∷ ss) (suc i) s t e a b =
    index_heads k u u (set_step ss i t) ss refl refl (index_of-set_step k ss i s t e a b)

index_of-map :
    (k : String) (ss : List WorkflowStep) → index_of k (map reload_step ss) ≡ index_of k ss
index_of-map k [] = refl
index_of-map k (u ∷ ss) =
    index_heads k (reload_step u) u (map reload_step ss) ss refl refl (index_of-map k ss)

pub current-gets :
    (w : Workflow) (i : ℕ) (s : WorkflowStep)
    → current w ≡ some (i, s)
    → (current_step w ≡ i) × (get_elem? w.steps i ≡ some s)
current-gets w i s e = by_found (get_elem? w.steps (current_step w)) refl e
  where
    by_found :
        (o : Option WorkflowStep)
        → get_elem? w.steps (current_step w) ≡ o
        → (elim o as (λ _. Option (ℕ × WorkflowStep)) [
          | none ↦ none
          | some t ↦ some (current_step w, t)
        ])
          ≡ some (i, s)
        → (current_step w ≡ i) × (get_elem? w.steps i ≡ some s)
    by_found none f g = cc
    by_found (some t) f g =
        let pair : (current_step w, t) ≡ (i, s) = some-injective g in
        let place : current_step w ≡ i = ap (λ p. p.0) pair in
        (place, ap (λ n. get_elem? w.steps n) (sym place) ∙ f ∙ ap (λ p. some p.1) pair)

current-of :
    (w : Workflow) (i : ℕ) (s : WorkflowStep)
    → current_step w ≡ i
    → get_elem? w.steps i ≡ some s
    → current w ≡ some (i, s)
current-of w i s place found =
    ap
      (λ o. elim o as (λ _. Option (ℕ × WorkflowStep)) [
        | none ↦ none
        | some t ↦ some (current_step w, t)
      ])
      (ap (λ n. get_elem? w.steps n) place ∙ found)
    ∙ ap (λ n. some (n, s)) place

current_step-some :
    (w : Workflow) (k : String) → w.current_step_id ≡ some k → current_step w ≡ index_of k w.steps
unfolding current_step
current_step-some w k e = ap (λ o. elim o as (λ _. ℕ) [ none ↦ 0 | some j ↦ index_of j w.steps ]) e

-- A workflow that a step was read from has a current identifier, once it is reloaded.
named :
    (v : Workflow) (i : ℕ) (s : WorkflowStep)
    → current (reload v) ≡ some (i, s)
    → (k : String) × ((reload v).current_step_id ≡ some k)
unfolding reload
named v i s e = by_name v.current_step_id refl
  where
    nothing : get_elem? {A = WorkflowStep} [] i ≡ some s → ⊥
    nothing h = cc

    by_steps : (ss : List WorkflowStep) → v.steps ≡ ss → (k : String) × (first_id v.steps ≡ some k)
    by_steps [] h =
        let found = (current-gets (reload v) i s e).1 in
        absurd (nothing (ap (λ ss. get_elem? (map reload_step ss) i) (sym h) ∙ found))
    by_steps (u ∷ ss) h = (u.step_id, ap first_id h)

    by_name :
        (o : Option String)
        → v.current_step_id ≡ o
        → (k : String) × ((elim v.current_step_id as (λ _. Option String) [
          | none ↦ first_id v.steps
          | some k ↦ some k
        ])
            ≡ some k)
    by_name none h =
        let (k, f) = by_steps v.steps refl in
        (
          k,
          ap (λ o. elim o as (λ _. Option String) [ none ↦ first_id v.steps | some k ↦ some k ]) h
              ∙ f,
        )
    by_name (some k) h = (
      k,
      ap (λ o. elim o as (λ _. Option String) [ none ↦ first_id v.steps | some k ↦ some k ]) h,
    )

module _ (st st1 : GraphState) (w w1 : Workflow) (i : ℕ) (s t : WorkflowStep) where
  -- After the current step has been replaced by one of the same identifier and index, the next node
  -- reads that step as the current one.
  pub put-Reads :
      Reads st w i s
      → st1.workflow ≡ some w1
      → w1.steps ≡ set_step w.steps i t
      → w1.current_step_id ≡ w.current_step_id
      → t.step_id ≡ s.step_id
      → t.index ≡ s.index
      → Reads st1 (reload w1) i (reload_step t)
  unfolding reload
  put-Reads (flow, here) written steps cur name place =
      let (k, called) = name_of st.workflow flow in
      let (at, found) = current-gets w i s here in
      let id : w1.current_step_id ≡ some k = cur ∙ called in
      let id1 : (reload w1).current_step_id ≡ some k =
        ap (λ o. elim o as (λ _. Option String) [ none ↦ first_id w1.steps | some j ↦ some j ])
          id in
      let index : current_step (reload w1) ≡ i =
        current_step-some (reload w1) k id1
        ∙ index_of-map k w1.steps
        ∙ ap (index_of k) steps
        ∙ index_of-set_step k w.steps i s t found name place
        ∙ sym (current_step-some w k called)
        ∙ at in
      let got : get_elem? (map reload_step w1.steps) i ≡ some (reload_step t) =
        get_elem?-map w1.steps i t
          (ap (λ ss. get_elem? ss i) steps ∙ get_elem?-set_step w.steps i s t found) in
      (ap (λ o. Option.map reload o) written, current-of (reload w1) i (reload_step t) index got)
    where
      name_of :
          (o : Option Workflow)
          → Option.map reload o ≡ some w
          → (k : String) × (w.current_step_id ≡ some k)
      name_of none h = cc
      name_of (some v) h =
          let same : reload v ≡ w = some-injective h in
          let (k, f) = named v i s (ap current same ∙ here) in
          (k, ap (λ x. x.current_step_id) (sym same) ∙ f)
