-- ===== src/Workflow/Carried.antt =====
-- agent_control/workflow/scheduler.py: what depends on the edges of the graph alone is carried through a
-- round of `run`.
use freaky_monkey.Base.{ℕ, ◌<◌, String, true, List, [], ◌∷◌, ◌≡◌, refl, ap, sym, subst, All}
use freaky_monkey.Base.Dict.{contains}
use freaky_monkey.Workflow.Model.{WorkflowStep}
use freaky_monkey.Workflow.Graph.{ids_of}
use freaky_monkey.Workflow.Ranking.{Ranks, EveryDepKnown}
use freaky_monkey.Workflow.Follows.{Same, static}

pub All-Same :
    (P : WorkflowStep → Type 0) (ss ts : List WorkflowStep)
    → ((s t : WorkflowStep) → static t ≡ static s → P s → P t)
    → Same ss ts
    → All P ss
    → All P ts
All-Same P [] [] keep h k = tt
All-Same P (s ∷ ss) (t ∷ ts) keep h k = (keep s t h.0 k.0, All-Same P ss ts keep h.1 k.1)
All-Same P [] (t ∷ ts) keep h k = absurd h
All-Same P (s ∷ ss) [] keep h k = absurd h

pub Same-ids_of : (ss ts : List WorkflowStep) → Same ss ts → ids_of ts ≡ ids_of ss
Same-ids_of [] [] h = refl
Same-ids_of (s ∷ ss) (t ∷ ts) h = cc (h.0, Same-ids_of ss ts h.1)
Same-ids_of [] (t ∷ ts) h = absurd h
Same-ids_of (s ∷ ss) [] h = absurd h

pub Same-EveryDepKnown :
    (ss ts : List WorkflowStep) → Same ss ts → EveryDepKnown ss ss → EveryDepKnown ts ts
Same-EveryDepKnown ss ts same h =
    subst (λ ids. All (λ s. All (λ d. contains ids d ≡ true) s.dependencies) ts)
      (sym (Same-ids_of ss ts same))
      (All-Same _ ss ts
        (λ s t e k. subst (All (λ d. contains (ids_of ss) d ≡ true)) (ap (λ x. x.1) (sym e)) k) same
        h)

pub Same-Ranks :
    (rank : String → ℕ) (ss ts : List WorkflowStep) → Same ss ts → Ranks rank ss → Ranks rank ts
Same-Ranks rank ss ts same h =
    All-Same _ ss ts (λ s t e k. subst (λ x. All (λ d. rank d < rank x.0) x.1) (sym e) k) same h
