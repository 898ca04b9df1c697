-- ===== src/Examples/Fulfilling.antt =====
-- A workflow that `Workflow.from_actions` builds, and `DependencyScheduler.run` on it.
use text.Mathlib.TextPositions.{len-append}
use Prim.Native.String.{len, ◌++◌ as str_append}
use freaky_monkey.Base.{
  ℕ, zero, suc, String, true, false, some, [], ◌≡◌, refl, ap, sym, ◌∙◌, arith, All,
}
use freaky_monkey.Base.Dict.{lookup}
use freaky_monkey.Workflow.Model.{Workflow}
use freaky_monkey.Workflow.Locks.{new_manager, new_manager-IsConsistent}
use freaky_monkey.Workflow.Ready.{ok}
use freaky_monkey.Workflow.Graph.{is_allowed_kind, validate}
use freaky_monkey.Workflow.Run.{RunState, verified}
use freaky_monkey.Workflow.Rounds.{run_loop}
use freaky_monkey.Workflow.Emptied.{IsFinished}
use freaky_monkey.Workflow.Inference.{Python}
use freaky_monkey.Workflow.Planning.{from_actions}
use freaky_monkey.Workflow.Planned.{from_actions-validate}
use freaky_monkey.Workflow.Fulfilled.{from_actions-completes}
use freaky_monkey.Examples.Scheduling.{workflow_of}
use freaky_monkey.Examples.Completing.{succeeding, succeeding-IsCooperative}
use freaky_monkey.Examples.Planning.{small, song}

-- A number as so many strokes.
strokes : ℕ → String
strokes zero = ""
strokes (suc n) = str_append "|" (strokes n)

len-strokes : (n : ℕ) → len (strokes n) ≡ n
unfolding strokes
len-strokes zero = refl
len-strokes (suc n) = omega (arith, len-append "|" (strokes n), len-strokes n)

strokes-injective : (i j : ℕ) → strokes i ≡ strokes j → i ≡ j
strokes-injective i j e = sym (len-strokes i) ∙ ap len e ∙ len-strokes j

abbrev counting : Python
counting = record small { decimal = strokes }

abbrev song_workflow : Workflow
song_workflow = workflow_of (from_actions counting "w" "play Clocks" song false)

from_actions-validate_example : validate song_workflow ≡ some (ok tt)
unfolding is_allowed_kind
from_actions-validate_example =
    from_actions-validate counting song_workflow "play Clocks" song false strokes-injective
      (refl, (refl, tt)) refl

abbrev start : RunState
start = record { workflow = song_workflow; results = []; locks = new_manager }

from_actions-completes_example :
    (st1 : RunState) × (run_loop succeeding 2 2 0 start ≡ ok (st1, true))
    × IsFinished st1
    × All (λ s. verified s ≡ true) st1.workflow.steps
unfolding is_allowed_kind lookup
from_actions-completes_example =
    from_actions-completes counting succeeding 2 2 start "play Clocks" song false strokes-injective
      (refl, (refl, tt)) refl new_manager-IsConsistent (λ r named. refl) refl refl
      succeeding-IsCooperative (omega arith) (omega arith) (omega arith)
