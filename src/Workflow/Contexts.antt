-- ===== src/Workflow/Contexts.antt =====
-- agent_control/workflow/scheduler.py: the values of a workflow through a round of `run`: none is lost.
use freaky_monkey.Base.{
  String, true, Option, none, some, List, [], ◌∷◌, ◌≡◌, refl, arith, all, str_eq, inl, inr,
  Bool-cases,
}
use freaky_monkey.Base.Dict.{insert, has_key, lookup-insert}
use freaky_monkey.Json.{Value, null, bool, num, str, obj, arr, Fields, end, field, Params}
use freaky_monkey.Workflow.Model.{WorkflowStep}
use freaky_monkey.Workflow.Ready.{data_ok}
use freaky_monkey.Workflow.Run.{
  Payload, context_with, update_with, merge_output, store_output, output_value,
}

-- Every value of the first context is in the second.
abbrev pub Within : Params → Params → Type 0
Within m m' = (k : String) → has_key k m ≡ true → has_key k m' ≡ true

insert-Within : (k : String) (v : Value) (m : Params) → Within m (insert k v m)
insert-Within k v m j h = ground (arith, lookup-insert k j v m, h)

update_with-Within : (fs : Fields) (m : Params) → Within m (update_with fs m)
update_with-Within end m k h = h
update_with-Within (field j v fs) m k h =
    update_with-Within fs (insert j v m) k (insert-Within j v m k h)

pub context_with-Within : (p : Payload) (m : Params) → Within m (context_with p m)
unfolding context_with
context_with-Within p m k h =
    stored p.output_key (output_value p) (merge_output p.output m) k (merged p.output k h)
  where
    merged : (o : Option Value) → Within m (merge_output o m)
    merged none k h = h
    merged (some (obj fs)) k h = update_with-Within fs m k h
    merged (some null) k h = h
    merged (some (bool b)) k h = h
    merged (some (num n)) k h = h
    merged (some (str t)) k h = h
    merged (some (arr xs)) k h = h

    stored : (o : Option String) (v : Value) (c : Params) → Within c (store_output o v c)
    stored none v c k h = h
    stored (some j) v c k h = elim (Bool-cases (str_eq j "")) [
      | inl empty ↦ rw empty h
      | inr named ↦ rw named (insert-Within j v c k h)
    ]

pub data_ok-Within :
    (m m' : Params) (s : WorkflowStep) → Within m m' → data_ok m s ≡ true → data_ok m' s ≡ true
unfolding data_ok
data_ok-Within m m' s within h = each s.requires_data h
  where
    each : (ks : List String) → all (λ k. has_key k m) ks ≡ true → all (λ k. has_key k m') ks ≡ true
    each [] h = refl
    each (k ∷ ks) h = ground (arith, within k, each ks (ground arith))
