-- ===== src/Runtime/Redacted.antt =====
-- agent_control/runtime_persistence.py: what the transactions of `RuntimePersistence` leave in its tables.
use freaky_monkey.Base.{
  String, Bool, true, false, Option, none, some, List, [], ◌∷◌, ◌≡◌, arith, All, All-keep,
  All-map_of, All-append, keep, ◌&&◌, inl, inr, Bool-cases, str_eq, if◌then◌else◌,
}
use freaky_monkey.Base.Dict.{insert, remove}
use freaky_monkey.Json.{Params}
use freaky_monkey.Runtime.Redaction.{safe_params}
use freaky_monkey.Runtime.Secrets.{clean_params, safe_params-clean}
use freaky_monkey.Runtime.Task.{RuntimeTask, RuntimeEvent}
use freaky_monkey.Runtime.Store.{
  Tables, to_row, safe_event, safe_event?, add_event, write_approval, Write, commit,
  delete_resource, delete_rows,
}

abbrev pub CleanRow : RuntimeTask → Type 0
CleanRow t = (clean_params t.recovery_context && clean_params t.metadata) ≡ true

abbrev pub CleanEvent : RuntimeEvent → Type 0
CleanEvent e = clean_params e.metadata ≡ true

-- The columns that hold dictionaries hold no value under a key with a sensitive name, at any depth.
pub record IsClean (db : Tables) : Type 0 where
  pub tasks : All (λ e. CleanRow e.1) db.tasks
  pub events : All CleanEvent db.events
  pub approvals : All (λ e. clean_params e.1 ≡ true) db.approvals

to_row-CleanRow : (t : RuntimeTask) → CleanRow (to_row t)
unfolding to_row
to_row-CleanRow t =
    ground (arith, safe_params-clean t.recovery_context, safe_params-clean t.metadata)

safe_event-CleanEvent : (e : RuntimeEvent) → CleanEvent (safe_event e)
unfolding safe_event
safe_event-CleanEvent e = safe_params-clean e.metadata

module _ {V : Type 0} (P : V → Type 0) where
  All-insert :
      (k : String) (v : V) (m : List (String × V))
      → All (λ e. P e.1) m
      → P v
      → All (λ e. P e.1) (insert k v m)
  unfolding insert
  All-insert k v [] h p = (p, tt)
  All-insert k v ((j, w) ∷ m) h p = elim (Bool-cases (str_eq j k)) [
    | inl hit ↦ rw (hit, insert) (p, h.1)
    | inr miss ↦ rw (miss, insert) (h.0, All-insert k v m h.1 p)
  ]

  All-remove :
      (k : String) (m : List (String × V)) → All (λ e. P e.1) m → All (λ e. P e.1) (remove k m)
  unfolding remove
  All-remove k [] h = tt
  All-remove k ((j, w) ∷ m) h = elim (Bool-cases (str_eq j k)) [
    | inl hit ↦ rw (hit, remove) (All-remove k m h.1)
    | inr miss ↦ rw (miss, remove) (h.0, All-remove k m h.1)
  ]

All-kept : {V : Type 0} (P : V → Type 0) (p : V → Bool) (xs : List V) → All P xs → All P (keep p xs)
All-kept P p xs h = All-keep p P xs (All-map_of P (λ x. p x ≡ true → P x) xs (λ x k e. k) h)

add_event-CleanEvent :
    (o : Option RuntimeEvent) (es : List RuntimeEvent)
    → All CleanEvent es
    → All CleanEvent (add_event (safe_event? o) es)
add_event-CleanEvent none es h = h
add_event-CleanEvent (some e) es h =
    All-append CleanEvent es (safe_event e ∷ []) h (safe_event-CleanEvent e, tt)

abbrev CleanParams : Params → Type 0
CleanParams p = clean_params p ≡ true

write_approval-CleanParams :
    (k : String) (o : Option Params) (gone : Bool) (m : List (String × Params))
    → All (λ e. CleanParams e.1) m
    → All (λ e. CleanParams e.1) (write_approval k o gone m)
write_approval-CleanParams k none true m h = All-remove CleanParams k m h
write_approval-CleanParams k none false m h = h
write_approval-CleanParams k (some p) gone m h =
    let put = All-insert CleanParams k (safe_params p) m h (safe_params-clean p) in
    elim gone
      as (λ b.
        All (λ e. CleanParams e.1)
          (if b then remove k (insert k (safe_params p) m) else insert k (safe_params p) m)) [
            | true ↦ All-remove CleanParams k (insert k (safe_params p) m) put
            | false ↦ put
          ]

module _ (db : Tables) (clean : IsClean db) where
  pub commit-IsClean : (t : RuntimeTask) (w : Write) → IsClean (commit db t w)
  unfolding commit
  commit-IsClean t w = record {
    tasks = All-insert CleanRow t.task_id (to_row t) db.tasks clean.tasks (to_row-CleanRow t);
    events = add_event-CleanEvent w.event db.events clean.events;
    approvals =
        write_approval-CleanParams t.task_id w.approval w.remove_approval db.approvals
          clean.approvals;
  }

  pub delete_resource-IsClean :
      (owner key : String) (t : RuntimeTask) (e : RuntimeEvent)
      → IsClean (delete_resource db owner key t e)
  unfolding delete_resource
  delete_resource-IsClean owner key t e = record {
    tasks = All-insert CleanRow t.task_id (to_row t) db.tasks clean.tasks (to_row-CleanRow t);
    events = add_event-CleanEvent (some e) db.events clean.events;
    approvals = clean.approvals;
  }

  pub delete_rows-IsClean : (ids : List String) → IsClean (delete_rows db ids)
  unfolding delete_rows
  delete_rows-IsClean ids = record {
    tasks = All-kept (λ e. CleanRow e.1) _ db.tasks clean.tasks;
    events = All-kept CleanEvent _ db.events clean.events;
    approvals = clean.approvals;
  }
