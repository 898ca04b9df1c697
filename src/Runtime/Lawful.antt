-- ===== src/Runtime/Lawful.antt =====
-- agent_control/runtime.py: what one step of `RuntimeManager` may do to the tasks, and that saving a
-- task keeps to it.
use freaky_monkey.Base.{
  String, true, Option, none, some, List, ◌≡◌, refl, sym, ap, ◌∙◌, subst, arith, eq_iff, str_eq,
  ◌⊎◌, inl, inr, Bool-cases,
}
use freaky_monkey.Base.Dict.{lookup, insert, lookup-insert_hit, lookup-insert_miss}
use freaky_monkey.Runtime.State.{RuntimeState, allowed, same_state, may_move, same_state-eq}
use freaky_monkey.Runtime.Task.{RuntimeTask}
use freaky_monkey.Runtime.Store.{Write, commit, to_row}
use freaky_monkey.Runtime.Manager.{Manager, Tick, save}

-- A path of the table of transitions.
pub data Reaches : RuntimeState → RuntimeState → Type 0 where
  stay : {s : RuntimeState} → Reaches s s
  step : {s t u : RuntimeState} → allowed s t ≡ true → Reaches t u → Reaches s u

pub Reaches-append : {s t u : RuntimeState} → Reaches s t → Reaches t u → Reaches s u
Reaches-append stay q = q
Reaches-append (step a p) q = step a (Reaches-append p q)

pub may_move-Reaches : (s t : RuntimeState) → may_move s t ≡ true → Reaches s t
unfolding may_move
may_move-Reaches s t h = elim (Bool-cases (same_state s t)) [
  | inl e ↦ subst (λ u. Reaches s u) (same_state-eq s t e) stay
  | inr e ↦ step (ground arith) stay
]

-- What may become of the task of one identifier: it goes, or it moves along the table.
pub data Follows : Option RuntimeTask → Option RuntimeTask → Type 0 where
  gone : {o : Option RuntimeTask} → Follows o none
  moves : {t u : RuntimeTask} → Reaches t.state u.state → Follows (some t) (some u)

pub Follows-same : (o : Option RuntimeTask) → Follows o o
Follows-same none = gone
Follows-same (some t) = moves stay

pub Follows-append : {o p q : Option RuntimeTask} → Follows o p → Follows p q → Follows o q
Follows-append f gone = gone
Follows-append (moves r) (moves s) = moves (Reaches-append r s)

abbrev pub IsKeyed : Manager → Type 0
IsKeyed m = (k : String) (t : RuntimeTask) → lookup k m.tasks ≡ some t → t.task_id ≡ k

abbrev pub row_of : Option RuntimeTask → Option RuntimeTask
row_of none = none
row_of (some t) = some (to_row t)

-- Each task is stored as its row, and no other row is.
abbrev pub IsStored : Manager → Type 0
IsStored m = (k : String) → lookup k m.db.tasks ≡ row_of (lookup k m.tasks)

abbrev pub IsLawful : Manager → Manager → Type 0
IsLawful m m' = (k : String) → Follows (lookup k m.tasks) (lookup k m'.tasks)

abbrev pub Sound : Manager → Type 0
Sound m = IsKeyed m × IsStored m

-- A step from one manager to another that keeps the invariants and obeys the table.
abbrev pub Steps : Manager → Manager → Type 0
Steps m m' = Sound m' × IsLawful m m'

pub Steps-same : (m : Manager) → Sound m → Steps m m
Steps-same m h = (h, λ k. Follows-same (lookup k m.tasks))

pub Steps-append : (m m' m'' : Manager) → Steps m m' → Steps m' m'' → Steps m m''
Steps-append m m' m'' a b = (b.0, λ k. Follows-append (a.1 k) (b.1 k))

-- The two tables of tasks are what they were.
abbrev pub IsSame : Manager → Manager → Type 0
IsSame m m' = (m'.tasks ≡ m.tasks) × (m'.db.tasks ≡ m.db.tasks)

-- One task is written to both.
abbrev pub IsPut : RuntimeTask → Manager → Manager → Type 0
IsPut t m m' =
    (m'.tasks ≡ insert t.task_id t m.tasks) × (m'.db.tasks ≡ insert t.task_id (to_row t) m.db.tasks)

pub same-Steps : (m m' : Manager) → Sound m → IsSame m m' → Steps m m'
same-Steps m m' h e = (
  (
    λ k t found. h.0 k t (ap (lookup k) (sym e.0) ∙ found),
    λ k. ap (lookup k) e.1 ∙ h.1 k ∙ ap (λ ts. row_of (lookup k ts)) (sym e.0),
  ),
  λ k.
      subst (λ ts. Follows (lookup k m.tasks) (lookup k ts)) (sym e.0)
        (Follows-same (lookup k m.tasks)),
)

some-injective : (t u : RuntimeTask) → some t ≡ some u → t ≡ u
some-injective t u h = cc

pub insert-IsKeyed :
    (t : RuntimeTask) (ts : List (String × RuntimeTask)) (k : String) (u : RuntimeTask)
    → (lookup k ts ≡ some u → u.task_id ≡ k)
    → lookup k (insert t.task_id t ts) ≡ some u
    → u.task_id ≡ k
insert-IsKeyed t ts k u h found = elim (Bool-cases (str_eq t.task_id k)) [
  | inl hit ↦
      let same = some-injective t u (sym (lookup-insert_hit t.task_id k t ts hit) ∙ found) in
      ap (λ v. v.task_id) (sym same) ∙ (eq_iff t.task_id k).0 hit
  | inr miss ↦ h (sym (lookup-insert_miss t.task_id k t ts miss) ∙ found)
]

insert-IsStored :
    (t : RuntimeTask) (ts rows : List (String × RuntimeTask)) (k : String)
    → lookup k rows ≡ row_of (lookup k ts)
    → lookup k (insert t.task_id (to_row t) rows) ≡ row_of (lookup k (insert t.task_id t ts))
insert-IsStored t ts rows k h = elim (Bool-cases (str_eq t.task_id k)) [
  | inl hit ↦
      lookup-insert_hit t.task_id k (to_row t) rows hit
      ∙ ap row_of (sym (lookup-insert_hit t.task_id k t ts hit))
  | inr miss ↦
      lookup-insert_miss t.task_id k (to_row t) rows miss
      ∙ h
      ∙ ap row_of (sym (lookup-insert_miss t.task_id k t ts miss))
]

insert-Follows :
    (c t : RuntimeTask) (ts : List (String × RuntimeTask)) (k : String)
    → lookup t.task_id ts ≡ some c
    → Reaches c.state t.state
    → Follows (lookup k ts) (lookup k (insert t.task_id t ts))
insert-Follows c t ts k found r = elim (Bool-cases (str_eq t.task_id k)) [
  | inl hit ↦
      subst (λ o. Follows o (lookup k (insert t.task_id t ts)))
        (sym (ap (λ j. lookup j ts) (sym ((eq_iff t.task_id k).0 hit)) ∙ found))
        (subst (Follows (some c)) (sym (lookup-insert_hit t.task_id k t ts hit)) (moves r))
  | inr miss ↦
      subst (Follows (lookup k ts)) (sym (lookup-insert_miss t.task_id k t ts miss))
        (Follows-same (lookup k ts))
]

pub put-Sound : (t : RuntimeTask) (m m' : Manager) → Sound m → IsPut t m m' → Sound m'
put-Sound t m m' h e = (
  λ k u found. insert-IsKeyed t m.tasks k u (h.0 k u) (ap (lookup k) (sym e.0) ∙ found),
  λ k.
      ap (lookup k) e.1
      ∙ insert-IsStored t m.tasks m.db.tasks k (h.1 k)
      ∙ ap (λ ts. row_of (lookup k ts)) (sym e.0),
)

pub put-Steps :
    (c t : RuntimeTask) (m m' : Manager)
    → Sound m
    → IsPut t m m'
    → lookup t.task_id m.tasks ≡ some c
    → Reaches c.state t.state
    → Steps m m'
put-Steps c t m m' h e found r = (
  put-Sound t m m' h e,
  λ k.
      subst (λ ts. Follows (lookup k m.tasks) (lookup k ts)) (sym e.0)
        (insert-Follows c t m.tasks k found r),
)

-- Saving a task either writes it to both tables, or changes nothing.
pub save_puts :
    (tick : Tick) (t : RuntimeTask) (w : Write) (m : Manager)
    → IsSame m (save tick t w m).0 ⊎ IsPut t m (save tick t w m).0
unfolding save commit
save_puts tick t w m = elim (Bool-cases (tick.commits t.task_id)) [
  | inl e ↦ inr (rw e (refl, refl))
  | inr e ↦ inl (rw e (refl, refl))
]

-- One that writes a task that is there, moved along the table, or changes nothing.
abbrev pub IsWritten : RuntimeTask → Manager → Manager → Type 0
IsWritten c m m' =
    IsSame m m'
    ⊎ ((t : RuntimeTask) × (t.task_id ≡ c.task_id) × Reaches c.state t.state × IsPut t m m')

pub written-Steps :
    (k : String) (c : RuntimeTask) (m m' : Manager)
    → Sound m
    → lookup k m.tasks ≡ some c
    → IsWritten c m m'
    → Steps m m'
written-Steps k c m m' h found (inl e) = same-Steps m m' h e
written-Steps k c m m' h found (inr (t, same, r, put)) =
    put-Steps c t m m' h put (ap (λ j. lookup j m.tasks) (same ∙ h.0 k c found) ∙ found) r
