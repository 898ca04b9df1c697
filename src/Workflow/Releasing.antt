-- ===== src/Workflow/Releasing.antt =====
-- The loop over the children of a node that `validate` of agent_control/workflow/scheduler.py takes.
use freaky_monkey.Base.{
  ℕ, zero, suc, ◌+◌, ◌-◌, ◌≤◌, String, true, none, some, List, [], ◌∷◌, ◌≡◌, refl, ap, sym, ◌∙◌,
  arith, tally, length, str_eq, eq_iff, Bool-cases, inl, inr, if◌then◌else◌, ◌==◌, All, eq_refl,
}
use freaky_monkey.Base.Dict.{contains, lookup, insert}
use freaky_monkey.Workflow.Ready.{Result, ok}
use freaky_monkey.Workflow.Graph.{count, decr, is_zero, Degrees, release_children}
use freaky_monkey.Workflow.Counting.{occurs, Counts, Counts-ext, insert-Counts}

-- The nodes of degree zero in the table.
abbrev pub zeros : Degrees → ℕ
zeros = tally (λ e. is_zero e.1)

-- A number as its test for zero.
abbrev pub when_zero : ℕ → ℕ
when_zero n = if n == 0 then 1 else 0

pub is_zero-when_zero : (n : ℕ) → (if is_zero (count n) then 1 else 0) ≡ when_zero n
is_zero-when_zero zero = refl
is_zero-when_zero (suc n) = ground arith

when_zero_pos : (n : ℕ) → 1 ≤ n → when_zero n ≡ 0
when_zero_pos n h = ground arith

zeros-insert :
    (k : String) (n m : ℕ) (degrees : Degrees)
    → lookup k degrees ≡ some (count n)
    → zeros (insert k (count m) degrees) + when_zero n ≡ zeros degrees + when_zero m
unfolding lookup insert
zeros-insert k n m [] h = cc
zeros-insert k n m ((j, v) ∷ degrees) h = elim (Bool-cases (str_eq j k)) [
  | inl same ↦ ground (arith, same, h, is_zero-when_zero n, is_zero-when_zero m)
  | inr other ↦ ground (arith, other, h, zeros-insert k n m degrees)
]

decr_count : (n : ℕ) → 1 ≤ n → decr (count n) ≡ count (n - 1)
decr_count zero h = absurd (omega arith)
decr_count (suc n) h = ap count (omega arith)

-- One child: its degree falls by one, and it is queued when it falls to zero.
pushed : ℕ → String → List String → List String
pushed n c queue = if is_zero (count n) then c ∷ queue else queue

occurs-pushed :
    (n : ℕ) (c d : String) (queue : List String)
    → occurs d (pushed n c queue) ≡ occurs d queue + (if str_eq c d then when_zero n else 0)
unfolding pushed
occurs-pushed zero c d queue = ground arith
occurs-pushed (suc n) c d queue = ground arith

length-pushed :
    (n : ℕ) (c : String) (queue : List String)
    → length (pushed n c queue) ≡ length queue + when_zero n
unfolding pushed
length-pushed zero c queue = ground arith
length-pushed (suc n) c queue = ground arith

queue_step :
    (c d : String) (cs : List String) (n nc : ℕ)
    → (d ≡ c → n ≡ nc)
    → (after before middle : ℕ) → occurs d (c ∷ cs) ≤ n
    → middle ≡ before + (if str_eq c d then when_zero (nc - 1) else 0)
    → after + when_zero (n - (if str_eq c d then 1 else 0))
      ≡ middle + when_zero (n - (if str_eq c d then 1 else 0) - occurs d cs)
    → after + when_zero n ≡ before + when_zero (n - occurs d (c ∷ cs))
queue_step c d cs n nc same after before middle fits middle_is e = elim (Bool-cases (str_eq c d)) [
  | inl here ↦ let equal = same (sym (ground (arith, here, eq_iff c d))) in ground (arith, here)
  | inr other ↦ ground (arith, other)
]

release_step :
    (c : String) (cs : List String) (degrees : Degrees) (queue : List String) (n : ℕ)
    → lookup c degrees ≡ some (count n)
    → 1 ≤ n
    → release_children (c ∷ cs) degrees queue
      ≡ release_children cs (insert c (count (n - 1)) degrees) (pushed (n - 1) c queue)
unfolding release_children pushed
release_step c cs degrees queue n e h = ground (arith, e, decr_count n h)

-- The tables after the children were released: the degrees are less by the children, and those whose
-- degree fell to zero are queued.
abbrev pub Released :
    List String
    → (String → ℕ)
    → List String
    → Degrees
    → List String
    → Result (Degrees × List String)
    → Type 0
Released keys f cs degrees queue r =
    (m : Degrees × List String) × (r ≡ ok m)
    × Counts m.0 keys (λ c. f c - occurs c cs)
    × ((c : String)
        → occurs c m.1 + when_zero (f c) ≡ occurs c queue + when_zero (f c - occurs c cs))
    × (zeros m.0 + length queue ≡ zeros degrees + length m.1)

pub release_children_lem :
    (keys cs : List String) (degrees : Degrees) (queue : List String) (f : String → ℕ)
    → All (λ c. contains keys c ≡ true) cs
    → ((c : String) → occurs c cs ≤ f c)
    → Counts degrees keys f
    → Released keys f cs degrees queue (release_children cs degrees queue)
unfolding release_children
release_children_lem keys [] degrees queue f known fits counts = (
  (degrees, queue),
  refl,
  Counts-ext degrees keys f _ (λ c. omega arith) counts,
  (λ c. ground arith),
  omega arith,
)
release_children_lem keys (c ∷ cs) degrees queue f (here, known) fits counts =
    let f' = λ (d : String). f d - (if str_eq c d then 1 else 0) in
    let enough = fits c in
    let found = counts c ∙ ap (λ b. if b then some (count (f c)) else none) here in
    let least = at_least c cs (f c) enough in
    let (m, done, counts', queued, same) =
      release_children_lem keys cs (insert c (count (f c - 1)) degrees) (pushed (f c - 1) c queue)
        f' known (λ d. fewer c cs d (f d) (fits d))
        (insert-Counts degrees keys f f' c (f c - 1) here counts
          (λ d. ground (arith, eq_iff c d))) in
    (
      m,
      release_step c cs degrees queue (f c) found least ∙ done,
      Counts-ext m.0 keys _ _ (λ d. ground arith) counts',
      (λ d.
          queue_step c d cs (f d) (f c) (ap f) (occurs d m.1) (occurs d queue)
            (occurs d (pushed (f c - 1) c queue)) (fits d) (occurs-pushed (f c - 1) c d queue)
            (queued d)),
      omega (
        arith,
        same,
        zeros-insert c (f c) (f c - 1) degrees found,
        length-pushed (f c - 1) c queue,
        when_zero_pos (f c) least,
      ),
    )
  where
    at_least : (c : String) (cs : List String) (n : ℕ) → occurs c (c ∷ cs) ≤ n → 1 ≤ n
    at_least c cs n h = ground (arith, eq_refl c, h)

    fewer :
        (c : String) (cs : List String) (d : String) (n : ℕ)
        → occurs d (c ∷ cs) ≤ n
        → occurs d cs ≤ n - (if str_eq c d then 1 else 0)
    fewer c cs d n h = ground arith
