-- ===== src/Base/Dict.antt =====
-- A Python dictionary with text keys, as an association list in insertion order.
use mathlib.Core.Path.{◌≡◌, refl}
use mathlib.Core.Bool.{Bool, true, false, ◌||◌}
use mathlib.Core.Option.{Option, none, some}
use mathlib.Core.List.{List, [], ◌∷◌, map}
use Prim.Native.String.{String}
use text.Mathlib.Text.{◌==◌}
use text.Mathlib.TextEquality.{eq_iff}
use native.Mathlib.Omega.{arith}
use freaky_monkey.Base.Tests.{if◌then◌else◌}

-- `k in ks`, for a list or set of texts.
abbrev pub contains : List String → String → Bool
contains [] k = false
contains (j ∷ js) k = j == k || contains js k

module _ {ℓ} {V : Type ℓ} where
  -- `d.get(k)`
  unfoldable pub lookup : String → List (String × V) → Option V
  lookup k [] = none
  lookup k ((j, v) ∷ d) = if j == k then some v else lookup k d

  -- `d[k] = v`: an old key keeps its place, a new key goes to the end.
  unfoldable pub insert : String → V → List (String × V) → List (String × V)
  insert k v [] = (k, v) ∷ []
  insert k v ((j, w) ∷ d) = if j == k then (j, v) ∷ d else (j, w) ∷ insert k v d

  -- `d.pop(k, None)`
  unfoldable pub remove : String → List (String × V) → List (String × V)
  remove k [] = []
  remove k ((j, w) ∷ d) = if j == k then remove k d else (j, w) ∷ remove k d

  abbrev pub keys : List (String × V) → List String
  keys = map (λ e. e.0)

  abbrev pub values : List (String × V) → List V
  values = map (λ e. e.1)

  -- `k in d`
  abbrev pub has_key : String → List (String × V) → Bool
  has_key k d = elim (lookup k d) [ none ↦ false | some _ ↦ true ]

  -- `d.get(k, default)`
  abbrev pub get_or : V → String → List (String × V) → V
  get_or default k d = elim (lookup k d) [ none ↦ default | some v ↦ v ]

  pub lookup-insert :
      (key asked : String) (new : V) (d : List (String × V))
      → lookup asked (insert key new d) ≡ (if key == asked then some new else lookup asked d)
  unfolding lookup insert
  lookup-insert key asked new [] = refl
  lookup-insert key asked new ((head, old) ∷ d) =
      ground
        (arith, eq_iff key asked, eq_iff head key, eq_iff head asked, lookup-insert key asked new d)

  pub lookup-remove :
      (k j : String) (d : List (String × V))
      → lookup j (remove k d) ≡ (if k == j then none else lookup j d)
  unfolding lookup remove
  lookup-remove k j [] = ground arith
  lookup-remove k j ((i, w) ∷ d) =
      ground (arith, eq_iff k j, eq_iff i k, eq_iff i j, lookup-remove k j d)

  pub lookup-insert_hit :
      (k j : String) (v : V) (d : List (String × V))
      → (k == j) ≡ true
      → lookup j (insert k v d) ≡ some v
  lookup-insert_hit k j v d h = rw (lookup-insert k j v d, h) refl

  pub lookup-insert_miss :
      (k j : String) (v : V) (d : List (String × V))
      → (k == j) ≡ false
      → lookup j (insert k v d) ≡ lookup j d
  lookup-insert_miss k j v d h = rw (lookup-insert k j v d, h) refl
