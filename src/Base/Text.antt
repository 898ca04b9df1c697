-- ===== src/Base/Text.antt =====
-- Case and white space of ASCII texts: `str.upper`, `str.lower`, `str.strip`.
use Prim.Native.Nat.{ℕ, ◌+◌, ◌-◌}
use Prim.Native.Char.{code}
use Prim.Native.String.{String}
use mathlib.Core.Bool.{Bool, true, false, ◌&&◌, ◌||◌}
use mathlib.Core.List.{List, [], ◌∷◌, map, reverse}
use freaky_monkey.Base.Tests.{leb, ◌==◌, if◌then◌else◌}

-- The code points of a text. `String` has its own `[]` and `∷`.
abbrev pub codes : String → List ℕ
codes String.[] = []
codes (String.◌∷◌ c s) = code c ∷ codes s

abbrev pub codes_eq : List ℕ → List ℕ → Bool
codes_eq [] [] = true
codes_eq (x ∷ xs) (y ∷ ys) = x == y && codes_eq xs ys
codes_eq _ _ = false

unfoldable pub upper : List ℕ → List ℕ
upper = map (λ c. if leb b'a' c && leb c b'z' then c - 32 else c)

unfoldable pub lower : List ℕ → List ℕ
lower = map (λ c. if leb b'A' c && leb c b'Z' then c + 32 else c)

abbrev pub is_space : ℕ → Bool
is_space c = c == 32 || leb 9 c && leb c 13 || leb 28 c && leb c 31

abbrev pub lstrip : List ℕ → List ℕ
lstrip [] = []
lstrip (c ∷ s) = let rest = lstrip s in if is_space c then rest else c ∷ s

unfoldable pub strip : List ℕ → List ℕ
strip s = reverse (lstrip (reverse (lstrip s)))

abbrev pub is_prefix : List ℕ → List ℕ → Bool
is_prefix [] t = true
is_prefix (c ∷ s) [] = false
is_prefix (c ∷ s) (d ∷ t) = c == d && is_prefix s t

-- `s in t`
abbrev pub is_infix : List ℕ → List ℕ → Bool
is_infix s [] = is_prefix s []
is_infix s (d ∷ t) = is_prefix s (d ∷ t) || is_infix s t
