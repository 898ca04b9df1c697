-- ===== src/Procedures/Placeholders.antt =====
-- agent_control/procedure_validation.py: `_has_placeholder`. The regular expression is written out as a
-- scan of the code points: a brace, a name, a brace.
use freaky_monkey.Base.{
  ℕ, Bool, List, [], ◌∷◌, ◌++◌, reverse, ◌&&◌, ◌||◌, not, ◌==◌, leb, keep, if◌then◌else◌,
}
use freaky_monkey.Base.Text.{codes}
use freaky_monkey.Json.{Value, Fields, Items, Params, str, obj, arr, end, field, nil, cons}
use freaky_monkey.Policy.Paths.{Text, contains_text}

-- Where a match stands: before a brace, after one, or in a name, which is kept reversed.
pub data Scan : Type 0 where
  outside opened : Scan
  inside : Text → Scan

-- `[A-Za-z_]`
abbrev pub starts_name : ℕ → Bool
starts_name c = (leb 65 c && leb c 90) || (leb 97 c && leb c 122) || c == 95

-- `[A-Za-z0-9_-]`
abbrev pub continues_name : ℕ → Bool
continues_name c = starts_name c || (leb 48 c && leb c 57) || c == 45

abbrev restart : ℕ → Scan
restart c = if c == 123 then opened else outside

abbrev scan_step : Scan → ℕ → Scan × List Text
scan_step outside c = (restart c, [])
scan_step opened c = (if starts_name c then inside (c ∷ []) else restart c, [])
scan_step (inside name) c =
    if continues_name c
    then (inside (c ∷ name), [])
    else if c == 125
    then (outside, reverse name ∷ [])
    else (restart c, [])

unfoldable pub scan : Scan → Text → List Text
scan s [] = []
scan s (c ∷ cs) = let next = scan_step s c in next.1 ++ scan next.0 cs

-- `re.findall(…)`
unfoldable pub findall : Text → List Text
unfolding scan
findall t = scan outside t

unfoldable mutual
  pub placeholders : Value → List Text
  placeholders (str s) = findall (codes s)
  placeholders (obj fs) = field_placeholders fs
  placeholders (arr vs) = item_placeholders vs
  placeholders _ = []

  pub field_placeholders : Fields → List Text
  field_placeholders end = []
  field_placeholders (field k v fs) = findall (codes k) ++ placeholders v ++ field_placeholders fs

  pub item_placeholders : Items → List Text
  item_placeholders nil = []
  item_placeholders (cons v vs) = placeholders v ++ item_placeholders vs

-- The same of a dictionary of arguments.
unfoldable pub argument_placeholders : Params → List Text
argument_placeholders [] = []
argument_placeholders ((k, v) ∷ ps) =
    findall (codes k) ++ placeholders v ++ argument_placeholders ps

-- The names that are used, and those that no parameter has.
abbrev pub used_names : List Text → List Text → List Text
used_names known names = keep (contains_text known) names

abbrev pub unresolved_names : List Text → List Text → List Text
unresolved_names known names = keep (λ n. not (contains_text known n)) names
