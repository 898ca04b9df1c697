-- ===== src/Policy/Commands.antt =====
-- agent_control/policy.py: `check_executable` and `check_app_executable`.
use freaky_monkey.Base.{
  String, Bool, true, false, Option, none, some, List, [], ◌∷◌, not, ◌==◌, all, reverse,
  if◌then◌else◌,
}
use freaky_monkey.Base.Text.{codes, lower}
use freaky_monkey.Json.{Value, Items, Fields, str, obj, arr, nil, cons, end, field}
use freaky_monkey.Policy.Paths.{
  Text, Parts, Outcome, ok, denied, raised, ◌>>=◌, ◌>>◌, require, resolved, Host, Policy,
  contains_text, pure_path, empty_command, argv_not_text, executable_not_allowed, app_missing,
  app_blocked,
}

abbrev pub blocked_app_executables : List Text
blocked_app_executables =
    codes "cmd"
    ∷ codes "command"
    ∷ codes "powershell"
    ∷ codes "pwsh"
    ∷ codes "bash"
    ∷ codes "sh"
    ∷ codes "zsh"
    ∷ codes "fish"
    ∷ codes "wsl"
    ∷ []

-- `path.name`
abbrev last_part : Parts → Text
last_part [] = []
last_part (p ∷ []) = p
last_part (p ∷ q ∷ ps) = last_part (q ∷ ps)

unfoldable pub strip_prefix : Text → Text → Option Text
strip_prefix [] t = some t
strip_prefix (c ∷ s) [] = none
strip_prefix (c ∷ s) (d ∷ t) = let rest = strip_prefix s t in if c == d then rest else none

-- The text before a suffix, if the text ends so.
unfoldable pub strip_suffix : Text → Text → Option Text
unfolding strip_prefix
strip_suffix s t = elim (strip_prefix (reverse s) (reverse t)) [
  | none ↦ none
  | some r ↦ some (reverse r)
]

-- The first of the suffixes that fits is taken away.
unfoldable pub drop_suffix : List Text → Text → Text
unfolding strip_suffix
drop_suffix [] t = t
drop_suffix (s ∷ ss) t =
    let rest = drop_suffix ss t in
    elim (strip_suffix s t) as (λ _. Text) [ none ↦ rest | some r ↦ r ]

abbrev executable_suffixes : List Text
executable_suffixes = codes ".exe" ∷ codes ".cmd" ∷ codes ".bat" ∷ codes ".com" ∷ []

unfoldable pub executable_name : Text → Text
unfolding drop_suffix pure_path lower
executable_name argv0 = drop_suffix executable_suffixes (lower (last_part (pure_path argv0).parts))

abbrev is_text : Value → Bool
is_text (str s) = true
is_text _ = false

abbrev pub text_of : Value → Text
text_of (str s) = codes s
text_of _ = []

unfoldable pub check_executable : Policy → List Value → Outcome (Unit {0})
check_executable p [] = denied empty_command
check_executable p (v ∷ vs) = do
  require (all is_text (v ∷ vs)) argv_not_text
  require (contains_text p.allowed_executables (executable_name (text_of v)))
      (executable_not_allowed (executable_name (text_of v)))

-- What follows the first dot.
before_dot : Text → Option Text
before_dot [] = none
before_dot (c ∷ s) = let rest = before_dot s in if c == b'.' then some s else rest

-- `path.stem`: the name up to its last dot, unless the dot comes first or last.
unfoldable pub stem : Text → Text
unfolding before_dot
stem name = elim (reverse name) as (λ _. Text) [
  | [] ↦ name
  | c ∷ s ↦ if c == b'.' then name else elim (before_dot s) as (λ _. Text) [
    | none ↦ name
    | some [] ↦ name
    | some (d ∷ r) ↦ reverse (d ∷ r)
  ]
]

unfoldable pub check_app_executable : Host → Text → Outcome Parts
unfolding pure_path lower
check_app_executable h executable = do
  q ← resolved h (pure_path executable)
  require (h.is_file q) app_missing
  require (not (contains_text blocked_app_executables (lower (stem (last_part q))))) app_blocked
  ok q

items_list : Items → List Value
items_list nil = []
items_list (cons v vs) = v ∷ items_list vs

field_names : Fields → List Value
field_names end = []
field_names (field k v fs) = str k ∷ field_names fs

characters : String → List Value
characters String.[] = []
characters (String.◌∷◌ c s) = str (String.◌∷◌ c String.[]) ∷ characters s

-- `list(value)`
unfoldable pub listed : Value → Outcome (List Value)
unfolding items_list field_names characters
listed (arr vs) = ok (items_list vs)
listed (obj fs) = ok (field_names fs)
listed (str s) = ok (characters s)
listed _ = raised
