-- ===== src/Runtime/Redaction.antt =====
-- agent_control/runtime_persistence.py: `SENSITIVE_KEY`, `safe_json` and `safe_goal`. A goal is its
-- code points; letters and white space are those of ASCII. All values are JSON values, so
-- `safe_json` has no other value to turn into text.
use freaky_monkey.Base.{
  ℕ, zero, suc, ◌-◌, String, Bool, Option, none, some, List, [], ◌∷◌, ◌++◌, map, ◌||◌, ◌==◌, any,
  length, if◌then◌else◌,
}
use freaky_monkey.Base.Text.{codes, is_prefix, is_infix, is_space, lower, lstrip, strip}
use freaky_monkey.Json.{
  Value, null, bool, num, str, arr, obj, Items, nil, cons, Fields, end, field, Params,
}

abbrev sensitive_words : List String
sensitive_words =
    "password" ∷ "passwd" ∷ "token" ∷ "secret" ∷ "cookie" ∷ "credential" ∷ "authorization"
    ∷ "apikey" ∷ "api_key" ∷ "api-key" ∷ "accesskey" ∷ "access_key" ∷ "access-key" ∷ "privatekey"
    ∷ "private_key" ∷ "private-key" ∷ []

-- `SENSITIVE_KEY.search(key)`
unfoldable pub is_sensitive : String → Bool
unfolding lower
is_sensitive key = let k = lower (codes key) in any (λ w. is_infix (codes w) k) sensitive_words

unfoldable mutual
  pub safe_json : Value → Value
  safe_json null = null
  safe_json (bool b) = bool b
  safe_json (num n) = num n
  safe_json (str s) = str s
  safe_json (arr xs) = arr (safe_items xs)
  safe_json (obj fs) = obj (safe_fields fs)

  pub safe_items : Items → Items
  safe_items nil = nil
  safe_items (cons x xs) = cons (safe_json x) (safe_items xs)

  pub safe_fields : Fields → Fields
  safe_fields end = end
  safe_fields (field k v fs) =
      field k (if is_sensitive k then str "[REDACTED]" else safe_json v) (safe_fields fs)

-- `safe_json` of a dictionary at the top.
unfoldable pub safe_params : Params → Params
safe_params = map (λ (k, v). (k, if is_sensitive k then str "[REDACTED]" else safe_json v))

-- The keywords of the pattern of `safe_goal`, in its order.
abbrev goal_words : List String
goal_words = "password" ∷ "passwd" ∷ "token" ∷ "secret" ∷ "api_key" ∷ "api-key" ∷ "apikey" ∷ []

abbrev drop : ℕ → List ℕ → List ℕ
drop zero s = s
drop (suc n) [] = []
drop (suc n) (c ∷ s) = drop n s

abbrev take : ℕ → List ℕ → List ℕ
take zero s = []
take (suc n) [] = []
take (suc n) (c ∷ s) = c ∷ take n s

-- The length of the first keyword that begins the text.
keyword_length : List String → List ℕ → Option ℕ
keyword_length [] s = none
keyword_length (w ∷ ws) s =
    if is_prefix (codes w) s then some (length (codes w)) else keyword_length ws s

-- `\S+`: the text after it, if there is at least one character.
skip_word : List ℕ → List ℕ
skip_word [] = []
skip_word (c ∷ s) = if is_space c then c ∷ s else skip_word s

-- `\s*[:=]\s*\S+`: the text after it.
after_assignment : List ℕ → Option (List ℕ)
unfolding skip_word
after_assignment s = elim (lstrip s) [
  | [] ↦ none
  | c ∷ t ↦
      if c == b':' || c == b'='
      then elim (lstrip t) [ [] ↦ none | d ∷ u ↦ some (skip_word (d ∷ u)) ]
      else none
]

-- The keyword's length and the text after the whole match, if the pattern matches here.
match_here : List ℕ → Option (ℕ × List ℕ)
unfolding keyword_length after_assignment
match_here s = elim (keyword_length goal_words (lower s)) [
  | none ↦ none
  | some n ↦ elim (after_assignment (drop n s)) [ none ↦ none | some rest ↦ some (n, rest) ]
]

-- `re.sub`, with the number of characters of the last match that are still to be skipped.
redact : ℕ → List ℕ → List ℕ
unfolding match_here
redact skip [] = []
redact (suc k) (c ∷ s) = redact k s
redact zero (c ∷ s) = elim (match_here (c ∷ s)) [
  | none ↦ c ∷ redact zero s
  | some (n, rest) ↦ take n (c ∷ s) ++ (codes "=[REDACTED]" ++ redact (length s - length rest) s)
]

unfoldable pub safe_goal : List ℕ → List ℕ
unfolding redact strip lower
safe_goal goal = take 1000 (redact 0 (strip goal))
