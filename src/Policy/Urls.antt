-- ===== src/Policy/Urls.antt =====
-- agent_control/policy.py: `check_url` and `check_browser_url`, with what they use of
-- urllib.parse.urlparse.
use freaky_monkey.Base.{
  ℕ, Bool, true, false, Option, none, some, List, [], ◌∷◌, not, ◌&&◌, ◌||◌, any, all, keep, ◌==◌,
  ◌++◌, leb, if◌then◌else◌,
}
use freaky_monkey.Base.Text.{codes, lower, strip}
use freaky_monkey.Json.{Value, str}
use freaky_monkey.Policy.Paths.{
  Text, Outcome, ok, denied, raised, ◌>>=◌, ◌>>◌, require, Host, Policy, contains_text, url_empty,
  url_not_https, host_not_allowed, scheme_not_allowed, no_hostname,
}

-- The text before the first code point that passes the test: all of it if there is none.
unfoldable pub before : (ℕ → Bool) → Text → Text
before test [] = []
before test (c ∷ s) = let rest = before test s in if test c then [] else c ∷ rest

-- The text after the first code point that passes the test.
unfoldable pub after : (ℕ → Bool) → Text → Option Text
after test [] = none
after test (c ∷ s) = let rest = after test s in if test c then some s else rest

-- `text.rpartition(...)[2]`
unfoldable pub after_last : (ℕ → Bool) → Text → Text
unfolding after
after_last test [] = []
after_last test (c ∷ s) =
    let rest = after_last test s in if any test s then rest else if test c then s else c ∷ s

abbrev is_alpha : ℕ → Bool
is_alpha c = leb b'a' c && leb c b'z' || leb b'A' c && leb c b'Z'

abbrev is_digit : ℕ → Bool
is_digit c = leb b'0' c && leb c b'9'

abbrev is_scheme_char : ℕ → Bool
is_scheme_char c = is_alpha c || is_digit c || c == b'+' || c == b'-' || c == b'.'

abbrev starts_alpha : Text → Bool
starts_alpha [] = false
starts_alpha (c ∷ s) = is_alpha c

-- White space and control characters at the start, then tabs and line ends anywhere.
unfoldable pub lstrip_controls : Text → Text
lstrip_controls [] = []
lstrip_controls (c ∷ s) = let rest = lstrip_controls s in if leb c 32 then rest else c ∷ s

abbrev cleaned : Text → Text
cleaned t = keep (λ c. not (c == 9 || c == 10 || c == 13)) (lstrip_controls t)

pub record Url : Type 0 where
  pub scheme : Text
  pub netloc : Text

abbrev has : ℕ → Text → Bool
has c t = any (λ d. d == c) t

abbrev ends_netloc : ℕ → Bool
ends_netloc c = c == b'/' || c == b'?' || c == b'#'

-- `// netloc / …`
abbrev netloc_of : Text → Text
netloc_of [] = []
netloc_of (c ∷ []) = []
netloc_of (c ∷ d ∷ s) = if c == b'/' && d == b'/' then before ends_netloc s else []

-- The scheme, in lower case, and what follows it.
unfoldable pub split_scheme : Text → Text × Text
unfolding before after lower
split_scheme t = elim (after (λ c. c == b':') t) [
  | none ↦ ([], t)
  | some rest ↦
      let s = before (λ c. c == b':') t in
      if starts_alpha t && all is_scheme_char s then (lower s, rest) else ([], t)
]

-- `none` is the ValueError for brackets that are not those of an address.
unfoldable pub urlparse : Host → Text → Option Url
unfolding split_scheme lstrip_controls before
urlparse h t =
    let (s, rest) = split_scheme (cleaned t) in
    let n = netloc_of rest in
    if has b'[' n && not (has b']' n)
      || has b']' n && not (has b'[' n)
      || has b'[' n && not (h.bracketed n)
    then none
    else some (record { scheme = s; netloc = n })

abbrev without_zone : Text → Text
without_zone t = before (λ c. c == b'%') t

-- The host of a location without user information: what stands in brackets, or before the port.
unfoldable pub bare_host : Text → Text
unfolding before after
bare_host info = elim (after (λ c. c == b'[') info) as (λ _. Text) [
  | some inner ↦ before (λ c. c == b']') inner
  | none ↦ before (λ c. c == b':') info
]

-- The host in lower case; a zone after `%` keeps its case.
unfoldable pub lower_host : Text → Text
unfolding before after lower
lower_host host = elim (after (λ c. c == b'%') host) as (λ _. Text) [
  | none ↦ lower host
  | some zone ↦ lower (without_zone host) ++ (b'%' ∷ zone)
]

-- `parsed.hostname`, where `None` is the empty text.
unfoldable pub hostname : Url → Text
unfolding after_last bare_host lower_host
hostname u = lower_host (bare_host (after_last (λ c. c == b'@') u.netloc))

abbrev pub is_empty : Text → Bool
is_empty [] = true
is_empty (c ∷ s) = false

-- `not isinstance(url, str) or not url.strip()`
abbrev pub url_text : Value → Outcome Text
url_text (str s) = if is_empty (strip (codes s)) then denied url_empty else ok (codes s)
url_text _ = denied url_empty

abbrev pub parsed : Host → Text → Outcome Url
parsed h t = elim (urlparse h t) [ none ↦ raised | some u ↦ ok u ]

abbrev pub same : Text → Text → Bool
same a b = contains_text (a ∷ []) b

unfoldable pub check_url : Host → Policy → Value → Outcome (Unit {0})
unfolding lower
check_url h p url = do
  t ← url_text url
  u ← parsed h t
  require (same (codes "https") (lower u.scheme)) url_not_https
  require (contains_text p.allowed_hosts (lower (hostname u)))
      (host_not_allowed (lower (hostname u)))

abbrev pub allowed_browser_schemes : List Text
allowed_browser_schemes = codes "http" ∷ codes "https" ∷ []

unfoldable pub check_browser_url : Host → Value → Outcome (Unit {0})
unfolding lower
check_browser_url h url = do
  t ← url_text url
  u ← parsed h t
  require (contains_text allowed_browser_schemes (lower u.scheme)) scheme_not_allowed
  require (not (is_empty (hostname u))) no_hostname
