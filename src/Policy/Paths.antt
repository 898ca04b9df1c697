-- ===== src/Policy/Paths.antt =====
-- agent_control/policy.py: `Policy`, its paths and its errors. The paths are those of POSIX, and a
-- resolved path is the list of its parts, each by its code points.
use freaky_monkey.Base.{
  ℕ, String, Bool, true, false, Option, none, some, List, [], ◌∷◌, ◌++◌, not, ◌&&◌, any, ◌==◌,
  if◌then◌else◌,
}
use freaky_monkey.Base.Text.{codes, codes_eq, lower, is_infix}
use freaky_monkey.Json.{Value, Params, str}

-- The code points of a text.
abbrev pub Text : Type 0
Text = List ℕ

pub data Decision : Type 0 where
  allow confirm deny : Decision

-- What a PolicyDenied says.
pub data Denial : Type 0 where
  elevated write_outside read_outside : Denial
  sensitive : Text → Denial
  empty_command argv_not_text : Denial
  executable_not_allowed : Text → Denial
  app_missing app_blocked url_empty url_not_https : Denial
  host_not_allowed : Text → Denial
  scheme_not_allowed no_hostname : Denial
  needs_param : String → Denial
  launch_has_target launch_has_url needs_app : Denial

-- `raised` is any exception but PolicyDenied, such as the TypeError of `Path(None)`.
pub data Outcome {ℓ} (A : Type ℓ) : Type ℓ where
  ok : A → Outcome A
  denied : Denial → Outcome A
  raised : Outcome A

infixl 5 ◌>>=◌ ◌>>◌
abbrev pub ◌>>=◌ {ℓ κ} : {A : Type ℓ} {B : Type κ} → Outcome A → (A → Outcome B) → Outcome B
ok a >>= f = f a
denied e >>= f = denied e
raised >>= f = raised

abbrev pub ◌>>◌ {ℓ κ} : {A : Type ℓ} {B : Type κ} → Outcome A → Outcome B → Outcome B
m >> k = m >>= λ _. k

-- `if not test: raise PolicyDenied(e)`
abbrev pub require : Bool → Denial → Outcome (Unit {0})
require true e = ok tt
require false e = denied e

abbrev pub Parts : Type 0
Parts = List Text

pub record PurePath : Type 0 where
  pub absolute : Bool
  pub parts : Parts

-- What the operating system answers. `real` is `Path.resolve` on the file system: it follows links
-- and takes `..` away, and `none` is an exception. `digest` is the SHA-256 of a kind and its
-- parameters in canonical JSON; `bracketed` is the test that the installed urllib makes of a network
-- location with brackets.
pub record Host : Type 0 where
  pub real : PurePath → Option Parts
  pub is_file : Parts → Bool
  pub bracketed : Text → Bool
  pub digest : String → Params → String
  pub elevated : Bool

pub record Policy : Type 0 where
  pub workspace : Parts
  pub allowed_executables : List Text
  pub allowed_hosts : List Text
  pub confirm_mode : String
  pub readable_roots : List Parts
  pub max_download_bytes : ℕ
  pub refuse_if_elevated : Bool
  pub approved_action_fingerprints : List String

abbrev pub contains_text : List Text → Text → Bool
contains_text ts t = any (λ u. codes_eq u t) ts

-- `text.split(separator)`
unfoldable pub split_on : ℕ → Text → List Text
split_on sep [] = [] ∷ []
split_on sep (c ∷ s) =
    let rest = split_on sep s in
    if c == sep then [] ∷ rest else elim rest [ [] ↦ (c ∷ []) ∷ [] | p ∷ ps ↦ (c ∷ p) ∷ ps ]

abbrev is_part : Text → Bool
is_part [] = false
is_part (c ∷ []) = not (c == b'.')
is_part _ = true

abbrev real_parts : List Text → Parts
real_parts [] = []
real_parts (p ∷ ps) = let rest = real_parts ps in if is_part p then p ∷ rest else rest

abbrev starts_with_slash : Text → Bool
starts_with_slash [] = false
starts_with_slash (c ∷ s) = c == b'/'

-- `Path(text)`
unfoldable pub pure_path : Text → PurePath
unfolding split_on
pure_path t = record { absolute = starts_with_slash t; parts = real_parts (split_on b'/' t) }

-- `root / path`
abbrev pub join : Parts → PurePath → PurePath
join root p = if p.absolute then p else record { absolute = true; parts = root ++ p.parts }

-- `path.resolve()`
abbrev pub resolved : Host → PurePath → Outcome Parts
resolved h p = elim (h.real p) [ none ↦ raised | some q ↦ ok q ]

-- The first lines of both resolutions, for a value of any type.
unfoldable pub candidate : Host → Policy → Value → Outcome Parts
unfolding pure_path
candidate h p (str s) = resolved h (join p.workspace (pure_path (codes s)))
candidate h p _ = raised

-- `path.is_relative_to(root)`
unfoldable pub is_relative_to : Parts → Parts → Bool
is_relative_to q [] = true
is_relative_to [] (r ∷ rs) = false
is_relative_to (q ∷ qs) (r ∷ rs) = codes_eq r q && is_relative_to qs rs

abbrev slashed : Parts → Text
slashed [] = []
slashed (p ∷ ps) = b'/' ∷ (p ++ slashed ps)

-- `path.as_posix()` of an absolute path
unfoldable pub as_posix : Parts → Text
as_posix [] = b'/' ∷ []
as_posix (p ∷ ps) = slashed (p ∷ ps)

abbrev pub sensitive_fragments : List Text
sensitive_fragments =
    codes ".ssh"
    ∷ codes ".aws"
    ∷ codes ".azure"
    ∷ codes ".gnupg"
    ∷ codes ".kube"
    ∷ codes ".docker"
    ∷ codes "credentials"
    ∷ codes "id_rsa"
    ∷ codes "id_ed25519"
    ∷ codes ".netrc"
    ∷ codes ".git-credentials"
    ∷ codes ".env"
    ∷ codes "secret"
    ∷ codes ".pem"
    ∷ []

unfoldable pub refuse_fragments : Text → List Text → Outcome (Unit {0})
refuse_fragments t [] = ok tt
refuse_fragments t (f ∷ fs) =
    let rest = refuse_fragments t fs in if is_infix f t then denied (sensitive f) else rest

-- `_refuse_sensitive`
unfoldable pub refuse_sensitive : Parts → Outcome (Unit {0})
unfolding refuse_fragments as_posix lower
refuse_sensitive q = refuse_fragments (lower (as_posix q)) sensitive_fragments

unfoldable pub resolve_write_path : Host → Policy → Value → Outcome Parts
resolve_write_path h p raw = do
  q ← candidate h p raw
  refuse_sensitive q
  require (is_relative_to q p.workspace) write_outside
  ok q

unfoldable pub resolve_read_path : Host → Policy → Value → Outcome Parts
resolve_read_path h p raw = do
  q ← candidate h p raw
  refuse_sensitive q
  require (any (is_relative_to q) (p.workspace ∷ p.readable_roots)) read_outside
  ok q

resolve_roots : Host → List Text → Outcome (List Parts)
unfolding pure_path
resolve_roots h [] = ok []
resolve_roots h (r ∷ rs) = do q ← resolved h (pure_path r); qs ← resolve_roots h rs; ok (q ∷ qs)

-- `__post_init__`: the workspace and the roots are given as texts, the other fields as they are.
unfoldable pub new_policy : Host → Text → List Text → Policy → Outcome Policy
unfolding resolve_roots pure_path
new_policy h workspace roots p = do
  w ← resolved h (pure_path workspace)
  rs ← resolve_roots h roots
  require (not (p.refuse_if_elevated && h.elevated)) elevated
  ok (record p { workspace = w; readable_roots = rs })
