-- ===== src/Policy/Confined.antt =====
-- agent_control/policy.py: what a resolved path or a checked address satisfies.
use freaky_monkey.Base.{
  Bool, true, false, some, List, [], ◌∷◌, ◌≡◌, ◌≢◌, refl, arith, subst, Option-cases, any, All, not,
  Bool-cases, inl, inr,
}
use freaky_monkey.Base.Text.{codes, codes_eq, lower, is_infix}
use freaky_monkey.Json.{Value}
use freaky_monkey.Policy.Paths.{
  Text, Parts, Denial, Outcome, ok, denied, raised, ◌>>=◌, ◌>>◌, require, Host, Policy,
  contains_text, candidate, is_relative_to, as_posix, sensitive_fragments, refuse_fragments,
  refuse_sensitive, resolve_write_path, resolve_read_path, write_outside, read_outside,
  url_not_https, host_not_allowed, scheme_not_allowed, no_hostname,
}
use freaky_monkey.Policy.Urls.{
  Url, urlparse, hostname, url_text, parsed, check_url, check_browser_url, allowed_browser_schemes,
  same, is_empty,
}

-- A chain that ends has a first part that ends.
pub >>=-eq-ok {ℓ κ} :
    {A : Type ℓ} {B : Type κ} (first : Outcome A) (after : A → Outcome B) {last : B}
    → (first >>= after) ≡ ok last
    → (middle : A) × (first ≡ ok middle) × (after middle ≡ ok last)
>>=-eq-ok (denied why) after h = cc
>>=-eq-ok raised after h = cc
>>=-eq-ok (ok middle) after h = (middle, refl, h)

pub >>-eq-ok {ℓ κ} :
    {A : Type ℓ} {B : Type κ} (m : Outcome A) (k : Outcome B) {b : B}
    → (m >> k) ≡ ok b
    → ((a : A) × (m ≡ ok a)) × (k ≡ ok b)
>>-eq-ok (ok a) k h = ((a, refl), h)
>>-eq-ok (denied e) k h = cc
>>-eq-ok raised k h = cc

pub require-eq-ok : (b : Bool) (e : Denial) {u : Unit} → require b e ≡ ok u → b ≡ true
require-eq-ok true e h = refl
require-eq-ok false e h = cc

-- No sensitive fragment stands in the path, in either case of letters.
abbrev pub Harmless : Parts → Type 0
Harmless q = All (λ f. is_infix f (lower (as_posix q)) ≡ false) sensitive_fragments

-- The value resolves to a path in the workspace that is not sensitive.
abbrev pub IsWritable : Host → Policy → Value → Parts → Type 0
IsWritable h p v q = (candidate h p v ≡ ok q) × Harmless q × (is_relative_to q p.workspace ≡ true)

-- The value resolves to a path in the workspace or in a readable root that is not sensitive.
abbrev pub IsReadable : Host → Policy → Value → Parts → Type 0
IsReadable h p v q =
    (candidate h p v ≡ ok q)
    × Harmless q
    × (any (is_relative_to q) (p.workspace ∷ p.readable_roots) ≡ true)

refuse_fragments-All :
    (t : Text) (fs : List Text) {u : Unit}
    → refuse_fragments t fs ≡ ok u
    → All (λ f. is_infix f t ≡ false) fs
unfolding refuse_fragments
refuse_fragments-All t [] h = tt
refuse_fragments-All t (f ∷ fs) h = elim (Bool-cases (is_infix f t)) [
  | inl bad ↦ absurd (ground (arith, bad))
  | inr fine ↦ (fine, refuse_fragments-All t fs (ground (arith, fine)))
]

refuse_sensitive-Harmless : (q : Parts) {u : Unit} → refuse_sensitive q ≡ ok u → Harmless q
unfolding refuse_sensitive
refuse_sensitive-Harmless q h = refuse_fragments-All (lower (as_posix q)) sensitive_fragments h

ok-injective {ℓ} : {A : Type ℓ} {a b : A} → ok a ≡ ok b → a ≡ b
ok-injective e = cc

-- The common form of both resolutions.
resolution_lem :
    (m : Outcome Parts) (test : Parts → Bool) (why : Denial) (q : Parts)
    → (m >>= λ r. refuse_sensitive r >> (require (test r) why >> ok r)) ≡ ok q
    → (m ≡ ok q) × Harmless q × (test q ≡ true)
resolution_lem m test why q e =
    let (r, found, e1) = >>=-eq-ok m _ e in
    let ((_, clean), e2) = >>-eq-ok (refuse_sensitive r) _ e1 in
    let ((_, inside), e3) = >>-eq-ok (require (test r) why) _ e2 in
    subst (λ x. (m ≡ ok x) × Harmless x × (test x ≡ true)) (ok-injective e3)
      (found, refuse_sensitive-Harmless r clean, require-eq-ok (test r) why inside)

module _ (h : Host) (p : Policy) where
  pub resolve_write_path-IsWritable :
      (v : Value) (q : Parts) → resolve_write_path h p v ≡ ok q → IsWritable h p v q
  unfolding resolve_write_path
  resolve_write_path-IsWritable v q e =
      resolution_lem (candidate h p v) (λ r. is_relative_to r p.workspace) write_outside q e

  pub resolve_read_path-IsReadable :
      (v : Value) (q : Parts) → resolve_read_path h p v ≡ ok q → IsReadable h p v q
  unfolding resolve_read_path
  resolve_read_path-IsReadable v q e =
      resolution_lem (candidate h p v)
        (λ r. any (is_relative_to r) (p.workspace ∷ p.readable_roots)) read_outside q e

  -- What may be written may be read, and it is the same path.
  pub resolve_write_path-read :
      (v : Value) (q : Parts) → resolve_write_path h p v ≡ ok q → resolve_read_path h p v ≡ ok q
  unfolding resolve_write_path resolve_read_path
  resolve_write_path-read v q e =
      let (r, found, e1) = >>=-eq-ok (candidate h p v) _ e in
      let ((u, clean), e2) = >>-eq-ok (refuse_sensitive r) _ e1 in
      let ((_, inside), e3) =
        >>-eq-ok (require (is_relative_to r p.workspace) write_outside) _ e2 in
      rw (found, clean, require-eq-ok _ write_outside inside) e3

  -- The value is the text of an https address whose host is on the list.
  abbrev pub IsFetchable : Value → Type 0
  IsFetchable v =
      (t : Text) × (u : Url) × (url_text v ≡ ok t)
      × (urlparse h t ≡ some u)
      × (codes_eq (codes "https") (lower u.scheme) ≡ true)
      × (contains_text p.allowed_hosts (lower (hostname u)) ≡ true)

  -- The value is the text of an http or https address that names a host.
  abbrev pub IsBrowsable : Value → Type 0
  IsBrowsable v =
      (t : Text) × (u : Url) × (url_text v ≡ ok t)
      × (urlparse h t ≡ some u)
      × (contains_text allowed_browser_schemes (lower u.scheme) ≡ true)
      × (hostname u ≢ [])

  parsed-eq-ok : (t : Text) (u : Url) → parsed h t ≡ ok u → urlparse h t ≡ some u
  parsed-eq-ok t u e = elim (Option-cases (urlparse h t)) [
    | inl bad ↦ absurd (ground (arith, bad))
    | inr (u', good) ↦ ground (arith, good)
  ]

  pub check_url-IsFetchable : (v : Value) {x : Unit} → check_url h p v ≡ ok x → IsFetchable v
  unfolding check_url
  check_url-IsFetchable v e =
      let (t, text, e1) = >>=-eq-ok (url_text v) _ e in
      let (u, read, e2) = >>=-eq-ok (parsed h t) _ e1 in
      let ((_, scheme), e3) =
        >>-eq-ok (require (same (codes "https") (lower u.scheme)) url_not_https) _ e2 in
      (
        t,
        u,
        text,
        parsed-eq-ok t u read,
        ground (arith, require-eq-ok _ url_not_https scheme),
        require-eq-ok (contains_text p.allowed_hosts (lower (hostname u)))
            (host_not_allowed (lower (hostname u))) e3,
      )

  pub check_browser_url-IsBrowsable :
      (v : Value) {x : Unit} → check_browser_url h v ≡ ok x → IsBrowsable v
  unfolding check_browser_url
  check_browser_url-IsBrowsable v e =
      let (t, text, e1) = >>=-eq-ok (url_text v) _ e in
      let (u, read, e2) = >>=-eq-ok (parsed h t) _ e1 in
      let ((_, scheme), e3) =
        >>-eq-ok
          (require (contains_text allowed_browser_schemes (lower u.scheme)) scheme_not_allowed) _
          e2 in
      (
        t,
        u,
        text,
        parsed-eq-ok t u read,
        require-eq-ok (contains_text allowed_browser_schemes (lower u.scheme)) scheme_not_allowed
            scheme,
        nonempty (hostname u) (require-eq-ok (not (is_empty (hostname u))) no_hostname e3),
      )
    where
      nonempty : (t : Text) → not (is_empty t) ≡ true → t ≢ []
      nonempty t some_host e' = ground arith
