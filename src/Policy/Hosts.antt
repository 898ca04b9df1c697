-- ===== src/Policy/Hosts.antt =====
-- agent_control/policy.py: the host that `check_url` looks up is the one after the user information.
use freaky_monkey.Base.{
  ℕ, Bool, true, false, none, some, [], ◌∷◌, ◌++◌, ◌≡◌, refl, arith, any, ◌==◌, ap, ◌∙◌, subst,
}
use freaky_monkey.Base.Text.{lower}
use freaky_monkey.Json.{Value}
use freaky_monkey.Policy.Paths.{Text, Host, Policy, ok, contains_text}
use freaky_monkey.Policy.Confined.{check_url-IsFetchable}
use freaky_monkey.Policy.Urls.{
  Url, url_text, urlparse, check_url, before, after, after_last, bare_host, lower_host, hostname,
}

module _ (test : ℕ → Bool) where
  after-none : (t : Text) → any test t ≡ false → after test t ≡ none
  unfolding after
  after-none [] h = refl
  after-none (c ∷ s) h = ground (arith, after-none s)

  before-all : (t : Text) → any test t ≡ false → before test t ≡ t
  unfolding before
  before-all [] h = refl
  before-all (c ∷ s) h = ground (arith, before-all s)

  any-middle : (s t : Text) (c : ℕ) → test c ≡ true → any test (s ++ (c ∷ t)) ≡ true
  any-middle [] t c h = ground arith
  any-middle (d ∷ s) t c h = ground (arith, any-middle s t c)

  after_last-append :
      (s t : Text) (c : ℕ) → test c ≡ true → any test t ≡ false → after_last test (s ++ (c ∷ t)) ≡ t
  unfolding after_last
  after_last-append [] t c h free = ground arith
  after_last-append (d ∷ s) t c h free = ground (arith, any-middle s t c, after_last-append s t c)

abbrev pub is_at : ℕ → Bool
is_at c = c == b'@'

-- A host that is written without brackets, port, zone or user.
abbrev pub IsPlain : Text → Type 0
IsPlain t =
    (any is_at t ≡ false)
    × (any (λ c. c == b'[') t ≡ false)
    × (any (λ c. c == b':') t ≡ false)
    × (any (λ c. c == b'%') t ≡ false)

bare_host-plain : (t : Text) → IsPlain t → bare_host t ≡ t
unfolding bare_host
bare_host-plain t h =
    rw (after-none (λ c. c == b'[') t h.1, bare_host) (before-all (λ c. c == b':') t h.2)

lower_host-plain : (t : Text) → IsPlain t → lower_host t ≡ lower t
unfolding lower_host
lower_host-plain t h = rw (after-none (λ c. c == b'%') t h.3, lower_host) refl

-- Whatever stands before the last `@` of a network location, the name of a listed host included:
-- the host is the text after it, in lower case, where that text is a plain name.
pub hostname-after_user :
    (scheme user host : Text)
    → IsPlain host
    → hostname (record { scheme = scheme; netloc = user ++ (b'@' ∷ host) }) ≡ lower host
unfolding hostname
hostname-after_user scheme user host h =
    ap (λ t. lower_host (bare_host t)) (after_last-append is_at user host b'@' refl h.0)
    ∙ ap lower_host (bare_host-plain host h)
    ∙ lower_host-plain host h

module _ (h : Host) (p : Policy) where
  -- When `check_url` accepts an address `scheme://user@host/…` whose host has no brackets, port, zone
  -- or further `@`: the host is on the list, whatever the user information says, also if it is
  -- the name of a listed host.
  pub check_url-ignores_user :
      (v : Value) (t : Text) (u : Url) (user host : Text)
      → url_text v ≡ ok t
      → urlparse h t ≡ some u
      → u.netloc ≡ user ++ (b'@' ∷ host)
      → IsPlain host
      → check_url h p v ≡ ok tt
      → contains_text p.allowed_hosts (lower (lower host)) ≡ true
  check_url-ignores_user v t u user host text read at plain e =
      let (t', u', text', read', _, listed) = check_url-IsFetchable h p v e in
      let same : u' ≡ u = cc in
      let found : hostname u ≡ lower host =
        hostname_of u (user ++ (b'@' ∷ host)) at ∙ hostname-after_user u.scheme user host plain in
      subst (λ n. contains_text p.allowed_hosts (lower n) ≡ true) (ap hostname same ∙ found) listed
    where
      hostname_of :
          (w : Url) (n : Text)
          → w.netloc ≡ n
          → hostname w ≡ hostname (record { scheme = w.scheme; netloc = n })
      hostname_of w n q = ap (λ m. hostname (record { scheme = w.scheme; netloc = m })) q
