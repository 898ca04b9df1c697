-- ===== src/Policy/Permits.antt =====
-- agent_control/policy.py: what an action that `check` allows may touch.
use freaky_monkey.Base.{
  String, Bool, true, false, List, [], ◌∷◌, ◌≡◌, ◌≢◌, refl, arith, All, not, Bool-cases, inl, inr,
  str_eq, eq_iff,
}
use freaky_monkey.Base.Dict.{contains}
use freaky_monkey.Base.Text.{codes}
use freaky_monkey.Json.{Value, null, str, get}
use freaky_monkey.Types.Action.{Action}
use freaky_monkey.Policy.Paths.{
  Parts, Outcome, ok, denied, raised, ◌>>=◌, require, Host, Policy, contains_text,
  resolve_write_path, resolve_read_path, needs_param, app_blocked,
}
use freaky_monkey.Policy.Commands.{
  blocked_app_executables, executable_name, check_executable, listed, text_of,
}
use freaky_monkey.Policy.Gate.{
  reading_kinds, navigating_kinds, write_keys, has_param, with_param, if_param, if_kind, reads,
  writes, passed, check_write_keys, app_name, check_app,
}
use freaky_monkey.Policy.Confined.{
  >>=-eq-ok, >>-eq-ok, require-eq-ok, IsWritable, IsReadable, resolve_write_path-IsWritable,
  resolve_read_path-IsReadable, IsFetchable, IsBrowsable,
}

passed-eq-ok : {A : Type 0} (m : Outcome A) {u : Unit} → passed m ≡ ok u → (a : A) × (m ≡ ok a)
passed-eq-ok (ok a) h = (a, refl)
passed-eq-ok (denied e) h = cc
passed-eq-ok raised h = cc

not-true : (b : Bool) → not b ≡ true → b ≡ false
not-true false e = refl
not-true true e = cc

module _ (h : Host) (p : Policy) where
  reads-IsReadable : (v : Value) {u : Unit} → reads h p v ≡ ok u → (q : Parts) × IsReadable h p v q
  reads-IsReadable v e =
      let (q, found) = passed-eq-ok (resolve_read_path h p v) e in
      (q, resolve_read_path-IsReadable h p v q found)

  pub writes-IsWritable :
      (v : Value) {u : Unit} → writes h p v ≡ ok u → (q : Parts) × IsWritable h p v q
  writes-IsWritable v e =
      let (q, found) = passed-eq-ok (resolve_write_path h p v) e in
      (q, resolve_write_path-IsWritable h p v q found)

  -- A parameter that is there, and that names a readable or a writable path.
  abbrev pub Readable : Action → String → Type 0
  Readable a k = (has_param a k ≡ true) × ((q : Parts) × IsReadable h p (get k a.params) q)

  abbrev pub Writable : Action → String → Type 0
  Writable a k = (q : Parts) × IsWritable h p (get k a.params) q

  -- The command has a first word, and its name is on the list.
  abbrev pub IsRunnable : Value → Type 0
  IsRunnable v =
      (w : Value) × (ws : List Value) × (listed v ≡ ok (w ∷ ws))
      × (contains_text p.allowed_executables (executable_name (text_of w)) ≡ true)

  abbrev pub IsLaunchable : Value → Type 0
  IsLaunchable v =
      (s : String) × (v ≡ str s)
      × (s ≢ "")
      × (contains_text blocked_app_executables (app_name (codes s)) ≡ false)

  -- What an action may touch, for each kind of action and each parameter.
  pub record Permitted (a : Action) : Type 0 where
    pub reading : contains reading_kinds a.kind ≡ true → Readable a "path"
    pub writing :
        contains reading_kinds a.kind ≡ false
        → a.kind ≢ "open_url"
        → a.kind ≢ "launch_app"
        → All (λ k. has_param a k ≡ true → Writable a k) write_keys
    pub applying :
        a.kind ≡ "browser_apply_job"
        → IsBrowsable h p (get "job_url" a.params) × Readable a "resume_path"
    pub uploading : a.kind ≡ "browser_upload_file" → Readable a "file_path"
    pub downloading : a.kind ≡ "browser_download_file" → Writable a "output_path"
    pub navigating :
        contains navigating_kinds a.kind ≡ true
        → has_param a "url" ≡ true
        → IsBrowsable h p (get "url" a.params)
    pub fetching :
        contains navigating_kinds a.kind ≡ false
        → has_param a "url" ≡ true
        → IsFetchable h p (get "url" a.params)
    pub running : has_param a "argv" ≡ true → IsRunnable (get "argv" a.params)
    pub launching :
        a.kind ≡ "launch_app" → (has_param a "url" ≡ false) × IsLaunchable (get "app" a.params)

  pub check_write_keys-All :
      (a : Action) (ks : List String) {u : Unit}
      → check_write_keys h p a ks ≡ ok u
      → All (λ k. has_param a k ≡ true → Writable a k) ks
  unfolding check_write_keys
  check_write_keys-All a [] e = tt
  check_write_keys-All a (k ∷ ks) e =
      let ((u, here), rest) = >>-eq-ok (if_param a k (writes h p)) (check_write_keys h p a ks) e in
      (
        λ there. writes-IsWritable (get k a.params) (ground (arith, there, here)),
        check_write_keys-All a ks rest,
      )

  pub with_param-Readable :
      (a : Action) (k : String) {u : Unit} → with_param a k (reads h p) ≡ ok u → Readable a k
  with_param-Readable a k e =
      let ((_, there), rest) = >>-eq-ok (require (has_param a k) (needs_param k)) _ e in
      (require-eq-ok (has_param a k) (needs_param k) there, reads-IsReadable (get k a.params) rest)

  pub if_kind-eq-ok :
      (a : Action) (kind : String) (m : Outcome (Unit {0})) {u : Unit}
      → if_kind a kind m ≡ ok u
      → a.kind ≡ kind
      → m ≡ ok u
  if_kind-eq-ok a kind m e same = ground (arith, eq_iff a.kind kind)

  pub check_executable-IsRunnable :
      (v : Value) {u : Unit} → (listed v >>= check_executable p) ≡ ok u → IsRunnable v
  unfolding check_executable
  check_executable-IsRunnable v e =
      let (words, split, e1) = >>=-eq-ok (listed v) (check_executable p) e in
      by_words words split e1
    where
      by_words :
          (words : List Value)
          → listed v ≡ ok words
          → check_executable p words ≡ ok tt
          → IsRunnable v
      by_words [] split e1 = cc
      by_words (w ∷ ws) split e1 =
          let ((_, texts), e2) = >>-eq-ok _ _ e1 in (w, ws, split, require-eq-ok _ _ e2)

  pub check_app-IsLaunchable : (v : Value) {u : Unit} → check_app v ≡ ok u → IsLaunchable v
  unfolding check_app
  check_app-IsLaunchable (str s) e = elim (Bool-cases (str_eq s "")) [
    | inl empty ↦ absurd (ground (arith, empty))
    | inr named ↦
        let free : not (contains_text blocked_app_executables (app_name (codes s))) ≡ true =
          require-eq-ok (not (contains_text blocked_app_executables (app_name (codes s))))
            app_blocked (rw named at e) in
        (
          s,
          refl,
          λ q. ground (arith, eq_iff s ""),
          not-true (contains_text blocked_app_executables (app_name (codes s))) free,
        )
  ]
  check_app-IsLaunchable null e = cc
  check_app-IsLaunchable _ e = cc
