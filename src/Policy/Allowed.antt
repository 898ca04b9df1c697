-- ===== src/Policy/Allowed.antt =====
-- agent_control/policy.py: what `check` and `enforce` let through.
use freaky_monkey.Base.{
  String, Bool, true, false, ◌≡◌, ◌≢◌, ◌↔◌, refl, ap, arith, All, not, Bool-cases, inl, inr, ◌||◌,
  ◌&&◌, str_eq, eq_iff, if◌then◌else◌,
}
use freaky_monkey.Base.Dict.{contains}
use freaky_monkey.Json.{get}
use freaky_monkey.Types.Action.{Action}
use freaky_monkey.Policy.Paths.{
  allow, Outcome, ok, denied, raised, require, Host, Policy, needs_param, launch_has_target,
}
use freaky_monkey.Policy.Urls.{check_browser_url}
use freaky_monkey.Policy.Gate.{
  reading_kinds, navigating_kinds, write_keys, is_explicitly_approved, is_high_impact, has_param,
  with_param, if_kind, reads, writes, check_targets, check_apply_job, check_network, check_argv,
  check_app, check_body, Reason, high_impact, by_mode, classified, check, proceeds, enforced,
  settled, enforce,
}
use freaky_monkey.Policy.Confined.{
  >>-eq-ok, require-eq-ok, IsFetchable, IsBrowsable, check_url-IsFetchable,
  check_browser_url-IsBrowsable,
}
use freaky_monkey.Policy.Permits.{
  Readable, Writable, IsRunnable, Permitted, check_write_keys-All, with_param-Readable,
  if_kind-eq-ok, check_executable-IsRunnable, check_app-IsLaunchable, writes-IsWritable,
}

by_mode-proceeds :
    (mode : String) (r : Reason) → (enforced (by_mode mode) r ≡ proceeds) ↔ (mode ≡ "allow")
unfolding by_mode
by_mode-proceeds mode r = (
  λ e. ground (arith, eq_iff mode "deny", eq_iff mode "ask", eq_iff mode "allow"),
  λ e. rw e refl,
)

body-proceeds : (o : Outcome (Unit {0})) → (settled (classified o) ≡ proceeds) ↔ (o ≡ ok tt)
body-proceeds (ok tt) = (λ e. refl, λ e. refl)
body-proceeds (denied d) = (λ e. cc, λ e. cc)
body-proceeds raised = (λ e. cc, λ e. cc)

by_approval :
    (mode : String) (r : Reason) (o : Outcome (Unit {0})) (unapproved : Bool)
    → (settled (if unapproved then ok (by_mode mode, r) else classified o) ≡ proceeds)
      ↔ (if unapproved then mode ≡ "allow" else o ≡ ok tt)
by_approval mode r o true = by_mode-proceeds mode r
by_approval mode r o false = body-proceeds o

module _ (h : Host) (p : Policy) (a : Action) where
  -- The parts of the body, when it raises nothing.
  record Passes : Type 0 where
    targets : check_targets h p a ≡ ok tt
    job : check_apply_job h p a ≡ ok tt
    upload : if_kind a "browser_upload_file" (with_param a "file_path" (reads h p)) ≡ ok tt
    download : if_kind a "browser_download_file" (with_param a "output_path" (writes h p)) ≡ ok tt
    network : check_network h p a ≡ ok tt
    argv : check_argv p a ≡ ok tt
    launch : if_kind a "launch_app" (check_app (get "app" a.params)) ≡ ok tt

  check_body-Passes : check_body h p a ≡ ok tt → Passes
  unfolding check_body
  check_body-Passes e =
      let ((_, e1), f1) = >>-eq-ok (check_targets h p a) _ e in
      let ((_, e2), f2) = >>-eq-ok (check_apply_job h p a) _ f1 in
      let ((_, e3), f3) =
        >>-eq-ok (if_kind a "browser_upload_file" (with_param a "file_path" (reads h p))) _ f2 in
      let ((_, e4), f4) =
        >>-eq-ok (if_kind a "browser_download_file" (with_param a "output_path" (writes h p))) _
          f3 in
      let ((_, e5), f5) = >>-eq-ok (check_network h p a) _ f4 in
      let ((_, e6), f6) = >>-eq-ok (check_argv p a) _ f5 in
      record {
        targets = e1;
        job = e2;
        upload = e3;
        download = e4;
        network = e5;
        argv = e6;
        launch = f6;
      }

  targets-reading :
      check_targets h p a ≡ ok tt → contains reading_kinds a.kind ≡ true → Readable h p a "path"
  unfolding check_targets
  targets-reading e r = with_param-Readable h p a "path" (rw r at e)

  targets-writing :
      check_targets h p a ≡ ok tt
      → contains reading_kinds a.kind ≡ false
      → a.kind ≢ "open_url"
      → a.kind ≢ "launch_app"
      → All (λ k. has_param a k ≡ true → Writable h p a k) write_keys
  unfolding check_targets
  targets-writing e r u l =
      check_write_keys-All h p a write_keys
        (rw (r, differs a.kind "open_url" u, differs a.kind "launch_app" l) at e)
    where
      differs : (s t : String) → s ≢ t → str_eq s t ≡ false
      differs s t n = ground (arith, eq_iff s t)

  targets-launch : check_targets h p a ≡ ok tt → a.kind ≡ "launch_app" → has_param a "url" ≡ false
  unfolding check_targets
  targets-launch e l = neither (has_param a "open_path") (has_param a "url") (
      require-eq-ok (not (has_param a "open_path" || has_param a "url")) launch_has_target
        (rw (reader, opener, same) at e))
    where
      reader : contains reading_kinds a.kind ≡ false
      reader = ap (λ k. contains reading_kinds k) l

      opener : str_eq a.kind "open_url" ≡ false
      opener = ap (λ k. str_eq k "open_url") l

      same : str_eq a.kind "launch_app" ≡ true
      same = ap (λ k. str_eq k "launch_app") l

      neither : (b c : Bool) → not (b || c) ≡ true → c ≡ false
      neither b c e' = ground arith

  job-applying :
      check_apply_job h p a ≡ ok tt
      → a.kind ≡ "browser_apply_job"
      → IsBrowsable h p (get "job_url" a.params) × Readable h p a "resume_path"
  unfolding check_apply_job
  job-applying e k =
      let f = if_kind-eq-ok h p a "browser_apply_job" _ e k in
      let ((_, url), file) = >>-eq-ok (with_param a "job_url" (check_browser_url h)) _ f in
      let (_, browsed) = >>-eq-ok (require (has_param a "job_url") (needs_param "job_url")) _ url in
      (
        check_browser_url-IsBrowsable h p (get "job_url" a.params) browsed,
        with_param-Readable h p a "resume_path" file,
      )

  download-Writable :
      if_kind a "browser_download_file" (with_param a "output_path" (writes h p)) ≡ ok tt
      → a.kind ≡ "browser_download_file"
      → Writable h p a "output_path"
  download-Writable e k =
      let f = if_kind-eq-ok h p a "browser_download_file" _ e k in
      let (_, g) = >>-eq-ok (require (has_param a "output_path") (needs_param "output_path")) _ f in
      writes-IsWritable h p (get "output_path" a.params) g

  network-navigating :
      check_network h p a ≡ ok tt
      → contains navigating_kinds a.kind ≡ true
      → has_param a "url" ≡ true
      → IsBrowsable h p (get "url" a.params)
  unfolding check_network
  network-navigating e n u = check_browser_url-IsBrowsable h p (get "url" a.params) (rw (u, n) at e)

  network-fetching :
      check_network h p a ≡ ok tt
      → contains navigating_kinds a.kind ≡ false
      → has_param a "url" ≡ true
      → IsFetchable h p (get "url" a.params)
  unfolding check_network
  network-fetching e n u = elim (Bool-cases (str_eq a.kind "launch_app")) [
    | inl l ↦ absurd (ground (arith, u, n, l))
    | inr o ↦ check_url-IsFetchable h p (get "url" a.params) (rw (u, n, o) at e)
  ]

  argv-IsRunnable :
      check_argv p a ≡ ok tt → has_param a "argv" ≡ true → IsRunnable h p (get "argv" a.params)
  unfolding check_argv
  argv-IsRunnable e there = check_executable-IsRunnable h p (get "argv" a.params) (rw there at e)

  Passes-Permitted : Passes → Permitted h p a
  Passes-Permitted s = record {
    reading = targets-reading s.targets;
    writing = targets-writing s.targets;
    applying = job-applying s.job;
    uploading = λ k.
        with_param-Readable h p a "file_path"
          (if_kind-eq-ok h p a "browser_upload_file" _ s.upload k);
    downloading = download-Writable s.download;
    navigating = network-navigating s.network;
    fetching = network-fetching s.network;
    running = argv-IsRunnable s.argv;
    launching = λ k. (
      targets-launch s.targets k,
      check_app-IsLaunchable h p (get "app" a.params)
          (if_kind-eq-ok h p a "launch_app" _ s.launch k),
    );
  }

  classified-allow :
      (o : Outcome (Unit {0})) (r : Reason) → classified o ≡ ok (allow, r) → o ≡ ok tt
  classified-allow (ok tt) r e = refl
  classified-allow (denied d) r e = cc
  classified-allow raised r e = cc

  -- What `check` allows, unless it is a high-impact action that nobody has approved: a reading
  -- action has a path that resolves into the workspace or a readable root; every path, dest, dir and
  -- venv of any other action but open_url and launch_app resolves into the workspace, as the target
  -- of a download does; none of these paths holds a sensitive fragment; a file to upload and a resume are
  -- readable; an address is http or https with a host where a browser opens it, and https with a
  -- host from the list where the runtime fetches it; a command runs an executable from the list; and
  -- an application to launch has a name that is not a shell's, and no address.
  pub check-Permitted :
      (r : Reason)
      → (is_high_impact a && not (is_explicitly_approved h p a)) ≡ false
      → check h p a ≡ ok (allow, r)
      → Permitted h p a
  unfolding check
  check-Permitted r low e =
      Passes-Permitted (check_body-Passes (classified-allow (check_body h p a) r (rw low at e)))

  -- `enforce` lets an action proceed exactly when the body of `check` raises nothing, or the action
  -- is of high impact, nobody has approved it, and the mode is "allow". In the last case no
  -- parameter of the action is looked at, also not a path outside the workspace.
  pub enforce-proceeds_iff : (enforce h p a ≡ proceeds) ↔ (
      if is_high_impact a && not (is_explicitly_approved h p a)
      then p.confirm_mode ≡ "allow"
      else check_body h p a ≡ ok tt)
  unfolding enforce check
  enforce-proceeds_iff =
      by_approval p.confirm_mode (high_impact a.kind p.confirm_mode) (check_body h p a)
        (is_high_impact a && not (is_explicitly_approved h p a))
