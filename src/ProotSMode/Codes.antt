-- ===== src/ProotSMode/Codes.antt =====
-- tools/verify_proot_s_mode.py: the exit codes, and what the code 0 stands for.
use etroute.Prelude.{
  ℕ, ◌≡◌, refl, ◌≤◌, Bool, true, false, not, ◌&&◌, Option, none, some, List, [], ◌∷◌, ◌++◌, ok, err,
  Returns, Returns-bind, Returns-raise_if, Returns-ok, Returns-any, Returns-err, ◌∙◌, Raises,
  Raises-ok, Raises-err, Raises-bind, Raises-raise_if, arith, if◌then◌else◌, if-cases, ap,
  not-false,
}
use etroute.Python.Text.{Text, codes, strip, lower, text_eq→eq}
use etroute.Python.Value.{truthy}
use etroute.ProotSMode.PathSets.Laws.{path_set}
use etroute.ProotSMode.Compare.{IsObserved, audit-path_set}
use etroute.ProotSMode.AuditHost.{
  Host, Arguments, AuditReport, Checked, Failure, refused, os_error, Ran, completed, timed_out,
  not_started, is_empty, is_zero_code, joined, s_mode_relative_paths,
}
use etroute.ProotSMode.Binary.{
  of_found, of_run, compiled, if_captured, resolve_binary, run_capture, attempt, get_version_output,
  check_sha256, check_version,
}
use etroute.ProotSMode.{
  existing_paths, hosts_of, expected_existing_paths, in_rootfs, guest_candidates, first_candidate,
  choose_guest_command, or_os_error, probe, audit, code_of, without_dashes, main,
}

-- The exit code of a refusal is 2, 3, 4 or 5.
abbrev IsRefusal : Failure → Type 0
IsRefusal (refused code reason) = (2 ≤ code) × (code ≤ 5)
IsRefusal os_error = Unit

abbrev Refuses : {A : Type 0} → Checked A → Type 0
Refuses = Raises IsRefusal

module _ (h : Host) where
  resolve_binary-Refuses : (binary : Text) → Refuses (resolve_binary h binary)
  unfolding resolve_binary
  resolve_binary-Refuses binary = of_found-Refuses (h.which binary)
    where
      of_found-Refuses : (o : Option Text) → Refuses (of_found h o)
      of_found-Refuses none = Raises-err _ (omega arith)
      of_found-Refuses (some found) = Raises-raise_if _ _ _ (omega arith) (Raises-ok _)

  run_capture-Refuses : (argv : List Text) → Refuses (run_capture h argv)
  unfolding run_capture
  run_capture-Refuses argv = of_run-Refuses (h.run argv)
    where
      of_run-Refuses : (r : Ran) → Refuses (of_run h argv r)
      of_run-Refuses timed_out = Raises-err _ (omega arith)
      of_run-Refuses not_started = Raises-err _ (omega arith)
      of_run-Refuses (completed code out errors) = Raises-ok _

  attempt-Refuses :
      (captured : List Text) (argvs : List (List Text)) → Refuses (attempt h captured argvs)
  unfolding attempt
  attempt-Refuses captured [] =
      if-cases Refuses (is_empty captured) (λ _. Raises-err _ (omega arith)) λ _. Raises-ok _
  attempt-Refuses captured (argv ∷ rest) =
      Raises-bind _ (run_capture-Refuses argv) λ (code, out, errors).
        if-cases Refuses (is_zero_code code && not (is_empty (strip (joined out errors))))
          (λ _. Raises-ok _)
          λ _. attempt-Refuses (captured ++ if_captured h argv (strip (joined out errors))) rest

  get_version_output-Refuses : (binary : Text) → Refuses (get_version_output h binary)
  unfolding get_version_output
  get_version_output-Refuses binary = attempt-Refuses [] (
      (binary ∷ codes "--version" ∷ [])
      ∷ (binary ∷ codes "-V" ∷ [])
      ∷ (binary ∷ codes "--help" ∷ [])
      ∷ [])

  first_candidate-Refuses :
      (rootfs : Text) (candidates : List Text) → Refuses (first_candidate h rootfs candidates)
  unfolding first_candidate
  first_candidate-Refuses rootfs [] = Raises-err _ (omega arith)
  first_candidate-Refuses rootfs (candidate ∷ rest) =
      if-cases Refuses (in_rootfs h rootfs candidate) (λ _. Raises-ok _)
        λ _. first_candidate-Refuses rootfs rest

  choose_guest_command-Refuses :
      (rootfs : Text) (explicit : List Text) → Refuses (choose_guest_command h rootfs explicit)
  unfolding choose_guest_command
  choose_guest_command-Refuses rootfs [] = first_candidate-Refuses rootfs (guest_candidates h)
  choose_guest_command-Refuses rootfs (word ∷ explicit) = Raises-ok _

  check_sha256-Refuses : (actual : Text) (o : Option Text) → Refuses (check_sha256 h actual o)
  unfolding check_sha256
  check_sha256-Refuses actual none = Raises-ok _
  check_sha256-Refuses actual (some value) =
      Raises-raise_if _ _ _ (omega arith) (Raises-raise_if _ _ _ (omega arith) (Raises-ok _))

  check_version-Refuses :
      (output : Text) (detected o : Option Text) → Refuses (check_version h output detected o)
  unfolding check_version
  check_version-Refuses output detected none = Raises-ok _
  check_version-Refuses output detected (some regex) =
      Raises-bind _ (compiled-Refuses (h.compile regex))
        λ search. Raises-raise_if _ _ _ (omega arith) (Raises-ok _)
    where
      compiled-Refuses : (o : Option (Text → Bool)) → Refuses (compiled h o)
      compiled-Refuses none = Raises-err _ (omega arith)
      compiled-Refuses (some search) = Raises-ok _

  or_os_error-Refuses : (o : Option Text) → Refuses (or_os_error h o)
  or_os_error-Refuses none = Raises-err _ tt
  or_os_error-Refuses (some digest) = Raises-ok _

  probe-Refuses : (binary rootfs : Text) (a : Arguments) → Refuses (probe h binary rootfs a)
  unfolding probe
  probe-Refuses binary rootfs a =
      Raises-bind _ (choose_guest_command-Refuses rootfs a.command) λ command.
        Raises-bind _ (run_capture-Refuses _) λ (code, out, errors).
          Raises-raise_if _ _ _ (omega arith) (Raises-raise_if _ _ _ (omega arith) (Raises-ok _))

  expected_existing_paths-Refuses : Refuses (expected_existing_paths h)
  unfolding expected_existing_paths
  expected_existing_paths-Refuses = Raises-raise_if _ _ _ (omega arith) (Raises-ok _)

  audit-Refuses : (a : Arguments) → Refuses (audit h a)
  unfolding audit
  audit-Refuses a = Raises-bind _ (resolve_binary-Refuses a.proot) λ binary.
      Raises-raise_if _ _ _ (omega arith) (
        Raises-bind _ (or_os_error-Refuses _) λ digest.
          Raises-bind _ (check_sha256-Refuses digest _) λ pinned.
            Raises-bind _ (get_version_output-Refuses binary) λ version.
              Raises-bind _ (check_version-Refuses version _ _) λ checked.
                Raises-bind _ (probe-Refuses binary _ a) λ (invocation, records).
                  Raises-bind _ expected_existing_paths-Refuses λ expected. Raises-ok _)

  -- A pin that is given, stripped and in lower case, is the digest of the executable.
  check_sha256-pins :
      (actual : Text) (o : Option Text)
      → Returns
          (λ pinned. (value : Text) → o ≡ some value → actual ≡ lower h.lower_wide (strip value))
          (check_sha256 h actual o)
  unfolding check_sha256
  check_sha256-pins actual none = Returns-ok _ λ value e. cc
  check_sha256-pins actual (some value) = Returns-raise_if _ _ _ λ hex.
      Returns-raise_if _ _ _ λ same. Returns-ok _ λ given e.
        text_eq→eq actual _ (not-false _ same) ∙ ap (λ v. lower h.lower_wide (strip v)) (some_inj e)
    where
      some_inj : {x y : Text} → ◌≡◌ {A = Option Text} (some x) (some y) → x ≡ y
      some_inj e = cc

  or_os_error-reads : (o : Option Text) → Returns (λ digest. o ≡ some digest) (or_os_error h o)
  or_os_error-reads none = Returns-err _
  or_os_error-reads (some digest) = Returns-ok _ refl

  -- The digest in the report is that of the executable, and the one of the pin if there is one.
  abbrev pub IsPinned : Arguments → AuditReport → Type 0
  IsPinned a report =
      (h.sha256_file report.proot_binary ≡ some report.proot_binary_sha256)
      × ((value : Text)
          → truthy a.expected_sha256 ≡ some value
          → report.proot_binary_sha256 ≡ lower h.lower_wide (strip value))

  audit-IsPinned : (a : Arguments) → Returns (IsPinned a) (audit h a)
  unfolding audit
  audit-IsPinned a = Returns-bind _ _ Returns-any λ binary _. Returns-raise_if _ _ _ λ dir.
      Returns-bind _ _ (or_os_error-reads _) λ digest read.
        Returns-bind _ _ (check_sha256-pins digest _) λ pinned p.
          Returns-bind _ _ Returns-any λ version _. Returns-bind _ _ Returns-any λ checked _.
            Returns-bind _ _ Returns-any λ (invocation, records) _.
              Returns-bind _ _ Returns-any λ expected _. Returns-ok _ (read, p)

  -- What exit code 0 stands for: a report whose binds, as PRoot printed them, are the policy, of an
  -- executable that has the pinned digest if one was given.
  pub record IsMatch (a : Arguments) : Type 0 where
    pub report : AuditReport
    pub audited : audit h (record a { command = without_dashes h a.command }) ≡ ok report
    pub observed : IsObserved h a.rootfs report
    pub same_binds :
        path_set (existing_paths h s_mode_relative_paths)
        ≡ path_set (hosts_of h report.observed_bind_records)
    pub pinned : IsPinned a report

  code_of-zero :
      (m : Checked AuditReport)
      → code_of h m ≡ ok 0
      → Refuses m
      → (report : AuditReport) × (m ≡ ok report) × (report.matches ≡ true)
  code_of-zero (ok report) z r = (report, refl, matching report.matches z)
    where
      matching : (b : Bool) → ◌≡◌ {A = Checked ℕ} (ok (if b then 0 else 6)) (ok 0) → b ≡ true
      matching true e = refl
      matching false e = absurd (six_ne_zero (inj e))
        where
          inj : ◌≡◌ {A = Checked ℕ} (ok 6) (ok 0) → ◌≡◌ {A = ℕ} 6 0
          inj e = cc

          six_ne_zero : ◌≡◌ {A = ℕ} 6 0 → ⊥
          six_ne_zero e = omega arith
  code_of-zero (err (refused code reason)) z r =
      absurd (not_zero code (r.at (refused code reason) refl).0 (inj code z))
    where
      inj : (n : ℕ) → ◌≡◌ {A = Checked ℕ} (ok n) (ok 0) → n ≡ 0
      inj n e = cc

      not_zero : (n : ℕ) → 2 ≤ n → n ≡ 0 → ⊥
      not_zero n h e = omega (arith, h, e)
  code_of-zero (err os_error) z r = cc

  -- If the verification ends with exit code 0, the audit gave a report in which the binds that PRoot
  -- printed in a run that exited with 0, but for those of the rootfs, are the set of the existing paths of
  -- the policy; its digest is that of the executable, and if a pin was given, it is the pin, stripped and
  -- in lower case.
  pub main-IsMatch : (a : Arguments) → main h a ≡ ok 0 → IsMatch a
  unfolding main
  main-IsMatch a z =
      let b = record a { command = without_dashes h a.command } in
      let (report, audited, matching) = code_of-zero (audit h b) z (audit-Refuses b) in
      let (observed, same) = (audit-path_set h b).at report audited in
      record {
        report = report;
        audited = audited;
        observed = observed;
        same_binds = same.0 matching;
        pinned = (audit-IsPinned b).at report audited;
      }
