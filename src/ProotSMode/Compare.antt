-- ===== src/ProotSMode/Compare.antt =====
-- tools/verify_proot_s_mode.py: the report matches exactly if the two sets of paths are one.
use mathlib.Core.Quot
use etroute.Prelude.{
  ℕ, ◌==◌, ◌⊎◌, ◌≡◌, refl, ◌↔◌, Bool, true, false, ◌&&◌, List, [], ◌∷◌, Returns, Returns-bind,
  Returns-raise_if, Returns-ok, Returns-any, Returns-err, subst, not-false, ap, Bool-cases, inl,
  inr, if-cases, arith, sym, ◌∙◌, and-eq-true,
}
use etroute.Python.Text.{Text}
use etroute.Python.Value.{ℤ, pos, negsuc}
use etroute.ProotSMode.Records.{BindRecord, is_rootfs_record, parse_bind_records}
use etroute.ProotSMode.Binary.{of_run, run_capture}
use etroute.Python.Value.{text_lt, sorted, insert_sorted}
use etroute.ProotSMode.PathSets.{unique, minus}
use etroute.ProotSMode.PathSets.Laws.{
  path_set, path_set-exact, unique-SameMembers, without-Within, Within-without, Within-SameMembers,
}
use etroute.ProotSMode.AuditHost.{
  Host, Arguments, AuditReport, Ran, completed, timed_out, not_started, joined, is_zero_code,
  is_empty, s_mode_relative_paths,
}
use etroute.ProotSMode.{
  existing_paths, expected_existing_paths, hosts_of, records_where, compare_paths, audit, probe,
}

insert_sorted-full : (p : Text) (ps : List Text) → is_empty (insert_sorted p ps) ≡ false
unfolding insert_sorted
insert_sorted-full p [] = refl
insert_sorted-full p (q ∷ qs) =
    if-cases (λ (r : List Text). is_empty r ≡ false) (text_lt q p) {x = q ∷ insert_sorted p qs}
      {y = p ∷ q ∷ qs} (λ _. refl) λ _. refl

sorted-nil : (ps : List Text) → is_empty (sorted ps) ≡ true → ps ≡ []
unfolding sorted
sorted-nil [] h = refl
sorted-nil (p ∷ ps) h = cc (insert_sorted-full p (sorted ps))

nil-sorted : (ps : List Text) → ps ≡ [] → is_empty (sorted ps) ≡ true
unfolding sorted
nil-sorted [] h = refl
nil-sorted (p ∷ ps) h = cc

-- A record is one of a list.
abbrev pub IsAmong : BindRecord → List BindRecord → Type 0
IsAmong r [] = ⊥
IsAmong r (q ∷ qs) = (q ≡ r) ⊎ IsAmong r qs

module _ (h : Host) where
  -- The comparison matches exactly if the two lists are the same set of paths.
  compare_paths-path_set :
      (expected observed : List Text)
      → ((compare_paths h expected observed).1.1 ≡ true) ↔ (path_set expected ≡ path_set observed)
  unfolding compare_paths minus
  compare_paths-path_set expected observed = (
    (λ same.
        let (missing, unexpected) = and-eq-true _ _ same in
        Quot.sound (
          Within-SameMembers expected observed
            (without-Within expected observed (sorted-nil _ missing))
            (without-Within observed expected (sorted-nil _ unexpected)))),
    λ same.
        let members = path_set-exact same in
        both_true _ _ (nil-sorted _ (Within-without expected observed λ p m. sym (members p) ∙ m))
          (nil-sorted _ (Within-without observed expected λ p m. members p ∙ m)),
  )
    where
      both_true : (a b : Bool) → a ≡ true → b ≡ true → (a && b) ≡ true
      both_true a b p q = ground arith

  unique_set : (ps : List Text) → path_set (unique ps) ≡ path_set ps
  unique_set ps = Quot.sound (unique-SameMembers ps)

  expected_existing_paths-Returns :
      Returns
        (λ ps. path_set ps ≡ path_set (existing_paths h s_mode_relative_paths))
        (expected_existing_paths h)
  unfolding expected_existing_paths
  expected_existing_paths-Returns = Returns-raise_if _ _ _ λ home. Returns-ok _ (unique_set _)

  -- The records that are kept are those that are not of the rootfs.
  records_where-IsAmong :
      (rootfs : Text) (r : BindRecord) (records : List BindRecord)
      → IsAmong r (records_where h false rootfs records)
        ↔ (IsAmong r records × (is_rootfs_record h.paths rootfs r ≡ false))
  unfolding records_where
  records_where-IsAmong rootfs r [] = (λ m. absurd m, λ (m, f). absurd m)
  records_where-IsAmong rootfs r (q ∷ qs) =
      let (there, back) = records_where-IsAmong rootfs r qs in
      elim (Bool-cases (is_rootfs_record h.paths rootfs q)) [
        | inl e ↦
            rw (e, records_where)
              (
                (λ m. (inr (there m).0, (there m).1)),
                λ (m, f). elim m [ inl same ↦ absurd (apart q same e f) | inr m ↦ back (m, f) ],
              )
        | inr e ↦
            rw (e, records_where)
              (
                (λ m. elim m [
                  | inl same ↦ (inl same, sym (ap (is_rootfs_record h.paths rootfs) same) ∙ e)
                  | inr m ↦ (inr (there m).0, (there m).1)
                ]),
                λ (m, f). elim m [ inl same ↦ inl same | inr m ↦ inr (back (m, f)) ],
              )
      ]
    where
      apart :
          (q : BindRecord)
          → q ≡ r
          → is_rootfs_record h.paths rootfs q ≡ true
          → is_rootfs_record h.paths rootfs r ≡ false
          → ⊥
      apart q same e f = cc

  -- The bind records of a report are what PRoot printed in a run that exited with 0, but for those of
  -- the rootfs.
  pub record IsObserved (rootfs : Text) (report : AuditReport) : Type 0 where
    pub out : Text
    pub errors : Text
    pub ran : h.run report.command ≡ completed (pos 0) out errors
    pub printed :
        (r : BindRecord)
        → IsAmong r report.observed_bind_records ↔ (
            IsAmong r (parse_bind_records h.paths (joined out errors))
            × (is_rootfs_record h.paths (h.resolve_user rootfs) r ≡ false))

  zero_code : (code : ℤ) → is_zero_code code ≡ true → code ≡ pos 0
  zero_code (pos n) z = ap pos (zero n z)
    where
      zero : (n : ℕ) → (n == 0) ≡ true → n ≡ 0
      zero n z = ground arith
  zero_code (negsuc n) z = cc

  of_run-reads :
      (argv : List Text) (ran : Ran)
      → Returns (λ (code, out, errors). ran ≡ completed code out errors) (of_run h argv ran)
  of_run-reads argv timed_out = Returns-err _
  of_run-reads argv not_started = Returns-err _
  of_run-reads argv (completed code out errors) = Returns-ok _ refl

  abbrev IsProbed : List Text × List BindRecord → Type 0
  IsProbed (invocation, records) =
      (out : Text) × (errors : Text) × (h.run invocation ≡ completed (pos 0) out errors)
      × (records ≡ parse_bind_records h.paths (joined out errors))

  probe-IsProbed :
      (binary rootfs : Text) (a : Arguments) → Returns IsProbed (probe h binary rootfs a)
  unfolding probe run_capture
  probe-IsProbed binary rootfs a = Returns-bind _ _ Returns-any λ command _.
      Returns-bind _ _ (of_run-reads _ _) λ (code, out, errors) ran. Returns-raise_if _ _ _ λ zero.
        Returns-raise_if _ _ _ λ some. Returns-ok _ (
          out,
          errors,
          ran ∙ ap (λ c. completed c out errors) (zero_code code (not-false _ zero)),
          refl,
        )

  -- The bind records of a report are those that PRoot printed in a run that exited with 0, without those
  -- of the rootfs. The report matches exactly if their hosts are the same set as the existing paths of
  -- the policy: neither the order of the records nor repeated ones count.
  pub audit-path_set :
      (a : Arguments)
      → Returns
          (λ report.
            IsObserved a.rootfs report
            × ((report.matches ≡ true) ↔ (
                path_set (existing_paths h s_mode_relative_paths)
                ≡ path_set (hosts_of h report.observed_bind_records))))
          (audit h a)
  unfolding audit
  audit-path_set a = Returns-bind _ _ Returns-any λ binary _. Returns-raise_if _ _ _ λ dir.
      Returns-bind _ _ Returns-any λ digest _. Returns-bind _ _ Returns-any λ pinned _.
        Returns-bind _ _ Returns-any λ version _. Returns-bind _ _ Returns-any λ checked _.
          Returns-bind _ _ (probe-IsProbed binary _ a)
            λ (invocation, records) (out, errors, ran, printed).
              Returns-bind _ _ expected_existing_paths-Returns λ expected e.
                let rootfs = h.resolve_user a.rootfs in
                let hosts = hosts_of h (records_where h false rootfs records) in
                let (there, back) = compare_paths-path_set expected (unique hosts) in
                Returns-ok _ (
                  record {
                    out = out;
                    errors = errors;
                    ran = ran;
                    printed = λ r.
                        subst
                          (λ rs.
                            IsAmong r (records_where h false rootfs records)
                            ↔ (IsAmong r rs × (is_rootfs_record h.paths rootfs r ≡ false)))
                          printed (records_where-IsAmong rootfs r records);
                  },
                  (
                    (λ matching. sym e ∙ there matching ∙ unique_set hosts),
                    λ same. back (e ∙ same ∙ sym (unique_set hosts)),
                  ),
                )
