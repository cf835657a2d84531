-- ===== src/ProotSMode.antt =====
-- tools/verify_proot_s_mode.py: the binds that `proot -S` makes, against the policy of package mode.
pub mod AuditHost
pub mod Binary
pub mod Version
pub mod Records
pub mod PathSets
pub mod Compare
pub mod Codes
use etroute.Prelude.{
  ℕ, zero, suc, Bool, true, false, not, ◌&&◌, ◌||◌, Option, none, some, List, [], ◌∷◌, ◌++◌, map,
  length, Result, ok, err, ◌>>=◌, ◌>>◌, raise_if, if◌then◌else◌, ◌==◌,
}
use etroute.Python.Text.{Text, codes, strip, lower, text_eq}
use etroute.Python.Value.{ℤ, pos, truthy, is_some, sorted}
use etroute.Python.FileSystem.{child}
use etroute.EtRoute.Names.{is_sha256}
use etroute.ProotSMode.Version.{detect_version}
use etroute.ProotSMode.Records.{
  BindRecord, parse_bind_records, is_rootfs_record, normalize_path, Paths,
}
use etroute.ProotSMode.PathSets.{unique, minus}
use etroute.ProotSMode.AuditHost.{
  Reason, Failure, Checked, Ran, Host, Arguments, s_mode_relative_paths, AuditReport, is_zero_code,
  is_empty, joined, proot_not_found, proot_not_a_file, home_not_set, no_guest_command,
  rootfs_missing, bad_sha256, invalid_regex, wrong_sha256, wrong_version, command_timed_out,
  command_not_started, no_version_output, no_bind_records, probe_failed, refused, os_error,
  completed, timed_out, not_started,
}
use etroute.ProotSMode.Binary.{
  resolve_binary, run_capture, get_version_output, check_sha256, check_version,
}

module _ (h : Host) where
  -- `{normalize_path(v) for v in values if it exists}`
  unfoldable pub existing_paths : List Text → List Text
  unfolding normalize_path
  existing_paths [] = []
  existing_paths (value ∷ rest) =
      let path = normalize_path h.paths value in
      let others = existing_paths rest in if h.exists path then path ∷ others else others

  unfoldable pub expected_existing_paths : Checked (List Text)
  unfolding existing_paths unique
  expected_existing_paths = do
    raise_if (not (is_some (truthy h.home))) (refused 2 home_not_set)
    ok (unique (existing_paths s_mode_relative_paths))

  -- `(rootfs / candidate.lstrip("/")).exists()`
  abbrev without_slash : Text → Text
  without_slash [] = []
  without_slash (c ∷ s) = let rest = without_slash s in if c == b'/' then rest else c ∷ s

  unfoldable pub in_rootfs : Text → Text → Bool
  unfolding child
  in_rootfs rootfs candidate = h.exists (child rootfs (without_slash candidate))

  abbrev pub guest_candidates : List Text
  guest_candidates =
      codes "/bin/true" ∷ codes "/usr/bin/true" ∷ codes "/bin/sh" ∷ codes "/usr/bin/env" ∷ []

  unfoldable pub first_candidate : Text → List Text → Checked (List Text)
  unfolding text_eq in_rootfs
  first_candidate rootfs [] = err (refused 2 no_guest_command)
  first_candidate rootfs (candidate ∷ rest) =
      let later = first_candidate rootfs rest in
      if in_rootfs rootfs candidate
      then ok (
          if text_eq candidate (codes "/bin/sh")
          then candidate ∷ codes "-c" ∷ codes "exit 0" ∷ []
          else candidate ∷ [])
      else later

  unfoldable pub choose_guest_command : Text → List Text → Checked (List Text)
  unfolding first_candidate
  choose_guest_command rootfs [] = first_candidate rootfs guest_candidates
  choose_guest_command rootfs (word ∷ explicit) = ok (word ∷ explicit)

  abbrev pub or_os_error : Option Text → Checked Text
  or_os_error none = err os_error
  or_os_error (some digest) = ok digest

  unfoldable pub hosts_of : List BindRecord → List Text
  hosts_of [] = []
  hosts_of (r ∷ rs) = r.host ∷ hosts_of rs

  -- `[record for record in records if is_rootfs_record(record, rootfs) == wanted]`
  unfoldable pub records_where : Bool → Text → List BindRecord → List BindRecord
  unfolding is_rootfs_record
  records_where wanted rootfs [] = []
  records_where wanted rootfs (r ∷ rs) =
      let rest = records_where wanted rootfs rs in
      let of_rootfs = is_rootfs_record h.paths rootfs r in
      if wanted && of_rootfs || (not wanted && not of_rootfs) then r ∷ rest else rest

  unfoldable pub compare_paths : List Text → List Text → List Text × (List Text × Bool)
  unfolding minus sorted
  compare_paths expected observed =
      let missing = sorted (minus expected observed) in
      let unexpected = sorted (minus observed expected) in
      (missing, (unexpected, is_empty missing && is_empty unexpected))

  unfoldable pub probe : Text → Text → Arguments → Checked (List Text × List BindRecord)
  unfolding choose_guest_command run_capture parse_bind_records
  probe binary rootfs a = do
    guest_command ← choose_guest_command rootfs a.command
    let invocation =
        binary ∷ (codes "-v" ++ a.verbosity) ∷ codes "-S" ∷ rootfs ∷ codes "--" ∷ guest_command
    (code, out, errors) ← run_capture h invocation
    raise_if (not (is_zero_code code)) (refused 4 (probe_failed code (joined out errors)))
    let records = parse_bind_records h.paths (joined out errors)
    raise_if (is_empty records) (refused 5 no_bind_records)
    ok (invocation, records)

  unfoldable pub audit : Arguments → Checked AuditReport
  unfolding resolve_binary check_sha256 get_version_output detect_version check_version probe
      records_where hosts_of unique expected_existing_paths compare_paths sorted
  audit a = do
    binary ← resolve_binary h a.proot
    let rootfs = h.resolve_user a.rootfs
    raise_if (not (h.is_dir rootfs)) (refused 2 rootfs_missing)
    binary_sha256 ← or_os_error (h.sha256_file binary)
    pinned ← check_sha256 h binary_sha256 (truthy a.expected_sha256)
    version_output ← get_version_output h binary
    let detected = detect_version h.word_wide version_output
    checked ← check_version h version_output detected (truthy a.expected_version_regex)
    (invocation, records) ← probe binary rootfs a
    let auxiliary = records_where false rootfs records
    let observed = unique (hosts_of auxiliary)
    expected ← expected_existing_paths
    let (missing, (unexpected, matches)) = compare_paths expected observed
    ok (record {
      proot_binary = binary;
      proot_binary_sha256 = binary_sha256;
      proot_version_output = version_output;
      detected_version = detected;
      version_pin_regex = a.expected_version_regex;
      expected_binary_sha256 = pinned;
      rootfs = rootfs;
      command = invocation;
      expected_existing_host_paths = sorted expected;
      observed_host_paths = sorted observed;
      observed_bind_records = auxiliary;
      ignored_rootfs_bind_records = records_where true rootfs records;
      missing_paths = missing;
      unexpected_paths = unexpected;
      matches = matches;
    })

  -- `main`, but for what it prints and the report that it writes: the exit code.
  abbrev pub code_of : Checked AuditReport → Checked ℕ
  code_of (ok report) = ok (if report.matches then 0 else 6)
  code_of (err (refused code reason)) = ok code
  code_of (err os_error) = err os_error

  -- `args.command[1:]` if the first word is `--`
  unfoldable pub without_dashes : List Text → List Text
  unfolding text_eq
  without_dashes [] = []
  without_dashes (word ∷ words) = if text_eq word (codes "--") then words else word ∷ words

  unfoldable pub main : Arguments → Checked ℕ
  unfolding without_dashes audit
  main a = code_of (audit (record a { command = without_dashes a.command }))
