-- ===== src/Tests/Audit.antt =====
-- tools/verify_proot_s_mode.py on a host where `proot -S` binds `/dev` alone.
use etroute.Prelude.{◌≡◌, refl, ◌↔◌, true, false, none, some, [], ◌∷◌, ok, Returns, ◌>>=◌, raise_if}
use etroute.Python.Text.{codes, strip, strip_left, is_space, text_eq}
use etroute.Python.Value.{pos, contains, without, sorted, insert_sorted}
use etroute.Python.Lines.{splitlines, partition}
use etroute.ProotSMode.Records.{
  parse_bind_records, records_in, match_binding, split_binding, behind_word, behind_spaces,
  normalize_path, is_rootfs_record,
}
use etroute.ProotSMode.Version.{detect_version, search_from, match_named, match_numbers, is_word}
use etroute.ProotSMode.PathSets.{unique, minus}
use etroute.ProotSMode.PathSets.Laws.{path_set}
use etroute.ProotSMode.Compare.{IsObserved, audit-path_set}
use etroute.ProotSMode.AuditHost.{Host, Arguments, completed, s_mode_relative_paths}
use etroute.ProotSMode.Binary.{
  resolve_binary, run_capture, get_version_output, attempt, check_sha256, check_version,
}
use etroute.ProotSMode.{
  existing_paths, hosts_of, audit, main, expected_existing_paths, choose_guest_command,
  records_where, compare_paths, probe, without_dashes,
}
use etroute.ProotSMode.Codes.{IsMatch, main-IsMatch}

abbrev host : Host
host = record {
  which = λ name. some name;
  resolve = λ p. p;
  resolve_user = λ p. p;
  is_file = λ p. true;
  is_dir = λ p. true;
  exists = λ p. text_eq p (codes "/dev");
  sha256_file = λ p. some (codes "d");
  run =
      λ argv. completed (pos 0) (codes "proot info: binding = /r:/\nproot info: binding = /dev") [];
  home = some (codes "/h");
  paths = record { expanduser = λ s. s; expandvars = λ s. s; abspath = λ s. s; normpath = λ s. s };
  compile = λ t. none;
  word_wide = λ c. false;
  lower_wide = λ before c behind. c ∷ [];
}

abbrev args : Arguments
args = record {
  rootfs = codes "/r";
  proot = codes "proot";
  expected_sha256 = none;
  expected_version_regex = none;
  verbosity = codes "2";
  command = codes "--" ∷ codes "true" ∷ [];
}

matches : main host args ≡ ok 0
unfolding main without_dashes audit resolve_binary run_capture get_version_output attempt
    expected_existing_paths existing_paths choose_guest_command check_sha256 check_version hosts_of
    records_where compare_paths probe parse_bind_records records_in match_binding split_binding
    behind_word behind_spaces normalize_path is_rootfs_record detect_version search_from match_named
    match_numbers is_word unique minus contains without sorted insert_sorted splitlines partition
    strip strip_left is_space text_eq ◌>>=◌ raise_if
matches = refl

main-IsMatch_example : IsMatch host args
main-IsMatch_example = main-IsMatch host args matches

audit-path_set_example :
    Returns
      (λ report.
        IsObserved host args.rootfs report
        × ((report.matches ≡ true) ↔ (
            path_set (existing_paths host s_mode_relative_paths)
            ≡ path_set (hosts_of host report.observed_bind_records))))
      (audit host args)
audit-path_set_example = audit-path_set host args
