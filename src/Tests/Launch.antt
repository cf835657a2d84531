-- ===== src/Tests/Launch.antt =====
-- proot_launch_spec.py at concrete launch specifications.
use etroute.Prelude.{◌≡◌, refl, true, false, some, [], ◌∷◌, ok, err, ◌>>=◌, raise_if, All}
use etroute.Python.Text.{codes, text_eq, strip, is_space, has}
use etroute.Python.Value.{contains}
use etroute.Python.PurePath.{parse, show, is_absolute, has_parent_part}
use etroute.LaunchSpec.{
  LaunchError, ProotLaunchSpec, validate, validate_bind, validate_binds, normalize_env, set_key,
  is_bad_key, normalize_release, is_safe_guest, is_blank_command, is_unsafe_directory, has_shell,
  build_proot_argv,
}
use etroute.LaunchSpec.Binds.{IsNormal, Distinct}
use etroute.LaunchSpec.Environment.{IsEnv}
use etroute.LaunchSpec.Valid.{released, validate-IsValid, validate-validate}
use etroute.LaunchSpec.Argv.{command_line, options, NoMark, build_proot_argv-eq, options-NoMark}
use etroute.LaunchSpec.Writer.{spec_dict, to_dict}
use etroute.LaunchSpec.Reader.{from_dict}
use etroute.LaunchSpec.Reader.Laws.{launch_round_trip}
use etroute.Tests.Host.{disk, disk-IsLawful, plain}

abbrev given : ProotLaunchSpec
given = record {
  rootfs = codes "debian";
  command = codes "sh" ∷ codes "--" ∷ [];
  binds = record { host = codes "data"; guest = codes "/mnt//data/"; no_dereference = false } ∷ [];
  root_id = true;
  kill_on_exit = true;
  kernel_release = some (codes " ");
  guest_working_directory = some (codes "/");
  environment = (codes " HOME", codes "/root") ∷ (codes "HOME ", codes "/home") ∷ [];
  schema_version = 1;
}

abbrev valid : ProotLaunchSpec
valid = record {
  rootfs = codes "/guest";
  command = codes "sh" ∷ codes "--" ∷ [];
  binds = record { host = codes "/guest"; guest = codes "/mnt/data"; no_dereference = false } ∷ [];
  root_id = true;
  kill_on_exit = true;
  kernel_release = some [];
  guest_working_directory = some (codes "/");
  environment = (codes "HOME", codes "/home") ∷ [];
  schema_version = 1;
}

given-valid : validate disk given ≡ ok valid
unfolding validate validate_bind validate_binds normalize_env set_key is_bad_key normalize_release
    is_safe_guest is_blank_command is_unsafe_directory has_shell ◌>>=◌ raise_if parse show
    is_absolute has_parent_part text_eq strip is_space has contains
given-valid = refl

validate-IsValid_example :
    (disk.is_dir valid.rootfs ≡ true)
    × (has_shell disk valid.rootfs ≡ true)
    × (is_blank_command valid.command ≡ false)
    × All (IsNormal disk) valid.binds
    × Distinct valid.binds
    × IsEnv valid.environment
validate-IsValid_example = validate-IsValid disk disk-IsLawful given valid given-valid

validate-validate_example : validate disk valid ≡ ok (released valid)
validate-validate_example = validate-validate disk disk-IsLawful given valid given-valid

blank : strip (b' ' ∷ []) ≡ []
unfolding strip is_space
blank = refl

build_proot_argv-eq_example :
    ((v : ProotLaunchSpec)
      → validate disk given ≡ ok v
      → build_proot_argv disk (codes "proot") given true ≡ ok (command_line (codes "proot") v true))
    × ((e : LaunchError)
        → validate disk given ≡ err e
        → build_proot_argv disk (codes "proot") given true ≡ err e)
build_proot_argv-eq_example = build_proot_argv-eq disk disk-IsLawful (codes "proot") given true

options-NoMark_example : All NoMark (options valid true) × (valid.command ≡ given.command)
options-NoMark_example = options-NoMark disk disk-IsLawful given valid true given-valid

given_dict : to_dict disk given ≡ ok (spec_dict valid)
unfolding to_dict ◌>>=◌
given_dict = rw given-valid refl

launch_round_trip_example :
    (v : ProotLaunchSpec) × (validate disk given ≡ ok v)
    × (from_dict disk plain (spec_dict valid) ≡ ok (released v))
launch_round_trip_example =
    launch_round_trip disk disk-IsLawful plain given (spec_dict valid) given_dict
