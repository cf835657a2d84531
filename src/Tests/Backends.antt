-- ===== src/Tests/Backends.antt =====
-- execution_backend.py on a concrete machine.
use etroute.Prelude.{
  ℕ, ◌≡◌, refl, ◌↔◌, true, false, none, some, [], ◌∷◌, ok, err, ◌>>=◌, raise_if, All,
}
use etroute.Python.Text.{codes, text_eq, strip, is_space}
use etroute.Python.Value.{pos, contains}
use etroute.Python.Dict.{find, set, drop}
use etroute.Python.PurePath.{parse, show, is_absolute, has_parent_part}
use etroute.LaunchSpec.{
  ProotLaunchSpec, build_proot_argv, bind_arguments, serialize, validate, validate_bind,
  validate_binds, normalize_env, normalize_release, is_safe_guest, is_blank_command,
  is_unsafe_directory, has_shell,
}
use etroute.LaunchSpec.Binds.{IsNormal}
use etroute.ExecutionBackend.Config.{
  ExecutionRequest, ProotConfig, to_launch_spec, validate_config, validate_request, build_argv,
  check_binds, validate_rootfs_bind, launch_binds, to_launch_bind, is_missing,
}
use etroute.ExecutionBackend.Config.Launch.{to_launch_spec-IsValid}
use etroute.ExecutionBackend.Machine.{
  Machine, process, ended, Signals, timed_out, terminate_process, timeout_expired,
  resolve_executable, resolve_proot, is_path, has_parent, terminate_process_escapes_iff,
}
use etroute.ExecutionBackend.Running.{
  Table, ExecutionResult, completed, stop, execute_native, execute_proot, run_process, run_launched,
  ProotBackend, collect,
}
use etroute.ExecutionBackend.Running.Table.{IsResult, execute_native-table, stop_once}
use etroute.ExecutionBackend.Running.Reach.{
  Session, Reach, idle, step, begins, ends, stops, begin, end, interrupt, leave, quiet-empty,
}
use etroute.ExecutionBackend.Registry.{default_registry, init_proot, Registry}
use etroute.Tests.Host.{disk, disk-IsLawful}

abbrev machine : Machine
machine = record {
  files = disk;
  expand_user = λ t. t;
  which = λ t. some (codes "/bin/tool");
  environ = [];
  new_id = codes "id";
  popen = λ argv cwd env. process 5;
  communicate = λ h. ended (pos 0) [] [];
  output_of = λ argv. none;
  architecture = [];
  system = [];
  python_version = codes "3";
}

abbrev request : ExecutionRequest
request = record {
  executable = codes "sh";
  arguments = codes "-c" ∷ [];
  working_directory = none;
  environment = [];
}

abbrev config : ProotConfig
config = record {
  rootfs = codes "debian";
  proot_binary = codes "proot";
  binds = record { host = codes "data"; guest = codes "/mnt"; no_dereference = true } ∷ [];
  root_id = true;
  kill_on_exit = false;
  kernel_release = none;
  guest_working_directory = none;
}

abbrev spec : ProotLaunchSpec
spec = record {
  rootfs = codes "/guest";
  command = codes "sh" ∷ codes "-c" ∷ [];
  binds = record { host = codes "/guest"; guest = codes "/mnt"; no_dereference = true } ∷ [];
  root_id = true;
  kill_on_exit = false;
  kernel_release = none;
  guest_working_directory = none;
  environment = [];
  schema_version = 1;
}

spec_made : to_launch_spec disk config request ≡ ok spec
unfolding to_launch_spec validate_config validate_request check_binds validate_rootfs_bind
    launch_binds to_launch_bind is_missing validate validate_bind validate_binds normalize_env
    normalize_release is_safe_guest is_blank_command is_unsafe_directory has_shell ◌>>=◌ raise_if
    parse show is_absolute has_parent_part text_eq strip is_space contains
spec_made = refl

to_launch_spec-IsValid_example :
    (spec.command ≡ request.executable ∷ request.arguments)
    × (spec.rootfs ≡ disk.resolve config.rootfs)
    × (has_shell disk spec.rootfs ≡ true)
    × All (IsNormal disk) spec.binds
to_launch_spec-IsValid_example =
    to_launch_spec-IsValid disk disk-IsLawful config request spec spec_made

abbrev stuck : Signals
stuck = record { terminate = true; first_wait = timed_out; kill = true; second_wait = timed_out }

terminate_process_escapes_iff_example : (terminate_process stuck ≡ err timeout_expired) ↔ (
    (stuck.terminate ≡ true)
    × (stuck.first_wait ≡ timed_out)
    × (stuck.kill ≡ true)
    × (stuck.second_wait ≡ timed_out))
terminate_process_escapes_iff_example = terminate_process_escapes_iff stuck

abbrev result : ExecutionResult
result = record {
  execution_id = codes "id";
  exit_code = some (pos 0);
  stdout = [];
  stderr = [];
  state = completed;
}

abbrev other : Table
other = (codes "other", 3) ∷ []

new_id : find machine.new_id other ≡ none
unfolding find text_eq
new_id = refl

executed : execute_native machine request other ≡ ok (other, result)
unfolding execute_native run_process run_launched collect validate_request is_missing
    resolve_executable is_path has_parent ◌>>=◌ raise_if parse show is_absolute text_eq strip
    is_space find set drop
executed = refl

execute_native-table_example : (other ≡ other) × IsResult machine.new_id result
execute_native-table_example =
    execute_native-table machine request other other result new_id executed

abbrev backend : ProotBackend
backend = record {
  config = config;
  resolved_binary = codes "/bin/proot";
  supports_kill_on_exit = false;
  running = other;
}

under_proot : (r : Table × ExecutionResult) × (execute_proot machine backend request ≡ ok r)
unfolding execute_proot run_process run_launched collect build_argv to_launch_spec validate_config
    validate_request check_binds validate_rootfs_bind launch_binds to_launch_bind is_missing
    validate validate_bind validate_binds normalize_env normalize_release is_safe_guest
    is_blank_command is_unsafe_directory has_shell ◌>>=◌ raise_if parse show is_absolute
    has_parent_part text_eq strip is_space contains find set drop build_proot_argv bind_arguments
    serialize
under_proot = (_, refl)

stop_once_example :
    (find (codes "other") other ≡ none
      → stop (codes "other") (λ h. stuck) other ≡ (other, ok false))
    × ((h : ℕ)
        → find (codes "other") other ≡ some h
        → (stop (codes "other") (λ h. stuck) other).1 ≡ terminate_process stuck)
    × (stop (codes "other") (λ h. stuck) (stop (codes "other") (λ h. stuck) other).0
        ≡ ((stop (codes "other") (λ h. stuck) other).0, ok false))
stop_once_example = stop_once (codes "other") (λ h. stuck) other

-- One execution that is stopped before it ends.
abbrev quiet : Session
quiet = record { waiting = []; running = [] }

abbrev started : Session
started = begin (codes "id") 5 quiet

abbrev stopped_session : Session
stopped_session = interrupt (codes "id") (λ h. stuck) started

abbrev over : Session
over = end (codes "id") (ended (pos 0) [] []) stopped_session

over-Reach : Reach over
over-Reach =
    step (step (step idle (begins (codes "id") 5)) (stops (codes "id") (λ h. stuck)))
      (ends (codes "id") (ended (pos 0) [] []))

over-quiet : over.waiting ≡ []
unfolding begin interrupt end leave text_eq
over-quiet = refl

quiet-empty_example : over.running ≡ []
quiet-empty_example = quiet-empty over over-Reach over-quiet

registered : (r : Registry) × (default_registry machine (some config) ≡ ok r)
unfolding default_registry init_proot resolve_proot is_path has_parent validate_config check_binds
    validate_rootfs_bind is_safe_guest is_unsafe_directory has_shell ◌>>=◌ raise_if parse show
    is_absolute has_parent_part text_eq
registered = (_, refl)
