-- ===== src/EtRoute/Commands.antt =====
-- etroute.py: the commands `run`, `diagnose` and `list`, and the exit code of `main`.
pub mod Diagnosis
pub mod Runs
use etroute.Prelude.{
  ℕ, Bool, true, false, not, ◌&&◌, ◌||◌, Option, none, some, List, [], ◌∷◌, ◌++◌, map,
  if◌then◌else◌, Result, ok, err, ◌>>=◌, ◌>>◌, raise_if, map_all, map_err,
}
use etroute.Python.Text.{Text, codes, text_eq}
use etroute.Python.Value.{ℤ, pos, truthy, or_else, contains}
use etroute.Python.Dict.{Dict, set}
use etroute.Python.Lines.{occurs}
use etroute.Python.FileSystem.{FileSystem, child}
use etroute.EtRoute.Errors.{
  EtRouteError, Reason, command_required, proot_missing, script_missing, Checked, error, raise, cli,
  dependency,
}
use etroute.EtRoute.Names.{validate_name, validate_rootfs}
use etroute.EtRoute.Argv.{
  ExecutionMode, package_mode, login_root, login_user, BindMount, parse_bind, build_proot_argv,
}
use etroute.EtRoute.Install.{Provenance, Manifest, Directory, read_manifest}

-- What `subprocess.run` of PRoot does: the exit code, FileNotFoundError, another OSError, or Ctrl-C.
pub data Ran : Type 0 where
  returned : ℤ → Ran
  not_found other_os_error interrupt : Ran

-- Why a command does not return.
pub data Stop : Type 0 where
  etroute_error : EtRouteError → Stop
  os_error interrupted : Stop

-- The host of a command.
pub record Console : Type 0 where
  pub files : FileSystem
  pub home : Option Text
  pub containers_dir : Text
  -- what `[binary, "--help"]` prints, or `none` for OSError and TimeoutExpired
  pub help_of : Text → Option Text
  -- `subprocess.run(argv, env=env)`; `none` is the environment of the script
  pub run : List Text → Option (Dict Text) → Ran
  pub environ : Dict Text
  pub new_session_id : Text
  -- `diagnostic_script_path()`
  pub diagnostic_script : Text

unfoldable pub rootfs_dir : Console → Text → Checked Text
unfolding child
rootfs_dir c name = do
  valid ← validate_name name
  ok (child (child c.containers_dir name) (codes "rootfs"))

-- `validate_rootfs` of a directory
unfoldable pub check_rootfs : Console → Text → Checked Text
unfolding child
check_rootfs c rootfs = validate_rootfs (λ shell. c.files.is_file (child rootfs shell)) rootfs

unfoldable pub proot_supports : Console → Text → Text → Bool
unfolding occurs
proot_supports c binary flag = elim (c.help_of binary) [
  | none ↦ false
  | some output ↦ occurs flag output
]

unfoldable pub run_proot : Ran → Result Stop ℤ
run_proot (returned code) = ok code
run_proot not_found = err (etroute_error (error proot_missing dependency))
run_proot other_os_error = err os_error
run_proot interrupt = err interrupted

pub record RunArguments : Type 0 where
  pub name : Text
  pub mode : ExecutionMode
  pub bind : List Text
  pub kernel_release : Option Text
  pub proot : Text
  pub kill_on_exit : Bool
  pub command : List Text

-- `args.mode == ExecutionMode.PACKAGE.value and not args.command`
abbrev pub lacks_command : ExecutionMode → List Text → Bool
lacks_command package_mode [] = true
lacks_command mode command = false

-- `cmd_run` up to the subprocess
unfoldable pub run_argv : Console → RunArguments → Checked (List Text)
unfolding rootfs_dir check_rootfs proot_supports
run_argv c a = do
  rootfs ← rootfs_dir c a.name
  shell ← check_rootfs c rootfs
  binds ← map_all (parse_bind c.files) a.bind
  raise_if (lacks_command a.mode a.command) (error command_required cli)
  build_proot_argv c.files c.home rootfs a.mode binds a.command a.kernel_release a.proot
      (a.kill_on_exit && proot_supports c a.proot (codes "--kill-on-exit"))

abbrev pub started : Console → Option (Dict Text) → Checked (List Text) → Result Stop ℤ
started c env (ok argv) = run_proot (c.run argv env)
started c env (err e) = err (etroute_error e)

unfoldable pub cmd_run : Console → RunArguments → Result Stop ℤ
unfolding run_argv run_proot
cmd_run c a = started c none (run_argv c a)

pub record DiagnoseArguments : Type 0 where
  pub name : Text
  pub script : Option Text
  pub python : Text
  pub kernel_release : Option Text
  pub proot : Text
  pub kill_on_exit : Bool
  pub caller : Text
  pub strict : Bool
  pub session_id : Option Text

abbrev guest_script : Text
guest_script = codes "/tmp/etroute-first-activation.py"

-- `[BindMount(Path(path), path) for path in paths if Path(path).exists()]`
unfoldable existing_mounts : FileSystem → List Text → List BindMount
existing_mounts fs [] = []
existing_mounts fs (path ∷ paths) =
    let rest = existing_mounts fs paths in
    if fs.exists path
    then record { host = path; guest = path; no_dereference = false } ∷ rest
    else rest

unfoldable diagnose_command : DiagnoseArguments → List Text
unfolding text_eq
diagnose_command a =
    (if text_eq a.python (codes "/usr/bin/env")
      then a.python ∷ codes "python3" ∷ []
      else a.python ∷ [])
    ++ (guest_script ∷ (if a.strict then codes "--strict" ∷ [] else []))

abbrev script_of : Console → Option Text → Text
script_of c none = c.diagnostic_script
script_of c (some path) = c.files.resolve path

-- `cmd_diagnose` up to the subprocess
unfoldable diagnose_argv : Console → DiagnoseArguments → Checked (List Text)
unfolding rootfs_dir check_rootfs proot_supports existing_mounts diagnose_command
diagnose_argv c a = do
  rootfs ← rootfs_dir c a.name
  shell ← check_rootfs c rootfs
  let script = script_of c (truthy a.script)
  raise_if (not (c.files.is_file script)) (error (script_missing script) dependency)
  build_proot_argv c.files c.home rootfs login_root
      (existing_mounts c.files (codes "/dev" ∷ codes "/proc" ∷ codes "/sys" ∷ codes "/tmp" ∷ [])
        ++ (record { host = script; guest = guest_script; no_dereference = true } ∷ []))
      (diagnose_command a) a.kernel_release a.proot
      (a.kill_on_exit && proot_supports c a.proot (codes "--kill-on-exit"))

-- `if value: env[key] = value`
abbrev pub set_if : Text → Option Text → Dict Text → Dict Text
set_if key none env = env
set_if key (some value) env = set key value env

-- The environment of the guest.
unfoldable pub diagnose_env : Console → DiagnoseArguments → Dict Text
unfolding set
diagnose_env c a =
    set (codes "ETROUTE_SESSION_ID") (or_else (truthy a.session_id) c.new_session_id) (
      set (codes "ETROUTE_ENVIRONMENT_NAME") a.name (
        set_if (codes "ETROUTE_CALLER") (truthy (some a.caller)) (
          set_if (codes "ETROUTE_EXPECTED_KERNEL_RELEASE") (truthy a.kernel_release) (
            set (codes "ETROUTE_ACTIVATION_MARKER") (codes "/root/.etroute_activation_marker")
              (set (codes "HOME") (codes "/root") c.environ)))))

unfoldable cmd_diagnose : Console → DiagnoseArguments → Result Stop ℤ
unfolding diagnose_argv diagnose_env run_proot
cmd_diagnose c a = started c (some (diagnose_env c a)) (diagnose_argv c a)

-- An entry of the directory of containers, in the order of `sorted`.
pub record Entry : Type 0 where
  pub name : Text
  -- `none` for what is no directory
  pub directory : Option Directory

abbrev is_hidden : Text → Bool
is_hidden [] = false
is_hidden (ch ∷ s) = text_eq (ch ∷ []) (codes ".")

-- A line of `list`: a ready environment with its provenance and shell, or an error.
pub data Line : Type 0 where
  ready : Text → Provenance → Text → Line
  invalid : Text → EtRouteError → Line

abbrev line_of : Text → Checked (Provenance × Text) → Line
line_of name (ok (provenance, shell)) = ready name provenance shell
line_of name (err e) = invalid name e

unfoldable checked_entry : Text → Directory → Checked (Provenance × Text)
checked_entry name d = do
  provenance ← read_manifest name d.manifest
  shell ← validate_rootfs (contains d.rootfs) name
  ok (provenance, shell)

unfoldable list_lines : List Entry → List Line
unfolding text_eq checked_entry
list_lines [] = []
list_lines (e ∷ es) =
    let rest = list_lines es in
    elim e.directory [
      | none ↦ rest
      | some d ↦ if is_hidden e.name then rest else line_of e.name (checked_entry e.name d) ∷ rest
    ]

-- `main`, for what the command does: an ETRouteError is its code, and an interruption is 130.
abbrev main_code : Result Stop ℤ → Result Stop ℤ
main_code (ok code) = ok code
main_code (err (etroute_error e)) = ok (pos e.code)
main_code (err interrupted) = ok (pos 130)
main_code (err os_error) = err os_error
