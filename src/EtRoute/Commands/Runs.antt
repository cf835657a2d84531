-- ===== src/EtRoute/Commands/Runs.antt =====
-- etroute.py: what `run` starts, and the exit codes of `main`.
use etroute.Prelude.{
  ◌≡◌, refl, Bool, true, false, ◌&&◌, Option, none, some, List, ok, err, raise_if-eq-ok, map_all,
  Returns, Returns-bind, Returns-raise_if, Returns-ok, Returns-err, Returns-self, Returns-mono,
  not-false,
}
use etroute.Python.Text.{Text, codes}
use etroute.Python.Value.{ℤ}
use etroute.Python.FileSystem.{child}
use etroute.EtRoute.Errors.{Checked, no_shell, validation, raise}
use etroute.EtRoute.Names.{
  is_environment_name, validate_name, find_shell, rootfs_shells, validate_rootfs,
}
use etroute.EtRoute.Argv.{BindMount, parse_bind, build_proot_argv}
use etroute.EtRoute.Commands.{
  Console, Ran, returned, not_found, other_os_error, interrupt, rootfs_dir, check_rootfs,
  proot_supports, run_proot, RunArguments, lacks_command, run_argv, started, cmd_run,
}

run_proot-returned : (r : Ran) (code : ℤ) → run_proot r ≡ ok code → r ≡ returned code
unfolding run_proot
run_proot-returned (returned z) code h = cc
run_proot-returned not_found code h = cc
run_proot-returned other_os_error code h = cc
run_proot-returned interrupt code h = cc

-- The run behind an exit code: a valid name, a rootfs with a shell, binds that are read, a command in
-- package mode, and the command line of PRoot.
record IsRun (c : Console) (a : RunArguments) (code : ℤ) : Type 0 where
  valid : is_environment_name a.name ≡ true
  rootfs : Text
  under : rootfs ≡ child (child c.containers_dir a.name) (codes "rootfs")
  shell : Text
  shell_found : find_shell (λ name. c.files.is_file (child rootfs name)) rootfs_shells ≡ some shell
  binds : List BindMount
  read : map_all (parse_bind c.files) a.bind ≡ ok binds
  has_command : lacks_command a.mode a.command ≡ false
  argv : List Text
  built :
      build_proot_argv c.files c.home rootfs a.mode binds a.command a.kernel_release a.proot
        (a.kill_on_exit && proot_supports c a.proot (codes "--kill-on-exit"))
      ≡ ok argv
  ran : c.run argv none ≡ returned code

-- The same, up to the subprocess.
record IsReady (c : Console) (a : RunArguments) (argv : List Text) : Type 0 where
  valid : is_environment_name a.name ≡ true
  rootfs : Text
  under : rootfs ≡ child (child c.containers_dir a.name) (codes "rootfs")
  shell : Text
  shell_found : find_shell (λ name. c.files.is_file (child rootfs name)) rootfs_shells ≡ some shell
  binds : List BindMount
  read : map_all (parse_bind c.files) a.bind ≡ ok binds
  has_command : lacks_command a.mode a.command ≡ false
  built :
      build_proot_argv c.files c.home rootfs a.mode binds a.command a.kernel_release a.proot
        (a.kill_on_exit && proot_supports c a.proot (codes "--kill-on-exit"))
      ≡ ok argv

validate_name-Returns :
    (name : Text) → Returns (λ u. is_environment_name name ≡ true) (validate_name name)
unfolding validate_name
validate_name-Returns name = record { at = λ u h. not-false _ (raise_if-eq-ok _ _ h) }

validate_rootfs-Returns :
    (is_file : Text → Bool) (rootfs : Text)
    → Returns
        (λ shell. find_shell is_file rootfs_shells ≡ some shell)
        (validate_rootfs is_file rootfs)
unfolding validate_rootfs
validate_rootfs-Returns is_file rootfs = found (find_shell is_file rootfs_shells) refl
  where
    found :
        (o : Option Text)
        → find_shell is_file rootfs_shells ≡ o
        → Returns
            (λ shell. find_shell is_file rootfs_shells ≡ some shell)
            (elim o as (λ x. Checked Text) [
              | none ↦ raise (no_shell rootfs) validation
              | some shell ↦ ok shell
            ])
    found none h = Returns-err _
    found (some shell) h = Returns-ok _ h

module _ (c : Console) (a : RunArguments) where
  rootfs_dir-Returns :
      Returns
        (λ rootfs.
          (is_environment_name a.name ≡ true)
          × (rootfs ≡ child (child c.containers_dir a.name) (codes "rootfs")))
        (rootfs_dir c a.name)
  unfolding rootfs_dir
  rootfs_dir-Returns =
      Returns-bind _ _ (validate_name-Returns a.name) λ u named. Returns-ok _ (named, refl)

  check_rootfs-Returns :
      (rootfs : Text)
      → Returns
          (λ shell.
            find_shell (λ name. c.files.is_file (child rootfs name)) rootfs_shells ≡ some shell)
          (check_rootfs c rootfs)
  unfolding check_rootfs
  check_rootfs-Returns rootfs = validate_rootfs-Returns _ rootfs

  run_argv-IsReady : Returns (IsReady c a) (run_argv c a)
  unfolding run_argv
  run_argv-IsReady = Returns-bind _ _ rootfs_dir-Returns λ rootfs (valid, under).
      Returns-bind _ _ (check_rootfs-Returns rootfs) λ shell found.
        Returns-bind _ _ Returns-self λ binds read. Returns-raise_if _ _ _ λ has_command.
          Returns-mono _ _
            (λ argv built. record {
              valid = valid;
              rootfs = rootfs;
              under = under;
              shell = shell;
              shell_found = found;
              binds = binds;
              read = read;
              has_command = has_command;
              built = built;
            })
            Returns-self

  started-returned :
      (m : Checked (List Text)) (code : ℤ)
      → started c none m ≡ ok code
      → (argv : List Text) × (m ≡ ok argv) × (c.run argv none ≡ returned code)
  started-returned (ok argv) code h = (argv, refl, run_proot-returned (c.run argv none) code h)
  started-returned (err e) code h = cc

  -- If `run` returns an exit code, the name is valid, the rootfs lies in its directory and has a shell,
  -- every bind was read, package mode has a command, and the code is that of PRoot for the command line
  -- that these make.
  cmd_run-IsRun : (code : ℤ) → cmd_run c a ≡ ok code → IsRun c a code
  unfolding cmd_run
  cmd_run-IsRun code h =
      let (argv, made, ran) = started-returned (run_argv c a) code h in
      let ready = run_argv-IsReady.at argv made in
      record {
        valid = ready.valid;
        rootfs = ready.rootfs;
        under = ready.under;
        shell = ready.shell;
        shell_found = ready.shell_found;
        binds = ready.binds;
        read = ready.read;
        has_command = ready.has_command;
        argv = argv;
        built = ready.built;
        ran = ran;
      }
