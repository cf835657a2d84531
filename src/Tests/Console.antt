-- ===== src/Tests/Console.antt =====
-- etroute.py: the commands on a host with one environment.
use etroute.Prelude.{◌≡◌, refl, Bool, true, false, none, some, [], ok, Returns, ◌>>=◌, raise_if}
use etroute.Python.Text.{codes}
use etroute.Python.Value.{pos, str, get}
use etroute.FirstActivation.{Guest, build_report}
use etroute.FirstActivation.Laws.{part}
use etroute.EtRoute.Names.{
  validate_name, is_environment_name, is_name_head, is_name_char, find_shell, validate_rootfs,
}
use etroute.EtRoute.Argv.{
  login_root, build_proot_argv, effective_binds, bind_options, is_login_user,
}
use etroute.EtRoute.Commands.{
  Console, returned, RunArguments, DiagnoseArguments, cmd_run, run_argv, rootfs_dir, check_rootfs,
  proot_supports, run_proot, diagnose_env,
}
use etroute.EtRoute.Commands.Diagnosis.{diagnose_env-report}
use etroute.Tests.Host.{disk}
use etroute.Tests.Guest.{guest}

abbrev console : Console
console = record {
  files = disk;
  home = none;
  containers_dir = codes "/c";
  help_of = λ binary. none;
  run = λ argv env. returned (pos 3);
  environ = [];
  new_session_id = codes "fresh";
  diagnostic_script = codes "/d.py";
}

abbrev run_args : RunArguments
run_args = record {
  name = codes "lab";
  mode = login_root;
  bind = [];
  kernel_release = none;
  proot = codes "proot";
  kill_on_exit = true;
  command = [];
}

ran : cmd_run console run_args ≡ ok (pos 3)
unfolding cmd_run run_argv rootfs_dir check_rootfs proot_supports run_proot validate_name
    is_environment_name is_name_head is_name_char find_shell build_proot_argv effective_binds
    bind_options is_login_user validate_rootfs ◌>>=◌ raise_if
ran = refl

abbrev diagnose_args : DiagnoseArguments
diagnose_args = record {
  name = codes "lab";
  script = none;
  python = codes "/usr/bin/env";
  kernel_release = some (codes "6.1");
  proot = codes "proot";
  kill_on_exit = false;
  caller = codes "etumax";
  strict = true;
  session_id = none;
}

abbrev inside : Guest Bool
inside = record guest { environ = diagnose_env console diagnose_args }

diagnose_env-report_example :
    Returns
      (λ built.
        (get built.0 (codes "environment") ≡ some (str (codes "lab")))
        × (get built.0 (codes "session_id") ≡ some (str (codes "fresh")))
        × (get (part built.0 (codes "activation")) (codes "marker")
            ≡ some (str (codes "/root/.etroute_activation_marker"))))
      (build_report inside false).1
diagnose_env-report_example = diagnose_env-report console diagnose_args inside refl false
