-- ===== src/Lib.antt =====
-- ETroute manages rootless PRoot environments on Android and Linux hosts. This library models the
-- contracts its parts exchange, the code that turns a request into a process, and the scripts that
-- check a device, a build and a release:
--
--   * runtime_contract.py (RuntimeContract): `RuntimeRequest` and `RuntimeStatus`, their validation
--     in `__post_init__` (post_init), their wire format (to_dict, from_dict, from_json) and the
--     builders `starting_status`, `running_status` and `failed_status`;
--   * bridge_protocol.py (BridgeProtocol): `Severity`, `EventEnvelope` and `EventAcknowledgement`,
--     with the expiry of events;
--   * proot_launch_spec.py (LaunchSpec): `LaunchBind` and `ProotLaunchSpec` with `validate`,
--     `serialize` and `build_proot_argv`, and their wire format (Writer, Reader);
--   * tools/etumax_bridge.py (EtumaxBridge): `run_bridge`, from the arguments of the command line to
--     the envelope and the exit code. It reads an event by BridgeProtocol, starts the diagnostic,
--     and checks its report;
--   * execution_backend.py (ExecutionBackend): requests and configurations (Config), the search for
--     executables and the end of a process (Machine), `execute` and `stop` over the table of running
--     processes (Running), the probes and the registry (Registry). A PRoot execution goes through
--     LaunchSpec;
--   * etroute.py (EtRoute): names and checksums (Names), binds, the bind policy of package mode and
--     the command line (Argv), `install_rootfs` (Install), and the commands `run`, `diagnose` and
--     `list` with the exit code of `main` (Commands);
--   * tools/first_activation_diagnostic.py (FirstActivation): the script that `diagnose` starts in
--     the guest. Its report is what EtumaxBridge reads (Bridge);
--   * etroute_p4a.py (P4aRecipe): the classifier over the files of a package (Classifier), the
--     planner (Planner), the generator of a recipe (Generator) and `resolve` (Backend);
--   * tools/verify_android_jni_build.py (JniBuild): the search for the built library (Library),
--     `verify_abi` and `main`;
--   * tools/android_device_validation.py (DeviceValidation): two runs of the bridge, `parse_uptime`
--     (Uptime), what is read of an envelope (Diagnostics), `evaluate` (Evaluate) and `main`;
--   * tools/verify_proot_s_mode.py (ProotSMode): the executable and its pins (Binary, Version), the
--     binds in its output (Records), their comparison as sets (PathSets), `audit` and `main`;
--   * tools/build_release.py (BuildRelease): the files of a release (Files), the digest of the tree
--     (Digest), the status file (Status) and `main` (Build).
--
-- Prelude holds the shared helpers: Boolean tests and lists over the native numbers, and results of
-- code that may raise, with `do` notation. Python holds what the sources use of the language and its
-- standard library: texts as lists of code points, lines and integers in texts, JSON values, dicts,
-- pure paths, and the checks that runtime_contract.py and bridge_protocol.py have in common
-- (Validators). Tests holds concrete runs.
--
-- An argument of a constructor that Python does not check has the type `Value`; a field behind
-- `__post_init__` has the type of what is stored there. An exception is a value of the type of
-- errors of its module; `Raised` adds the exceptions of Python itself, which no handler of the
-- module catches. A Python attribute that is read from outside is an argument: the fresh
-- identifiers and the time (Defaults, World), environment variables, the subprocess.
--
-- Parameters: `Runtime` is the interpreter (`repr`, ISO times, the Unicode tables beyond ASCII, the
-- JSON reader); `FileSystem` answers questions on paths, and `IsLawful` says of it what pathlib
-- documents: a resolved path is absolute and resolving it again changes nothing. `Machine` is the
-- operating system of a backend; `World` is that of a bridge run. `Site` is that of an
-- installation: its Booleans say which of the calls of `os.replace`, `write_atomic` and
-- `shutil.rmtree` succeed, each in its order. What `extractall` does to the containers is a part of
-- it too, since a member may go through a link of the archive; `IsConfined` (Install/Confined) says
-- of it that an archive without links stays in the destination. The directory for staging is taken
-- to be creatable, and it is not among the containers, since it is removed in any case; a backup
-- whose removal fails is taken to stay whole. An error of a rootfs or a manifest names the
-- environment where the code names the path. Paths that are only looked at hold no NUL.
--
-- The scripts have a host each: `Guest` for the diagnostic, `Project` and `Target` for the planner
-- and the generator, `Build`, the `Host` of a validation and that of an audit, `Judge` for the
-- interpreter of the validation, `Workshop` for a release, and `Console` for the commands. A field
-- that answers `none` stands for OSError, or for the exception that its comment names. A run of
-- the bridge whose arguments hold NUL or cannot be encoded, which an event can bring about, and a
-- recipe whose text cannot be encoded raise ValueError; the arguments of the other processes, which
-- come from a command line or a configuration, are taken to be texts that a process takes. Where a
-- script changes files, the files are a state of any type that is passed on. The archive of a
-- release is written by the `Workshop`. A digest is a function of the bytes.
--
-- The encoded size of JSON is computed from the value (Python/Json): the digits of a number are
-- counted on fuel, and a number is enough fuel for its own digits. `decimal` writes a number with
-- one step more than the number, which is more than it has digits. Numbers of Python are natural
-- numbers or integers without bounds, so nothing overflows but `to_bytes` and the time to live of an
-- event, which is added to a float. `int` refuses more than 4300 digits, as newer interpreters do;
-- the reader of JSON is a parameter. Times are whole microseconds, where the code uses floating point
-- seconds. A float is the text that `json.dumps` writes of it. `schema_version` 1.0, which Python
-- takes for 1, is taken wherever the code compares with `==`.
--
-- Executions and stops in several threads are steps on one table (Running/Reach): a process is
-- registered, its execution returns from `communicate`, or `stop` pops it, in any order.
--
-- Not modelled: `to_json`, whose text is what json.dumps writes of `to_dict`; the parsers of command
-- lines, logging and printing; `default_runtime_dir`; the metadata and the files of evidence that
-- the scripts write behind their verdict (`write_json_atomic`, the checksums of
-- android_device_validation.py); how `build_zip` fills an archive; the native, Kotlin and Java code,
-- and the tests.
pub mod BridgeProtocol
pub mod BuildRelease
pub mod DeviceValidation
pub mod EtRoute
pub mod EtumaxBridge
pub mod ExecutionBackend
pub mod FirstActivation
pub mod JniBuild
pub mod LaunchSpec
pub mod P4aRecipe
pub mod Prelude
pub mod ProotSMode
pub mod Python
pub mod RuntimeContract
pub mod Tests
