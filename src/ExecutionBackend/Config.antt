-- ===== src/ExecutionBackend/Config.antt =====
-- execution_backend.py: `ExecutionRequest`, `RootfsBind` and `ProotConfig`, up to the launch
-- specification.
pub mod Launch
use etroute.Prelude.{
  ◌≡◌, Bool, false, not, Option, none, some, List, [], ◌∷◌, length, ◌==◌, Result, ok, err, ◌>>=◌,
  ◌>>◌, raise_if, map_err, ◌++◌, if◌then◌else◌, map_all,
}
use etroute.Python.Text.{Text, codes, strip}
use etroute.Python.PurePath.{parse, show}
use etroute.Python.FileSystem.{FileSystem}
use etroute.LaunchSpec.{
  LaunchError, LaunchBind, ProotLaunchSpec, is_safe_guest, has_shell, is_unsafe_directory, validate,
  build_proot_argv,
}

-- The ValueErrors and the FileNotFoundErrors of the module.
pub data BackendError : Type 0 where
  executable_blank working_directory_unsafe : BackendError
  directory_missing rootfs_missing rootfs_without_shell : Text → BackendError
  source_missing destination_unsafe : Text → BackendError
  executable_not_found proot_not_found : Text → BackendError
  launch_spec : LaunchError → BackendError

abbrev pub Checked : Type 0 → Type 0
Checked = Result BackendError

pub record ExecutionRequest : Type 0 where
  pub executable : Text
  pub arguments : List Text
  pub working_directory : Option Text
  pub environment : List (Text × Text)

pub record RootfsBind : Type 0 where
  pub host : Text
  pub guest : Text
  pub no_dereference : Bool

pub record ProotConfig : Type 0 where
  pub rootfs : Text
  pub proot_binary : Text
  pub binds : List RootfsBind
  pub root_id : Bool
  pub kill_on_exit : Bool
  pub kernel_release : Option Text
  pub guest_working_directory : Option Text

unfoldable pub is_missing : FileSystem → Option Text → Bool
is_missing fs none = false
is_missing fs (some directory) = not (fs.is_dir directory)

abbrev or_empty_text : Option Text → Text
or_empty_text none = []
or_empty_text (some t) = t

-- `ExecutionRequest.validate`
unfoldable pub validate_request : FileSystem → ExecutionRequest → Checked ExecutionRequest
unfolding strip is_missing
validate_request fs r = do
  raise_if (length (strip r.executable) == 0) executable_blank
  raise_if (is_missing fs r.working_directory)
      (directory_missing (or_empty_text r.working_directory))
  ok r

-- `RootfsBind.validate`
unfoldable pub validate_rootfs_bind : FileSystem → RootfsBind → Checked RootfsBind
validate_rootfs_bind fs b = do
  let host = fs.resolve b.host
  raise_if (not (fs.exists host)) (source_missing host)
  raise_if (not (is_safe_guest b.guest)) (destination_unsafe b.guest)
  ok (record { host = host; guest = show (parse b.guest); no_dereference = b.no_dereference })

-- `RootfsBind.serialize`
unfoldable serialize_rootfs_bind : FileSystem → RootfsBind → Checked Text
serialize_rootfs_bind fs b = do
  validated ← validate_rootfs_bind fs b
  ok (
      validated.host
      ++ (b':' ∷ (validated.guest ++ (if validated.no_dereference then codes "!" else []))))

-- `RootfsBind.to_launch_bind`
unfoldable pub to_launch_bind : FileSystem → RootfsBind → Checked LaunchBind
to_launch_bind fs b = do
  validated ← validate_rootfs_bind fs b
  ok (record {
    host = validated.host;
    guest = validated.guest;
    no_dereference = validated.no_dereference;
  })

-- `for bind in self.binds: bind.validate()`: what it returns is dropped.
unfoldable pub check_binds : FileSystem → List RootfsBind → Checked (Unit {0})
check_binds fs [] = ok tt
check_binds fs (bind ∷ binds) = do validated ← validate_rootfs_bind fs bind; check_binds fs binds

-- `ProotConfig.validate`
unfoldable pub validate_config : FileSystem → ProotConfig → Checked ProotConfig
validate_config fs c = do
  let rootfs = fs.resolve c.rootfs
  raise_if (not (fs.is_dir rootfs)) (rootfs_missing rootfs)
  raise_if (not (has_shell fs rootfs)) (rootfs_without_shell rootfs)
  raise_if (is_unsafe_directory c.guest_working_directory) working_directory_unsafe
  checked ← check_binds fs c.binds
  ok (record c { rootfs = rootfs })

-- The generator expression of `to_launch_spec`.
unfoldable pub launch_binds : FileSystem → List RootfsBind → Checked (List LaunchBind)
launch_binds fs [] = ok []
launch_binds fs (bind ∷ binds) = do
  launch_bind ← to_launch_bind fs bind
  rest ← launch_binds fs binds
  ok (launch_bind ∷ rest)

-- `ProotConfig.to_launch_spec`
unfoldable pub to_launch_spec :
    FileSystem → ProotConfig → ExecutionRequest → Checked ProotLaunchSpec
to_launch_spec fs c r = do
  config ← validate_config fs c
  request ← validate_request fs r
  binds ← launch_binds fs config.binds
  map_err launch_spec (
      validate fs (record {
        rootfs = config.rootfs;
        command = request.executable ∷ request.arguments;
        binds = binds;
        root_id = config.root_id;
        kill_on_exit = config.kill_on_exit;
        kernel_release = config.kernel_release;
        guest_working_directory = config.guest_working_directory;
        environment = request.environment;
        schema_version = 1;
      }))

-- `ProotBackend._build_argv`
unfoldable pub build_argv :
    FileSystem → ProotConfig → Text → Bool → ExecutionRequest → Checked (List Text)
build_argv fs config resolved_binary supports_kill_on_exit request = do
  spec ← to_launch_spec fs config request
  map_err launch_spec (build_proot_argv fs resolved_binary spec supports_kill_on_exit)
