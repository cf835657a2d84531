-- ===== src/LaunchSpec.antt =====
-- proot_launch_spec.py: the PRoot launch specification, its validation and its command line.
pub mod Binds
pub mod Environment
pub mod Valid
pub mod Argv
pub mod Writer
pub mod Reader
use etroute.Prelude.{
  ℕ, ◌≡◌, Bool, true, false, not, ◌&&◌, ◌||◌, Option, none, some, List, [], ◌∷◌, ◌++◌, any, length,
  if◌then◌else◌, ◌==◌, Result, ok, err, ◌>>=◌, ◌>>◌, raise_if,
}
use etroute.Python.Text.{Text, codes, text_eq, strip, has}
use etroute.Python.Value.{contains}
use etroute.Python.PurePath.{parse, show, is_absolute, has_parent_part}
use etroute.Python.FileSystem.{FileSystem, child}

pub data LaunchError : Type 0 where
  unsupported_schema : ℕ → LaunchError
  bind_source_missing bind_destination_unsafe : Text → LaunchError
  rootfs_missing rootfs_without_shell : Text → LaunchError
  empty_command working_directory_unsafe : LaunchError
  duplicate_guest : Text → LaunchError
  invalid_environment_key : Text → LaunchError

abbrev pub Checked : Type 0 → Type 0
Checked = Result LaunchError

pub record LaunchBind : Type 0 where
  pub host : Text
  pub guest : Text
  pub no_dereference : Bool

pub record ProotLaunchSpec : Type 0 where
  pub rootfs : Text
  pub command : List Text
  pub binds : List LaunchBind
  pub root_id : Bool
  pub kill_on_exit : Bool
  pub kernel_release : Option Text
  pub guest_working_directory : Option Text
  pub environment : List (Text × Text)
  pub schema_version : ℕ

-- `path.is_absolute() and ".." not in path.parts`, of the path with this text
unfoldable pub is_safe_guest : Text → Bool
is_safe_guest t = is_absolute (parse t) && not (has_parent_part (parse t))

-- `LaunchBind.validate`
unfoldable pub validate_bind : FileSystem → LaunchBind → Checked LaunchBind
validate_bind fs b = do
  let host = fs.resolve b.host
  raise_if (not (fs.exists host)) (bind_source_missing host)
  raise_if (not (is_safe_guest b.guest)) (bind_destination_unsafe b.guest)
  ok (record { host = host; guest = show (parse b.guest); no_dereference = b.no_dereference })

-- The f-string of `serialize`.
unfoldable pub bind_text : LaunchBind → Text
bind_text b = b.host ++ (b':' ∷ (b.guest ++ (if b.no_dereference then codes "!" else [])))

-- `LaunchBind.serialize`
unfoldable pub serialize : FileSystem → LaunchBind → Checked Text
serialize fs b = do validated ← validate_bind fs b; ok (bind_text validated)

abbrev pub shells : List Text
shells = codes "bin/sh" ∷ codes "usr/bin/sh" ∷ codes "bin/bash" ∷ codes "usr/bin/bash" ∷ []

unfoldable pub has_shell : FileSystem → Text → Bool
has_shell fs rootfs = any (λ candidate. fs.is_file (child rootfs candidate)) shells

-- `not self.command or not str(self.command[0]).strip()`
unfoldable pub is_blank_command : List Text → Bool
unfolding strip
is_blank_command [] = true
is_blank_command (part ∷ parts) = length (strip part) == 0

unfoldable pub is_unsafe_directory : Option Text → Bool
is_unsafe_directory none = false
is_unsafe_directory (some cwd) = not (is_safe_guest cwd)

-- The loop over the binds.
unfoldable pub validate_binds : FileSystem → List Text → List LaunchBind → Checked (List LaunchBind)
validate_binds fs seen_guests [] = ok []
validate_binds fs seen_guests (bind ∷ binds) = do
  normalized ← validate_bind fs bind
  raise_if (contains seen_guests normalized.guest) (duplicate_guest normalized.guest)
  rest ← validate_binds fs (normalized.guest ∷ seen_guests) binds
  ok (normalized ∷ rest)

-- `normalized_env[key] = value`: a key that is there keeps its place.
unfoldable pub set_key : Text → Text → List (Text × Text) → List (Text × Text)
unfolding text_eq
set_key key value [] = (key, value) ∷ []
set_key key value ((k, v) ∷ env) =
    if text_eq k key then (k, value) ∷ env else (k, v) ∷ set_key key value env

unfoldable pub is_bad_key : Text → Bool
unfolding has
is_bad_key key = length key == 0 || has b'=' key || has 0 key

-- The loop over the environment.
unfoldable pub normalize_env :
    List (Text × Text) → List (Text × Text) → Checked (List (Text × Text))
unfolding set_key
normalize_env [] normalized = ok normalized
normalize_env ((key, value) ∷ env) normalized = do
  raise_if (is_bad_key (strip key)) (invalid_environment_key (strip key))
  normalize_env env (set_key (strip key) value normalized)

-- `str(kernel_release).strip() if kernel_release else None`
unfoldable pub normalize_release : Option Text → Option Text
normalize_release none = none
normalize_release (some []) = none
normalize_release (some (c ∷ s)) = some (strip (c ∷ s))

-- `ProotLaunchSpec.validate`
unfoldable pub validate : FileSystem → ProotLaunchSpec → Checked ProotLaunchSpec
validate fs s = do
  raise_if (not (s.schema_version == 1)) (unsupported_schema s.schema_version)
  let rootfs = fs.resolve s.rootfs
  raise_if (not (fs.is_dir rootfs)) (rootfs_missing rootfs)
  raise_if (not (has_shell fs rootfs)) (rootfs_without_shell rootfs)
  raise_if (is_blank_command s.command) empty_command
  raise_if (is_unsafe_directory s.guest_working_directory) working_directory_unsafe
  binds ← validate_binds fs [] s.binds
  environment ← normalize_env s.environment []
  ok (record {
    rootfs = rootfs;
    command = s.command;
    binds = binds;
    root_id = s.root_id;
    kill_on_exit = s.kill_on_exit;
    kernel_release = normalize_release s.kernel_release;
    guest_working_directory = s.guest_working_directory;
    environment = environment;
    schema_version = 1;
  })

-- `if text: argv += [...]` for an optional text: the empty text is as good as none.
unfoldable pub if_text : Option Text → (Text → List Text) → List Text
if_text none f = []
if_text (some []) f = []
if_text (some (c ∷ s)) f = f (c ∷ s)

unfoldable pub bind_arguments : FileSystem → List LaunchBind → Checked (List Text)
bind_arguments fs [] = ok []
bind_arguments fs (bind ∷ binds) = do
  text ← serialize fs bind
  rest ← bind_arguments fs binds
  ok (codes "--bind" ∷ text ∷ rest)

-- `build_proot_argv`
unfoldable pub build_proot_argv : FileSystem → Text → ProotLaunchSpec → Bool → Checked (List Text)
unfolding if_text
build_proot_argv fs proot_binary spec supports_kill_on_exit = do
  validated ← validate fs spec
  binds ← bind_arguments fs validated.binds
  ok (
      (proot_binary ∷ codes "--rootfs" ∷ validated.rootfs ∷ [])
      ++ ((if validated.root_id then codes "--root-id" ∷ [] else [])
          ++ (if_text validated.kernel_release
                (λ release. (codes "--kernel-release=" ++ release) ∷ [])
              ++ ((if validated.kill_on_exit && supports_kill_on_exit
                    then codes "--kill-on-exit" ∷ []
                    else [])
                  ++ (binds
                      ++ (if_text validated.guest_working_directory
                            (λ cwd. codes "--cwd" ∷ cwd ∷ [])
                          ++ (codes "--" ∷ validated.command)))))))
