-- ===== src/EtRoute/Argv.antt =====
-- etroute.py: binds, the bind policy of package mode, and the command line of PRoot.
pub mod Policy
use etroute.Prelude.{
  ℕ, Bool, true, false, not, Option, none, some, List, [], ◌∷◌, ◌++◌, if◌then◌else◌, ◌==◌, Result,
  ok, err, ◌>>=◌, ◌>>◌, raise_if, any,
}
use etroute.Python.Text.{Text, codes, text_eq, has}
use etroute.Python.Value.{contains}
use etroute.Python.PurePath.{parse, show}
use etroute.Python.FileSystem.{FileSystem}
use etroute.LaunchSpec.{is_safe_guest, if_text}
use etroute.EtRoute.Errors.{
  Checked, error, raise, source_missing, destination_unsafe, forbidden_guest, duplicate_guest,
  no_separator, no_home, rootfs_missing, cli, validation,
}

pub data ExecutionMode : Type 0 where
  package_mode login_root login_user : ExecutionMode

pub record BindMount : Type 0 where
  pub host : Text
  pub guest : Text
  pub no_dereference : Bool

-- `BindMount.validate`
unfoldable pub validate_mount : FileSystem → BindMount → Checked BindMount
validate_mount fs b = do
  let host = fs.resolve b.host
  raise_if (not (fs.exists host)) (error (source_missing host) validation)
  raise_if (not (is_safe_guest b.guest)) (error (destination_unsafe b.guest) validation)
  ok (record { host = host; guest = show (parse b.guest); no_dereference = b.no_dereference })

abbrev pub mount_text : BindMount → Text
mount_text b = b.host ++ (b':' ∷ (b.guest ++ (if b.no_dereference then codes "!" else [])))

-- `BindMount.serialize`
unfoldable pub serialize_mount : FileSystem → BindMount → Checked Text
serialize_mount fs b = do validated ← validate_mount fs b; ok (mount_text validated)

-- `spec.split(":", 1)`: the text before the first colon and the text behind it.
abbrev longer : ℕ → Option (Text × Text) → Option (Text × Text)
longer c none = none
longer c (some (host, guest)) = some (c ∷ host, guest)

unfoldable pub split_once : Text → Option (Text × Text)
split_once [] = none
split_once (c ∷ s) = let rest = split_once s in if c == b':' then some ([], s) else longer c rest

-- `guest.endswith("!")` with `guest[:-1]`
unfoldable pub without_mark : Text → Option Text
without_mark [] = none
without_mark (c ∷ []) = if c == b'!' then some [] else none
without_mark (c ∷ (d ∷ s)) = elim (without_mark (d ∷ s)) [ none ↦ none | some t ↦ some (c ∷ t) ]

abbrev pub marked_mount : Text → Text → Option Text → BindMount
marked_mount host guest none = record { host = host; guest = guest; no_dereference = false }
marked_mount host guest (some g) = record { host = host; guest = g; no_dereference = true }

abbrev pub mount_of : Text → Text → BindMount
mount_of host guest = marked_mount host guest (without_mark guest)

-- `parse_bind`; `":" not in spec` is the case that `split_once` finds no colon.
abbrev pub parse_split : FileSystem → Option (Text × Text) → Checked BindMount
parse_split fs none = raise no_separator cli
parse_split fs (some (host, guest)) = validate_mount fs (mount_of host guest)

unfoldable pub parse_bind : FileSystem → Text → Checked BindMount
unfolding split_once
parse_bind fs spec = parse_split fs (split_once spec)

abbrev s_mode_paths : List Text
s_mode_paths =
    codes "/etc/host.conf"
    ∷ codes "/etc/hosts"
    ∷ codes "/etc/nsswitch.conf"
    ∷ codes "/etc/resolv.conf"
    ∷ codes "/dev"
    ∷ codes "/sys"
    ∷ codes "/proc"
    ∷ codes "/tmp"
    ∷ codes "/run/shm"
    ∷ codes "$HOME"
    ∷ []

abbrev host_text : Text → Text → Text
host_text home raw = if text_eq raw (codes "$HOME") then home else raw

-- The loop of `package_policy_binds`.
unfoldable pub policy_mounts : FileSystem → Text → List Text → Checked (List BindMount)
unfolding text_eq
policy_mounts fs home [] = ok []
policy_mounts fs home (raw ∷ raws) =
    let host = host_text home raw in
    elim (fs.exists host) [
      | false ↦ policy_mounts fs home raws
      | true ↦ do
        mount ← validate_mount fs (record { host = host; guest = host; no_dereference = false })
        rest ← policy_mounts fs home raws
        ok (mount ∷ rest)
    ]

-- `package_policy_binds`, for the value of HOME in the environment
unfoldable pub package_policy_binds : FileSystem → Option Text → Checked (List BindMount)
unfolding policy_mounts
package_policy_binds fs none = raise no_home validation
package_policy_binds fs (some []) = raise no_home validation
package_policy_binds fs (some (c ∷ s)) = policy_mounts fs (c ∷ s) s_mode_paths

abbrev pub forbidden_guests : List Text
forbidden_guests =
    codes "/etc/passwd" ∷ codes "/etc/group" ∷ codes "/etc/shadow" ∷ codes "/etc/gshadow" ∷ []

-- `validate_package_extra_binds`
unfoldable pub validate_package_extra_binds : List BindMount → Checked (Unit {0})
validate_package_extra_binds [] = ok tt
validate_package_extra_binds (bind ∷ binds) = do
  let guest = show (parse bind.guest)
  raise_if (contains forbidden_guests guest) (error (forbidden_guest guest) validation)
  validate_package_extra_binds binds

unfoldable pub effective_binds :
    FileSystem → Option Text → ExecutionMode → List BindMount → Checked (List BindMount)
effective_binds fs home package_mode binds = do
  checked ← validate_package_extra_binds binds
  policy ← package_policy_binds fs home
  ok (policy ++ binds)
effective_binds fs home login_root binds = ok binds
effective_binds fs home login_user binds = ok binds

unfoldable pub is_login_user : ExecutionMode → Bool
is_login_user package_mode = false
is_login_user login_root = false
is_login_user login_user = true

-- The loop over the binds: `--bind` with the text of each.
unfoldable pub bind_options : FileSystem → List Text → List BindMount → Checked (List Text)
bind_options fs seen_guests [] = ok []
bind_options fs seen_guests (bind ∷ binds) = do
  validated ← validate_mount fs bind
  raise_if (contains seen_guests validated.guest)
      (error (duplicate_guest validated.guest) validation)
  text ← serialize_mount fs validated
  rest ← bind_options fs (validated.guest ∷ seen_guests) binds
  ok (codes "--bind" ∷ text ∷ rest)

-- `command or ["/bin/sh"]`
abbrev or_shell : List Text → List Text
or_shell [] = codes "/bin/sh" ∷ []
or_shell (c ∷ cs) = c ∷ cs

-- `build_proot_argv`
unfoldable pub build_proot_argv :
    FileSystem
    → Option Text
    → Text
    → ExecutionMode
    → List BindMount
    → List Text
    → Option Text
    → Text
    → Bool
    → Checked (List Text)
unfolding is_login_user if_text
build_proot_argv fs home rootfs_text mode binds command kernel_release proot_binary kill_on_exit =
    do
      let rootfs = fs.resolve rootfs_text
      raise_if (not (fs.is_dir rootfs)) (error (rootfs_missing rootfs) validation)
      effective ← effective_binds fs home mode binds
      options ← bind_options fs [] effective
      ok (
          (proot_binary ∷ codes "--rootfs" ∷ rootfs ∷ [])
          ++ (if_text kernel_release (λ release. (codes "--kernel-release=" ++ release) ∷ [])
              ++ ((if kill_on_exit then codes "--kill-on-exit" ∷ [] else [])
                  ++ ((if is_login_user mode then [] else codes "--root-id" ∷ [])
                      ++ (options ++ (codes "--" ∷ or_shell command))))))
