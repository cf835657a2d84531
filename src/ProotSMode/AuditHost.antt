-- ===== src/ProotSMode/AuditHost.antt =====
-- tools/verify_proot_s_mode.py: the host of an audit, its arguments, its report and its errors.
use etroute.Prelude.{ℕ, Bool, true, false, Option, List, [], ◌∷◌, ◌++◌, Result, ◌==◌}
use etroute.Python.Text.{Text, codes}
use etroute.Python.Value.{ℤ, pos}
use etroute.ProotSMode.Records.{BindRecord, Paths}

-- Why a `VerificationError` was raised; the number is its exit code.
pub data Reason : Type 0 where
  proot_not_found proot_not_a_file home_not_set no_guest_command rootfs_missing bad_sha256 : Reason
  invalid_regex : Reason
  wrong_sha256 wrong_version : Text → Reason
  command_timed_out command_not_started : List Text → Reason
  no_version_output no_bind_records : Reason
  probe_failed : ℤ → Text → Reason

pub data Failure : Type 0 where
  refused : ℕ → Reason → Failure
  -- OSError, from reading the executable
  os_error : Failure

abbrev pub Checked : Type 0 → Type 0
Checked = Result Failure

-- What `subprocess.run` does.
pub data Ran : Type 0 where
  completed : ℤ → Text → Text → Ran
  timed_out not_started : Ran

-- The host of the audit.
pub record Host : Type 0 where
  pub which : Text → Option Text
  -- `Path(text).resolve()`, and with `expanduser()`
  pub resolve : Text → Text
  pub resolve_user : Text → Text
  pub is_file : Text → Bool
  pub is_dir : Text → Bool
  pub exists : Text → Bool
  -- the SHA-256 of a file, or `none` for OSError
  pub sha256_file : Text → Option Text
  pub run : List Text → Ran
  pub home : Option Text
  pub paths : Paths
  -- `re.compile(text)`, or `none` for an invalid one, and then `search`
  pub compile : Text → Option (Text → Bool)
  -- the interpreter's tables beyond ASCII: `\w` and `str.lower`
  pub word_wide : ℕ → Bool
  pub lower_wide : Text → ℕ → Text → Text

pub record Arguments : Type 0 where
  pub rootfs : Text
  pub proot : Text
  pub expected_sha256 : Option Text
  pub expected_version_regex : Option Text
  -- the digit of `-v`
  pub verbosity : Text
  pub command : List Text

abbrev pub s_mode_relative_paths : List Text
s_mode_relative_paths =
    codes "/etc/host.conf"
    ∷ codes "/etc/hosts"
    ∷ codes "/etc/nsswitch.conf"
    ∷ codes "/etc/resolv.conf"
    ∷ codes "/dev"
    ∷ codes "/sys"
    ∷ codes "/proc"
    ∷ codes "/tmp"
    ∷ codes "/run/shm"
    ∷ codes "$HOME"
    ∷ []

pub record AuditReport : Type 0 where
  pub proot_binary : Text
  pub proot_binary_sha256 : Text
  pub proot_version_output : Text
  pub detected_version : Option Text
  pub version_pin_regex : Option Text
  pub expected_binary_sha256 : Option Text
  pub rootfs : Text
  pub command : List Text
  pub expected_existing_host_paths : List Text
  pub observed_host_paths : List Text
  pub observed_bind_records : List BindRecord
  pub ignored_rootfs_bind_records : List BindRecord
  pub missing_paths : List Text
  pub unexpected_paths : List Text
  pub matches : Bool

abbrev pub is_zero_code : ℤ → Bool
is_zero_code (pos n) = n == 0
is_zero_code _ = false

abbrev pub is_empty {ℓ} : {A : Type ℓ} → List A → Bool
is_empty [] = true
is_empty (x ∷ xs) = false

-- `"\n".join(part for part in (stdout, stderr) if part)`
abbrev pub joined : Text → Text → Text
joined [] errors = errors
joined (c ∷ out) [] = c ∷ out
joined (c ∷ out) (d ∷ errors) = (c ∷ out) ++ (10 ∷ d ∷ errors)
