-- ===== src/EtRoute/Errors.antt =====
-- etroute.py: `ETRouteError` with its exit code.
use etroute.Prelude.{ℕ, Result, err}
use etroute.Python.Text.{Text}

-- Why an `ETRouteError` was raised.
pub data Reason : Type 0 where
  bad_name bad_sha256 no_separator no_home : Reason
  script_missing source_missing destination_unsafe forbidden_guest duplicate_guest : Text → Reason
  checksum_mismatch : Text → Text → Reason
  member_escapes member_is_device : Text → Reason
  not_extracted no_shell rootfs_missing no_tarball bad_manifest : Text → Reason
  already_exists : Text → Reason
  command_required proot_missing : Reason

pub record EtRouteError : Type 0 where
  pub reason : Reason
  pub code : ℕ

-- `ExitCode`
abbrev pub cli : ℕ
cli = 2

abbrev pub checksum : ℕ
checksum = 3

abbrev pub dependency : ℕ
dependency = 4

abbrev pub filesystem : ℕ
filesystem = 5

abbrev pub conflict : ℕ
conflict = 6

abbrev pub validation : ℕ
validation = 7

abbrev pub Checked : Type 0 → Type 0
Checked = Result EtRouteError

abbrev pub error : Reason → ℕ → EtRouteError
error reason code = record { reason = reason; code = code }

abbrev pub raise : {A : Type 0} → Reason → ℕ → Checked A
raise reason code = err (error reason code)
