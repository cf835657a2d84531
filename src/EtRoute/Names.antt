-- ===== src/EtRoute/Names.antt =====
-- etroute.py: the names of environments, SHA-256 digests and rootfs shells.
pub mod Laws
use etroute.Prelude.{
  ℕ, Bool, true, false, not, ◌&&◌, ◌||◌, Option, none, some, List, [], ◌∷◌, ◌++◌, length, all,
  if◌then◌else◌, ◌==◌, ltb, leb, Result, ok, err, ◌>>=◌, ◌>>◌, raise_if,
}
use etroute.Python.Text.{Text, codes, strip, lower, text_eq}
use etroute.Python.Runtime.{Runtime}
use etroute.EtRoute.Errors.{
  Checked, error, bad_name, bad_sha256, checksum_mismatch, no_shell, cli, checksum, validation,
  raise,
}

abbrev between : ℕ → ℕ → ℕ → Bool
between low high c = leb low c && leb c high

-- `[A-Za-z0-9]`
unfoldable pub is_name_head : ℕ → Bool
is_name_head c = between b'A' b'Z' c || between b'a' b'z' c || between b'0' b'9' c

-- `[A-Za-z0-9._-]`
unfoldable pub is_name_char : ℕ → Bool
unfolding is_name_head
is_name_char c = is_name_head c || c == b'.' || c == b'_' || c == b'-'

-- `NAME_RE.fullmatch`
unfoldable pub is_environment_name : Text → Bool
is_environment_name [] = false
is_environment_name (c ∷ s) = is_name_head c && all is_name_char s && leb (length s) 63

-- `validate_name`
unfoldable pub validate_name : Text → Checked (Unit {0})
validate_name name = raise_if (not (is_environment_name name)) (error bad_name cli)

-- `[0-9a-f]`
unfoldable pub is_hex : ℕ → Bool
is_hex c = between b'0' b'9' c || between b'a' b'f' c

-- `SHA256_RE.fullmatch`
unfoldable pub is_sha256 : Text → Bool
is_sha256 s = all is_hex s && length s == 64

-- `normalize_sha256`
unfoldable pub normalize_sha256 : Runtime → Text → Checked Text
normalize_sha256 rt value = do
  let normalized = lower rt.lower_wide (strip value)
  raise_if (not (is_sha256 normalized)) (error bad_sha256 cli)
  ok normalized

-- `verify_checksum` of a file whose digest is `actual`
unfoldable pub verify_checksum : Runtime → Text → Text → Checked Text
verify_checksum rt actual value = do
  expected ← normalize_sha256 rt value
  raise_if (not (text_eq actual expected)) (error (checksum_mismatch expected actual) checksum)
  ok actual

-- `validate_rootfs`: the first shell that is a file of the rootfs.
unfoldable pub find_shell : (Text → Bool) → List Text → Option Text
find_shell is_file [] = none
find_shell is_file (shell ∷ shells) =
    if is_file shell then some (b'/' ∷ shell) else find_shell is_file shells

abbrev pub rootfs_shells : List Text
rootfs_shells = codes "bin/sh" ∷ codes "usr/bin/sh" ∷ codes "bin/bash" ∷ codes "usr/bin/bash" ∷ []

unfoldable pub validate_rootfs : (Text → Bool) → Text → Checked Text
unfolding find_shell
validate_rootfs is_file rootfs = elim (find_shell is_file rootfs_shells) [
  | none ↦ raise (no_shell rootfs) validation
  | some shell ↦ ok shell
]
