-- ===== src/BuildRelease/Build.antt =====
-- tools/build_release.py: `main`, with the archive as a change of the state `S` of the host.
pub mod Gate
use etroute.Prelude.{
  ℕ, Bool, true, false, not, ◌&&◌, Option, none, some, List, [], ◌∷◌, length, map_all, Result, ok,
  err, ◌>>=◌, ◌>>◌, raise_if, if◌then◌else◌, ◌==◌,
}
use etroute.Python.Text.{Text, codes}
use etroute.Python.Value.{ℤ, pos, Value, null, str, obj, end, get, or_default}
use etroute.Python.Lines.{splitlines}
use etroute.Python.Int.{le_ℤ}
use etroute.BuildRelease.Files.{included_files}
use etroute.BuildRelease.Digest.{Bytes, File, Overflow, tree_digest}
use etroute.BuildRelease.Status.{
  Escape, status_required, invalid_status, attribute_error, overflow_error, os_error, encode_error,
  module_missing, module_invalid, tests_failed, too_few_tests, Checked, Interpreter,
  minimum_test_count, get_or, android_status, test_count,
}

abbrev pub required_modules : List Text
required_modules =
    codes "etroute.py"
    ∷ codes "tools/first_activation_diagnostic.py"
    ∷ codes "tools/etumax_bridge.py"
    ∷ codes "tools/build_release.py"
    ∷ codes "tools/android_device_validation.py"
    ∷ codes "tools/verify_android_jni_build.py"
    ∷ []

-- The tree below the root, by the texts of the relative paths, the subprocess of the tests and the
-- archive. `none` is OSError, where nothing else is said.
pub record Workshop (S : Type 0) : Type 0 where
  pub interpreter : Interpreter
  pub is_file : Text → Bool
  -- `json.loads` of the text of ETROUTE_STATUS.json, or `none` for an exception
  pub load_status : Option Value
  -- `py_compile.compile(..., doraise=True)` returns
  pub compiles : Text → Bool
  -- the exit code of the tests and their output
  pub run_tests : Option (ℤ × Text)
  pub below : List Text
  pub read_bytes : Text → Option Bytes
  -- `text.encode("utf-8")`, or `none` for UnicodeEncodeError
  pub encode : Text → Option Bytes
  -- `build_zip` with these files, and the SHA-256 and the size of the archive
  pub build_zip : S → List Text → Option S
  pub artifact : S → Option (Text × ℕ)
  pub sha256 : Bytes → Text
  -- `manifest_path.write_text` and the directory before it
  pub write_manifest : S → Option S

pub record Manifest : Type 0 where
  pub release : Value
  pub artifact_sha256 : Text
  pub artifact_size : ℕ
  pub source_sha256 : Text
  pub included_file_count : ℕ
  pub compiled_modules : List Text
  pub unit_tests_passed : ℤ
  pub native_build_status : Value
  pub jni_build_status : Value
  pub android_device_status : Text

abbrev pub or_raise : {A : Type 0} → Escape → Option A → Checked A
or_raise e none = err e
or_raise e (some a) = ok a

abbrev or_overflow : {A : Type 0} → Result Overflow A → Checked A
or_overflow (ok a) = ok a
or_overflow (err e) = err overflow_error

abbrev pub is_zero_code : ℤ → Bool
is_zero_code (pos n) = n == 0
is_zero_code _ = false

module _ {S : Type 0} (w : Workshop S) where
  unfoldable pub compile_modules : List Text → Checked (Unit {0})
  compile_modules [] = ok tt
  compile_modules (relative ∷ rest) = do
    raise_if (not (w.is_file relative)) (module_missing relative)
    raise_if (not (w.compiles relative)) (module_invalid relative)
    compile_modules rest

  unfoldable pub run_tests : Checked ℤ
  unfolding test_count splitlines
  run_tests = do
    (code, output) ← or_raise os_error w.run_tests
    raise_if (not (is_zero_code code)) (tests_failed output)
    ok (test_count w.interpreter (pos 0) (splitlines output))

  -- All that `main` does before it touches the archive: the status and the number of tests.
  unfoldable pub gate : Checked (Value × ℤ)
  unfolding compile_modules run_tests minimum_test_count le_ℤ
  gate = do
    raise_if (not (w.is_file (codes "ETROUTE_STATUS.json"))) status_required
    status ← or_raise invalid_status w.load_status
    compiled ← compile_modules required_modules
    count ← run_tests
    minimum ← minimum_test_count w.interpreter status
    raise_if (not (le_ℤ minimum count)) (too_few_tests minimum count)
    ok (status, count)

  unfoldable file_of : Text → Checked File
  file_of path = do
    name ← or_raise encode_error (w.encode path)
    data_bytes ← or_raise os_error (w.read_bytes path)
    ok (record { name = name; data_bytes = data_bytes })

  unfoldable source_digest : List Text → Checked Text
  unfolding file_of tree_digest
  source_digest paths = do files ← map_all file_of paths; or_overflow (tree_digest w.sha256 files)

  unfoldable pub manifest_of : Value → ℤ → List Text → Text → Text × ℕ → Checked Manifest
  unfolding get android_status
  manifest_of status count files digest (artifact_sha, size) = do
    release ← get_or status (codes "release") null
    supervisor ← get_or status (codes "native_supervisor") (obj end)
    native_status ← get_or supervisor (codes "status") (str (codes "UNKNOWN"))
    validation ← get_or status (codes "android_build_validation") (obj end)
    jni_status ← get_or validation (codes "status") (str (codes "UNKNOWN"))
    android ← android_status w.interpreter status
    ok (record {
      release = release;
      artifact_sha256 = artifact_sha;
      artifact_size = size;
      source_sha256 = digest;
      included_file_count = length files;
      compiled_modules = required_modules;
      unit_tests_passed = count;
      native_build_status = native_status;
      jni_build_status = jni_status;
      android_device_status = android;
    })

  abbrev wrote : S → Manifest → Option S → S × Checked Manifest
  wrote s m none = (s, err os_error)
  wrote s m (some after) = (after, ok m)

  abbrev described : S → Checked Manifest → S × Checked Manifest
  described s (err e) = (s, err e)
  described s (ok m) = wrote s m (w.write_manifest s)

  abbrev zipped : S → Value → ℤ → List Text → Text → Option S → S × Checked Manifest
  zipped s status count files digest none = (s, err os_error)
  zipped s status count files digest (some after) = described after (do
    artifact ← or_raise os_error (w.artifact after)
    manifest_of status count files digest artifact)

  abbrev digested : S → Value → ℤ → List Text → Checked Text → S × Checked Manifest
  digested s status count files (err e) = (s, err e)
  digested s status count files (ok digest) =
      zipped s status count files digest (w.build_zip s files)

  -- The part of `main` behind the gate.
  unfoldable pub publish : S → Value → ℤ → S × Checked Manifest
  unfolding included_files source_digest manifest_of
  publish s status count =
      let files = included_files w.is_file w.below in
      digested s status count files (source_digest files)

  unfoldable pub passed : S → Checked (Value × ℤ) → S × Checked Manifest
  unfolding publish
  passed s (err e) = (s, err e)
  passed s (ok (status, count)) = publish s status count

  unfoldable pub main : S → S × Checked Manifest
  unfolding gate passed
  main s = passed s gate
