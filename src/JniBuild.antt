-- ===== src/JniBuild.antt =====
-- tools/verify_android_jni_build.py: the libraries of the Android build, their machines and exports.
pub mod Laws
pub mod Library
use etroute.Prelude.{
  ℕ, zero, Bool, true, false, not, ◌&&◌, ◌||◌, Option, none, some, List, [], ◌∷◌, ◌++◌, all, any,
  map, Result, ok, err, ◌>>=◌, ◌>>◌, raise_if, ◌==◌, ltb, if◌then◌else◌,
}
use etroute.Python.Text.{Text, codes, strip}
use etroute.Python.Value.{
  Value, null, bool, int, pos, str, arr, obj, Items, nil, cons, Fields, end, field, of_optional,
  of_texts, put,
}
use etroute.Python.Dict.{Dict, find}
use etroute.Python.Lines.{occurs}
use etroute.JniBuild.Library.{
  lib_name, required_abis, expected_machine, required_symbols, Problem, not_found, os_error,
  empty_library, command_failed, no_machine_field, unknown_abi, unexpected_machine, missing_exports,
  Checked, Build, find_libraries, read_machine, read_dynamic_symbols,
}

-- `error` is the exception itself; the script keeps its text.
pub record AbiEvidence : Type 0 where
  pub abi : Text
  pub library : Option Text
  pub size_bytes : Option ℕ
  pub machine : Option Text
  pub machine_ok : Bool
  pub required_symbols : Option (List (Text × Bool))
  pub symbols_ok : Bool
  pub verified : Bool
  pub error : Option Problem

abbrev pub fresh_evidence : Text → AbiEvidence
fresh_evidence abi = record {
  abi = abi;
  library = none;
  size_bytes = none;
  machine = none;
  machine_ok = false;
  required_symbols = none;
  symbols_ok = false;
  verified = false;
  error = none;
}

-- `except Exception as exc`
abbrev pub failed : AbiEvidence → Problem → AbiEvidence
failed e problem = record e { error = some problem }

abbrev pub symbols_in : Text → List Text → List (Text × Bool)
symbols_in text [] = []
symbols_in text (symbol ∷ rest) = (symbol, occurs symbol text) ∷ symbols_in text rest

abbrev pub all_present : List (Text × Bool) → Bool
all_present = all λ entry. entry.1

unfoldable pub missing_of : List (Text × Bool) → List Text
missing_of [] = []
missing_of ((symbol, present) ∷ rest) =
    let missing = missing_of rest in if present then missing else symbol ∷ missing

-- The parts of `verify_abi`, each with what the call before it gave.
unfoldable pub with_symbols : AbiEvidence → Checked Text → AbiEvidence
unfolding occurs missing_of
with_symbols e (err problem) = failed e problem
with_symbols e (ok text) =
    let found = symbols_in text required_symbols in
    let seen = record e { required_symbols = some found; symbols_ok = all_present found } in
    if not (all_present found)
    then failed seen (missing_exports (missing_of found))
    else record seen { verified = true }

module _ (b : Build) (abi readelf nm : Text) where
  unfoldable pub with_expected : Text → AbiEvidence → Text → Option (List Text) → AbiEvidence
  unfolding occurs with_symbols read_dynamic_symbols
  with_expected library e machine none = failed e unknown_abi
  with_expected library e machine (some expected) =
      let machine_ok = any (λ token. occurs token machine) expected in
      let seen = record e { machine_ok = machine_ok } in
      let verified = with_symbols seen (read_dynamic_symbols b nm library) in
      if not machine_ok then failed seen (unexpected_machine machine) else verified

  unfoldable pub with_machine : Text → AbiEvidence → Checked Text → AbiEvidence
  unfolding with_expected find
  with_machine library e (err problem) = failed e problem
  with_machine library e (ok machine) =
      with_expected library (record e { machine = some machine }) machine
        (find abi expected_machine)

  unfoldable pub with_size : Text → AbiEvidence → Option ℕ → AbiEvidence
  unfolding with_machine read_machine
  with_size library e none = failed e os_error
  with_size library e (some size) =
      let sized = record e { size_bytes = some size } in
      let verified = with_machine library sized (read_machine b readelf library) in
      if size == 0 then failed sized empty_library else verified

  unfoldable pub with_matches : AbiEvidence → List Text → AbiEvidence
  unfolding with_size
  with_matches e [] = failed e not_found
  with_matches e (library ∷ rest) =
      with_size library (record e { library = some (b.resolve library) }) (b.size_of library)

  unfoldable pub verify_abi : Text → AbiEvidence
  unfolding with_matches find_libraries
  verify_abi build_root = with_matches (fresh_evidence abi) (find_libraries b build_root abi)

-- `shutil.which` for the first candidate that has one; an empty answer counts as none.
unfoldable pub find_tool : Build → List Text → Option Text
find_tool b [] = none
find_tool b (candidate ∷ rest) = elim (b.which candidate) [
  | none ↦ find_tool b rest
  | some path ↦ elim path [ [] ↦ find_tool b rest | c ∷ s ↦ some (c ∷ s) ]
]

abbrev status_verified : Text
status_verified = codes "JNI_NDK_BUILD_VERIFIED"

abbrev status_failed : Text
status_failed = codes "FAILED"

-- What `main` writes of the evidence, and its exit code: the status, and the evidence of each ABI.
pub record Verification : Type 0 where
  pub status : Text
  pub tools_missing : Bool
  pub abis : List AbiEvidence
  pub exit_code : ℕ

abbrev without_tools : Verification
without_tools = record { status = status_failed; tools_missing = true; abis = []; exit_code = 2 }

abbrev pub verdict : List AbiEvidence → Verification
verdict evidence =
    let verified = all (λ (e : AbiEvidence). e.verified) evidence in
    record {
      status = if verified then status_verified else status_failed;
      tools_missing = false;
      abis = evidence;
      exit_code = if verified then 0 else 1;
    }

unfoldable pub with_tools : Build → Text → Option Text → Option Text → Verification
unfolding verify_abi
with_tools b build_root none nm = without_tools
with_tools b build_root (some readelf) none = without_tools
with_tools b build_root (some readelf) (some nm) =
    verdict (map (λ abi. verify_abi b abi readelf nm build_root) required_abis)

unfoldable pub main : Build → Text → Verification
unfolding find_tool with_tools
main b build_root =
    with_tools b build_root (find_tool b (codes "llvm-readelf" ∷ codes "readelf" ∷ []))
      (find_tool b (codes "llvm-nm" ∷ codes "nm" ∷ []))
