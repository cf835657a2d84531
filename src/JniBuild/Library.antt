-- ===== src/JniBuild/Library.antt =====
-- tools/verify_android_jni_build.py: the search for a library, and what readelf and nm print of it.
pub mod Order
use etroute.Prelude.{
  ℕ, zero, suc, ◌≡◌, refl, Bool, true, false, not, ◌&&◌, ◌||◌, Option, none, some, List, [], ◌∷◌,
  any, length, Result, ok, err, ◌>>=◌, ◌>>◌, raise_if, ltb, leb, ◌==◌, if◌then◌else◌,
}
use etroute.Python.Text.{Text, codes, text_eq, starts_with, strip}
use etroute.Python.Value.{ℤ, pos, negsuc, contains}
use etroute.Python.Dict.{Dict}
use etroute.Python.PurePath.{parse}
use etroute.Python.Lines.{occurs, splitlines, partition}

abbrev pub lib_name : Text
lib_name = codes "libetroute_native_supervisor.so"

abbrev pub required_abis : List Text
required_abis = codes "arm64-v8a" ∷ codes "x86_64" ∷ []

abbrev pub expected_machine : Dict (List Text)
expected_machine =
    (codes "arm64-v8a", codes "AArch64" ∷ [])
    ∷ (
      codes "x86_64",
      codes "Advanced Micro Devices X86-64" ∷ codes "AMD x86-64" ∷ codes "X86-64" ∷ [],
    )
    ∷ []

abbrev pub required_symbols : List Text
required_symbols =
    codes "Java_org_nemack_universalfilelab_etroute_JniNativeSupervisor_nativeAbiVersion"
    ∷ codes "Java_org_nemack_universalfilelab_etroute_JniNativeSupervisor_nativeRun"
    ∷ []

-- The exceptions of `verify_abi`.
pub data Problem : Type 0 where
  not_found empty_library os_error no_machine_field unknown_abi : Problem
  command_failed : ℤ → Text → Problem
  unexpected_machine : Text → Problem
  missing_exports : List Text → Problem

abbrev pub Checked : Type 0 → Type 0
Checked = Result Problem

-- The build tree and the tools. A path is its text; `none` is OSError.
pub record Build : Type 0 where
  -- `root.rglob(name)`
  pub named : Text → Text → List Text
  pub resolve : Text → Text
  -- `path.stat().st_size`
  pub size_of : Text → Option ℕ
  -- `shutil.which(name)`
  pub which : Text → Option Text
  -- `subprocess.run(command)`: the exit code, and stdout and stderr in one text
  pub run : List Text → Option (ℤ × Text)

abbrev of_run : Option (ℤ × Text) → Checked Text
of_run none = err os_error
of_run (some (pos zero, out)) = ok out
of_run (some (pos (suc n), out)) = err (command_failed (pos (suc n)) out)
of_run (some (negsuc n, out)) = err (command_failed (negsuc n) out)

unfoldable pub run_text : Build → List Text → Checked Text
run_text b command = of_run (b.run command)

unfoldable pub read_dynamic_symbols : Build → Text → Text → Checked Text
unfolding run_text
read_dynamic_symbols b nm library =
    run_text b (nm ∷ codes "-D" ∷ codes "--defined-only" ∷ library ∷ [])

-- The first line with `Machine:`, from behind it.
unfoldable pub machine_in : List Text → Checked Text
unfolding partition strip
machine_in [] = err no_machine_field
machine_in (line ∷ rest) = elim (partition (codes "Machine:") line) [
  | none ↦ machine_in rest
  | some (before, after) ↦ ok (strip after)
]

unfoldable pub read_machine : Build → Text → Text → Checked Text
unfolding run_text machine_in splitlines
read_machine b readelf library = do
  output ← run_text b (readelf ∷ codes "-h" ∷ library ∷ [])
  machine_in (splitlines output)

-- `("stripped" not in str(p), len(str(p)))`, and the order of two such keys
abbrev pub is_stripped : Text → Bool
is_stripped p = occurs (codes "stripped") p

unfoldable pub le_key : Text → Text → Bool
unfolding occurs
le_key p q =
    (is_stripped p && not (is_stripped q))
    || ((is_stripped p || not (is_stripped q)) && leb (length p) (length q))

-- `sorted`, which leaves paths with equal keys in their order
unfoldable pub insert_by_key : Text → List Text → List Text
unfolding le_key
insert_by_key p [] = p ∷ []
insert_by_key p (q ∷ qs) =
    let rest = insert_by_key p qs in if le_key p q then p ∷ q ∷ qs else q ∷ rest

unfoldable pub sorted_by_key : List Text → List Text
unfolding insert_by_key
sorted_by_key [] = []
sorted_by_key (p ∷ ps) = insert_by_key p (sorted_by_key ps)

unfoldable pub is_match : Text → Text → Bool
unfolding contains parse occurs
is_match abi p = contains (parse p).names abi || occurs abi p

unfoldable pub matches_of : Text → List Text → List Text
unfolding is_match
matches_of abi [] = []
matches_of abi (p ∷ ps) = let rest = matches_of abi ps in if is_match abi p then p ∷ rest else rest

unfoldable pub find_libraries : Build → Text → Text → List Text
unfolding matches_of sorted_by_key
find_libraries b build_root abi = sorted_by_key (matches_of abi (b.named build_root lib_name))
