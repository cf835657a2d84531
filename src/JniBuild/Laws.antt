-- ===== src/JniBuild/Laws.antt =====
-- tools/verify_android_jni_build.py: what a verified ABI and the exit code 0 stand for.
use etroute.Prelude.{
  ℕ, ◌≡◌, refl, ◌<◌, true, false, not, Option, none, some, List, [], ◌∷◌, all, any, All, map, ok,
  err, arith, ◌==◌, if-cases, not-false, and-eq-true,
}
use etroute.Python.Text.{Text, codes}
use etroute.Python.Dict.{find}
use etroute.Python.Lines.{occurs}
use etroute.JniBuild.Library.{
  required_abis, expected_machine, required_symbols, missing_exports, unexpected_machine,
  empty_library, Checked, Build, find_libraries, read_machine, read_dynamic_symbols,
}
use etroute.JniBuild.{
  AbiEvidence, fresh_evidence, failed, symbols_in, all_present, missing_of, with_symbols,
  with_expected, with_machine, with_size, with_matches, verify_abi, find_tool, verdict, with_tools,
  main,
}

-- The library of an ABI: not empty, for the expected machine, and with both exports.
pub record IsVerified (b : Build) (abi readelf nm build_root : Text) : Type 0 where
  pub library : Text
  pub others : List Text
  pub found : find_libraries b build_root abi ≡ library ∷ others
  pub size : ℕ
  pub sized : b.size_of library ≡ some size
  pub positive : 0 < size
  pub machine : Text
  pub header : read_machine b readelf library ≡ ok machine
  pub tokens : List Text
  pub expected : find abi expected_machine ≡ some tokens
  pub token : any (λ t. occurs t machine) tokens ≡ true
  pub symbols : Text
  pub listed : read_dynamic_symbols b nm library ≡ ok symbols
  pub exports : All (λ s. occurs s symbols ≡ true) required_symbols

all_present-All :
    (text : Text) (symbols : List Text)
    → all_present (symbols_in text symbols) ≡ true
    → All (λ s. occurs s text ≡ true) symbols
all_present-All text [] h = tt
all_present-All text (s ∷ rest) h =
    let (here, there) = and-eq-true (occurs s text) _ h in (here, all_present-All text rest there)

abbrev Shows : Type 0 → AbiEvidence → Type 0
Shows P e = e.verified ≡ true → P

not_verified : {P : Type 0} (e : AbiEvidence) → e.verified ≡ false → Shows P e
not_verified e h k = cc

with_symbols-Shows :
    (e : AbiEvidence) (m : Checked Text)
    → e.verified ≡ false
    → Shows
        ((text : Text) × (m ≡ ok text) × All (λ s. occurs s text ≡ true) required_symbols)
        (with_symbols e m)
unfolding with_symbols
with_symbols-Shows e (err problem) h = not_verified e h
with_symbols-Shows e (ok text) h =
    let found = symbols_in text required_symbols in
    let seen = record e { required_symbols = some found; symbols_ok = all_present found } in
    if-cases (Shows _) (not (all_present found))
      {x = failed seen (missing_exports (missing_of found))} {y = record seen { verified = true }}
      (λ missing. not_verified e h)
      λ present done. (text, refl, all_present-All text required_symbols (not-false _ present))

module _ (b : Build) (abi readelf nm : Text) where
  abbrev HasExports : Text → Type 0
  HasExports library =
      (text : Text) × (read_dynamic_symbols b nm library ≡ ok text)
      × All (λ s. occurs s text ≡ true) required_symbols

  abbrev IsExpected : Text → Text → Option (List Text) → Type 0
  IsExpected library machine o =
      (tokens : List Text) × (o ≡ some tokens)
      × (any (λ t. occurs t machine) tokens ≡ true)
      × HasExports library

  abbrev HasHeader : Text → Checked Text → Type 0
  HasHeader library m =
      (machine : Text) × (m ≡ ok machine) × IsExpected library machine (find abi expected_machine)

  abbrev IsSized : Text → Option ℕ → Type 0
  IsSized library o =
      (size : ℕ) × (o ≡ some size) × (0 < size) × HasHeader library (read_machine b readelf library)

  with_expected-Shows :
      (library : Text) (e : AbiEvidence) (machine : Text) (o : Option (List Text))
      → e.verified ≡ false
      → Shows (IsExpected library machine o) (with_expected b abi readelf nm library e machine o)
  unfolding with_expected
  with_expected-Shows library e machine none h = not_verified e h
  with_expected-Shows library e machine (some tokens) h =
      let machine_ok = any (λ t. occurs t machine) tokens in
      let seen = record e { machine_ok = machine_ok } in
      if-cases (Shows _) (not machine_ok) {x = failed seen (unexpected_machine machine)}
        {y = with_symbols seen (read_dynamic_symbols b nm library)} (λ wrong. not_verified e h)
        λ right done. (
          tokens,
          refl,
          not-false _ right,
          with_symbols-Shows seen (read_dynamic_symbols b nm library) h done,
        )

  with_machine-Shows :
      (library : Text) (e : AbiEvidence) (m : Checked Text)
      → e.verified ≡ false
      → Shows (HasHeader library m) (with_machine b abi readelf nm library e m)
  unfolding with_machine
  with_machine-Shows library e (err problem) h = not_verified e h
  with_machine-Shows library e (ok machine) h = λ done. (
    machine,
    refl,
    with_expected-Shows library (record e { machine = some machine }) machine
        (find abi expected_machine) h done,
  )

  with_size-Shows :
      (library : Text) (e : AbiEvidence) (o : Option ℕ)
      → e.verified ≡ false
      → Shows (IsSized library o) (with_size b abi readelf nm library e o)
  unfolding with_size
  with_size-Shows library e none h = not_verified e h
  with_size-Shows library e (some size) h =
      let sized = record e { size_bytes = some size } in
      if-cases (Shows _) (size == 0) {x = failed sized empty_library}
        {y = with_machine b abi readelf nm library sized (read_machine b readelf library)}
        (λ empty. not_verified e h)
        λ full done. (
          size,
          refl,
          positive size full,
          with_machine-Shows library sized (read_machine b readelf library) h done,
        )
    where
      positive : (n : ℕ) → (n == 0) ≡ false → 0 < n
      positive n h = ground arith

  with_matches-Shows :
      (e : AbiEvidence) (matches : List Text)
      → e.verified ≡ false
      → Shows
          ((library : Text) × ((others : List Text) × (matches ≡ library ∷ others)
              × IsSized library (b.size_of library)))
          (with_matches b abi readelf nm e matches)
  unfolding with_matches
  with_matches-Shows e [] h = not_verified e h
  with_matches-Shows e (library ∷ others) h = λ done. (
    library,
    (
      others,
      refl,
      with_size-Shows library (record e { library = some (b.resolve library) }) (b.size_of library)
          h done,
    ),
  )

  -- An ABI whose evidence is marked as verified has a library that is not empty, whose ELF header names
  -- a machine of that ABI, and whose dynamic symbols hold both JNI exports.
  verify_abi-IsVerified :
      (build_root : Text)
      → (verify_abi b abi readelf nm build_root).verified ≡ true
      → IsVerified b abi readelf nm build_root
  unfolding verify_abi
  verify_abi-IsVerified build_root h =
      let (
        library,
        (
          others,
          found,
          (
            size,
            sized,
            positive,
            (machine, header, (tokens, expected, token, (symbols, listed, exports))),
          ),
        ),
      ) =
        with_matches-Shows (fresh_evidence abi) (find_libraries b build_root abi) refl h in
      record {
        library = library;
        others = others;
        found = found;
        size = size;
        sized = sized;
        positive = positive;
        machine = machine;
        header = header;
        tokens = tokens;
        expected = expected;
        token = token;
        symbols = symbols;
        listed = listed;
        exports = exports;
      }

all-All :
    (P : Text → Type 0) (of : Text → AbiEvidence) (abis : List Text)
    → ((abi : Text) → (of abi).verified ≡ true → P abi)
    → all (λ (e : AbiEvidence). e.verified) (map of abis) ≡ true
    → All P abis
all-All P of [] f h = tt
all-All P of (abi ∷ abis) f h =
    let (here, there) = and-eq-true _ _ h in (f abi here, all-All P of abis f there)

verdict-zero :
    (es : List AbiEvidence)
    → (verdict es).exit_code ≡ 0
    → all (λ (e : AbiEvidence). e.verified) es ≡ true
verdict-zero es h = ground arith

with_tools-IsVerified :
    (b : Build) (build_root : Text) (readelf nm : Option Text)
    → (with_tools b build_root readelf nm).exit_code ≡ 0
    → (r : Text) × ((n : Text) × (readelf ≡ some r)
        × (nm ≡ some n)
        × All (λ abi. IsVerified b abi r n build_root) required_abis)
unfolding with_tools
with_tools-IsVerified b build_root none nm h = absurd (omega (arith, h))
with_tools-IsVerified b build_root (some r) none h = absurd (omega (arith, h))
with_tools-IsVerified b build_root (some r) (some n) h =
    let of = λ (abi : Text). verify_abi b abi r n build_root in
    (
      r,
      (
        n,
        refl,
        refl,
        all-All (λ abi. IsVerified b abi r n build_root) of required_abis
            (λ abi. verify_abi-IsVerified b abi r n build_root)
            (verdict-zero (map of required_abis) h),
      ),
    )

-- Exit code 0 stands for both tools being there, and for every required ABI having a library that is
-- verified with them.
pub main-IsVerified :
    (b : Build) (build_root : Text)
    → (main b build_root).exit_code ≡ 0
    → (readelf : Text) × ((nm : Text) × (find_tool b (codes "llvm-readelf" ∷ codes "readelf" ∷ [])
          ≡ some readelf)
        × (find_tool b (codes "llvm-nm" ∷ codes "nm" ∷ []) ≡ some nm)
        × All (λ abi. IsVerified b abi readelf nm build_root) required_abis)
unfolding main
main-IsVerified b build_root h = with_tools-IsVerified b build_root _ _ h
