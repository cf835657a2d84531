-- ===== src/Tests/Jni.antt =====
-- tools/verify_android_jni_build.py at a build with two libraries for each ABI.
use etroute.Prelude.{◌≡◌, refl, true, some, [], ◌∷◌, ◌++◌, All, length, leb, ◌>>=◌}
use etroute.Python.Text.{Text, codes, strip, strip_left, is_space, starts_with, text_eq}
use etroute.Python.Value.{pos, contains}
use etroute.Python.Dict.{find}
use etroute.Python.Lines.{occurs, splitlines, partition}
use etroute.Python.PurePath.{parse}
use etroute.JniBuild.Library.{
  Build, lib_name, required_abis, find_libraries, matches_of, is_match, is_stripped, sorted_by_key,
  le_key, read_machine, run_text, machine_in, read_dynamic_symbols,
}
use etroute.JniBuild.Library.Order.{find_libraries-first}
use etroute.JniBuild.{
  main, find_tool, with_tools, verify_abi, with_matches, with_size, with_machine, with_expected,
  with_symbols,
}
use etroute.JniBuild.Laws.{IsVerified, main-IsVerified}

abbrev long : Text
long = codes "out/arm64-v8a/x86_64/merged/lib.so"

abbrev stripped : Text
stripped = codes "out/arm64-v8a/x86_64/stripped/lib.so"

-- Every tool prints the same text.
abbrev printed : Text
printed =
    codes "  Machine:  AArch64 X86-64\n"
    ++ codes "T Java_org_nemack_universalfilelab_etroute_JniNativeSupervisor_nativeAbiVersion\n"
    ++ codes "T Java_org_nemack_universalfilelab_etroute_JniNativeSupervisor_nativeRun\n"

abbrev build : Build
build = record {
  named = λ root name. long ∷ stripped ∷ [];
  resolve = λ p. p;
  size_of = λ p. some 64;
  which = λ name. some name;
  run = λ command. some (pos 0, printed);
}

found : find_libraries build [] (codes "x86_64") ≡ stripped ∷ long ∷ []
unfolding find_libraries matches_of sorted_by_key le_key is_match occurs parse contains text_eq
found = refl

find_libraries-first_example :
    All
      (λ p.
        (is_stripped p ≡ true → is_stripped stripped ≡ true)
        × (is_stripped p ≡ is_stripped stripped → leb (length stripped) (length p) ≡ true))
      (matches_of (codes "x86_64") (build.named [] lib_name))
find_libraries-first_example =
    find_libraries-first build [] (codes "x86_64") stripped (long ∷ []) found

verified : (verify_abi build (codes "x86_64") (codes "readelf") (codes "nm") []).verified ≡ true
unfolding verify_abi with_matches with_size with_machine with_expected with_symbols find_libraries
    matches_of sorted_by_key le_key is_match occurs parse contains text_eq read_machine
    read_dynamic_symbols run_text machine_in splitlines partition strip strip_left is_space
    starts_with find ◌>>=◌
verified = refl

exits : (main build []).exit_code ≡ 0
unfolding main find_tool with_tools verify_abi with_matches with_size with_machine with_expected
    with_symbols find_libraries matches_of sorted_by_key le_key is_match occurs parse contains
    text_eq read_machine read_dynamic_symbols run_text machine_in splitlines partition strip
    strip_left is_space starts_with find ◌>>=◌
exits = refl

main-IsVerified_example :
    (readelf : Text) × ((nm : Text) × (find_tool build (codes "llvm-readelf" ∷ codes "readelf" ∷ [])
        ≡ some readelf)
      × (find_tool build (codes "llvm-nm" ∷ codes "nm" ∷ []) ≡ some nm)
      × All (λ abi. IsVerified build abi readelf nm []) required_abis)
main-IsVerified_example = main-IsVerified build [] exits
