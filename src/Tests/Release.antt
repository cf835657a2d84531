-- ===== src/Tests/Release.antt =====
-- tools/build_release.py at a small tree whose tests pass.
use etroute.Prelude.{
  ◌≡◌, refl, ◌⊎◌, Bool, true, false, none, some, List, [], ◌∷◌, ok, ◌>>=◌, raise_if,
}
use etroute.Python.Text.{codes, text_eq, starts_with, strip, strip_left, is_space}
use etroute.Python.Value.{pos, obj, end, get, contains, sorted, insert_sorted}
use etroute.Python.PurePath.{parse}
use etroute.Python.PathName.{suffix, last_name}
use etroute.Python.Lines.{occurs, splitlines, words}
use etroute.Python.IntText.{int_of, is_int_space, trim_left, trim_right}
use etroute.Python.Int.{le_ℤ}
use etroute.BuildRelease.Files.{included_files, kept, is_included}
use etroute.BuildRelease.Digest.{Bytes, File, framed, to_bytes, big_endian}
use etroute.BuildRelease.Digest.Laws.{framed-inj}
use etroute.BuildRelease.Status.{refused, minimum_test_count, subscript, integer_of, test_count}
use etroute.BuildRelease.Build.{Workshop, main, gate, run_tests, compile_modules}
use etroute.BuildRelease.Build.Gate.{IsReleasable, main-gated}
use etroute.Tests.Host.{plain}

abbrev files : List File
files = record { name = codes "a"; data_bytes = codes "xy" } ∷ []

abbrev stream : Bytes
stream = 0 ∷ 0 ∷ 0 ∷ 1 ∷ b'a' ∷ 0 ∷ 0 ∷ 0 ∷ 0 ∷ 0 ∷ 0 ∷ 0 ∷ 2 ∷ b'x' ∷ b'y' ∷ []

framed_files : framed files ≡ ok stream
unfolding framed to_bytes big_endian ◌>>=◌ raise_if
framed_files = refl

framed-inj_example : files ≡ files
framed-inj_example = framed-inj files files stream framed_files framed_files

-- The state is whether the archive is there.
abbrev workshop : Workshop Bool
workshop = record {
  interpreter = record { runtime = plain; wide_digit = λ c. none; truncate = λ t. refused };
  is_file = λ p. true;
  load_status = some (obj end);
  compiles = λ p. true;
  run_tests = some (pos 0, codes "Ran 20 tests in 1s");
  below = codes "etroute.py" ∷ codes "build/x" ∷ [];
  read_bytes = λ p. some [];
  encode = λ t. some t;
  build_zip = λ s paths. some true;
  artifact = λ s. some ([], 0);
  sha256 = λ b. [];
  write_manifest = λ s. some s;
}

included : included_files workshop.is_file workshop.below ≡ codes "etroute.py" ∷ []
unfolding included_files kept is_included contains parse suffix last_name text_eq sorted
    insert_sorted
included = refl

gated : gate workshop ≡ ok (obj end, pos 20)
unfolding gate compile_modules run_tests minimum_test_count subscript integer_of test_count get
    text_eq starts_with occurs splitlines words int_of is_int_space trim_left trim_right strip
    strip_left is_space le_ℤ ◌>>=◌ raise_if
gated = refl

main-gated_example : ((main workshop false).0 ≡ false) ⊎ IsReleasable workshop
main-gated_example = main-gated workshop false
