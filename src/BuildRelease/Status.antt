-- ===== src/BuildRelease/Status.antt =====
-- tools/build_release.py: what the release reads of ETROUTE_STATUS.json and of the output of the tests.
use etroute.Prelude.{
  ℕ, true, false, ◌&&◌, Option, none, some, List, [], ◌∷◌, Result, ok, err, ◌>>=◌, if◌then◌else◌,
}
use etroute.Python.Text.{Text, codes, starts_with}
use etroute.Python.Value.{ℤ, pos, Value, null, bool, int, float, str, obj, Fields, get, or_default}
use etroute.Python.Runtime.{Runtime, to_text}
use etroute.Python.Lines.{occurs, words}
use etroute.Python.IntText.{int_of}

-- The exceptions that end the release.
pub data Escape : Type 0 where
  status_required invalid_status attribute_error overflow_error os_error encode_error : Escape
  module_missing module_invalid tests_failed : Text → Escape
  too_few_tests : ℤ → ℤ → Escape

abbrev pub Checked : Type 0 → Type 0
Checked = Result Escape

-- `int(value)`: TypeError and ValueError are caught, OverflowError for an infinite float is not.
pub data Integer : Type 0 where
  whole : ℤ → Integer
  refused infinite : Integer

-- The interpreter: text of values, digits beyond ASCII, and the integer part of a float.
pub record Interpreter : Type 0 where
  pub runtime : Runtime
  pub wide_digit : ℕ → Option ℕ
  pub truncate : Text → Integer

abbrev of_option : Option ℤ → Integer
of_option none = refused
of_option (some z) = whole z

unfoldable pub integer_of : Interpreter → Value → Integer
unfolding int_of
integer_of i (int z) = whole z
integer_of i (bool true) = whole (pos 1)
integer_of i (bool false) = whole (pos 0)
integer_of i (str t) = of_option (int_of i.wide_digit t)
integer_of i (float t) = i.truncate t
integer_of i _ = refused

-- `value[key]`: KeyError and TypeError are caught.
unfoldable pub subscript : Option Value → Text → Option Value
unfolding get
subscript (some (obj d)) key = get d key
subscript _ key = none

abbrev default_minimum_tests : ℤ
default_minimum_tests = pos 18

abbrev minimum_of : Integer → Checked ℤ
minimum_of (whole z) = ok z
minimum_of refused = ok default_minimum_tests
minimum_of infinite = err overflow_error

abbrev integer_or_refused : Interpreter → Option Value → Integer
integer_or_refused i none = refused
integer_or_refused i (some v) = integer_of i v

unfoldable pub minimum_test_count : Interpreter → Value → Checked ℤ
unfolding integer_of subscript
minimum_test_count i status = minimum_of (
    integer_or_refused i (
      subscript
        (subscript (subscript (some status) (codes "local_validation")) (codes "unit_tests"))
        (codes "minimum_expected_tests")))

-- `value.get(key, default)`, for what has a `get`
abbrev pub get_or : Value → Text → Value → Checked Value
get_or (obj d) key default = ok (or_default (get d key) default)
get_or _ key default = err attribute_error

abbrev status_in : Interpreter → Fields → Text
status_in i d = to_text i.runtime (or_default (get d (codes "status")) (str (codes "UNKNOWN")))

abbrev second_status : Interpreter → Value → Text
second_status i (obj d) = status_in i d
second_status i _ = codes "UNKNOWN"

abbrev first_status : Interpreter → Value → Value → Text
first_status i (obj d) other = status_in i d
first_status i _ other = second_status i other

unfoldable pub android_status : Interpreter → Value → Checked Text
unfolding get to_text
android_status i status = do
  gate ← get_or status (codes "final_device_gate") null
  validation ← get_or status (codes "android_validation") null
  ok (first_status i gate validation)

-- The number in the second word of a line, or the one before.
abbrev counted : Interpreter → ℤ → List Text → ℤ
counted i count (first ∷ second ∷ rest) = elim (int_of i.wide_digit second) [
  | none ↦ count
  | some n ↦ n
]
counted i count _ = count

unfoldable pub test_count : Interpreter → ℤ → List Text → ℤ
unfolding starts_with occurs words int_of
test_count i count [] = count
test_count i count (line ∷ lines) =
    test_count i
      (if starts_with line (codes "Ran ") && occurs (codes " test") line
        then counted i count (words line)
        else count)
      lines
