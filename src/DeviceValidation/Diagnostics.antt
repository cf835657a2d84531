-- ===== src/DeviceValidation/Diagnostics.antt =====
-- tools/android_device_validation.py: the runs of the bridge and what is read from their envelopes.
use etroute.Prelude.{
  ℕ, Bool, true, false, not, ◌&&◌, Option, none, some, List, [], ◌∷◌, Result, ok, err, ◌==◌,
  if◌then◌else◌,
}
use etroute.Python.Text.{Text, codes, text_eq}
use etroute.Python.Value.{
  ℤ, pos, Value, null, bool, int, str, arr, obj, Items, nil, cons, Fields, end, field, get,
  or_default, is_true, is_text,
}
use etroute.Python.Runtime.{Runtime}
use etroute.DeviceValidation.Uptime.{UptimeError}

-- The interpreter: the digits beyond ASCII, `==` on values that are not both None, bool or text, and
-- the texts of the exceptions.
pub record Judge : Type 0 where
  pub runtime : Runtime
  pub wide_digit : ℕ → Option ℕ
  pub other_equal : Value → Value → Bool
  pub describe : UptimeError → Text

-- The exceptions that leave the script.
pub data Escape : Type 0 where
  attribute_error type_error timeout_expired os_error invalid_file : Escape

abbrev pub Checked : Type 0 → Type 0
Checked = Result Escape

-- What `run_bridge` returns, but for the times, the command and the digest of the envelope.
pub record Run : Type 0 where
  pub index : ℕ
  pub exit_code : ℤ
  pub stdout : Text
  pub stderr : Text
  pub envelope : Option Fields

pub record Check : Type 0 where
  pub name : Text
  pub passed : Bool
  pub evidence : Value

-- The status is PASS or FAIL.
pub record Evaluation : Type 0 where
  pub passed : Bool
  pub checks : List Check

-- `d.get(key)`
abbrev pub entry : Fields → Text → Value
entry d key = or_default (get d key) null

-- `d.get(key, {})`
abbrev pub entry_or_empty : Fields → Text → Value
entry_or_empty d key = or_default (get d key) (obj end)

-- A value whose `get` is called.
abbrev pub as_dict : Value → Checked Fields
as_dict (obj d) = ok d
as_dict _ = err attribute_error

abbrev pub is_zero_code : ℤ → Bool
is_zero_code (pos n) = n == 0
is_zero_code _ = false

unfoldable pub is_ok : Option Fields → Bool
unfolding is_true get
is_ok none = false
is_ok (some envelope) = is_true (entry envelope (codes "ok"))

unfoldable pub succeeded : Run → Bool
unfolding is_ok
succeeded run = is_zero_code run.exit_code && is_ok run.envelope

-- `extract_diagnostic`: the text is that of the ValueError.
abbrev dict_or_text : Value → Result Text Fields
dict_or_text (obj d) = ok d
dict_or_text _ = err (codes "successful bridge envelope lacks diagnostic object")

unfoldable pub diagnostic_in : Option Fields → Result Text Fields
unfolding is_true get
diagnostic_in none = err (codes "bridge envelope is missing or unsuccessful")
diagnostic_in (some envelope) =
    if is_true (entry envelope (codes "ok"))
    then dict_or_text (entry envelope (codes "diagnostic"))
    else err (codes "bridge envelope is missing or unsuccessful")

unfoldable pub extract_diagnostic : Run → Result Text Fields
unfolding diagnostic_in
extract_diagnostic run = diagnostic_in run.envelope

abbrev pub pair_of : Text → Value → Text → Value → Value
pair_of first v second w = obj (field first v (field second w end))

abbrev pub exit_codes : List Run → Items
exit_codes [] = nil
exit_codes (run ∷ runs) = cons (int run.exit_code) (exit_codes runs)

module _ (j : Judge) where
  unfoldable pub equal : Value → Value → Bool
  unfolding text_eq
  equal null null = true
  equal null w = false
  equal (str s) w = is_text w s
  equal (bool true) (bool b) = b
  equal (bool false) (bool b) = not b
  equal v w = j.other_equal v w

  -- A member of a set must not be a list or a dict.
  abbrev pub is_hashable : Value → Bool
  is_hashable (arr xs) = false
  is_hashable (obj d) = false
  is_hashable _ = true
