-- ===== src/Python/Validators.antt =====
-- The validators that runtime_contract.py and bridge_protocol.py both have, each with an exception
-- class and messages of its own.
pub mod Laws
use etroute.Prelude.{
  ℕ, Option, none, some, length, ltb, ◌==◌, if◌then◌else◌, Result, ok, err, ◌>>=◌,
}
use etroute.Python.Text.{Text, strip}
use etroute.Python.Value.{
  Value, null, bool, int, float, str, arr, obj, opaque, Fields, Raised, own, value_error,
  type_error,
}
use etroute.Python.Json.{json_size}
use etroute.Python.Runtime.{Runtime, to_text}

-- The reasons of the module's exception; the text is the name of the field.
pub record Complaints (R : Type 0) : Type 0 where
  pub empty : Text → R
  pub too_long : Text → R
  pub not_object : Text → R
  pub not_serializable : Text → R
  pub too_large : Text → R
  pub not_iso : Text → R

module _ {R : Type 0} (says : Complaints R) where
  -- `_require_text`
  unfoldable pub clean_text : Runtime → Text → ℕ → Value → Result (Raised R) Text
  clean_text rt name maximum value =
      let cleaned = strip (to_text rt value) in
      if length cleaned == 0
      then err (own (says.empty name))
      else if ltb maximum (length cleaned)
      then err (own (says.too_long name))
      else ok cleaned

  -- A field that may be `None`.
  unfoldable pub optional_clean_text : Runtime → Text → ℕ → Value → Result (Raised R) (Option Text)
  unfolding clean_text
  optional_clean_text rt name maximum null = ok none
  optional_clean_text rt name maximum value = do t ← clean_text rt name maximum value; ok (some t)

  unfoldable pub within : ℕ → Text → Fields → Option ℕ → Result (Raised R) Fields
  within limit name d none = err (own (says.not_serializable name))
  within limit name d (some size) = if ltb limit size then err (own (says.too_large name)) else ok d

  -- `_validate_mapping` and `_validate_payload`
  unfoldable pub json_object : ℕ → Text → Value → Result (Raised R) Fields
  unfolding within
  json_object limit name (obj d) = within limit name d (json_size (obj d))
  json_object limit name _ = err (own (says.not_object name))

  -- `datetime.fromisoformat(value)` in a `try` that catches ValueError: what is no text raises
  -- TypeError.
  unfoldable pub iso_text : Runtime → Text → Value → Result (Raised R) Text
  iso_text rt name (str t) = if rt.is_iso t then ok t else err (own (says.not_iso name))
  iso_text rt name _ = err type_error
