-- ===== src/Python/Runtime.antt =====
-- What the interpreter decides and the sources do not: the text of containers, floats and other
-- objects, the ISO-8601 forms that `datetime.fromisoformat` takes (they differ between versions),
-- upper and lower case beyond ASCII, and the reading of a JSON text.
use etroute.Prelude.{ℕ, Bool, true, false, Option}
use etroute.Python.Text.{Text, codes}
use etroute.Python.Value.{Value, null, bool, str, ℤ}

-- What `datetime.fromisoformat` reads: the microseconds since 1970 on the text's own clock, and the
-- offset of that clock from UTC, if the text has one (`tzinfo`).
pub record Moment : Type 0 where
  pub wall : ℤ
  pub offset : Option ℤ

pub record Runtime : Type 0 where
  -- `str(value)` where it is not written out in `to_text`
  pub repr : Value → Text
  -- `datetime.fromisoformat(text)` returns
  pub is_iso : Text → Bool
  pub moment : Text → Moment
  pub lower_wide : Text → ℕ → Text → Text
  -- `str.upper` of one code point beyond ASCII
  pub upper_wide : ℕ → Text
  -- `json.loads(text)`, or `none` for JSONDecodeError
  pub loads : Text → Option Value
  -- `JSONDecoder().raw_decode(text)`: the value and the index behind it
  pub raw_decode : Text → Option (Value × ℕ)

-- `str(value)`
unfoldable pub to_text : Runtime → Value → Text
to_text r null = codes "None"
to_text r (bool true) = codes "True"
to_text r (bool false) = codes "False"
to_text r (str t) = t
to_text r v = r.repr v
