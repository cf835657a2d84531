-- ===== src/RuntimeContract/Checks.antt =====
-- The validators of runtime_contract.py, and the exceptions that they raise.
use etroute.Prelude.{ℕ, ◌*◌, ◌≡◌, Option, none, some, List, Result, ok, err}
use etroute.Python.Text.{Text}
use etroute.Python.Value.{Value, int, str, pos, negsuc, Fields, Raised, own, value_error}
use etroute.Python.Validators.{Complaints, clean_text, optional_clean_text, json_object, iso_text}
use etroute.Python.Runtime.{Runtime}

-- Why a `RuntimeContractError` was raised; the text is the name of the field.
pub data Reason : Type 0 where
  unsupported_schema : Value → Reason
  empty too_long : Text → Reason
  generation_not_integer generation_negative : Reason
  not_object not_serializable too_large : Text → Reason
  not_iso : Text → Reason
  unknown_fields missing_fields : List Text → Reason
  field_required not_boolean : Text → Reason
  running_not_ready ready_in_wrong_stage running_stage_in_wrong_state not_failed_stage : Reason
  invalid_json : Reason

abbrev pub Checked : Type 0 → Type 0
Checked = Result (Raised Reason)

abbrev pub raise : {A : Type 0} → Reason → Checked A
raise r = err (own r)

abbrev pub max_text : ℕ
max_text = 256

abbrev pub max_diagnostics_json_bytes : ℕ
max_diagnostics_json_bytes = 128 * 1024

abbrev pub complaints : Complaints Reason
complaints = record {
  empty = empty;
  too_long = too_long;
  not_object = not_object;
  not_serializable = not_serializable;
  too_large = too_large;
  not_iso = not_iso;
}

abbrev pub require_text : Runtime → Text → ℕ → Value → Checked Text
require_text = clean_text complaints

abbrev pub optional_text : Runtime → Text → ℕ → Value → Checked (Option Text)
optional_text = optional_clean_text complaints

abbrev pub validate_mapping : Text → Value → Checked Fields
validate_mapping = json_object complaints max_diagnostics_json_bytes

abbrev pub check_iso : Runtime → Text → Value → Checked Text
check_iso = iso_text complaints

unfoldable pub require_generation : Value → Checked ℕ
require_generation (int (pos n)) = ok n
require_generation (int (negsuc n)) = raise generation_negative
require_generation _ = raise generation_not_integer

-- `Enum(value)`: what is no text is no member's value.
unfoldable pub member_of : {E : Type 0} → (Text → Option E) → Value → Checked E
member_of find (str t) = elim (find t) [ some e ↦ ok e | none ↦ err value_error ]
member_of find _ = err value_error

pub member_of-eq :
    {E : Type 0} (find : Text → Option E) (t : Text) (e : E)
    → find t ≡ some e
    → member_of find (str t) ≡ ok e
unfolding member_of
member_of-eq find t e h = rw (h, member_of)
