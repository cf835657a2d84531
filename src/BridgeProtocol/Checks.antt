-- ===== src/BridgeProtocol/Checks.antt =====
-- The severities, the validators and the exceptions of bridge_protocol.py.
use etroute.Prelude.{ℕ, ◌*◌, ◌≡◌, refl, Option, none, some, List, [], ◌∷◌, Result, ok, err}
use etroute.Python.Text.{Text, codes, strip, upper, is_space}
use etroute.Python.Value.{Value, str, Fields, Raised, own, find_member}
use etroute.Python.Runtime.{Runtime, to_text}
use etroute.Python.Validators.{Complaints, clean_text, optional_clean_text, json_object, iso_text}

-- Why a `ProtocolError` was raised.
pub data Reason : Type 0 where
  unsupported_severity : Value → Reason
  empty too_long not_object not_serializable too_large not_iso : Text → Reason
  unsupported_event_schema unsupported_acknowledgement_schema : Value → Reason
  ttl_not_integer ttl_not_positive type_required : Reason
  unknown_fields : List Text → Reason
  invalid_json : Reason

abbrev pub Checked : Type 0 → Type 0
Checked = Result (Raised Reason)

abbrev pub raise : {A : Type 0} → Reason → Checked A
raise r = err (own r)

abbrev pub max_event_type_length : ℕ
max_event_type_length = 128

abbrev pub max_source_length : ℕ
max_source_length = 64

abbrev pub max_dedupe_key_length : ℕ
max_dedupe_key_length = 256

abbrev pub max_payload_json_bytes : ℕ
max_payload_json_bytes = 64 * 1024

pub data Severity : Type 0 where
  critical urgent warning info debug : Severity

-- `severity.name`
unfoldable severity_name : Severity → Text
severity_name critical = codes "CRITICAL"
severity_name urgent = codes "URGENT"
severity_name warning = codes "WARNING"
severity_name info = codes "INFO"
severity_name debug = codes "DEBUG"

-- `severity.name.lower()`
unfoldable pub wire_value : Severity → Text
wire_value critical = codes "critical"
wire_value urgent = codes "urgent"
wire_value warning = codes "warning"
wire_value info = codes "info"
wire_value debug = codes "debug"

abbrev severities : List Severity
severities = critical ∷ urgent ∷ warning ∷ info ∷ debug ∷ []

-- `Severity.parse` of what is no `Severity` yet
unfoldable pub parse_severity : Runtime → Value → Checked Severity
unfolding find_member severity_name upper
parse_severity rt value =
    elim (find_member severity_name severities (upper rt.upper_wide (strip (to_text rt value)))) [
      | some s ↦ ok s
      | none ↦ raise (unsupported_severity value)
    ]

pub parse_severity-wire_value :
    (rt : Runtime) (s : Severity) → parse_severity rt (str (wire_value s)) ≡ ok s
unfolding parse_severity wire_value to_text strip is_space
parse_severity-wire_value rt critical = refl
parse_severity-wire_value rt _ = refl

abbrev pub complaints : Complaints Reason
complaints = record {
  empty = empty;
  too_long = too_long;
  not_object = not_object;
  not_serializable = not_serializable;
  too_large = too_large;
  not_iso = not_iso;
}

abbrev pub require_text : Runtime → Text → ℕ → Value → Checked Text
require_text = clean_text complaints

abbrev pub optional_text : Runtime → Text → ℕ → Value → Checked (Option Text)
optional_text = optional_clean_text complaints

abbrev pub validate_payload : Value → Checked Fields
validate_payload = json_object complaints max_payload_json_bytes (codes "payload")

abbrev pub check_iso : Runtime → Text → Value → Checked Text
check_iso = iso_text complaints
