-- ===== src/BridgeProtocol/Event.antt =====
-- `EventEnvelope` of bridge_protocol.py.
pub mod Valid
pub mod RoundTrip
pub mod Expiry
use etroute.Prelude.{
  leb, ◌-◌, ◌^◌, Result, ℕ, zero, suc, ◌*◌, Bool, true, false, not, ◌&&◌, Option, none, some, List,
  [], ◌∷◌, length, if◌then◌else◌, ◌==◌, ok, err, ◌>>=◌, ◌>>◌, raise_if,
}
use etroute.Python.Text.{Text, codes}
use etroute.Python.Value.{
  Value, str, obj, null, int, ℤ, pos, negsuc, Fields, end, field, get, pop, keys, contains, without,
  is_one, is_some, or_default, of_optional, sorted, own, type_error,
}
use etroute.Python.Int.{◌+ℤ◌, ◌-ℤ◌, le_ℤ}
use etroute.Python.Runtime.{Runtime, Moment}
use etroute.BridgeProtocol.Checks.{
  Checked, Reason, raise, Severity, info, wire_value, parse_severity, unsupported_event_schema,
  ttl_not_integer, ttl_not_positive, type_required, unknown_fields, not_object, invalid_json,
  max_event_type_length, max_source_length, max_dedupe_key_length, require_text, optional_text,
  validate_payload, check_iso,
}

pub record EventArgs : Type 0 where
  pub event_type : Value
  pub source : Value
  pub payload : Value
  pub severity : Value
  pub event_id : Value
  pub request_id : Value
  pub session_id : Value
  pub created_at : Value
  pub ttl_seconds : Value
  pub dedupe_key : Value
  pub schema_version : Value

pub record EventEnvelope : Type 0 where
  pub event_type : Text
  pub source : Text
  pub payload : Fields
  pub severity : Severity
  pub event_id : Text
  pub request_id : Option Text
  pub session_id : Option Text
  pub created_at : Text
  pub ttl_seconds : Option ℕ
  pub dedupe_key : Option Text
  pub schema_version : Value

-- What the default factories draw.
pub record Defaults : Type 0 where
  pub event_id : Text
  pub now : Text

-- `None`, or an integer above zero
unfoldable pub check_ttl : Value → Checked (Option ℕ)
check_ttl null = ok none
check_ttl (int (pos zero)) = raise ttl_not_positive
check_ttl (int (pos (suc n))) = ok (some (suc n))
check_ttl (int (negsuc n)) = raise ttl_not_positive
check_ttl _ = raise ttl_not_integer

-- `__post_init__`
unfoldable pub post_init : Runtime → EventArgs → Checked EventEnvelope
post_init rt a = do
  raise_if (not (is_one a.schema_version)) (own (unsupported_event_schema a.schema_version))
  event_type ← require_text rt (codes "event_type") max_event_type_length a.event_type
  source ← require_text rt (codes "source") max_source_length a.source
  severity ← parse_severity rt a.severity
  event_id ← require_text rt (codes "event_id") 128 a.event_id
  payload ← validate_payload a.payload
  request_id ← optional_text rt (codes "request_id") 128 a.request_id
  session_id ← optional_text rt (codes "session_id") 128 a.session_id
  ttl_seconds ← check_ttl a.ttl_seconds
  dedupe_key ← optional_text rt (codes "dedupe_key") max_dedupe_key_length a.dedupe_key
  created_at ← check_iso rt (codes "created_at") a.created_at
  ok (record {
    event_type = event_type;
    source = source;
    payload = payload;
    severity = severity;
    event_id = event_id;
    request_id = request_id;
    session_id = session_id;
    created_at = created_at;
    ttl_seconds = ttl_seconds;
    dedupe_key = dedupe_key;
    schema_version = a.schema_version;
  })

abbrev pub of_ttl : Option ℕ → Value
of_ttl none = null
of_ttl (some n) = int (pos n)

unfoldable pub to_dict : EventEnvelope → Fields
to_dict e = field (codes "source") (str e.source) (
    field (codes "payload") (obj e.payload) (
      field (codes "severity") (str (wire_value e.severity)) (
        field (codes "event_id") (str e.event_id) (
          field (codes "request_id") (of_optional e.request_id) (
            field (codes "session_id") (of_optional e.session_id) (
              field (codes "created_at") (str e.created_at) (
                field (codes "ttl_seconds") (of_ttl e.ttl_seconds) (
                  field (codes "dedupe_key") (of_optional e.dedupe_key) (
                    field (codes "schema_version") e.schema_version
                      (field (codes "type") (str e.event_type) end))))))))))

abbrev pub allowed : List Text
allowed =
    codes "schema_version"
    ∷ codes "event_id"
    ∷ codes "request_id"
    ∷ codes "session_id"
    ∷ codes "source"
    ∷ codes "severity"
    ∷ codes "created_at"
    ∷ codes "ttl_seconds"
    ∷ codes "dedupe_key"
    ∷ codes "payload"
    ∷ []

-- `data.pop("type", None)`; a `None` counts as missing.
abbrev pub given_type : Option Value → Checked Value
given_type none = raise type_required
given_type (some null) = raise type_required
given_type (some v) = ok v

-- `cls(event_type=event_type, **data)` without the two fields that have no default
unfoldable pub arguments : Defaults → Fields → Value → Value → Value → EventArgs
unfolding get wire_value
arguments fresh d event_type source payload = record {
  event_type = event_type;
  source = source;
  payload = payload;
  severity = or_default (get d (codes "severity")) (str (wire_value info));
  event_id = or_default (get d (codes "event_id")) (str fresh.event_id);
  request_id = or_default (get d (codes "request_id")) null;
  session_id = or_default (get d (codes "session_id")) null;
  created_at = or_default (get d (codes "created_at")) (str fresh.now);
  ttl_seconds = or_default (get d (codes "ttl_seconds")) null;
  dedupe_key = or_default (get d (codes "dedupe_key")) null;
  schema_version = or_default (get d (codes "schema_version")) (int (pos 1));
}

-- A call that leaves out an argument without a default raises TypeError.
unfoldable argument : Option Value → Checked Value
argument none = err type_error
argument (some v) = ok v

unfoldable pub from_fields : Runtime → Defaults → Fields → Checked EventEnvelope
unfolding get pop keys without argument
from_fields rt fresh value = do
  event_type ← given_type (get value (codes "type"))
  let d = pop value (codes "type")
  let unknown = sorted (without (keys d) allowed)
  raise_if (not (length unknown == 0)) (own (unknown_fields unknown))
  source ← argument (get d (codes "source"))
  payload ← argument (get d (codes "payload"))
  post_init rt (arguments fresh d event_type source payload)

unfoldable pub from_dict : Runtime → Defaults → Value → Checked EventEnvelope
unfolding from_fields
from_dict rt fresh (obj d) = from_fields rt fresh d
from_dict rt fresh _ = raise (not_object (codes "event"))

unfoldable pub from_json : Runtime → Defaults → Text → Checked EventEnvelope
unfolding from_dict
from_json rt fresh text = elim (rt.loads text) [
  | none ↦ raise invalid_json
  | some value ↦ from_dict rt fresh value
]

-- `created.timestamp()` in microseconds: a time without an offset is read as UTC.
unfoldable pub timestamp : Moment → ℤ
timestamp m = elim m.offset [ none ↦ m.wall | some o ↦ m.wall -ℤ o ]

-- OverflowError, for an integer that is added to a float and is none: from the largest float and half
-- a step on.
pub data TooLarge : Type 0 where
  too_large : TooLarge

unfoldable pub is_no_float : ℕ → Bool
is_no_float n = leb (2 ^ 1024 - 2 ^ 970) n

-- `expires_at_epoch` in microseconds
unfoldable expires_at_epoch : Runtime → EventEnvelope → Result TooLarge (Option ℤ)
unfolding timestamp
expires_at_epoch rt e = elim e.ttl_seconds [
  | none ↦ ok none
  | some n ↦ do
    raise_if (is_no_float n) too_large
    ok (some (timestamp (rt.moment e.created_at) +ℤ pos (n * 1_000_000)))
]

abbrev pub has_come : ℤ → Option ℤ → Bool
has_come now none = false
has_come now (some expires) = le_ℤ expires now

unfoldable pub is_expired : Runtime → EventEnvelope → ℤ → Result TooLarge Bool
unfolding expires_at_epoch
is_expired rt e now = do expires ← expires_at_epoch rt e; ok (has_come now expires)
