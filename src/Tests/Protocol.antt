-- ===== src/Tests/Protocol.antt =====
-- bridge_protocol.py at concrete events.
use etroute.Prelude.{◌≡◌, refl, ◌≢◌, none, some, [], ok, ◌>>=◌, raise_if}
use etroute.Python.Text.{codes, strip, upper, is_space, starts_with, text_eq}
use etroute.Python.Value.{
  null, int, str, obj, pos, Fields, end, field, get, keys, pop, contains, is_one, without,
}
use etroute.Python.Json.{json_size}
use etroute.Python.Runtime.{to_text}
use etroute.Python.Validators.{clean_text, optional_clean_text, json_object, iso_text}
use etroute.BridgeProtocol.Checks.{parse_severity, wire_value, info}
use etroute.BridgeProtocol.Event.{
  EventArgs, EventEnvelope, Defaults, post_init, to_dict, from_dict, allowed, check_ttl,
}
use etroute.BridgeProtocol.Event.RoundTrip.{event_round_trip}
use etroute.Tests.Host.{plain}

abbrev pub fresh : Defaults
fresh = record { event_id = codes "evt-1"; now = codes "2026-01-01T00:00:00+00:00" }

abbrev args : EventArgs
args = record {
  event_type = str (codes " SYNC ");
  source = str (codes "etumax");
  payload = obj (field (codes "a") (int (pos 1)) end);
  severity = str (codes "info");
  event_id = str (codes "evt");
  request_id = null;
  session_id = str (codes "ses");
  created_at = str (codes "2026-01-01");
  ttl_seconds = int (pos 5);
  dedupe_key = null;
  schema_version = int (pos 1);
}

abbrev event : EventEnvelope
event = record {
  event_type = codes "SYNC";
  source = codes "etumax";
  payload = field (codes "a") (int (pos 1)) end;
  severity = info;
  event_id = codes "evt";
  request_id = none;
  session_id = some (codes "ses");
  created_at = codes "2026-01-01";
  ttl_seconds = some 5;
  dedupe_key = none;
  schema_version = int (pos 1);
}

event_made : post_init plain args ≡ ok event
unfolding post_init check_ttl parse_severity wire_value upper ◌>>=◌ raise_if clean_text
    optional_clean_text json_object iso_text is_one strip is_space to_text starts_with json_size
    text_eq
event_made = refl

event_round_trip_example : from_dict plain fresh (obj (to_dict event)) ≡ ok event
event_round_trip_example = event_round_trip plain fresh args event event_made

event_read : from_dict plain fresh (obj (to_dict event)) ≡ ok event
event_read = event_round_trip plain fresh args event event_made

-- An event with nothing but a type and a source.
abbrev pub incomplete : Fields
incomplete =
    field (codes "type") (str (codes "SYNC")) (field (codes "source") (str (codes "etumax")) end)

pub incomplete-type : get incomplete (codes "type") ≡ some (str (codes "SYNC"))
unfolding get text_eq
incomplete-type = refl

pub incomplete-known : without (keys (pop incomplete (codes "type"))) allowed ≡ []
unfolding pop keys without text_eq contains
incomplete-known = refl

pub incomplete-payload : get (pop incomplete (codes "type")) (codes "payload") ≡ none
unfolding get pop text_eq
incomplete-payload = refl

pub type-ne-null : str (codes "SYNC") ≢ null
type-ne-null e = cc
