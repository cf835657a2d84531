-- ===== src/BridgeProtocol/Event/Valid.antt =====
-- bridge_protocol.py: validity of an `EventEnvelope` and `__post_init__`.
use etroute.Prelude.{
  ℕ, zero, suc, ◌<◌, ◌≡◌, refl, true, Option, none, some, ok, ◌>>=◌, raise_if, Returns,
  Returns-bind, Returns-raise_if, Returns-ok, Returns-err, Returns-any, not-false, arith,
}
use etroute.Python.Text.{codes}
use etroute.Python.Text.Clean.{IsClean}
use etroute.Python.Value.{Value, str, obj, int, pos, negsuc, null, is_one, of_optional}
use etroute.Python.Runtime.{Runtime}
use etroute.Python.Validators.Laws.{
  Fits, OptionalIsClean, clean_text-IsClean, clean_text-eq, optional_clean_text-IsClean,
  optional_clean_text-eq, json_object-Fits, json_object-eq, iso_text-Returns, iso_text-eq,
}
use etroute.BridgeProtocol.Checks.{
  complaints, wire_value, parse_severity-wire_value, max_event_type_length, max_source_length,
  max_dedupe_key_length, max_payload_json_bytes,
}
use etroute.BridgeProtocol.Event.{EventArgs, EventEnvelope, check_ttl, post_init, of_ttl}

abbrev IsPositive : Option ℕ → Type 0
IsPositive none = Unit
IsPositive (some n) = 0 < n

pub record IsValid (rt : Runtime) (e : EventEnvelope) : Type 0 where
  pub schema : is_one e.schema_version ≡ true
  pub event_type : IsClean max_event_type_length e.event_type
  pub source : IsClean max_source_length e.source
  pub event_id : IsClean 128 e.event_id
  pub payload : Fits max_payload_json_bytes e.payload
  pub request_id : OptionalIsClean 128 e.request_id
  pub session_id : OptionalIsClean 128 e.session_id
  pub ttl : IsPositive e.ttl_seconds
  pub dedupe_key : OptionalIsClean max_dedupe_key_length e.dedupe_key
  pub created_at : rt.is_iso e.created_at ≡ true

check_ttl-IsPositive : (v : Value) → Returns IsPositive (check_ttl v)
unfolding check_ttl
check_ttl-IsPositive null = Returns-ok IsPositive tt
check_ttl-IsPositive (int (pos zero)) = Returns-err IsPositive
check_ttl-IsPositive (int (pos (suc n))) = Returns-ok IsPositive (omega arith)
check_ttl-IsPositive (int (negsuc n)) = Returns-err IsPositive
check_ttl-IsPositive _ = Returns-err IsPositive

check_ttl-eq : (o : Option ℕ) → IsPositive o → check_ttl (of_ttl o) ≡ ok o
unfolding check_ttl
check_ttl-eq none h = refl
check_ttl-eq (some zero) h = absurd (omega arith)
check_ttl-eq (some (suc n)) h = refl

pub post_init-IsValid : (rt : Runtime) (a : EventArgs) → Returns (IsValid rt) (post_init rt a)
unfolding post_init
post_init-IsValid rt a =
    let P = IsValid rt in
    Returns-raise_if P _ _ λ schema.
      Returns-bind _ P (clean_text-IsClean complaints rt _ _ _) λ event_type ht.
        Returns-bind _ P (clean_text-IsClean complaints rt _ _ _) λ source hs.
          Returns-bind _ P Returns-any λ severity _.
            Returns-bind _ P (clean_text-IsClean complaints rt _ _ _) λ event_id hi.
              Returns-bind _ P (json_object-Fits complaints max_payload_json_bytes _ _)
                λ payload hp.
                  Returns-bind _ P (optional_clean_text-IsClean complaints rt _ _ _)
                    λ request_id hr.
                      Returns-bind _ P (optional_clean_text-IsClean complaints rt _ _ _)
                        λ session_id hn. Returns-bind _ P (check_ttl-IsPositive _) λ ttl hl.
                          Returns-bind _ P (optional_clean_text-IsClean complaints rt _ _ _)
                            λ dedupe hd.
                              Returns-bind _ P (iso_text-Returns complaints rt _ _) λ created hc.
                                Returns-ok P (record {
                                  schema = not-false _ schema;
                                  event_type = ht;
                                  source = hs;
                                  event_id = hi;
                                  payload = hp;
                                  request_id = hr;
                                  session_id = hn;
                                  ttl = hl;
                                  dedupe_key = hd;
                                  created_at = hc;
                                })

abbrev pub args_of : EventEnvelope → EventArgs
args_of e = record {
  event_type = str e.event_type;
  source = str e.source;
  payload = obj e.payload;
  severity = str (wire_value e.severity);
  event_id = str e.event_id;
  request_id = of_optional e.request_id;
  session_id = of_optional e.session_id;
  created_at = str e.created_at;
  ttl_seconds = of_ttl e.ttl_seconds;
  dedupe_key = of_optional e.dedupe_key;
  schema_version = e.schema_version;
}

pub post_init-args_of :
    (rt : Runtime) (e : EventEnvelope) → IsValid rt e → post_init rt (args_of e) ≡ ok e
unfolding post_init ◌>>=◌ raise_if
post_init-args_of rt e v = rw (
  v.schema,
  clean_text-eq complaints rt (codes "event_type") max_event_type_length e.event_type v.event_type,
  clean_text-eq complaints rt (codes "source") max_source_length e.source v.source,
  parse_severity-wire_value rt e.severity,
  clean_text-eq complaints rt (codes "event_id") 128 e.event_id v.event_id,
  json_object-eq complaints max_payload_json_bytes (codes "payload") e.payload v.payload,
  optional_clean_text-eq complaints rt (codes "request_id") 128 e.request_id v.request_id,
  optional_clean_text-eq complaints rt (codes "session_id") 128 e.session_id v.session_id,
  check_ttl-eq e.ttl_seconds v.ttl,
  optional_clean_text-eq complaints rt (codes "dedupe_key") max_dedupe_key_length e.dedupe_key
      v.dedupe_key,
  iso_text-eq complaints rt (codes "created_at") e.created_at v.created_at,
)
