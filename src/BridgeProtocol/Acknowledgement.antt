-- ===== src/BridgeProtocol/Acknowledgement.antt =====
-- `EventAcknowledgement` of bridge_protocol.py.
use etroute.Prelude.{
  ◌≡◌, Bool, true, not, Option, none, some, [], ◌∷◌, ok, ◌>>=◌, ◌>>◌, raise_if, Returns,
  Returns-bind, Returns-raise_if, Returns-ok, not-false,
}
use etroute.Python.Text.{Text, codes, strip}
use etroute.Python.Text.Clean.{IsClean}
use etroute.Python.Value.{Value, str, bool, Fields, end, field, is_one, null, of_optional, own}
use etroute.Python.Runtime.{Runtime, to_text}
use etroute.Python.Validators.Laws.{
  OptionalIsClean, clean_text-IsClean, optional_clean_text-IsClean, iso_text-Returns,
}
use etroute.BridgeProtocol.Checks.{
  Checked, unsupported_acknowledgement_schema, require_text, optional_text, check_iso, complaints,
}

pub record AcknowledgementArgs : Type 0 where
  pub event_id : Value
  pub accepted : Bool
  pub route : Value
  pub status : Value
  pub message : Value
  pub acknowledged_at : Value
  pub schema_version : Value

pub record EventAcknowledgement : Type 0 where
  pub event_id : Text
  pub accepted : Bool
  pub route : Option Text
  pub status : Text
  pub message : Option Text
  pub acknowledged_at : Text
  pub schema_version : Value

-- `str(message).strip() or None`
abbrev pub or_none : Text → Option Text
or_none [] = none
or_none (c ∷ s) = some (c ∷ s)

unfoldable pub normalize_message : Runtime → Value → Option Text
normalize_message rt null = none
normalize_message rt value = or_none (strip (to_text rt value))

-- `__post_init__`
unfoldable pub post_init : Runtime → AcknowledgementArgs → Checked EventAcknowledgement
post_init rt a = do
  raise_if (not (is_one a.schema_version))
      (own (unsupported_acknowledgement_schema a.schema_version))
  event_id ← require_text rt (codes "event_id") 128 a.event_id
  status ← require_text rt (codes "status") 64 a.status
  route ← optional_text rt (codes "route") 128 a.route
  let message = normalize_message rt a.message
  acknowledged_at ← check_iso rt (codes "acknowledged_at") a.acknowledged_at
  ok (record {
    event_id = event_id;
    accepted = a.accepted;
    route = route;
    status = status;
    message = message;
    acknowledged_at = acknowledged_at;
    schema_version = a.schema_version;
  })

unfoldable pub to_dict : EventAcknowledgement → Fields
to_dict a = field (codes "event_id") (str a.event_id) (
    field (codes "accepted") (bool a.accepted) (
      field (codes "route") (of_optional a.route) (
        field (codes "status") (str a.status) (
          field (codes "message") (of_optional a.message) (
            field (codes "acknowledged_at") (str a.acknowledged_at)
              (field (codes "schema_version") a.schema_version end))))))

pub record IsValid (rt : Runtime) (a : EventAcknowledgement) : Type 0 where
  pub schema : is_one a.schema_version ≡ true
  pub event_id : IsClean 128 a.event_id
  pub status : IsClean 64 a.status
  pub route : OptionalIsClean 128 a.route
  pub acknowledged_at : rt.is_iso a.acknowledged_at ≡ true

pub post_init-IsValid :
    (rt : Runtime) (a : AcknowledgementArgs) → Returns (IsValid rt) (post_init rt a)
unfolding post_init
post_init-IsValid rt a =
    let P = IsValid rt in
    Returns-raise_if P _ _ λ schema.
      Returns-bind _ P (clean_text-IsClean complaints rt _ _ _) λ event_id hi.
        Returns-bind _ P (clean_text-IsClean complaints rt _ _ _) λ status hs.
          Returns-bind _ P (optional_clean_text-IsClean complaints rt _ _ _) λ route hr.
            Returns-bind _ P (iso_text-Returns complaints rt _ _) λ at ha. Returns-ok P (record {
              schema = not-false _ schema;
              event_id = hi;
              status = hs;
              route = hr;
              acknowledged_at = ha;
            })
