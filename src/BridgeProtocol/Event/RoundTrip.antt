-- ===== src/BridgeProtocol/Event/RoundTrip.antt =====
-- bridge_protocol.py: `EventEnvelope.from_dict` and `to_dict`.
use etroute.Prelude.{
  ◌≡◌, refl, ◌≢◌, ◌∙◌, true, none, some, Option, ok, err, ◌>>=◌, raise_if, Returns, Returns-bind,
  Returns-raise_if, Returns-any, Returns-mono, Returns-self, All, not-false, Option-cases, [], ◌⊎◌,
  inl, inr,
}
use etroute.Python.Text.{codes}
use etroute.Python.Value.{
  Value, null, Fields, obj, keys, pop, get, contains, sorted, without, type_error,
}
use etroute.Python.Value.Laws.{sorted-without-allowed}
use etroute.Python.Runtime.{Runtime}
use etroute.BridgeProtocol.Event.{
  EventArgs, EventEnvelope, Defaults, allowed, arguments, given_type, post_init, to_dict,
  from_fields, from_dict,
}
use etroute.BridgeProtocol.Event.Valid.{IsValid, args_of, post_init-IsValid, post_init-args_of}

from_dict-to_dict :
    (rt : Runtime) (fresh : Defaults) (e : EventEnvelope)
    → from_dict rt fresh (obj (to_dict e)) ≡ post_init rt (args_of e)
unfolding from_dict to_dict ◌>>=◌ raise_if sorted arguments
from_dict-to_dict rt fresh e = refl

-- An event that was constructed is read back from its dict as it is, whatever the fresh defaults.
pub event_round_trip :
    (rt : Runtime) (fresh : Defaults) (a : EventArgs) (e : EventEnvelope)
    → post_init rt a ≡ ok e
    → from_dict rt fresh (obj (to_dict e)) ≡ ok e
event_round_trip rt fresh a e made =
    from_dict-to_dict rt fresh e ∙ post_init-args_of rt e ((post_init-IsValid rt a).at e made)

abbrev IsRead : Runtime → Fields → EventEnvelope → Type 0
IsRead rt d e =
    IsValid rt e
    × All (λ k. contains allowed k ≡ true) (keys (pop d (codes "type")))
    × (get d (codes "type") ≢ none)

given_type-ne-none : {v : Value} (o : Option Value) → given_type o ≡ ok v → o ≢ none
given_type-ne-none none h e = cc
given_type-ne-none (some v) h e = cc

given_type-eq : (o : Option Value) (t : Value) → o ≡ some t → t ≢ null → given_type o ≡ ok t
given_type-eq o null h k = absurd (k refl)
given_type-eq o t h k = rw h

from_fields-IsRead :
    (rt : Runtime) (fresh : Defaults) (d : Fields) → Returns (IsRead rt d) (from_fields rt fresh d)
unfolding from_fields
from_fields-IsRead rt fresh d =
    let P = IsRead rt d in
    Returns-bind (λ v. given_type (get d (codes "type")) ≡ ok v) P Returns-self
      λ event_type given. Returns-raise_if P _ _ λ unknown. Returns-bind _ P Returns-any λ source _.
        Returns-bind _ P Returns-any λ payload _.
          Returns-mono (IsValid rt) P
            (λ e v. (
              v,
              sorted-without-allowed (keys (pop d (codes "type"))) allowed (not-false _ unknown),
              given_type-ne-none _ given,
            ))
            (post_init-IsValid rt _)

-- What `from_dict` makes of a dict is a valid event. The dict has a `type` and, but for it, no key
-- beyond the ten fields of the wire format.
pub event_from_dict-IsValid :
    (rt : Runtime) (fresh : Defaults) (v : Value) (e : EventEnvelope)
    → from_dict rt fresh v ≡ ok e
    → IsValid rt e
      × (d : Fields) × (v ≡ obj d)
      × All (λ k. contains allowed k ≡ true) (keys (pop d (codes "type")))
      × (get d (codes "type") ≢ none)
unfolding from_dict
event_from_dict-IsValid rt fresh (obj d) e h =
    let read = (from_fields-IsRead rt fresh d).at e h in (read.0, d, refl, read.1, read.2)
event_from_dict-IsValid rt fresh _ e h = cc

-- A dict with a `type` and only known fields, but without `source` or without `payload`, makes
-- `from_dict` raise TypeError, which is no ProtocolError.
pub missing_field_is_type_error :
    (rt : Runtime) (fresh : Defaults) (d : Fields) (t : Value)
    → get d (codes "type") ≡ some t
    → t ≢ null
    → without (keys (pop d (codes "type"))) allowed ≡ []
    → (get (pop d (codes "type")) (codes "source") ≡ none)
      ⊎ (get (pop d (codes "type")) (codes "payload") ≡ none)
    → from_dict rt fresh (obj d) ≡ err type_error
unfolding from_dict ◌>>=◌ raise_if sorted
missing_field_is_type_error rt fresh d t given some_type known (inl none_e) =
    rw (given_type-eq _ t given some_type, known, none_e)
missing_field_is_type_error rt fresh d t given some_type known (inr none_e) =
    elim (Option-cases (get (pop d (codes "type")) (codes "source"))) [
      | inl e ↦ rw (given_type-eq _ t given some_type, known, e)
      | inr (s, e) ↦ rw (given_type-eq _ t given some_type, known, e, none_e)
    ]
