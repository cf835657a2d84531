-- ===== src/RuntimeContract/Status/RoundTrip.antt =====
-- `RuntimeStatus.from_dict` reads back what `to_dict` writes, and needs its ten required fields.
use etroute.Prelude.{
  ◌≡◌, refl, ◌∙◌, true, ok, ◌>>=◌, raise_if, Returns, Returns-raise_if, Returns-mono, All,
  not-false,
}
use etroute.Python.Text.{Text, codes}
use etroute.Python.Value.{Value, Fields, obj, keys, pop, contains, sorted, of_optional}
use etroute.Python.Value.Laws.{sorted-without-allowed}
use etroute.Python.Runtime.{Runtime}
use etroute.RuntimeContract.Status.{
  StatusArgs, RuntimeStatus, required, allowed, arguments, post_init, to_dict, from_fields,
  from_dict,
}
use etroute.RuntimeContract.Status.Valid.{IsValid, args_of, post_init-IsValid, post_init-args_of}

from_dict-to_dict :
    (rt : Runtime) (now : Text) (s : RuntimeStatus)
    → from_dict rt now (obj (to_dict s)) ≡ post_init rt (args_of s (of_optional s.message))
unfolding from_dict to_dict ◌>>=◌ raise_if sorted arguments
from_dict-to_dict rt now s = refl

-- A status that was constructed is read back from its dict as it is. The dict also holds
-- `authoritative_running`, which the reader drops and does not trust.
pub status_round_trip :
    (rt : Runtime) (now : Text) (a : StatusArgs) (s : RuntimeStatus)
    → post_init rt a ≡ ok s
    → from_dict rt now (obj (to_dict s)) ≡ ok s
status_round_trip rt now a s made =
    let v = (post_init-IsValid rt a).at s made in
    from_dict-to_dict rt now s ∙ post_init-args_of rt s (of_optional s.message) v v.message

abbrev IsRead : Runtime → Fields → RuntimeStatus → Type 0
IsRead rt d s =
    IsValid rt s
    × All (λ k. contains allowed k ≡ true) (keys (pop d (codes "authoritative_running")))
    × All (λ k. contains (keys (pop d (codes "authoritative_running"))) k ≡ true) required

from_fields-IsRead :
    (rt : Runtime) (now : Text) (d : Fields) → Returns (IsRead rt d) (from_fields rt now d)
unfolding from_fields
from_fields-IsRead rt now d = Returns-raise_if (IsRead rt d) _ _ λ unknown.
    Returns-raise_if (IsRead rt d) _ _ λ missing.
      Returns-mono (IsValid rt) (IsRead rt d)
        (λ s v.
          let ks = keys (pop d (codes "authoritative_running")) in
          (
            v,
            sorted-without-allowed ks allowed (not-false _ unknown),
            sorted-without-allowed required ks (not-false _ missing),
          ))
        (post_init-IsValid rt _)

-- What `from_dict` makes of a dict is a valid status. The dict has all ten required fields and,
-- but for `authoritative_running`, no key beyond the sixteen fields.
status_from_dict-IsValid :
    (rt : Runtime) (now : Text) (v : Value) (s : RuntimeStatus)
    → from_dict rt now v ≡ ok s
    → IsValid rt s
      × (d : Fields) × (v ≡ obj d)
      × All (λ k. contains allowed k ≡ true) (keys (pop d (codes "authoritative_running")))
      × All (λ k. contains (keys (pop d (codes "authoritative_running"))) k ≡ true) required
unfolding from_dict
status_from_dict-IsValid rt now (obj d) s h =
    let read = (from_fields-IsRead rt now d).at s h in (read.0, d, refl, read.1, read.2)
status_from_dict-IsValid rt now _ s h = cc
