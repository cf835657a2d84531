-- ===== src/RuntimeContract/Request/RoundTrip.antt =====
-- `RuntimeRequest.from_dict` reads back what `to_dict` writes, and takes nothing else.
use etroute.Prelude.{
  ◌≡◌, refl, ◌∙◌, true, ok, Returns, ◌>>=◌, raise_if, Returns-bind, Returns-raise_if, Returns-ok,
  Returns-any, Returns-mono, not-false, All,
}
use etroute.Python.Value.{Value, Fields, obj, keys, contains, sorted}
use etroute.Python.Value.Laws.{sorted-without-allowed}
use etroute.Python.Runtime.{Runtime}
use etroute.RuntimeContract.Request.{
  RequestArgs, RuntimeRequest, Defaults, arguments, allowed, post_init, to_dict, from_fields,
  from_dict,
}
use etroute.RuntimeContract.Request.Valid.{
  IsValid, AsciiItems, AreLowered, args_of, post_init-IsValid, normalize_requirements-AreLowered,
  post_init-args_of,
}

from_dict-to_dict :
    (rt : Runtime) (fresh : Defaults) (r : RuntimeRequest)
    → from_dict rt fresh (obj (to_dict r)) ≡ post_init rt (args_of r)
unfolding from_dict to_dict ◌>>=◌ raise_if sorted arguments
from_dict-to_dict rt fresh r = refl

post_init-AreLowered :
    (rt : Runtime) (a : RequestArgs)
    → AsciiItems a.requirements
    → Returns (λ r. AreLowered rt r.requirements) (post_init rt a)
unfolding post_init
post_init-AreLowered rt a h =
    let P = λ (r : RuntimeRequest). AreLowered rt r.requirements in
    Returns-raise_if P _ _ λ _. Returns-bind _ P Returns-any λ command _.
      Returns-bind _ P Returns-any λ generation _. Returns-bind _ P Returns-any λ request_id _.
        Returns-bind _ P Returns-any λ session_id _. Returns-bind _ P Returns-any λ backend _.
          Returns-bind _ P Returns-any λ options _. Returns-bind _ P Returns-any λ rootfs _.
            Returns-bind _ P (normalize_requirements-AreLowered rt a.requirements h)
              λ requirements k. Returns-bind _ P Returns-any λ created _. Returns-ok P k

-- A request that was constructed with ASCII requirements is read back from its dict as it is,
-- whatever the fresh defaults are.
pub request_round_trip :
    (rt : Runtime) (fresh : Defaults) (a : RequestArgs) (r : RuntimeRequest)
    → post_init rt a ≡ ok r
    → AsciiItems a.requirements
    → from_dict rt fresh (obj (to_dict r)) ≡ ok r
request_round_trip rt fresh a r made ascii =
    from_dict-to_dict rt fresh r
    ∙ post_init-args_of rt r ((post_init-IsValid rt a).at r made)
        ((post_init-AreLowered rt a ascii).at r made)

abbrev IsRead : Runtime → Fields → RuntimeRequest → Type 0
IsRead rt d r = IsValid rt r × All (λ k. contains allowed k ≡ true) (keys d)

from_fields-IsRead :
    (rt : Runtime) (fresh : Defaults) (d : Fields) → Returns (IsRead rt d) (from_fields rt fresh d)
unfolding from_fields
from_fields-IsRead rt fresh d = Returns-raise_if (IsRead rt d) _ _ λ unknown.
    Returns-raise_if (IsRead rt d) _ _ λ _. Returns-raise_if (IsRead rt d) _ _ λ _.
      Returns-bind _ (IsRead rt d) Returns-any λ requirements _.
        Returns-mono (IsValid rt) (IsRead rt d)
          (λ r v. (v, sorted-without-allowed (keys d) allowed (not-false _ unknown)))
          (post_init-IsValid rt _)

-- What `from_dict` makes of a dict is a valid request, and every key of the dict is one of the
-- ten fields; a value that is no dict is refused.
request_from_dict-IsValid :
    (rt : Runtime) (fresh : Defaults) (v : Value) (r : RuntimeRequest)
    → from_dict rt fresh v ≡ ok r
    → IsValid rt r × (d : Fields) × (v ≡ obj d) × All (λ k. contains allowed k ≡ true) (keys d)
unfolding from_dict
request_from_dict-IsValid rt fresh (obj d) r h =
    let read = (from_fields-IsRead rt fresh d).at r h in (read.0, d, refl, read.1)
request_from_dict-IsValid rt fresh _ r h = cc
