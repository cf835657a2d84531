-- ===== src/RuntimeContract/Request.antt =====
-- `RuntimeRequest` of runtime_contract.py. `RequestArgs` holds the arguments of the constructor,
-- each with whatever value the caller gave; a `RuntimeRequest` is what `__post_init__` leaves.
pub mod Valid
pub mod RoundTrip
use etroute.Prelude.{
  ℕ, ◌≡◌, refl, Bool, true, false, not, Option, none, some, List, [], ◌∷◌, map, length,
  if◌then◌else◌, ◌==◌, ok, err, ◌>>=◌, ◌>>◌, raise_if,
}
use etroute.Python.Text.{Text, codes, lower}
use etroute.Python.Value.{
  Value, str, arr, obj, null, int, pos, Items, nil, cons, Fields, end, field, get, keys, contains,
  without, is_one, is_some, or_default, of_optional, of_texts, tuple_of, sorted, own, type_error,
}
use etroute.Python.Runtime.{Runtime}
use etroute.RuntimeContract.Enums.{
  RuntimeCommand, BackendId, command_value, backend_value, find_command, find_backend, et_route,
}
use etroute.RuntimeContract.Checks.{
  Checked, Reason, raise, unsupported_schema, unknown_fields, field_required, not_object,
  invalid_json, max_text, require_text, require_generation, validate_mapping, check_iso, member_of,
  optional_text,
}

pub record RequestArgs : Type 0 where
  pub command : Value
  pub generation : Value
  pub request_id : Value
  pub session_id : Value
  pub preferred_backend : Value
  pub rootfs_profile : Value
  pub requirements : Items
  pub options : Value
  pub created_at : Value
  pub schema_version : Value

pub record RuntimeRequest : Type 0 where
  pub command : RuntimeCommand
  pub generation : ℕ
  pub request_id : Text
  pub session_id : Text
  pub preferred_backend : BackendId
  pub rootfs_profile : Option Text
  pub requirements : List Text
  pub options : Fields
  pub created_at : Text
  pub schema_version : Value

-- What the default factories draw: fresh identifiers and the current time.
pub record Defaults : Type 0 where
  pub request_id : Text
  pub session_id : Text
  pub now : Text

-- The loop over the requirements.
unfoldable pub normalize_requirements : Runtime → Items → Checked (List Text)
normalize_requirements rt nil = ok []
normalize_requirements rt (cons x xs) = do
  text ← require_text rt (codes "requirement") 128 x
  rest ← normalize_requirements rt xs
  ok (lower rt.lower_wide text ∷ rest)

-- `__post_init__`
unfoldable pub post_init : Runtime → RequestArgs → Checked RuntimeRequest
post_init rt a = do
  raise_if (not (is_one a.schema_version)) (own (unsupported_schema a.schema_version))
  command ← member_of find_command a.command
  generation ← require_generation a.generation
  request_id ← require_text rt (codes "request_id") max_text a.request_id
  session_id ← require_text rt (codes "session_id") max_text a.session_id
  preferred_backend ← member_of find_backend a.preferred_backend
  options ← validate_mapping (codes "options") a.options
  rootfs_profile ← optional_text rt (codes "rootfs_profile") 128 a.rootfs_profile
  requirements ← normalize_requirements rt a.requirements
  created_at ← check_iso rt (codes "created_at") a.created_at
  ok (record {
    command = command;
    generation = generation;
    request_id = request_id;
    session_id = session_id;
    preferred_backend = preferred_backend;
    rootfs_profile = rootfs_profile;
    requirements = requirements;
    options = options;
    created_at = created_at;
    schema_version = a.schema_version;
  })

unfoldable pub to_dict : RuntimeRequest → Fields
to_dict r = field (codes "command") (str (command_value r.command)) (
    field (codes "generation") (int (pos r.generation)) (
      field (codes "request_id") (str r.request_id) (
        field (codes "session_id") (str r.session_id) (
          field (codes "preferred_backend") (str (backend_value r.preferred_backend)) (
            field (codes "rootfs_profile") (of_optional r.rootfs_profile) (
              field (codes "requirements") (arr (of_texts r.requirements)) (
                field (codes "options") (obj r.options) (
                  field (codes "created_at") (str r.created_at)
                    (field (codes "schema_version") r.schema_version end)))))))))

abbrev pub allowed : List Text
allowed =
    codes "schema_version"
    ∷ codes "command"
    ∷ codes "generation"
    ∷ codes "request_id"
    ∷ codes "session_id"
    ∷ codes "preferred_backend"
    ∷ codes "rootfs_profile"
    ∷ codes "requirements"
    ∷ codes "options"
    ∷ codes "created_at"
    ∷ []

-- The `requirements` that `cls(**data)` gets: `tuple(...)` raises TypeError on what is not iterable.
unfoldable requirements_of : Option Value → Checked Items
unfolding tuple_of
requirements_of none = ok nil
requirements_of (some v) = elim (tuple_of v) [ some xs ↦ ok xs | none ↦ err type_error ]

-- `cls(**data)`, with the defaults of the fields that `data` lacks.
unfoldable pub arguments : Defaults → Fields → Items → RequestArgs
unfolding get
arguments fresh d requirements = record {
  command = or_default (get d (codes "command")) null;
  generation = or_default (get d (codes "generation")) null;
  request_id = or_default (get d (codes "request_id")) (str fresh.request_id);
  session_id = or_default (get d (codes "session_id")) (str fresh.session_id);
  preferred_backend = or_default (get d (codes "preferred_backend")) (str (backend_value et_route));
  rootfs_profile = or_default (get d (codes "rootfs_profile")) null;
  requirements = requirements;
  options = or_default (get d (codes "options")) (obj end);
  created_at = or_default (get d (codes "created_at")) (str fresh.now);
  schema_version = or_default (get d (codes "schema_version")) (int (pos 1));
}

unfoldable pub from_fields : Runtime → Defaults → Fields → Checked RuntimeRequest
unfolding requirements_of keys without get
from_fields rt fresh d = do
  let unknown = sorted (without (keys d) allowed)
  raise_if (not (length unknown == 0)) (own (unknown_fields unknown))
  raise_if (not (is_some (get d (codes "command")))) (own (field_required (codes "command")))
  raise_if (not (is_some (get d (codes "generation")))) (own (field_required (codes "generation")))
  requirements ← requirements_of (get d (codes "requirements"))
  post_init rt (arguments fresh d requirements)

unfoldable pub from_dict : Runtime → Defaults → Value → Checked RuntimeRequest
unfolding from_fields
from_dict rt fresh (obj d) = from_fields rt fresh d
from_dict rt fresh _ = raise (not_object (codes "runtime request"))

unfoldable pub from_json : Runtime → Defaults → Text → Checked RuntimeRequest
unfolding from_dict
from_json rt fresh text = elim (rt.loads text) [
  | none ↦ raise invalid_json
  | some value ↦ from_dict rt fresh value
]
