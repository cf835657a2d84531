-- ===== src/RuntimeContract/Status.antt =====
-- `RuntimeStatus` of runtime_contract.py: its construction, its dict and what it says of a request.
pub mod Valid
pub mod RoundTrip
use etroute.Prelude.{
  ℕ, Bool, true, false, not, ◌&&◌, ◌||◌, Option, none, some, List, [], ◌∷◌, length, if◌then◌else◌,
  ◌==◌, ok, err, ◌>>=◌, ◌>>◌, raise_if,
}
use etroute.Python.Text.{Text, codes, strip, text_eq}
use etroute.Python.Value.{
  Value, str, arr, obj, null, int, pos, bool, Fields, end, field, get, pop, keys, contains, without,
  is_one, is_some, or_default, of_optional, sorted, own, insert_sorted,
}
use etroute.Python.Runtime.{Runtime, to_text}
use etroute.RuntimeContract.Enums.{
  RuntimeState, RuntimeStage, BackendId, BackendLifecycle, state_value, stage_value, backend_value,
  lifecycle_value, find_state, find_stage, find_backend, find_lifecycle,
}
use etroute.RuntimeContract.Checks.{
  Checked, Reason, raise, unsupported_schema, unknown_fields, missing_fields, not_object,
  not_boolean, invalid_json, running_not_ready, ready_in_wrong_stage, running_stage_in_wrong_state,
  max_text, require_text, require_generation, validate_mapping, check_iso, member_of, optional_text,
}
use etroute.RuntimeContract.Request.{RuntimeRequest}

pub record StatusArgs : Type 0 where
  pub generation : Value
  pub request_id : Value
  pub session_id : Value
  pub state : Value
  pub backend : Value
  pub backend_lifecycle : Value
  pub stage : Value
  pub ready : Value
  pub probe_ok : Value
  pub alive : Value
  pub rootfs_profile : Value
  pub execution_id : Value
  pub message : Value
  pub diagnostics : Value
  pub updated_at : Value
  pub schema_version : Value

pub record RuntimeStatus : Type 0 where
  pub generation : ℕ
  pub request_id : Text
  pub session_id : Text
  pub state : RuntimeState
  pub backend : BackendId
  pub backend_lifecycle : BackendLifecycle
  pub stage : RuntimeStage
  pub ready : Bool
  pub probe_ok : Bool
  pub alive : Bool
  pub rootfs_profile : Option Text
  pub execution_id : Option Text
  pub message : Option Text
  pub diagnostics : Fields
  pub updated_at : Text
  pub schema_version : Value

-- `isinstance(value, bool)`
unfoldable pub require_boolean : Text → Value → Checked Bool
require_boolean name (bool b) = ok b
require_boolean name _ = raise (not_boolean name)

-- `str(message).strip() or None`
abbrev pub or_none : Text → Option Text
or_none [] = none
or_none (c ∷ s) = some (c ∷ s)

unfoldable pub normalize_message : Runtime → Value → Option Text
normalize_message rt null = none
normalize_message rt value = or_none (strip (to_text rt value))

unfoldable pub is_running : RuntimeState → Bool
is_running RuntimeState.running = true
is_running _ = false

unfoldable pub is_running_stage : RuntimeStage → Bool
is_running_stage RuntimeStage.running = true
is_running_stage _ = false

-- `stage in {READY, RUNNING}`
unfoldable pub is_ready_stage : RuntimeStage → Bool
is_ready_stage RuntimeStage.ready = true
is_ready_stage RuntimeStage.running = true
is_ready_stage _ = false

-- `__post_init__`
unfoldable pub post_init : Runtime → StatusArgs → Checked RuntimeStatus
post_init rt a = do
  raise_if (not (is_one a.schema_version)) (own (unsupported_schema a.schema_version))
  generation ← require_generation a.generation
  request_id ← require_text rt (codes "request_id") max_text a.request_id
  session_id ← require_text rt (codes "session_id") max_text a.session_id
  state ← member_of find_state a.state
  backend ← member_of find_backend a.backend
  backend_lifecycle ← member_of find_lifecycle a.backend_lifecycle
  stage ← member_of find_stage a.stage
  diagnostics ← validate_mapping (codes "diagnostics") a.diagnostics
  ready ← require_boolean (codes "ready") a.ready
  probe_ok ← require_boolean (codes "probe_ok") a.probe_ok
  alive ← require_boolean (codes "alive") a.alive
  rootfs_profile ← optional_text rt (codes "rootfs_profile") 128 a.rootfs_profile
  execution_id ← optional_text rt (codes "execution_id") max_text a.execution_id
  let message = normalize_message rt a.message
  raise_if (is_running state && not (ready && probe_ok && alive)) (own running_not_ready)
  raise_if (ready && not (is_ready_stage stage)) (own ready_in_wrong_stage)
  raise_if (is_running_stage stage && not (is_running state)) (own running_stage_in_wrong_state)
  updated_at ← check_iso rt (codes "updated_at") a.updated_at
  ok (record {
    generation = generation;
    request_id = request_id;
    session_id = session_id;
    state = state;
    backend = backend;
    backend_lifecycle = backend_lifecycle;
    stage = stage;
    ready = ready;
    probe_ok = probe_ok;
    alive = alive;
    rootfs_profile = rootfs_profile;
    execution_id = execution_id;
    message = message;
    diagnostics = diagnostics;
    updated_at = updated_at;
    schema_version = a.schema_version;
  })

unfoldable pub authoritative_running : RuntimeStatus → Bool
unfolding is_running
authoritative_running s = is_running s.state && s.ready && s.probe_ok && s.alive

unfoldable pub matches : RuntimeStatus → RuntimeRequest → Bool
unfolding text_eq
matches s r =
    s.generation == r.generation
    && text_eq s.request_id r.request_id
    && text_eq s.session_id r.session_id

unfoldable pub to_dict : RuntimeStatus → Fields
to_dict s = field (codes "generation") (int (pos s.generation)) (
    field (codes "request_id") (str s.request_id) (
      field (codes "session_id") (str s.session_id) (
        field (codes "state") (str (state_value s.state)) (
          field (codes "backend") (str (backend_value s.backend)) (
            field (codes "backend_lifecycle") (str (lifecycle_value s.backend_lifecycle)) (
              field (codes "stage") (str (stage_value s.stage)) (
                field (codes "ready") (bool s.ready) (
                  field (codes "probe_ok") (bool s.probe_ok) (
                    field (codes "alive") (bool s.alive) (
                      field (codes "rootfs_profile") (of_optional s.rootfs_profile) (
                        field (codes "execution_id") (of_optional s.execution_id) (
                          field (codes "message") (of_optional s.message) (
                            field (codes "diagnostics") (obj s.diagnostics) (
                              field (codes "updated_at") (str s.updated_at) (
                                field (codes "schema_version") s.schema_version (
                                  field (codes "authoritative_running")
                                    (bool (authoritative_running s)) end))))))))))))))))

abbrev pub required : List Text
required =
    codes "generation"
    ∷ codes "request_id"
    ∷ codes "session_id"
    ∷ codes "state"
    ∷ codes "backend"
    ∷ codes "backend_lifecycle"
    ∷ codes "stage"
    ∷ codes "ready"
    ∷ codes "probe_ok"
    ∷ codes "alive"
    ∷ []

abbrev pub allowed : List Text
allowed =
    codes "schema_version"
    ∷ codes "generation"
    ∷ codes "request_id"
    ∷ codes "session_id"
    ∷ codes "state"
    ∷ codes "backend"
    ∷ codes "backend_lifecycle"
    ∷ codes "stage"
    ∷ codes "ready"
    ∷ codes "probe_ok"
    ∷ codes "alive"
    ∷ codes "rootfs_profile"
    ∷ codes "execution_id"
    ∷ codes "message"
    ∷ codes "diagnostics"
    ∷ codes "updated_at"
    ∷ []

-- `cls(**data)`; `now` is what the default factory of `updated_at` draws.
unfoldable pub arguments : Text → Fields → StatusArgs
unfolding get
arguments now d = record {
  generation = or_default (get d (codes "generation")) null;
  request_id = or_default (get d (codes "request_id")) null;
  session_id = or_default (get d (codes "session_id")) null;
  state = or_default (get d (codes "state")) null;
  backend = or_default (get d (codes "backend")) null;
  backend_lifecycle = or_default (get d (codes "backend_lifecycle")) null;
  stage = or_default (get d (codes "stage")) null;
  ready = or_default (get d (codes "ready")) null;
  probe_ok = or_default (get d (codes "probe_ok")) null;
  alive = or_default (get d (codes "alive")) null;
  rootfs_profile = or_default (get d (codes "rootfs_profile")) null;
  execution_id = or_default (get d (codes "execution_id")) null;
  message = or_default (get d (codes "message")) null;
  diagnostics = or_default (get d (codes "diagnostics")) (obj end);
  updated_at = or_default (get d (codes "updated_at")) (str now);
  schema_version = or_default (get d (codes "schema_version")) (int (pos 1));
}

unfoldable pub from_fields : Runtime → Text → Fields → Checked RuntimeStatus
unfolding keys without pop
from_fields rt now value = do
  let d = pop value (codes "authoritative_running")
  let unknown = sorted (without (keys d) allowed)
  raise_if (not (length unknown == 0)) (own (unknown_fields unknown))
  let missing = sorted (without required (keys d))
  raise_if (not (length missing == 0)) (own (missing_fields missing))
  post_init rt (arguments now d)

unfoldable pub from_dict : Runtime → Text → Value → Checked RuntimeStatus
unfolding from_fields
from_dict rt now (obj d) = from_fields rt now d
from_dict rt now _ = raise (not_object (codes "runtime status"))

unfoldable pub from_json : Runtime → Text → Text → Checked RuntimeStatus
unfolding from_dict
from_json rt now text = elim (rt.loads text) [
  | none ↦ raise invalid_json
  | some value ↦ from_dict rt now value
]
