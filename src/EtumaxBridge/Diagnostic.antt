-- ===== src/EtumaxBridge/Diagnostic.antt =====
-- tools/etumax_bridge.py: the report of the diagnostic, read from stdout and checked.
pub mod Report
use etroute.Prelude.{
  ℕ, zero, suc, ◌≡◌, Bool, true, false, not, Option, none, some, List, [], ◌∷◌, length, ◌==◌,
  Result, ok, err, ◌>>=◌, ◌>>◌, raise_if,
}
use etroute.Python.Text.{Text, codes, strip, strip_left}
use etroute.Python.Value.{
  Value, obj, null, int, pos, Fields, get, or_default, is_one, is_text, is_true, is_false,
}
use etroute.Python.Runtime.{Runtime}
use etroute.BridgeProtocol.Checks.{Reason as ProtocolReason}

-- Why a `ContractError` was raised.
pub data Reason : Type 0 where
  not_json trailing_output root_not_object : Reason
  field_not_object : Text → Reason
  unsupported_schema : Value → Reason
  binds_not_visible wrong_kernel_release wrong_caller wrong_environment wrong_session : Reason
  exit_code_not_zero : Reason
  invalid_event : ProtocolReason → Reason
  unreadable_event : Reason
  wrong_source : Text → Reason
  expired_event : Text → Reason
  request_id_conflict session_id_conflict : Reason

abbrev pub Contract : Type 0 → Type 0
Contract = Result Reason

abbrev pub drop : ℕ → Text → Text
drop zero s = s
drop (suc n) [] = []
drop (suc n) (c ∷ s) = drop n s

abbrev pub only_object : Reason → Value → Contract Fields
only_object reason (obj d) = ok d
only_object reason _ = err reason

unfoldable pub parse_single_json_document : Runtime → Text → Contract Fields
unfolding strip strip_left
parse_single_json_document rt text =
    let stripped = strip_left text in
    elim (rt.raw_decode stripped) [
      | none ↦ err not_json
      | some (value, index) ↦ do
        raise_if (not (length (strip (drop index stripped)) == 0)) trailing_output
        only_object root_not_object value
    ]

-- `parent.get(key)`, which must be an object
unfoldable pub require_mapping : Fields → Text → Contract Fields
unfolding get
require_mapping parent key = only_object (field_not_object key) (or_default (get parent key) null)

abbrev pub field_of : Fields → Text → Value
field_of d key = or_default (get d key) null

unfoldable pub validate_diagnostic : Fields → Text → Text → Contract (Unit {0})
validate_diagnostic report environment session_id = do
  raise_if (not (is_one (field_of report (codes "schema_version"))))
      (unsupported_schema (field_of report (codes "schema_version")))
  resources ← require_mapping report (codes "resources")
  device ← require_mapping report (codes "device")
  activation ← require_mapping report (codes "activation")
  integration ← require_mapping report (codes "integration")
  marker ← require_mapping activation (codes "marker")
  raise_if (not (is_true (field_of resources (codes "required_binds_visible")))) binds_not_visible
  raise_if (is_false (field_of device (codes "kernel_release_matches"))) wrong_kernel_release
  raise_if (not (is_text (field_of integration (codes "declared_caller")) (codes "etumax")))
      wrong_caller
  raise_if (not (is_text (field_of integration (codes "environment_name")) environment))
      wrong_environment
  raise_if (not (is_text (field_of integration (codes "session_id")) session_id)) wrong_session
  ok tt
