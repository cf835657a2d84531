-- ===== src/Tests/Bridge.antt =====
-- tools/etumax_bridge.py at concrete runs: one that succeeds, and one whose event lacks its payload.
use etroute.Prelude.{
  ℕ, ◌≡◌, refl, ◌⊎◌, inr, true, false, Option, none, some, [], ok, err, ◌>>=◌, raise_if, length,
  if◌then◌else◌, ◌==◌,
}
use etroute.Python.Text.{Text, codes, strip, strip_left, is_space, text_eq}
use etroute.Python.Value.{
  int, str, obj, bool, pos, Fields, end, field, get, is_one, is_true, is_false, is_text, type_error,
}
use etroute.EtumaxBridge.Diagnostic.{
  parse_single_json_document, require_mapping, validate_diagnostic,
}
use etroute.EtumaxBridge.Input.{
  Arguments, World, os_error, completed, load_event, load_from, resolve_correlation, build_command,
}
use etroute.EtumaxBridge.Envelope.{base_envelope, with_event, state_completed, state_failed}
use etroute.EtumaxBridge.Run.{run_bridge, run_loaded, run_with, run_child, finish, check_output}
use etroute.EtumaxBridge.Run.Codes.{run_bridge-IsAnswer}
use etroute.EtumaxBridge.Run.Success.{IsSuccess, run_bridge-IsSuccess}
use etroute.EtumaxBridge.Run.Total.{incomplete_event_escapes}
use etroute.Tests.Host.{host, disk}
use etroute.Tests.Protocol.{
  fresh, incomplete, incomplete-type, incomplete-known, incomplete-payload, type-ne-null,
}

abbrev report : Fields
report = field (codes "schema_version") (int (pos 1)) (
    field (codes "resources") (obj (field (codes "required_binds_visible") (bool true) end)) (
      field (codes "device") (obj end) (
        field (codes "activation") (obj (field (codes "marker") (obj end) end)) (
          field (codes "integration")
            (obj (
              field (codes "declared_caller") (str (codes "etumax")) (
                field (codes "environment_name") (str (codes "lab"))
                  (field (codes "session_id") (str (codes "ses")) end))))
            end))))

-- Every text is the incomplete event as JSON, and begins with the report as JSON.
abbrev pub world : World
world = record {
  runtime = host (λ t. some (obj incomplete)) (λ t. some (obj report, length t));
  files = disk;
  read_text = λ p. os_error;
  event_defaults = fresh;
  now_iso = codes "2026-01-01";
  now = pos 0;
  failed_at_ms = 1;
  started_at_ms = 10;
  finished_at_ms = 30;
  new_request_id = codes "new-request";
  new_session_id = codes "new-session";
  describe = λ r. [];
  run = λ command. completed (pos 0) (codes "{}") [];
}

abbrev pub args : Option Text → Arguments
args event_json = record {
  environment = codes "lab";
  etroute_script = codes "etroute.py";
  python = codes "python";
  guest_python = codes "python3";
  proot = codes "proot";
  kernel_release = none;
  kill_on_exit = false;
  request_id = some [];
  session_id = some (codes "ses");
  event_json = event_json;
  event_file = none;
}

answered : (d : Fields) × (run_bridge world (args none) ≡ ok (d, 0))
unfolding run_bridge run_loaded run_with run_child finish check_output load_event load_from
    resolve_correlation build_command parse_single_json_document validate_diagnostic require_mapping
    with_event base_envelope strip strip_left is_space text_eq is_one is_true is_false is_text get
    ◌>>=◌ raise_if
answered = (_, refl)

run_bridge-IsAnswer_example :
    (◌≡◌ {A = ℕ} 0 0 ⊎ (◌≡◌ {A = ℕ} 0 20 ⊎ (◌≡◌ {A = ℕ} 0 21 ⊎ ◌≡◌ {A = ℕ} 0 22)))
    × (get answered.0 (codes "ok") ≡ some (bool (0 == 0)))
    × (get answered.0 (codes "state")
        ≡ some (str (if 0 == 0 then state_completed else state_failed)))
run_bridge-IsAnswer_example = run_bridge-IsAnswer world (args none) answered.0 0 answered.1

run_bridge-IsSuccess_example : IsSuccess world (args none)
run_bridge-IsSuccess_example = run_bridge-IsSuccess world (args none) answered.0 answered.1

correlated : resolve_correlation world (args none) none ≡ ok (codes "new-request", codes "ses")
unfolding resolve_correlation ◌>>=◌ raise_if
correlated = refl

incomplete_event_escapes_example : run_bridge world (args (some (codes "x"))) ≡ err type_error
incomplete_event_escapes_example =
    incomplete_event_escapes world (args (some (codes "x"))) b'x' [] incomplete (str (codes "SYNC"))
      refl refl incomplete-type type-ne-null incomplete-known (inr incomplete-payload)
