-- ===== src/EtumaxBridge/Run.antt =====
-- tools/etumax_bridge.py: `run_bridge`, from the arguments to the envelope and the exit code.
pub mod Codes
pub mod Success
pub mod Answers
pub mod Total
use etroute.Prelude.{
  ℕ, ◌≡◌, Bool, true, false, not, Option, none, some, List, [], ◌∷◌, Result, ok, err, ◌>>=◌, ◌>>◌,
  raise_if, ◌==◌,
}
use etroute.Python.Text.{Text, codes}
use etroute.Python.Value.{
  Value, str, obj, null, int, ℤ, pos, negsuc, bool, Fields, end, field, Raised, own, value_error,
  type_error, attribute_error, overflow_error, update,
}
use etroute.BridgeProtocol.Event.{EventEnvelope}
use etroute.EtumaxBridge.Diagnostic.{
  Reason, Contract, exit_code_not_zero, parse_single_json_document, validate_diagnostic,
}
use etroute.EtumaxBridge.Input.{
  Arguments, World, Outcome, completed, timed_out, launch_failed, invalid_argument, load_event,
  resolve_correlation, build_command,
}
use etroute.EtumaxBridge.Envelope.{
  Crash, Run, base_envelope, error_fields, process_fields, with_event, event_failure_envelope,
  state_completed, state_failed,
}

abbrev pub is_zero : ℤ → Bool
is_zero (pos n) = n == 0
is_zero (negsuc n) = false

-- The `try` behind the subprocess: it raises nothing but `ContractError`.
unfoldable pub check_output : World → Arguments → Text → ℤ → Text → Contract Fields
check_output w a session_id code out = do
  diagnostic ← parse_single_json_document w.runtime out
  raise_if (not (is_zero code)) exit_code_not_zero
  valid ← validate_diagnostic diagnostic a.environment session_id
  ok diagnostic

abbrev pub run_of : World → Arguments → Text → Text → Run
run_of w a request_id session_id = record {
  request_id = request_id;
  session_id = session_id;
  environment = a.environment;
  started_at_ms = w.started_at_ms;
  finished_at_ms = w.finished_at_ms;
}

abbrev pub with_code : ℕ → Result Crash Fields → Result Crash (Fields × ℕ)
with_code code (ok d) = ok (d, code)
with_code code (err e) = err e

-- What follows a run that has ended.
unfoldable pub finish :
    World
    → Arguments
    → Option EventEnvelope
    → Run
    → ℤ
    → Text
    → Text
    → Contract Fields
    → Result Crash (Fields × ℕ)
finish w a event r code out errors (err reason) = with_code 21 (
    with_event w event false none (codes "rejected") (w.describe reason) (
      update (base_envelope r state_failed) (
        field (codes "ok") (bool false) (
          field (codes "process") (obj (process_fields code out errors)) (
            field (codes "error")
              (obj (
                field (codes "kind") (str (codes "contract_error"))
                  (field (codes "message") (str (w.describe reason)) end)))
              end)))))
finish w a event r code out errors (ok diagnostic) = with_code 0 (
    with_event w event true (some (codes "etroute.one-shot")) (codes "accepted")
      (codes "validated by the ETroute one-shot bridge; persistent Android delivery is not implied")
      (update (base_envelope r state_completed) (
        field (codes "ok") (bool true) (
          field (codes "process") (obj (process_fields code out errors))
            (field (codes "diagnostic") (obj diagnostic) end)))))

-- The subprocess, with the two exceptions that are caught: a ValueError is not.
unfoldable pub run_child :
    World → Arguments → Option EventEnvelope → Text → Text → Outcome → Result Crash (Fields × ℕ)
unfolding finish
run_child w a event request_id session_id (timed_out message) = with_code 20 (
    with_event w event false none (codes "rejected") (codes "ETroute one-shot handshake timed out")
      (update (base_envelope (run_of w a request_id session_id) state_failed)
        (error_fields (codes "timeout") message)))
run_child w a event request_id session_id (launch_failed message) = with_code 20 (
    with_event w event false none (codes "rejected")
      (codes "ETroute one-shot handshake could not launch")
      (update (base_envelope (run_of w a request_id session_id) state_failed)
        (error_fields (codes "launch_error") message)))
run_child w a event request_id session_id invalid_argument = err value_error
run_child w a event request_id session_id (completed code out errors) =
    finish w a event (run_of w a request_id session_id) code out errors
      (check_output w a session_id code out)

-- From the event on.
unfoldable pub run_with :
    World → Arguments → Option EventEnvelope → Contract (Text × Text) → Result Crash (Fields × ℕ)
unfolding run_child
run_with w a event (err reason) =
    with_code 22 (event_failure_envelope w a (w.describe reason) event)
run_with w a event (ok (request_id, session_id)) =
    run_child w a event request_id session_id (w.run (build_command w a session_id))

unfoldable pub run_loaded :
    World → Arguments → Result (Raised Reason) (Option EventEnvelope) → Result Crash (Fields × ℕ)
unfolding run_with
run_loaded w a (ok event) = run_with w a event (resolve_correlation w a event)
run_loaded w a (err (own reason)) =
    with_code 22 (event_failure_envelope w a (w.describe reason) none)
run_loaded w a (err value_error) = err value_error
run_loaded w a (err type_error) = err type_error
run_loaded w a (err attribute_error) = err attribute_error
run_loaded w a (err overflow_error) = err overflow_error

-- `run_bridge`
unfoldable pub run_bridge : World → Arguments → Result Crash (Fields × ℕ)
unfolding run_loaded
run_bridge w a = run_loaded w a (load_event w a)
