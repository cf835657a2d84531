-- ===== src/EtumaxBridge/Envelope.antt =====
-- tools/etumax_bridge.py: the envelope that a run answers with.
use etroute.Prelude.{ℕ, ◌-◌, Bool, false, Option, none, some, Result, ok, ◌>>=◌}
use etroute.Python.Text.{Text, codes}
use etroute.Python.Value.{
  str, obj, int, ℤ, pos, bool, Fields, end, field, Raised, update, of_optional, truthy,
}
use etroute.BridgeProtocol.Checks.{Reason as ProtocolReason}
use etroute.BridgeProtocol.Event.{EventEnvelope, to_dict}
use etroute.BridgeProtocol.Acknowledgement as Acknowledgement
use etroute.EtumaxBridge.Input.{Arguments, World, event_id_of, first_id}

-- An exception that leaves `run_bridge`.
abbrev pub Crash : Type 0
Crash = Raised ProtocolReason

abbrev pub state_completed : Text
state_completed = codes "COMPLETED"

abbrev pub state_failed : Text
state_failed = codes "FAILED"

-- The arguments of `_base_envelope` that do not depend on the outcome.
pub record Run : Type 0 where
  pub request_id : Text
  pub session_id : Text
  pub environment : Text
  pub started_at_ms : ℕ
  pub finished_at_ms : ℕ

-- `_base_envelope`; `max(0, finished - started)` is the difference of natural numbers.
unfoldable pub base_envelope : Run → Text → Fields
base_envelope r state = field (codes "schema_version") (int (pos 2)) (
    field (codes "backend") (str (codes "etroute")) (
      field (codes "state") (str state) (
        field (codes "request_id") (str r.request_id) (
          field (codes "session_id") (str r.session_id) (
            field (codes "environment") (str r.environment) (
              field (codes "started_at_ms") (int (pos r.started_at_ms)) (
                field (codes "finished_at_ms") (int (pos r.finished_at_ms)) (
                  field (codes "duration_ms") (int (pos (r.finished_at_ms - r.started_at_ms)))
                    end))))))))

-- The `error` entry.
abbrev pub error_fields : Text → Text → Fields
error_fields kind message = field (codes "ok") (bool false) (
    field (codes "error")
      (obj (field (codes "kind") (str kind) (field (codes "message") (str message) end))) end)

abbrev pub process_fields : ℤ → Text → Text → Fields
process_fields code out errors =
    field (codes "exit_code") (int code)
      (field (codes "stdout") (str out) (field (codes "stderr") (str errors) end))

-- `EventAcknowledgement(...).to_dict()`; its exceptions are not caught.
unfoldable pub acknowledgement :
    World → EventEnvelope → Bool → Option Text → Text → Text → Result Crash Fields
acknowledgement w event accepted route status message = do
  a ← Acknowledgement.post_init w.runtime (record {
    event_id = str event.event_id;
    accepted = accepted;
    route = of_optional route;
    status = str status;
    message = str message;
    acknowledged_at = str w.now_iso;
    schema_version = int (pos 1);
  })
  ok (Acknowledgement.to_dict a)

-- The `event` and `acknowledgement` entries, if there is an event.
unfoldable pub with_event :
    World → Option EventEnvelope → Bool → Option Text → Text → Text → Fields → Result Crash Fields
unfolding to_dict
with_event w none accepted route status message envelope = ok envelope
with_event w (some event) accepted route status message envelope = do
  ack ← acknowledgement w event accepted route status message
  ok (
      update envelope (
        field (codes "event") (obj (to_dict event))
          (field (codes "acknowledgement") (obj ack) end)))

-- `_event_failure_envelope`
unfoldable pub event_failure_envelope :
    World → Arguments → Text → Option EventEnvelope → Result Crash Fields
event_failure_envelope w a message event =
    with_event w event false none (codes "rejected") message (
      update
        (base_envelope
          (record {
            request_id =
                first_id (truthy a.request_id) (event_id_of (λ e. e.request_id) event)
                  w.new_request_id;
            session_id =
                first_id (truthy a.session_id) (event_id_of (λ e. e.session_id) event)
                  w.new_session_id;
            environment = a.environment;
            started_at_ms = w.failed_at_ms;
            finished_at_ms = w.failed_at_ms;
          })
          state_failed)
        (error_fields (codes "event_contract_error") message))
