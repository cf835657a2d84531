-- ===== src/EtumaxBridge/Input.antt =====
-- tools/etumax_bridge.py: the event of the command line, the identifiers that correlate the run, and
-- the command of the diagnostic.
use etroute.Prelude.{
  ℕ, Bool, false, not, Option, none, some, List, [], ◌∷◌, ◌++◌, if◌then◌else◌, Result, ok, err,
  ◌>>=◌, ◌>>◌, raise_if,
}
use etroute.Python.Text.{Text, codes, lower, text_eq}
use etroute.Python.Value.{
  ℤ, Raised, own, value_error, type_error, attribute_error, overflow_error, truthy, or_else,
}
use etroute.Python.Runtime.{Runtime}
use etroute.Python.FileSystem.{FileSystem}
use etroute.BridgeProtocol.Checks.{Checked}
use etroute.BridgeProtocol.Event.{
  EventEnvelope, Defaults, from_json, is_expired, TooLarge, too_large,
}
use etroute.EtumaxBridge.Diagnostic.{
  Reason, Contract, invalid_event, unreadable_event, wrong_source, expired_event,
  request_id_conflict, session_id_conflict,
}

-- The parsed command line.
pub record Arguments : Type 0 where
  pub environment : Text
  pub etroute_script : Text
  pub python : Text
  pub guest_python : Text
  pub proot : Text
  pub kernel_release : Option Text
  pub kill_on_exit : Bool
  pub request_id : Option Text
  pub session_id : Option Text
  pub event_json : Option Text
  pub event_file : Option Text

-- `read_text(encoding="utf-8")`
pub data FileText : Type 0 where
  file_text : Text → FileText
  os_error decode_error : FileText

-- What `subprocess.run` does: the exit code and the two outputs, or the text of the exception.
pub data Outcome : Type 0 where
  completed : ℤ → Text → Text → Outcome
  timed_out launch_failed : Text → Outcome
  -- ValueError, for an argument with NUL or one that cannot be encoded
  invalid_argument : Outcome

-- All that a run meets outside the program: files, clocks, fresh identifiers, the subprocess, and
-- the texts of the messages.
pub record World : Type 0 where
  pub runtime : Runtime
  pub files : FileSystem
  pub read_text : Text → FileText
  pub event_defaults : Defaults
  pub now_iso : Text
  pub now : ℤ
  pub failed_at_ms : ℕ
  pub started_at_ms : ℕ
  pub finished_at_ms : ℕ
  pub new_request_id : Text
  pub new_session_id : Text
  pub describe : Reason → Text
  pub run : List Text → Outcome

-- `except (OSError, ProtocolError)`: any other exception goes on.
abbrev pub event_or_contract : Checked EventEnvelope → Result (Raised Reason) EventEnvelope
event_or_contract (ok e) = ok e
event_or_contract (err (own r)) = err (own (invalid_event r))
event_or_contract (err value_error) = err value_error
event_or_contract (err type_error) = err type_error
event_or_contract (err attribute_error) = err attribute_error
event_or_contract (err overflow_error) = err overflow_error

abbrev pub event_of_file : World → FileText → Result (Raised Reason) EventEnvelope
event_of_file w (file_text t) = event_or_contract (from_json w.runtime w.event_defaults t)
event_of_file w os_error = err (own unreadable_event)
event_of_file w decode_error = err value_error

abbrev pub or_overflow : Result TooLarge Bool → Result (Raised Reason) Bool
or_overflow (ok b) = ok b
or_overflow (err too_large) = err overflow_error

-- The tests behind the `try` of `load_event`.
unfoldable pub check_event : World → EventEnvelope → Result (Raised Reason) (Option EventEnvelope)
check_event w event = do
  raise_if (not (text_eq (lower w.runtime.lower_wide event.source) (codes "etumax")))
      (own (wrong_source event.source))
  expired ← or_overflow (is_expired w.runtime event w.now)
  raise_if expired (own (expired_event event.event_id))
  ok (some event)

-- An empty `--event-json` without a file counts as no event.
unfoldable pub load_from :
    World → Option Text → Option Text → Result (Raised Reason) (Option EventEnvelope)
load_from w none none = ok none
load_from w none (some path) = do
  event ← event_of_file w (w.read_text (w.files.resolve path))
  check_event w event
load_from w (some []) none = ok none
load_from w (some []) (some path) = do
  event ← event_or_contract (from_json w.runtime w.event_defaults [])
  check_event w event
load_from w (some (c ∷ s)) file = do
  event ← event_or_contract (from_json w.runtime w.event_defaults (c ∷ s))
  check_event w event

unfoldable pub load_event : World → Arguments → Result (Raised Reason) (Option EventEnvelope)
unfolding load_from
load_event w a = load_from w a.event_json a.event_file

-- `a and b and a != b`
abbrev pub conflict : Option Text → Option Text → Bool
conflict (some s) (some t) = not (text_eq s t)
conflict (some s) none = false
conflict none t = false

abbrev pub event_id_of : (EventEnvelope → Option Text) → Option EventEnvelope → Option Text
event_id_of id none = none
event_id_of id (some e) = truthy (id e)

-- `args_id or event_id or uuid`
abbrev pub first_id : Option Text → Option Text → Text → Text
first_id (some s) t fresh = s
first_id none t fresh = or_else t fresh

unfoldable pub resolve_correlation :
    World → Arguments → Option EventEnvelope → Contract (Text × Text)
resolve_correlation w a event = do
  let event_request = event_id_of (λ e. e.request_id) event
  let event_session = event_id_of (λ e. e.session_id) event
  raise_if (conflict (truthy a.request_id) event_request) request_id_conflict
  raise_if (conflict (truthy a.session_id) event_session) session_id_conflict
  ok (
    first_id (truthy a.request_id) event_request w.new_request_id,
    first_id (truthy a.session_id) event_session w.new_session_id,
  )

abbrev option_arguments : Text → Option Text → List Text
option_arguments flag none = []
option_arguments flag (some value) = flag ∷ value ∷ []

unfoldable pub build_command : World → Arguments → Text → List Text
build_command w a session_id =
    (a.python
      ∷ w.files.resolve a.etroute_script
      ∷ codes "diagnose"
      ∷ a.environment
      ∷ codes "--caller"
      ∷ codes "etumax"
      ∷ codes "--session-id"
      ∷ session_id
      ∷ codes "--proot"
      ∷ a.proot
      ∷ codes "--strict"
      ∷ [])
    ++ (option_arguments (codes "--kernel-release") (truthy a.kernel_release)
        ++ (option_arguments (codes "--python") (truthy (some a.guest_python))
            ++ (if a.kill_on_exit then codes "--kill-on-exit" ∷ [] else [])))
