-- ===== src/EtumaxBridge/Run/Success.antt =====
-- tools/etumax_bridge.py: the answers of `run_bridge` with exit code 0.
use etroute.Prelude.{
  ℕ, ◌≡◌, refl, true, Option, List, ◌∷◌, Result, ok, err, Returns, Returns-bind, Returns-raise_if,
  Returns-ok, Returns-self, not-false, arith, ap,
}
use etroute.Python.Text.{Text, codes}
use etroute.Python.Value.{
  ℤ, pos, negsuc, Fields, own, Raised, value_error, type_error, attribute_error, overflow_error,
}
use etroute.BridgeProtocol.Event.{EventEnvelope}
use etroute.EtumaxBridge.Diagnostic.{Contract, Reason, parse_single_json_document}
use etroute.EtumaxBridge.Diagnostic.Report.{IsReport, validate_diagnostic-IsReport}
use etroute.EtumaxBridge.Input.{
  Arguments, World, Outcome, completed, timed_out, launch_failed, invalid_argument, load_event,
  resolve_correlation, build_command,
}
use etroute.EtumaxBridge.Envelope.{Crash, Run}
use etroute.EtumaxBridge.Run.{
  check_output, is_zero, finish, run_child, run_with, run_loaded, run_bridge, with_code,
}

is_zero→eq : (z : ℤ) → is_zero z ≡ true → z ≡ pos 0
is_zero→eq (pos n) h = ground arith
is_zero→eq (negsuc n) h = cc

-- The run behind an answer with exit code 0.
pub record IsSuccess (w : World) (a : Arguments) : Type 0 where
  pub event : Option EventEnvelope
  pub request_id : Text
  pub session_id : Text
  pub out : Text
  pub errors : Text
  pub diagnostic : Fields
  pub loaded : load_event w a ≡ ok event
  pub correlated : resolve_correlation w a event ≡ ok (request_id, session_id)
  pub options : List Text
  pub command :
      build_command w a session_id
      ≡ a.python
        ∷ w.files.resolve a.etroute_script
        ∷ codes "diagnose"
        ∷ a.environment
        ∷ codes "--caller"
        ∷ codes "etumax"
        ∷ codes "--session-id"
        ∷ session_id
        ∷ options
  pub ran : w.run (build_command w a session_id) ≡ completed (pos 0) out errors
  pub parsed : parse_single_json_document w.runtime out ≡ ok diagnostic
  pub report : IsReport diagnostic a.environment session_id

check_output-IsReport :
    (w : World) (a : Arguments) (session_id : Text) (code : ℤ) (out : Text)
    → Returns
        (λ d.
          (code ≡ pos 0)
          × (parse_single_json_document w.runtime out ≡ ok d)
          × IsReport d a.environment session_id)
        (check_output w a session_id code out)
unfolding check_output
check_output-IsReport w a session_id code out = Returns-bind _ _ Returns-self λ d parsed.
    Returns-raise_if _ _ _ λ zero_code.
      Returns-bind _ _ (validate_diagnostic-IsReport d a.environment session_id)
        λ u report. Returns-ok _ (is_zero→eq code (not-false _ zero_code), parsed, report)

with_code-eq :
    (code n : ℕ) (m : Result Crash Fields) (d : Fields) → with_code code m ≡ ok (d, n) → n ≡ code
with_code-eq code n (ok e) d h = cc
with_code-eq code n (err e) d h = cc

-- A run of the subprocess that ends in exit code 0.
record IsGood (w : World) (a : Arguments) (session_id : Text) (outcome : Outcome) : Type 0 where
  out : Text
  errors : Text
  diagnostic : Fields
  ran : outcome ≡ completed (pos 0) out errors
  parsed : parse_single_json_document w.runtime out ≡ ok diagnostic
  report : IsReport diagnostic a.environment session_id

finish-IsGood :
    (w : World) (a : Arguments) (event : Option EventEnvelope) (r : Run) (code : ℤ)
    (out errors session_id : Text) (checked : Contract Fields) (d : Fields)
    → check_output w a session_id code out ≡ checked
    → finish w a event r code out errors checked ≡ ok (d, 0)
    → IsGood w a session_id (completed code out errors)
unfolding finish
finish-IsGood w a event r code out errors session_id (err reason) d e h =
    absurd (zero-ne-21 (with_code-eq 21 0 _ d h))
  where
    zero-ne-21 : ◌≡◌ {A = ℕ} 0 21 → ⊥
    zero-ne-21 p = omega arith
finish-IsGood w a event r code out errors session_id (ok diagnostic) d e h =
    let good = (check_output-IsReport w a session_id code out).at diagnostic e in
    record {
      out = out;
      errors = errors;
      diagnostic = diagnostic;
      ran = ap (λ (z : ℤ). completed z out errors) good.0;
      parsed = good.1;
      report = good.2;
    }

starts :
    (w : World) (a : Arguments) (session_id : Text)
    → (options : List Text) × (build_command w a session_id
        ≡ a.python
          ∷ w.files.resolve a.etroute_script
          ∷ codes "diagnose"
          ∷ a.environment
          ∷ codes "--caller"
          ∷ codes "etumax"
          ∷ codes "--session-id"
          ∷ session_id
          ∷ options)
unfolding build_command
starts w a session_id = (_, refl)

run_child-IsGood :
    (w : World) (a : Arguments) (event : Option EventEnvelope) (request_id session_id : Text)
    (outcome : Outcome) (d : Fields)
    → run_child w a event request_id session_id outcome ≡ ok (d, 0)
    → IsGood w a session_id outcome
unfolding run_child
run_child-IsGood w a event request_id session_id (timed_out message) d h =
    absurd (omega (arith, with_code-eq 20 0 _ d h))
run_child-IsGood w a event request_id session_id (launch_failed message) d h =
    absurd (omega (arith, with_code-eq 20 0 _ d h))
run_child-IsGood w a event request_id session_id invalid_argument d h = cc h
run_child-IsGood w a event request_id session_id (completed code out errors) d h =
    finish-IsGood w a event _ code out errors session_id (check_output w a session_id code out) d
      refl h

run_with-IsSuccess :
    (w : World) (a : Arguments) (event : Option EventEnvelope) (ids : Contract (Text × Text))
    (d : Fields)
    → load_event w a ≡ ok event
    → resolve_correlation w a event ≡ ids
    → run_with w a event ids ≡ ok (d, 0)
    → IsSuccess w a
unfolding run_with
run_with-IsSuccess w a event (err reason) d l c h = absurd (omega (arith, with_code-eq 22 0 _ d h))
run_with-IsSuccess w a event (ok (request_id, session_id)) d l c h =
    let good = run_child-IsGood w a event request_id session_id _ d h in
    record {
      event = event;
      request_id = request_id;
      session_id = session_id;
      out = good.out;
      errors = good.errors;
      diagnostic = good.diagnostic;
      loaded = l;
      correlated = c;
      options = (starts w a session_id).0;
      command = (starts w a session_id).1;
      ran = good.ran;
      parsed = good.parsed;
      report = good.report;
    }

run_loaded-IsSuccess :
    (w : World) (a : Arguments) (loaded : Result (Raised Reason) (Option EventEnvelope))
    (d : Fields)
    → load_event w a ≡ loaded
    → run_loaded w a loaded ≡ ok (d, 0)
    → IsSuccess w a
unfolding run_loaded
run_loaded-IsSuccess w a (ok event) d l h =
    run_with-IsSuccess w a event (resolve_correlation w a event) d l refl h
run_loaded-IsSuccess w a (err (own reason)) d l h = absurd (omega (arith, with_code-eq 22 0 _ d h))
run_loaded-IsSuccess w a (err value_error) d l h = cc
run_loaded-IsSuccess w a (err type_error) d l h = cc
run_loaded-IsSuccess w a (err attribute_error) d l h = cc
run_loaded-IsSuccess w a (err overflow_error) d l h = cc

-- An answer with exit code 0 comes from a run whose event, if any, was accepted, whose subprocess
-- was started with the resolved session and exited with 0, and whose stdout is one JSON report that
-- shows all binds, no wrong kernel, the caller etumax, and this environment and this session; the
-- subprocess is `diagnose` of that environment, for the caller etumax with that session.
pub run_bridge-IsSuccess :
    (w : World) (a : Arguments) (envelope : Fields)
    → run_bridge w a ≡ ok (envelope, 0)
    → IsSuccess w a
unfolding run_bridge
run_bridge-IsSuccess w a envelope h = run_loaded-IsSuccess w a (load_event w a) envelope refl h
