-- ===== src/EtumaxBridge/Run/Codes.antt =====
-- tools/etumax_bridge.py: the exit code of `run_bridge` and the entries of its envelope.
use etroute.Prelude.{
  ℕ, ◌≡◌, refl, ◌⊎◌, inl, inr, ◌∙◌, Bool, true, false, Option, none, some, Result, ok, err, ◌==◌,
  if◌then◌else◌, Returns, Returns-ok, Returns-err, Returns-bind, Returns-any, ap,
}
use etroute.Python.Text.{Text, codes, text_eq}
use etroute.Python.Value.{
  Value, str, bool, ℤ, Fields, end, field, get, put, update, own, Raised, value_error, type_error,
  attribute_error, overflow_error,
}
use etroute.Python.Value.Laws.{get-put}
use etroute.BridgeProtocol.Event.{EventEnvelope}
use etroute.EtumaxBridge.Diagnostic.{Contract, Reason}
use etroute.EtumaxBridge.Input.{
  Arguments, World, Outcome, completed, timed_out, launch_failed, invalid_argument, load_event,
  resolve_correlation,
}
use etroute.EtumaxBridge.Envelope.{
  Crash, Run, base_envelope, error_fields, with_event, event_failure_envelope, state_completed,
  state_failed,
}
use etroute.EtumaxBridge.Run.{
  check_output, finish, run_child, run_with, run_loaded, run_bridge, with_code,
}

-- The entries of an answer that say how the run went.
pub record Says (done : Bool) (d : Fields) : Type 0 where
  pub ok_entry : get d (codes "ok") ≡ some (bool done)
  state_entry : get d (codes "state") ≡ some (str (if done then state_completed else state_failed))

-- The event's entries leave all others as they are.
get-event_entries :
    (d : Fields) (e a : Value) (k : Text)
    → text_eq (codes "event") k ≡ false
    → text_eq (codes "acknowledgement") k ≡ false
    → get (update d (field (codes "event") e (field (codes "acknowledgement") a end))) k ≡ get d k
unfolding update
get-event_entries d e a k h g =
    get-put (codes "acknowledgement") k a (put (codes "event") e d)
    ∙ rw g (get-put (codes "event") k e d ∙ rw h)

with_event-Says :
    (w : World) (event : Option EventEnvelope) (accepted done : Bool) (route : Option Text)
    (status message : Text) (d : Fields)
    → Says done d
    → Returns (Says done) (with_event w event accepted route status message d)
unfolding with_event
with_event-Says w none accepted done route status message d s = Returns-ok _ s
with_event-Says w (some e) accepted done route status message d s =
    Returns-bind _ _ Returns-any λ ack _. Returns-ok (Says done) (record {
      ok_entry =
          get-event_entries d _ _ (codes "ok") (unfold text_eq in refl) (unfold text_eq in refl)
          ∙ s.ok_entry;
      state_entry =
          get-event_entries d _ _ (codes "state") (unfold text_eq in refl) (unfold text_eq in refl)
          ∙ s.state_entry;
    })

-- An answer has one of four exit codes; 0 goes with `ok` and COMPLETED, the others with FAILED.
pub record IsAnswer (answer : Fields × ℕ) : Type 0 where
  pub says : Says (answer.1 == 0) answer.0
  pub code : (answer.1 ≡ 0) ⊎ ((answer.1 ≡ 20) ⊎ ((answer.1 ≡ 21) ⊎ (answer.1 ≡ 22)))

with_code-IsAnswer :
    (code : ℕ) (m : Result Crash Fields)
    → (code ≡ 0) ⊎ ((code ≡ 20) ⊎ ((code ≡ 21) ⊎ (code ≡ 22)))
    → Returns (Says (code == 0)) m
    → Returns IsAnswer (with_code code m)
with_code-IsAnswer code (ok d) c s = Returns-ok IsAnswer (record { says = s.at d refl; code = c })
with_code-IsAnswer code (err e) c s = Returns-err IsAnswer

-- The envelopes before the event's entries.
error-Says :
    (r : Run) (kind message : Text)
    → Says false (update (base_envelope r state_failed) (error_fields kind message))
unfolding base_envelope update get
error-Says r kind message = record { ok_entry = refl; state_entry = refl }

entries-Says :
    (r : Run) (done : Bool) (key : Text) (process v : Value)
    → (text_eq key (codes "ok") ≡ false)
    → (text_eq key (codes "state") ≡ false)
    → (state : Text) → state ≡ (if done then state_completed else state_failed)
    → Says done (
        update
          (base_envelope r state)
          (field (codes "ok") (bool done) (field (codes "process") process (field key v end))))
unfolding update
entries-Says r done key process v h g state e =
    let d : Fields =
      put (codes "process") process (put (codes "ok") (bool done) (base_envelope r state)) in
    record {
      ok_entry = get-put key (codes "ok") v d ∙ rw h (unfold base_envelope put get in refl);
      state_entry =
          get-put key (codes "state") v d
          ∙ rw g (unfold base_envelope put get in ap (λ (t : Text). some (str t)) e);
    }

finish-IsAnswer :
    (w : World) (a : Arguments) (event : Option EventEnvelope) (r : Run) (code : ℤ)
    (out errors : Text) (checked : Contract Fields)
    → Returns IsAnswer (finish w a event r code out errors checked)
unfolding finish
finish-IsAnswer w a event r code out errors (err reason) =
    with_code-IsAnswer 21 _ (inr (inr (inl refl))) (
      with_event-Says w event _ false _ _ _ _ (
        entries-Says r false (codes "error") _ _ (unfold text_eq in refl) (unfold text_eq in refl)
          state_failed refl))
finish-IsAnswer w a event r code out errors (ok diagnostic) = with_code-IsAnswer 0 _ (inl refl) (
    with_event-Says w event _ true _ _ _ _ (
      entries-Says r true (codes "diagnostic") _ _ (unfold text_eq in refl) (unfold text_eq in refl)
        state_completed refl))

run_child-IsAnswer :
    (w : World) (a : Arguments) (event : Option EventEnvelope) (request_id session_id : Text)
    (outcome : Outcome)
    → Returns IsAnswer (run_child w a event request_id session_id outcome)
unfolding run_child
run_child-IsAnswer w a event request_id session_id (timed_out message) =
    with_code-IsAnswer 20 _ (inr (inl refl))
      (with_event-Says w event _ false _ _ _ _ (error-Says _ _ _))
run_child-IsAnswer w a event request_id session_id (launch_failed message) =
    with_code-IsAnswer 20 _ (inr (inl refl))
      (with_event-Says w event _ false _ _ _ _ (error-Says _ _ _))
run_child-IsAnswer w a event request_id session_id invalid_argument = Returns-err IsAnswer
run_child-IsAnswer w a event request_id session_id (completed code out errors) =
    finish-IsAnswer w a event _ code out errors (check_output w a session_id code out)

event_failure-IsAnswer :
    (w : World) (a : Arguments) (message : Text) (event : Option EventEnvelope)
    → Returns IsAnswer (with_code 22 (event_failure_envelope w a message event))
unfolding event_failure_envelope
event_failure-IsAnswer w a message event =
    with_code-IsAnswer 22 _ (inr (inr (inr refl)))
      (with_event-Says w event _ false _ _ _ _ (error-Says _ _ _))

run_with-IsAnswer :
    (w : World) (a : Arguments) (event : Option EventEnvelope) (ids : Contract (Text × Text))
    → Returns IsAnswer (run_with w a event ids)
unfolding run_with
run_with-IsAnswer w a event (err reason) = event_failure-IsAnswer w a (w.describe reason) event
run_with-IsAnswer w a event (ok (request_id, session_id)) =
    run_child-IsAnswer w a event request_id session_id _

run_loaded-IsAnswer :
    (w : World) (a : Arguments) (loaded : Result (Raised Reason) (Option EventEnvelope))
    → Returns IsAnswer (run_loaded w a loaded)
unfolding run_loaded
run_loaded-IsAnswer w a (ok event) = run_with-IsAnswer w a event (resolve_correlation w a event)
run_loaded-IsAnswer w a (err (own reason)) = event_failure-IsAnswer w a (w.describe reason) none
run_loaded-IsAnswer w a (err value_error) = Returns-err IsAnswer
run_loaded-IsAnswer w a (err type_error) = Returns-err IsAnswer
run_loaded-IsAnswer w a (err attribute_error) = Returns-err IsAnswer
run_loaded-IsAnswer w a (err overflow_error) = Returns-err IsAnswer

-- Every answer of `run_bridge` has the exit code 0, 20, 21 or 22. The entry `ok` is true and the
-- state is COMPLETED for 0; for the other codes `ok` is false and the state is FAILED.
pub run_bridge-IsAnswer :
    (w : World) (a : Arguments) (envelope : Fields) (code : ℕ)
    → run_bridge w a ≡ ok (envelope, code)
    → ((code ≡ 0) ⊎ ((code ≡ 20) ⊎ ((code ≡ 21) ⊎ (code ≡ 22))))
      × (get envelope (codes "ok") ≡ some (bool (code == 0)))
      × (get envelope (codes "state")
          ≡ some (str (if code == 0 then state_completed else state_failed)))
unfolding run_bridge
run_bridge-IsAnswer w a envelope code h =
    let answer = (run_loaded-IsAnswer w a (load_event w a)).at (envelope, code) h in
    (answer.code, answer.says.ok_entry, answer.says.state_entry)
