-- ===== src/EtumaxBridge/Run/Answers.antt =====
-- tools/etumax_bridge.py: the acknowledgements in the envelopes of a run.
use etroute.Prelude.{
  ◌⊎◌, inl, inr, ℕ, ◌≡◌, refl, Bool, true, Option, none, some, Result, ok, err, ◌>>=◌, raise_if,
}
use etroute.Python.Text.{Text, codes, strip, is_space}
use etroute.Python.Text.Clean.{IsClean}
use etroute.Python.Value.{ℤ, field, end, update, str, obj, int, pos, is_one, Fields}
use etroute.Python.Validators.Laws.{
  OptionalIsClean, clean_text-eq, optional_clean_text-eq, iso_text-eq,
}
use etroute.BridgeProtocol.Checks.{complaints}
use etroute.BridgeProtocol.Event.{EventEnvelope, to_dict}
use etroute.BridgeProtocol.Acknowledgement as Acknowledgement
use etroute.EtumaxBridge.Diagnostic.{Contract}
use etroute.EtumaxBridge.Input.{
  Arguments, World, Outcome, completed, timed_out, launch_failed, invalid_argument, build_command,
}
use etroute.EtumaxBridge.Envelope.{Crash, Run, acknowledgement, with_event, event_failure_envelope}
use etroute.EtumaxBridge.Run.{check_output, finish, run_child, run_with, with_code}

-- The subprocess is given an argument that it cannot take.
abbrev pub Unstartable : World → Arguments → Contract (Text × Text) → Type 0
Unstartable w a ids =
    (request_id : Text) × (session_id : Text) × (ids ≡ ok (request_id, session_id))
    × (w.run (build_command w a session_id) ≡ invalid_argument)

abbrev pub Answers {ℓ} : {A : Type ℓ} → Result Crash A → Type ℓ
Answers {A} m = (a : A) × (m ≡ ok a)

-- The texts that the program itself writes into an acknowledgement.
rejected-IsClean : IsClean 64 (codes "rejected")
unfolding strip is_space
rejected-IsClean = record { stripped = refl; not_empty = refl; bounded = refl }

accepted-IsClean : IsClean 64 (codes "accepted")
unfolding strip is_space
accepted-IsClean = record { stripped = refl; not_empty = refl; bounded = refl }

route-IsClean : IsClean 128 (codes "etroute.one-shot")
unfolding strip is_space
route-IsClean = record { stripped = refl; not_empty = refl; bounded = refl }

-- The event, if any, has a clean identifier.
abbrev pub IsNamed : Option EventEnvelope → Type 0
IsNamed none = Unit
IsNamed (some e) = IsClean 128 e.event_id

with_code-Answers : (code : ℕ) (m : Result Crash Fields) → Answers m → Answers (with_code code m)
with_code-Answers code (ok d) h = ((d, code), refl)
with_code-Answers code (err e) h = absurd (cc (h.1))

module _ (w : World) (iso : w.runtime.is_iso w.now_iso ≡ true) where
  acknowledgement-Answers :
      (event : EventEnvelope) (accepted : Bool) (route : Option Text) (status message : Text)
      → IsClean 128 event.event_id
      → IsClean 64 status
      → OptionalIsClean 128 route
      → Answers (acknowledgement w event accepted route status message)
  unfolding acknowledgement Acknowledgement.post_init ◌>>=◌ raise_if is_one
  acknowledgement-Answers event accepted route status message he hs hr = (
    Acknowledgement.to_dict (record {
      event_id = event.event_id;
      accepted = accepted;
      route = route;
      status = status;
      message = Acknowledgement.normalize_message w.runtime (str message);
      acknowledged_at = w.now_iso;
      schema_version = int (pos 1);
    }),
    rw
        (
          clean_text-eq complaints w.runtime (codes "event_id") 128 event.event_id he,
          clean_text-eq complaints w.runtime (codes "status") 64 status hs,
          optional_clean_text-eq complaints w.runtime (codes "route") 128 route hr,
          iso_text-eq complaints w.runtime (codes "acknowledged_at") w.now_iso iso,
        )
        refl,
  )

  with_event-Answers :
      (event : Option EventEnvelope) (accepted : Bool) (route : Option Text) (status message : Text)
      (d : Fields)
      → IsNamed event
      → IsClean 64 status
      → OptionalIsClean 128 route
      → Answers (with_event w event accepted route status message d)
  unfolding with_event ◌>>=◌
  with_event-Answers none accepted route status message d he hs hr = (d, refl)
  with_event-Answers (some e) accepted route status message d he hs hr =
      let ack = acknowledgement-Answers e accepted route status message he hs hr in
      (
        update d (
            field (codes "event") (obj (to_dict e))
              (field (codes "acknowledgement") (obj ack.0) end)),
        rw (ack.1) refl,
      )

  finish-Answers :
      (a : Arguments) (event : Option EventEnvelope) (r : Run) (code : ℤ) (out errors : Text)
      (checked : Contract Fields)
      → IsNamed event
      → Answers (finish w a event r code out errors checked)
  unfolding finish
  finish-Answers a event r code out errors (err reason) he =
      with_code-Answers 21 _ (with_event-Answers event _ none _ _ _ he rejected-IsClean tt)
  finish-Answers a event r code out errors (ok d) he =
      with_code-Answers 0 _
        (with_event-Answers event _ (some _) _ _ _ he accepted-IsClean route-IsClean)

  run_child-Answers :
      (a : Arguments) (event : Option EventEnvelope) (request_id session_id : Text)
      (outcome : Outcome)
      → IsNamed event
      → Answers (run_child w a event request_id session_id outcome) ⊎ (outcome ≡ invalid_argument)
  unfolding run_child
  run_child-Answers a event request_id session_id (timed_out m) he =
      inl (with_code-Answers 20 _ (with_event-Answers event _ none _ _ _ he rejected-IsClean tt))
  run_child-Answers a event request_id session_id (launch_failed m) he =
      inl (with_code-Answers 20 _ (with_event-Answers event _ none _ _ _ he rejected-IsClean tt))
  run_child-Answers a event request_id session_id invalid_argument he = inr refl
  run_child-Answers a event request_id session_id (completed code out errors) he =
      inl (finish-Answers a event _ code out errors (check_output w a session_id code out) he)

  pub failure-Answers :
      (a : Arguments) (message : Text) (event : Option EventEnvelope)
      → IsNamed event
      → Answers (with_code 22 (event_failure_envelope w a message event))
  unfolding event_failure_envelope
  failure-Answers a message event he =
      with_code-Answers 22 _ (with_event-Answers event _ none _ _ _ he rejected-IsClean tt)

  pub run_with-Answers :
      (a : Arguments) (event : Option EventEnvelope) (ids : Contract (Text × Text))
      → IsNamed event
      → Answers (run_with w a event ids) ⊎ Unstartable w a ids
  unfolding run_with
  run_with-Answers a event (err reason) he = inl (failure-Answers a (w.describe reason) event he)
  run_with-Answers a event (ok (request_id, session_id)) he =
      elim (run_child-Answers a event request_id session_id (w.run (build_command w a session_id))
        he) [
          | inl answer ↦ inl answer
          | inr unstartable ↦ inr (request_id, session_id, refl, unstartable)
        ]
