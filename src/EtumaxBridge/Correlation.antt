-- ===== src/EtumaxBridge/Correlation.antt =====
-- tools/etumax_bridge.py: the identifiers that correlate a run.
use etroute.Prelude.{
  ◌≡◌, false, Option, none, some, ok, Returns, Returns-raise_if, Returns-ok, not-false,
}
use etroute.Python.Text.{Text, text_eq→eq}
use etroute.Python.Value.{truthy}
use etroute.BridgeProtocol.Event.{EventEnvelope}
use etroute.EtumaxBridge.Input.{
  Arguments, World, resolve_correlation, conflict, event_id_of, first_id,
}

first_id-agrees :
    (x y : Option Text) (fresh : Text)
    → conflict x y ≡ false
    → ((t : Text) → x ≡ some t → first_id x y fresh ≡ t)
      × ((t : Text) → y ≡ some t → first_id x y fresh ≡ t)
first_id-agrees none none fresh h = (λ t e. cc, λ t e. cc)
first_id-agrees none (some u) fresh h = (λ t e. cc, λ t e. cc)
first_id-agrees (some s) none fresh h = (λ t e. cc, λ t e. cc)
first_id-agrees (some s) (some u) fresh h =
    let same = text_eq→eq s u (not-false _ h) in (λ t e. cc, λ t e. cc)

abbrev Agrees : World → Arguments → Option EventEnvelope → Text × Text → Type 0
Agrees w a event ids =
    ((t : Text) → truthy a.request_id ≡ some t → ids.0 ≡ t)
    × ((t : Text) → truthy a.session_id ≡ some t → ids.1 ≡ t)
    × ((t : Text) → event_id_of (λ e. e.request_id) event ≡ some t → ids.0 ≡ t)
    × ((t : Text) → event_id_of (λ e. e.session_id) event ≡ some t → ids.1 ≡ t)

resolve_correlation-Agrees :
    (w : World) (a : Arguments) (event : Option EventEnvelope)
    → Returns (Agrees w a event) (resolve_correlation w a event)
unfolding resolve_correlation
resolve_correlation-Agrees w a event = Returns-raise_if (Agrees w a event) _ _ λ request.
    Returns-raise_if (Agrees w a event) _ _ λ session.
      let r = first_id-agrees _ _ w.new_request_id request in
      let s = first_id-agrees _ _ w.new_session_id session in
      Returns-ok (Agrees w a event) (r.0, s.0, r.1, s.1)

-- The identifiers of a run agree with those of the arguments and those of the event, where these
-- have one that is not empty.
resolve_correlation-agrees :
    (w : World) (a : Arguments) (event : Option EventEnvelope) (request_id session_id : Text)
    → resolve_correlation w a event ≡ ok (request_id, session_id)
    → ((t : Text) → truthy a.request_id ≡ some t → request_id ≡ t)
      × ((t : Text) → truthy a.session_id ≡ some t → session_id ≡ t)
      × ((t : Text) → event_id_of (λ e. e.request_id) event ≡ some t → request_id ≡ t)
      × ((t : Text) → event_id_of (λ e. e.session_id) event ≡ some t → session_id ≡ t)
resolve_correlation-agrees w a event request_id session_id h =
    (resolve_correlation-Agrees w a event).at (request_id, session_id) h
