-- ===== src/EtumaxBridge/Run/Total.antt =====
-- tools/etumax_bridge.py: answers of `run_bridge`, and exceptions that leave it.
use etroute.Prelude.{ℕ, ◌≡◌, ◌≢◌, ◌⊎◌, Option, none, some, [], ◌∷◌, Result, ok, err, ◌>>=◌}
use etroute.Python.Text.{Text, codes}
use etroute.Python.Text.Clean.{IsClean}
use etroute.Python.Value.{
  Value, null, obj, Fields, Raised, value_error, type_error, attribute_error, overflow_error, get,
  pop, keys, without,
}
use etroute.BridgeProtocol.Event.{EventEnvelope, from_json, allowed}
use etroute.BridgeProtocol.Event.RoundTrip.{missing_field_is_type_error}
use etroute.EtumaxBridge.Diagnostic.{Reason}
use etroute.EtumaxBridge.Input.{Arguments, World, load_event, load_from, resolve_correlation}
use etroute.EtumaxBridge.Run.{run_loaded, run_bridge}
use etroute.EtumaxBridge.Run.Answers.{Answers, Unstartable}

abbrev Named : EventEnvelope → Type 0
Named e = IsClean 128 e.event_id

-- The exceptions that leave `load_event` beside `ContractError`.
abbrev pub IsUncaught : Result (Raised Reason) (Option EventEnvelope) → Type 0
IsUncaught loaded =
    (loaded ≡ err value_error)
    ⊎ ((loaded ≡ err type_error) ⊎ ((loaded ≡ err attribute_error) ⊎ (loaded ≡ err overflow_error)))

-- An event was accepted, and the command that it leads to cannot be started for its arguments.
abbrev pub IsUnstartable :
    World → Arguments → Result (Raised Reason) (Option EventEnvelope) → Type 0
IsUnstartable w a loaded =
    (event : Option EventEnvelope) × (loaded ≡ ok event)
    × Unstartable w a (resolve_correlation w a event)

abbrev Outlets : World → Arguments → Result (Raised Reason) (Option EventEnvelope) → Type 0
Outlets w a loaded =
    Answers (run_loaded w a loaded) ⊎ (IsUncaught loaded ⊎ IsUnstartable w a loaded)

-- An inline event whose JSON is an object with a `type` and known fields only, but without `source`
-- or without `payload`, makes `run_bridge` end in an uncaught TypeError: there is no envelope.
pub incomplete_event_escapes :
    (w : World) (a : Arguments) (c : ℕ) (text : Text) (d : Fields) (t : Value)
    → a.event_json ≡ some (c ∷ text)
    → w.runtime.loads (c ∷ text) ≡ some (obj d)
    → get d (codes "type") ≡ some t
    → t ≢ null
    → without (keys (pop d (codes "type"))) allowed ≡ []
    → (get (pop d (codes "type")) (codes "source") ≡ none)
      ⊎ (get (pop d (codes "type")) (codes "payload") ≡ none)
    → run_bridge w a ≡ err type_error
unfolding run_bridge load_event ◌>>=◌ from_json
incomplete_event_escapes w a c text d t given parsed typed some_type known missing = rw (
  given,
  load_from,
  parsed,
  from_json,
  missing_field_is_type_error w.runtime w.event_defaults d t typed some_type known missing,
)
