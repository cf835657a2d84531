-- ===== src/BridgeProtocol/Event/Expiry.antt =====
-- bridge_protocol.py: the expiry of events.
use etroute.Prelude.{
  ℕ, ◌*◌, ◌≡◌, refl, ◌↔◌, Bool, true, false, none, some, Result, ok, err, ◌>>=◌, raise_if, ap,
}
use etroute.Python.Value.{ℤ, pos}
use etroute.Python.Int.{◌+ℤ◌, ◌≤ℤ◌, le_ℤ_iff}
use etroute.Python.Runtime.{Runtime}
use etroute.BridgeProtocol.Event.{
  EventEnvelope, timestamp, is_expired, is_no_float, TooLarge, too_large,
}

-- An event with a time to live that is a float has expired exactly from the moment of its creation
-- plus that time on, one with a larger time to live raises OverflowError, and an event without one never
-- expires.
is_expired_iff :
    (rt : Runtime) (e : EventEnvelope) (now : ℤ)
    → (e.ttl_seconds ≡ none → is_expired rt e now ≡ ok false)
      × ((n : ℕ)
          → e.ttl_seconds ≡ some n
          → ((is_no_float n ≡ true → is_expired rt e now ≡ err too_large)
              × (is_no_float n ≡ false
                  → (is_expired rt e now ≡ ok true)
                    ↔ (timestamp (rt.moment e.created_at) +ℤ pos (n * 1_000_000) ≤ℤ now))))
unfolding is_expired ◌>>=◌ raise_if
is_expired_iff rt e now = (
  λ h. rw (h, is_expired) refl,
  λ n h. (
    λ large. rw (h, is_expired, large) refl,
    λ float.
        rw (h, is_expired, float)
          (let (there, back) =
              le_ℤ_iff (timestamp (rt.moment e.created_at) +ℤ pos (n * 1_000_000)) now in
            (λ expired. there (ok_inj expired), λ reached. ap ok (back reached))),
  ),
)
  where
    ok_inj : {a b : Bool} → ◌≡◌ {A = Result TooLarge Bool} (ok a) (ok b) → a ≡ b
    ok_inj e = cc
