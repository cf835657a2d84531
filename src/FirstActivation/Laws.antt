-- ===== src/FirstActivation/Laws.antt =====
-- tools/first_activation_diagnostic.py: the exit code agrees with the report, and the marker persists.
use etroute.Prelude.{
  ℕ, ◌≡◌, refl, Bool, true, some, List, Result, ok, err, Returns, Returns-ok, Returns-err,
  if◌then◌else◌,
}
use etroute.Python.Text.{Text, codes}
use etroute.Python.Value.{Value, obj, null, Fields, end, get, or_default}
use etroute.FirstActivation.{
  Guest, OsError, marker_state, report_of, exit_code, see_binds, report_for, build_report, or_error,
  marker_path,
}

-- The object under a key.
abbrev object_of : Value → Fields
object_of (obj d) = d
object_of _ = end

abbrev pub part : Fields → Text → Fields
part d key = object_of (or_default (get d key) null)

module _ {S : Type 0} (g : Guest S) where
  -- What holds of every report and its exit code holds of those that are built.
  report_for-Returns :
      (P : Fields × ℕ → Type 0)
      → ((required optional : List (Text × Bool)) (activation : Text × Bool)
          → P (report_of g required optional activation, exit_code g required activation.1))
      → (s : S) (binds : Result OsError (List (Text × Bool) × List (Text × Bool)))
      → Returns P (report_for g s binds).1
  unfolding report_for
  report_for-Returns P h s (err e) = Returns-err P
  report_for-Returns P h s (ok (required, optional)) =
      Returns-ok P (h required optional (or_error (marker_state g s (marker_path g)).1))

  pub build_report-Returns :
      (P : Fields × ℕ → Type 0)
      → ((required optional : List (Text × Bool)) (activation : Text × Bool)
          → P (report_of g required optional activation, exit_code g required activation.1))
      → (s : S) → Returns P (build_report g s).1
  unfolding build_report
  build_report-Returns P h s = report_for-Returns P h s (see_binds g s)

-- The files are there after they were written.
pub record IsLawful {S : Type 0} (g : Guest S) : Type 0 where
  pub written-exists :
      (s after : S) (path text : Text)
      → g.write_text s path text ≡ some after
      → g.exists after path ≡ some true

-- No operation on the files of the marker raises OSError.
pub record IsWritable {S : Type 0} (g : Guest S) (path : Text) : Type 0 where
  pub asks : (s : S) → (there : Bool) × (g.exists s path ≡ some there)
  pub makes : (s : S) → (after : S) × (g.make_parent s path ≡ some after)
  pub writes : (s : S) → (after : S) × (g.write_text s path (codes "activated\n") ≡ some after)

module _ {S : Type 0} (g : Guest S) where
  marker_state-runs :
      (s made : S) (path : Text) (existed : Bool) (written : S)
      → IsLawful g
      → g.exists s path ≡ some existed
      → g.make_parent s path ≡ some made
      → g.write_text made path (codes "activated\n") ≡ some written
      → marker_state g s path
        ≡ (written, some (if existed then codes "persistent" else codes "first_activation", true))
  unfolding marker_state
  marker_state-runs s made path existed written law a b c =
      rw (a, b, c, law.written-exists made written path (codes "activated\n") c, marker_state) refl

  -- On files that can be written the first activation leaves a marker: a second one finds it, and
  -- reports that it is persistent.
  pub marker_state-persistent :
      (s : S) (path : Text)
      → IsLawful g
      → IsWritable g path
      → (marker_state g (marker_state g s path).0 path).1 ≡ some (codes "persistent", true)
  marker_state-persistent s path law w =
      let (there, asked) = w.asks s in
      let (made, makes) = w.makes s in
      let (written, writes) = w.writes made in
      let (again, makes_again) = w.makes written in
      let (last, writes_again) = w.writes again in
      rw
        (
          marker_state-runs s made path there written law asked makes writes,
          marker_state-runs written again path true last law
              (law.written-exists made written path (codes "activated\n") writes) makes_again
              writes_again,
        )
        refl
