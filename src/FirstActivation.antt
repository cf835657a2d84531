-- ===== src/FirstActivation.antt =====
-- tools/first_activation_diagnostic.py: the report that runs inside a guest, and its exit code.

pub mod Laws
pub mod Bridge
use etroute.Prelude.{
  ℕ, Bool, true, false, not, ◌&&◌, ◌||◌, Option, none, some, List, [], ◌∷◌, Result, ok, err, ◌>>=◌,
  map_all, all, if◌then◌else◌,
}
use etroute.Python.Text.{Text, codes, text_eq}
use etroute.Python.Value.{Value, bool, int, pos, str, obj, Fields, end, field, of_optional, or_else}
use etroute.Python.Dict.{Dict, find}
use etroute.Python.PurePath.{parse, show}

-- The guest that the script sees, with the states `S` of its files. `none` is OSError.
pub record Guest (S : Type 0) : Type 0 where
  pub environ : Dict Text
  -- `platform.release()`
  pub release : Text
  -- `sys.version.split()[0]`
  pub python_version : Text
  -- `path.exists()`
  pub exists : S → Text → Option Bool
  -- `os.access(path, os.R_OK)`
  pub readable : S → Text → Bool
  -- `path.parent.mkdir(parents=True, exist_ok=True)`
  pub make_parent : S → Text → Option S
  -- `path.write_text(text, encoding="utf-8")`
  pub write_text : S → Text → Text → Option S

-- The only exception that the script raises.
pub data OsError : Type 0 where
  os_error : OsError

abbrev pub Checked : Type 0 → Type 0
Checked = Result OsError

abbrev pub or_raise : {A : Type 0} → Option A → Checked A
or_raise none = err os_error
or_raise (some a) = ok a

abbrev required_binds : List Text
required_binds = codes "/dev" ∷ codes "/proc" ∷ codes "/sys" ∷ codes "/tmp" ∷ []

abbrev optional_binds : List Text
optional_binds = codes "/run/shm" ∷ []

abbrev exit_bind : ℕ
exit_bind = 10

abbrev exit_kernel : ℕ
exit_kernel = 11

abbrev exit_marker : ℕ
exit_marker = 12

-- `{path: visible(path) for path in paths}`, with distinct paths
abbrev fields_of : List (Text × Bool) → Fields
fields_of [] = end
fields_of ((path, seen) ∷ rest) = field path (bool seen) (fields_of rest)

abbrev seen_all : List (Text × Bool) → Bool
seen_all = all λ entry. entry.1

-- `except OSError`
abbrev pub or_error : Option (Text × Bool) → Text × Bool
or_error none = (codes "error", false)
or_error (some result) = result

module _ {S : Type 0} (g : Guest S) where
  unfoldable pub visible : S → Text → Checked Bool
  visible s path = do there ← or_raise (g.exists s path); ok (there && g.readable s path)

  unfoldable pub visible_all : S → List Text → Checked (List (Text × Bool))
  unfolding visible
  visible_all s paths = map_all (λ path. do seen ← visible s path; ok (path, seen)) paths

  -- The state of the marker, whether it is there afterwards, and the files afterwards.
  unfoldable pub marker_state : S → Text → S × Option (Text × Bool)
  marker_state s path = elim (g.exists s path) [
    | none ↦ (s, none)
    | some existed ↦ elim (g.make_parent s path) [
      | none ↦ (s, none)
      | some made ↦ elim (g.write_text made path (codes "activated\n")) [
        | none ↦ (made, none)
        | some written ↦ elim (g.exists written path) [
          | none ↦ (written, none)
          | some there ↦ (
            written,
            some (if existed then codes "persistent" else codes "first_activation", there),
          )
        ]
      ]
    ]
  ]

  unfoldable pub marker_path : Text
  unfolding show parse find
  marker_path = show (
      parse (
        or_else (find (codes "ETROUTE_ACTIVATION_MARKER") g.environ)
          (codes "/root/.etroute_activation_marker")))

  unfoldable pub kernel_matches : Bool
  unfolding find text_eq
  kernel_matches = elim (find (codes "ETROUTE_EXPECTED_KERNEL_RELEASE") g.environ) [
    | none ↦ true
    | some expected ↦ text_eq g.release expected
  ]

  unfoldable pub report_of : List (Text × Bool) → List (Text × Bool) → Text × Bool → Fields
  unfolding find marker_path kernel_matches
  report_of required optional (activation_state, marker_ok) =
      field (codes "schema_version") (int (pos 1)) (
        field (codes "caller")
          (str (or_else (find (codes "ETROUTE_CALLER") g.environ) (codes "unknown")))
          (field (codes "environment")
            (str (or_else (find (codes "ETROUTE_ENVIRONMENT_NAME") g.environ) (codes "unknown")))
            (field (codes "session_id")
              (str (or_else (find (codes "ETROUTE_SESSION_ID") g.environ) []))
              (field (codes "kernel")
                (obj (
                  field (codes "actual") (str g.release) (
                    field (codes "expected")
                      (of_optional (find (codes "ETROUTE_EXPECTED_KERNEL_RELEASE") g.environ))
                      (field (codes "matches") (bool kernel_matches) end))))
                (field (codes "binds")
                  (obj (
                    field (codes "required") (obj (fields_of required))
                      (field (codes "optional") (obj (fields_of optional)) end)))
                  (field (codes "activation")
                    (obj (
                      field (codes "state") (str activation_state) (
                        field (codes "marker") (str marker_path)
                          (field (codes "persisted") (bool marker_ok) end))))
                    (field (codes "python") (str g.python_version) end)))))))

  unfoldable pub exit_code : List (Text × Bool) → Bool → ℕ
  unfolding kernel_matches
  exit_code required marker_ok =
      if not (seen_all required)
      then exit_bind
      else if not kernel_matches
      then exit_kernel
      else if not marker_ok
      then exit_marker
      else 0

  unfoldable pub see_binds : S → Checked (List (Text × Bool) × List (Text × Bool))
  unfolding visible_all
  see_binds s = do
    required ← visible_all s required_binds
    optional ← visible_all s optional_binds
    ok (required, optional)

  unfoldable pub report_for :
      S → Checked (List (Text × Bool) × List (Text × Bool)) → S × Checked (Fields × ℕ)
  unfolding marker_state marker_path report_of exit_code
  report_for s (err e) = (s, err e)
  report_for s (ok (required, optional)) =
      let (after, marker) = marker_state s marker_path in
      (
        after,
        ok (report_of required optional (or_error marker), exit_code required (or_error marker).1),
      )

  unfoldable pub build_report : S → S × Checked (Fields × ℕ)
  unfolding see_binds report_for
  build_report s = report_for s (see_binds s)

  -- What `main` prints, before it is text, and the exit code.
  abbrev of_strict : Bool → Fields × ℕ → Fields × ℕ
  of_strict strict (report, code) = (report, if strict then code else 0)

  unfoldable pub main : Bool → S → S × Checked (Fields × ℕ)
  unfolding build_report
  main strict s =
      let (after, result) = build_report s in
      (after, do built ← result; ok (of_strict strict built))
