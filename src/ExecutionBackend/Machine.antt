-- ===== src/ExecutionBackend/Machine.antt =====
-- execution_backend.py: what a backend meets of the operating system, and how it finds executables
-- and ends a process.
use etroute.Prelude.{
  ℕ, ◌≡◌, refl, ◌↔◌, Bool, true, false, ◌||◌, Option, none, some, List, [], ◌∷◌, Result, ok, err,
  if◌then◌else◌,
}
use etroute.Python.Text.{Text}
use etroute.Python.Value.{ℤ}
use etroute.Python.PurePath.{PurePath, parse, show, is_absolute}
use etroute.Python.FileSystem.{FileSystem}
use etroute.ExecutionBackend.Config.{Checked, executable_not_found, proot_not_found}

-- What `subprocess.Popen` does: it starts a process, or raises OSError with a text, or raises
-- ValueError for an argument that the system cannot take.
pub data Launched : Type 0 where
  process : ℕ → Launched
  not_started : Text → Launched
  bad_argument : Launched

-- What `communicate` returns with the exit code, or the text of its OSError.
pub data Ended : Type 0 where
  ended : ℤ → Text → Text → Ended
  lost : Text → Ended

-- `process.wait(timeout=3)`
pub data Wait : Type 0 where
  exited timed_out wait_failed : Wait

-- How a process answers `terminate`, the first `wait`, `kill` and the second `wait`: the two
-- signals are sent, or raise OSError.
pub record Signals : Type 0 where
  pub terminate : Bool
  pub first_wait : Wait
  pub kill : Bool
  pub second_wait : Wait

pub record Machine : Type 0 where
  pub files : FileSystem
  -- `Path(text).expanduser()` as a text
  pub expand_user : Text → Text
  -- `shutil.which`
  pub which : Text → Option Text
  pub environ : List (Text × Text)
  pub new_id : Text
  -- arguments, working directory, environment
  pub popen : List Text → Option Text → List (Text × Text) → Launched
  pub communicate : ℕ → Ended
  -- the merged output of a short `subprocess.run`, none for OSError and TimeoutExpired
  pub output_of : List Text → Option Text
  pub architecture : Text
  pub system : Text
  pub python_version : Text

-- `candidate.parent != Path(".")`: a relative path with two names or more.
unfoldable pub has_parent : PurePath → Bool
has_parent p = elim p.names [ [] ↦ false | _ ∷ [] ↦ false | _ ∷ (_ ∷ _) ↦ true ]

unfoldable pub is_path : PurePath → Bool
unfolding is_absolute has_parent
is_path p = is_absolute p || has_parent p

-- `NativeBackend._resolve_executable`
unfoldable pub resolve_executable : Machine → Text → Checked Text
unfolding is_path
resolve_executable m executable =
    let candidate = parse (m.expand_user executable) in
    if is_path candidate
    then (if m.files.is_file (show candidate)
        then ok (show candidate)
        else err (executable_not_found (show candidate)))
    else elim (m.which executable) [
      | none ↦ err (executable_not_found executable)
      | some resolved ↦ ok resolved
    ]

-- `ProotBackend._resolve_proot`
unfoldable pub resolve_proot : Machine → Text → Checked Text
unfolding is_path
resolve_proot m binary =
    let candidate = parse (m.expand_user binary) in
    if is_path candidate
    then (if m.files.is_file (show candidate)
        then ok (show candidate)
        else err (proot_not_found (show candidate)))
    else elim (m.which binary) [ none ↦ err (proot_not_found binary) | some resolved ↦ ok resolved ]

-- `TimeoutExpired` of the second `wait` leaves `_terminate_process`.
pub data Uncaught : Type 0 where
  timeout_expired : Uncaught

unfoldable after_kill : Wait → Result Uncaught Bool
after_kill exited = ok true
after_kill timed_out = err timeout_expired
after_kill wait_failed = ok false

unfoldable after_terminate : Signals → Wait → Result Uncaught Bool
unfolding after_kill
after_terminate s exited = ok true
after_terminate s timed_out = if s.kill then after_kill s.second_wait else ok false
after_terminate s wait_failed = ok false

-- `_terminate_process`
unfoldable pub terminate_process : Signals → Result Uncaught Bool
unfolding after_terminate
terminate_process s = if s.terminate then after_terminate s s.first_wait else ok false

abbrev Escapes : Signals → Type 0
Escapes s =
    (s.terminate ≡ true)
    × (s.first_wait ≡ timed_out)
    × (s.kill ≡ true)
    × (s.second_wait ≡ timed_out)

Escapes-iff :
    (t : Bool) (w : Wait) (k : Bool) (v : Wait)
    → let s : Signals = record { terminate = t; first_wait = w; kill = k; second_wait = v } in
      (terminate_process s ≡ err timeout_expired) ↔ Escapes s
unfolding terminate_process after_terminate after_kill
Escapes-iff false w k v = (λ h. cc, λ (a, b, c, d). cc)
Escapes-iff true exited k v = (λ h. cc, λ (a, b, c, d). cc)
Escapes-iff true wait_failed k v = (λ h. cc, λ (a, b, c, d). cc)
Escapes-iff true timed_out false v = (λ h. cc, λ (a, b, c, d). cc)
Escapes-iff true timed_out true exited = (λ h. cc, λ (a, b, c, d). cc)
Escapes-iff true timed_out true timed_out = (λ h. (refl, refl, refl, refl), λ (a, b, c, d). refl)
Escapes-iff true timed_out true wait_failed = (λ h. cc, λ (a, b, c, d). cc)

-- Ending a process raises an exception exactly if both signals were sent and neither wait saw the
-- process end: then TimeoutExpired leaves `_terminate_process`.
pub terminate_process_escapes_iff :
    (s : Signals)
    → (terminate_process s ≡ err timeout_expired) ↔ (
        (s.terminate ≡ true)
        × (s.first_wait ≡ timed_out)
        × (s.kill ≡ true)
        × (s.second_wait ≡ timed_out))
terminate_process_escapes_iff s = Escapes-iff s.terminate s.first_wait s.kill s.second_wait
