-- ===== src/DeviceValidation.antt =====
-- tools/android_device_validation.py: two runs of the bridge and the verdict on their diagnostics.
pub mod Uptime
pub mod Diagnostics
pub mod Evaluate
pub mod Outcome
use etroute.Prelude.{
  ℕ, zero, suc, ◌+◌, Bool, true, false, Option, none, some, List, [], ◌∷◌, ◌++◌, Result, ok, err,
  ◌>>=◌, if◌then◌else◌,
}
use etroute.Python.Text.{Text, codes, text_eq}
use etroute.Python.Value.{ℤ, Value, obj, Fields, truthy}
use etroute.DeviceValidation.Diagnostics.{
  Run, Judge, Escape, timeout_expired, os_error, invalid_file, Evaluation,
}
use etroute.DeviceValidation.Evaluate.{evaluate}

-- The parsed command line, with the paths resolved.
pub record Arguments : Type 0 where
  pub environment : Text
  pub bridge : Text
  pub etroute : Text
  pub python : Text
  pub guest_python : Option Text
  pub proot : Text
  pub kernel_release : Option Text
  pub kill_on_exit : Bool
  -- `str(args.timeout)`
  pub timeout : Text
  pub run_id : Text
  -- `evidence_dir / run_id`
  pub evidence_dir : Text

-- What `subprocess.run` does: the exit code, stdout and stderr, or an exception.
pub data Ended : Type 0 where
  completed : ℤ → Text → Text → Ended
  timed_out not_started : Ended

-- The subprocess and the files that it leaves. `S` is the state of the host.
pub record Host (S : Type 0) : Type 0 where
  pub judge : Judge
  pub run : S → List Text → S × Ended
  pub is_file : S → Text → Bool
  -- `json.loads(path.read_text(encoding="utf-8"))`, or `none` for an exception
  pub load : S → Text → Option Value

abbrev digit : ℕ → Text
digit zero = codes "0"
digit (suc zero) = codes "1"
digit _ = codes "2"

abbrev option_text : Text → Option Text → List Text
option_text flag none = []
option_text flag (some value) = flag ∷ value ∷ []

unfoldable pub request_id : Arguments → ℕ → Text
request_id a run_index = a.run_id ++ (codes "-request-" ++ digit run_index)

unfoldable pub session_id : Arguments → ℕ → Text
session_id a run_index = a.run_id ++ (codes "-session-" ++ digit run_index)

-- `evidence_dir / f"bridge-run-{run_index}.json"`
unfoldable pub output_path : Arguments → ℕ → Text
output_path a run_index =
    a.evidence_dir ++ (codes "/bridge-run-" ++ (digit run_index ++ codes ".json"))

unfoldable bridge_command : Arguments → ℕ → List Text
unfolding request_id session_id output_path
bridge_command a run_index =
    (a.python
      ∷ a.bridge
      ∷ a.environment
      ∷ codes "--etroute"
      ∷ a.etroute
      ∷ codes "--proot"
      ∷ a.proot
      ∷ codes "--timeout"
      ∷ a.timeout
      ∷ codes "--request-id"
      ∷ request_id a run_index
      ∷ codes "--session-id"
      ∷ session_id a run_index
      ∷ codes "--json-out"
      ∷ output_path a run_index
      ∷ [])
    ++ (option_text (codes "--kernel-release") (truthy a.kernel_release)
        ++ (option_text (codes "--guest-python") (truthy a.guest_python)
            ++ (if a.kill_on_exit then codes "--kill-on-exit" ∷ [] else [])))

-- `parse_json_file(output_path) if output_path.is_file() else None`
abbrev pub parsed : Option Value → Result Escape (Option Fields)
parsed (some (obj d)) = ok (some d)
parsed _ = err invalid_file

unfoldable pub envelope_of : {S : Type 0} → Host S → S → Text → Result Escape (Option Fields)
envelope_of h s path = if h.is_file s path then parsed (h.load s path) else ok none

module _ {S : Type 0} (h : Host S) (a : Arguments) where
  unfoldable pub run_of : ℕ → S × Ended → S × Result Escape Run
  unfolding envelope_of output_path
  run_of run_index (s, timed_out) = (s, err timeout_expired)
  run_of run_index (s, not_started) = (s, err os_error)
  run_of run_index (s, completed code out errors) = (
    s,
    do
      envelope ← envelope_of h s (output_path a run_index)
      ok (record {
        index = run_index;
        exit_code = code;
        stdout = out;
        stderr = errors;
        envelope = envelope;
      }),
  )

  unfoldable pub run_bridge : S → ℕ → S × Result Escape Run
  unfolding bridge_command run_of
  run_bridge s run_index = run_of run_index (h.run s (bridge_command a run_index))

  abbrev pub second_run : Run → S × Result Escape Run → S × Result Escape (List Run)
  second_run first (s, ok second) = (s, ok (first ∷ second ∷ []))
  second_run first (s, err e) = (s, err e)

  abbrev pub first_run : S × Result Escape Run → S × Result Escape (List Run)
  first_run (s, ok first) = second_run first (run_bridge s 2)
  first_run (s, err e) = (s, err e)

  unfoldable pub two_runs : S → S × Result Escape (List Run)
  unfolding run_bridge
  two_runs s = first_run (run_bridge s 1)

  -- `main`, but for the files of evidence that it writes behind the evaluation: the exit code.
  abbrev pub code_of : Evaluation → ℕ
  code_of e = if e.passed then 0 else 30

  unfoldable pub main : S → S × Result Escape ℕ
  unfolding two_runs evaluate
  main s =
      let (after, ran) = two_runs s in
      (after, do runs ← ran; e ← evaluate h.judge runs a.kernel_release; ok (code_of e))
