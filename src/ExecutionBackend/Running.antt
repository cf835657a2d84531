-- ===== src/ExecutionBackend/Running.antt =====
-- execution_backend.py: `execute` and `stop` over the table of running processes.
pub mod Table
pub mod Reach
use etroute.Prelude.{
  ℕ, ◌≡◌, Bool, true, false, Option, none, some, List, [], ◌∷◌, Result, ok, err, ◌>>=◌,
  if◌then◌else◌, ◌==◌,
}
use etroute.Python.Text.{Text, text_eq}
use etroute.Python.Dict.{Dict, find, set, drop}
use etroute.Python.Value.{ℤ, pos, negsuc}
use etroute.LaunchSpec.{set_key}
use etroute.ExecutionBackend.Config.{
  BackendError, Checked, ExecutionRequest, ProotConfig, validate_request, build_argv,
}
use etroute.ExecutionBackend.Machine.{
  Machine, Launched, process, not_started, bad_argument, Ended, ended, lost, Signals, Uncaught,
  terminate_process, resolve_executable,
}

pub data ExecutionState : Type 0 where
  starting running completed failed stopped : ExecutionState

pub record ExecutionResult : Type 0 where
  pub execution_id : Text
  pub exit_code : Option ℤ
  pub stdout : Text
  pub stderr : Text
  pub state : ExecutionState

-- `self._running`
abbrev pub Table : Type 0
Table = Dict ℕ

abbrev pub is_zero_code : ℤ → Bool
is_zero_code (pos n) = n == 0
is_zero_code (negsuc n) = false

-- The result behind `communicate`, and that of `except OSError`.
abbrev pub result_of : Text → Ended → ExecutionResult
result_of id (ended code out errors) = record {
  execution_id = id;
  exit_code = some code;
  stdout = out;
  stderr = errors;
  state = if is_zero_code code then completed else failed;
}
result_of id (lost message) = record {
  execution_id = id;
  exit_code = none;
  stdout = [];
  stderr = message;
  state = failed;
}

-- The end of `execute`, from `communicate` on: whatever it does, the entry is popped.
unfoldable pub collect : Text → Ended → Table → Table × ExecutionResult
collect id e table = (drop id table, result_of id e)

-- `stop`: the entry is popped before the process is ended.
unfoldable pub stop : Text → (ℕ → Signals) → Table → Table × Result Uncaught Bool
unfolding find
stop id signals table = elim (find id table) [
  | none ↦ (drop id table, ok false)
  | some handle ↦ (drop id table, terminate_process (signals handle))
]

-- What leaves `execute`: a refused request, or the ValueError of Popen.
pub data Refusal : Type 0 where
  refused : BackendError → Refusal
  popen_value_error : Refusal

abbrev refuse : {A : Type 0} → Checked A → Result Refusal A
refuse (ok a) = ok a
refuse (err e) = err (refused e)

-- `env = os.environ.copy(); env.update(request.environment)`
unfoldable pub update_environment : List (Text × Text) → List (Text × Text) → List (Text × Text)
unfolding set_key
update_environment environ [] = environ
update_environment environ ((key, value) ∷ env) = update_environment (set_key key value environ) env

-- The `try` of `execute` without an interruption between Popen and `communicate`.
unfoldable pub run_launched :
    Machine → Text → Launched → Table → Result Refusal (Table × ExecutionResult)
unfolding collect
run_launched m id (process handle) table =
    ok (collect id (m.communicate handle) (set id handle table))
run_launched m id (not_started message) table = ok (collect id (lost message) table)
run_launched m id bad_argument table = err popen_value_error

unfoldable pub run_process :
    Machine → List Text → ExecutionRequest → Table → Result Refusal (Table × ExecutionResult)
unfolding run_launched
run_process m argv request table =
    run_launched m m.new_id
      (m.popen argv request.working_directory (update_environment m.environ request.environment))
      table

-- `NativeBackend.execute`
unfoldable pub execute_native :
    Machine → ExecutionRequest → Table → Result Refusal (Table × ExecutionResult)
execute_native m r table = do
  request ← refuse (validate_request m.files r)
  executable ← refuse (resolve_executable m request.executable)
  run_process m (executable ∷ request.arguments) request table

pub record ProotBackend : Type 0 where
  pub config : ProotConfig
  pub resolved_binary : Text
  pub supports_kill_on_exit : Bool
  pub running : Table

-- `ProotBackend.execute`
unfoldable pub execute_proot :
    Machine → ProotBackend → ExecutionRequest → Result Refusal (Table × ExecutionResult)
execute_proot m b r = do
  request ← refuse (validate_request m.files r)
  argv ← refuse (build_argv m.files b.config b.resolved_binary b.supports_kill_on_exit request)
  run_process m argv request b.running
