-- ===== src/Tests/Device.antt =====
-- tools/android_device_validation.py on a host where the bridge succeeds twice.
use etroute.Prelude.{
  ℕ, ◌+◌, ◌≡◌, refl, true, false, none, some, List, [], ok, Returns, ◌>>=◌, raise_if, ◌==◌,
  if◌then◌else◌,
}
use etroute.Python.Text.{Text, codes, strip, strip_left, is_space, text_eq}
use etroute.Python.Value.{pos, str, bool, obj, Fields, end, field, get, is_true, is_false, is_text}
use etroute.Python.Runtime.{to_text}
use etroute.Python.Lines.{split_on}
use etroute.Python.IntText.{int_of}
use etroute.DeviceValidation.Uptime.{IsClock, parse_uptime, of_parts, clock, parse_uptime-IsClock}
use etroute.DeviceValidation.Diagnostics.{
  Judge, Run, extract_diagnostic, diagnostic_in, equal, succeeded, is_ok,
}
use etroute.DeviceValidation.Evaluate.{
  evaluate, judge_pair, runs_check, binds_check, kernel_check, marker_check, correlation_check,
  contract_check, correlated, second_correlated, sessions_differ, uptimes_of, uptime_of,
}
use etroute.DeviceValidation.Evaluate.Laws.{IsValidated}
use etroute.DeviceValidation.{
  Arguments, Host, completed, two_runs, run_bridge, run_of, envelope_of, output_path, main,
}
use etroute.DeviceValidation.Outcome.{main-IsValidated}
use etroute.Tests.Host.{plain}

abbrev diagnostic : Text → Text → Fields
diagnostic session uptime =
    field (codes "resources") (obj (field (codes "required_binds_visible") (bool true) end)) (
      field (codes "activation")
        (obj (
          field (codes "marker")
            (obj (
              field (codes "persistent") (bool true)
                (field (codes "location") (str (codes "/root/m")) end)))
            (field (codes "is_first_activation") (bool false)
              (field (codes "uptime") (str uptime) end))))
        (field (codes "integration")
          (obj (
            field (codes "declared_caller") (str (codes "etumax"))
              (field (codes "session_id") (str session) end)))
          end))

abbrev envelope : ℕ → Fields
envelope n = field (codes "ok") (bool true) (
    field (codes "diagnostic")
      (obj (
        if n == 1
        then diagnostic (codes "a") (codes "1:02:59")
        else diagnostic (codes "b") (codes "1:03:01")))
      end)

abbrev judge : Judge
judge = record {
  runtime = plain;
  wide_digit = λ c. none;
  other_equal = λ v w. false;
  describe = λ e. [];
}

-- The state counts the runs.
abbrev device : Host ℕ
device = record {
  judge = judge;
  run = λ n command. (n + 1, completed (pos 0) [] []);
  is_file = λ n path. true;
  load = λ n path. some (obj (envelope n));
}

abbrev args : Arguments
args = record {
  environment = codes "lab";
  bridge = codes "/b.py";
  etroute = codes "/e.py";
  python = codes "python3";
  guest_python = none;
  proot = codes "proot";
  kernel_release = none;
  kill_on_exit = false;
  timeout = codes "60";
  run_id = codes "r";
  evidence_dir = codes "/e/r";
}

parse_uptime-IsClock_example :
    Returns (IsClock (λ c. none) (codes "1:02:03")) (parse_uptime (λ c. none) (codes "1:02:03"))
parse_uptime-IsClock_example = parse_uptime-IsClock (λ c. none) (codes "1:02:03")

read_uptime : parse_uptime (λ c. none) (codes "1:02:03") ≡ ok 3723
unfolding parse_uptime of_parts clock int_of split_on strip strip_left is_space ◌>>=◌
read_uptime = refl

validated : (main device args 0).1 ≡ ok 0
unfolding main two_runs run_bridge run_of envelope_of output_path evaluate judge_pair
    extract_diagnostic diagnostic_in runs_check binds_check kernel_check marker_check
    correlation_check contract_check correlated second_correlated sessions_differ equal uptimes_of
    uptime_of succeeded is_ok parse_uptime of_parts clock int_of split_on strip strip_left is_space
    text_eq get is_true is_false is_text to_text ◌>>=◌ raise_if
validated = refl

main-IsValidated_example :
    Returns
      (λ code.
        code ≡ 0
        → (runs : List Run) × ((two_runs device args 0).1 ≡ ok runs) × IsValidated judge runs none)
      (main device args 0).1
main-IsValidated_example = main-IsValidated device args 0
