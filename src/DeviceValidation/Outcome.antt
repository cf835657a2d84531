-- ===== src/DeviceValidation/Outcome.antt =====
-- tools/android_device_validation.py: what the exit code 0 stands for.
use etroute.Prelude.{◌≡◌, true, List, ok, Returns, Returns-bind, Returns-ok, Returns-self, arith}
use etroute.DeviceValidation.Diagnostics.{Run, Evaluation}
use etroute.DeviceValidation.Evaluate.Laws.{IsValidated}
use etroute.DeviceValidation.Evaluate.Verdict.{evaluate-IsValidated}
use etroute.DeviceValidation.{Arguments, Host, two_runs, code_of, main}

module _ {S : Type 0} (h : Host S) (a : Arguments) where
  code_of-passed : (e : Evaluation) → code_of h a e ≡ 0 → e.passed ≡ true
  code_of-passed e z = ground arith

  -- If the validation ends with exit code 0, both runs of the bridge were made, and they are validated:
  -- two runs that exited with 0 and whose envelopes are successes with a diagnostic each, which show the
  -- required binds, no wrong kernel and the expected one, the same persistent marker with an uptime that
  -- did not shrink, the caller etumax, and two different sessions.
  pub main-IsValidated :
      (s : S)
      → Returns
          (λ code.
            code ≡ 0
            → (runs : List Run) × ((two_runs h a s).1 ≡ ok runs)
              × IsValidated h.judge runs a.kernel_release)
          (main h a s).1
  unfolding main
  main-IsValidated s = Returns-bind _ _ Returns-self λ runs ran.
      Returns-bind _ _ (evaluate-IsValidated h.judge a.kernel_release runs)
        λ e valid. Returns-ok _ λ zero_code. (runs, ran, valid (code_of-passed e zero_code))
