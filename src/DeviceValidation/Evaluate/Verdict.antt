-- ===== src/DeviceValidation/Evaluate/Verdict.antt =====
-- tools/android_device_validation.py: the status PASS, from the checks together.
use etroute.Prelude.{
  suc, Returns-mono, ℕ, ◌≡◌, refl, Bool, true, ◌&&◌, Option, List, [], ◌∷◌, all, length, Result, ok,
  err, Returns, Returns-bind, Returns-ok, arith, ◌==◌, and-eq-true,
}
use etroute.Python.Text.{Text}
use etroute.Python.Value.{ℤ, pos, negsuc, Fields}
use etroute.DeviceValidation.Diagnostics.{
  Judge, Run, Evaluation, is_zero_code, succeeded, extract_diagnostic,
}
use etroute.DeviceValidation.Evaluate.{
  runs_check, contract_check, judge_pair, index_error, with_diagnostics, evaluate,
}
use etroute.DeviceValidation.Evaluate.Laws.{
  IsGoodRun, HasBinds, HasKernel, IsContinued, IsCorrelated, IsValidated, binds_check-Shows,
  kernel_check-Shows, marker_check-Shows, correlation_check-Shows,
}

is_zero_code→eq : (z : ℤ) → is_zero_code z ≡ true → z ≡ pos 0
is_zero_code→eq (pos n) h = ground arith
is_zero_code→eq (negsuc n) h = cc

succeeded-IsGoodRun :
    (run : Run) (d : Fields)
    → succeeded run ≡ true
    → extract_diagnostic run ≡ ok d
    → IsGoodRun run d
unfolding succeeded
succeeded-IsGoodRun run d h e =
    let (exit, success) = and-eq-true _ _ h in
    record { exit = is_zero_code→eq run.exit_code exit; success = success; extracted = e }

-- Two diagnostics that pass all checks.
record ArePassed (j : Judge) (runs : List Run) (expected : Option Text) (first second : Fields)
    : Type 0 where
  ran : (length runs == 2 && all succeeded runs) ≡ true
  binds : HasBinds first × HasBinds second
  kernel : HasKernel j expected first second
  continued : IsContinued j first second
  correlated : IsCorrelated j first second

judge_pair-Returns :
    (j : Judge) (runs : List Run) (expected : Option Text) (first second : Fields)
    → Returns
        (λ (e : Evaluation). e.passed ≡ true → ArePassed j runs expected first second)
        (judge_pair j runs expected first second)
unfolding judge_pair runs_check contract_check
judge_pair-Returns j runs expected first second =
    Returns-bind _ _ (binds_check-Shows j first second) λ b hb.
      Returns-bind _ _ (kernel_check-Shows j expected first second) λ k hk.
        Returns-bind _ _ (marker_check-Shows j first second) λ m hm.
          Returns-bind _ _ (correlation_check-Shows j first second) λ c hc. Returns-ok _ λ passed.
            let (ran, rest) = and-eq-true _ _ passed in
            let (pb, rest) = and-eq-true _ _ rest in
            let (pk, rest) = and-eq-true _ _ rest in
            let (pm, rest) = and-eq-true _ _ rest in
            let (pc, rest) = and-eq-true _ _ rest in
            record {
              ran = ran;
              binds = hb pb;
              kernel = hk pk;
              continued = hm pm;
              correlated = hc pc;
            }

module _ (j : Judge) (expected : Option Text) where
  abbrev Validates : List Run → Evaluation → Type 0
  Validates runs e = e.passed ≡ true → IsValidated j runs expected

  passed-IsValidated :
      (first_run second_run : Run) (rest : List Run) (first second : Fields)
      → extract_diagnostic first_run ≡ ok first
      → extract_diagnostic second_run ≡ ok second
      → ArePassed j (first_run ∷ second_run ∷ rest) expected first second
      → IsValidated j (first_run ∷ second_run ∷ rest) expected
  passed-IsValidated first_run second_run [] first second e f p =
      let (ran_first, ran_second) =
        both_succeeded (succeeded first_run) (succeeded second_run) p.ran in
      record {
        first_run = first_run;
        second_run = second_run;
        two = refl;
        first = first;
        second = second;
        first_good = succeeded-IsGoodRun first_run first ran_first e;
        second_good = succeeded-IsGoodRun second_run second ran_second f;
        first_binds = p.binds.0;
        second_binds = p.binds.1;
        kernel = p.kernel;
        continued = p.continued;
        correlated = p.correlated;
      }
    where
      both_succeeded : (a b : Bool) → (a && (b && true)) ≡ true → (a ≡ true) × (b ≡ true)
      both_succeeded a b h = ground arith
  passed-IsValidated first_run second_run (third ∷ rest) first second e f p =
      let (counted, ran) = and-eq-true _ _ p.ran in absurd (too_many (length rest) counted)
    where
      too_many : (n : ℕ) → (suc (suc (suc n)) == 2) ≡ true → ⊥
      too_many n h = ground arith

  with_diagnostics-Returns :
      (first_run second_run : Run) (rest : List Run) (first second : Result Text Fields)
      → extract_diagnostic first_run ≡ first
      → extract_diagnostic second_run ≡ second
      → Returns
          (Validates (first_run ∷ second_run ∷ rest))
          (with_diagnostics j (first_run ∷ second_run ∷ rest) expected first second)
  with_diagnostics-Returns first_run second_run rest (err m) second e f = Returns-ok _ λ passed. cc
  with_diagnostics-Returns first_run second_run rest (ok first) (err m) e f =
      Returns-ok _ λ passed. cc
  with_diagnostics-Returns first_run second_run rest (ok first) (ok second) e f =
      Returns-mono _ _
        (λ evaluation passes passed.
          passed-IsValidated first_run second_run rest first second e f (passes passed))
        (judge_pair-Returns j (first_run ∷ second_run ∷ rest) expected first second)

  one_run-Returns :
      (first_run : Run) (first : Result Text Fields)
      → Returns
          (Validates (first_run ∷ []))
          (with_diagnostics j (first_run ∷ []) expected first (err (index_error j)))
  one_run-Returns first_run (err m) = Returns-ok _ λ passed. cc
  one_run-Returns first_run (ok first) = Returns-ok _ λ passed. cc

  -- An evaluation with the status PASS is one of exactly two runs that exited with 0 and whose envelopes
  -- are successes with a diagnostic each: both show the required binds, no wrong kernel and the expected
  -- one, the same persistent marker with an uptime that did not shrink, the caller etumax, and two
  -- different sessions.
  pub evaluate-IsValidated :
      (runs : List Run)
      → Returns (λ e. e.passed ≡ true → IsValidated j runs expected) (evaluate j runs expected)
  unfolding evaluate
  evaluate-IsValidated [] = Returns-ok _ λ passed. cc
  evaluate-IsValidated (first ∷ []) = one_run-Returns first (extract_diagnostic first)
  evaluate-IsValidated (first ∷ second ∷ rest) =
      with_diagnostics-Returns first second rest (extract_diagnostic first)
        (extract_diagnostic second) refl refl
