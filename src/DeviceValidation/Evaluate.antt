-- ===== src/DeviceValidation/Evaluate.antt =====
-- tools/android_device_validation.py: `evaluate`, the checks on two diagnostics.
pub mod Laws
pub mod Verdict
use etroute.Prelude.{
  ℕ, Bool, true, false, not, ◌&&◌, ◌||◌, Option, none, some, List, [], ◌∷◌, ◌++◌, all, map, length,
  Result, ok, err, ◌>>=◌, ◌>>◌, raise_if, leb, ◌==◌, if◌then◌else◌,
}
use etroute.Python.Text.{Text, codes, text_eq}
use etroute.Python.Value.{
  ℤ, pos, Value, null, bool, int, float, str, arr, obj, opaque, Items, nil, cons, Fields, end,
  field, get, or_default, is_true, is_false, is_text, of_optional, truthy,
}
use etroute.Python.Runtime.{Runtime, to_text}
use etroute.DeviceValidation.Uptime.{UptimeError, parse_uptime}
use etroute.DeviceValidation.Diagnostics.{
  Judge, Escape, attribute_error, type_error, timeout_expired, os_error, invalid_file, Checked, Run,
  Check, Evaluation, entry, entry_or_empty, as_dict, is_zero_code, is_ok, succeeded, diagnostic_in,
  extract_diagnostic, pair_of, exit_codes, equal, is_hashable,
}

module _ (j : Judge) where
  unfoldable pub runs_check : List Run → Check
  unfolding succeeded
  runs_check runs = record {
    name = codes "two_bridge_runs_succeeded";
    passed = length runs == 2 && all succeeded runs;
    evidence = arr (exit_codes runs);
  }

  unfoldable pub binds_check : Fields → Fields → Checked Check
  unfolding get is_true
  binds_check first second = do
    first_resources ← as_dict (entry_or_empty first (codes "resources"))
    second_resources ← as_dict (entry_or_empty second (codes "resources"))
    ok (record {
      name = codes "required_binds_visible";
      passed =
          is_true (entry first_resources (codes "required_binds_visible"))
          && is_true (entry second_resources (codes "required_binds_visible"));
      evidence =
          pair_of (codes "first") (entry first_resources (codes "bind_mount_visibility"))
            (codes "second") (entry second_resources (codes "bind_mount_visibility"));
    })

  abbrev pub is_expected : Option Text → Fields → Fields → Bool
  is_expected none first second = true
  is_expected (some kernel) first second =
      is_text (entry first (codes "kernel_release")) kernel
      && is_text (entry second (codes "kernel_release")) kernel

  unfoldable pub kernel_check : Option Text → Fields → Fields → Checked Check
  unfolding get is_false is_text
  kernel_check expected first second = do
    first_device ← as_dict (entry_or_empty first (codes "device"))
    second_device ← as_dict (entry_or_empty second (codes "device"))
    ok (record {
      name = codes "kernel_release_matches";
      passed =
          (not (is_false (entry first_device (codes "kernel_release_matches")))
            && not (is_false (entry second_device (codes "kernel_release_matches"))))
          && is_expected (truthy expected) first_device second_device;
      evidence = obj (
          field (codes "expected") (of_optional expected) (
            field (codes "first") (entry first_device (codes "kernel_release"))
              (field (codes "second") (entry second_device (codes "kernel_release")) end)));
    })

  unfoldable pub uptime_of : Fields → Result UptimeError ℕ
  unfolding get to_text parse_uptime
  uptime_of activation =
      parse_uptime j.wide_digit (to_text j.runtime (entry activation (codes "uptime")))

  unfoldable pub uptimes_of : Fields → Fields → Result UptimeError (ℕ × ℕ)
  unfolding uptime_of
  uptimes_of first second = do
    first_uptime ← uptime_of first
    second_uptime ← uptime_of second
    ok (first_uptime, second_uptime)

  abbrev pub uptime_ok : Result UptimeError (ℕ × ℕ) → Bool
  uptime_ok (err e) = false
  uptime_ok (ok (first, second)) = leb first second

  abbrev uptime_evidence : Result UptimeError (ℕ × ℕ) → Fields
  uptime_evidence (err e) = field (codes "first_uptime_seconds") null (
      field (codes "second_uptime_seconds") null
        (field (codes "uptime_error") (str (j.describe e)) end))
  uptime_evidence (ok (first, second)) = field (codes "first_uptime_seconds") (int (pos first)) (
      field (codes "second_uptime_seconds") (int (pos second))
        (field (codes "uptime_error") null end))

  unfoldable pub marker_check : Fields → Fields → Checked Check
  unfolding get is_true is_false equal uptimes_of
  marker_check first second = do
    first_activation ← as_dict (entry_or_empty first (codes "activation"))
    second_activation ← as_dict (entry_or_empty second (codes "activation"))
    first_marker ← as_dict (entry_or_empty first_activation (codes "marker"))
    second_marker ← as_dict (entry_or_empty second_activation (codes "marker"))
    ok (record {
      name = codes "activation_marker_persists";
      passed =
          is_true (entry first_marker (codes "persistent"))
          && (is_true (entry second_marker (codes "persistent"))
              && (equal j (entry first_marker (codes "location"))
                    (entry second_marker (codes "location"))
                  && (is_false (entry second_activation (codes "is_first_activation"))
                      && uptime_ok (uptimes_of first_activation second_activation))));
      evidence = obj (
          field (codes "first_is_first") (entry first_activation (codes "is_first_activation")) (
            field (codes "second_is_first") (entry second_activation (codes "is_first_activation"))
              (field (codes "marker_location") (entry second_marker (codes "location"))
                (uptime_evidence (uptimes_of first_activation second_activation)))));
    })

  abbrev pub names_caller : Fields → Bool
  names_caller integration = is_text (entry integration (codes "declared_caller")) (codes "etumax")

  -- `len({first session, second session}) == 2`
  unfoldable pub sessions_differ : Fields → Fields → Checked Bool
  unfolding get equal
  sessions_differ first second = do
    raise_if
        (not (is_hashable j (entry first (codes "session_id")))
          || not (is_hashable j (entry second (codes "session_id"))))
        type_error
    ok (not (equal j (entry first (codes "session_id")) (entry second (codes "session_id"))))

  -- The dict of the second run is asked only if the first one names the caller.
  unfoldable pub second_correlated : Fields → Value → Checked Bool
  unfolding is_text sessions_differ
  second_correlated first second = do
    second_integration ← as_dict second
    if names_caller second_integration then sessions_differ first second_integration else ok false

  unfoldable pub correlated : Value → Value → Checked Bool
  unfolding is_text second_correlated
  correlated first second = do
    first_integration ← as_dict first
    if names_caller first_integration then second_correlated first_integration second else ok false

  unfoldable pub correlation_check : Fields → Fields → Checked Check
  unfolding get correlated
  correlation_check first second = do
    passed ←
        correlated (entry_or_empty first (codes "integration"))
          (entry_or_empty second (codes "integration"))
    ok (record {
      name = codes "etumax_correlation_validated";
      passed = passed;
      evidence = arr (
          cons (entry_or_empty first (codes "integration"))
            (cons (entry_or_empty second (codes "integration")) nil));
    })

  unfoldable pub contract_check : Fields → Fields → Check
  unfolding get
  contract_check first second = record {
    name = codes "diagnostic_contract_available";
    passed = true;
    evidence = arr (
        cons (entry first (codes "schema_version"))
          (cons (entry second (codes "schema_version")) nil));
  }

  -- `{"status": "FAIL", "checks": checks}`, where a diagnostic is missing
  abbrev unavailable : List Run → Text → Evaluation
  unavailable runs message = record {
    passed = false;
    checks =
        runs_check runs
        ∷ record {
          name = codes "diagnostic_contract_available";
          passed = false;
          evidence = str message;
        }
        ∷ [];
  }

  unfoldable pub judge_pair : List Run → Option Text → Fields → Fields → Checked Evaluation
  unfolding runs_check contract_check binds_check kernel_check marker_check correlation_check
  judge_pair runs expected first second = do
    binds ← binds_check first second
    kernel ← kernel_check expected first second
    marker ← marker_check first second
    correlation ← correlation_check first second
    let checks =
        runs_check runs ∷ contract_check first second ∷ binds ∷ kernel ∷ marker ∷ correlation ∷ []
    ok (record { passed = all (λ (c : Check). c.passed) checks; checks = checks })

  abbrev pub index_error : Text
  index_error = codes "list index out of range"

  abbrev pub with_diagnostics :
      List Run → Option Text → Result Text Fields → Result Text Fields → Checked Evaluation
  with_diagnostics runs expected (err message) second = ok (unavailable runs message)
  with_diagnostics runs expected (ok first) (err message) = ok (unavailable runs message)
  with_diagnostics runs expected (ok first) (ok second) = judge_pair runs expected first second

  unfoldable pub evaluate : List Run → Option Text → Checked Evaluation
  unfolding extract_diagnostic judge_pair
  evaluate [] expected = ok (unavailable [] index_error)
  evaluate (first ∷ []) expected =
      with_diagnostics (first ∷ []) expected (extract_diagnostic first) (err index_error)
  evaluate (first ∷ second ∷ rest) expected =
      with_diagnostics (first ∷ second ∷ rest) expected (extract_diagnostic first)
        (extract_diagnostic second)
