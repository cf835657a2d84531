-- ===== src/DeviceValidation/Evaluate/Laws.antt =====
-- tools/android_device_validation.py: what the status PASS stands for.
use etroute.Prelude.{
  ℕ, ◌≡◌, refl, ◌≤◌, true, false, Option, List, [], ◌∷◌, Result, ok, err, Returns, Returns-bind,
  Returns-raise_if, Returns-ok, Returns-err, Returns-mono, arith, leb, if-cases, and-eq-true,
  not-true,
}
use etroute.Python.Text.{Text, codes}
use etroute.Python.Value.{pos, Value, obj, Fields, is_true, is_false, is_text, truthy}
use etroute.DeviceValidation.Uptime.{UptimeError}
use etroute.DeviceValidation.Diagnostics.{
  Judge, Run, Check, entry, entry_or_empty, as_dict, is_ok, extract_diagnostic, equal,
}
use etroute.DeviceValidation.Evaluate.{
  binds_check, is_expected, kernel_check, uptimes_of, uptime_ok, marker_check, names_caller,
  sessions_differ, second_correlated, correlated, correlation_check,
}

-- A run of the bridge that succeeded, with its diagnostic.
pub record IsGoodRun (run : Run) (diagnostic : Fields) : Type 0 where
  pub exit : run.exit_code ≡ pos 0
  pub success : is_ok run.envelope ≡ true
  pub extracted : extract_diagnostic run ≡ ok diagnostic

-- The object under a key, `{}` if there is none.
abbrev IsUnder : Fields → Text → Fields → Type 0
IsUnder d key e = entry_or_empty d key ≡ obj e

pub record HasBinds (d : Fields) : Type 0 where
  pub resources : Fields
  pub under : IsUnder d (codes "resources") resources
  pub visible : is_true (entry resources (codes "required_binds_visible")) ≡ true

-- Both markers persist, at one place, the second activation is no first one, and the uptime grew.
pub record IsContinued (j : Judge) (first second : Fields) : Type 0 where
  pub first_activation : Fields
  pub second_activation : Fields
  pub first_under : IsUnder first (codes "activation") first_activation
  pub second_under : IsUnder second (codes "activation") second_activation
  pub first_marker : Fields
  pub second_marker : Fields
  pub first_marker_under : IsUnder first_activation (codes "marker") first_marker
  pub second_marker_under : IsUnder second_activation (codes "marker") second_marker
  pub first_persists : is_true (entry first_marker (codes "persistent")) ≡ true
  pub second_persists : is_true (entry second_marker (codes "persistent")) ≡ true
  pub same_place :
      equal j (entry first_marker (codes "location")) (entry second_marker (codes "location"))
      ≡ true
  pub not_first : is_false (entry second_activation (codes "is_first_activation")) ≡ true
  pub uptimes : ℕ × ℕ
  pub read : uptimes_of j first_activation second_activation ≡ ok uptimes
  pub grows : uptimes.0 ≤ uptimes.1

pub record IsCorrelated (j : Judge) (first second : Fields) : Type 0 where
  pub first_integration : Fields
  pub second_integration : Fields
  pub first_under : IsUnder first (codes "integration") first_integration
  pub second_under : IsUnder second (codes "integration") second_integration
  pub first_caller :
      is_text (entry first_integration (codes "declared_caller")) (codes "etumax") ≡ true
  pub second_caller :
      is_text (entry second_integration (codes "declared_caller")) (codes "etumax") ≡ true
  pub fresh_session :
      equal j
        (entry first_integration (codes "session_id"))
        (entry second_integration (codes "session_id"))
      ≡ false

pub record HasKernel (j : Judge) (expected : Option Text) (first second : Fields) : Type 0 where
  pub first_device : Fields
  pub second_device : Fields
  pub first_under : IsUnder first (codes "device") first_device
  pub second_under : IsUnder second (codes "device") second_device
  pub first_matches : is_false (entry first_device (codes "kernel_release_matches")) ≡ false
  pub second_matches : is_false (entry second_device (codes "kernel_release_matches")) ≡ false
  pub is_expected_kernel : is_expected j (truthy expected) first_device second_device ≡ true

-- All that PASS stands for.
pub record IsValidated (j : Judge) (runs : List Run) (expected : Option Text) : Type 0 where
  pub first_run : Run
  pub second_run : Run
  pub two : runs ≡ first_run ∷ second_run ∷ []
  pub first : Fields
  pub second : Fields
  pub first_good : IsGoodRun first_run first
  pub second_good : IsGoodRun second_run second
  pub first_binds : HasBinds first
  pub second_binds : HasBinds second
  pub kernel : HasKernel j expected first second
  pub continued : IsContinued j first second
  pub correlated : IsCorrelated j first second

as_dict-Returns : (v : Value) → Returns (λ d. v ≡ obj d) (as_dict v)
as_dict-Returns (obj d) = Returns-ok _ refl
as_dict-Returns _ = Returns-err _

abbrev pub Shows : Type 0 → Check → Type 0
Shows P c = c.passed ≡ true → P

module _ (j : Judge) where
  pub binds_check-Shows :
      (first second : Fields)
      → Returns (Shows (HasBinds first × HasBinds second)) (binds_check j first second)
  unfolding binds_check
  binds_check-Shows first second = Returns-bind _ _ (as_dict-Returns _) λ d hd.
      Returns-bind _ _ (as_dict-Returns _) λ e he. Returns-ok _ λ passed.
        let (p, q) = and-eq-true _ _ passed in
        (
          record { resources = d; under = hd; visible = p },
          record { resources = e; under = he; visible = q },
        )

  uptime_ok-reads :
      (u : Result UptimeError (ℕ × ℕ))
      → uptime_ok j u ≡ true
      → (uptimes : ℕ × ℕ) × (u ≡ ok uptimes) × (uptimes.0 ≤ uptimes.1)
  uptime_ok-reads (err e) h = cc
  uptime_ok-reads (ok (m, n)) h = ((m, n), refl, le m n h)
    where
      le : (m n : ℕ) → leb m n ≡ true → m ≤ n
      le m n h = ground arith

  pub marker_check-Shows :
      (first second : Fields)
      → Returns (Shows (IsContinued j first second)) (marker_check j first second)
  unfolding marker_check
  marker_check-Shows first second = Returns-bind _ _ (as_dict-Returns _) λ a ha.
      Returns-bind _ _ (as_dict-Returns _) λ b hb. Returns-bind _ _ (as_dict-Returns _) λ m hm.
        Returns-bind _ _ (as_dict-Returns _) λ n hn. Returns-ok _ λ passed.
          let (p, rest) = and-eq-true _ _ passed in
          let (q, rest) = and-eq-true _ _ rest in
          let (place, rest) = and-eq-true _ _ rest in
          let (later, uptime) = and-eq-true _ _ rest in
          let (uptimes, read, grows) = uptime_ok-reads _ uptime in
          record {
            first_activation = a;
            second_activation = b;
            first_under = ha;
            second_under = hb;
            first_marker = m;
            second_marker = n;
            first_marker_under = hm;
            second_marker_under = hn;
            first_persists = p;
            second_persists = q;
            same_place = place;
            not_first = later;
            uptimes = uptimes;
            read = read;
            grows = grows;
          }

  pub kernel_check-Shows :
      (expected : Option Text) (first second : Fields)
      → Returns (Shows (HasKernel j expected first second)) (kernel_check j expected first second)
  unfolding kernel_check
  kernel_check-Shows expected first second = Returns-bind _ _ (as_dict-Returns _) λ d hd.
      Returns-bind _ _ (as_dict-Returns _) λ e he. Returns-ok _ λ passed.
        let (matched, known) = and-eq-true _ _ passed in
        let (p, q) = and-eq-true _ _ matched in
        record {
          first_device = d;
          second_device = e;
          first_under = hd;
          second_under = he;
          first_matches = not-true _ p;
          second_matches = not-true _ q;
          is_expected_kernel = known;
        }

  sessions_differ-Returns :
      (first second : Fields)
      → Returns
          (λ differ.
            differ ≡ true
            → equal j (entry first (codes "session_id")) (entry second (codes "session_id"))
              ≡ false)
          (sessions_differ j first second)
  unfolding sessions_differ
  sessions_differ-Returns first second =
      Returns-raise_if _ _ _ λ hashable. Returns-ok _ (not-true _)

  correlated-Returns :
      (first second : Fields)
      → Returns
          (λ passed. passed ≡ true → IsCorrelated j first second)
          (correlated j
            (entry_or_empty first (codes "integration"))
            (entry_or_empty second (codes "integration")))
  unfolding correlated second_correlated
  correlated-Returns first second = Returns-bind _ _ (as_dict-Returns _) λ d hd.
      if-cases (Returns _) (names_caller j d)
        (λ first_named. Returns-bind _ _ (as_dict-Returns _) λ e he.
          if-cases (Returns _) (names_caller j e)
            (λ second_named.
              Returns-mono _ _
                (λ differ fresh passed. record {
                  first_integration = d;
                  second_integration = e;
                  first_under = hd;
                  second_under = he;
                  first_caller = first_named;
                  second_caller = second_named;
                  fresh_session = fresh passed;
                })
                (sessions_differ-Returns d e))
            λ unnamed. Returns-ok _ λ passed. cc)
        λ unnamed. Returns-ok _ λ passed. cc

  pub correlation_check-Shows :
      (first second : Fields)
      → Returns (Shows (IsCorrelated j first second)) (correlation_check j first second)
  unfolding correlation_check
  correlation_check-Shows first second =
      Returns-bind _ _ (correlated-Returns first second) λ passed shows. Returns-ok _ shows
