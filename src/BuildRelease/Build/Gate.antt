-- ===== src/BuildRelease/Build/Gate.antt =====
-- tools/build_release.py: nothing is archived before the gate, and nothing excluded is archived.
use etroute.Prelude.{
  ◌≡◌, refl, ◌⊎◌, inl, inr, true, Option, none, some, List, [], ◌∷◌, All, ok, err, Returns,
  Returns-bind, Returns-raise_if, Returns-ok, Returns-err, Returns-self, not-false, subst,
  Returns-mono, arith,
}
use etroute.Python.Text.{Text, codes}
use etroute.Python.Value.{ℤ, pos, negsuc, Value}
use etroute.Python.Int.{◌≤ℤ◌, le_ℤ_iff}
use etroute.Python.Lines.{splitlines}
use etroute.BuildRelease.Status.{Escape, Checked, minimum_test_count, test_count}
use etroute.BuildRelease.Build.{
  Workshop, required_modules, or_raise, is_zero_code, compile_modules, run_tests, gate, passed,
  main,
}

-- What holds once `main` is past the gate.
pub record IsReleasable {S : Type 0} (w : Workshop S) : Type 0 where
  pub status_file : w.is_file (codes "ETROUTE_STATUS.json") ≡ true
  pub status : Value
  pub loaded : w.load_status ≡ some status
  pub modules : All (λ m. (w.is_file m ≡ true) × (w.compiles m ≡ true)) required_modules
  pub output : Text
  pub tested : w.run_tests ≡ some (pos 0, output)
  pub minimum : ℤ
  pub wanted : minimum_test_count w.interpreter status ≡ ok minimum
  pub enough : minimum ≤ℤ test_count w.interpreter (pos 0) (splitlines output)

is_zero_code→eq : (z : ℤ) → is_zero_code z ≡ true → z ≡ pos 0
is_zero_code→eq (pos n) h = ground arith
is_zero_code→eq (negsuc n) h = cc

or_raise-Returns :
    {A : Type 0} (e : Escape) (o : Option A) → Returns (λ a. o ≡ some a) (or_raise e o)
or_raise-Returns e none = Returns-err _
or_raise-Returns e (some a) = Returns-ok _ refl

module _ {S : Type 0} (w : Workshop S) where
  compile_modules-All :
      (modules : List Text)
      → Returns
          (λ _. All (λ m. (w.is_file m ≡ true) × (w.compiles m ≡ true)) modules)
          (compile_modules w modules)
  unfolding compile_modules
  compile_modules-All [] = Returns-ok _ tt
  compile_modules-All (m ∷ ms) = Returns-raise_if _ _ _ λ there. Returns-raise_if _ _ _ λ valid.
      Returns-mono _ _ (λ u rest. ((not-false _ there, not-false _ valid), rest))
        (compile_modules-All ms)

  run_tests-Returns :
      Returns
        (λ count.
          (output : Text) × (w.run_tests ≡ some (pos 0, output))
          × (count ≡ test_count w.interpreter (pos 0) (splitlines output)))
        (run_tests w)
  unfolding run_tests
  run_tests-Returns = Returns-bind _ _ (or_raise-Returns _ w.run_tests) λ (code, output) ran.
      Returns-raise_if _ _ _ λ zero_code.
        Returns-ok _
          (output, code_zero code output ran (is_zero_code→eq code (not-false _ zero_code)), refl)
    where
      code_zero :
          (code : ℤ) (output : Text)
          → w.run_tests ≡ some (code, output)
          → code ≡ pos 0
          → w.run_tests ≡ some (pos 0, output)
      code_zero code output ran e = cc

  gate-IsReleasable : Returns (λ _. IsReleasable w) (gate w)
  unfolding gate
  gate-IsReleasable = Returns-raise_if _ _ _ λ there.
      Returns-bind _ _ (or_raise-Returns _ w.load_status) λ status loaded.
        Returns-bind _ _ (compile_modules-All required_modules) λ u modules.
          Returns-bind _ _ run_tests-Returns λ count (output, tested, counted).
            Returns-bind _ _ Returns-self λ minimum wanted. Returns-raise_if _ _ _ λ enough.
              Returns-ok _ (record {
                status_file = not-false _ there;
                status = status;
                loaded = loaded;
                modules = modules;
                output = output;
                tested = tested;
                minimum = minimum;
                wanted = wanted;
                enough =
                    subst (λ z. minimum ≤ℤ z) counted
                      ((le_ℤ_iff minimum count).0 (not-false _ enough));
              })

  passed-unchanged :
      (s : S) (m : Checked (Value × ℤ)) → gate w ≡ m → ((passed w s m).0 ≡ s) ⊎ IsReleasable w
  unfolding passed
  passed-unchanged s (err e) h = inl refl
  passed-unchanged s (ok r) h = inr (gate-IsReleasable.at r h)

  -- The release leaves the host as it was, unless the status file is there and can be read, every
  -- required module is a file that compiles, and the tests passed and are at least as many as the
  -- status asks for (18, where it does not say).
  pub main-gated : (s : S) → ((main w s).0 ≡ s) ⊎ IsReleasable w
  unfolding main
  main-gated s = passed-unchanged s (gate w) refl
