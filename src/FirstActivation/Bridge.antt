-- ===== src/FirstActivation/Bridge.antt =====
-- tools/first_activation_diagnostic.py and tools/etumax_bridge.py: what the bridge makes of the report
-- of the diagnostic that the repository ships.
use etroute.Prelude.{ℕ, ◌≡◌, refl, ◌≢◌, Bool, List, Result, ok}
use etroute.Python.Text.{Text, codes, text_eq}
use etroute.Python.Value.{ℤ, pos, null, obj, Fields, get}
use etroute.EtumaxBridge.Diagnostic.{Reason, parse_single_json_document, field_of}
use etroute.FirstActivation.Laws.{build_report-Returns}
use etroute.EtumaxBridge.Input.{World, Arguments, completed}
use etroute.EtumaxBridge.Run.{run_bridge}
use etroute.EtumaxBridge.Run.Success.{run_bridge-IsSuccess}
use etroute.FirstActivation.{Guest, report_of, build_report}

module _ {S : Type 0} (g : Guest S) where
  report_of-resources :
      (required optional : List (Text × Bool)) (activation : Text × Bool)
      → field_of (report_of g required optional activation) (codes "resources") ≡ null
  unfolding report_of get text_eq
  report_of-resources required optional activation = refl

  -- A run of the bridge whose subprocess prints a report that the diagnostic made never answers with
  -- exit code 0.
  pub run_bridge-report_fails :
      (w : World) (a : Arguments) (s : S) (report : Fields) (code : ℕ) (envelope : Fields)
      → (build_report g s).1 ≡ ok (report, code)
      → ((command : List Text) (returned : ℤ) (out errors : Text)
          → w.run command ≡ completed returned out errors
          → parse_single_json_document w.runtime out ≡ ok report)
      → run_bridge w a ≢ ok (envelope, 0)
  run_bridge-report_fails w a s report code envelope built printed h =
      let good = run_bridge-IsSuccess w a envelope h in
      let parsed = printed _ (pos 0) good.out good.errors good.ran in
      let missing =
        (build_report-Returns g (λ built. field_of built.0 (codes "resources") ≡ null)
            report_of-resources s).at
          (report, code) built in
      contradiction report good.diagnostic good.report.resources good.parsed parsed missing
        good.report.resources_entry
    where
      contradiction :
          (report diagnostic resources : Fields) {m : Result Reason Fields}
          → m ≡ ok diagnostic
          → m ≡ ok report
          → field_of report (codes "resources") ≡ null
          → field_of diagnostic (codes "resources") ≡ obj resources
          → ⊥
      contradiction report diagnostic resources a b missing entry = cc
