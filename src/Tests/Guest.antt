-- ===== src/Tests/Guest.antt =====
-- tools/first_activation_diagnostic.py in a concrete guest, whose files are the marker alone, and the
-- bridge on its report.
use etroute.Prelude.{
  ◌≡◌, refl, ◌≢◌, Bool, true, false, not, ◌||◌, Option, none, some, List, [], ◌∷◌, ok, ◌>>=◌,
  raise_if, subst, length,
}
use etroute.Python.Text.{Text, codes, starts_with, strip, strip_left, is_space, text_eq}
use etroute.Python.Value.{ℤ, pos, obj, Fields, end}
use etroute.Python.Dict.{find}
use etroute.Python.PurePath.{show, parse}
use etroute.EtumaxBridge.Diagnostic.{parse_single_json_document}
use etroute.EtumaxBridge.Input.{World, completed}
use etroute.EtumaxBridge.Run.{run_bridge}
use etroute.FirstActivation.{
  Guest, build_report, report_for, see_binds, visible_all, visible, marker_state, marker_path,
  report_of, exit_code, kernel_matches,
}
use etroute.FirstActivation.Laws.{IsLawful, IsWritable, marker_state-persistent}
use etroute.FirstActivation.Bridge.{run_bridge-report_fails}
use etroute.Tests.Host.{host}
use etroute.Tests.Bridge.{world, args}

-- The state is whether the marker is there; everything outside `/root` is.
abbrev pub guest : Guest Bool
guest = record {
  environ = [];
  release = codes "6.1";
  python_version = codes "3.12";
  exists = λ s path. some (s || not (starts_with path (codes "/root")));
  readable = λ s path. true;
  make_parent = λ s path. some s;
  write_text = λ s path text. some true;
}

guest-IsLawful : IsLawful guest
guest-IsLawful = record { written-exists = λ s after path text h. written-true after _ h }
  where
    written-true :
        (after b : Bool)
        → ◌≡◌ {A = Option Bool} (some true) (some after)
        → some (after || b) ≡ some true
    written-true true b h = refl
    written-true false b h = cc

guest-IsWritable : (path : Text) → IsWritable guest path
guest-IsWritable path = record {
  asks = λ s. (_, refl);
  makes = λ s. (_, refl);
  writes = λ s. (_, refl);
}

abbrev printed : Fields
printed =
    report_of guest
      ((codes "/dev", true)
        ∷ (codes "/proc", true)
        ∷ (codes "/sys", true)
        ∷ (codes "/tmp", true)
        ∷ [])
      ((codes "/run/shm", true) ∷ []) (codes "first_activation", true)

built : (build_report guest false).1 ≡ ok (printed, 0)
unfolding build_report report_for see_binds visible_all visible marker_state marker_path exit_code
    kernel_matches find show parse starts_with text_eq ◌>>=◌
built = refl

marker_state-persistent_example :
    (marker_state guest (marker_state guest false (codes "/root/m")).0 (codes "/root/m")).1
    ≡ some (codes "persistent", true)
marker_state-persistent_example =
    marker_state-persistent guest false (codes "/root/m") guest-IsLawful
      (guest-IsWritable (codes "/root/m"))

-- The subprocess of this world prints the report.
abbrev diagnosed : World
diagnosed = record world {
  runtime = host (λ t. some (obj printed)) (λ t. some (obj printed, length t));
}

parsed : parse_single_json_document diagnosed.runtime (codes "{}") ≡ ok printed
unfolding parse_single_json_document strip strip_left is_space ◌>>=◌ raise_if
parsed = refl

read_back :
    (command : List Text) (returned : ℤ) (out errors : Text)
    → diagnosed.run command ≡ completed returned out errors
    → parse_single_json_document diagnosed.runtime out ≡ ok printed
read_back command returned out errors h =
    subst (λ t. parse_single_json_document diagnosed.runtime t ≡ ok printed) (out_eq h) parsed
  where
    out_eq : completed (pos 0) (codes "{}") [] ≡ completed returned out errors → codes "{}" ≡ out
    out_eq h = cc

run_bridge-report_fails_example : run_bridge diagnosed (args none) ≢ ok (end, 0)
run_bridge-report_fails_example =
    run_bridge-report_fails guest diagnosed (args none) false printed 0 end built read_back
