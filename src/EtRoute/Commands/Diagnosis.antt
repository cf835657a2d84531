-- ===== src/EtRoute/Commands/Diagnosis.antt =====
-- etroute.py and tools/first_activation_diagnostic.py: the guest of `diagnose` reports what the command
-- was asked for.
use etroute.Prelude.{◌≡◌, refl, Bool, false, Option, none, some, List, [], Returns, ◌∙◌, ap}
use etroute.Python.Text.{Text, codes, text_eq, text_eq_refl}
use etroute.Python.Value.{str, get, truthy, or_else}
use etroute.Python.Dict.{Dict, find, set}
use etroute.Python.Dict.Laws.{find-set}
use etroute.Python.PurePath.{parse, show}
use etroute.FirstActivation.{Guest, report_of, build_report, marker_path}
use etroute.FirstActivation.Laws.{build_report-Returns, part}
use etroute.EtRoute.Commands.{Console, DiagnoseArguments, diagnose_env, set_if}

find_self : (key value : Text) (d : Dict Text) → find key (set key value d) ≡ some value
find_self key value d = find-set key key value d ∙ rw (text_eq_refl key) refl

find_other :
    (key k value : Text) (d : Dict Text)
    → text_eq key k ≡ false
    → find k (set key value d) ≡ find k d
find_other key k value d h = find-set key k value d ∙ rw h refl

find_if_other :
    (key k : Text) (o : Option Text) (d : Dict Text)
    → text_eq key k ≡ false
    → find k (set_if key o d) ≡ find k d
find_if_other key k none d h = refl
find_if_other key k (some value) d h = find_other key k value d h

abbrev session_key : Text
session_key = codes "ETROUTE_SESSION_ID"

abbrev name_key : Text
name_key = codes "ETROUTE_ENVIRONMENT_NAME"

abbrev caller_key : Text
caller_key = codes "ETROUTE_CALLER"

abbrev kernel_key : Text
kernel_key = codes "ETROUTE_EXPECTED_KERNEL_RELEASE"

abbrev marker_key : Text
marker_key = codes "ETROUTE_ACTIVATION_MARKER"

abbrev default_marker : Text
default_marker = codes "/root/.etroute_activation_marker"

module _ {S : Type 0} (g : Guest S) (required optional : List (Text × Bool))
    (activation : Text × Bool) where
  report_of-environment :
      {name : Text}
      → find name_key g.environ ≡ some name
      → get (report_of g required optional activation) (codes "environment") ≡ some (str name)
  unfolding report_of get text_eq
  report_of-environment h = ap (λ o. some (str (or_else o (codes "unknown")))) h

  report_of-session :
      {id : Text}
      → find session_key g.environ ≡ some id
      → get (report_of g required optional activation) (codes "session_id") ≡ some (str id)
  unfolding report_of get text_eq
  report_of-session h = ap (λ o. some (str (or_else o []))) h

  report_of-marker :
      find marker_key g.environ ≡ some default_marker
      → get (part (report_of g required optional activation) (codes "activation")) (codes "marker")
        ≡ some (str default_marker)
  unfolding report_of get text_eq marker_path show parse
  report_of-marker h = ap (λ o. some (str (show (parse (or_else o default_marker))))) h

module _ (c : Console) (a : DiagnoseArguments) where
  abbrev session : Text
  session = or_else (truthy a.session_id) c.new_session_id

  abbrev with_marker : Dict Text
  with_marker =
      set marker_key (codes "/root/.etroute_activation_marker")
        (set (codes "HOME") (codes "/root") c.environ)

  abbrev with_kernel : Dict Text
  with_kernel = set_if kernel_key (truthy a.kernel_release) with_marker

  abbrev with_caller : Dict Text
  with_caller = set_if caller_key (truthy (some a.caller)) with_kernel

  abbrev with_name : Dict Text
  with_name = set name_key a.name with_caller

  find_session : find session_key (diagnose_env c a) ≡ some session
  unfolding diagnose_env
  find_session = find_self session_key session with_name

  find_name : find name_key (diagnose_env c a) ≡ some a.name
  unfolding diagnose_env text_eq
  find_name =
      find_other session_key name_key session with_name refl ∙ find_self name_key a.name with_caller

  find_marker : find marker_key (diagnose_env c a) ≡ some (codes "/root/.etroute_activation_marker")
  unfolding diagnose_env text_eq
  find_marker =
      find_other session_key marker_key session with_name refl
      ∙ find_other name_key marker_key a.name with_caller refl
      ∙ find_if_other caller_key marker_key (truthy (some a.caller)) with_kernel refl
      ∙ find_if_other kernel_key marker_key (truthy a.kernel_release) with_marker refl
      ∙ find_self marker_key (codes "/root/.etroute_activation_marker")
          (set (codes "HOME") (codes "/root") c.environ)

  -- A guest whose environment is the one that `diagnose` sets reports the name of the environment and the
  -- session of the command, or the fresh one, and keeps its marker in /root.
  pub diagnose_env-report :
      {S : Type 0} (g : Guest S)
      → g.environ ≡ diagnose_env c a
      → (s : S)
      → Returns
          (λ built.
            (get built.0 (codes "environment") ≡ some (str a.name))
            × (get built.0 (codes "session_id") ≡ some (str session))
            × (get (part built.0 (codes "activation")) (codes "marker")
                ≡ some (str (codes "/root/.etroute_activation_marker"))))
          (build_report g s).1
  diagnose_env-report g e s = build_report-Returns g _ reports s
    where
      reports :
          (required optional : List (Text × Bool)) (activation : Text × Bool)
          → (get (report_of g required optional activation) (codes "environment")
              ≡ some (str a.name))
            × (get (report_of g required optional activation) (codes "session_id")
                ≡ some (str session))
            × (get
                  (part (report_of g required optional activation) (codes "activation"))
                  (codes "marker")
                ≡ some (str (codes "/root/.etroute_activation_marker")))
      reports required optional activation = (
        report_of-environment g required optional activation (ap (find name_key) e ∙ find_name),
        report_of-session g required optional activation (ap (find session_key) e ∙ find_session),
        report_of-marker g required optional activation (ap (find marker_key) e ∙ find_marker),
      )
