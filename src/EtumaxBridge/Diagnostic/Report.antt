-- ===== src/EtumaxBridge/Diagnostic/Report.antt =====
-- tools/etumax_bridge.py: the reports that `validate_diagnostic` accepts.
use etroute.Prelude.{
  ◌≡◌, refl, ◌≢◌, true, false, Returns, Returns-bind, Returns-raise_if, Returns-ok, Returns-err,
  Returns-any, not-false, arith, ap,
}
use etroute.Python.Text.{Text, codes, text_eq→eq}
use etroute.Python.Value.{Value, str, bool, obj, Fields, is_one, is_text, is_true, is_false}
use etroute.EtumaxBridge.Diagnostic.{
  Reason, validate_diagnostic, require_mapping, field_of, only_object,
}

-- What the report says: binds visible, no wrong kernel, and the caller, the environment and the
-- session of this run.
pub record IsReport (d : Fields) (environment session_id : Text) : Type 0 where
  pub schema : is_one (field_of d (codes "schema_version")) ≡ true
  pub resources : Fields
  pub resources_entry : field_of d (codes "resources") ≡ obj resources
  pub binds : field_of resources (codes "required_binds_visible") ≡ bool true
  pub device : Fields
  pub device_entry : field_of d (codes "device") ≡ obj device
  pub kernel : field_of device (codes "kernel_release_matches") ≢ bool false
  pub integration : Fields
  pub integration_entry : field_of d (codes "integration") ≡ obj integration
  pub caller : field_of integration (codes "declared_caller") ≡ str (codes "etumax")
  pub environment_name : field_of integration (codes "environment_name") ≡ str environment
  pub session : field_of integration (codes "session_id") ≡ str session_id

is_text→eq : (v : Value) (t : Text) → is_text v t ≡ true → v ≡ str t
unfolding is_text
is_text→eq (str s) t h = ap str (text_eq→eq s t h)
is_text→eq _ t h = cc

is_true→eq : (v : Value) → is_true v ≡ true → v ≡ bool true
unfolding is_true
is_true→eq (bool b) h = cc
is_true→eq _ h = cc

is_false→ne : (v : Value) → is_false v ≡ false → v ≢ bool false
unfolding is_false
is_false→ne v h e = ground (arith, h, e)

only_object-Returns :
    (reason : Reason) (v : Value) → Returns (λ d. v ≡ obj d) (only_object reason v)
only_object-Returns reason (obj d) = Returns-ok _ refl
only_object-Returns reason _ = Returns-err _

require_mapping-Returns :
    (d : Fields) (key : Text) → Returns (λ e. field_of d key ≡ obj e) (require_mapping d key)
unfolding require_mapping
require_mapping-Returns d key = only_object-Returns _ (field_of d key)

pub validate_diagnostic-IsReport :
    (d : Fields) (environment session_id : Text)
    → Returns
        (λ _. IsReport d environment session_id)
        (validate_diagnostic d environment session_id)
unfolding validate_diagnostic
validate_diagnostic-IsReport d environment session_id =
    let P = λ (u : Unit {0}). IsReport d environment session_id in
    Returns-raise_if P _ _ λ schema. Returns-bind _ P (require_mapping-Returns d _) λ resources hr.
      Returns-bind _ P (require_mapping-Returns d _) λ device hd.
        Returns-bind _ P Returns-any λ activation _.
          Returns-bind _ P (require_mapping-Returns d _) λ integration hi.
            Returns-bind _ P Returns-any λ marker _. Returns-raise_if P _ _ λ binds.
              Returns-raise_if P _ _ λ kernel. Returns-raise_if P _ _ λ caller.
                Returns-raise_if P _ _ λ named. Returns-raise_if P _ _ λ session.
                  Returns-ok P (record {
                    schema = not-false _ schema;
                    resources = resources;
                    resources_entry = hr;
                    binds = is_true→eq _ (not-false _ binds);
                    device = device;
                    device_entry = hd;
                    kernel = is_false→ne _ kernel;
                    integration = integration;
                    integration_entry = hi;
                    caller = is_text→eq _ _ (not-false _ caller);
                    environment_name = is_text→eq _ _ (not-false _ named);
                    session = is_text→eq _ _ (not-false _ session);
                  })
