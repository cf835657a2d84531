-- ===== src/RuntimeContract/Status/Valid.antt =====
-- What `RuntimeStatus.__post_init__` makes sure of: the fields are clean and the state, the stage
-- and the three flags agree.
use etroute.Prelude.{
  ◌≡◌, refl, ◌⊎◌, ◌↔◌, true, false, not, ◌&&◌, [], ◌∷◌, arith, ok, ◌>>=◌, raise_if, Returns,
  Returns-bind, Returns-raise_if, Returns-ok, Returns-any, not-false,
}
use etroute.Python.Text.{Text, codes, strip, text_eq_refl, text_eq→eq}
use etroute.Python.Text.Clean.{IsClean}
use etroute.Python.Text.Strip.{strip_idem}
use etroute.Python.Value.{Value, str, obj, bool, int, pos, is_one, of_optional, null}
use etroute.Python.Runtime.{Runtime, to_text}
use etroute.RuntimeContract.Enums.{
  RuntimeState, RuntimeStage, state_value, stage_value, backend_value, lifecycle_value, find_state,
  find_stage, find_backend, find_lifecycle, find_state-state_value, find_stage-stage_value,
  find_backend-backend_value, find_lifecycle-lifecycle_value,
}
use etroute.RuntimeContract.Checks.{
  complaints, max_diagnostics_json_bytes, max_text, require_generation, member_of-eq,
}
use etroute.Python.Validators.Laws.{
  clean_text-IsClean, clean_text-eq, optional_clean_text-IsClean, optional_clean_text-eq,
  json_object-Fits, json_object-eq, iso_text-Returns, iso_text-eq, Fits, OptionalIsClean,
}
use etroute.RuntimeContract.Request.{RuntimeRequest}
use etroute.RuntimeContract.Status.{
  StatusArgs, RuntimeStatus, is_running, is_running_stage, is_ready_stage, post_init,
  authoritative_running, normalize_message, or_none, require_boolean, matches,
}

-- The state, the stage and the flags agree.
pub record IsConsistent (s : RuntimeStatus) : Type 0 where
  pub running : (is_running s.state && not (s.ready && s.probe_ok && s.alive)) ≡ false
  pub ready : (s.ready && not (is_ready_stage s.stage)) ≡ false
  pub running_stage : (is_running_stage s.stage && not (is_running s.state)) ≡ false

pub record IsValid (rt : Runtime) (s : RuntimeStatus) : Type 0 where
  pub schema : is_one s.schema_version ≡ true
  pub request_id : IsClean max_text s.request_id
  pub session_id : IsClean max_text s.session_id
  pub diagnostics : Fits max_diagnostics_json_bytes s.diagnostics
  pub rootfs_profile : OptionalIsClean 128 s.rootfs_profile
  pub execution_id : OptionalIsClean max_text s.execution_id
  pub message : normalize_message rt (of_optional s.message) ≡ s.message
  pub updated_at : rt.is_iso s.updated_at ≡ true
  pub consistent : IsConsistent s

normalize-or_none :
    (rt : Runtime) (t : Text)
    → strip t ≡ t
    → normalize_message rt (of_optional (or_none t)) ≡ or_none t
unfolding normalize_message to_text
normalize-or_none rt [] h = refl
normalize-or_none rt (c ∷ t) h = rw h

pub normalize_message_idem :
    (rt : Runtime) (v : Value)
    → normalize_message rt (of_optional (normalize_message rt v)) ≡ normalize_message rt v
unfolding normalize_message
normalize_message_idem rt null = refl
normalize_message_idem rt _ = normalize-or_none rt _ (strip_idem _)

pub post_init-IsValid : (rt : Runtime) (a : StatusArgs) → Returns (IsValid rt) (post_init rt a)
unfolding post_init
post_init-IsValid rt a = Returns-raise_if (IsValid rt) _ _ λ schema.
    Returns-bind _ (IsValid rt) Returns-any λ generation _.
      Returns-bind _ (IsValid rt) (clean_text-IsClean complaints rt _ _ _) λ request_id hr.
        Returns-bind _ (IsValid rt) (clean_text-IsClean complaints rt _ _ _) λ session_id hs.
          Returns-bind _ (IsValid rt) Returns-any λ state _.
            Returns-bind _ (IsValid rt) Returns-any λ backend _.
              Returns-bind _ (IsValid rt) Returns-any λ lifecycle _.
                Returns-bind _ (IsValid rt) Returns-any λ stage _.
                  Returns-bind _ (IsValid rt)
                    (json_object-Fits complaints max_diagnostics_json_bytes _ _)
                    λ diagnostics hd. Returns-bind _ (IsValid rt) Returns-any λ ready _.
                      Returns-bind _ (IsValid rt) Returns-any λ probe_ok _.
                        Returns-bind _ (IsValid rt) Returns-any λ alive _.
                          Returns-bind _ (IsValid rt)
                            (optional_clean_text-IsClean complaints rt _ _ _)
                            λ rootfs hp.
                              Returns-bind _ (IsValid rt)
                                (optional_clean_text-IsClean complaints rt _ _ _)
                                λ execution he. Returns-raise_if (IsValid rt) _ _ λ c1.
                                  Returns-raise_if (IsValid rt) _ _ λ c2.
                                    Returns-raise_if (IsValid rt) _ _ λ c3.
                                      Returns-bind _ (IsValid rt)
                                        (iso_text-Returns complaints rt _ _)
                                        λ updated hu. Returns-ok (IsValid rt) (record {
                                          schema = not-false _ schema;
                                          request_id = hr;
                                          session_id = hs;
                                          diagnostics = hd;
                                          rootfs_profile = hp;
                                          execution_id = he;
                                          message = normalize_message_idem rt a.message;
                                          updated_at = hu;
                                          consistent = record {
                                            running = c1;
                                            ready = c2;
                                            running_stage = c3;
                                          };
                                        })

is_running→eq : (s : RuntimeState) → is_running s ≡ true → s ≡ RuntimeState.running
unfolding is_running
is_running→eq RuntimeState.running h = refl
is_running→eq _ h = cc

consistent-running :
    (s : RuntimeStatus)
    → IsConsistent s
    → (authoritative_running s ≡ true) ↔ (s.state ≡ RuntimeState.running)
unfolding authoritative_running
consistent-running s c = ground arith

consistent-stage :
    (s : RuntimeStatus)
    → IsConsistent s
    → (s.ready ≡ true → (s.stage ≡ RuntimeStage.ready) ⊎ (s.stage ≡ RuntimeStage.running))
      × (s.stage ≡ RuntimeStage.running → authoritative_running s ≡ true)
unfolding authoritative_running is_running_stage is_ready_stage
consistent-stage s c = ground arith

-- A status that was constructed says that the runtime is authoritatively running exactly if its
-- state is RUNNING.
pub authoritative_running_iff :
    (rt : Runtime) (a : StatusArgs) (s : RuntimeStatus)
    → post_init rt a ≡ ok s
    → (authoritative_running s ≡ true) ↔ (s.state ≡ RuntimeState.running)
authoritative_running_iff rt a s made =
    consistent-running s ((post_init-IsValid rt a).at s made).consistent

-- A constructed status that is ready is in the stage READY or RUNNING, and the stage RUNNING
-- goes with the state RUNNING and all three flags.
stage_agrees :
    (rt : Runtime) (a : StatusArgs) (s : RuntimeStatus)
    → post_init rt a ≡ ok s
    → (s.ready ≡ true → (s.stage ≡ RuntimeStage.ready) ⊎ (s.stage ≡ RuntimeStage.running))
      × (s.stage ≡ RuntimeStage.running → authoritative_running s ≡ true)
stage_agrees rt a s made = consistent-stage s ((post_init-IsValid rt a).at s made).consistent

pub matches_iff :
    (s : RuntimeStatus) (r : RuntimeRequest)
    → (matches s r ≡ true) ↔ (
        (s.generation ≡ r.generation)
        × (s.request_id ≡ r.request_id)
        × (s.session_id ≡ r.session_id))
unfolding matches
matches_iff s r = ground (
  arith,
  text_eq→eq s.request_id r.request_id,
  text_eq→eq s.session_id r.session_id,
  text_eq_refl s.request_id,
  text_eq_refl s.session_id,
)

-- The arguments that would make the status again, but for the message.
abbrev pub args_of : RuntimeStatus → Value → StatusArgs
args_of s message = record {
  generation = int (pos s.generation);
  request_id = str s.request_id;
  session_id = str s.session_id;
  state = str (state_value s.state);
  backend = str (backend_value s.backend);
  backend_lifecycle = str (lifecycle_value s.backend_lifecycle);
  stage = str (stage_value s.stage);
  ready = bool s.ready;
  probe_ok = bool s.probe_ok;
  alive = bool s.alive;
  rootfs_profile = of_optional s.rootfs_profile;
  execution_id = of_optional s.execution_id;
  message = message;
  diagnostics = obj s.diagnostics;
  updated_at = str s.updated_at;
  schema_version = s.schema_version;
}

pub post_init-args_of :
    (rt : Runtime) (s : RuntimeStatus) (message : Value)
    → IsValid rt s
    → normalize_message rt message ≡ s.message
    → post_init rt (args_of s message) ≡ ok s
unfolding post_init ◌>>=◌ raise_if require_generation require_boolean
post_init-args_of rt s message v h = rw (
  v.schema,
  clean_text-eq complaints rt (codes "request_id") max_text s.request_id v.request_id,
  clean_text-eq complaints rt (codes "session_id") max_text s.session_id v.session_id,
  member_of-eq find_state (state_value s.state) s.state (find_state-state_value s.state),
  member_of-eq find_backend (backend_value s.backend) s.backend
      (find_backend-backend_value s.backend),
  member_of-eq find_lifecycle (lifecycle_value s.backend_lifecycle) s.backend_lifecycle
      (find_lifecycle-lifecycle_value s.backend_lifecycle),
  member_of-eq find_stage (stage_value s.stage) s.stage (find_stage-stage_value s.stage),
  json_object-eq complaints max_diagnostics_json_bytes (codes "diagnostics") s.diagnostics
      v.diagnostics,
  optional_clean_text-eq complaints rt (codes "rootfs_profile") 128 s.rootfs_profile
      v.rootfs_profile,
  optional_clean_text-eq complaints rt (codes "execution_id") max_text s.execution_id
      v.execution_id,
  v.consistent.running,
  v.consistent.ready,
  v.consistent.running_stage,
  iso_text-eq complaints rt (codes "updated_at") s.updated_at v.updated_at,
  h,
)
