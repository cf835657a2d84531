-- ===== src/RuntimeContract/Builders/Laws.antt =====
-- From a valid request the three builders return a status that answers that request.
use etroute.Prelude.{
  ◌≡◌, refl, ◌≢◌, ◌⊎◌, inl, inr, Bool, true, false, Option, none, some, ok, ◌>>=◌, raise_if, arith,
  Bool-cases,
}
use etroute.Python.Text.{Text}
use etroute.Python.Value.{str, int, pos, Fields, is_one, null, of_optional}
use etroute.Python.Text.Clean.{IsClean}
use etroute.Python.Runtime.{Runtime}
use etroute.RuntimeContract.Enums.{RuntimeStage, RuntimeState, BackendLifecycle, BackendId}
use etroute.RuntimeContract.Checks.{max_diagnostics_json_bytes, max_text, not_failed_stage, raise}
use etroute.Python.Validators.Laws.{Fits, OptionalIsClean}
use etroute.RuntimeContract.Request.{RuntimeRequest}
use etroute.RuntimeContract.Request.Valid.{IsValid as IsValidRequest}
use etroute.RuntimeContract.Status.{
  RuntimeStatus, matches, authoritative_running, is_running, is_running_stage, is_ready_stage,
  normalize_message,
}
use etroute.RuntimeContract.Status.Valid.{
  IsValid, IsConsistent, post_init-args_of, matches_iff, normalize_message_idem,
}
use etroute.RuntimeContract.Builders.{
  or_empty, starting_status, running_status, failed_status, is_failed_stage,
}

-- The status with the request's identity.
abbrev answer :
    Text
    → RuntimeRequest
    → RuntimeState
    → BackendLifecycle
    → RuntimeStage
    → Bool
    → Bool
    → Option Text
    → Option Text
    → Option Text
    → Fields
    → RuntimeStatus
answer now r state lifecycle stage up alive rootfs execution message diagnostics = record {
  generation = r.generation;
  request_id = r.request_id;
  session_id = r.session_id;
  state = state;
  backend = BackendId.et_route;
  backend_lifecycle = lifecycle;
  stage = stage;
  ready = up;
  probe_ok = up;
  alive = alive;
  rootfs_profile = rootfs;
  execution_id = execution;
  message = message;
  diagnostics = diagnostics;
  updated_at = now;
  schema_version = int (pos 1);
}

answer-matches :
    (r : RuntimeRequest) (s : RuntimeStatus)
    → s.generation ≡ r.generation
    → s.request_id ≡ r.request_id
    → s.session_id ≡ r.session_id
    → matches s r ≡ true
answer-matches r s g i k = (matches_iff s r).1 (g, i, k)

-- A status that is not ready, not in the state RUNNING and not in the stage RUNNING.
quiet-IsConsistent :
    (s : RuntimeStatus)
    → is_running s.state ≡ false
    → s.stage ≢ RuntimeStage.running
    → s.ready ≡ false
    → IsConsistent s
unfolding is_running_stage
quiet-IsConsistent s h k e = ground arith

failed-ne-running :
    (stage : RuntimeStage) → is_failed_stage stage ≡ true → stage ≢ RuntimeStage.running
unfolding is_failed_stage
failed-ne-running stage h e = cc

module _ (rt : Runtime) (now : Text) (iso : rt.is_iso now ≡ true) (r : RuntimeRequest)
    (valid : IsValidRequest rt r) (diagnostics : Option Fields)
    (fits : Fits max_diagnostics_json_bytes (or_empty diagnostics)) where
  answer-IsValid :
      (state : RuntimeState) (lifecycle : BackendLifecycle) (stage : RuntimeStage) (up alive : Bool)
      (rootfs execution message : Option Text)
      → OptionalIsClean 128 rootfs
      → OptionalIsClean max_text execution
      → normalize_message rt (of_optional message) ≡ message
      → IsConsistent (
          answer now r state lifecycle stage up alive rootfs execution message
            (or_empty diagnostics))
      → IsValid rt (
          answer now r state lifecycle stage up alive rootfs execution message
            (or_empty diagnostics))
  unfolding is_one
  answer-IsValid state lifecycle stage up alive rootfs execution message hr he hm c = record {
    schema = refl;
    request_id = valid.request_id;
    session_id = valid.session_id;
    diagnostics = fits;
    rootfs_profile = hr;
    execution_id = he;
    message = hm;
    updated_at = iso;
    consistent = c;
  }

  -- For a valid request, a current time in ISO form, diagnostics within their bound and a clean
  -- profile, if any, `starting_status` returns for every stage but RUNNING, with a status that
  -- matches the request and does not say that the runtime is running.
  starting_status-answers :
      (stage : RuntimeStage) (rootfs : Option Text)
      → stage ≢ RuntimeStage.running
      → OptionalIsClean 128 rootfs
      → (s : RuntimeStatus) × (starting_status rt now r stage rootfs diagnostics ≡ ok s)
        × (matches s r ≡ true)
        × (authoritative_running s ≡ false)
        × (s.stage ≡ stage)
  unfolding starting_status normalize_message authoritative_running is_running
  starting_status-answers stage rootfs h c =
      let s =
        answer now r RuntimeState.starting BackendLifecycle.initializing stage false false rootfs
          none none (or_empty diagnostics) in
      (
        s,
        post_init-args_of rt s null
            (answer-IsValid _ _ stage _ _ rootfs none none c tt refl
              (quiet-IsConsistent s refl h refl))
            refl,
        answer-matches r s refl refl refl,
        refl,
        refl,
      )

  -- For a valid request, a current time in ISO form, diagnostics within their bound, a clean
  -- profile and a clean execution identifier, `running_status` returns a status that matches the
  -- request and says that the runtime is authoritatively running this execution.
  running_status-answers :
      (rootfs execution : Text)
      → IsClean 128 rootfs
      → IsClean max_text execution
      → (s : RuntimeStatus) × (running_status rt now r rootfs execution diagnostics ≡ ok s)
        × (matches s r ≡ true)
        × (authoritative_running s ≡ true)
        × (s.execution_id ≡ some execution)
  unfolding running_status normalize_message authoritative_running is_running is_running_stage
      is_ready_stage
  running_status-answers rootfs execution hr he =
      let s =
        answer now r RuntimeState.running BackendLifecycle.active RuntimeStage.running true true
          (some rootfs) (some execution) none (or_empty diagnostics) in
      (
        s,
        post_init-args_of rt s null
            (answer-IsValid _ _ _ _ _ (some rootfs) (some execution) none hr he refl
              (record { running = refl; ready = refl; running_stage = refl }))
            refl,
        answer-matches r s refl refl refl,
        refl,
        refl,
      )

  -- For a valid request, a current time in ISO form, diagnostics within their bound and a clean
  -- profile, if any, `failed_status` raises for a stage that is no failure. For a failed stage it
  -- returns, whatever the message and the flag `alive`, with a status that matches the request,
  -- is not running and is in the state FAILED.
  failed_status-answers :
      (stage : RuntimeStage) (message : Text) (rootfs : Option Text) (alive : Bool)
      → OptionalIsClean 128 rootfs
      → let result = failed_status rt now r stage message rootfs alive diagnostics in
        ((is_failed_stage stage ≡ false) × (result ≡ raise not_failed_stage))
        ⊎ ((is_failed_stage stage ≡ true)
            × (s : RuntimeStatus) × (result ≡ ok s)
            × (matches s r ≡ true)
            × (authoritative_running s ≡ false)
            × (s.state ≡ RuntimeState.failed)
            × (s.alive ≡ alive))
  unfolding failed_status ◌>>=◌ raise_if authoritative_running is_running
  failed_status-answers stage message rootfs alive c = elim (Bool-cases (is_failed_stage stage)) [
    | inr e ↦ inl (e, rw e)
    | inl e ↦
        let s =
          answer now r RuntimeState.failed BackendLifecycle.failed stage false alive rootfs none
            (normalize_message rt (str message)) (or_empty diagnostics) in
        inr (
          e,
          s,
          rw e (
              post_init-args_of rt s (str message)
                (answer-IsValid _ _ stage _ _ rootfs none _ c tt
                  (normalize_message_idem rt (str message))
                  (quiet-IsConsistent s refl (failed-ne-running stage e) refl))
                refl),
          answer-matches r s refl refl refl,
          refl,
          refl,
          refl,
        )
  ]
