-- ===== src/RuntimeContract/Builders.antt =====
-- `starting_status`, `running_status` and `failed_status` of runtime_contract.py. `now` is what the
-- default factory of `updated_at` draws.
pub mod Laws
use etroute.Prelude.{ℕ, Bool, true, false, not, Option, none, some, ◌>>◌, raise_if}
use etroute.Python.Text.{Text, codes, starts_with}
use etroute.Python.Value.{Value, str, obj, null, int, pos, bool, Fields, end, of_optional, own}
use etroute.Python.Runtime.{Runtime}
use etroute.RuntimeContract.Enums.{
  RuntimeStage, RuntimeState, BackendLifecycle, BackendId, stage_value, state_value,
  lifecycle_value, backend_value,
}
use etroute.RuntimeContract.Checks.{Checked, not_failed_stage}
use etroute.RuntimeContract.Request.{RuntimeRequest}
use etroute.RuntimeContract.Status.{StatusArgs, RuntimeStatus, post_init}

-- `diagnostics or {}`
abbrev pub or_empty : Option Fields → Fields
or_empty none = end
or_empty (some d) = d

unfoldable pub starting_status :
    Runtime
    → Text
    → RuntimeRequest
    → RuntimeStage
    → Option Text
    → Option Fields
    → Checked RuntimeStatus
starting_status rt now r stage rootfs_profile diagnostics = post_init rt (record {
  generation = int (pos r.generation);
  request_id = str r.request_id;
  session_id = str r.session_id;
  state = str (state_value RuntimeState.starting);
  backend = str (backend_value BackendId.et_route);
  backend_lifecycle = str (lifecycle_value BackendLifecycle.initializing);
  stage = str (stage_value stage);
  ready = bool false;
  probe_ok = bool false;
  alive = bool false;
  rootfs_profile = of_optional rootfs_profile;
  execution_id = null;
  message = null;
  diagnostics = obj (or_empty diagnostics);
  updated_at = str now;
  schema_version = int (pos 1);
})

unfoldable pub running_status :
    Runtime → Text → RuntimeRequest → Text → Text → Option Fields → Checked RuntimeStatus
running_status rt now r rootfs_profile execution_id diagnostics = post_init rt (record {
  generation = int (pos r.generation);
  request_id = str r.request_id;
  session_id = str r.session_id;
  state = str (state_value RuntimeState.running);
  backend = str (backend_value BackendId.et_route);
  backend_lifecycle = str (lifecycle_value BackendLifecycle.active);
  stage = str (stage_value RuntimeStage.running);
  ready = bool true;
  probe_ok = bool true;
  alive = bool true;
  rootfs_profile = str rootfs_profile;
  execution_id = str execution_id;
  message = null;
  diagnostics = obj (or_empty diagnostics);
  updated_at = str now;
  schema_version = int (pos 1);
})

-- `stage.value.startswith("failed_")`
unfoldable pub is_failed_stage : RuntimeStage → Bool
unfolding starts_with stage_value
is_failed_stage stage = starts_with (stage_value stage) (codes "failed_")

unfoldable pub failed_status :
    Runtime
    → Text
    → RuntimeRequest
    → RuntimeStage
    → Text
    → Option Text
    → Bool
    → Option Fields
    → Checked RuntimeStatus
failed_status rt now r stage message rootfs_profile alive diagnostics = do
  raise_if (not (is_failed_stage stage)) (own not_failed_stage)
  post_init rt (record {
    generation = int (pos r.generation);
    request_id = str r.request_id;
    session_id = str r.session_id;
    state = str (state_value RuntimeState.failed);
    backend = str (backend_value BackendId.et_route);
    backend_lifecycle = str (lifecycle_value BackendLifecycle.failed);
    stage = str (stage_value stage);
    ready = bool false;
    probe_ok = bool false;
    alive = bool alive;
    rootfs_profile = of_optional rootfs_profile;
    execution_id = null;
    message = str message;
    diagnostics = obj (or_empty diagnostics);
    updated_at = str now;
    schema_version = int (pos 1);
  })
