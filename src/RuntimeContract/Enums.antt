-- ===== src/RuntimeContract/Enums.antt =====
-- The enumerations of runtime_contract.py, with their wire values.
use etroute.Prelude.{◌≡◌, refl, Option, some, List, [], ◌∷◌}
use etroute.Python.Text.{Text, codes}
use etroute.Python.Value.{find_member}

pub data RuntimeCommand : Type 0 where
  start stop probe diagnostics : RuntimeCommand

pub data RuntimeState : Type 0 where
  dormant starting running stopping failed : RuntimeState

pub data BackendLifecycle : Type 0 where
  not_initialized initializing ready active resident_inactive failed stopped : BackendLifecycle

pub data RuntimeStage : Type 0 where
  received rootfs_selecting rootfs_verifying rootfs_verified engine_starting rootfs_entered
        probing :
      RuntimeStage
  ready running stopping stopped : RuntimeStage
  failed_rootfs_select failed_rootfs_verify failed_engine_start failed_rootfs_enter : RuntimeStage
  failed_probe failed_handshake failed_execution : RuntimeStage

pub data BackendId : Type 0 where
  chaquopy native_android et_route : BackendId

unfoldable pub command_value : RuntimeCommand → Text
command_value start = codes "start"
command_value stop = codes "stop"
command_value probe = codes "probe"
command_value diagnostics = codes "diagnostics"

unfoldable pub state_value : RuntimeState → Text
state_value dormant = codes "dormant"
state_value starting = codes "starting"
state_value running = codes "running"
state_value stopping = codes "stopping"
state_value failed = codes "failed"

unfoldable pub lifecycle_value : BackendLifecycle → Text
lifecycle_value not_initialized = codes "not_initialized"
lifecycle_value initializing = codes "initializing"
lifecycle_value ready = codes "ready"
lifecycle_value active = codes "active"
lifecycle_value resident_inactive = codes "resident_inactive"
lifecycle_value failed = codes "failed"
lifecycle_value stopped = codes "stopped"

unfoldable pub stage_value : RuntimeStage → Text
stage_value received = codes "received"
stage_value rootfs_selecting = codes "rootfs_selecting"
stage_value rootfs_verifying = codes "rootfs_verifying"
stage_value rootfs_verified = codes "rootfs_verified"
stage_value engine_starting = codes "engine_starting"
stage_value rootfs_entered = codes "rootfs_entered"
stage_value probing = codes "probing"
stage_value ready = codes "ready"
stage_value running = codes "running"
stage_value stopping = codes "stopping"
stage_value stopped = codes "stopped"
stage_value failed_rootfs_select = codes "failed_rootfs_select"
stage_value failed_rootfs_verify = codes "failed_rootfs_verify"
stage_value failed_engine_start = codes "failed_engine_start"
stage_value failed_rootfs_enter = codes "failed_rootfs_enter"
stage_value failed_probe = codes "failed_probe"
stage_value failed_handshake = codes "failed_handshake"
stage_value failed_execution = codes "failed_execution"

unfoldable pub backend_value : BackendId → Text
backend_value chaquopy = codes "chaquopy"
backend_value native_android = codes "native_android"
backend_value et_route = codes "etroute"

-- `RuntimeCommand(text)` and so on: a member is looked up by its value.
unfoldable pub find_command : Text → Option RuntimeCommand
unfolding find_member command_value
find_command = find_member command_value (start ∷ stop ∷ probe ∷ diagnostics ∷ [])

unfoldable pub find_state : Text → Option RuntimeState
unfolding find_member state_value
find_state = find_member state_value (dormant ∷ starting ∷ running ∷ stopping ∷ failed ∷ [])

unfoldable pub find_lifecycle : Text → Option BackendLifecycle
unfolding find_member lifecycle_value
find_lifecycle =
    find_member lifecycle_value
      (not_initialized ∷ initializing ∷ ready ∷ active ∷ resident_inactive ∷ failed ∷ stopped ∷ [])

abbrev stages : List RuntimeStage
stages =
    received ∷ rootfs_selecting ∷ rootfs_verifying ∷ rootfs_verified ∷ engine_starting
    ∷ rootfs_entered ∷ probing ∷ ready ∷ running ∷ stopping ∷ stopped ∷ failed_rootfs_select
    ∷ failed_rootfs_verify ∷ failed_engine_start ∷ failed_rootfs_enter ∷ failed_probe
    ∷ failed_handshake ∷ failed_execution ∷ []

unfoldable pub find_stage : Text → Option RuntimeStage
unfolding find_member stage_value
find_stage = find_member stage_value stages

unfoldable pub find_backend : Text → Option BackendId
unfolding find_member backend_value
find_backend = find_member backend_value (chaquopy ∷ native_android ∷ et_route ∷ [])

pub find_command-command_value : (c : RuntimeCommand) → find_command (command_value c) ≡ some c
unfolding find_command
find_command-command_value start = refl
find_command-command_value _ = refl

pub find_state-state_value : (s : RuntimeState) → find_state (state_value s) ≡ some s
unfolding find_state
find_state-state_value dormant = refl
find_state-state_value _ = refl

pub find_lifecycle-lifecycle_value :
    (l : BackendLifecycle) → find_lifecycle (lifecycle_value l) ≡ some l
unfolding find_lifecycle
find_lifecycle-lifecycle_value not_initialized = refl
find_lifecycle-lifecycle_value _ = refl

pub find_stage-stage_value : (s : RuntimeStage) → find_stage (stage_value s) ≡ some s
unfolding find_stage
find_stage-stage_value received = refl
find_stage-stage_value _ = refl

pub find_backend-backend_value : (b : BackendId) → find_backend (backend_value b) ≡ some b
unfolding find_backend
find_backend-backend_value chaquopy = refl
find_backend-backend_value _ = refl
