-- ===== src/Tests/Contract.antt =====
-- runtime_contract.py at concrete requests and statuses.
use etroute.Prelude.{◌≡◌, refl, ◌≢◌, ◌↔◌, true, none, some, [], ◌∷◌, ok, ◌>>=◌, raise_if}
use etroute.Python.Text.{codes, strip, lower, is_space, starts_with}
use etroute.Python.Text.Clean.{IsClean}
use etroute.Python.Value.{bool, int, str, obj, pos, nil, cons, end, field, is_one}
use etroute.Python.Json.{json_size}
use etroute.Python.Runtime.{to_text}
use etroute.Python.Validators.{clean_text, optional_clean_text, json_object, iso_text}
use etroute.Python.Validators.Laws.{Fits}
use etroute.RuntimeContract.Enums.{
  RuntimeCommand, RuntimeState, RuntimeStage, BackendId, BackendLifecycle, find_command,
  find_backend, find_state, find_stage, find_lifecycle,
}
use etroute.RuntimeContract.Checks.{member_of, require_generation, max_diagnostics_json_bytes}
use etroute.RuntimeContract.Request
use etroute.RuntimeContract.Request.{RequestArgs, RuntimeRequest, Defaults}
use etroute.RuntimeContract.Request.Valid.{
  IsValid as IsValidRequest, AsciiItems, post_init-IsValid as request-IsValid,
}
use etroute.RuntimeContract.Request.RoundTrip.{request_round_trip}
use etroute.RuntimeContract.Status
use etroute.RuntimeContract.Status.{
  StatusArgs, RuntimeStatus, authoritative_running, matches, require_boolean, normalize_message,
  is_running, is_ready_stage, is_running_stage,
}
use etroute.RuntimeContract.Status.Valid.{authoritative_running_iff}
use etroute.RuntimeContract.Status.RoundTrip.{status_round_trip}
use etroute.Tests.Host.{plain}

abbrev fresh : Defaults
fresh = record {
  request_id = codes "runreq-1";
  session_id = codes "session-1";
  now = codes "2026-01-01T00:00:00+00:00";
}

abbrev args : RequestArgs
args = record {
  command = str (codes "start");
  generation = int (pos 7);
  request_id = str (codes " req ");
  session_id = str (codes "ses");
  preferred_backend = str (codes "etroute");
  rootfs_profile = str (codes "debian");
  requirements = cons (str (codes " GPU ")) nil;
  options = obj (field (codes "a") (int (pos 1)) end);
  created_at = str (codes "2026-01-01");
  schema_version = int (pos 1);
}

abbrev request : RuntimeRequest
request = record {
  command = RuntimeCommand.start;
  generation = 7;
  request_id = codes "req";
  session_id = codes "ses";
  preferred_backend = BackendId.et_route;
  rootfs_profile = some (codes "debian");
  requirements = codes "gpu" ∷ [];
  options = field (codes "a") (int (pos 1)) end;
  created_at = codes "2026-01-01";
  schema_version = int (pos 1);
}

request_made : Request.post_init plain args ≡ ok request
unfolding Request.post_init Request.normalize_requirements ◌>>=◌ raise_if clean_text
    optional_clean_text json_object iso_text member_of require_generation find_command find_backend
    is_one strip is_space lower to_text starts_with json_size
request_made = refl

gpu-AsciiItems : AsciiItems (cons (str (codes " GPU ")) nil)
gpu-AsciiItems = ((refl, (refl, (refl, (refl, (refl, tt))))), tt)

request_round_trip_example :
    Request.from_dict plain fresh (obj (Request.to_dict request)) ≡ ok request
request_round_trip_example = request_round_trip plain fresh args request request_made gpu-AsciiItems

-- The dict of the request, which `from_dict` reads.
request_read : Request.from_dict plain fresh (obj (Request.to_dict request)) ≡ ok request
request_read = request_round_trip plain fresh args request request_made gpu-AsciiItems

abbrev status_args : StatusArgs
status_args = record {
  generation = int (pos 7);
  request_id = str (codes "req");
  session_id = str (codes "ses");
  state = str (codes "running");
  backend = str (codes "etroute");
  backend_lifecycle = str (codes "active");
  stage = str (codes "running");
  ready = bool true;
  probe_ok = bool true;
  alive = bool true;
  rootfs_profile = str (codes "debian");
  execution_id = str (codes "exec");
  message = str (codes "  ");
  diagnostics = obj end;
  updated_at = str (codes "2026-01-01");
  schema_version = int (pos 1);
}

abbrev status : RuntimeStatus
status = record {
  generation = 7;
  request_id = codes "req";
  session_id = codes "ses";
  state = RuntimeState.running;
  backend = BackendId.et_route;
  backend_lifecycle = BackendLifecycle.active;
  stage = RuntimeStage.running;
  ready = true;
  probe_ok = true;
  alive = true;
  rootfs_profile = some (codes "debian");
  execution_id = some (codes "exec");
  message = none;
  diagnostics = end;
  updated_at = codes "2026-01-01";
  schema_version = int (pos 1);
}

status_made : Status.post_init plain status_args ≡ ok status
unfolding Status.post_init normalize_message require_boolean is_running is_ready_stage
    is_running_stage find_state find_stage find_lifecycle ◌>>=◌ raise_if clean_text
    optional_clean_text json_object iso_text member_of require_generation find_backend is_one strip
    is_space to_text starts_with json_size
status_made = refl

status_round_trip_example :
    Status.from_dict plain fresh.now (obj (Status.to_dict status)) ≡ ok status
status_round_trip_example = status_round_trip plain fresh.now status_args status status_made

status_read : Status.from_dict plain fresh.now (obj (Status.to_dict status)) ≡ ok status
status_read = status_round_trip plain fresh.now status_args status status_made

authoritative_running_iff_example :
    (authoritative_running status ≡ true) ↔ (status.state ≡ RuntimeState.running)
authoritative_running_iff_example = authoritative_running_iff plain status_args status status_made

request-valid : IsValidRequest plain request
request-valid = (request-IsValid plain args).at request request_made

no_diagnostics : Fits max_diagnostics_json_bytes end
unfolding json_size
no_diagnostics = record { size = 2; encodes = refl; fits = refl }

profile-clean : IsClean 128 (codes "debian")
unfolding strip is_space
profile-clean = record { stripped = refl; not_empty = refl; bounded = refl }

execution-clean : IsClean 256 (codes "exec")
unfolding strip is_space
execution-clean = record { stripped = refl; not_empty = refl; bounded = refl }

now-iso : plain.is_iso fresh.now ≡ true
unfolding starts_with
now-iso = refl

probing-ne-running : RuntimeStage.probing ≢ RuntimeStage.running
probing-ne-running e = cc
