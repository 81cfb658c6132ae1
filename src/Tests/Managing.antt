-- ===== src/Tests/Managing.antt =====
-- `DeviceLifecycleClient` of level2_service/device_lifecycle.py at concrete inputs.
use tonghuashun.Base.{
  ◌≡◌, refl, String, true, some, none, [], ◌∷◌, All, ◌==◌, if◌then◌else◌, Option,
}
use tonghuashun.Devices.{
  Json, null, text, array, object, item, end_items, member, end_members, Members, Readers,
  DeviceLifecycleState, DeviceLifecycleClient, value, failed, new_client,
}
use tonghuashun.Devices.Replies.Safe.{IsSafeStatus, IsSafeOperation}
use tonghuashun.Devices.Calls.{Request, Answer, response, status_error, devices, submit, operation}
use tonghuashun.Devices.Calls.Safety.{IsSafeCall, new_client-IsSafeCall}

abbrev device : Members
device = member "role" (text "core_metrics") (
    member "state" (text "RUNNING")
      (member "error_code" null (member "updated_at" (text "2026-01-02T03:04:05Z") end_members)))

-- The documents that are read here.
abbrev documents : String → Option Json
documents body =
    if body == "devices"
    then some (object (member "devices" (array (item (object device) end_items)) end_members))
    else none

abbrev readers : Readers
readers = record {
  loads = documents;
  urlsplit = λ _. some (record {
    scheme = "http";
    hostname = some "localhost";
    username = none;
    password = none;
    port = some 8765;
    path = "";
    query = "";
    fragment = "";
  });
  fromisoformat = λ s.
      if s == "2026-01-02T03:04:05+00:00"
      then some (record { instant = 7; tzinfo = true })
      else none;
}

abbrev client : DeviceLifecycleClient
client = record { base_url = record { host = "localhost"; port = some 8765 }; token = "secret" }

abbrev send : Request → Answer
send r = if r.path == "/v1/devices" then response 200 "devices" else status_error 409

new_client-IsSafeCall_example :
    IsSafeCall (All IsSafeStatus) (devices readers send client)
    × IsSafeCall IsSafeOperation (submit readers send client "core_metrics" "shutdown")
    × IsSafeCall IsSafeOperation (operation readers send client "op-1")
unfolding new_client
new_client-IsSafeCall_example =
    new_client-IsSafeCall readers send "http://localhost:8765" "secret" "core_metrics" "shutdown"
      "op-1" client refl

-- The statuses of the document, and a refused action.
devices_lem :
    (devices readers send client).1
    ≡ value (
        record {
          role = "core_metrics";
          state = DeviceLifecycleState.running;
          operation_id = none;
          error_code = none;
          updated_at = some (record { instant = 7; tzinfo = true });
        }
        ∷ [])
unfolding devices
devices_lem = refl

submit-failed :
    (submit readers send client "core_metrics" "shutdown").1 ≡ failed "DEVICE_ACTION_IN_PROGRESS"
unfolding submit
submit-failed = refl

submit-refused :
    submit readers send client "other" "shutdown" ≡ ([], failed "DEVICE_LIFECYCLE_FAILED")
unfolding submit
submit-refused = refl
