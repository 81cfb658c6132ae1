-- ===== src/Devices/Calls.antt =====
-- level2_service/device_lifecycle.py: the calls of `DeviceLifecycleClient`. A call is given how the
-- transport answers, and returns the requests that it makes and its result.
pub mod Safety
use Prim.Native.String.{◌++◌}
use tonghuashun.Base.{
  ℕ, String, Bool, true, false, not, Option, none, some, List, [], ◌∷◌, ◌==◌, nat_eq, if◌then◌else◌,
  contains,
}
use tonghuashun.Devices.{
  Json, Members, object, allowed_roles, is_operation_id, DeviceLifecycleAction, action_text,
  Readers, Origin, DeviceLifecycleStatus, DeviceLifecycleOperation, DeviceLifecycleClient, Reply,
  value, failed, ◌>>=◌, invalid_response,
}
use tonghuashun.Devices.Replies.{read_action, parse_operation, parse_devices}

pub data Method : Type 0 where
  get post : Method

pub record Request : Type 0 where
  pub method : Method
  pub base_url : Origin
  pub path : String
  pub payload : Option DeviceLifecycleAction
  pub token : String

-- How the transport ends: with a response, a SafeHttpStatusError, or another exception.
pub data Answer : Type 0 where
  response : ℕ → String → Answer
  status_error : ℕ → Answer
  unavailable : Answer

unfoldable pub status_error_code : ℕ → String
status_error_code status =
    if nat_eq status 401
    then "DEVICE_LIFECYCLE_UNAVAILABLE"
    else if nat_eq status 409
    then "DEVICE_ACTION_IN_PROGRESS"
    else "DEVICE_LIFECYCLE_FAILED"

unfoldable pub document_of : Option Json → Reply Members
unfolding invalid_response
document_of (some (object m)) = value m
document_of _ = invalid_response

-- _request after the call of the transport
unfoldable pub received : Readers → ℕ → Answer → Reply Members
unfolding status_error_code document_of
received readers expected (response status body) =
    if nat_eq status expected
    then document_of (readers.loads body)
    else failed (status_error_code status)
received readers expected (status_error status) = failed (status_error_code status)
received readers expected unavailable = failed "DEVICE_LIFECYCLE_UNAVAILABLE"

module _ (readers : Readers) (send : Request → Answer) (client : DeviceLifecycleClient) where
  unfoldable pub request : Method → String → Option DeviceLifecycleAction → Request
  request method path payload = record {
    method = method;
    base_url = client.base_url;
    path = path;
    payload = payload;
    token = client.token;
  }

  unfoldable pub devices : List Request × Reply (List DeviceLifecycleStatus)
  unfolding received request parse_devices
  devices =
      let r = request Method.get "/v1/devices" none in
      (r ∷ [], received readers 200 (send r) >>= parse_devices readers)

  unfoldable pub submit_allowed :
      String → Reply DeviceLifecycleAction → List Request × Reply DeviceLifecycleOperation
  unfolding received request parse_operation
  submit_allowed role (failed code) = ([], failed code)
  submit_allowed role (value action) =
      let r = request Method.post ("/v1/devices/" ++ (role ++ "/actions")) (some action) in
      (r ∷ [], received readers 202 (send r) >>= parse_operation readers)

  -- The action is a text or a DeviceLifecycleAction, which is a text too.
  unfoldable pub submit : String → String → List Request × Reply DeviceLifecycleOperation
  unfolding submit_allowed read_action invalid_response
  submit role action =
      if contains role allowed_roles
      then submit_allowed role (read_action action)
      else ([], invalid_response)

  unfoldable pub operation : String → List Request × Reply DeviceLifecycleOperation
  unfolding received request parse_operation is_operation_id invalid_response
  operation operation_id =
      let r = request Method.get ("/v1/operations/" ++ operation_id) none in
      if is_operation_id operation_id
      then (r ∷ [], received readers 200 (send r) >>= parse_operation readers)
      else ([], invalid_response)
