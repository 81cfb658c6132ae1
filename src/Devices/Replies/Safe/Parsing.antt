-- ===== src/Devices/Replies/Safe/Parsing.antt =====
-- level2_service/device_lifecycle.py: the parsers of `DeviceLifecycleClient` give only what is allowed.
use tonghuashun.Base.{String, Option, none, some, List, [], ◌∷◌, All, ◌==◌}
use tonghuashun.Devices.{
  Json, Items, Members, null, boolean, number, text, array, object, item, end_items,
  is_operation_id, Readers, DeviceLifecycleAction, DeviceLifecycleState, Moment, value,
  invalid_response, action_text, state_text,
}
use tonghuashun.Devices.Replies.{
  field, parse_role, parse_action, parse_state, read_action, read_text, passing, read_datetime,
  find_action, find_state, replace_z, actions, states, is_role, is_safe_code, optional_operation_id,
  optional_error_code, required_operation_id, with_tzinfo, required_moment, optional_datetime,
  status_of, parse_status, operation_of, parse_operation, parse_statuses, device_list,
  parse_devices,
}
use tonghuashun.Devices.Replies.Safe.{
  Holds, Perhaps, Passing, IsAware, IsSafeStatus, IsSafeOperation, Any, bind-Holds, invalid-Holds,
  read_text-Holds, if-Holds, optional-Holds, passing-Holds,
}

find_action-Holds : (s : String) (xs : List DeviceLifecycleAction) → Holds Any (find_action s xs)
unfolding find_action
find_action-Holds s [] = invalid-Holds (λ (a : DeviceLifecycleAction). Unit)
find_action-Holds s (a ∷ xs) =
    if-Holds Any (action_text a == s) (value a) (find_action s xs) (λ _. tt)
      (find_action-Holds s xs)

find_state-Holds : (s : String) (xs : List DeviceLifecycleState) → Holds Any (find_state s xs)
unfolding find_state
find_state-Holds s [] = invalid-Holds (λ (a : DeviceLifecycleState). Unit)
find_state-Holds s (a ∷ xs) =
    if-Holds Any (state_text a == s) (value a) (find_state s xs) (λ _. tt) (find_state-Holds s xs)

pub read_action-Holds : (s : String) → Holds Any (read_action s)
unfolding read_action
read_action-Holds s = find_action-Holds s actions

parse_action-Holds : (x : Option Json) → Holds Any (parse_action x)
unfolding parse_action
parse_action-Holds = read_text-Holds Any read_action read_action-Holds

parse_state-Holds : (x : Option Json) → Holds Any (parse_state x)
unfolding parse_state
parse_state-Holds = read_text-Holds Any (λ s. find_state s states) (λ s. find_state-Holds s states)

parse_role-Holds : (x : Option Json) → Holds (Passing is_role) (parse_role x)
unfolding parse_role
parse_role-Holds = read_text-Holds (Passing is_role) (passing is_role) (passing-Holds is_role)

required-Holds : (x : Option Json) → Holds (Passing is_operation_id) (required_operation_id x)
unfolding required_operation_id
required-Holds =
    read_text-Holds (Passing is_operation_id) (passing is_operation_id)
      (passing-Holds is_operation_id)

optional_id-Holds :
    (x : Option Json) → Holds (Perhaps (Passing is_operation_id)) (optional_operation_id x)
unfolding optional_operation_id
optional_id-Holds = optional-Holds (Passing is_operation_id) required_operation_id required-Holds

error_code-Holds :
    (x : Option Json) → Holds (Perhaps (Passing is_safe_code)) (optional_error_code x)
unfolding optional_error_code
error_code-Holds =
    optional-Holds (Passing is_safe_code) (read_text (passing is_safe_code))
      (read_text-Holds (Passing is_safe_code) (passing is_safe_code) (passing-Holds is_safe_code))

with_tzinfo-Holds : (m : Option Moment) → Holds IsAware (with_tzinfo m)
unfolding with_tzinfo
with_tzinfo-Holds none = invalid-Holds IsAware
with_tzinfo-Holds (some m) =
    if-Holds IsAware m.tzinfo (value m) invalid_response (λ e. e) (invalid-Holds IsAware)

required_moment-Holds : (m : Option Moment) → Perhaps IsAware m → Holds IsAware (required_moment m)
unfolding required_moment
required_moment-Holds none h = invalid-Holds IsAware
required_moment-Holds (some m) h = h

module _ (readers : Readers) where
  datetime-Holds : (x : Option Json) → Holds (Perhaps IsAware) (optional_datetime readers x)
  unfolding optional_datetime read_datetime
  datetime-Holds = optional-Holds IsAware (read_text (read_datetime readers)) (
      read_text-Holds IsAware (read_datetime readers)
        (λ s. with_tzinfo-Holds (readers.fromisoformat (replace_z s))))

  status_of-Holds : (m : Members) → Holds IsSafeStatus (status_of readers m)
  unfolding status_of
  status_of-Holds m =
      bind-Holds (Passing is_role) IsSafeStatus (parse_role (field "role" m)) _
        (parse_role-Holds (field "role" m))
        (λ role safe_role.
          bind-Holds Any IsSafeStatus (parse_state (field "state" m)) _
            (parse_state-Holds (field "state" m))
            (λ state _.
              bind-Holds (Perhaps (Passing is_operation_id)) IsSafeStatus
                (optional_operation_id (field "operation_id" m)) _
                (optional_id-Holds (field "operation_id" m))
                (λ id safe_id.
                  bind-Holds (Perhaps (Passing is_safe_code)) IsSafeStatus
                    (optional_error_code (field "error_code" m)) _
                    (error_code-Holds (field "error_code" m))
                    (λ code safe_code.
                      bind-Holds (Perhaps IsAware) IsSafeStatus
                        (optional_datetime readers (field "updated_at" m)) _
                        (datetime-Holds (field "updated_at" m))
                        (λ time aware. record {
                          role = safe_role;
                          operation_id = safe_id;
                          error_code = safe_code;
                          updated_at = aware;
                        })))))

  parse_status-Holds : (x : Json) → Holds IsSafeStatus (parse_status readers x)
  unfolding parse_status
  parse_status-Holds null = invalid-Holds IsSafeStatus
  parse_status-Holds (boolean b) = invalid-Holds IsSafeStatus
  parse_status-Holds (number n) = invalid-Holds IsSafeStatus
  parse_status-Holds (text s) = invalid-Holds IsSafeStatus
  parse_status-Holds (array xs) = invalid-Holds IsSafeStatus
  parse_status-Holds (object m) =
      if-Holds IsSafeStatus _ (status_of readers m) invalid_response (λ _. status_of-Holds m)
        (invalid-Holds IsSafeStatus)

  parse_statuses-Holds : (xs : Items) → Holds (All IsSafeStatus) (parse_statuses readers xs)
  unfolding parse_statuses
  parse_statuses-Holds end_items = tt
  parse_statuses-Holds (item x xs) =
      bind-Holds IsSafeStatus (All IsSafeStatus) (parse_status readers x) _ (parse_status-Holds x)
        (λ status safe.
          bind-Holds (All IsSafeStatus) (All IsSafeStatus) (parse_statuses readers xs) _
            (parse_statuses-Holds xs) (λ rest all_safe. (safe, all_safe)))

  device_list-Holds : (x : Option Json) → Holds (All IsSafeStatus) (device_list readers x)
  unfolding device_list
  device_list-Holds none = invalid-Holds (All IsSafeStatus)
  device_list-Holds (some null) = invalid-Holds (All IsSafeStatus)
  device_list-Holds (some (boolean b)) = invalid-Holds (All IsSafeStatus)
  device_list-Holds (some (number n)) = invalid-Holds (All IsSafeStatus)
  device_list-Holds (some (text s)) = invalid-Holds (All IsSafeStatus)
  device_list-Holds (some (array xs)) = parse_statuses-Holds xs
  device_list-Holds (some (object m)) = invalid-Holds (All IsSafeStatus)

  pub parse_devices-Holds : (m : Members) → Holds (All IsSafeStatus) (parse_devices readers m)
  unfolding parse_devices
  parse_devices-Holds m =
      if-Holds (All IsSafeStatus) _ (device_list readers (field "devices" m)) invalid_response
        (λ _. device_list-Holds (field "devices" m)) (invalid-Holds (All IsSafeStatus))

  operation_of-Holds : (m : Members) → Holds IsSafeOperation (operation_of readers m)
  unfolding operation_of
  operation_of-Holds m =
      bind-Holds (Passing is_operation_id) IsSafeOperation
        (required_operation_id (field "operation_id" m)) _ (required-Holds (field "operation_id" m))
        (λ id safe_id.
          bind-Holds (Passing is_role) IsSafeOperation (parse_role (field "role" m)) _
            (parse_role-Holds (field "role" m))
            (λ role safe_role.
              bind-Holds Any IsSafeOperation (parse_action (field "action" m)) _
                (parse_action-Holds (field "action" m))
                (λ action _.
                  bind-Holds Any IsSafeOperation (parse_state (field "state" m)) _
                    (parse_state-Holds (field "state" m))
                    (λ state _.
                      bind-Holds (Perhaps (Passing is_safe_code)) IsSafeOperation
                        (optional_error_code (field "error_code" m)) _
                        (error_code-Holds (field "error_code" m))
                        (λ code safe_code.
                          bind-Holds (Perhaps IsAware) IsSafeOperation
                            (optional_datetime readers (field "updated_at" m)) _
                            (datetime-Holds (field "updated_at" m))
                            (λ time aware.
                              bind-Holds IsAware IsSafeOperation (required_moment time) _
                                (required_moment-Holds time aware)
                                (λ moment safe_moment. record {
                                  operation_id = safe_id;
                                  role = safe_role;
                                  error_code = safe_code;
                                  updated_at = safe_moment;
                                })))))))

  pub parse_operation-Holds : (m : Members) → Holds IsSafeOperation (parse_operation readers m)
  unfolding parse_operation
  parse_operation-Holds m =
      if-Holds IsSafeOperation _ (operation_of readers m) invalid_response
        (λ _. operation_of-Holds m) (invalid-Holds IsSafeOperation)
