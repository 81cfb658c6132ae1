-- ===== src/Devices/Replies.antt =====
-- level2_service/device_lifecycle.py: the reading of the documents that the broker of the devices
-- answers with.
pub mod Safe
use tonghuashun.Base.{
  ℕ, String, Bool, true, false, ◌&&◌, ◌||◌, not, Option, none, some, List, [], ◌∷◌, ◌==◌, nat_eq,
  if◌then◌else◌, is_some, contains, all,
}
use Prim.Native.Char.{code}
use tonghuashun.Devices.{
  Json, Items, Members, null, boolean, number, text, object, array, end_items, item, end_members,
  member, allowed_roles, safe_error_codes, is_operation_id, DeviceLifecycleAction,
  DeviceLifecycleState, Moment, Readers, DeviceLifecycleStatus, DeviceLifecycleOperation, Reply,
  value, failed, ◌>>=◌, invalid_response, action_text, state_text,
}

-- value.get(key)
unfoldable pub field : String → Members → Option Json
field k end_members = none
field k (member j x m) = if j == k then some x else field k m

unfoldable pub keys : Members → List String
keys end_members = []
keys (member j x m) = j ∷ keys m

abbrev pub has_all : List String → Members → Bool
has_all ks m = all (λ k. is_some (field k m)) ks

abbrev pub has_only : List String → Members → Bool
has_only ks m = all (λ k. contains k ks) (keys m)

-- set(value) == set(ks)
unfoldable pub has_exactly : List String → Members → Bool
unfolding field keys
has_exactly ks m = has_all ks m && has_only ks m

-- value.replace("Z", "+00:00")
unfoldable pub replace_z : String → String
replace_z String.[] = ""
replace_z (String.◌∷◌ c s) =
    let rest = replace_z s in
    if nat_eq (code c) b'Z'
    then String.◌∷◌ "+"
        (String.◌∷◌ "0" (String.◌∷◌ "0" (String.◌∷◌ ":" (String.◌∷◌ "0" (String.◌∷◌ "0" rest)))))
    else String.◌∷◌ c rest

-- A value that is a text; another one, or none, is an invalid response.
unfoldable pub read_text {ℓ} : {A : Type ℓ} → (String → Reply A) → Option Json → Reply A
unfolding invalid_response
read_text f none = invalid_response
read_text f (some null) = invalid_response
read_text f (some (boolean b)) = invalid_response
read_text f (some (number n)) = invalid_response
read_text f (some (text s)) = f s
read_text f (some (array xs)) = invalid_response
read_text f (some (object m)) = invalid_response

abbrev pub is_absent : Option Json → Bool
is_absent none = true
is_absent (some null) = true
is_absent (some _) = false

-- A value that is missing or null is None.
unfoldable pub optional {ℓ} :
    {A : Type ℓ} → (Option Json → Reply A) → Option Json → Reply (Option A)
optional f x = if is_absent x then value none else f x >>= λ a. value (some a)

unfoldable pub passing : (String → Bool) → String → Reply String
unfolding invalid_response
passing p s = if p s then value s else invalid_response

abbrev pub is_role : String → Bool
is_role role = contains role allowed_roles

unfoldable pub parse_role : Option Json → Reply String
unfolding read_text passing
parse_role = read_text (passing is_role)

unfoldable pub find_action : String → List DeviceLifecycleAction → Reply DeviceLifecycleAction
unfolding invalid_response
find_action s [] = invalid_response
find_action s (a ∷ actions) =
    let rest = find_action s actions in if action_text a == s then value a else rest

unfoldable pub find_state : String → List DeviceLifecycleState → Reply DeviceLifecycleState
unfolding invalid_response
find_state s [] = invalid_response
find_state s (a ∷ states) =
    let rest = find_state s states in if state_text a == s then value a else rest

abbrev pub actions : List DeviceLifecycleAction
actions = DeviceLifecycleAction.start_and_launch_app ∷ DeviceLifecycleAction.shutdown ∷ []

abbrev pub states : List DeviceLifecycleState
states =
    DeviceLifecycleState.unconfigured ∷ DeviceLifecycleState.unknown ∷ DeviceLifecycleState.stopped
    ∷ DeviceLifecycleState.starting ∷ DeviceLifecycleState.running ∷ DeviceLifecycleState.stopping
    ∷ DeviceLifecycleState.error ∷ []

-- DeviceLifecycleAction(s)
unfoldable pub read_action : String → Reply DeviceLifecycleAction
unfolding find_action
read_action s = find_action s actions

unfoldable pub parse_action : Option Json → Reply DeviceLifecycleAction
unfolding read_text read_action
parse_action = read_text read_action

unfoldable pub parse_state : Option Json → Reply DeviceLifecycleState
unfolding read_text find_state
parse_state = read_text (λ s. find_state s states)

abbrev pub is_safe_code : String → Bool
is_safe_code s = contains s safe_error_codes

unfoldable pub required_operation_id : Option Json → Reply String
unfolding read_text passing
required_operation_id = read_text (passing is_operation_id)

unfoldable pub optional_operation_id : Option Json → Reply (Option String)
unfolding optional required_operation_id
optional_operation_id = optional required_operation_id

unfoldable pub optional_error_code : Option Json → Reply (Option String)
unfolding optional read_text passing
optional_error_code = optional (read_text (passing is_safe_code))

unfoldable pub with_tzinfo : Option Moment → Reply Moment
unfolding invalid_response
with_tzinfo none = invalid_response
with_tzinfo (some m) = if m.tzinfo then value m else invalid_response

unfoldable pub required_moment : Option Moment → Reply Moment
unfolding invalid_response
required_moment none = invalid_response
required_moment (some m) = value m

module _ (readers : Readers) where
  unfoldable pub read_datetime : String → Reply Moment
  unfolding with_tzinfo replace_z
  read_datetime s = with_tzinfo (readers.fromisoformat (replace_z s))

  unfoldable pub optional_datetime : Option Json → Reply (Option Moment)
  unfolding optional read_text read_datetime
  optional_datetime = optional (read_text read_datetime)

  unfoldable pub status_of : Members → Reply DeviceLifecycleStatus
  unfolding parse_role parse_state optional_operation_id optional_error_code optional_datetime
  status_of m = do
    role ← parse_role (field "role" m)
    state ← parse_state (field "state" m)
    operation_id ← optional_operation_id (field "operation_id" m)
    error_code ← optional_error_code (field "error_code" m)
    updated_at ← optional_datetime (field "updated_at" m)
    value (record {
      role = role;
      state = state;
      operation_id = operation_id;
      error_code = error_code;
      updated_at = updated_at;
    })

  unfoldable pub parse_status : Json → Reply DeviceLifecycleStatus
  unfolding invalid_response status_of
  parse_status (object m) =
      if has_all ("role" ∷ "state" ∷ []) m
        && has_only ("role" ∷ "state" ∷ "operation_id" ∷ "error_code" ∷ "updated_at" ∷ []) m
      then status_of m
      else invalid_response
  parse_status _ = invalid_response

  unfoldable pub operation_of : Members → Reply DeviceLifecycleOperation
  unfolding required_operation_id parse_role parse_action parse_state optional_error_code
      optional_datetime required_moment
  operation_of m = do
    operation_id ← required_operation_id (field "operation_id" m)
    role ← parse_role (field "role" m)
    action ← parse_action (field "action" m)
    state ← parse_state (field "state" m)
    error_code ← optional_error_code (field "error_code" m)
    time ← optional_datetime (field "updated_at" m)
    updated_at ← required_moment time
    value (record {
      operation_id = operation_id;
      role = role;
      action = action;
      state = state;
      error_code = error_code;
      updated_at = updated_at;
    })

  unfoldable pub parse_operation : Members → Reply DeviceLifecycleOperation
  unfolding invalid_response operation_of has_exactly
  parse_operation m =
      if has_exactly
        ("operation_id" ∷ "role" ∷ "action" ∷ "state" ∷ "error_code" ∷ "updated_at" ∷ []) m
      then operation_of m
      else invalid_response

  -- The statuses of a list, up to the first error.
  unfoldable pub parse_statuses : Items → Reply (List DeviceLifecycleStatus)
  unfolding parse_status
  parse_statuses end_items = value []
  parse_statuses (item x xs) = do
    status ← parse_status x
    rest ← parse_statuses xs
    value (status ∷ rest)

  unfoldable pub device_list : Option Json → Reply (List DeviceLifecycleStatus)
  unfolding invalid_response parse_statuses
  device_list (some (array xs)) = parse_statuses xs
  device_list _ = invalid_response

  -- The document of devices
  unfoldable pub parse_devices : Members → Reply (List DeviceLifecycleStatus)
  unfolding invalid_response device_list has_exactly
  parse_devices m =
      if has_exactly ("devices" ∷ []) m then device_list (field "devices" m) else invalid_response
