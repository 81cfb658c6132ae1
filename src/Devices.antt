-- ===== src/Devices.antt =====
-- level2_service/device_lifecycle.py: the vocabulary of `DeviceLifecycleClient`, the making of a
-- client and its requests. json.loads (after the decoding of the body), urlsplit and
-- datetime.fromisoformat are the parameter Readers.
pub mod Replies
pub mod Calls
use Prim.Native.String.{◌++◌}
use tonghuashun.Base.{
  ℕ, String, Bool, true, false, ◌&&◌, ◌||◌, not, Option, none, some, List, [], ◌∷◌, ◌==◌, leb,
  nat_eq, if◌then◌else◌, is_some, contains, all, length,
}
use tonghuashun.Queue.{codes}

-- What json.loads returns; the members of an object have different keys.
mutual
  pub data Json : Type 0 where
    null : Json
    boolean : Bool → Json
    number : String → Json
    text : String → Json
    array : Items → Json
    object : Members → Json

  pub data Items : Type 0 where
    end_items : Items
    item : Json → Items → Items

  pub data Members : Type 0 where
    end_members : Members
    member : String → Json → Members → Members

abbrev pub allowed_hosts : List String
allowed_hosts = "host.docker.internal" ∷ "127.0.0.1" ∷ "localhost" ∷ []

abbrev pub allowed_roles : List String
allowed_roles = "core_metrics" ∷ "main_fund_flow" ∷ []

abbrev pub safe_error_codes : List String
safe_error_codes =
    "DEVICE_ACTION_IN_PROGRESS" ∷ "DEVICE_AVD_NOT_FOUND" ∷ "DEVICE_BOOT_TIMEOUT"
    ∷ "DEVICE_APP_LAUNCH_FAILED" ∷ "DEVICE_SHUTDOWN_FAILED" ∷ "DEVICE_LIFECYCLE_FAILED"
    ∷ "DEVICE_LIFECYCLE_UNAVAILABLE" ∷ []

-- [A-Za-z0-9_-]{1,256}
is_id_char : ℕ → Bool
is_id_char c =
    (leb b'A' c && leb c b'Z')
    || (leb b'a' c && leb c b'z')
    || (leb b'0' c && leb c b'9')
    || nat_eq c b'_'
    || nat_eq c b'-'

unfoldable pub is_operation_id : String → Bool
unfolding is_id_char
is_operation_id s =
    all is_id_char (codes s) && leb 1 (length (codes s)) && leb (length (codes s)) 256

pub data DeviceLifecycleAction : Type 0 where
  start_and_launch_app shutdown : DeviceLifecycleAction

pub data DeviceLifecycleState : Type 0 where
  unconfigured unknown stopped starting running stopping error : DeviceLifecycleState

abbrev pub action_text : DeviceLifecycleAction → String
action_text DeviceLifecycleAction.start_and_launch_app = "start_and_launch_app"
action_text DeviceLifecycleAction.shutdown = "shutdown"

abbrev pub state_text : DeviceLifecycleState → String
state_text DeviceLifecycleState.unconfigured = "UNCONFIGURED"
state_text DeviceLifecycleState.unknown = "UNKNOWN"
state_text DeviceLifecycleState.stopped = "STOPPED"
state_text DeviceLifecycleState.starting = "STARTING"
state_text DeviceLifecycleState.running = "RUNNING"
state_text DeviceLifecycleState.stopping = "STOPPING"
state_text DeviceLifecycleState.error = "ERROR"

-- A datetime: its instant, and whether it has a tzinfo.
pub record Moment : Type 0 where
  pub instant : ℕ
  pub tzinfo : Bool

-- What urlsplit finds in a URL.
pub record Url : Type 0 where
  pub scheme : String
  pub hostname : Option String
  pub username : Option String
  pub password : Option String
  pub port : Option ℕ
  pub path : String
  pub query : String
  pub fragment : String

-- `none` is a ValueError, and for loads a UnicodeDecodeError too. The RecursionError that json.loads
-- raises on a document nested too deeply is not modelled.
pub record Readers : Type 0 where
  pub loads : String → Option Json
  pub urlsplit : String → Option Url
  pub fromisoformat : String → Option Moment

pub record DeviceLifecycleStatus : Type 0 where
  pub role : String
  pub state : DeviceLifecycleState
  pub operation_id : Option String
  pub error_code : Option String
  pub updated_at : Option Moment

pub record DeviceLifecycleOperation : Type 0 where
  pub operation_id : String
  pub role : String
  pub action : DeviceLifecycleAction
  pub state : DeviceLifecycleState
  pub error_code : Option String
  pub updated_at : Moment

-- The base URL http://host or http://host:port
pub record Origin : Type 0 where
  pub host : String
  pub port : Option ℕ

pub record DeviceLifecycleClient : Type 0 where
  pub base_url : Origin
  pub token : String

-- A result, or a DeviceLifecycleError with its code.
pub data Reply {ℓ} (A : Type ℓ) : Type ℓ where
  value : A → Reply A
  failed : String → Reply A

infixl 5 ◌>>=◌
abbrev pub ◌>>=◌ {ℓ κ} : {A : Type ℓ} {B : Type κ} → Reply A → (A → Reply B) → Reply B
value a >>= f = f a
failed code >>= f = failed code

unfoldable pub invalid_response {ℓ} : {A : Type ℓ} → Reply A
invalid_response = failed "DEVICE_LIFECYCLE_FAILED"

-- The tests of validate_base_url on the parts of the URL.
unfoldable pub is_plain : Url → Bool
is_plain u =
    u.scheme == "http"
    && not (is_some u.username)
    && not (is_some u.password)
    && u.query == ""
    && u.fragment == ""
    && (u.path == "" || u.path == "/")

unfoldable pub origin_of : Url → Option Origin
unfolding is_plain
origin_of u = elim u.hostname [
  | none ↦ none
  | some host ↦
      if contains host allowed_hosts && is_plain u
      then some (record { host = host; port = u.port })
      else none
]

module _ (readers : Readers) where
  unfoldable pub validate_base_url : String → Option Origin
  unfolding origin_of
  validate_base_url base_url =
      if base_url == ""
      then none
      else elim (readers.urlsplit base_url) [ none ↦ none | some u ↦ origin_of u ]

  -- The constructor; `none` is a ValueError.
  unfoldable pub new_client : String → String → Option DeviceLifecycleClient
  unfolding validate_base_url
  new_client base_url token = elim (validate_base_url base_url) [
    | none ↦ none
    | some origin ↦ if token == "" then none else some (record { base_url = origin; token = token })
  ]
