-- ===== src/Devices/Calls/Safety.antt =====
-- level2_service/device_lifecycle.py: what the calls of `DeviceLifecycleClient` may send and return.
use Prim.Native.String.{◌++◌}
use tonghuashun.Base.{
  ℕ, ◌≤◌, subst, String, Bool, true, ◌≡◌, refl, Option, none, some, List, [], ◌∷◌, contains, All,
  length, arith, Bool-cases, Option-cases, inl, inr, nat_eq, ◌==◌, ◌&&◌,
}
use tonghuashun.Devices.{
  Json, Members, null, boolean, number, text, array, object, allowed_hosts, allowed_roles,
  is_operation_id, Readers, Url, Origin, DeviceLifecycleAction, DeviceLifecycleClient, Reply, value,
  failed, ◌>>=◌, invalid_response, is_plain, origin_of, validate_base_url, new_client,
}
use tonghuashun.Devices.Replies.{is_role, read_action, parse_operation, parse_devices}
use tonghuashun.Devices.Replies.Safe.{
  Holds, Any, IsSafeStatus, IsSafeOperation, bind-Holds, invalid-Holds, if-Holds,
}
use tonghuashun.Devices.Replies.Safe.Parsing.{
  read_action-Holds, parse_devices-Holds, parse_operation-Holds,
}
use tonghuashun.Devices.Calls.{
  Request, Answer, response, status_error, unavailable, status_error_code, document_of, received,
  request, devices, submit_allowed, submit, operation,
}

-- The three forms of a path.
pub data IsPath : String → Type 0 where
  to_devices : IsPath "/v1/devices"
  to_actions :
      (role : String) → is_role role ≡ true → IsPath ("/v1/devices/" ++ (role ++ "/actions"))
  to_operation : (id : String) → is_operation_id id ≡ true → IsPath ("/v1/operations/" ++ id)

pub record IsAllowed (r : Request) : Type 0 where
  pub host : contains r.base_url.host allowed_hosts ≡ true
  pub path : IsPath r.path

-- A call makes at most one request, an allowed one, and its reply has the property or is a fixed
-- error code.
pub record IsSafeCall {ℓ} {A : Type ℓ} (P : A → Type 0) (c : List Request × Reply A) : Type ℓ where
  pub once : length c.0 ≤ 1
  pub requests : All IsAllowed c.0
  pub reply : Holds P c.1

status_error_code-Holds :
    {A : Type 0} → (P : A → Type 0) → (status : ℕ) → Holds P (failed (status_error_code status))
unfolding status_error_code
status_error_code-Holds P status = elim (Bool-cases (nat_eq status 401)) [
  | inl e ↦ rw e refl
  | inr e ↦ elim (Bool-cases (nat_eq status 409)) [
    | inl f ↦ rw (e, f) refl
    | inr f ↦ rw (e, f) refl
  ]
]

document_of-Holds : (x : Option Json) → Holds Any (document_of x)
unfolding document_of invalid_response
document_of-Holds none = refl
document_of-Holds (some null) = refl
document_of-Holds (some (boolean b)) = refl
document_of-Holds (some (number n)) = refl
document_of-Holds (some (text s)) = refl
document_of-Holds (some (array xs)) = refl
document_of-Holds (some (object m)) = tt

received-Holds :
    (readers : Readers) (expected : ℕ) (a : Answer) → Holds Any (received readers expected a)
unfolding received
received-Holds readers expected (response status body) =
    if-Holds Any (nat_eq status expected) (document_of (readers.loads body))
      (failed (status_error_code status)) (λ _. document_of-Holds (readers.loads body))
      (status_error_code-Holds (λ (m : Members). Unit) status)
received-Holds readers expected (status_error status) =
    status_error_code-Holds (λ (m : Members). Unit) status
received-Holds readers expected unavailable = refl

module _ {A : Type 0} (P : A → Type 0) where
  -- A call that makes one request and parses the document of its answer.
  asks-IsSafeCall :
      (readers : Readers) (send : Request → Answer) (expected : ℕ) (parse : Members → Reply A)
      (r : Request)
      → IsAllowed r
      → ((m : Members) → Holds P (parse m))
      → IsSafeCall P (r ∷ [], received readers expected (send r) >>= parse)
  asks-IsSafeCall readers send expected parse r h g = record {
    once = omega arith;
    requests = (h, tt);
    reply =
        bind-Holds Any P (received readers expected (send r)) parse
          (received-Holds readers expected (send r)) (λ m _. g m);
  }

  refuses-IsSafeCall : IsSafeCall P ([], invalid_response)
  refuses-IsSafeCall = record { once = omega arith; requests = tt; reply = invalid-Holds P }

-- The host of a client.
abbrev IsLocal : DeviceLifecycleClient → Type 0
IsLocal client = contains client.base_url.host allowed_hosts ≡ true

abbrev IsLocalOrigin : Option Origin → Type 0
IsLocalOrigin none = Unit
IsLocalOrigin (some o) = contains o.host allowed_hosts ≡ true

and_left : (a b : Bool) → (a && b) ≡ true → a ≡ true
and_left a b h = ground arith

origin_of-IsLocalOrigin : (u : Url) → IsLocalOrigin (origin_of u)
unfolding origin_of
origin_of-IsLocalOrigin u = elim (Option-cases u.hostname) [
  | inl e ↦ rw e tt
  | inr (host, e) ↦ elim (Bool-cases (contains host allowed_hosts && is_plain u)) [
    | inl f ↦ rw (e, f) (and_left (contains host allowed_hosts) (is_plain u) f)
    | inr f ↦ rw (e, f) tt
  ]
]

validate_base_url-IsLocalOrigin :
    (readers : Readers) (url : String) → IsLocalOrigin (validate_base_url readers url)
unfolding validate_base_url
validate_base_url-IsLocalOrigin readers url = elim (Bool-cases (url == "")) [
  | inl e ↦ rw e tt
  | inr e ↦ elim (Option-cases (readers.urlsplit url)) [
    | inl f ↦ rw (e, f) tt
    | inr (u, f) ↦ rw (e, f) (origin_of-IsLocalOrigin u)
  ]
]

abbrev IsLocalOption : Option DeviceLifecycleClient → Type 0
IsLocalOption none = Unit
IsLocalOption (some client) = IsLocal client

new_client-IsLocalOption :
    (readers : Readers) (url token : String) → IsLocalOption (new_client readers url token)
unfolding new_client
new_client-IsLocalOption readers url token = elim (Option-cases (validate_base_url readers url)) [
  | inl e ↦ rw (new_client, e) tt
  | inr (o, e) ↦ elim (Bool-cases (token == "")) [
    | inl f ↦ rw (new_client, e, f) tt
    | inr f ↦
        rw (new_client, e, f) (subst IsLocalOrigin e (validate_base_url-IsLocalOrigin readers url))
  ]
]

module _ (readers : Readers) (send : Request → Answer) (client : DeviceLifecycleClient) where
  devices-IsSafeCall : IsLocal client → IsSafeCall (All IsSafeStatus) (devices readers send client)
  unfolding devices request
  devices-IsSafeCall h =
      asks-IsSafeCall (All IsSafeStatus) readers send 200 (parse_devices readers) _
        (record { host = h; path = to_devices }) (parse_devices-Holds readers)

  submit_allowed-IsSafeCall :
      (role : String) (action : Reply DeviceLifecycleAction)
      → IsLocal client
      → is_role role ≡ true
      → Holds Any action
      → IsSafeCall IsSafeOperation (submit_allowed readers send client role action)
  unfolding submit_allowed request
  submit_allowed-IsSafeCall role (value action) h e safe =
      asks-IsSafeCall IsSafeOperation readers send 202 (parse_operation readers) _
        (record { host = h; path = to_actions role e }) (parse_operation-Holds readers)
  submit_allowed-IsSafeCall role (failed code) h e safe = record {
    once = omega arith;
    requests = tt;
    reply = safe;
  }

  submit-IsSafeCall :
      (role action : String)
      → IsLocal client
      → IsSafeCall IsSafeOperation (submit readers send client role action)
  unfolding submit
  submit-IsSafeCall role action h = elim (Bool-cases (contains role allowed_roles)) [
    | inl e ↦
        rw e (submit_allowed-IsSafeCall role (read_action action) h e (read_action-Holds action))
    | inr e ↦ rw e (refuses-IsSafeCall IsSafeOperation)
  ]

  operation-IsSafeCall :
      (id : String) → IsLocal client → IsSafeCall IsSafeOperation (operation readers send client id)
  unfolding operation request
  operation-IsSafeCall id h = elim (Bool-cases (is_operation_id id)) [
    | inl e ↦ rw e (
        asks-IsSafeCall IsSafeOperation readers send 200 (parse_operation readers) _
          (record { host = h; path = to_operation id e }) (parse_operation-Holds readers))
    | inr e ↦ rw e (refuses-IsSafeCall IsSafeOperation)
  ]

-- Each call of a client that could be made, however the transport answers, sends at most one request,
-- to a local host and to a path with an allowed role or id, and returns a document whose roles, ids
-- and error codes are allowed and whose times have a zone, or fails with one of the fixed codes.
pub new_client-IsSafeCall :
    (readers : Readers) (send : Request → Answer) (url token role action id : String)
    (client : DeviceLifecycleClient)
    → new_client readers url token ≡ some client
    → IsSafeCall (All IsSafeStatus) (devices readers send client)
      × IsSafeCall IsSafeOperation (submit readers send client role action)
      × IsSafeCall IsSafeOperation (operation readers send client id)
new_client-IsSafeCall readers send url token role action id client e =
    let local = subst IsLocalOption e (new_client-IsLocalOption readers url token) in
    (
      devices-IsSafeCall readers send client local,
      submit-IsSafeCall readers send client role action local,
      operation-IsSafeCall readers send client id local,
    )
