-- ===== src/Devices/Replies/Safe.antt =====
-- level2_service/device_lifecycle.py: what the documents of the broker of the devices may give.
pub mod Parsing
use tonghuashun.Base.{
  String, Bool, true, ◌≡◌, refl, inl, inr, Option, none, some, List, [], ◌∷◌, contains, All, ◌==◌,
  if◌then◌else◌, Bool-cases,
}
use tonghuashun.Devices.{
  Json, Items, Members, null, boolean, number, text, array, object, item, end_items,
  safe_error_codes, is_operation_id, Readers, DeviceLifecycleAction, DeviceLifecycleState, Moment,
  DeviceLifecycleStatus, DeviceLifecycleOperation, Reply, value, failed, ◌>>=◌, invalid_response,
  action_text, state_text,
}
use tonghuashun.Devices.Replies.{
  field, parse_role, parse_action, parse_state, read_action, optional, read_text, passing,
  read_datetime, find_action, find_state, is_absent, replace_z, actions, states, is_role,
  is_safe_code, optional_operation_id, optional_error_code, required_operation_id, with_tzinfo,
  required_moment, optional_datetime, status_of, parse_status, operation_of, parse_operation,
  parse_statuses, device_list, parse_devices,
}

-- A reply has the property, or it is one of the fixed codes.
abbrev pub Holds {ℓ} : {A : Type ℓ} → (A → Type 0) → Reply A → Type 0
Holds P (value a) = P a
Holds P (failed code) = contains code safe_error_codes ≡ true

-- The property of a value that is there.
abbrev pub Perhaps {ℓ} : {A : Type ℓ} → (A → Type 0) → Option A → Type 0
Perhaps P none = Unit
Perhaps P (some a) = P a

abbrev pub Passing : (String → Bool) → String → Type 0
Passing p s = p s ≡ true

abbrev pub IsAware : Moment → Type 0
IsAware m = m.tzinfo ≡ true

pub record IsSafeStatus (status : DeviceLifecycleStatus) : Type 0 where
  pub role : is_role status.role ≡ true
  pub operation_id : Perhaps (Passing is_operation_id) status.operation_id
  pub error_code : Perhaps (Passing is_safe_code) status.error_code
  pub updated_at : Perhaps IsAware status.updated_at

pub record IsSafeOperation (o : DeviceLifecycleOperation) : Type 0 where
  pub operation_id : is_operation_id o.operation_id ≡ true
  pub role : is_role o.role ≡ true
  pub error_code : Perhaps (Passing is_safe_code) o.error_code
  pub updated_at : IsAware o.updated_at

abbrev pub Any {ℓ} : {A : Type ℓ} → A → Type 0
Any a = Unit

module _ {ℓ κ} {A : Type ℓ} {B : Type κ} (P : A → Type 0) (Q : B → Type 0) where
  pub bind-Holds :
      (r : Reply A) (f : A → Reply B)
      → Holds P r
      → ((a : A) → P a → Holds Q (f a))
      → Holds Q (r >>= f)
  bind-Holds (value a) f h g = g a h
  bind-Holds (failed code) f h g = h

module _ {ℓ} {A : Type ℓ} (P : A → Type 0) where
  pub invalid-Holds : Holds P invalid_response
  unfolding invalid_response
  invalid-Holds = refl

  pub read_text-Holds :
      (f : String → Reply A)
      → ((s : String) → Holds P (f s))
      → (x : Option Json) → Holds P (read_text f x)
  unfolding read_text
  read_text-Holds f h none = invalid-Holds
  read_text-Holds f h (some null) = invalid-Holds
  read_text-Holds f h (some (boolean b)) = invalid-Holds
  read_text-Holds f h (some (number n)) = invalid-Holds
  read_text-Holds f h (some (text s)) = h s
  read_text-Holds f h (some (array xs)) = invalid-Holds
  read_text-Holds f h (some (object m)) = invalid-Holds

  -- One of two replies.
  pub if-Holds :
      (b : Bool) (r s : Reply A) → (b ≡ true → Holds P r) → Holds P s → Holds P (if b then r else s)
  if-Holds b r s f h = elim (Bool-cases b) [ inl e ↦ rw e (f e) | inr e ↦ rw e h ]

pub optional-Holds {ℓ} :
    {A : Type ℓ} (P : A → Type 0) (f : Option Json → Reply A)
    → ((x : Option Json) → Holds P (f x))
    → (x : Option Json) → Holds (Perhaps P) (optional f x)
unfolding optional
optional-Holds P f h x =
    if-Holds (Perhaps P) (is_absent x) (value none) (f x >>= λ a. value (some a)) (λ _. tt)
      (bind-Holds P (Perhaps P) (f x) (λ a. value (some a)) (h x) (λ a q. q))

pub passing-Holds : (p : String → Bool) (s : String) → Holds (Passing p) (passing p s)
unfolding passing
passing-Holds p s =
    if-Holds (Passing p) (p s) (value s) invalid_response (λ e. e) (invalid-Holds (Passing p))
