-- ===== src/Security.antt =====
-- level2_service/security.py: administrator sessions and the limit on failed logins. Times are
-- microseconds; each method takes the readings of the clock in the order in which it makes them.
-- Session ids are ASCII, as new_session_id makes them. The writing of the password hash to a file is
-- not modelled.
pub mod Sessions
pub mod Throttle
pub mod Login
use Prim.Native.Char.{code}
use tonghuashun.Base.{
  join, ℕ, suc, ◌+◌, ◌≤◌, String, Bool, true, false, ◌&&◌, ◌||◌, not, Option, none, some, List, [],
  ◌∷◌, ◌++◌, ◌==◌, ltb, leb, nat_eq, if◌then◌else◌, length,
}
use tonghuashun.Dict.{Dict, get, get_or, put, pop}

pub record AdminSession : Type 0 where
  pub session_id : String
  pub csrf_token : String
  pub expires_at : ℕ

pub record AdminSessionManager : Type 0 where
  pub password_hash : Option String
  pub session_ttl : ℕ
  pub session_secret : Option String
  pub sessions : Dict AdminSession
  pub login_failures : Dict (List ℕ)

-- The Argon2 verification, where a malformed hash counts as a mismatch, and the signature by HMAC.
pub record Crypto : Type 0 where
  pub verify : String → String → Bool
  pub sign : String → String → String

-- The three limits that __init__ sets.
abbrev pub max_sessions : ℕ
max_sessions = 2048

abbrev pub login_failure_limit : ℕ
login_failure_limit = 5

abbrev pub login_failure_window : ℕ
login_failure_window = 60000000

-- __init__, where an empty secret counts as none.
unfoldable pub new_manager : Option String → ℕ → Option String → AdminSessionManager
new_manager password_hash ttl secret = record {
  password_hash = password_hash;
  session_ttl = ttl;
  session_secret = elim secret [ none ↦ none | some t ↦ if t == "" then none else some t ];
  sessions = [];
  login_failures = [];
}

-- `rsplit(".", 1)`: text is split at its last dot.
unfoldable pub rsplit_dot : String → Option (String × String)
rsplit_dot String.[] = none
rsplit_dot (String.◌∷◌ c s) = elim (rsplit_dot s) [
  | some (a, b) ↦ some (String.◌∷◌ c a, b)
  | none ↦ if nat_eq (code c) b'.' then some ("", s) else none
]

-- The sessions that last beyond a moment.
unfoldable pub live_sessions : ℕ → Dict AdminSession → Dict AdminSession
live_sessions now [] = []
live_sessions now ((id, s) ∷ d) =
    let rest = live_sessions now d in if leb s.expires_at now then rest else (id, s) ∷ rest

-- `while failures and failures[0] <= now - window: failures.popleft()`
unfoldable pub recent : ℕ → List ℕ → List ℕ
recent now [] = []
recent now (f ∷ fs) =
    let rest = recent now fs in if leb (f + login_failure_window) now then rest else f ∷ fs

-- The failures without stale ones, and without identifiers that have none left.
unfoldable pub live_failures : ℕ → Dict (List ℕ) → Dict (List ℕ)
unfolding recent
live_failures now [] = []
live_failures now ((id, fs) ∷ d) =
    let rest = live_failures now d in
    elim (recent now fs) [ [] ↦ rest | g ∷ gs ↦ (id, g ∷ gs) ∷ rest ]

unfoldable pub prune : ℕ → AdminSessionManager → AdminSessionManager
unfolding live_sessions live_failures
prune now m = record m {
  sessions = live_sessions now m.sessions;
  login_failures = live_failures now m.login_failures;
}

-- `min` over the sessions by their end keeps the first.
unfoldable pub oldest : AdminSession → Dict AdminSession → AdminSession
oldest best [] = best
oldest best ((id, s) ∷ d) = oldest (if ltb s.expires_at best.expires_at then s else best) d

-- The eviction where there are too many sessions.
unfoldable pub evict : Dict AdminSession → Dict AdminSession
unfolding oldest
evict [] = []
evict ((id, s) ∷ d) =
    if ltb max_sessions (length ((id, s) ∷ d))
    then pop (oldest s d).session_id ((id, s) ∷ d)
    else (id, s) ∷ d

abbrev made : String → String → ℕ → AdminSession
made id csrf ends = record { session_id = id; csrf_token = csrf; expires_at = ends }

module _ (k : Crypto) where
  unfoldable pub new_session_id : Option String → String → String
  new_session_id none nonce = nonce
  new_session_id (some secret) nonce = join nonce (join "." (k.sign secret nonce))

  unfoldable pub valid_session_id : Option String → String → Bool
  unfolding rsplit_dot
  valid_session_id none id = true
  valid_session_id (some secret) id = elim (rsplit_dot id) [
    | none ↦ false
    | some (nonce, signature) ↦ signature == k.sign secret nonce
  ]

  -- `nonce` and `csrf` are the random tokens that the method draws.
  unfoldable pub authenticate :
      String
      → String
      → String
      → ℕ
      → ℕ
      → AdminSessionManager
      → Option AdminSession × AdminSessionManager
  unfolding new_session_id prune evict
  authenticate password nonce csrf now later m = elim m.password_hash [
    | none ↦ (none, m)
    | some hash ↦
        if not (k.verify hash password)
        then (none, m)
        else let session =
            made (new_session_id m.session_secret nonce) csrf (now + m.session_ttl) in
          let pruned = prune later m in
          (
            some session,
            record pruned { sessions = evict (put session.session_id session pruned.sessions) },
          )
  ]

  -- `replacement` is the new salted hash, and `persisted` says whether storing it did not raise; a
  -- `none` stands for that exception.
  unfoldable pub change_password :
      String → String → Bool → AdminSessionManager → Option Bool × AdminSessionManager
  change_password current replacement persisted m = elim m.password_hash [
    | none ↦ (some false, m)
    | some hash ↦
        if not (k.verify hash current)
        then (some false, m)
        else if not persisted
        then (none, m)
        else (
          some true,
          record m { password_hash = some replacement; sessions = []; login_failures = [] },
        )
  ]

  -- The end of valid_session, after the pruning.
  unfoldable pub checked_session :
      String → ℕ → AdminSessionManager → Option AdminSession × AdminSessionManager
  unfolding valid_session_id
  checked_session id later m = elim (get id m.sessions) [
    | none ↦ (none, record m { sessions = pop id m.sessions })
    | some session ↦
        if not (valid_session_id m.session_secret id) || leb session.expires_at later
        then (none, record m { sessions = pop id m.sessions })
        else (some session, m)
  ]

  unfoldable pub valid_session :
      Option String → ℕ → ℕ → AdminSessionManager → Option AdminSession × AdminSessionManager
  unfolding checked_session prune
  valid_session none now later m = (none, m)
  valid_session (some id) now later m =
      if id == "" then (none, m) else checked_session id later (prune now m)

unfoldable pub revoke : Option String → AdminSessionManager → AdminSessionManager
revoke none m = m
revoke (some id) m = if id == "" then m else record m { sessions = pop id m.sessions }

-- The end of login_allowed, after the pruning: the failures of the identifier at a later moment.
unfoldable pub allowed_after : String → ℕ → AdminSessionManager → Bool × AdminSessionManager
unfolding recent
allowed_after id later m = elim (get id m.login_failures) [
  | none ↦ (true, m)
  | some failures ↦ elim (recent later failures) [
    | [] ↦ (true, record m { login_failures = pop id m.login_failures })
    | f ∷ fs ↦ (
      ltb (length (f ∷ fs)) login_failure_limit,
      record m { login_failures = put id (f ∷ fs) m.login_failures },
    )
  ]
]

unfoldable pub login_allowed : String → ℕ → ℕ → AdminSessionManager → Bool × AdminSessionManager
unfolding allowed_after prune
login_allowed id now later m = allowed_after id later (prune now m)

unfoldable pub record_login_failure : String → ℕ → ℕ → ℕ → AdminSessionManager → AdminSessionManager
unfolding login_allowed
record_login_failure id now later last m =
    let m' = (login_allowed id now later m).1 in
    record m' {
      login_failures = put id (get_or id [] m'.login_failures ++ last ∷ []) m'.login_failures;
    }

unfoldable pub record_login_success : String → AdminSessionManager → AdminSessionManager
record_login_success id m = record m { login_failures = pop id m.login_failures }
