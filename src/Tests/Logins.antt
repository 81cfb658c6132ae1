-- ===== src/Tests/Logins.antt =====
-- The administrator sessions of level2_service/security.py at concrete inputs.
use tonghuashun.Base.{
  none, ℕ, String, ◌≢◌, ◌⊎◌, Option, ◌≡◌, ◌≤◌, ◌<◌, ◌↔◌, refl, true, some, [], ◌∷◌, arith, length,
  count_if,
}
use tonghuashun.Dict.{get, get_or}
use tonghuashun.Security.{
  AdminSession, AdminSessionManager, Crypto, authenticate, login_allowed, max_sessions,
  valid_session, change_password,
}
use tonghuashun.Security.Login.{authenticate-valid_session, change_password-Revokes}
use tonghuashun.Security.Sessions.{authenticate-bounded}
use tonghuashun.Security.Throttle.{in_window, login_allowed_iff}

-- Every password is right, and a signature is the text itself.
abbrev plain_crypto : Crypto
plain_crypto = record { verify = λ _ _. true; sign = λ _ t. t }

abbrev one_session : AdminSessionManager
one_session = record {
  password_hash = some "hash";
  session_ttl = 100;
  session_secret = some "secret";
  sessions = ("n.n", record { session_id = "n.n"; csrf_token = "c"; expires_at = 50 }) ∷ [];
  login_failures = ("ip", 1 ∷ 2 ∷ []) ∷ [];
}

authenticate-bounded_example :
    length (authenticate plain_crypto "p" "m" "d" 10 11 one_session).1.sessions ≤ max_sessions
unfolding get
authenticate-bounded_example =
    authenticate-bounded plain_crypto "p" "m" "d" 10 11 one_session (refl, refl, tt) (omega arith)

login_allowed_iff_example :
    ((login_allowed "ip" 10 11 one_session).0 ≡ true)
    ↔ (count_if (in_window 11) (get_or "ip" [] one_session.login_failures) < 5)
unfolding get
login_allowed_iff_example =
    login_allowed_iff "ip" 10 11 one_session (omega arith) (refl, tt) (omega arith, tt)

-- Signatures are one fixed text without a dot.
abbrev signing_crypto : Crypto
signing_crypto = record { verify = λ _ _. true; sign = λ _ _. "s" }

abbrev new_session : AdminSession
new_session = record { session_id = "m.s"; csrf_token = "d"; expires_at = 110 }

authenticate-valid_session_example :
    (valid_session signing_crypto
      (some "m.s")
      20
      21
      (authenticate signing_crypto "p" "m" "d" 10 11 one_session).1).0
    ≡ some new_session
unfolding get authenticate
authenticate-valid_session_example =
    authenticate-valid_session signing_crypto "p" "m" "d" 10 11 one_session new_session refl
      (λ _ _. (refl, tt)) (refl, refl, tt) (omega arith) refl 20 21 (omega arith) (omega arith)

change_password-Revokes_example :
    (((change_password signing_crypto "p" "h" true one_session).0 ≡ some true)
      × ((id : Option String) (t u : ℕ)
          → (valid_session signing_crypto id t u
              (change_password signing_crypto "p" "h" true one_session).1).0
            ≡ none))
    ⊎ (((change_password signing_crypto "p" "h" true one_session).0 ≢ some true)
        × ((change_password signing_crypto "p" "h" true one_session).1 ≡ one_session))
change_password-Revokes_example = change_password-Revokes signing_crypto "p" "h" true one_session
