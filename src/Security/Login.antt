-- ===== src/Security/Login.antt =====
-- level2_service/security.py: authenticate and valid_session together.
use Prim.Native.Char.{code}
use tonghuashun.Base.{
  ℕ, ◌+◌, ◌≤◌, ◌<◌, String, ◌≡◌, ◌≢◌, ◌⊎◌, refl, sym, subst, ◌∙◌, Bool, true, false, Option, none,
  some, [], ◌∷◌, ◌==◌, nat_eq, join, length, arith, eq_refl, Bool-cases, Option-cases, inl, inr,
}
use tonghuashun.Dict.{Dict, get, put, get-put}
use tonghuashun.Dict.Keyed
use tonghuashun.Dict.Sizes.{length-put-le}
use tonghuashun.Security.{
  AdminSession, AdminSessionManager, Crypto, rsplit_dot, live_sessions, prune, evict, max_sessions,
  made, new_session_id, valid_session_id, authenticate, checked_session, valid_session,
  change_password, live_failures,
}
use tonghuashun.Security.Sessions.{IsKeyed, length-live-le, get-live, live-IsKeyed}

-- The text has no dot.
abbrev pub IsPlain : String → Type 0
IsPlain String.[] = Unit
IsPlain (String.◌∷◌ c s) = (nat_eq (code c) b'.' ≡ false) × IsPlain s

rsplit-plain : (s : String) → IsPlain s → rsplit_dot s ≡ none
unfolding rsplit_dot
rsplit-plain String.[] h = refl
rsplit-plain (String.◌∷◌ c s) h = rw (rsplit-plain s h.1) (rw h.0 refl)

-- A text is split where a plain text was joined to it.
rsplit-join :
    (nonce signature : String)
    → IsPlain signature
    → rsplit_dot (join nonce (join "." signature)) ≡ some (nonce, signature)
unfolding rsplit_dot
rsplit-join String.[] signature h = rw (rsplit-plain signature h) refl
rsplit-join (String.◌∷◌ c s) signature h = rw (rsplit-join s signature h) refl

-- Where there is room, nothing is evicted.
evict-room : (d : Dict AdminSession) → length d ≤ max_sessions → evict d ≡ d
unfolding evict
evict-room [] h = refl
evict-room ((j, s) ∷ d) h = ground arith

module _ (k : Crypto) where
  -- An id that the manager makes passes its own test.
  new-valid :
      (secret : Option String) (nonce : String)
      → ((key text : String) → IsPlain (k.sign key text))
      → valid_session_id k secret (new_session_id k secret nonce) ≡ true
  unfolding valid_session_id new_session_id
  new-valid none nonce h = refl
  new-valid (some key) nonce h =
      rw (valid_session_id, new_session_id, rsplit-join nonce (k.sign key nonce) (h key nonce))
        (eq_refl (k.sign key nonce))

  -- A stored session that has not ended is accepted.
  accepts-stored :
      (id : String) (now later : ℕ) (m : AdminSessionManager) (session : AdminSession)
      → IsKeyed m.sessions
      → get id m.sessions ≡ some session
      → (id == "") ≡ false
      → valid_session_id k m.session_secret id ≡ true
      → now < session.expires_at
      → later < session.expires_at
      → (valid_session k (some id) now later m).0 ≡ some session
  unfolding valid_session checked_session prune
  accepts-stored id now later m session h g n v a b =
      ground (arith, get-live now id m.sessions h, g, n, v)

  -- The sessions after a login with room, with the new one under its id.
  stored_after :
      (later : ℕ) (session : AdminSession) (d : Dict AdminSession)
      → IsKeyed d
      → length d < max_sessions
      → evict (put session.session_id session (live_sessions later d))
        ≡ put session.session_id session (live_sessions later d)
  stored_after later session d h l =
      evict-room (put session.session_id session (live_sessions later d)) (
        omega (
          arith,
          length-put-le session.session_id session (live_sessions later d),
          length-live-le later d,
        ))

  -- The manager that a login leaves.
  abbrev after_login : ℕ → AdminSession → AdminSessionManager → AdminSessionManager
  unfolding prune
  after_login later session m = record (prune later m) {
    sessions = evict (put session.session_id session (live_sessions later m.sessions));
  }

  logged_in :
      (later t u : ℕ) (session : AdminSession) (m : AdminSessionManager)
      → IsKeyed m.sessions
      → length m.sessions < max_sessions
      → valid_session_id k m.session_secret session.session_id ≡ true
      → (session.session_id == "") ≡ false
      → t < session.expires_at
      → u < session.expires_at
      → (valid_session k (some session.session_id) t u (after_login later session m)).0
        ≡ some session
  unfolding after_login
  logged_in later t u session m h l v n a b =
      let live = live_sessions later m.sessions in
      rw (stored_after later session m.sessions h l) (
        accepts-stored session.session_id t u
          (record (prune later m) { sessions = put session.session_id session live }) session
          (Keyed.put-IsKeyed (λ x. x.session_id) session.session_id session live refl
            (live-IsKeyed later m.sessions h))
          (get-put session.session_id session.session_id session live
            ∙ rw (eq_refl session.session_id) refl)
          n v a b)

  -- The session of a successful login is accepted under its id until it ends, if there was room for
  -- one more session, each session stands under its own id, the new id is not empty, and signatures
  -- have no dot.
  pub authenticate-valid_session :
      (password nonce csrf : String) (now later : ℕ) (m : AdminSessionManager)
      (session : AdminSession)
      → (authenticate k password nonce csrf now later m).0 ≡ some session
      → ((key text : String) → IsPlain (k.sign key text))
      → IsKeyed m.sessions
      → length m.sessions < max_sessions
      → (session.session_id == "") ≡ false
      → (t u : ℕ) → t < session.expires_at
      → u < session.expires_at
      → (valid_session k
          (some session.session_id)
          t
          u
          (authenticate k password nonce csrf now later m).1).0
        ≡ some session
  unfolding authenticate prune after_login
  authenticate-valid_session password nonce csrf now later m session e p h l n t u a b =
      elim (Option-cases m.password_hash) [
        | inl g ↦ absurd (ground arith)
        | inr (hash, g) ↦ elim (Bool-cases (k.verify hash password)) [
          | inr wrong ↦ absurd (ground arith)
          | inl y ↦
              let fresh =
                made (new_session_id k m.session_secret nonce) csrf (now + m.session_ttl) in
              let same : fresh ≡ session = ground arith in
              rw (g, authenticate, y)
                (subst
                  (λ x.
                    (valid_session k (some x.session_id) t u (after_login later fresh m)).0
                    ≡ some x)
                  same
                  (logged_in later t u fresh m h l (new-valid m.session_secret nonce p)
                    (subst (λ x. (x.session_id == "") ≡ false) (sym same) n)
                    (subst (λ x. t < x.expires_at) (sym same) a)
                    (subst (λ x. u < x.expires_at) (sym same) b)))
        ]
      ]

  no_session :
      (id : Option String) (t u : ℕ) (replacement : String) (m : AdminSessionManager)
      → (valid_session k id t u
          (record m { password_hash = some replacement; sessions = []; login_failures = [] })).0
        ≡ none
  unfolding valid_session checked_session prune live_sessions live_failures get
  no_session none t u replacement m = refl
  no_session (some id) t u replacement m = ground arith

  -- After a password is changed no session id is accepted, and a refused or failed change leaves
  -- everything as it was.
  pub change_password-Revokes :
      (current replacement : String) (persisted : Bool) (m : AdminSessionManager)
      → (((change_password k current replacement persisted m).0 ≡ some true)
          × ((id : Option String) (t u : ℕ)
              → (valid_session k id t u (change_password k current replacement persisted m).1).0
                ≡ none))
        ⊎ (((change_password k current replacement persisted m).0 ≢ some true)
            × ((change_password k current replacement persisted m).1 ≡ m))
  unfolding change_password
  change_password-Revokes current replacement persisted m = elim (Option-cases m.password_hash) [
    | inl g ↦ inr (λ h. absurd (ground arith), ground arith)
    | inr (hash, g) ↦ elim (Bool-cases (k.verify hash current)) [
      | inr wrong ↦ inr (λ h. absurd (ground arith), ground arith)
      | inl y ↦ elim (Bool-cases persisted) [
        | inr kept ↦ inr (λ h. absurd (ground arith), ground arith)
        | inl stored ↦ inl (
          rw (g, change_password, y, stored) refl,
          λ id t u. rw (g, change_password, y, stored) (no_session id t u replacement m),
        )
      ]
    ]
  ]
