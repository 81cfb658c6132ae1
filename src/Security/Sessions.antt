-- ===== src/Security/Sessions.antt =====
-- level2_service/security.py: how many sessions there are, and which are accepted.
use tonghuashun.Base.{
  ℕ, ◌+◌, ◌≤◌, String, ◌≡◌, refl, ◌∙◌, Bool, true, false, Option, none, some, [], ◌∷◌, ltb, leb,
  if◌then◌else◌, length, All, arith, eq_iff, Bool-cases, Option-cases, inl, inr,
}
use tonghuashun.Dict.{Dict, get, put, values}
use tonghuashun.Dict.Keyed
use tonghuashun.Dict.Sizes.{length-put-le, length-pop-lt}
use tonghuashun.Security.{
  AdminSession, AdminSessionManager, Crypto, live_sessions, prune, oldest, evict, max_sessions,
  made, new_session_id, authenticate,
}

-- Each session stands under its own id, once.
abbrev pub IsKeyed : Dict AdminSession → Type 0
IsKeyed = Keyed.IsKeyed (λ s. s.session_id)

pub length-live-le : (now : ℕ) (d : Dict AdminSession) → length (live_sessions now d) ≤ length d
unfolding live_sessions
length-live-le now [] = omega arith
length-live-le now ((j, s) ∷ d) = ground (arith, length-live-le now d)

-- A live session is one of the sessions.
pub get-live :
    (now : ℕ) (id : String) (d : Dict AdminSession)
    → IsKeyed d
    → get id (live_sessions now d) ≡ elim (get id d) as (λ _. Option AdminSession) [
      | none ↦ none
      | some s ↦ if leb s.expires_at now then none else some s
    ]
unfolding live_sessions get
get-live now id [] h = refl
get-live now id ((j, s) ∷ d) h = ground (arith, h.1, eq_iff j id, get-live now id d h.2)

pub live-IsKeyed : (now : ℕ) (d : Dict AdminSession) → IsKeyed d → IsKeyed (live_sessions now d)
unfolding live_sessions
live-IsKeyed now [] h = tt
live-IsKeyed now ((j, s) ∷ d) h = elim (Bool-cases (leb s.expires_at now)) [
  | inl e ↦ rw e (live-IsKeyed now d h.2)
  | inr e ↦ rw e (h.0, get-live now j d h.2 ∙ ground (arith, h.1), live-IsKeyed now d h.2)
]

pick :
    (full : Dict AdminSession) (b : Bool) (s best : AdminSession)
    → get s.session_id full ≡ some s
    → get best.session_id full ≡ some best
    → get (if b then s else best).session_id full ≡ some (if b then s else best)
pick full true s best h k = h
pick full false s best h k = k

oldest-get :
    (full : Dict AdminSession) (best : AdminSession) (d : Dict AdminSession)
    → get best.session_id full ≡ some best
    → All (λ s. get s.session_id full ≡ some s) (values d)
    → get (oldest best d).session_id full ≡ some (oldest best d)
unfolding oldest
oldest-get full best [] b h = b
oldest-get full best ((j, s) ∷ d) b h =
    oldest-get full (if ltb s.expires_at best.expires_at then s else best) d
      (pick full (ltb s.expires_at best.expires_at) s best h.0 b) h.1

-- The eviction brings one session too many back to the limit.
length-evict :
    (d : Dict AdminSession)
    → IsKeyed d
    → length d ≤ max_sessions + 1
    → length (evict d) ≤ max_sessions
unfolding evict
length-evict [] h l = omega arith
length-evict ((j, s) ∷ d) h l =
    let full = (j, s) ∷ d in
    let found = Keyed.get-values (λ t. t.session_id) ((j, s) ∷ d) h in
    let old = oldest-get ((j, s) ∷ d) s d found.0 found.1 in
    elim (Bool-cases (ltb max_sessions (length ((j, s) ∷ d)))) [
      | inl e ↦
          rw e (omega (arith, length-pop-lt (oldest s d).session_id ((j, s) ∷ d) (oldest s d) old))
      | inr e ↦ rw e (ground arith)
    ]

module _ (k : Crypto) where
  -- A login never takes the number of sessions past 2048; each session stands under its own id.
  pub authenticate-bounded :
      (password nonce csrf : String) (now later : ℕ) (m : AdminSessionManager)
      → IsKeyed m.sessions
      → length m.sessions ≤ max_sessions
      → length (authenticate k password nonce csrf now later m).1.sessions ≤ max_sessions
  unfolding authenticate prune
  authenticate-bounded password nonce csrf now later m h l = elim (Option-cases m.password_hash) [
    | inl e ↦ rw (e, authenticate) l
    | inr (hash, e) ↦ elim (Bool-cases (k.verify hash password)) [
      | inr n ↦ rw (e, authenticate, n) l
      | inl y ↦
          let session = made (new_session_id k m.session_secret nonce) csrf (now + m.session_ttl) in
          let live = live_sessions later m.sessions in
          rw (e, authenticate, y)
            (length-evict (put session.session_id session live)
              (Keyed.put-IsKeyed (λ t. t.session_id) session.session_id session live refl
                (live-IsKeyed later m.sessions h))
              (omega (
                arith,
                length-put-le session.session_id session live,
                length-live-le later m.sessions,
              )))
    ]
  ]
