-- ===== src/Security/Throttle.antt =====
-- level2_service/security.py: login_allowed and the failures of the last minute.
use tonghuashun.Base.{
  ℕ, suc, ◌+◌, ◌≤◌, ◌<◌, ◌↔◌, String, ◌≡◌, refl, ap, ◌∙◌, Bool, true, Option, none, some, List, [],
  ◌∷◌, ltb, length, count_if, arith, eq_iff, Bool-cases, Option-cases, inl, inr,
}
use tonghuashun.Dict.{Dict, get, get_or}
use tonghuashun.Security.{
  AdminSessionManager, recent, live_failures, prune, allowed_after, login_allowed,
  login_failure_limit, login_failure_window,
}

-- Failures in the order of time.
abbrev pub IsSorted : List ℕ → Type 0
IsSorted [] = Unit
IsSorted (f ∷ []) = Unit
IsSorted (f ∷ g ∷ fs) = (f ≤ g) × IsSorted (g ∷ fs)

-- No key stands twice.
abbrev pub IsNodup : Dict (List ℕ) → Type 0
IsNodup [] = Unit
IsNodup ((j, v) ∷ d) = (get j d ≡ none) × IsNodup d

-- The failure lies within the last minute.
pub in_window : ℕ → ℕ → Bool
in_window now f = ltb now (f + login_failure_window)

IsSorted-tail : (f : ℕ) (fs : List ℕ) → IsSorted (f ∷ fs) → IsSorted fs
IsSorted-tail f [] h = tt
IsSorted-tail f (g ∷ fs) h = h.1

-- In a sorted list all is within the window from the first such failure on.
count-all :
    (now f : ℕ) (fs : List ℕ)
    → in_window now f ≡ true
    → IsSorted (f ∷ fs)
    → count_if (in_window now) (f ∷ fs) ≡ suc (length fs)
unfolding in_window
count-all now f [] w h = ground arith
count-all now f (g ∷ fs) w h = ground (arith, count-all now g fs (ground arith) h.1)

length-recent :
    (now : ℕ) (fs : List ℕ) → IsSorted fs → length (recent now fs) ≡ count_if (in_window now) fs
unfolding recent in_window
length-recent now [] h = refl
length-recent now (f ∷ fs) h = elim (Bool-cases (in_window now f)) [
  | inl w ↦ ground (arith, count-all now f fs w h)
  | inr o ↦ ground (arith, length-recent now fs (IsSorted-tail f fs h))
]

-- What is stale stays stale.
recent-recent :
    (now later : ℕ) (fs : List ℕ) → now ≤ later → recent later (recent now fs) ≡ recent later fs
unfolding recent
recent-recent now later [] h = refl
recent-recent now later (f ∷ fs) h = ground (arith, recent-recent now later fs h)

abbrev pruned : ℕ → Option (List ℕ) → Option (List ℕ)
pruned now none = none
pruned now (some fs) = elim (recent now fs) [ [] ↦ none | g ∷ gs ↦ some (g ∷ gs) ]

get-live_failures :
    (now : ℕ) (id : String) (d : Dict (List ℕ))
    → IsNodup d
    → get id (live_failures now d) ≡ pruned now (get id d)
unfolding live_failures get
get-live_failures now id [] h = refl
get-live_failures now id ((j, fs) ∷ d) h =
    ground (arith, h.0, eq_iff j id, get-live_failures now id d h.1)

allowed-count :
    (now later : ℕ) (id : String) (m : AdminSessionManager) (fs : List ℕ)
    → now ≤ later
    → IsSorted fs
    → get id m.login_failures ≡ pruned now (some fs)
    → (allowed_after id later m).0 ≡ ltb (count_if (in_window later) fs) login_failure_limit
unfolding allowed_after
allowed-count now later id m fs h s g =
    ground (arith, length-recent later fs s, recent-recent now later fs h)

-- A login is allowed exactly if fewer than five of the recorded failures of the identifier lie
-- within the last minute; the failures are recorded in the order of time, and no identifier has two
-- records.
pub login_allowed_iff :
    (id : String) (now later : ℕ) (m : AdminSessionManager)
    → now ≤ later
    → IsNodup m.login_failures
    → IsSorted (get_or id [] m.login_failures)
    → ((login_allowed id now later m).0 ≡ true)
      ↔ (count_if (in_window later) (get_or id [] m.login_failures) < 5)
unfolding login_allowed prune
login_allowed_iff id now later m h n s = elim (Option-cases (get id m.login_failures)) [
  | inl g ↦
      let empty : get_or id [] m.login_failures ≡ [] = ground arith in
      (
        λ _. rw empty (omega arith),
        λ _. ground (arith, g, get-live_failures now id m.login_failures n),
      )
  | inr (fs, g) ↦
      let same : get_or id [] m.login_failures ≡ fs = ground arith in
      let count =
        allowed-count now later id (prune now m) fs h (rw same at s)
          (get-live_failures now id m.login_failures n ∙ ap (pruned now) g) in
      (λ a. rw same (ground (arith, count)), λ b. ground (arith, count, (rw same at b)))
]
