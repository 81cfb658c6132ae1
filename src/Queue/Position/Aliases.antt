-- ===== src/Queue/Position/Aliases.antt =====
-- level2_service/queue.py: the loop of resolve_task_id over the aliases.
use tonghuashun.Base.{
  ℕ, zero, suc, ◌+◌, ◌≤◌, ◌<◌, ◌≡◌, refl, sym, subst, String, true, false, Option, none, some, List,
  [], ◌∷◌, arith, ◌==◌, eq_iff, Bool-cases, Option-cases, ◌⊎◌, inl, inr, All, contains, length,
  is_some,
}
use tonghuashun.Dict.{Dict, get, pop, get-pop}
use tonghuashun.Dict.Sizes.{length-pop-lt}
use tonghuashun.Queue.{Streams}
use tonghuashun.Queue.Position.{follow, resolve_task_id}

-- One alias or more lead from a name to another.
pub data Follows (d : Dict String) (a : String) : String → Type 0 where
  link : {b : String} → get a d ≡ some b → Follows d a b
  more : {b c : String} → Follows d a b → get b d ≡ some c → Follows d a c

abbrev IsDistinct : List String → Type 0
IsDistinct [] = Unit
IsDistinct (v ∷ vs) = (contains v vs ≡ false) × IsDistinct vs

abbrev AreKeys : Dict String → List String → Type 0
AreKeys d = All (λ v. is_some (get v d) ≡ true)

AreKeys-pop :
    (k : String) (d : Dict String) (vs : List String)
    → contains k vs ≡ false
    → AreKeys d vs
    → AreKeys (pop k d) vs
AreKeys-pop k d [] c h = tt
AreKeys-pop k d (v ∷ vs) c h = (
  ground (arith, get-pop k v d, eq_iff v k, eq_iff k v, h.0),
  AreKeys-pop k d vs (ground arith) h.1,
)

pop_key_lt : (k : String) (d : Dict String) → is_some (get k d) ≡ true → length (pop k d) < length d
pop_key_lt k d h = elim (Option-cases (get k d)) [
  | inl e ↦ absurd (ground arith)
  | inr (v, e) ↦ length-pop-lt k d v e
]

-- There are no more distinct keys than entries.
distinct_keys :
    (vs : List String) (d : Dict String) → IsDistinct vs → AreKeys d vs → length vs ≤ length d
distinct_keys [] d u h = omega arith
distinct_keys (v ∷ vs) d u h =
    omega (arith, pop_key_lt v d h.0, distinct_keys vs (pop v d) u.1 (AreKeys-pop v d vs u.0 h.1))

-- All visited names lead to the current one.
abbrev LeadTo : Dict String → String → List String → Type 0
LeadTo d id = All (λ v. Follows d v id)

LeadTo-next :
    (d : Dict String) (id target : String) (vs : List String)
    → get id d ≡ some target
    → LeadTo d id vs
    → LeadTo d target vs
LeadTo-next d id target [] g h = tt
LeadTo-next d id target (v ∷ vs) g h = (more h.0 g, LeadTo-next d id target vs g h.1)

visited_again :
    (d : Dict String) (id : String) (vs : List String)
    → LeadTo d id vs
    → contains id vs ≡ true
    → Follows d id id
visited_again d id [] h c = absurd (ground arith)
visited_again d id (v ∷ vs) h c = elim (Bool-cases (v == id)) [
  | inl e ↦ subst (λ x. Follows d x id) ((eq_iff v id).0 e) h.0
  | inr n ↦ visited_again d id vs h.1 (ground arith)
]

-- What a name resolves to: itself, or a name that aliases lead to, and from there no alias leads on,
-- unless the aliases run in a circle.
pub record Resolves (d : Dict String) (id : String) (result : Option String) : Type 0 where
  pub target : String
  pub returned : result ≡ some target
  pub reached : (target ≡ id) ⊎ Follows d id target
  pub last : (get target d ≡ none) ⊎ Follows d target target

Resolves-next :
    (d : Dict String) (id target : String) (result : Option String)
    → get id d ≡ some target
    → Resolves d target result
    → Resolves d id result
Resolves-next d id target result g r = record {
  target = r.target;
  returned = r.returned;
  reached = elim r.reached [
    | inl e ↦ inr (subst (Follows d id) (sym e) (link g))
    | inr f ↦ inr (before f)
  ];
  last = r.last;
}
  where
    before : {b : String} → Follows d target b → Follows d id b
    before (link h) = more (link g) h
    before (more f h) = more (before f) h

follow-Resolves :
    (fuel : ℕ) (d : Dict String) (visited : List String) (id : String)
    → length d < fuel + length visited
    → IsDistinct visited
    → AreKeys d visited
    → LeadTo d id visited
    → Resolves d id (follow fuel d visited id)
unfolding follow
follow-Resolves zero d visited id f u k l = absurd (omega (arith, distinct_keys visited d u k))
follow-Resolves (suc fuel) d visited id f u k l = elim (Option-cases (get id d)) [
  | inl g ↦
      rw (g, follow) (record { target = id; returned = refl; reached = inl refl; last = inl g })
  | inr (target, g) ↦ elim (Bool-cases (contains id visited)) [
    | inl c ↦
        rw (g, follow, c)
          (record {
            target = id;
            returned = refl;
            reached = inl refl;
            last = inr (visited_again d id visited l c);
          })
    | inr n ↦
        rw (g, follow, n)
          (Resolves-next d id target (follow fuel d (id ∷ visited) target) g (
            follow-Resolves fuel d (id ∷ visited) target (omega arith) (n, u) (ground arith, k)
              (link g, LeadTo-next d id target visited g l)))
  ]
]

-- The loop of resolve_task_id always ends: the rounds allowed are enough, and the name that it
-- returns is the given one or one that aliases lead to, and it is no alias itself unless the aliases
-- run in a circle through it.
pub resolve_task_id-Resolves :
    (id : String) (s : Streams) → Resolves s.aliases id (resolve_task_id id s)
unfolding resolve_task_id
resolve_task_id-Resolves id s =
    follow-Resolves (suc (length s.aliases)) s.aliases [] id (omega arith) tt tt tt
