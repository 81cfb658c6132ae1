-- ===== src/Dict.antt =====
-- Python's `dict` with text keys, as an association list in insertion order: a new key goes to the
-- end, an old key keeps its place. `list(d.items())` is the list itself.
pub mod Counting
pub mod Keyed
pub mod Sizes
use tonghuashun.Base.{
  String, ◌≡◌, Bool, true, false, Option, none, some, List, [], ◌∷◌, ◌++◌, map, arith, ◌==◌, eq_iff,
  if◌then◌else◌, is_some, keep,
}

abbrev pub Dict {ℓ} : Type ℓ → Type ℓ
Dict V = List (String × V)

module _ {ℓ} {V : Type ℓ} where
  -- d.get(k)
  unfoldable pub get : String → Dict V → Option V
  get k [] = none
  get k ((j, v) ∷ d) = if j == k then some v else get k d

  -- d[k] = v
  unfoldable pub put : String → V → Dict V → Dict V
  put k v [] = (k, v) ∷ []
  put k v ((j, w) ∷ d) = if j == k then (j, v) ∷ d else (j, w) ∷ put k v d

  -- d.pop(k, None)
  unfoldable pub pop : String → Dict V → Dict V
  pop k [] = []
  pop k ((j, v) ∷ d) = let rest = pop k d in if j == k then rest else (j, v) ∷ rest

  -- d.setdefault(k, dflt), as the value that is then found under `k`
  abbrev pub get_or : String → V → Dict V → V
  get_or k dflt d = elim (get k d) [ some v ↦ v | none ↦ dflt ]

  -- d.values()
  abbrev pub values : Dict V → List V
  values [] = []
  values ((j, v) ∷ d) = v ∷ values d

  pub get-put :
      (k j : String) (v : V) (d : Dict V) → get j (put k v d) ≡ (if k == j then some v else get j d)
  unfolding get put
  get-put k j v [] = ground arith
  get-put k j v ((i, w) ∷ d) = ground (arith, eq_iff k j, eq_iff i k, eq_iff i j, get-put k j v d)

  pub get-pop : (k j : String) (d : Dict V) → get j (pop k d) ≡ (if k == j then none else get j d)
  unfolding get pop
  get-pop k j [] = ground arith
  get-pop k j ((i, w) ∷ d) = ground (arith, eq_iff k j, eq_iff i k, eq_iff i j, get-pop k j d)

  -- A value that is written over and back again leaves the dict as it was.
  pub put-put : (k : String) (v w : V) (d : Dict V) → get k d ≡ some v → put k v (put k w d) ≡ d
  unfolding get put
  put-put k v w [] h = absurd (ground arith)
  put-put k v w ((j, u) ∷ d) h = ground (arith, put-put k v w d)

pub ruleset dict_laws = (get-put, get-pop)
