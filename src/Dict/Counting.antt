-- ===== src/Dict/Counting.antt =====
-- How many values of a dict pass a test, after a write and after a removal.
use tonghuashun.Base.{
  String, ℕ, ◌+◌, ◌≤◌, ◌≡◌, Bool, Option, none, some, [], ◌∷◌, arith, if◌then◌else◌,
}
use tonghuashun.Dict.{Dict, get, put, pop}

module _ {ℓ} {V : Type ℓ} (p : V → Bool) where
  abbrev pub count_values : Dict V → ℕ
  count_values [] = 0
  count_values ((j, v) ∷ d) = (if p v then 1 else 0) + count_values d

  abbrev pub weight : Option V → ℕ
  weight none = 0
  weight (some v) = if p v then 1 else 0

  -- A write replaces the old value under its key in the count.
  pub count-put :
      (k : String) (v : V) (d : Dict V)
      → count_values (put k v d) + weight (get k d) ≡ count_values d + weight (some v)
  unfolding get put
  count-put k v [] = ground arith
  count-put k v ((j, w) ∷ d) = ground (arith, count-put k v d)

  pub count-pop-le : (k : String) (d : Dict V) → count_values (pop k d) ≤ count_values d
  unfolding pop
  count-pop-le k [] = omega arith
  count-pop-le k ((j, w) ∷ d) = ground (arith, count-pop-le k d)
