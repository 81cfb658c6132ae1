-- ===== src/Dict/Sizes.antt =====
-- How many entries a dict has after a write and after a removal.
use tonghuashun.Base.{String, ◌+◌, ◌≤◌, ◌<◌, ◌≡◌, some, [], ◌∷◌, arith, length}
use tonghuashun.Dict.{Dict, get, put, pop}

module _ {ℓ} {V : Type ℓ} where
  pub length-put-le : (k : String) (v : V) (d : Dict V) → length (put k v d) ≤ length d + 1
  unfolding put
  length-put-le k v [] = omega arith
  length-put-le k v ((j, w) ∷ d) = ground (arith, length-put-le k v d)

  pub length-pop-le : (k : String) (d : Dict V) → length (pop k d) ≤ length d
  unfolding pop
  length-pop-le k [] = omega arith
  length-pop-le k ((j, w) ∷ d) = ground (arith, length-pop-le k d)

  pub length-pop-lt :
      (k : String) (d : Dict V) (v : V) → get k d ≡ some v → length (pop k d) < length d
  unfolding pop get
  length-pop-lt k [] v h = absurd (ground arith)
  length-pop-lt k ((j, w) ∷ d) v h = ground (arith, length-pop-le k d, length-pop-lt k d v)
