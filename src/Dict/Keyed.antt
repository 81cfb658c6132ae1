-- ===== src/Dict/Keyed.antt =====
-- Dicts whose values know their own key, such as tasks under their ids: each value stands under its
-- key, once.
use tonghuashun.Base.{
  String, ◌≡◌, refl, sym, subst, ◌∙◌, none, some, List, [], ◌∷◌, arith, ◌==◌, eq_iff, eq_refl, All,
  Bool-cases, inl, inr,
}
use tonghuashun.Dict.{Dict, get, put, pop, values, get-put, get-pop}

module _ {ℓ} {V : Type ℓ} (key : V → String) where
  abbrev pub IsKeyed : Dict V → Type ℓ
  IsKeyed [] = Unit
  IsKeyed ((j, t) ∷ d) = (key t ≡ j) × (get j d ≡ none) × IsKeyed d

  pub put-IsKeyed : (k : String) (t : V) (d : Dict V) → key t ≡ k → IsKeyed d → IsKeyed (put k t d)
  unfolding put get
  put-IsKeyed k t [] e h = (e, refl, tt)
  put-IsKeyed k t ((j, w) ∷ d) e h = elim (Bool-cases (j == k)) [
    | inl same ↦ rw same (e ∙ sym ((eq_iff j k).0 same), h.1, h.2)
    | inr other ↦ rw other (
      h.0,
      get-put k j t d ∙ ground (arith, eq_iff k j, eq_iff j k, h.1),
      put-IsKeyed k t d e h.2,
    )
  ]

  pub pop-IsKeyed : (k : String) (d : Dict V) → IsKeyed d → IsKeyed (pop k d)
  unfolding pop
  pop-IsKeyed k [] h = tt
  pop-IsKeyed k ((j, w) ∷ d) h = elim (Bool-cases (j == k)) [
    | inl same ↦ rw same (pop-IsKeyed k d h.2)
    | inr other ↦ rw other (h.0, get-pop k j d ∙ ground (arith, h.1), pop-IsKeyed k d h.2)
  ]

  All-get-cons :
      (j : String) (w : V) (d : Dict V) (ts : List V)
      → get j d ≡ none
      → All (λ t. get (key t) d ≡ some t) ts
      → All (λ t. get (key t) ((j, w) ∷ d) ≡ some t) ts
  unfolding get
  All-get-cons j w d [] e h = tt
  All-get-cons j w d (t ∷ ts) e h =
      (ground (arith, eq_iff j (key t), h.0, e), All-get-cons j w d ts e h.1)

  -- Each value is found under its key.
  pub get-values : (d : Dict V) → IsKeyed d → All (λ t. get (key t) d ≡ some t) (values d)
  unfolding get
  get-values [] h = tt
  get-values ((j, w) ∷ d) h =
      (rw h.0 (rw (eq_refl j)), All-get-cons j w d (values d) h.1 (get-values d h.2))

  pub get-key : (k : String) (d : Dict V) (v : V) → IsKeyed d → get k d ≡ some v → key v ≡ k
  unfolding get
  get-key k [] v h e = absurd (ground arith)
  get-key k ((j, w) ∷ d) v h e = elim (Bool-cases (j == k)) [
    | inl same ↦ subst (λ u. key u ≡ k) (ground arith) (h.0 ∙ (eq_iff j k).0 same)
    | inr other ↦ get-key k d v h.2 (rw other at e)
  ]
