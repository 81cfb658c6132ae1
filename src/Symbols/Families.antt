-- ===== src/Symbols/Families.antt =====
-- level2_service/parsed_values.py: the prefixes of the markets and the order of the tests.
use tonghuashun.Base.{
  ℕ, String, ◌≡◌, ◌↔◌, refl, Bool, true, false, ◌||◌, not, Option, none, some, List, [], ◌∷◌, arith,
  nat_eq, any, all, if◌then◌else◌, Bool-cases, inl, inr,
}
use tonghuashun.Queue.{codes}
use tonghuashun.Symbols.{
  Market, prefixes, starts_with, in_family, is_six_digits, market_code_for_symbol,
}

-- Two texts of one length that differ somewhere.
abbrev differ : List ℕ → List ℕ → Bool
differ [] qs = false
differ (p ∷ ps) [] = false
differ (p ∷ ps) (q ∷ qs) = not (nat_eq p q) || differ ps qs

-- No text starts with both of two prefixes that differ somewhere.
one_prefix :
    (ps qs s : List ℕ) → differ ps qs ≡ true → starts_with ps s ≡ true → starts_with qs s ≡ false
one_prefix [] qs s d h = absurd (ground arith)
one_prefix (p ∷ ps) [] s d h = absurd (ground arith)
one_prefix (p ∷ ps) (q ∷ qs) [] d h = refl
one_prefix (p ∷ ps) (q ∷ qs) (c ∷ s) d h = ground (arith, one_prefix ps qs s)

none_of :
    (p : String) (qs : List String) (s : List ℕ)
    → all (λ q. differ (codes p) (codes q)) qs ≡ true
    → starts_with (codes p) s ≡ true
    → any (λ q. starts_with (codes q) s) qs ≡ false
none_of p [] s d h = refl
none_of p (q ∷ qs) s d h = ground (arith, one_prefix (codes p) (codes q) s, none_of p qs s)

disjoint :
    (ps qs : List String) (s : List ℕ)
    → all (λ p. all (λ q. differ (codes p) (codes q)) qs) ps ≡ true
    → any (λ p. starts_with (codes p) s) ps ≡ true
    → any (λ q. starts_with (codes q) s) qs ≡ false
disjoint [] qs s d h = absurd (ground arith)
disjoint (p ∷ ps) qs s d h = elim (Bool-cases (starts_with (codes p) s)) [
  | inl y ↦ none_of p qs s (ground arith) y
  | inr n ↦ disjoint ps qs s (ground arith) (ground arith)
]

-- The prefixes of two markets.
abbrev AreApart : Market → Market → Type 0
AreApart m n = all (λ p. all (λ q. differ (codes p) (codes q)) (prefixes n)) (prefixes m) ≡ true

only : (s : String) (m n : Market) → AreApart m n → in_family s m ≡ true → in_family s n ≡ false
unfolding in_family
only s m n d h = disjoint (prefixes m) (prefixes n) (codes s) d h

-- The chain of tests, on their results.
abbrev first_of : Bool → Bool → Bool → Bool → Bool → Option Market
first_of a b c d e =
    if a
    then some Market.shanghai
    else if b
    then some Market.shenzhen
    else if c
    then some Market.beijing
    else if d
    then some Market.shanghai_fund
    else if e
    then some Market.shenzhen_fund
    else none

first_of-shanghai : (a b c d e : Bool) → (first_of a b c d e ≡ some Market.shanghai) ↔ (a ≡ true)
first_of-shanghai a b c d e = ground arith

first_of-shenzhen :
    (a b c d e : Bool)
    → (b ≡ true → a ≡ false)
    → (first_of a b c d e ≡ some Market.shenzhen) ↔ (b ≡ true)
first_of-shenzhen a b c d e a' = ground arith

first_of-beijing :
    (a b c d e : Bool)
    → (c ≡ true → a ≡ false)
    → (c ≡ true → b ≡ false)
    → (first_of a b c d e ≡ some Market.beijing) ↔ (c ≡ true)
first_of-beijing a b c d e a' b' = ground arith

first_of-shanghai_fund :
    (a b c d e : Bool)
    → (d ≡ true → a ≡ false)
    → (d ≡ true → b ≡ false)
    → (d ≡ true → c ≡ false)
    → (first_of a b c d e ≡ some Market.shanghai_fund) ↔ (d ≡ true)
first_of-shanghai_fund a b c d e a' b' c' = ground arith

first_of-shenzhen_fund :
    (a b c d e : Bool)
    → (e ≡ true → a ≡ false)
    → (e ≡ true → b ≡ false)
    → (e ≡ true → c ≡ false)
    → (e ≡ true → d ≡ false)
    → (first_of a b c d e ≡ some Market.shenzhen_fund) ↔ (e ≡ true)
first_of-shenzhen_fund a b c d e a' b' c' d' = ground arith

module _ (other_digit : ℕ → Bool) where
  -- A text of six digits has the market code exactly if it starts with one of the prefixes of that
  -- market: the order of the tests does not matter.
  pub market_code_for_symbol_iff :
      (s : String) (m : Market)
      → is_six_digits other_digit s ≡ true
      → (market_code_for_symbol other_digit s ≡ some m) ↔ (in_family s m ≡ true)
  unfolding market_code_for_symbol
  market_code_for_symbol_iff s Market.shanghai six = rw six (
      first_of-shanghai (in_family s Market.shanghai) (in_family s Market.shenzhen)
        (in_family s Market.beijing) (in_family s Market.shanghai_fund)
        (in_family s Market.shenzhen_fund))
  market_code_for_symbol_iff s Market.shenzhen six = rw six (
      first_of-shenzhen (in_family s Market.shanghai) (in_family s Market.shenzhen)
        (in_family s Market.beijing) (in_family s Market.shanghai_fund)
        (in_family s Market.shenzhen_fund) (only s Market.shenzhen Market.shanghai refl))
  market_code_for_symbol_iff s Market.beijing six = rw six (
      first_of-beijing (in_family s Market.shanghai) (in_family s Market.shenzhen)
        (in_family s Market.beijing) (in_family s Market.shanghai_fund)
        (in_family s Market.shenzhen_fund) (only s Market.beijing Market.shanghai refl)
        (only s Market.beijing Market.shenzhen refl))
  market_code_for_symbol_iff s Market.shanghai_fund six = rw six (
      first_of-shanghai_fund (in_family s Market.shanghai) (in_family s Market.shenzhen)
        (in_family s Market.beijing) (in_family s Market.shanghai_fund)
        (in_family s Market.shenzhen_fund) (only s Market.shanghai_fund Market.shanghai refl)
        (only s Market.shanghai_fund Market.shenzhen refl)
        (only s Market.shanghai_fund Market.beijing refl))
  market_code_for_symbol_iff s Market.shenzhen_fund six = rw six (
      first_of-shenzhen_fund (in_family s Market.shanghai) (in_family s Market.shenzhen)
        (in_family s Market.beijing) (in_family s Market.shanghai_fund)
        (in_family s Market.shenzhen_fund) (only s Market.shenzhen_fund Market.shanghai refl)
        (only s Market.shenzhen_fund Market.shenzhen refl)
        (only s Market.shenzhen_fund Market.beijing refl)
        (only s Market.shenzhen_fund Market.shanghai_fund refl))
