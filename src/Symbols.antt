-- ===== src/Symbols.antt =====
-- level2_service/parsed_values.py: the market code of a symbol. The text is given without the white
-- space around it, and a text of other digits than 0 to 9 counts by `other_digit`.
pub mod Families
use Prim.Native.Char.{code}
use tonghuashun.Base.{
  ℕ, String, Bool, true, false, ◌&&◌, ◌||◌, not, Option, none, some, List, [], ◌∷◌, leb, nat_eq,
  any, all, length, if◌then◌else◌,
}
use tonghuashun.Queue.{codes}

-- The market codes 17, 33, 151, 20 and 36.
pub data Market : Type 0 where
  shanghai shenzhen beijing shanghai_fund shenzhen_fund : Market

-- SHANGHAI_PREFIXES, SHENZHEN_PREFIXES, BEIJING_PREFIXES and those of the funds.
abbrev pub prefixes : Market → List String
prefixes Market.shanghai = "600" ∷ "601" ∷ "603" ∷ "605" ∷ "688" ∷ "689" ∷ []
prefixes Market.shenzhen = "000" ∷ "001" ∷ "002" ∷ "003" ∷ "300" ∷ "301" ∷ []
prefixes Market.beijing = "920" ∷ []
prefixes Market.shanghai_fund =
    "501" ∷ "502" ∷ "506" ∷ "508" ∷ "510" ∷ "511" ∷ "512" ∷ "513" ∷ "515" ∷ "516" ∷ "517" ∷ "518"
    ∷ "519" ∷ "520" ∷ "526" ∷ "530" ∷ "551" ∷ "560" ∷ "561" ∷ "562" ∷ "563" ∷ "588" ∷ "589" ∷ []
prefixes Market.shenzhen_fund =
    "158" ∷ "159" ∷ "160" ∷ "161" ∷ "162" ∷ "163" ∷ "164" ∷ "165" ∷ "166" ∷ "167" ∷ "168" ∷ "169"
    ∷ "180" ∷ []

-- `startswith`, on the codes of the characters.
abbrev pub starts_with : List ℕ → List ℕ → Bool
starts_with [] s = true
starts_with (p ∷ ps) [] = false
starts_with (p ∷ ps) (c ∷ s) = nat_eq p c && starts_with ps s

unfoldable pub in_family : String → Market → Bool
in_family s m = any (λ p. starts_with (codes p) (codes s)) (prefixes m)

module _ (other_digit : ℕ → Bool) where
  unfoldable pub is_six_digits : String → Bool
  is_six_digits s =
      nat_eq (length (codes s)) 6
      && all (λ c. (leb b'0' c && leb c b'9') || other_digit c) (codes s)

  -- market_code_for_symbol; `none` is an UnsupportedMarketError.
  unfoldable pub market_code_for_symbol : String → Option Market
  unfolding is_six_digits in_family
  market_code_for_symbol s =
      if not (is_six_digits s)
      then none
      else if in_family s Market.shanghai
      then some Market.shanghai
      else if in_family s Market.shenzhen
      then some Market.shenzhen
      else if in_family s Market.beijing
      then some Market.beijing
      else if in_family s Market.shanghai_fund
      then some Market.shanghai_fund
      else if in_family s Market.shenzhen_fund
      then some Market.shenzhen_fund
      else none
