-- ===== src/Tests/Codes.antt =====
-- The market codes of level2_service/parsed_values.py at a concrete symbol.
use tonghuashun.Base.{◌≡◌, ◌↔◌, refl, true, false, some}
use tonghuashun.Symbols.{Market, in_family, is_six_digits, market_code_for_symbol}
use tonghuashun.Symbols.Families.{market_code_for_symbol_iff}

market_code_for_symbol_iff_example :
    (market_code_for_symbol (λ _. false) "513100" ≡ some Market.shanghai_fund)
    ↔ (in_family "513100" Market.shanghai_fund ≡ true)
unfolding is_six_digits
market_code_for_symbol_iff_example =
    market_code_for_symbol_iff (λ _. false) "513100" Market.shanghai_fund refl
