-- ===== src/FundFlow/Source.antt =====
-- level2_service/database_first_fund_flow.py: `DatabaseFirstFundFlowSource`. The accounts, the store
-- and the live source are objects that it is given: what they answer is an argument, and what it
-- asks of the live source and gives to the store is recorded in the order of the calls.
pub mod Once
use tonghuashun.Base.{
  String, Bool, true, false, ◌&&◌, not, Option, none, some, List, [], ◌∷◌, ◌++◌, ◌==◌,
  if◌then◌else◌,
}
use tonghuashun.Models.{}
use tonghuashun.Models.Metrics.{Row, Period}
use tonghuashun.FundFlow.{DirectReadOutcome, outcome_from_history, periods_from_outcome}

pub data Request : Type 0 where
  read_direct : String → Request
  record_fund_flow : String → String → String → (Period → Option Row) → Request

-- An entry of `_closed_fallbacks`, whose key is the symbol with the date.
pub record Fallback : Type 0 where
  pub symbol : String
  pub date : String
  pub outcome : DirectReadOutcome

pub record FundSource : Type 0 where
  pub closed_fallbacks : List Fallback
  pub requests : List Request

-- What one read is answered, in the order of its calls: the date and the minute of the clock, two
-- looks at the watchlist, four looks at the market, the history of the store, and the live source,
-- where `none` is an exception.
pub record Answers : Type 0 where
  pub date : String
  pub minute : String
  pub watched : Bool
  pub open_for_history : Bool
  pub fresh_history : Option (Period → Row)
  pub last_history : Option (Period → Row)
  pub open_for_cache : Bool
  pub live : Option DirectReadOutcome
  pub open_for_record : Bool
  pub watched_for_record : Bool
  pub open_for_fallback : Bool

abbrev pub has_key : String → String → Fallback → Bool
has_key symbol date f = f.symbol == symbol && f.date == date

unfoldable pub find_fallback : String → String → List Fallback → Option DirectReadOutcome
find_fallback symbol date [] = none
find_fallback symbol date (f ∷ fs) =
    if has_key symbol date f then some f.outcome else find_fallback symbol date fs

unfoldable pub set_fallback : String → String → DirectReadOutcome → List Fallback → List Fallback
set_fallback symbol date o [] = record { symbol = symbol; date = date; outcome = o } ∷ []
set_fallback symbol date o (f ∷ fs) =
    let rest = set_fallback symbol date o fs in
    if has_key symbol date f then record f { outcome = o } ∷ fs else f ∷ rest

-- The first block: history for a watched symbol, fresh while the market is open.
unfoldable pub history_of : Answers → Option (Period → Row)
history_of a =
    if a.watched then (if a.open_for_history then a.fresh_history else a.last_history) else none

-- The second block: a fallback of the day while the market is closed.
unfoldable pub cached_of : Answers → String → FundSource → Option DirectReadOutcome
unfolding find_fallback
cached_of a symbol s =
    if a.open_for_cache then none else find_fallback symbol a.date s.closed_fallbacks

-- After the live source has answered.
unfoldable pub keep_live : Answers → String → DirectReadOutcome → FundSource → FundSource
unfolding set_fallback periods_from_outcome
keep_live a symbol o s = record {
  closed_fallbacks =
      if a.open_for_fallback
      then s.closed_fallbacks
      else set_fallback symbol a.date o s.closed_fallbacks;
  requests =
      if a.open_for_record && a.watched_for_record
      then s.requests
        ++ record_fund_flow symbol a.date a.minute (periods_from_outcome o.values) ∷ []
      else s.requests;
}

abbrev pub ask : String → FundSource → FundSource
ask symbol s = record s { requests = s.requests ++ read_direct symbol ∷ [] }

unfoldable pub read_live : Answers → String → FundSource → Option DirectReadOutcome × FundSource
unfolding keep_live
read_live a symbol s = elim a.live [
  | none ↦ (none, ask symbol s)
  | some o ↦ (some o, keep_live a symbol o (ask symbol s))
]

-- read_direct; `none` is the exception of the live source.
unfoldable pub read : Answers → String → FundSource → Option DirectReadOutcome × FundSource
unfolding history_of cached_of read_live outcome_from_history
read a symbol s = elim (history_of a) [
  | some h ↦ (some (outcome_from_history h), s)
  | none ↦ elim (cached_of a symbol s) [ some o ↦ (some o, s) | none ↦ read_live a symbol s ]
]
