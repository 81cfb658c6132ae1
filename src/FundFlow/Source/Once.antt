-- ===== src/FundFlow/Source/Once.antt =====
-- level2_service/database_first_fund_flow.py: the requests to the live source on a day
-- on which the market stays closed.
use tonghuashun.Base.{
  ℕ, ◌+◌, ◌≤◌, String, ◌≡◌, sym, Bool, true, false, ◌&&◌, none, some, List, [], ◌∷◌, ◌++◌, ◌==◌,
  arith, eq_iff, eq_refl, if◌then◌else◌, is_some, Bool-cases, Option-cases, inl, inr, All, count_if,
}
use tonghuashun.FundFlow.{DirectReadOutcome}
use tonghuashun.FundFlow.Source.{
  Request, read_direct, record_fund_flow, Fallback, FundSource, Answers, find_fallback,
  set_fallback, history_of, cached_of, keep_live, ask, read_live, read,
}

-- The request asks the live source for the symbol.
abbrev pub asks_for : String → Request → Bool
asks_for symbol (read_direct t) = t == symbol
asks_for symbol (record_fund_flow t date minute periods) = false

pub asked : String → FundSource → ℕ
asked symbol s = count_if (asks_for symbol) s.requests

find-set :
    (symbol date t u : String) (o : DirectReadOutcome) (fs : List Fallback)
    → find_fallback t u (set_fallback symbol date o fs)
      ≡ (if symbol == t && date == u then some o else find_fallback t u fs)
unfolding find_fallback set_fallback
find-set symbol date t u o [] = ground arith
find-set symbol date t u o (f ∷ fs) = ground (
  arith,
  find-set symbol date t u o fs,
  eq_iff symbol t,
  eq_iff date u,
  eq_iff f.symbol t,
  eq_iff f.date u,
  eq_iff f.symbol symbol,
  eq_iff f.date date,
)

count-append :
    (p : Request → Bool) (xs ys : List Request)
    → count_if p (xs ++ ys) ≡ count_if p xs + count_if p ys
count-append p [] ys = omega arith
count-append p (x ∷ xs) ys = omega (arith, count-append p xs ys)

-- A read while the market stays closed on a date, with an answer of the live source.
pub record IsClosedRead (date : String) (a : Answers) : Type 0 where
  pub day : a.date ≡ date
  pub cache : a.open_for_cache ≡ false
  pub not_recorded : a.open_for_record ≡ false
  pub fallback : a.open_for_fallback ≡ false
  pub answered : is_some a.live ≡ true

pub record Read : Type 0 where
  pub answers : Answers
  pub symbol : String

-- A sequence of reads.
pub reads : List Read → FundSource → FundSource
reads [] s = s
reads (r ∷ rs) s = reads rs (read r.answers r.symbol s).1

-- One more request may follow where there is no fallback yet.
abbrev left : String → String → FundSource → ℕ
left symbol date s = if is_some (find_fallback symbol date s.closed_fallbacks) then 0 else 1

not_cached :
    (date : String) (a : Answers) (t : String) (s : FundSource)
    → IsClosedRead date a
    → cached_of a t s ≡ none
    → find_fallback t date s.closed_fallbacks ≡ none
unfolding cached_of
not_cached date a t s c f = rw (sym c.day) (ground (arith, c.cache))

-- After an answer of the live source there is a fallback for its symbol, and no other is changed.
live-left :
    (date symbol : String) (a : Answers) (t : String) (o : DirectReadOutcome) (s : FundSource)
    → IsClosedRead date a
    → find_fallback t date s.closed_fallbacks ≡ none
    → asked symbol (keep_live a t o (ask t s)) + left symbol date (keep_live a t o (ask t s))
      ≤ asked symbol s + left symbol date s
unfolding asked keep_live
live-left date symbol a t o s c f =
    rw (c.not_recorded, c.fallback, c.day, find-set, count-append)
      (elim (Bool-cases (t == symbol)) [
        | inl hit ↦ let same = (eq_iff t symbol).0 hit in ground (arith, hit, eq_refl date, same, f)
        | inr miss ↦ ground (arith, miss)
      ])

read-left :
    (date symbol : String) (a : Answers) (t : String) (s : FundSource)
    → IsClosedRead date a
    → asked symbol (read a t s).1 + left symbol date (read a t s).1
      ≤ asked symbol s + left symbol date s
unfolding read read_live
read-left date symbol a t s c = elim (Option-cases (history_of a)) [
  | inr (h, e) ↦ rw (e, read) (omega arith)
  | inl e ↦ elim (Option-cases (cached_of a t s)) [
    | inr (o, f) ↦ rw (e, read, f) (omega arith)
    | inl f ↦ elim (Option-cases a.live) [
      | inl l ↦ absurd (ground (arith, c.answered))
      | inr (o, l) ↦
          rw (e, read, f, read_live, l)
            (live-left date symbol a t o s c (not_cached date a t s c f))
    ]
  ]
]

reads-left :
    (date symbol : String) (rs : List Read) (s : FundSource)
    → All (λ r. IsClosedRead date r.answers) rs
    → asked symbol (reads rs s) + left symbol date (reads rs s)
      ≤ asked symbol s + left symbol date s
unfolding reads
reads-left date symbol [] s h = omega arith
reads-left date symbol (r ∷ rs) s h = omega (
  arith,
  read-left date symbol r.answers r.symbol s h.0,
  reads-left date symbol rs (read r.answers r.symbol s).1 h.1,
)

-- On a date on which each read finds the market closed after its history, and the live source
-- answers, a sequence of reads asks the live source at most once more for a symbol, and not at all
-- if the fallback of the date is there before.
pub reads-AskOnce :
    (date symbol : String) (rs : List Read) (s : FundSource)
    → All (λ r. IsClosedRead date r.answers) rs
    → asked symbol (reads rs s)
      ≤ asked symbol s + (if is_some (find_fallback symbol date s.closed_fallbacks) then 0 else 1)
reads-AskOnce date symbol rs s h = omega (arith, reads-left date symbol rs s h)
