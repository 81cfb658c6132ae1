-- ===== src/Calendar/Counting.antt =====
-- level2_service/workday_calendar.py: the loop of add_workdays and the number of workdays.
use tonghuashun.Base.{
  ℕ, zero, suc, ◌+◌, ◌-◌, ◌≤◌, ◌<◌, ◌≡◌, ◌≢◌, refl, ap, ◌∙◌, Bool, true, false, ◌||◌, Option, none,
  some, arith, ltb, if◌then◌else◌, Bool-cases, Option-cases, ◌⊎◌, inl, inr,
}
use tonghuashun.Calendar.{ChinaLegalWorkdayCalendar, is_workday, advance, add_workdays}

abbrev weight : Option Bool → ℕ
weight none = 0
weight (some b) = if b then 1 else 0

-- The number of workdays among the `days` days after a date.
pub workdays_after : ChinaLegalWorkdayCalendar → ℕ → ℕ → ℕ
workdays_after c start zero = 0
workdays_after c start (suc days) =
    weight (is_workday c (start + 1)) + workdays_after c (start + 1) days

-- The calendar answers on its coverage, and nowhere else.
is_workday-covered :
    (c : ChinaLegalWorkdayCalendar) (d : ℕ)
    → (is_workday c d ≢ none → (c.coverage_start ≤ d) × (d ≤ c.coverage_end))
      × (is_workday c d ≡ none → (d < c.coverage_start) ⊎ (c.coverage_end < d))
unfolding is_workday
is_workday-covered c d = (
  λ h. elim (Bool-cases (ltb d c.coverage_start || ltb c.coverage_end d)) [
    | inl out ↦ absurd (h (ground arith))
    | inr covered ↦ (ground arith, ground arith)
  ],
  λ h. ground arith,
)

-- What the loop gives: a date after as many workdays, or none where the coverage has too few.
pub record Counts (c : ChinaLegalWorkdayCalendar) (start count d : ℕ) : Type 0 where
  pub days : ℕ
  pub date : d ≡ start + days
  pub exact : workdays_after c start days ≡ count
  pub working : 0 < count → is_workday c d ≡ some true
  pub still : count ≡ 0 → d ≡ start

pub record Lacks (c : ChinaLegalWorkdayCalendar) (start count : ℕ) : Type 0 where
  pub few : workdays_after c start (c.coverage_end - start) < count

abbrev pub Advances : ChinaLegalWorkdayCalendar → ℕ → ℕ → Option (Option ℕ) → Type 0
Advances c start count r =
    ((d : ℕ) × (r ≡ some (some d)) × Counts c start count d)
    ⊎ ((r ≡ some none) × Lacks c start count)

Counts-next :
    (c : ChinaLegalWorkdayCalendar) (start remaining d : ℕ) (w : Bool)
    → is_workday c (start + 1) ≡ some w
    → Counts c (start + 1) (if w then remaining else suc remaining) d
    → Counts c start (suc remaining) d
unfolding workdays_after
Counts-next c start remaining d true e k = record {
  days = suc k.days;
  date = omega (arith, k.date);
  exact = rw (e, workdays_after) (omega (arith, k.exact));
  working = λ _. last remaining refl;
  still = λ z. absurd (omega arith);
}
  where
    last : (n : ℕ) → remaining ≡ n → is_workday c d ≡ some true
    last zero z = ap (is_workday c) (k.still z) ∙ e
    last (suc n) z = k.working (omega arith)
Counts-next c start remaining d false e k = record {
  days = suc k.days;
  date = omega (arith, k.date);
  exact = rw (e, workdays_after) (omega (arith, k.exact));
  working = λ _. k.working (omega arith);
  still = λ z. absurd (omega arith);
}

Lacks-next :
    (c : ChinaLegalWorkdayCalendar) (start remaining : ℕ) (w : Bool)
    → start < c.coverage_end
    → is_workday c (start + 1) ≡ some w
    → Lacks c (start + 1) (if w then remaining else suc remaining)
    → Lacks c start (suc remaining)
unfolding workdays_after
Lacks-next c start remaining w h e l =
    let step : c.coverage_end - start ≡ suc (c.coverage_end - (start + 1)) = omega arith in
    record { few = rw (step, workdays_after, e) (ground (arith, l.few)) }

Lacks-end :
    (c : ChinaLegalWorkdayCalendar) (start remaining : ℕ)
    → c.coverage_end ≤ start
    → Lacks c start (suc remaining)
unfolding workdays_after
Lacks-end c start remaining h =
    let none_left : c.coverage_end - start ≡ 0 = omega arith in
    record { few = rw none_left (omega arith) }

advance-Advances :
    (c : ChinaLegalWorkdayCalendar) (fuel current remaining : ℕ)
    → c.coverage_start ≤ current
    → c.coverage_end - current < fuel
    → Advances c current remaining (advance c fuel current remaining)
unfolding advance
advance-Advances c zero current remaining s f = absurd (omega arith)
advance-Advances c (suc fuel) current zero s f = inl (
  current,
  refl,
  record {
    days = 0;
    date = omega arith;
    exact = unfold workdays_after in refl;
    working = λ h. absurd (omega arith);
    still = λ _. refl;
  },
)
advance-Advances c (suc fuel) current (suc remaining) s f =
    elim (Option-cases (is_workday c (current + 1))) [
      | inl e ↦ inr (
        rw (e, advance),
        Lacks-end c current remaining (ground (arith, (is_workday-covered c (current + 1)).1 e)),
      )
      | inr (w, e) ↦
          let covered = (is_workday-covered c (current + 1)).0 (λ n. ground arith) in
          rw (e, advance)
            (elim (advance-Advances c fuel (current + 1) (if w then remaining else suc remaining)
              (omega arith) (omega (arith, covered.1))) [
                | inl (d, r, k) ↦ inl (d, r, Counts-next c current remaining d w e k)
                | inr (r, l) ↦
                    inr (r, Lacks-next c current remaining w (omega (arith, covered.1)) e l)
              ])
    ]

-- add_workdays always ends. From a date outside the coverage it gives None. Otherwise it gives the
-- date that is as many workdays after the start as asked for and is itself a workday (the start, if
-- none is asked for), or None where the rest of the coverage has fewer workdays.
pub add_workdays-Advances :
    (c : ChinaLegalWorkdayCalendar) (start count : ℕ)
    → ((is_workday c start ≡ none) × (add_workdays c start count ≡ some none))
      ⊎ ((is_workday c start ≢ none) × Advances c start count (add_workdays c start count))
unfolding add_workdays
add_workdays-Advances c start count = elim (Option-cases (is_workday c start)) [
  | inl e ↦ inl (e, rw (e, add_workdays))
  | inr (w, e) ↦
      let inside : is_workday c start ≢ none = λ n. ground arith in
      let covered = (is_workday-covered c start).0 inside in
      inr (
        inside,
        rw (e, add_workdays)
            (advance-Advances c (suc (c.coverage_end - start)) start count covered.0 (omega arith)),
      )
]
