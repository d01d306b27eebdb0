-- ===== src/Billing/Calculations/BillingDay.antt =====
-- `fifth_business_day` of backend/apps/billing/calculations.py against the count of the business
-- days of the month.
use nyzrating.Prelude.{
  ℕ, zero, suc, ◌+◌, ◌%◌, ◌≤◌, ◌≡◌, ◌↔◌, refl, arith, if◌then◌else◌, ltb, true, subst, sym, ap, ◌∙◌,
}
use nyzrating.Calendar.{Date, to_ordinal, weekday}
use nyzrating.Billing.Calculations.{is_business_day, fifth_business_day}
use nyzrating.Billing.Calculations.Periods.{day_of, IsFirstOpen, fifth_business_day-IsFirstOpen}

-- The number of business days among the first days of a month.
unfoldable pub business_days : ℕ → ℕ → ℕ → ℕ
business_days y m zero = 0
business_days y m (suc n) =
    let rest = business_days y m n in
    if is_business_day (day_of y m (suc n)) then rest + 1 else rest

-- The same by the weekday of the 1st.
weekdays : ℕ → ℕ → ℕ
weekdays w zero = 0
weekdays w (suc n) = let rest = weekdays w n in if ltb ((w + n) % 7) 5 then rest + 1 else rest

weekday_of : (y m n : ℕ) → weekday (day_of y m (suc n)) ≡ (weekday (day_of y m 1) + n) % 7
unfolding weekday to_ordinal
weekday_of y m n = omega arith

business_days-weekdays : (y m n : ℕ) → business_days y m n ≡ weekdays (weekday (day_of y m 1)) n
unfolding business_days weekdays is_business_day
business_days-weekdays y m zero = refl
business_days-weekdays y m (suc n) = ground (arith, weekday_of y m n, business_days-weekdays y m n)

weekday_small : (d : Date) → weekday d ≤ 6
unfolding weekday
weekday_small d = omega arith

-- The day that is found, by the weekday of the 1st.
abbrev first_open : ℕ → ℕ
first_open w = if ltb ((w + 4) % 7) 5 then 5 else if ltb ((w + 5) % 7) 5 then 6 else 7

first_open-day : (y m : ℕ) → (fifth_business_day y m).day ≡ first_open (weekday (day_of y m 1))
unfolding is_business_day
first_open-day y m =
    let d = fifth_business_day y m in
    let f = fifth_business_day-IsFirstOpen y m in
    let here : d ≡ day_of y m d.day = ground (arith, f.same_year, f.same_month) in
    let is_open : ltb (weekday (day_of y m d.day)) 5 ≡ true =
      subst (λ e. ltb (weekday e) 5 ≡ true) here f.is_open in
    ground (
      arith,
      f.from_fifth,
      f.to_seventh,
      f.closed_5,
      f.closed_6,
      is_open,
      weekday_of y m 4,
      weekday_of y m 5,
      weekday_of y m 6,
    )

abbrev Counted : ℕ → Type 0
Counted w = (weekdays w (first_open w) ≤ 5) × ((weekdays w (first_open w) ≡ 5) ↔ (w ≤ 1))

weekdays-Counted : (w : ℕ) → w ≤ 6 → Counted w
unfolding weekdays
weekdays-Counted w h = ground arith

-- What fifth_business_day finds is the first business day of the month from the 5th on, and at
-- most the 7th; up to it there are at most five business days, and five only in a month that
-- begins on a Monday or a Tuesday: in every other month it is not the fifth business day.
pub fifth_business_day_counted :
    (y m : ℕ)
    → let d = fifth_business_day y m in
      IsFirstOpen y m d
      × (business_days y m d.day ≤ 5)
      × ((business_days y m d.day ≡ 5) ↔ (weekday (day_of y m 1) ≤ 1))
fifth_business_day_counted y m =
    let w = weekday (day_of y m 1) in
    let number : business_days y m (fifth_business_day y m).day ≡ weekdays w (first_open w) =
      business_days-weekdays y m (fifth_business_day y m).day
      ∙ ap (weekdays w) (first_open-day y m) in
    let (at_most, exactly) =
      subst (λ n. (n ≤ 5) × ((n ≡ 5) ↔ (w ≤ 1))) (sym number)
        (weekdays-Counted w (weekday_small (day_of y m 1))) in
    (fifth_business_day-IsFirstOpen y m, at_most, exactly)
