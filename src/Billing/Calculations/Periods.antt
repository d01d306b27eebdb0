-- ===== src/Billing/Calculations/Periods.antt =====
-- The billing calendar: the first business day from the 5th of a month, and the periods between
-- those days.
use nyzrating.Prelude.{
  ℕ, ◌+◌, ◌-◌, ◌*◌, ◌≤◌, ◌<◌, ◌≡◌, refl, inl, inr, true, false, arith, ◌==◌, Bool-cases, sym, subst,
  ==_iff,
}
use nyzrating.Calendar.{
  Date, DateTime, midnight, to_ordinal, weekday, next_day, date_lt, date_le, datetime_lt,
  datetime_le,
}
use nyzrating.Calendar.Ordinal.{days_in_month_bounds}
use nyzrating.Billing.Calculations.{
  is_business_day, fifth_business_day, previous_month, next_month, Period, current_month_period,
  start_month,
}

abbrev pub day_of : ℕ → ℕ → ℕ → Date
day_of y m k = record { year = y; month = m; day = k }

-- The first business day of a month from the 5th on.
pub record IsFirstOpen (y m : ℕ) (d : Date) : Type 0 where
  pub is_open : is_business_day d ≡ true
  pub same_year : d.year ≡ y
  pub same_month : d.month ≡ m
  pub from_fifth : 5 ≤ d.day
  pub to_seventh : d.day ≤ 7
  pub closed_5 : 5 < d.day → is_business_day (day_of y m 5) ≡ false
  pub closed_6 : 6 < d.day → is_business_day (day_of y m 6) ≡ false

next_of_5 : (y m : ℕ) → next_day (day_of y m 5) ≡ day_of y m 6
unfolding next_day
next_of_5 y m = ground (arith, days_in_month_bounds y m)

next_of_6 : (y m : ℕ) → next_day (day_of y m 6) ≡ day_of y m 7
unfolding next_day
next_of_6 y m = ground (arith, days_in_month_bounds y m)

-- A Saturday is followed by a Sunday, and a Sunday by a Monday.
weekend_ends :
    (y m : ℕ)
    → is_business_day (day_of y m 5) ≡ false
    → is_business_day (day_of y m 6) ≡ false
    → is_business_day (day_of y m 7) ≡ true
unfolding is_business_day weekday to_ordinal
weekend_ends y m p q = ground arith

-- What `fifth_business_day` finds is a business day of that month from the 5th to the 7th, and the
-- days from the 5th up to it are no business days.
pub fifth_business_day-IsFirstOpen : (y m : ℕ) → IsFirstOpen y m (fifth_business_day y m)
unfolding fifth_business_day
fifth_business_day-IsFirstOpen y m = elim (Bool-cases (is_business_day (day_of y m 5))) [
  | inl a ↦ rw a (record {
    is_open = a;
    same_year = refl;
    same_month = refl;
    from_fifth = omega arith;
    to_seventh = omega arith;
    closed_5 = λ h. absurd (omega arith);
    closed_6 = λ h. absurd (omega arith);
  })
  | inr a ↦ elim (Bool-cases (is_business_day (day_of y m 6))) [
    | inl b ↦
        rw (a, next_of_5 y m, b)
          (record {
            is_open = b;
            same_year = refl;
            same_month = refl;
            from_fifth = omega arith;
            to_seventh = omega arith;
            closed_5 = λ h. a;
            closed_6 = λ h. absurd (omega arith);
          })
    | inr b ↦
        rw (a, next_of_5 y m, b, next_of_6 y m, weekend_ends y m a b)
          (record {
            is_open = weekend_ends y m a b;
            same_year = refl;
            same_month = refl;
            from_fifth = omega arith;
            to_seventh = omega arith;
            closed_5 = λ h. a;
            closed_6 = λ h. b;
          })
  ]
]

-- The instant lies in the period: at or after its start, and before its end.
abbrev pub Contains : Period → DateTime → Type 0
Contains p t = (datetime_le p.start t ≡ true) × (datetime_lt t p.end ≡ true)

fifth_facts :
    (y m : ℕ)
    → let d = fifth_business_day y m in (d.year ≡ y) × (d.month ≡ m) × (5 ≤ d.day) × (d.day ≤ 7)
fifth_facts y m =
    let f = fifth_business_day-IsFirstOpen y m in
    (f.same_year, f.same_month, f.from_fifth, f.to_seventh)

-- The billing period of an instant contains it, when its month is from 1 to 12 and its year is 2
-- or later.
current_month_period-Contains :
    (t : DateTime)
    → 1 ≤ t.date.month
    → t.date.month ≤ 12
    → 2 ≤ t.date.year
    → Contains (current_month_period t) t
unfolding current_month_period datetime_le datetime_lt date_le date_lt
current_month_period-Contains t h k l = ground (
  arith,
  fifth_facts t.date.year t.date.month,
  fifth_facts (t.date.year + 1) 1,
  fifth_facts (t.date.year - 1) 12,
  fifth_facts t.date.year (t.date.month - 1),
  fifth_facts t.date.year (t.date.month + 1),
)

abbrev IsMonth : ℕ → Type 0
IsMonth m = (1 ≤ m) × (m ≤ 12)

-- A date of one month against the billing day of this or another month.
le_fifth :
    (d : Date) (y m : ℕ)
    → IsMonth d.month
    → IsMonth m
    → date_le (fifth_business_day y m) d ≡ true
    → y * 12 + m ≤ d.year * 12 + d.month
unfolding date_le date_lt
le_fifth d y m a b h = ground (arith, fifth_facts y m)

lt_fifth :
    (d : Date) (y m : ℕ)
    → IsMonth d.month
    → IsMonth m
    → date_lt d (fifth_business_day y m) ≡ true
    → d.year * 12 + d.month ≤ y * 12 + m
unfolding date_lt
lt_fifth d y m a b h = ground (arith, fifth_facts y m)

abbrev index : ℕ × ℕ → ℕ
index (y, m) = y * 12 + m

next_month-index :
    (y m : ℕ) → IsMonth m → let n = next_month y m in (index n ≡ y * 12 + m + 1) × IsMonth n.1
unfolding next_month
next_month-index y m a = ground arith

previous_month-next_month :
    (y m : ℕ) → IsMonth m → let n = next_month y m in previous_month n.0 n.1 ≡ (y, m)
unfolding next_month previous_month
previous_month-next_month y m a = ground arith

same_index :
    (y m y' m' : ℕ)
    → IsMonth m
    → IsMonth m'
    → y * 12 + m ≡ y' * 12 + m'
    → ◌≡◌ {A = ℕ × ℕ} (y, m) (y', m')
same_index y m y' m' a c e = ground arith

datetime_le-date : (a : Date) (u : DateTime) → datetime_le (midnight a) u ≡ date_le a u.date
unfolding datetime_le date_le datetime_lt
datetime_le-date a u = ground arith

datetime_lt-date : (a : Date) (u : DateTime) → datetime_lt u (midnight a) ≡ date_lt u.date a
unfolding datetime_lt
datetime_lt-date a u = ground arith

le_of_not_lt : (a b : Date) → date_lt a b ≡ true → date_le b a ≡ false
unfolding date_le
le_of_not_lt a b h = ground arith

-- An instant between the billing days of a month and of the next month is counted to that
-- month.
start_month-eq :
    (u : DateTime) (y m : ℕ)
    → IsMonth m
    → IsMonth u.date.month
    → date_le (fifth_business_day y m) u.date ≡ true
    → let n = next_month y m in
      date_lt u.date (fifth_business_day n.0 n.1) ≡ true → start_month u ≡ (y, m)
start_month-eq u y m a c p q =
    let d = u.date in
    let n = next_month y m in
    let (e, n_month) = next_month-index y m a in
    elim (Bool-cases (d.year * 12 + d.month == y * 12 + m)) [
      | inl same ↦
          let here = same_index d.year d.month y m c a ((==_iff _ _).0 same) in
          rw (subst (λ (s : ℕ × ℕ). date_le (fifth_business_day s.0 s.1) d ≡ true) (sym here) p)
            here
      | inr other ↦
          let low = le_fifth d y m c a p in
          let high = lt_fifth d n.0 n.1 c n_month q in
          let there : ◌≡◌ {A = ℕ × ℕ} (n.0, n.1) (d.year, d.month) =
            same_index n.0 n.1 d.year d.month n_month c (ground arith) in
          rw
            (subst (λ (s : ℕ × ℕ). date_le (fifth_business_day s.0 s.1) d ≡ false) there
              (le_of_not_lt d (fifth_business_day n.0 n.1) q))
            (subst (λ (s : ℕ × ℕ). previous_month s.0 s.1 ≡ (y, m)) there
              (previous_month-next_month y m a))
    ]

start_month-IsMonth : (t : DateTime) → IsMonth t.date.month → IsMonth (start_month t).1
unfolding previous_month
start_month-IsMonth t h = ground arith

-- An instant that lies in the billing period of another has the same period, with its key, start
-- and end, when the months of both are from 1 to 12: the periods do not overlap.
pub current_month_period_unique :
    (t u : DateTime)
    → 1 ≤ t.date.month
    → t.date.month ≤ 12
    → 1 ≤ u.date.month
    → u.date.month ≤ 12
    → Contains (current_month_period t) u
    → let p = current_month_period t in
      let q = current_month_period u in (q.key ≡ p.key) × (q.start ≡ p.start) × (q.end ≡ p.end)
unfolding current_month_period
current_month_period_unique t u a b c d (low, high) =
    let s = start_month t in
    let e =
      start_month-eq u s.0 s.1 (start_month-IsMonth t (a, b)) (c, d)
        (rw (datetime_le-date (fifth_business_day s.0 s.1) u) at low)
        (rw (datetime_lt-date (fifth_business_day (next_month s.0 s.1).0 (next_month s.0 s.1).1) u)
          at high) in
    rw e (refl, refl, refl)
