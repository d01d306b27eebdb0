-- ===== src/Billing/Calculations/Months.antt =====
-- Steps by months.
use nyzrating.Prelude.{
  ℕ, zero, suc, ◌+◌, ◌*◌, ◌/◌, ◌%◌, ◌≤◌, ◌<◌, ◌≡◌, refl, true, arith, ap, ap₂, sym, subst, ◌∙◌,
  some, min,
}
use nyzrating.Prelude.Int.{ℤ, pos, negsuc, ◌+ℤ◌, +ℤ_assoc}
use mathlib.Core.Option.{some-injective}
use nyzrating.Calendar.{Date, IsDate, days_in_month, make_date, date_lt}
use nyzrating.Calendar.Ordinal.{days_in_month_bounds}
use nyzrating.Billing.Calculations.{
  add_months, add_months_to_date, month_index, year_of, floor_div_12, floor_mod_12,
}

-- The month is from 1 to 12, whatever the count.
add_months-month : (y m : ℕ) (k : ℤ) → let r = add_months y m k in (1 ≤ r.1) × (r.1 ≤ 12)
unfolding add_months
add_months-month y m k = ground arith

add_months-index :
    (y m : ℕ) (k : ℤ) (y' m' : ℕ)
    → 1 ≤ m
    → add_months y m k ≡ (pos y', m')
    → pos (month_index y' m') ≡ pos (month_index y m) +ℤ k
unfolding add_months
add_months-index y m k y' m' h e = ground arith

-- From a month that is at least 1, a step of k months that ends in a year that is not negative,
-- and then one of l months, is one step of k + l months.
pub add_months-add :
    (y m : ℕ) (k l : ℤ) (y' m' : ℕ)
    → 1 ≤ m
    → add_months y m k ≡ (pos y', m')
    → add_months y' m' l ≡ add_months y m (k +ℤ l)
unfolding add_months
add_months-add y m k l y' m' h e =
    ap (λ (i : ℤ). (floor_div_12 i, floor_mod_12 i + 1))
      (ap (λ (i : ℤ). i +ℤ l) (add_months-index y m k y' m' h e)
        ∙ +ℤ_assoc (pos (month_index y m)) k l)

make_date-IsDate :
    (y : ℤ) (m day : ℕ) (r : Date)
    → 1 ≤ m
    → m ≤ 12
    → 1 ≤ day
    → day ≤ days_in_month (year_of y) m
    → make_date y m day ≡ some r
    → IsDate r × (r.day ≡ day)
make_date-IsDate (pos zero) m day r a b c d e = cc
make_date-IsDate (pos (suc y)) m day r a b c d e =
    subst (λ q. IsDate q × (q.day ≡ day)) (some-injective _ _ e)
      (
        record { year_pos = omega arith; month_pos = a; month_le = b; day_pos = c; day_le = d },
        refl,
      )
make_date-IsDate (negsuc y) m day r a b c d e = cc

-- A step of months from a valid date, where it ends in a year that exists, ends on a valid date
-- whose day is not greater.
add_months_to_date-IsDate :
    (d r : Date) (k : ℤ) → IsDate d → add_months_to_date d k ≡ some r → IsDate r × (r.day ≤ d.day)
unfolding add_months_to_date
add_months_to_date-IsDate d r k h e =
    let s = add_months d.year d.month k in
    let range = add_months-month d.year d.month k in
    let bound = days_in_month_bounds (year_of s.0) s.1 in
    let (exists, day) =
      make_date-IsDate s.0 s.1 (min d.day (days_in_month (year_of s.0) s.1)) r range.0 range.1
        (omega (arith, h.day_pos)) (omega arith) e in
    (exists, omega arith)

date_lt_of_index :
    (a b : Date)
    → 1 ≤ a.month
    → a.month ≤ 12
    → 1 ≤ b.month
    → b.month ≤ 12
    → a.year * 12 + a.month < b.year * 12 + b.month
    → date_lt a b ≡ true
unfolding date_lt
date_lt_of_index a b p q r s h = ground arith

make_date-parts :
    (n m day : ℕ) (r : Date) → make_date (pos n) m day ≡ some r → (r.year ≡ n) × (r.month ≡ m)
make_date-parts zero m day r e = cc
make_date-parts (suc n) m day r e = ground arith

add_months-pos :
    (y m k : ℕ)
    → add_months y m (pos k) ≡ (pos ((month_index y m + k) / 12), (month_index y m + k) % 12 + 1)
unfolding add_months
add_months-pos y m k = ground arith

-- The month that is reached, counted from year 0.
add_months_to_date-index :
    (d r : Date) (k : ℕ)
    → 1 ≤ d.month
    → add_months_to_date d (pos k) ≡ some r
    → (r.year * 12 + r.month ≡ d.year * 12 + d.month + k) × (1 ≤ r.month) × (r.month ≤ 12)
unfolding add_months_to_date
add_months_to_date-index d r k m e =
    let i = month_index d.year d.month + k in
    let parts =
      make_date-parts (i / 12) (i % 12 + 1) (min d.day (days_in_month (i / 12) (i % 12 + 1))) r (
        subst
          (λ (s : ℤ × ℕ). make_date s.0 s.1 (min d.day (days_in_month (year_of s.0) s.1)) ≡ some r)
          (add_months-pos d.year d.month k) e) in
    (omega arith, omega arith, omega arith)

-- Of two steps forward by months from one date whose month is at least 1, which both reach a
-- date, the longer one ends on the later date.
pub add_months_to_date_mono :
    (d a b : Date) (i j : ℕ)
    → 1 ≤ d.month
    → i < j
    → add_months_to_date d (pos i) ≡ some a
    → add_months_to_date d (pos j) ≡ some b
    → date_lt a b ≡ true
add_months_to_date_mono d a b i j m h p q =
    let x = add_months_to_date-index d a i m p in
    let y = add_months_to_date-index d b j m q in
    ground (arith, date_lt_of_index a b x.1 x.2 y.1 y.2)

make_date-total : (n m day : ℕ) → 1 ≤ n → (r : Date) × (make_date (pos n) m day ≡ some r)
make_date-total zero m day h = elim h [ ]
make_date-total (suc n) m day h = (record { year = suc n; month = m; day = day }, refl)

-- Steps forward always reach a date.
pub add_months_to_date-total :
    (d : Date) (k : ℕ) → IsDate d → (r : Date) × (add_months_to_date d (pos k) ≡ some r)
unfolding add_months_to_date
add_months_to_date-total d k h =
    let i = month_index d.year d.month + k in
    let (r, e) =
      make_date-total (i / 12) (i % 12 + 1) (min d.day (days_in_month (i / 12) (i % 12 + 1)))
        (omega (arith, h.year_pos)) in
    (
      r,
      subst
          (λ (s : ℤ × ℕ). make_date s.0 s.1 (min d.day (days_in_month (year_of s.0) s.1)) ≡ some r)
          (sym (add_months-pos d.year d.month k)) e,
    )

make_date_self :
    (y m day : ℕ)
    → 1 ≤ y
    → make_date (pos y) m day ≡ some (record { year = y; month = m; day = day })
make_date_self zero m day h = elim h [ ]
make_date_self (suc y) m day h = refl

-- No months lead nowhere else.
pub add_months_to_date-zero : (d : Date) → IsDate d → add_months_to_date d (pos 0) ≡ some d
unfolding add_months_to_date
add_months_to_date-zero d h =
    let here : add_months d.year d.month (pos 0) ≡ (pos d.year, d.month) =
      add_months-pos d.year d.month 0
      ∙ ap₂ (λ (y m : ℕ). (pos y, m)) (omega (arith, h.month_pos, h.month_le))
          (omega (arith, h.month_pos, h.month_le)) in
    subst (λ (s : ℤ × ℕ). make_date s.0 s.1 (min d.day (days_in_month (year_of s.0) s.1)) ≡ some d)
      (sym here)
      (subst (λ n. make_date (pos d.year) d.month n ≡ some d) (omega (arith, h.day_le))
        (make_date_self d.year d.month d.day h.year_pos))
