-- ===== src/Calendar/Ordinal.antt =====
-- Ordinals, and steps by days.
use nyzrating.Prelude.{
  ℕ, zero, suc, ◌+◌, ◌≤◌, ◌≡◌, refl, false, arith, if◌then◌else◌, Bool-cases, inl, inr, ltb, ap,
  ◌-◌,
}
use native.Mathlib.Numerals.{add-one}
use nyzrating.Calendar.{
  Date, IsDate, is_leap, days_in_month, days_before_year, days_before_month, to_ordinal, next_day,
  prev_day, add_days, IsDate,
}

pub days_in_month_bounds : (y m : ℕ) → (28 ≤ days_in_month y m) × (days_in_month y m ≤ 31)
unfolding days_in_month
days_in_month_bounds y m = ground arith

days_before_year-suc :
    (y : ℕ)
    → 1 ≤ y
    → days_before_year (y + 1) ≡ days_before_year y + (if is_leap y then 366 else 365)
unfolding days_before_year is_leap
days_before_year-suc y h = ground arith

days_before_month-suc :
    (y m : ℕ) → 1 ≤ m → days_before_month y (m + 1) ≡ days_before_month y m + days_in_month y m
unfolding days_before_month
days_before_month-suc y zero h = elim h [ ]
days_before_month-suc y (suc m) h = rw add-one refl

year_length : (y : ℕ) → days_before_month y 12 + 31 ≡ (if is_leap y then 366 else 365)
unfolding days_before_month
year_length y = ground arith

-- A day that exists is followed by a day that exists.
next_day-IsDate : (d : Date) → IsDate d → IsDate (next_day d)
unfolding next_day
next_day-IsDate d h =
    let a = days_in_month_bounds d.year (d.month + 1) in
    let b = days_in_month_bounds (d.year + 1) 1 in
    record {
      year_pos = ground (arith, h.year_pos);
      month_pos = ground (arith, h.month_pos);
      month_le = ground (arith, h.month_le);
      day_pos = ground (arith, h.day_pos);
      day_le = ground (arith, a, b, h.day_le);
    }

december : (d : Date) → IsDate d → ltb d.month 12 ≡ false → d.month ≡ 12
december d h p = ground (arith, h.month_le)

first_month : (y : ℕ) → days_before_month y 1 ≡ 0
unfolding days_before_month
first_month y = refl

december_length : (y : ℕ) → days_in_month y 12 ≡ 31
unfolding days_in_month
december_length y = refl

new_year :
    (d : Date)
    → IsDate d
    → d.month ≡ 12
    → ltb d.day (days_in_month d.year d.month) ≡ false
    → days_before_year (d.year + 1) + days_before_month (d.year + 1) 1 + 1
      ≡ days_before_year d.year + days_before_month d.year d.month + d.day + 1
new_year d h e p = ground (
  arith,
  h.day_le,
  h.year_pos,
  first_month (d.year + 1),
  december_length d.year,
  year_length d.year,
  days_before_year-suc d.year h.year_pos,
  ap (days_before_month d.year) e,
  ap (days_in_month d.year) e,
)

-- The next day has the next ordinal.
to_ordinal-next_day : (d : Date) → IsDate d → to_ordinal (next_day d) ≡ to_ordinal d + 1
unfolding to_ordinal next_day
to_ordinal-next_day d h = elim (Bool-cases (ltb d.day (days_in_month d.year d.month))) [
  | inl p ↦ rw p (omega arith)
  | inr p ↦ elim (Bool-cases (ltb d.month 12)) [
    | inl q ↦ rw (p, q) (ground (arith, days_before_month-suc d.year d.month h.month_pos, h.day_le))
    | inr q ↦ rw (p, q) (new_year d h (december d h q) p)
  ]
]

sub_add : (m : ℕ) → m + 1 - 1 ≡ m
sub_add m = omega arith

-- Stepping back undoes stepping forward.
prev_day-next_day : (d : Date) → IsDate d → prev_day (next_day d) ≡ d
unfolding prev_day next_day
prev_day-next_day d h = ground (
  arith,
  h.day_le,
  h.day_pos,
  h.month_pos,
  h.month_le,
  h.year_pos,
  december_length d.year,
  ap (days_in_month d.year) (sub_add d.month),
)

add_days-IsDate : (d : Date) (n : ℕ) → IsDate d → IsDate (add_days d n)
unfolding add_days
add_days-IsDate d zero h = h
add_days-IsDate d (suc n) h = next_day-IsDate (add_days d n) (add_days-IsDate d n h)

-- `(d + timedelta(days=n)).toordinal() == d.toordinal() + n`
to_ordinal-add_days : (d : Date) (n : ℕ) → IsDate d → to_ordinal (add_days d n) ≡ to_ordinal d + n
unfolding add_days
to_ordinal-add_days d zero h = omega arith
to_ordinal-add_days d (suc n) h =
    omega
      (arith, to_ordinal-next_day (add_days d n) (add_days-IsDate d n h), to_ordinal-add_days d n h)
