-- ===== src/Billing/Calculations.antt =====
-- backend/apps/billing/calculations.py. Amounts are in cents. `round(x * (100 - d) / 100.0)` is
-- Python's rounding of a quotient to the nearest integer, halves to the even one; the float
-- quotient by 100 decides as the exact one does for every amount below 2 ** 45 cents, and the
-- quotient by 1024 ** 3 is exact for every byte count below 2 ** 53. Dates have no last year, as in
-- Calendar; and where the source would form a date of the year 0, for the period of an instant
-- before the billing day of January of the year 1, it raises, while the model has a year 0.
pub mod Periods
pub mod BillingDay
pub mod Prices
pub mod Months
use nyzrating.Prelude.{
  ℕ, zero, suc, ◌+◌, ◌-◌, ◌*◌, ◌/◌, ◌%◌, ◌^◌, ◌≤◌, ◌<◌, max, min, Bool, true, false, not, ◌&&◌,
  ◌||◌, Option, none, some, List, [], ◌∷◌, ◌++◌, ltb, leb, ◌==◌, if◌then◌else◌,
}
use nyzrating.Prelude.Int.{ℤ, pos, negsuc, ◌+ℤ◌, sub_ℕ}
use nyzrating.Prelude.Text.{Text, codes, text_eq, text_or, or_empty, strip, lower}
use nyzrating.Calendar.{
  Date, DateTime, midnight, make_date, weekday, next_day, sub_days, date_le, days_in_month,
}

-- Python's `round(n / d)` for a positive `d`: to the nearest integer, a half to the even one.
unfoldable pub round_div : ℕ → ℕ → ℕ
round_div n d =
    let q = n / d in
    let r = 2 * (n % d) in
    if ltb r d then q else if ltb d r then q + 1 else if q % 2 == 0 then q else q + 1

-- `storage_bytes` may be `None` or negative.
unfoldable pub round_storage_gb : Option ℤ → ℕ
round_storage_gb none = 0
round_storage_gb (some (pos zero)) = 0
round_storage_gb (some (pos (suc n))) = max 1 ((suc n + (1024 ^ 3 - 1)) / 1024 ^ 3)
round_storage_gb (some (negsuc n)) = 0

unfoldable pub is_business_day : Date → Bool
is_business_day day = ltb (weekday day) 5

-- The `while` loop, with fuel.
unfoldable pub to_business_day : ℕ → Date → Date
unfolding is_business_day next_day
to_business_day zero current = current
to_business_day (suc fuel) current =
    let rest = to_business_day fuel (next_day current) in
    if is_business_day current then current else rest

unfoldable pub fifth_business_day : ℕ → ℕ → Date
unfolding to_business_day
fifth_business_day year month = to_business_day 7 (record { year = year; month = month; day = 5 })

unfoldable pub previous_month : ℕ → ℕ → ℕ × ℕ
previous_month year month = if month == 1 then (year - 1, 12) else (year, month - 1)

unfoldable pub next_month : ℕ → ℕ → ℕ × ℕ
next_month year month = if month == 12 then (year + 1, 1) else (year, month + 1)

-- `index // 12` and `index % 12`, which round down.
abbrev pub floor_div_12 : ℤ → ℤ
floor_div_12 (pos n) = pos (n / 12)
floor_div_12 (negsuc n) = negsuc (n / 12)

abbrev pub floor_mod_12 : ℤ → ℕ
floor_mod_12 (pos n) = n % 12
floor_mod_12 (negsuc n) = 11 - n % 12

-- The index of a month, for a month from 1 to 12.
abbrev pub month_index : ℕ → ℕ → ℕ
month_index year month = year * 12 + (month - 1)

unfoldable pub add_months : ℕ → ℕ → ℤ → ℤ × ℕ
unfolding ◌+ℤ◌
add_months year month count =
    let index = pos (month_index year month) +ℤ count in
    (floor_div_12 index, floor_mod_12 index + 1)

-- The year as `calendar.monthrange` reads it, for its leap rule.
abbrev pub year_of : ℤ → ℕ
year_of (pos n) = n
year_of (negsuc n) = 0

-- `none` is the `ValueError` of `date`, for a year before 1.
unfoldable pub add_months_to_date : Date → ℤ → Option Date
add_months_to_date value count =
    let (year, month) = add_months value.year value.month count in
    make_date year month (min value.day (days_in_month (year_of year) month))

-- `f"{n:02d}"` and `f"{n:04d}"`, for numbers of at most two and four digits.
unfoldable pub format_02d : ℕ → Text
format_02d n = (48 + n / 10) ∷ (48 + n % 10) ∷ []

unfoldable pub format_04d : ℕ → Text
unfolding format_02d
format_04d n = format_02d (n / 100) ++ format_02d (n % 100)

unfoldable pub period_key : ℕ → ℕ → Text
unfolding format_02d format_04d
period_key year month = format_04d year ++ (45 ∷ format_02d month)

pub record Period : Type 0 where
  pub key : Text
  pub start : DateTime
  pub end : DateTime
  pub due_this_month : Date

abbrev pub start_month : DateTime → ℕ × ℕ
start_month current =
    if date_le (fifth_business_day current.date.year current.date.month) current.date
    then (current.date.year, current.date.month)
    else previous_month current.date.year current.date.month

unfoldable pub current_month_period : DateTime → Period
unfolding previous_month next_month date_le
current_month_period current =
    let (start_year, start_month) = start_month current in
    let (end_year, end_month) = next_month start_year start_month in
    record {
      key = period_key start_year start_month;
      start = midnight (fifth_business_day start_year start_month);
      end = midnight (fifth_business_day end_year end_month);
      due_this_month = fifth_business_day current.date.year current.date.month;
    }

-- `(billing_period or "monthly").strip().lower()`
unfoldable pub normalized_period : Option Text → Text
normalized_period period = lower (strip (text_or (or_empty period) (codes "monthly")))

unfoldable pub discount_percent : Option Text → ℕ
discount_percent billing_period =
    let normalized = normalized_period billing_period in
    if text_eq normalized (codes "quarterly")
    then 7
    else if text_eq normalized (codes "yearly")
    then 15
    else 0

unfoldable pub apply_discount : ℕ → Option Text → ℕ
unfolding round_div
apply_discount price_cents billing_period =
    let discount = discount_percent billing_period in
    if leb discount 0 then price_cents else round_div (price_cents * (100 - discount)) 100

unfoldable pub plan_monthly_charge_cents_after_discount : ℕ → Option Text → ℕ
unfolding apply_discount
plan_monthly_charge_cents_after_discount price_cents billing_period =
    apply_discount price_cents billing_period / 100 * 100

unfoldable pub billing_period_multiplier : Option Text → ℕ
billing_period_multiplier billing_period =
    let normalized = normalized_period billing_period in
    if text_eq normalized (codes "quarterly")
    then 3
    else if text_eq normalized (codes "yearly")
    then 12
    else 1

unfoldable pub billing_period_label_hu : Option Text → Text
billing_period_label_hu billing_period =
    let normalized = normalized_period billing_period in
    if text_eq normalized (codes "quarterly")
    then codes "negyedéves"
    else if text_eq normalized (codes "yearly")
    then codes "éves"
    else codes "havi"

unfoldable pub charge_date_before_expiry : Date → Date
charge_date_before_expiry expiry_date = sub_days expiry_date 5
