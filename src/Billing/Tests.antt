-- ===== src/Billing/Tests.antt =====
-- Runs of the billing code, and its theorems at examples.
use nyzrating.Prelude.{
  ℕ, ◌+◌, ◌-◌, ◌*◌, ◌%◌, ◌≤◌, ◌<◌, ◌≡◌, ◌↔◌, refl, arith, true, Option, none, some, [], ◌∷◌,
}
use nyzrating.Prelude.Int.{pos, negsuc, ◌+ℤ◌}
use nyzrating.Prelude.Text.{Text, codes, strip, lower, text_eq}
use nyzrating.Prelude.Dict.{Dict, get, put}
use nyzrating.Calendar.{
  Date, DateTime, IsDate, to_ordinal, weekday, days_in_month, date_le, date_lt, datetime_le,
  days_before_year, days_before_month,
}
use nyzrating.Billing.Domain.{Subscription, BillingPlan}
use nyzrating.Billing.Calculations.{
  current_month_period, fifth_business_day, plan_monthly_charge_cents_after_discount,
  discount_percent, normalized_period, add_months, add_months_to_date, is_business_day, period_key,
}
use nyzrating.Billing.Calculations.Periods.{
  Contains, current_month_period_unique, IsFirstOpen, day_of,
}
use nyzrating.Billing.Calculations.BillingDay.{business_days, fifth_business_day_counted}
use nyzrating.Billing.Calculations.Prices.{charge_bounds}
use nyzrating.Billing.Calculations.Months.{add_months-add}
use nyzrating.Billing.Catalog.{default_catalog_rows, plan_map_from_catalog, plan_of_row}
use nyzrating.Billing.Catalog.Rows.{plan_starter, plan_pro}
use nyzrating.Billing.Proration.{
  started_units, remaining_prepaid_months, UpgradeProration, plan_or_free, upgrade_amounts,
}
use nyzrating.Billing.Proration.Credit.{started_units-exact, remaining_prepaid_months_bounds}

abbrev at : ℕ → ℕ → ℕ → ℕ → DateTime
at y m d t = record { date = record { year = y; month = m; day = d }; time = t }

abbrev may_3 : DateTime
may_3 = at 2026 5 3 3600000000

abbrev april_7 : DateTime
april_7 = at 2026 4 7 0

-- 5 May 2026 was a Tuesday, and 5 April 2026 a Sunday.
period_run : current_month_period may_3 ≡ record {
  key = codes "2026-04";
  start = at 2026 4 6 0;
  end = at 2026 5 5 0;
  due_this_month = record { year = 2026; month = 5; day = 5 };
}
unfolding current_month_period fifth_business_day is_business_day weekday to_ordinal
    days_before_year days_before_month days_in_month period_key date_le
period_run = refl

april_7_inside : Contains (current_month_period may_3) april_7
unfolding current_month_period fifth_business_day is_business_day weekday to_ordinal
    days_before_year days_before_month days_in_month date_le datetime_le
april_7_inside = (refl, refl)

current_month_period_unique_example :
    let p = current_month_period may_3 in
    let q = current_month_period april_7 in (q.key ≡ p.key) × (q.start ≡ p.start) × (q.end ≡ p.end)
current_month_period_unique_example =
    current_month_period_unique may_3 april_7 (omega arith) (omega arith) (omega arith)
      (omega arith) april_7_inside

-- August 2026 begins on a Saturday: its 5th is its third business day.
in_august : fifth_business_day 2026 8 ≡ day_of 2026 8 5
unfolding fifth_business_day is_business_day weekday to_ordinal days_before_year days_before_month
in_august = refl

third_in_august : business_days 2026 8 5 ≡ 3
unfolding business_days is_business_day weekday to_ordinal days_before_year days_before_month
third_in_august = refl

fifth_business_day_counted_example :
    let d = fifth_business_day 2026 8 in
    IsFirstOpen 2026 8 d
    × (business_days 2026 8 d.day ≤ 5)
    × ((business_days 2026 8 d.day ≡ 5) ↔ (weekday (day_of 2026 8 1) ≤ 1))
fifth_business_day_counted_example = fifth_business_day_counted 2026 8

abbrev yearly : Option Text
yearly = some (codes " Yearly ")

abbrev monthly : Option Text
monthly = none

charge_run : plan_monthly_charge_cents_after_discount 890000 yearly ≡ 756500
unfolding plan_monthly_charge_cents_after_discount discount_percent normalized_period strip lower
    text_eq
charge_run = refl

charge_bounds_example :
    let charge = plan_monthly_charge_cents_after_discount 890000 yearly in
    (charge % 100 ≡ 0)
    × (charge ≤ 890000)
    × (100 * charge ≤ 890000 * (100 - discount_percent yearly) + 50)
    × (890000 * (100 - discount_percent yearly) < 100 * charge + 10050)
charge_bounds_example = charge_bounds 890000 yearly

abbrev january_31 : Date
january_31 = record { year = 2026; month = 1; day = 31 }

abbrev february_28 : Date
february_28 = record { year = 2026; month = 2; day = 28 }

january_31-IsDate : IsDate january_31
unfolding days_in_month
january_31-IsDate = record {
  year_pos = omega arith;
  month_pos = omega arith;
  month_le = omega arith;
  day_pos = omega arith;
  day_le = omega arith;
}

fourteen_months : add_months 2026 10 (pos 14) ≡ (pos 2027, 12)
unfolding add_months
fourteen_months = refl

add_months-add_example : add_months 2027 12 (negsuc 2) ≡ add_months 2026 10 (pos 14 +ℤ negsuc 2)
add_months-add_example =
    add_months-add 2026 10 (pos 14) (negsuc 2) 2027 12 (omega arith) fourteen_months

to_february : add_months_to_date january_31 (pos 1) ≡ some february_28
unfolding add_months_to_date add_months days_in_month
to_february = refl

abbrev march_31 : Date
march_31 = record { year = 2026; month = 3; day = 31 }

to_march : add_months_to_date january_31 (pos 2) ≡ some march_31
unfolding add_months_to_date add_months days_in_month
to_march = refl

started_units-exact_example :
    (found : ℕ) × (started_units march_31 january_31 12 0 0 ≡ some found)
    × (found ≤ 12)
    × ((date_le february_28 march_31 ≡ true) ↔ (1 < found))
started_units-exact_example =
    started_units-exact march_31 january_31 february_28 12 1 january_31-IsDate (omega arith)
      to_february

started_by_january : date_le january_31 march_31 ≡ true
unfolding date_le
started_by_january = refl

abbrev year_end : Date
year_end = record { year = 2027; month = 1; day = 31 }

remaining_prepaid_months_bounds_example :
    (left : ℕ) × (remaining_prepaid_months march_31 january_31 year_end 12 ≡ some left)
    × (left < 12)
remaining_prepaid_months_bounds_example =
    remaining_prepaid_months_bounds march_31 january_31 year_end 12 january_31-IsDate (omega arith)
      started_by_january

nine_left : remaining_prepaid_months march_31 january_31 year_end 12 ≡ some 9
unfolding remaining_prepaid_months started_units add_months_to_date add_months days_in_month date_le
    date_lt
nine_left = refl

abbrev last_of_april : DateTime
last_of_april = at 2026 4 30 0

abbrev starter_customer : Subscription
starter_customer = record {
  tenant_id = 7;
  plan_code = codes "starter";
  billing_period = codes "monthly";
  status = codes "active";
  trial_started_at = none;
  trial_ends_at = some last_of_april;
  extra_kb_count = 0;
  extra_storage_gb = 0;
  carryover_addon_questions = pos 0;
  carryover_training_chars = 0;
  scheduled_plan_code = none;
  scheduled_billing_period = none;
  scheduled_change_effective_period = none;
  question_warning_period_key = none;
  question_warning_level = 0;
  created_at = none;
  updated_at = none;
}

abbrev plan : Text → ℕ → ℕ → BillingPlan
plan code price questions = record {
  code = code;
  name = code;
  price_cents = price;
  included_kbs = 0;
  included_storage_gb = 0;
  included_questions_monthly = questions;
  max_users = none;
  trial_days = 0;
  included_training_chars = 0;
}

abbrev two_plans : Dict BillingPlan
two_plans =
    (codes "starter", plan (codes "starter") 890000 40)
    ∷ (codes "pro", plan (codes "pro") 1890000 150)
    ∷ []

abbrev offer : UpgradeProration
offer =
    upgrade_amounts starter_customer (codes "pro") (codes "yearly")
      (plan (codes "starter") 890000 40) (plan (codes "pro") 1890000 150) 0
      (record { year = 2027; month = 4; day = 20 })

abbrev april_20 : Date
april_20 = record { year = 2026; month = 4; day = 20 }

abbrev seeded : Dict BillingPlan
seeded = plan_map_from_catalog default_catalog_rows

found_starter : plan_or_free seeded (codes "starter") ≡ some (plan_of_row plan_starter)
unfolding plan_or_free plan_map_from_catalog default_catalog_rows get put text_eq plan_of_row
found_starter = refl

found_pro : plan_or_free seeded (codes "pro") ≡ some (plan_of_row plan_pro)
unfolding plan_or_free plan_map_from_catalog default_catalog_rows get put text_eq plan_of_row
found_pro = refl
