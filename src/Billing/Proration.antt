-- ===== src/Billing/Proration.antt =====
-- backend/apps/billing/subscription_proration.py: is a plan change a downgrade, and what does an
-- upgrade cost. `none` in a result is the `ValueError` of a date before year 1, or the `KeyError`
-- of a catalog with no plan `free`; the fractions, which are floats made for display, are given by
-- their numerator and denominator.
pub mod Credit
pub mod Downgrade
use nyzrating.Prelude.{
  ◌>>=◌, ℕ, zero, suc, ◌+◌, ◌-◌, ◌*◌, ◌≤◌, ◌<◌, max, min, Bool, true, false, not, ◌&&◌, ◌||◌,
  Option, none, some, ltb, leb, ◌==◌, if◌then◌else◌, is_some,
}
use nyzrating.Prelude.Int.{ℤ, pos, negsuc, neg, sub_ℕ}
use nyzrating.Prelude.Text.{Text, codes, text_eq}
use nyzrating.Prelude.Dict.{Dict, get}
use nyzrating.Calendar.{Date, DateTime, date_lt, date_le, to_ordinal}
use nyzrating.Billing.Domain.{BillingPlan, Subscription}
use nyzrating.Billing.Catalog.{default_currency}
use nyzrating.Billing.Calculations.{
  add_months, add_months_to_date, billing_period_multiplier, fifth_business_day, normalized_period,
  plan_monthly_charge_cents_after_discount, year_of,
}

-- `plans.get(code) or plans["free"]`
unfoldable pub plan_or_free : Dict BillingPlan → Text → Option BillingPlan
plan_or_free plans code = elim (get code plans) [
  | none ↦ get (codes "free") plans
  | some p ↦ some p
]

-- The comparison of two plans in `is_downgrade`.
unfoldable pub is_less : BillingPlan → BillingPlan → Bool
is_less next_plan current_plan =
    ltb next_plan.price_cents current_plan.price_cents
    || ltb next_plan.included_kbs current_plan.included_kbs
    || ltb next_plan.included_storage_gb current_plan.included_storage_gb

unfoldable pub is_downgrade : Subscription → Text → Dict BillingPlan → Option Bool
is_downgrade current next_plan_code plans = do
  current_plan ← plan_or_free plans current.plan_code
  next_plan ← plan_or_free plans next_plan_code
  some (is_less next_plan current_plan)

-- `rank.get(period, 1)`
unfoldable pub rank : Text → ℕ
rank period =
    if text_eq period (codes "quarterly")
    then 2
    else if text_eq period (codes "yearly")
    then 3
    else 1

unfoldable pub is_billing_period_downgrade : Option Text → Option Text → Bool
unfolding rank
is_billing_period_downgrade current_period next_period =
    ltb (rank (normalized_period next_period)) (rank (normalized_period current_period))

unfoldable pub is_scheduled_change : Subscription → Text → Text → Dict BillingPlan → Option Bool
unfolding is_billing_period_downgrade
is_scheduled_change current next_plan_code next_period plans = do
  down ← is_downgrade current next_plan_code plans
  some (
      down
      || text_eq current.plan_code next_plan_code
        && is_billing_period_downgrade (some current.billing_period) (some next_period))

-- Total days, remaining days; the fraction is the second over the first.
unfoldable pub proration_calendar_fraction : Date → Date → Date → ℕ × ℕ
proration_calendar_fraction period_start period_end_inclusive today =
    let total_days = max 1 (to_ordinal period_end_inclusive + 1 - to_ordinal period_start) in
    let remaining =
      if date_lt today period_start
      then total_days
      else if date_lt period_end_inclusive today
      then 0
      else to_ordinal period_end_inclusive + 1 - to_ordinal today in
    (total_days, max 0 (min remaining total_days))

abbrev later_of : Option DateTime → Date → Date
later_of none fallback = fallback
later_of (some t) fallback = if date_lt fallback t.date then t.date else fallback

unfoldable pub coverage_end_for_subscription : Subscription → Date → Date
coverage_end_for_subscription subscription fallback_period_end =
    later_of subscription.trial_ends_at fallback_period_end

-- The billing day of a month whose year may be out of range.
abbrev fifth_of : ℤ × ℕ → Option Date
fifth_of (pos (suc y), m) = some (fifth_business_day (suc y) m)
fifth_of (pos zero, m) = none
fifth_of (negsuc y, m) = none

unfoldable pub coverage_start_for_end : Date → Option Text → Option Date
coverage_start_for_end period_end period =
    let months = billing_period_multiplier period in
    fifth_of (add_months period_end.year period_end.month (neg months))

unfoldable pub paid_until_after_upgrade : Date → Option Text → Option Date
paid_until_after_upgrade upgrade_date period =
    add_months_to_date upgrade_date (pos (billing_period_multiplier period))

unfoldable pub training_initial_fee_cents_for_plan : Text → ℕ
training_initial_fee_cents_for_plan plan_code = 0

unfoldable pub upgrade_training_initial_fee_cents : Text → Text → ℕ
unfolding training_initial_fee_cents_for_plan
upgrade_training_initial_fee_cents current_plan_code next_plan_code = max 0 (
    training_initial_fee_cents_for_plan next_plan_code
    - training_initial_fee_cents_for_plan current_plan_code)

-- The difference is taken where `end` is not before `start`, so it is not negative.
unfoldable pub months_inclusive : Date → Date → ℕ
months_inclusive start end =
    if date_lt end start then 0 else end.year * 12 + end.month + 1 - (start.year * 12 + start.month)

-- The loop over `range(total)` from `index` on: the units that start by today, up to the first
-- that does not.
unfoldable pub started_units : Date → Date → ℕ → ℕ → ℕ → Option ℕ
started_units today coverage_start zero index started = some started
started_units today coverage_start (suc rounds) index started =
    let rest = started_units today coverage_start rounds (index + 1) (started + 1) in
    (add_months_to_date coverage_start (pos index) >>= λ unit_start.
    if date_le unit_start today then rest else some started)

unfoldable pub remaining_prepaid_months : Date → Date → Date → ℕ → Option ℕ
remaining_prepaid_months today coverage_start coverage_end prepaid_months =
    let total = max 0 prepaid_months in
    let loop =
      (started_units today coverage_start total 0 0 >>= λ started.
      some (max 0 (total - started))) in
    if leb total 0 || date_lt coverage_end today then some 0 else loop

pub record UpgradeProration : Type 0 where
  pub immediate_use : Bool
  pub total_prepaid_months : ℕ
  pub remaining_prepaid_months : ℕ
  pub old_plan_code : Text
  pub new_plan_code : Text
  pub old_monthly_cents : ℕ
  pub new_monthly_cents : ℕ
  pub delta_monthly_cents : ℕ
  pub prorated_charge_cents : ℕ
  pub old_remaining_credit_cents : ℕ
  pub next_period_charge_cents : ℕ
  pub training_initial_fee_cents : ℕ
  pub total_charge_cents : ℕ
  pub paid_until : Date
  pub currency : Text

-- The amounts of `compute_upgrade_proration`, once the dates are known.
unfoldable pub upgrade_amounts :
    Subscription → Text → Text → BillingPlan → BillingPlan → ℕ → Date → UpgradeProration
upgrade_amounts subscription plan period current_plan next_plan remaining_months paid_until =
    let old_m =
      plan_monthly_charge_cents_after_discount current_plan.price_cents
        (some subscription.billing_period) in
    let new_m = plan_monthly_charge_cents_after_discount next_plan.price_cents (some period) in
    let credit = max 0 (old_m * remaining_months) in
    let next_period_charge = new_m * billing_period_multiplier (some period) in
    let fee = upgrade_training_initial_fee_cents subscription.plan_code plan in
    record {
      immediate_use = true;
      total_prepaid_months = billing_period_multiplier (some subscription.billing_period);
      remaining_prepaid_months = remaining_months;
      old_plan_code = subscription.plan_code;
      new_plan_code = plan;
      old_monthly_cents = old_m;
      new_monthly_cents = new_m;
      delta_monthly_cents = max 0 (new_m - old_m);
      prorated_charge_cents = 0;
      old_remaining_credit_cents = credit;
      next_period_charge_cents = next_period_charge;
      training_initial_fee_cents = fee;
      total_charge_cents = max 0 (next_period_charge - credit) + max 0 fee;
      paid_until = paid_until;
      currency = default_currency;
    }

-- The part after the three early returns.
unfoldable pub upgrade_offer :
    Subscription
    → Text
    → Text
    → Dict BillingPlan
    → BillingPlan
    → Date
    → Date
    → Option UpgradeProration
upgrade_offer subscription plan period plans next_plan period_end today = do
  current_plan ← plan_or_free plans subscription.plan_code
  let prepaid_months = billing_period_multiplier (some subscription.billing_period)
  let coverage_end = coverage_end_for_subscription subscription period_end
  coverage_start ← add_months_to_date coverage_end (neg prepaid_months)
  remaining ← remaining_prepaid_months today coverage_start coverage_end prepaid_months
  paid_until ← paid_until_after_upgrade today (some period)
  some (upgrade_amounts subscription plan period current_plan next_plan remaining paid_until)

-- The outer `none` is an exception, the inner one is the `None` that the function returns.
unfoldable pub compute_upgrade_proration :
    Subscription → Text → Text → Dict BillingPlan → Date → Date → Option (Option UpgradeProration)
compute_upgrade_proration subscription plan period plans period_end today = elim (get plan plans) [
  | none ↦ some none
  | some next_plan ↦
      (is_downgrade subscription plan plans >>= λ down.
      if down || text_eq subscription.plan_code plan && text_eq subscription.billing_period period
      then some none
      else (upgrade_offer subscription plan period plans next_plan period_end today >>= λ offer.
          some (some offer)))
]

-- `used_total` may be negative, and then counts as 0.
unfoldable pub questions_carryover_from_started_month : ℤ → ℤ → ℕ
questions_carryover_from_started_month (pos monthly) (pos used) = max 0 (monthly - min used monthly)
questions_carryover_from_started_month (pos monthly) (negsuc used) = monthly - min 0 monthly
questions_carryover_from_started_month (negsuc monthly) used = 0
