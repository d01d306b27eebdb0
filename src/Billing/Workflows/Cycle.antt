-- ===== src/Billing/Workflows/Cycle.antt =====
-- The renewal and the invoicing of backend/apps/billing/workflows.py, with the methods of
-- backend/apps/billing/service.py that they call. The plans, the storage that a tenant uses and
-- Python's `int` of a text are arguments; the config of the tenant is left out.
use nyzrating.Prelude.{
  ℕ, zero, suc, ◌+◌, ◌-◌, ◌*◌, Bool, true, false, not, ◌&&◌, ◌||◌, Option, none, some, [], ◌∷◌,
  ◌++◌, leb, ◌==◌, length, take, drop, all, if◌then◌else◌, ◌>>=◌, is_some,
}
use nyzrating.Prelude.Int.{pos}
use nyzrating.Prelude.Text.{Text, codes, text_eq, truthy, or_empty, text_or, strip, lower, is_digit}
use nyzrating.Prelude.Dict.{Dict}
use nyzrating.Calendar.{Date, DateTime, date_lt, days_in_month}
use nyzrating.Billing.Domain.{BillingPlan, Subscription}
use nyzrating.Billing.Calculations.{
  current_month_period, charge_date_before_expiry, add_months_to_date, format_02d, format_04d,
  billing_period_multiplier, plan_monthly_charge_cents_after_discount,
}
use nyzrating.Billing.Proration.{plan_or_free}
use nyzrating.Billing.Store.Invoices.{get_invoice, create_invoice}
use nyzrating.Billing.Store.Cancellations.{Cancellation, get_latest_cancellation_request}
use nyzrating.Billing.Workflows.Status.{trial, active, restricted}
use nyzrating.Billing.Workflows.Sync.{BillingDb, upsert_from_existing}

-- What one run of the cycle meets.
pub record Cycle : Type 0 where
  pub now : DateTime
  pub wall : DateTime
  pub plans : Dict BillingPlan
  -- `storage_gb_used_rounded` of a tenant
  pub used_gb : ℕ → ℕ
  -- `int(text)`; `none` is its error, or a negative number
  pub parse_int : Text → Option ℕ

-- `date.isoformat`
unfoldable pub isoformat : Date → Text
isoformat d = format_04d d.year ++ (45 ∷ format_02d d.month ++ (45 ∷ format_02d d.day))

-- `_subscription_anchor_due_date` where there is an anchor, and else the fallback; `none` is the
-- error of a date out of range.
unfoldable pub billing_due_date : Subscription → Date → Option Date
billing_due_date s fallback = elim s.trial_ends_at [
  | some t ↦ some t.date
  | none ↦ elim s.trial_started_at [
    | some t ↦ add_months_to_date t.date (pos (billing_period_multiplier (some s.billing_period)))
    | none ↦ elim s.created_at [
      | some t ↦ add_months_to_date t.date (pos (billing_period_multiplier (some s.billing_period)))
      | none ↦ some fallback
    ]
  ]
]

abbrev pub digit : ℕ → ℕ
digit c = c - 48

-- `date(y, m, d)`
unfoldable pub checked_date : ℕ → ℕ → ℕ → Option Date
checked_date y m d =
    if leb 1 y && leb 1 m && leb m 12 && leb 1 d && leb d (days_in_month y m)
    then some (record { year = y; month = m; day = d })
    else none

-- `date.fromisoformat` of ten characters with dashes in the fifth and the eighth place
unfoldable pub fromisoformat : Text → Option Date
fromisoformat (a ∷ b ∷ c ∷ d ∷ _ ∷ e ∷ f ∷ _ ∷ g ∷ h ∷ []) =
    if all is_digit (a ∷ b ∷ c ∷ d ∷ e ∷ f ∷ g ∷ h ∷ [])
    then checked_date (digit a * 1000 + digit b * 100 + digit c * 10 + digit d)
        (digit e * 10 + digit f) (digit g * 10 + digit h)
    else none
fromisoformat _ = none

abbrev pub char_at : ℕ → Text → ℕ
char_at n [] = 0
char_at zero (c ∷ s) = c
char_at (suc n) (c ∷ s) = char_at n s

-- A date that does not exist does not hold a change back.
abbrev pub has_begun : Date → Option Date → Bool
has_begun today none = true
has_begun today (some d) = not (date_lt today d)

unfoldable pub is_due_effective : Cycle → Text → Bool
is_due_effective cycle effective =
    let today = cycle.now.date in
    if leb 10 (length effective) && char_at 4 effective == 45 && char_at 7 effective == 45
    then has_begun today (fromisoformat (take 10 effective))
    else if length effective == 7 && char_at 4 effective == 45
    then has_begun today (do
      year ← cycle.parse_int (take 4 effective)
      month ← cycle.parse_int (drop 5 effective)
      checked_date year month 1)
    else true

unfoldable pub changed_plan : Text → Subscription → Subscription
changed_plan plan s =
    let is_free = text_eq (lower (strip plan)) (codes "free") in
    record s {
      plan_code = plan;
      billing_period = text_or (or_empty s.scheduled_billing_period) s.billing_period;
      status = if is_free then trial else active;
      trial_started_at = if is_free then s.trial_started_at else none;
      scheduled_plan_code = none;
      scheduled_billing_period = none;
      scheduled_change_effective_period = none;
      question_warning_period_key = none;
      question_warning_level = 0;
    }

abbrev pub period_end : Cycle → Date
period_end cycle = (current_month_period cycle.now).end.date

abbrev pub change_due :
    Cycle → ℕ → Text → Date → Subscription → BillingDb → Option (Subscription × BillingDb)
change_due cycle tenant_id plan due s db =
    if date_lt cycle.now.date due
      || not (is_due_effective cycle (strip (or_empty s.scheduled_change_effective_period)))
    then some (s, db)
    else let (row, after) = upsert_from_existing cycle.wall tenant_id (changed_plan plan s) db in
      row >>= (λ r. some (r, after))

-- `none` is an error.
unfoldable pub apply_due_scheduled_plan_change :
    Cycle → ℕ → Subscription → BillingDb → Option (Subscription × BillingDb)
apply_due_scheduled_plan_change cycle tenant_id s db =
    let plan = or_empty s.scheduled_plan_code in
    if not (truthy plan)
    then some (s, db)
    else do due ← billing_due_date s (period_end cycle); change_due cycle tenant_id plan due s db

unfoldable pub required_extra_storage_gb : Cycle → ℕ → Subscription → Option ℕ
required_extra_storage_gb cycle tenant_id s = do
  plan ← plan_or_free cycle.plans s.plan_code
  some (cycle.used_gb tenant_id - plan.included_storage_gb)

-- The total of `_estimate_next_invoice`.
unfoldable pub estimate_next_total : Cycle → ℕ → Subscription → Option ℕ
estimate_next_total cycle tenant_id s =
    let plan_code = text_or (or_empty s.scheduled_plan_code) (text_or s.plan_code (codes "free")) in
    let billing_period =
      text_or (or_empty s.scheduled_billing_period) (text_or s.billing_period (codes "monthly")) in
    do
      plan ← plan_or_free cycle.plans plan_code
      extra_gb ← required_extra_storage_gb cycle tenant_id s
      some (
          (plan_monthly_charge_cents_after_discount plan.price_cents (some billing_period)
            + (s.extra_kb_count * 500 + extra_gb * 500))
          * billing_period_multiplier (some billing_period))

abbrev pub monthly_subscription : Text
monthly_subscription = codes "monthly_subscription"

-- `issue_subscription_payment_request` with a billing date and a period key; `none` is an error.
unfoldable pub issue_subscription_payment_request :
    Cycle → ℕ → Subscription → Date → Text → BillingDb → Option BillingDb
issue_subscription_payment_request cycle tenant_id s billing_date key db =
    if text_eq s.plan_code (codes "free")
      || text_eq s.status restricted
      || is_some (get_invoice tenant_id monthly_subscription key db.invoices)
    then some db
    else do
      total ← estimate_next_total cycle tenant_id s
      if total == 0 then some db else do
        next ←
            add_months_to_date billing_date
              (pos (billing_period_multiplier (some s.billing_period)))
        created ←
            create_invoice cycle.wall tenant_id monthly_subscription key total cycle.now
              (codes "issued") (codes "pending") (some cycle.now) db.invoices
        some (record db { invoices = created.1 })

unfoldable pub is_cancelling : Option Cancellation → Bool
is_cancelling none = false
is_cancelling (some c) = text_eq (lower c.status) (codes "deactivation_requested")

-- `InvoicingUseCase.execute`; `none` is an error.
unfoldable pub execute : Cycle → ℕ → Subscription → BillingDb → Option BillingDb
execute cycle tenant_id s db =
    if text_eq s.plan_code (codes "free")
      || text_eq s.status restricted
      || is_cancelling (get_latest_cancellation_request tenant_id db.cancellations)
    then some db
    else do
      billing_date ← billing_due_date s (charge_date_before_expiry (period_end cycle))
      if date_lt cycle.now.date billing_date
            || is_some
                (get_invoice tenant_id monthly_subscription (isoformat billing_date) db.invoices)
            || is_some (
                get_invoice tenant_id (codes "monthly_subscription_failed") (isoformat billing_date)
                  db.invoices)
          then some db
          else issue_subscription_payment_request cycle tenant_id s billing_date
              (isoformat billing_date) db
