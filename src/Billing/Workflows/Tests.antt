-- ===== src/Billing/Workflows/Tests.antt =====
-- Runs of the workflows, and their theorems at examples.
use nyzrating.Prelude.{ℕ, ◌≡◌, refl, true, not, none, some, [], ◌∷◌}
use nyzrating.Prelude.Int.{pos}
use nyzrating.Prelude.Text.{codes, text_eq, mem_text, lower, strip}
use nyzrating.Prelude.Dict.{get}
use nyzrating.Calendar.{DateTime, date_lt, date_le, datetime_lt, add_days, next_day, days_in_month}
use nyzrating.Billing.Domain.{BillingPlan, Subscription}
use nyzrating.Billing.Calculations.{
  add_months_to_date, billing_period_multiplier, plan_monthly_charge_cents_after_discount,
  format_02d, format_04d, normalized_period, apply_discount, discount_percent, round_div,
  add_months,
}
use nyzrating.Billing.Proration.{plan_or_free}
use nyzrating.Billing.Store.Subscriptions.{
  get_subscription, upsert_subscription, written_subscription,
}
use nyzrating.Billing.Store.Invoices.{
  Invoice, get_latest_invoice_for_type, latest, get_invoice, find_invoice, create_invoice,
}
use nyzrating.Billing.Store.Cancellations.{get_latest_cancellation_request, latest_request}
use nyzrating.Billing.Workflows.Status.{
  is_overdue, resolve, is_effective, open_failed, paid_after, overdue_of,
}
use nyzrating.Billing.Workflows.Sync.{
  BillingDb, overdue_invoice, next_status, upsert_from_existing, sync_status, assert_not_restricted,
}
use nyzrating.Billing.Workflows.Restriction.{restriction_undone}
use nyzrating.Billing.Workflows.Blocking.{blocks, assert_not_restricted-blocks}
use nyzrating.Billing.Workflows.Cycle.{
  Cycle, execute, billing_due_date, isoformat, is_cancelling, issue_subscription_payment_request,
  estimate_next_total, required_extra_storage_gb,
}
use nyzrating.Billing.Workflows.Issued.{execute-idempotent}

abbrev january : ℕ → DateTime
january day = record { date = record { year = 2026; month = 1; day = day }; time = 0 }

abbrev customer : Subscription
customer = record {
  tenant_id = 7;
  plan_code = codes "starter";
  billing_period = codes "monthly";
  status = codes "active";
  trial_started_at = none;
  trial_ends_at = some (january 10);
  extra_kb_count = 0;
  extra_storage_gb = 0;
  carryover_addon_questions = pos 0;
  carryover_training_chars = 0;
  scheduled_plan_code = none;
  scheduled_billing_period = none;
  scheduled_change_effective_period = none;
  question_warning_period_key = none;
  question_warning_level = 0;
  created_at = none;
  updated_at = none;
}

abbrev failed_invoice : Invoice
failed_invoice = record {
  id = 1;
  tenant_id = 7;
  invoice_type = codes "monthly_subscription_failed";
  period_key = codes "2026-01-10";
  status = codes "payment_failed";
  total_cents = 890000;
  payment_method = codes "auto_retry_failed";
  issued_at = january 10;
  due_at = january 10;
}

abbrev before : BillingDb
before = record {
  subscriptions = customer ∷ [];
  invoices = record { rows = failed_invoice ∷ []; next_id = 2 };
  cancellations = record { rows = []; next_id = 1 };
  tenants = record { tenant_id = 7; is_active = true } ∷ [];
}

abbrev stopped : Subscription
stopped = record customer { status = codes "restricted"; updated_at = some (january 12) }

abbrev after : BillingDb
after = record before { subscriptions = stopped ∷ [] }

restricts : sync_status (january 12) (january 12) 7 customer before ≡ (some stopped, after)
unfolding sync_status next_status overdue_invoice get_latest_invoice_for_type latest text_eq
    get_latest_cancellation_request latest_request is_effective open_failed overdue_of paid_after
    date_lt date_le datetime_lt add_days next_day days_in_month resolve is_overdue mem_text
    upsert_from_existing upsert_subscription written_subscription get_subscription
restricts = refl

-- The next day the customer goes on, although nothing was paid.
restriction_undone_example :
    (assert_not_restricted (january 13) (january 13) 7 stopped after).0 ≡ true
unfolding text_eq datetime_lt date_lt is_effective get_latest_cancellation_request latest_request
restriction_undone_example =
    restriction_undone (january 12) (january 12) (january 13) (january 13) 7 customer stopped before
      after restricts refl refl (refl, tt) refl

assert_not_restricted-blocks_example :
    (assert_not_restricted (january 12) (january 12) 7 customer before).0
    ≡ not (blocks (january 12) 7 customer before)
assert_not_restricted-blocks_example =
    assert_not_restricted-blocks (january 12) (january 12) 7 customer before

abbrev starter : BillingPlan
starter = record {
  code = codes "starter";
  name = codes "Starter";
  price_cents = 890000;
  included_kbs = 0;
  included_storage_gb = 0;
  included_questions_monthly = 40;
  max_users = none;
  trial_days = 0;
  included_training_chars = 0;
}

abbrev cycle : Cycle
cycle = record {
  now = january 10;
  wall = january 10;
  plans = (codes "starter", starter) ∷ [];
  used_gb = λ tenant_id. 0;
  parse_int = λ t. none;
}

abbrev unbilled : BillingDb
unbilled = record before { invoices = record { rows = []; next_id = 1 } }

abbrev billed : BillingDb
billed = record unbilled {
  invoices = record {
    rows =
        record {
          id = 1;
          tenant_id = 7;
          invoice_type = codes "monthly_subscription";
          period_key = codes "2026-01-10";
          status = codes "issued";
          total_cents = 890000;
          payment_method = codes "pending";
          issued_at = january 10;
          due_at = january 10;
        }
        ∷ [];
    next_id = 2;
  };
}

bills : execute cycle 7 customer unbilled ≡ some billed
unfolding execute text_eq is_cancelling get_latest_cancellation_request latest_request
    billing_due_date isoformat format_02d format_04d date_lt get_invoice find_invoice
    issue_subscription_payment_request estimate_next_total required_extra_storage_gb plan_or_free
    get plan_monthly_charge_cents_after_discount apply_discount discount_percent normalized_period
    billing_period_multiplier round_div add_months_to_date add_months days_in_month create_invoice
    lower strip
bills = refl

execute-idempotent_example : execute cycle 7 customer billed ≡ some billed
execute-idempotent_example = execute-idempotent cycle 7 customer unbilled billed bills
