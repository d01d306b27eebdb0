-- ===== src/Billing/Workflows/Sync.antt =====
-- `RestrictionUseCase` of backend/apps/billing/workflows.py. The two readings of the clock in one
-- `sync_status` are one instant here.
use nyzrating.Prelude.{
  ℕ, Bool, false, not, ◌&&◌, Option, none, some, List, map, ◌==◌, if◌then◌else◌,
}
use nyzrating.Prelude.Text.{Text, codes, text_eq}
use nyzrating.Calendar.{DateTime, date_le, add_days}
use nyzrating.Billing.Domain.{Subscription}
use nyzrating.Billing.Store.Subscriptions.{get_subscription, upsert_subscription}
use nyzrating.Billing.Store.Invoices.{Invoice, Invoices, get_latest_invoice_for_type}
use nyzrating.Billing.Store.Cancellations.{
  Cancellation, Cancellations, get_latest_cancellation_request, mark_cancellation_deactivated,
}
use nyzrating.Billing.Workflows.Status.{restricted, resolve, is_effective, open_failed, overdue_of}

-- A row of the tenants, as far as the workflows read it.
pub record TenantRow : Type 0 where
  pub tenant_id : ℕ
  pub is_active : Bool

pub record BillingDb : Type 0 where
  pub subscriptions : List Subscription
  pub invoices : Invoices
  pub cancellations : Cancellations
  pub tenants : List TenantRow

abbrev payment_failure_deactivation_days : ℕ
payment_failure_deactivation_days = 30

unfoldable pub deactivate : ℕ → BillingDb → BillingDb
deactivate tenant_id db = record db {
  tenants =
      map (λ row. if row.tenant_id == tenant_id then record row { is_active = false } else row)
        db.tenants;
}

-- A week after a cancellation came into effect.
abbrev pub close_cancelled : DateTime → ℕ → Option Cancellation → BillingDb → BillingDb
close_cancelled now tenant_id none db = db
close_cancelled now tenant_id (some c) db = elim c.effective_at [
  | none ↦ db
  | some effective_at ↦
      if is_effective now (some c) && date_le (add_days effective_at.date 7) now.date
      then record (deactivate tenant_id db) {
        cancellations = (mark_cancellation_deactivated c.id now db.cancellations).1;
      }
      else db
]

-- The deactivation for an invoice that stays unpaid.
abbrev pub close_unpaid : DateTime → ℕ → Option Invoice → BillingDb → BillingDb
close_unpaid now tenant_id none db = db
close_unpaid now tenant_id (some invoice) db =
    if date_le (add_days invoice.due_at.date payment_failure_deactivation_days) now.date
    then deactivate tenant_id db
    else db

-- The invoice that restricts a subscription.
unfoldable pub overdue_invoice : DateTime → ℕ → Subscription → BillingDb → Option Invoice
overdue_invoice now tenant_id subscription db =
    let monthly =
      get_latest_invoice_for_type tenant_id (codes "monthly_subscription") db.invoices in
    let failed =
      get_latest_invoice_for_type tenant_id (codes "monthly_subscription_failed") db.invoices in
    overdue_of now subscription monthly (open_failed monthly failed)

unfoldable pub next_status : DateTime → ℕ → Subscription → BillingDb → Text
next_status now tenant_id subscription db =
    if is_effective now (get_latest_cancellation_request tenant_id db.cancellations)
    then restricted
    else resolve now subscription (overdue_invoice now tenant_id subscription db)

-- `_upsert_subscription_from_existing`, and the row that it returns.
unfoldable pub upsert_from_existing :
    DateTime → ℕ → Subscription → BillingDb → Option Subscription × BillingDb
upsert_from_existing wall tenant_id subscription db =
    let rows = upsert_subscription wall tenant_id subscription db.subscriptions in
    (get_subscription tenant_id rows, record db { subscriptions = rows })

unfoldable pub sync_status :
    DateTime → DateTime → ℕ → Subscription → BillingDb → Option Subscription × BillingDb
sync_status now wall tenant_id subscription db =
    let cancellation = get_latest_cancellation_request tenant_id db.cancellations in
    let status = next_status now tenant_id subscription db in
    let closed =
      close_unpaid now tenant_id (overdue_invoice now tenant_id subscription db)
        (close_cancelled now tenant_id cancellation db) in
    if text_eq status subscription.status
    then (some subscription, closed)
    else upsert_from_existing wall tenant_id (record subscription { status = status }) closed

abbrev pub is_restricted : Option Subscription → Bool
is_restricted none = false
is_restricted (some subscription) = text_eq subscription.status restricted

-- Whether the tenant may go on; the message is left out.
unfoldable pub assert_not_restricted :
    DateTime → DateTime → ℕ → Subscription → BillingDb → Bool × BillingDb
assert_not_restricted now wall tenant_id subscription db =
    let (current, after) = sync_status now wall tenant_id subscription db in
    (not (is_restricted current), after)
