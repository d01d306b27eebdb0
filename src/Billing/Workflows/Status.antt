-- ===== src/Billing/Workflows/Status.antt =====
-- `SubscriptionStatus` and `SubscriptionStateMachine` of backend/apps/billing/workflows.py, and the
-- invoices that count against a subscription in `RestrictionUseCase.sync_status`.
use nyzrating.Prelude.{Bool, true, false, not, ◌&&◌, Option, none, some, [], ◌∷◌, if◌then◌else◌}
use nyzrating.Prelude.Text.{Text, codes, text_eq, mem_text, lower}
use nyzrating.Calendar.{DateTime, date_lt, datetime_lt, datetime_le}
use nyzrating.Billing.Domain.{Subscription}
use nyzrating.Billing.Store.Invoices.{Invoice}
use nyzrating.Billing.Store.Cancellations.{Cancellation}

abbrev pub trial : Text
trial = codes "trial"

abbrev pub active : Text
active = codes "active"

abbrev pub restricted : Text
restricted = codes "restricted"

-- An instant that has come.
abbrev pub has_come : DateTime → Option DateTime → Bool
has_come now none = false
has_come now (some t) = datetime_le t now

unfoldable pub is_overdue : DateTime → Option Invoice → Bool
is_overdue now none = false
is_overdue now (some invoice) =
    mem_text invoice.status (codes "issued" ∷ codes "payment_failed" ∷ [])
    && date_lt invoice.due_at.date now.date

unfoldable pub resolve : DateTime → Subscription → Option Invoice → Text
resolve now subscription overdue_invoice =
    if is_overdue now overdue_invoice
    then restricted
    else if text_eq subscription.plan_code (codes "free")
    then if has_come now subscription.trial_ends_at then restricted else trial
    else active

-- A request whose cancellation is in effect.
unfoldable pub is_effective : DateTime → Option Cancellation → Bool
is_effective now none = false
is_effective now (some c) =
    text_eq (lower c.status) (codes "deactivation_requested")
    && has_come now c.effective_at
    && (elim c.deactivated_at [ none ↦ true | some t ↦ false ])

abbrev pub payment_failed : Text
payment_failed = codes "payment_failed"

abbrev pub when_failed : Option Invoice → Option Invoice
when_failed none = none
when_failed (some invoice) = if text_eq invoice.status payment_failed then some invoice else none

-- The invoice of the failed type, when its payment failed after that of the other one.
abbrev pub later_failed : Option Invoice → Option Invoice → Option Invoice
later_failed none failed = failed
later_failed (some monthly) none = some monthly
later_failed (some monthly) (some failed) =
    if datetime_lt monthly.issued_at failed.issued_at then some failed else some monthly

unfoldable pub open_failed : Option Invoice → Option Invoice → Option Invoice
open_failed latest_monthly failed_invoice =
    later_failed (when_failed latest_monthly) (when_failed failed_invoice)

unfoldable pub paid_after : Option Invoice → Invoice → Bool
paid_after none failed = false
paid_after (some paid) failed =
    mem_text paid.status (codes "paid" ∷ codes "simulated_paid" ∷ codes "manual_paid" ∷ [])
    && datetime_lt failed.issued_at paid.issued_at

-- The subscription was written after the invoice was issued.
abbrev pub written_since : Invoice → Option DateTime → Bool
written_since invoice none = false
written_since invoice (some updated_at) = datetime_lt invoice.issued_at updated_at

unfoldable pub overdue_of :
    DateTime → Subscription → Option Invoice → Option Invoice → Option Invoice
overdue_of now subscription paid none = none
overdue_of now subscription paid (some failed) =
    if not (paid_after paid failed)
      && date_lt failed.due_at.date now.date
      && not (written_since failed subscription.updated_at)
    then some failed
    else none
