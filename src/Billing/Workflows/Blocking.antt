-- ===== src/Billing/Workflows/Blocking.antt =====
-- What stops a tenant.
use nyzrating.Prelude.{
  ℕ, ◌≡◌, refl, Bool, true, not, ◌&&◌, ◌||◌, Option, none, some, is_some, arith, ap, ◌∙◌, inl, inr,
  Bool-cases,
}
use nyzrating.Prelude.Text.{Text, codes, text_eq, text_eq_iff, mem_text}
use nyzrating.Calendar.{DateTime}
use nyzrating.Billing.Domain.{Subscription}
use nyzrating.Billing.Store.Invoices.{Invoice}
use nyzrating.Billing.Store.Cancellations.{get_latest_cancellation_request}
use nyzrating.Billing.Workflows.Status.{
  restricted, payment_failed, has_come, is_overdue, resolve, is_effective, when_failed, open_failed,
  overdue_of,
}
use nyzrating.Billing.Workflows.Sync.{
  BillingDb, overdue_invoice, next_status, is_restricted, assert_not_restricted,
}
use nyzrating.Billing.Workflows.Restriction.{has_status, synced_status}
use nyzrating.Billing.Workflows.Latest.{Holds, later-Holds}

abbrev IsFailed : Invoice → Type 0
IsFailed i = text_eq i.status payment_failed ≡ true

when_failed-Holds : (o : Option Invoice) → Holds IsFailed (when_failed o)
when_failed-Holds none = tt
when_failed-Holds (some i) = elim (Bool-cases (text_eq i.status payment_failed)) [
  | inl same ↦ simp same refl
  | inr other ↦ simp other tt
]

-- The invoice that restricts is overdue.
overdue-Holds :
    (now : DateTime) (s : Subscription) (paid failed : Option Invoice)
    → Holds IsFailed failed
    → is_overdue now (overdue_of now s paid failed) ≡ is_some (overdue_of now s paid failed)
unfolding overdue_of is_overdue mem_text
overdue-Holds now s paid none h = refl
overdue-Holds now s paid (some i) h = ground (arith, h)

overdue_exactly :
    (now : DateTime) (tenant_id : ℕ) (s : Subscription) (db : BillingDb)
    → is_overdue now (overdue_invoice now tenant_id s db)
      ≡ is_some (overdue_invoice now tenant_id s db)
unfolding overdue_invoice open_failed
overdue_exactly now tenant_id s db = overdue-Holds now s _ _ (
    later-Holds IsFailed (when_failed _) (when_failed _) (when_failed-Holds _)
      (when_failed-Holds _))

restricted_exactly :
    (o : Option Subscription) (status : Text)
    → has_status status o ≡ true
    → is_restricted o ≡ text_eq status restricted
restricted_exactly none status h = cc
restricted_exactly (some s) status h =
    ap (λ t. text_eq t restricted) ((text_eq_iff s.status status).0 h)

-- A cancellation is in effect, an invoice is overdue, or the trial of a free plan is over.
abbrev pub blocks : DateTime → ℕ → Subscription → BillingDb → Bool
blocks now tenant_id s db =
    is_effective now (get_latest_cancellation_request tenant_id db.cancellations)
    || is_some (overdue_invoice now tenant_id s db)
    || (text_eq s.plan_code (codes "free") && has_come now s.trial_ends_at)

next_blocked :
    (now : DateTime) (tenant_id : ℕ) (s : Subscription) (db : BillingDb)
    → text_eq (next_status now tenant_id s db) restricted ≡ blocks now tenant_id s db
unfolding next_status resolve text_eq
next_blocked now tenant_id s db = ground (arith, overdue_exactly now tenant_id s db)

-- A tenant may go on exactly when no cancellation is in effect, no invoice of a failed payment
-- restricts the subscription, and it is not on a free plan whose trial is over; whatever status
-- the subscription had.
pub assert_not_restricted-blocks :
    (now wall : DateTime) (tenant_id : ℕ) (s : Subscription) (db : BillingDb)
    → (assert_not_restricted now wall tenant_id s db).0 ≡ not (blocks now tenant_id s db)
unfolding assert_not_restricted
assert_not_restricted-blocks now wall tenant_id s db = ap not (
    restricted_exactly _ (next_status now tenant_id s db) (synced_status now wall tenant_id s db)
    ∙ next_blocked now tenant_id s db)
