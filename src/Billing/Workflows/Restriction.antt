-- ===== src/Billing/Workflows/Restriction.antt =====
-- When a subscription is restricted, and for how long.
use nyzrating.Prelude.{
  ℕ, ◌≡◌, refl, Bool, true, false, not, Option, none, some, List, [], ◌∷◌, All, ◌==◌, arith, sym,
  ap, ◌∙◌, subst, inl, inr, Bool-cases,
}
use mathlib.Core.Option.{some-injective}
use nyzrating.Prelude.Text.{Text, codes, text_eq, text_eq_iff, text_eq_refl}
use nyzrating.Calendar.{DateTime, datetime_lt}
use nyzrating.Billing.Domain.{Subscription}
use nyzrating.Billing.Store.Subscriptions.{
  get_subscription, upsert_subscription, written_subscription,
}
use nyzrating.Billing.Store.Invoices.{Invoice, get_latest_invoice_for_type}
use nyzrating.Billing.Store.Cancellations.{Cancellation, get_latest_cancellation_request}
use nyzrating.Billing.Workflows.Status.{
  active, is_overdue, resolve, is_effective, written_since, overdue_of,
}
use nyzrating.Billing.Workflows.Sync.{
  BillingDb, deactivate, close_cancelled, close_unpaid, overdue_invoice, next_status,
  upsert_from_existing, sync_status, is_restricted, assert_not_restricted,
}
use nyzrating.Billing.Workflows.Latest.{Holds, latest-Holds, open_failed-Holds}

-- A row that is written is found.
found_written :
    (wall : DateTime) (tenant_id : ℕ) (s : Subscription) (rows : List Subscription)
    → (created : Option DateTime) × (get_subscription tenant_id
          (upsert_subscription wall tenant_id s rows)
        ≡ some (written_subscription wall tenant_id created s))
unfolding get_subscription upsert_subscription written_subscription
found_written wall tenant_id s [] = (some wall, ground arith)
found_written wall tenant_id s (row ∷ rows) = elim (Bool-cases (row.tenant_id == tenant_id)) [
  | inl own ↦ (row.created_at, simp own (ground arith))
  | inr other ↦
      let (created, found) = found_written wall tenant_id s rows in (created, simp other found)
]

-- A status that changes is written.
written_row :
    (now wall : DateTime) (tenant_id : ℕ) (s : Subscription) (db : BillingDb)
    → text_eq (next_status now tenant_id s db) s.status ≡ false
    → (created : Option DateTime) × ((sync_status now wall tenant_id s db).0
        ≡ some (
            written_subscription wall tenant_id created
              (record s { status = next_status now tenant_id s db })))
unfolding sync_status upsert_from_existing
written_row now wall tenant_id s db other =
    let closed = close_unpaid now tenant_id (overdue_invoice now tenant_id s db) (
      close_cancelled now tenant_id (get_latest_cancellation_request tenant_id db.cancellations)
        db) in
    let (created, found) =
      found_written wall tenant_id (record s { status = next_status now tenant_id s db })
        closed.subscriptions in
    (created, simp other found)

abbrev pub has_status : Text → Option Subscription → Bool
has_status status none = false
has_status status (some s) = text_eq s.status status

-- The status after the sync is the next one.
pub synced_status :
    (now wall : DateTime) (tenant_id : ℕ) (s : Subscription) (db : BillingDb)
    → has_status (next_status now tenant_id s db) (sync_status now wall tenant_id s db).0 ≡ true
unfolding sync_status written_subscription
synced_status now wall tenant_id s db =
    elim (Bool-cases (text_eq (next_status now tenant_id s db) s.status)) [
      | inl same ↦ ground (
        arith,
        text_eq_iff (next_status now tenant_id s db) s.status,
        text_eq_iff s.status (next_status now tenant_id s db),
      )
      | inr other ↦
          let (created, found) = written_row now wall tenant_id s db other in
          ap (has_status (next_status now tenant_id s db)) found
          ∙ text_eq_refl (next_status now tenant_id s db)
    ]

abbrev pub IssuedBefore : DateTime → Invoice → Type 0
IssuedBefore wall i = datetime_lt i.issued_at wall ≡ true

-- No invoice that was issued before the subscription was written restricts it.
overdue-none :
    (now wall : DateTime) (s : Subscription) (paid failed : Option Invoice)
    → s.updated_at ≡ some wall
    → Holds (IssuedBefore wall) failed
    → overdue_of now s paid failed ≡ none
unfolding overdue_of
overdue-none now wall s paid none e h = refl
overdue-none now wall s paid (some i) e h =
    let since : written_since i s.updated_at ≡ true = ap (written_since i) e ∙ h in
    ground (arith, since)

none_overdue :
    (now wall : DateTime) (tenant_id : ℕ) (s : Subscription) (db : BillingDb)
    → s.updated_at ≡ some wall
    → All (IssuedBefore wall) db.invoices.rows
    → overdue_invoice now tenant_id s db ≡ none
unfolding overdue_invoice get_latest_invoice_for_type
none_overdue now wall tenant_id s db e h = overdue-none now wall s _ _ e (
    open_failed-Holds (IssuedBefore wall) _ _
      (latest-Holds (IssuedBefore wall) _ db.invoices.rows h)
      (latest-Holds (IssuedBefore wall) _ db.invoices.rows h))

paid_plan_active :
    (now wall : DateTime) (tenant_id : ℕ) (s : Subscription) (db : BillingDb)
    → s.updated_at ≡ some wall
    → All (IssuedBefore wall) db.invoices.rows
    → text_eq s.plan_code (codes "free") ≡ false
    → is_effective now (get_latest_cancellation_request tenant_id db.cancellations) ≡ false
    → next_status now tenant_id s db ≡ active
unfolding next_status resolve is_overdue
paid_plan_active now wall tenant_id s db e h paid kept =
    simp (kept, none_overdue now wall tenant_id s db e h, paid)

cancelled_invoices :
    (now : DateTime) (tenant_id : ℕ) (c : Option Cancellation) (db : BillingDb)
    → (close_cancelled now tenant_id c db).invoices ≡ db.invoices
unfolding deactivate
cancelled_invoices now tenant_id none db = refl
cancelled_invoices now tenant_id (some c) db = ground arith

closed_invoices :
    (now : DateTime) (tenant_id : ℕ) (c : Option Cancellation) (i : Option Invoice) (db : BillingDb)
    → (close_unpaid now tenant_id i (close_cancelled now tenant_id c db)).invoices ≡ db.invoices
unfolding deactivate
closed_invoices now tenant_id c none db = cancelled_invoices now tenant_id c db
closed_invoices now tenant_id c (some i) db = ground (arith, cancelled_invoices now tenant_id c db)

-- A sync writes no invoice.
synced_invoices :
    (now wall : DateTime) (tenant_id : ℕ) (s : Subscription) (db : BillingDb)
    → (sync_status now wall tenant_id s db).1.invoices ≡ db.invoices
unfolding sync_status upsert_from_existing
synced_invoices now wall tenant_id s db = ground (
  arith,
  closed_invoices now tenant_id (get_latest_cancellation_request tenant_id db.cancellations)
      (overdue_invoice now tenant_id s db) db,
)

changed_row :
    (now wall : DateTime) (tenant_id : ℕ) (s s' : Subscription) (db after : BillingDb)
    → sync_status now wall tenant_id s db ≡ (some s', after)
    → text_eq s'.status s.status ≡ false
    → (s'.updated_at ≡ some wall) × (s'.plan_code ≡ s.plan_code)
unfolding written_subscription sync_status
changed_row now wall tenant_id s s' db after e changed =
    elim (Bool-cases (text_eq (next_status now tenant_id s db) s.status)) [
      | inl same ↦ absurd (ground (arith, text_eq_refl s.status))
      | inr other ↦
          let (created, found) = written_row now wall tenant_id s db other in
          let row = some-injective _ _ (sym (ap (λ x. x.0) e) ∙ found) in
          (ap (λ r. r.updated_at) row, ap (λ r. r.plan_code) row)
    ]

active_free :
    (o : Option Subscription) (status : Text)
    → status ≡ active
    → has_status status o ≡ true
    → not (is_restricted o) ≡ true
unfolding text_eq
active_free none status e h = absurd (ground arith)
active_free (some s) status e h = let same = (text_eq_iff s.status status).0 h ∙ e in rw same refl

-- A sync that changes the status of a subscription to a paid plan stamps its row, and if every
-- invoice was issued before that write, the next check lets the tenant go on at any later time,
-- unless a cancellation is in effect: the restriction for an unpaid invoice ends by itself.
pub restriction_undone :
    (now wall later wall' : DateTime) (tenant_id : ℕ) (s s' : Subscription) (db after : BillingDb)
    → sync_status now wall tenant_id s db ≡ (some s', after)
    → text_eq s'.status s.status ≡ false
    → text_eq s.plan_code (codes "free") ≡ false
    → All (IssuedBefore wall) db.invoices.rows
    → is_effective later (get_latest_cancellation_request tenant_id after.cancellations) ≡ false
    → (assert_not_restricted later wall' tenant_id s' after).0 ≡ true
unfolding assert_not_restricted
restriction_undone now wall later wall' tenant_id s s' db after e changed paid issued kept =
    let (stamped, plan) = changed_row now wall tenant_id s s' db after e changed in
    let invoices : after.invoices ≡ db.invoices =
      sym (ap (λ x. x.1.invoices) e) ∙ synced_invoices now wall tenant_id s db in
    let next =
      paid_plan_active later wall tenant_id s' after stamped
        (subst (λ t. All (IssuedBefore wall) t.rows) (sym invoices) issued)
        (ap (λ p. text_eq p (codes "free")) plan ∙ paid) kept in
    active_free _ _ next (synced_status later wall' tenant_id s' after)
