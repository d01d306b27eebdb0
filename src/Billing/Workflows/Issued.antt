-- ===== src/Billing/Workflows/Issued.antt =====
-- When the cycle issues an invoice, and how often.
use nyzrating.Prelude.{
  ℕ, ◌+◌, ◌≡◌, refl, Bool, true, false, ◌||◌, ◌⊎◌, inl, inr, Option, none, some, is_some, List, [],
  ◌∷◌, ◌++◌, arith, ◌==◌, sym, ap, ◌∙◌, Bool-cases, Option-cases,
}
use nyzrating.Prelude.Int.{pos}
use nyzrating.Prelude.Text.{Text, codes, text_eq, text_eq_refl}
use nyzrating.Calendar.{Date, DateTime, date_lt}
use nyzrating.Billing.Domain.{Subscription}
use nyzrating.Billing.Calculations.{
  add_months_to_date, billing_period_multiplier, charge_date_before_expiry,
}
use nyzrating.Billing.Store.Invoices.{
  Invoice, Invoices, is_for, find_invoice, get_invoice, create_invoice,
}
use nyzrating.Billing.Store.Cancellations.{get_latest_cancellation_request}
use nyzrating.Billing.Workflows.Status.{restricted}
use nyzrating.Billing.Workflows.Sync.{BillingDb}
use nyzrating.Billing.Workflows.Cycle.{
  Cycle, isoformat, billing_due_date, period_end, estimate_next_total, monthly_subscription,
  issue_subscription_payment_request, is_cancelling, execute,
}

-- An invoice of the subscription's total, issued now for a date that has come.
pub record IsIssued (cycle : Cycle) (tenant_id : ℕ) (s : Subscription) (db after : BillingDb)
    : Type 0 where
  pub not_free : text_eq s.plan_code (codes "free") ≡ false
  pub not_restricted : text_eq s.status restricted ≡ false
  pub not_cancelling :
      is_cancelling (get_latest_cancellation_request tenant_id db.cancellations) ≡ false
  pub due : Date
  pub has_due : billing_due_date s (charge_date_before_expiry (period_end cycle)) ≡ some due
  pub due_has_come : date_lt cycle.now.date due ≡ false
  pub first : get_invoice tenant_id monthly_subscription (isoformat due) db.invoices ≡ none
  pub invoice : Invoice
  pub is_added : after.invoices.rows ≡ db.invoices.rows ++ invoice ∷ []
  pub is_total : estimate_next_total cycle tenant_id s ≡ some invoice.total_cents
  pub is_open : invoice.status ≡ codes "issued"
  pub is_kept :
      get_invoice tenant_id monthly_subscription (isoformat due) after.invoices ≡ some invoice
  pub cancellations_kept : after.cancellations ≡ db.cancellations

find-new :
    (test : Invoice → Bool) (rows : List Invoice) (new : Invoice)
    → find_invoice test rows ≡ none
    → test new ≡ true
    → find_invoice test (rows ++ new ∷ []) ≡ some new
unfolding find_invoice
find-new test [] new h p = rw p
find-new test (row ∷ rows) new h p = ground (arith, find-new test rows new)

-- A row that is created stands at the end, and is found.
create-found :
    (wall : DateTime) (tenant_id : ℕ) (key : Text) (total : ℕ) (now : DateTime) (t : Invoices)
    → get_invoice tenant_id monthly_subscription key t ≡ none
    → (row : Invoice) × (u : Invoices) × (create_invoice wall tenant_id monthly_subscription key
          total now
          (codes "issued")
          (codes "pending")
          (some now)
          t
        ≡ some (row, u))
      × (u.rows ≡ t.rows ++ row ∷ [])
      × (row.total_cents ≡ total)
      × (row.status ≡ codes "issued")
      × (get_invoice tenant_id monthly_subscription key u ≡ some row)
unfolding create_invoice get_invoice is_for
create-found wall tenant_id key total now t free =
    let row : Invoice = record {
      id = t.next_id;
      tenant_id = tenant_id;
      invoice_type = monthly_subscription;
      period_key = key;
      status = codes "issued";
      total_cents = total;
      payment_method = codes "pending";
      issued_at = now;
      due_at = now;
    } in
    (
      row,
      record { rows = t.rows ++ row ∷ []; next_id = t.next_id + 1 },
      simp free,
      refl,
      refl,
      refl,
      find-new (is_for tenant_id monthly_subscription key) t.rows row free
          (ground (arith, text_eq_refl monthly_subscription, text_eq_refl key)),
    )

-- The guards of the invoicing.
abbrev is_excluded : ℕ → Subscription → BillingDb → Bool
is_excluded tenant_id s db =
    text_eq s.plan_code (codes "free")
    || text_eq s.status restricted
    || is_cancelling (get_latest_cancellation_request tenant_id db.cancellations)

abbrev is_settled : Cycle → ℕ → Date → BillingDb → Bool
is_settled cycle tenant_id due db =
    date_lt cycle.now.date due
    || is_some (get_invoice tenant_id monthly_subscription (isoformat due) db.invoices)
    || is_some
        (get_invoice tenant_id (codes "monthly_subscription_failed") (isoformat due) db.invoices)

not_some {ℓ} : {A : Type ℓ} (o : Option A) → is_some o ≡ false → o ≡ none
not_some none h = refl
not_some (some a) h = absurd (ground arith)

issue-IsIssued :
    (cycle : Cycle) (tenant_id : ℕ) (s : Subscription) (db after : BillingDb) (due : Date)
    → is_excluded tenant_id s db ≡ false
    → billing_due_date s (charge_date_before_expiry (period_end cycle)) ≡ some due
    → is_settled cycle tenant_id due db ≡ false
    → issue_subscription_payment_request cycle tenant_id s due (isoformat due) db ≡ some after
    → (after ≡ db) ⊎ IsIssued cycle tenant_id s db after
unfolding issue_subscription_payment_request
issue-IsIssued cycle tenant_id s db after due excluded has_due settled e =
    let key = isoformat due in
    let free : get_invoice tenant_id monthly_subscription key db.invoices ≡ none =
      not_some _ (ground arith) in
    elim (Option-cases (estimate_next_total cycle tenant_id s)) [
      | inl missing ↦ absurd (ground arith)
      | inr (total, has_total) ↦ elim (Bool-cases (total == 0)) [
        | inl nothing ↦ inl (ground arith)
        | inr positive ↦
            elim (Option-cases
              (add_months_to_date due (pos (billing_period_multiplier (some s.billing_period))))) [
                | inl missing ↦ absurd (ground arith)
                | inr (next, has_next) ↦
                    let (row, u, created, added, same_total, issued, kept) =
                      create-found cycle.wall tenant_id key total cycle.now db.invoices free in
                    let same : after ≡ record db { invoices = u } = ground arith in
                    inr (record {
                      not_free = ground arith;
                      not_restricted = ground arith;
                      not_cancelling = ground arith;
                      due = due;
                      has_due = has_due;
                      due_has_come = ground arith;
                      first = free;
                      invoice = row;
                      is_added = ap (λ d. d.invoices.rows) same ∙ added;
                      is_total = has_total ∙ ap some (sym same_total);
                      is_open = issued;
                      is_kept =
                          ap (λ d. get_invoice tenant_id monthly_subscription key d.invoices) same
                          ∙ kept;
                      cancellations_kept = ap (λ d. d.cancellations) same;
                    })
              ]
      ]
    ]

pub execute-IsIssued :
    (cycle : Cycle) (tenant_id : ℕ) (s : Subscription) (db after : BillingDb)
    → execute cycle tenant_id s db ≡ some after
    → (after ≡ db) ⊎ IsIssued cycle tenant_id s db after
unfolding execute
execute-IsIssued cycle tenant_id s db after e = elim (Bool-cases (is_excluded tenant_id s db)) [
  | inl excluded ↦ inl (ground arith)
  | inr included ↦
      elim (Option-cases (billing_due_date s (charge_date_before_expiry (period_end cycle)))) [
        | inl missing ↦ absurd (ground arith)
        | inr (due, has_due) ↦ elim (Bool-cases (is_settled cycle tenant_id due db)) [
          | inl settled ↦ inl (ground arith)
          | inr unsettled ↦
              issue-IsIssued cycle tenant_id s db after due included has_due unsettled
                (ground arith)
        ]
      ]
]

issued_again :
    (cycle : Cycle) (tenant_id : ℕ) (s : Subscription) (db after : BillingDb)
    → IsIssued cycle tenant_id s db after
    → execute cycle tenant_id s after ≡ some after
unfolding execute
issued_again cycle tenant_id s db after i = simp (
  i.not_free, i.not_restricted, i.cancellations_kept, i.not_cancelling, i.has_due, i.due_has_come,
  i.is_kept,
)

-- After an invoicing that ends without an error, a second one of the same subscription in the
-- same run of the cycle ends without an error and writes nothing.
pub execute-idempotent :
    (cycle : Cycle) (tenant_id : ℕ) (s : Subscription) (db after : BillingDb)
    → execute cycle tenant_id s db ≡ some after
    → execute cycle tenant_id s after ≡ some after
execute-idempotent cycle tenant_id s db after e =
    elim (execute-IsIssued cycle tenant_id s db after e) [
      | inl same ↦ ap (execute cycle tenant_id s) same ∙ e
      | inr issued ↦ issued_again cycle tenant_id s db after issued
    ]
