-- ===== src/Billing/Store/Invoices.antt =====
-- The invoices in backend/apps/billing/repositories.py and models.py, by ascending id, less their
-- lines, their currency and their description.
use nyzrating.Prelude.{
  ℕ, ◌+◌, Bool, false, not, ◌&&◌, Option, none, some, List, [], ◌∷◌, ◌++◌, any, ◌==◌, if◌then◌else◌,
  or_else,
}
use nyzrating.Prelude.Text.{Text, codes, text_eq, mem_text}
use nyzrating.Calendar.{DateTime, datetime_lt, datetime_le}

pub record Invoice : Type 0 where
  pub id : ℕ
  pub tenant_id : ℕ
  pub invoice_type : Text
  pub period_key : Text
  pub status : Text
  pub total_cents : ℕ
  pub payment_method : Text
  pub issued_at : DateTime
  pub due_at : DateTime

pub record Invoices : Type 0 where
  pub rows : List Invoice
  pub next_id : ℕ

unfoldable pub is_for : ℕ → Text → Text → Invoice → Bool
is_for tenant_id invoice_type period_key row =
    row.tenant_id == tenant_id
    && text_eq row.invoice_type invoice_type
    && text_eq row.period_key period_key

unfoldable pub find_invoice : (Invoice → Bool) → List Invoice → Option Invoice
find_invoice test [] = none
find_invoice test (row ∷ rows) = if test row then some row else find_invoice test rows

unfoldable pub get_invoice : ℕ → Text → Text → Invoices → Option Invoice
get_invoice tenant_id invoice_type period_key t =
    find_invoice (is_for tenant_id invoice_type period_key) t.rows

unfoldable pub get_invoice_by_id : ℕ → ℕ → Invoices → Option Invoice
get_invoice_by_id tenant_id invoice_id t =
    find_invoice (λ row. row.tenant_id == tenant_id && row.id == invoice_id) t.rows

abbrev insert_if : Option Invoice → Invoice → Invoices → Option (Invoice × Invoices)
insert_if none new t = some (new, record { rows = t.rows ++ new ∷ []; next_id = t.next_id + 1 })
insert_if (some other) new t = none

-- The instant of issue is that of the wall clock by default; `none` is the error of the unique
-- index on tenant, type and period.
unfoldable pub create_invoice :
    DateTime
    → ℕ
    → Text
    → Text
    → ℕ
    → DateTime
    → Text
    → Text
    → Option DateTime
    → Invoices
    → Option (Invoice × Invoices)
create_invoice wall tenant_id invoice_type period_key total_cents due_at status payment_method
      issued_at t =
    insert_if (get_invoice tenant_id invoice_type period_key t)
      (record {
        id = t.next_id;
        tenant_id = tenant_id;
        invoice_type = invoice_type;
        period_key = period_key;
        status = status;
        total_cents = total_cents;
        payment_method = payment_method;
        issued_at = or_else issued_at wall;
        due_at = due_at;
      })
      t

-- The first row by `issued_at desc`; of equal instants, that of the least id.
abbrev pub newer : Invoice → Option Invoice → Option Invoice
newer row none = some row
newer row (some other) = if datetime_lt row.issued_at other.issued_at then some other else some row

unfoldable pub latest : (Invoice → Bool) → List Invoice → Option Invoice
latest test [] = none
latest test (row ∷ rows) = let rest = latest test rows in if test row then newer row rest else rest

unfoldable pub get_latest_invoice_for_type : ℕ → Text → Invoices → Option Invoice
get_latest_invoice_for_type tenant_id invoice_type t =
    latest (λ row. row.tenant_id == tenant_id && text_eq row.invoice_type invoice_type) t.rows

unfoldable pub get_latest_open_subscription_invoice : ℕ → Invoices → Option Invoice
get_latest_open_subscription_invoice tenant_id t =
    latest
      (λ row.
        row.tenant_id == tenant_id
        && text_eq row.invoice_type (codes "monthly_subscription")
        && text_eq row.status (codes "issued"))
      t.rows

abbrev pub debt_of : Option Invoice → Option Invoice → Option Invoice
debt_of none failed = failed
debt_of (some open_issued) none = some open_issued
debt_of (some open_issued) (some failed) =
    if datetime_le failed.issued_at open_issued.issued_at then some open_issued else some failed

unfoldable pub get_latest_unpaid_debt_invoice : ℕ → Invoices → Option Invoice
get_latest_unpaid_debt_invoice tenant_id t =
    debt_of (get_latest_open_subscription_invoice tenant_id t) (
      latest
        (λ row.
          row.tenant_id == tenant_id
          && text_eq row.status (codes "payment_failed")
          && mem_text row.invoice_type
              (codes "monthly_subscription" ∷ codes "monthly_subscription_failed" ∷ []))
        t.rows)

unfoldable pub paid_row : Text → Option Text → Option Text → Invoice → Invoice
paid_row status payment_method invoice_type row = record row {
  status = status;
  payment_method = or_else payment_method row.payment_method;
  invoice_type = or_else invoice_type row.invoice_type;
}

unfoldable pub update_row : ℕ → (Invoice → Invoice) → List Invoice → List Invoice
update_row id f [] = []
update_row id f (row ∷ rows) = if row.id == id then f row ∷ rows else row ∷ update_row id f rows

-- Another row has the tenant, the type and the period of this one.
abbrev pub clashes : ℕ → Option Invoice → List Invoice → Bool
clashes id none rows = false
clashes id (some new) rows =
    any (λ row. not (row.id == id) && is_for new.tenant_id new.invoice_type new.period_key row) rows

-- A missing row is left missing; `none` is the error of the unique index.
unfoldable pub update_invoice_payment_status :
    ℕ → Text → Option Text → Option Text → Invoices → Option Invoices
update_invoice_payment_status id status payment_method invoice_type t =
    let rows = update_row id (paid_row status payment_method invoice_type) t.rows in
    if clashes id (find_invoice (λ row. row.id == id) rows) t.rows
    then none
    else some (record t { rows = rows })
