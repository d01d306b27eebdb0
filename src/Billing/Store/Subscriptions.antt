-- ===== src/Billing/Store/Subscriptions.antt =====
-- The subscriptions in backend/apps/billing/repositories.py: one row for a tenant.
use nyzrating.Prelude.{ℕ, Option, none, some, List, [], ◌∷◌, ◌==◌, if◌then◌else◌}
use nyzrating.Calendar.{DateTime}
use nyzrating.Billing.Domain.{Subscription}

unfoldable pub get_subscription : ℕ → List Subscription → Option Subscription
get_subscription tenant_id [] = none
get_subscription tenant_id (row ∷ rows) =
    if row.tenant_id == tenant_id then some row else get_subscription tenant_id rows

-- The row keeps its creation time and takes the time of the write.
unfoldable pub written_subscription : DateTime → ℕ → Option DateTime → Subscription → Subscription
written_subscription wall tenant_id created s = record s {
  tenant_id = tenant_id;
  created_at = created;
  updated_at = some wall;
}

unfoldable pub upsert_subscription :
    DateTime → ℕ → Subscription → List Subscription → List Subscription
upsert_subscription wall tenant_id s [] = written_subscription wall tenant_id (some wall) s ∷ []
upsert_subscription wall tenant_id s (row ∷ rows) =
    if row.tenant_id == tenant_id
    then written_subscription wall tenant_id row.created_at s ∷ rows
    else row ∷ upsert_subscription wall tenant_id s rows
