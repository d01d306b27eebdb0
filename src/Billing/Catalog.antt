-- ===== src/Billing/Catalog.antt =====
-- backend/apps/billing/catalog.py: plans and add-ons by code, built from catalog rows. Each map is
-- a `dict`, so that a later row of the same code replaces the earlier one.
pub mod Rows
pub mod Plans
pub use Rows.{default_currency}
unfoldable pub use Rows.{default_catalog_rows}
use nyzrating.Prelude.{ℕ, Option, none, some, List, [], ◌∷◌, if◌then◌else◌, or_else, map}
use nyzrating.Prelude.Text.{Text, codes, text_eq}
use nyzrating.Prelude.Dict.{Dict, get, put, merge}
use nyzrating.Billing.Domain.{Value, null, num, BillingPlan, BillingAddon, CatalogEntry}

-- `included.get(name)`, where a missing name and a null are both `None`.
abbrev pub included_value : Text → CatalogEntry → Option ℕ
included_value name row = or_else (get name row.included) none

-- `int(included.get(name) or 0)`
abbrev pub included_int : Text → CatalogEntry → ℕ
included_int name row = or_else (included_value name row) 0

unfoldable pub plan_of_row : CatalogEntry → BillingPlan
unfolding get
plan_of_row row = record {
  code = row.code;
  name = row.name;
  price_cents = row.price_cents;
  included_kbs = included_int (codes "knowledge_bases") row;
  included_storage_gb = included_int (codes "storage_gb") row;
  included_questions_monthly = included_int (codes "questions_monthly") row;
  max_users = included_value (codes "max_users") row;
  trial_days = included_int (codes "trial_days") row;
  included_training_chars = included_int (codes "training_chars") row;
}

abbrev plans_from : Dict BillingPlan → List CatalogEntry → Dict BillingPlan
plans_from result [] = result
plans_from result (row ∷ rows) =
    plans_from
      (if text_eq row.entry_type (codes "plan")
        then put row.code (plan_of_row row) result
        else result)
      rows

unfoldable pub plan_map_from_catalog : List CatalogEntry → Dict BillingPlan
unfolding put
plan_map_from_catalog rows = plans_from [] rows

abbrev to_value : Text × Option ℕ → Text × Value
to_value (k, none) = (k, null)
to_value (k, some n) = (k, num n)

unfoldable pub addon_of_row : CatalogEntry → BillingAddon
unfolding merge
addon_of_row row = record {
  code = row.code;
  name = row.name;
  price_cents = row.price_cents;
  metadata = merge (map to_value row.included) row.metadata_json;
}

abbrev addons_from : Dict BillingAddon → List CatalogEntry → Dict BillingAddon
addons_from result [] = result
addons_from result (row ∷ rows) =
    addons_from
      (if text_eq row.entry_type (codes "addon")
        then put row.code (addon_of_row row) result
        else result)
      rows

unfoldable pub addon_map_from_catalog : List CatalogEntry → Dict BillingAddon
unfolding put
addon_map_from_catalog rows = addons_from [] rows
