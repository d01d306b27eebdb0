-- ===== src/Billing/Domain.antt =====
-- backend/apps/billing/domain.py, and the rows of backend/apps/billing/models.py that the other
-- modules read.
use nyzrating.Prelude.{ℕ, Bool, Option}
use nyzrating.Prelude.Int.{ℤ}
use nyzrating.Prelude.Text.{Text}
use nyzrating.Prelude.Dict.{Dict}
use nyzrating.Calendar.{DateTime}

-- A JSON value of the catalog's metadata.
pub data Value : Type 0 where
  null : Value
  num : ℕ → Value
  flag : Bool → Value
  str : Text → Value

pub record BillingPlan : Type 0 where
  pub code : Text
  pub name : Text
  pub price_cents : ℕ
  pub included_kbs : ℕ
  pub included_storage_gb : ℕ
  pub included_questions_monthly : ℕ
  pub max_users : Option ℕ
  pub trial_days : ℕ
  pub included_training_chars : ℕ

pub record BillingAddon : Type 0 where
  pub code : Text
  pub name : Text
  pub price_cents : ℕ
  pub metadata : Dict Value

-- A row of `billing_catalog_entries`; `included` maps names to numbers or null.
pub record CatalogEntry : Type 0 where
  pub entry_type : Text
  pub code : Text
  pub name : Text
  pub currency : Text
  pub price_cents : ℕ
  pub included : Dict (Option ℕ)
  pub metadata_json : Dict Value
  pub is_active : Bool

-- A row of `billing_subscriptions`, less its id.
pub record Subscription : Type 0 where
  pub tenant_id : ℕ
  pub plan_code : Text
  pub billing_period : Text
  pub status : Text
  pub trial_started_at : Option DateTime
  pub trial_ends_at : Option DateTime
  pub extra_kb_count : ℕ
  pub extra_storage_gb : ℕ
  pub carryover_addon_questions : ℤ
  pub carryover_training_chars : ℕ
  pub scheduled_plan_code : Option Text
  pub scheduled_billing_period : Option Text
  pub scheduled_change_effective_period : Option Text
  pub question_warning_period_key : Option Text
  pub question_warning_level : ℕ
  pub created_at : Option DateTime
  pub updated_at : Option DateTime
