-- ===== src/Billing/Proration/Downgrade.antt =====
-- Which changes of plan are downgrades, in general and in the catalog that is seeded.
use nyzrating.Prelude.{◌≡◌, ◌⊎◌, Bool, false, arith, ltb, some}
use nyzrating.Prelude.Text.{Text, codes, text_eq}
use nyzrating.Prelude.Dict.{Dict, get}
use nyzrating.Billing.Domain.{BillingPlan, Subscription}
use nyzrating.Billing.Catalog.{plan_map_from_catalog, default_catalog_rows, plan_of_row}
use nyzrating.Billing.Catalog.Plans.{plan_map-All}
use nyzrating.Billing.Proration.{plan_or_free, is_less, is_downgrade}

-- Staying on the plan is no downgrade.
is_downgrade_self :
    (s : Subscription) (plans : Dict BillingPlan) (down : Bool)
    → is_downgrade s s.plan_code plans ≡ some down
    → down ≡ false
unfolding is_downgrade is_less
is_downgrade_self s plans down h = ground arith

-- Only questions and price differ between the seeded plans.
HasNoStorage : BillingPlan → Type 0
HasNoStorage p = (p.included_kbs ≡ 0) × (p.included_storage_gb ≡ 0)

seeded_plan :
    (code : Text) (p : BillingPlan)
    → get code (plan_map_from_catalog default_catalog_rows) ≡ some p
    → HasNoStorage p
unfolding HasNoStorage default_catalog_rows plan_of_row text_eq
seeded_plan = plan_map-All HasNoStorage default_catalog_rows (ground arith)

found_or_free :
    (plans : Dict BillingPlan) (code : Text) (p : BillingPlan)
    → plan_or_free plans code ≡ some p
    → (get code plans ≡ some p) ⊎ (get (codes "free") plans ≡ some p)
unfolding plan_or_free
found_or_free plans code p e = ground arith

-- With the seeded catalog a change between two plans that are found is a downgrade exactly when
-- the price falls.
seeded_downgrade :
    (s : Subscription) (code : Text) (current next : BillingPlan)
    → let plans = plan_map_from_catalog default_catalog_rows in
      plan_or_free plans s.plan_code ≡ some current
      → plan_or_free plans code ≡ some next
      → is_downgrade s code plans ≡ some (ltb next.price_cents current.price_cents)
unfolding is_downgrade is_less HasNoStorage
seeded_downgrade s code current next p q =
    let plans = plan_map_from_catalog default_catalog_rows in
    ground (
      arith,
      found_or_free plans s.plan_code current p,
      found_or_free plans code next q,
      seeded_plan s.plan_code current,
      seeded_plan code next,
      seeded_plan (codes "free") current,
      seeded_plan (codes "free") next,
    )
