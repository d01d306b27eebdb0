-- ===== src/Billing/Catalog/Plans.antt =====
-- What the plan map holds.
use nyzrating.Prelude.{
  ◌≡◌, refl, inl, inr, Option, none, some, List, [], ◌∷◌, arith, All, if◌then◌else◌, Bool, true,
  false, Bool-cases, subst,
}
use mathlib.Core.Option.{some-injective}
use nyzrating.Prelude.Text.{Text, codes, text_eq}
use nyzrating.Prelude.Dict.{Dict, get, put, get-put}
use nyzrating.Billing.Domain.{BillingPlan, CatalogEntry}
use nyzrating.Billing.Catalog.{plan_of_row, plan_map_from_catalog, plans_from}

-- The last row that is a plan of the given code.
abbrev pub last_plan : Text → List CatalogEntry → Option CatalogEntry → Option CatalogEntry
last_plan code [] found = found
last_plan code (row ∷ rows) found = last_plan code rows (
    if text_eq row.entry_type (codes "plan")
    then (if text_eq row.code code then some row else found)
    else found)

abbrev pub plan_of : Option CatalogEntry → Option BillingPlan
plan_of none = none
plan_of (some row) = some (plan_of_row row)

get-plans_from :
    (code : Text) (rows : List CatalogEntry) (result : Dict BillingPlan)
    (found : Option CatalogEntry)
    → get code result ≡ plan_of found
    → get code (plans_from result rows) ≡ plan_of (last_plan code rows found)
get-plans_from code [] result found h = h
get-plans_from code (row ∷ rows) result found h =
    get-plans_from code rows _ _ (ground (arith, get-put row.code code (plan_of_row row) result))

-- The plan map holds under a code the plan of the last row of that code whose type is plan, and
-- nothing when there is none.
get-plan_map_from_catalog :
    (code : Text) (rows : List CatalogEntry)
    → get code (plan_map_from_catalog rows) ≡ plan_of (last_plan code rows none)
unfolding plan_map_from_catalog get
get-plan_map_from_catalog code rows = get-plans_from code rows [] none refl

module _ (P : BillingPlan → Type 0) where
  abbrev Holds : Dict BillingPlan → Type 0
  Holds d = (code : Text) (p : BillingPlan) → get code d ≡ some p → P p

  put-Holds :
      (k : Text) (q : BillingPlan) (d : Dict BillingPlan) → P q → Holds d → Holds (put k q d)
  put-Holds k q d pq h code p e = elim (Bool-cases (text_eq k code)) [
    | inl same ↦ subst P (some-injective q p (cc (get-put k code q d, same))) pq
    | inr other ↦ h code p (cc (get-put k code q d, other))
  ]

  if-Holds :
      (b : Bool) (d e : Dict BillingPlan)
      → (b ≡ true → Holds d)
      → Holds e
      → Holds (if b then d else e)
  if-Holds true d e hd he = hd refl
  if-Holds false d e hd he = he

  -- If the row is a plan, the plan has the property.
  abbrev IsGood : CatalogEntry → Type 0
  IsGood row = text_eq row.entry_type (codes "plan") ≡ true → P (plan_of_row row)

  plans_from-All :
      (rows : List CatalogEntry) (result : Dict BillingPlan)
      → All IsGood rows
      → Holds result
      → Holds (plans_from result rows)
  plans_from-All [] result all h = h
  plans_from-All (row ∷ rows) result all h = plans_from-All rows _ all.1 (
      if-Holds (text_eq row.entry_type (codes "plan")) (put row.code (plan_of_row row) result)
        result (λ e. put-Holds row.code (plan_of_row row) result (all.0 e) h) h)

  -- What holds of the plan of every row holds of every plan that is found.
  pub plan_map-All :
      (rows : List CatalogEntry) → All IsGood rows → Holds (plan_map_from_catalog rows)
  unfolding plan_map_from_catalog get
  plan_map-All rows all = plans_from-All rows [] all (λ code p e. cc)
