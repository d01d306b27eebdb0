-- ===== src/Billing/Calculations/Prices.antt =====
-- Prices after the discount of a billing period.
use nyzrating.Prelude.{
  ℕ, zero, suc, ◌+◌, ◌-◌, ◌*◌, ◌%◌, ◌≤◌, ◌<◌, ◌≡◌, ◌⊎◌, arith, Option, some, ◌^◌,
}
use nyzrating.Prelude.Int.{pos}
use nyzrating.Prelude.Text.{Text}
use nyzrating.Billing.Calculations.{
  round_div, round_storage_gb, discount_percent, plan_monthly_charge_cents_after_discount,
  billing_period_multiplier,
}

-- Every billing period is one of three: monthly at full price, quarterly at 7 percent off, yearly
-- at 15 percent off.
period_terms :
    (p : Option Text)
    → ((discount_percent p ≡ 0) × (billing_period_multiplier p ≡ 1))
      ⊎ ((discount_percent p ≡ 7) × (billing_period_multiplier p ≡ 3))
      ⊎ ((discount_percent p ≡ 15) × (billing_period_multiplier p ≡ 12))
unfolding discount_percent billing_period_multiplier
period_terms p = ground arith

-- The rounding error of a percentage is at most half a unit, and a half goes to an even number.
round_percent_error :
    (n : ℕ)
    → let r = round_div n 100 in
      (n ≤ 100 * r + 50) × (100 * r ≤ n + 50) × (n % 100 ≡ 50 → r % 2 ≡ 0)
unfolding round_div
round_percent_error n = ground arith

-- Rounding is monotone.
round_percent_mono : (m n : ℕ) → m ≤ n → round_div m 100 ≤ round_div n 100
unfolding round_div
round_percent_mono m n h = ground arith

-- The monthly charge is a whole number of hundreds of cents, is at most the price, and is at
-- most half a cent above the discounted price and less than 100.5 cents below it.
pub charge_bounds :
    (price : ℕ) (p : Option Text)
    → let charge = plan_monthly_charge_cents_after_discount price p in
      (charge % 100 ≡ 0)
      × (charge ≤ price)
      × (100 * charge ≤ price * (100 - discount_percent p) + 50)
      × (price * (100 - discount_percent p) < 100 * charge + 10050)
unfolding plan_monthly_charge_cents_after_discount
charge_bounds price p = ground (arith, period_terms p)

-- Under one billing period a higher price has a charge that is not lower.
charge_mono :
    (low high : ℕ) (p : Option Text)
    → low ≤ high
    → plan_monthly_charge_cents_after_discount low p
      ≤ plan_monthly_charge_cents_after_discount high p
unfolding plan_monthly_charge_cents_after_discount
charge_mono low high p h = ground (arith, period_terms p)

-- A longer billing period has a monthly charge that is not higher.
charge_period_anti :
    (price : ℕ) (p q : Option Text)
    → billing_period_multiplier p ≤ billing_period_multiplier q
    → plan_monthly_charge_cents_after_discount price q
      ≤ plan_monthly_charge_cents_after_discount price p
unfolding plan_monthly_charge_cents_after_discount
charge_period_anti price p q h = ground (arith, period_terms p, period_terms q)

-- The rounded number of gigabytes is the least that holds the bytes.
round_storage_gb-least :
    (n : ℕ)
    → 0 < n
    → let g = round_storage_gb (some (pos n)) in (n ≤ g * 1024 ^ 3) × (g * 1024 ^ 3 < n + 1024 ^ 3)
unfolding round_storage_gb
round_storage_gb-least zero h = elim h [ ]
round_storage_gb-least (suc n) h = ground arith
