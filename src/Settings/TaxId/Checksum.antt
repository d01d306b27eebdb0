-- ===== src/Settings/TaxId/Checksum.antt =====
-- What the check digit of a tax number finds.
use nyzrating.Prelude.{
  ℕ, zero, suc, ◌+◌, ◌*◌, ◌%◌, ◌<◌, ◌≡◌, ◌≢◌, true, false, List, [], ◌∷◌, length, all, arith, inl,
  inr, Bool-cases, sym,
}
use nyzrating.Prelude.Text.{Text}
use nyzrating.Settings.TaxId.{Digits, weighted, weights, checksum_ok}

abbrev pub replace_at : ℕ → ℕ → Text → Text
replace_at i x [] = []
replace_at zero x (d ∷ digits) = x ∷ digits
replace_at (suc i) x (d ∷ digits) = d ∷ replace_at i x digits

abbrev pub item_at : ℕ → List ℕ → ℕ
item_at i [] = 0
item_at zero (d ∷ digits) = d
item_at (suc i) (d ∷ digits) = item_at i digits

-- A decimal has a value from 0 to 9.
pub record IsDigits (u : Digits) : Type 0 where
  pub value_below : (c : ℕ) → u.is_decimal c ≡ true → u.value c < 10

module _ (u : Digits) (laws : IsDigits u) where
  weighted-replace_at :
      (ws : List ℕ) (i x : ℕ) (digits : Text)
      → length ws ≡ length digits
      → i < length digits
      → weighted u ws (replace_at i x digits) + item_at i ws * u.value (item_at i digits)
        ≡ weighted u ws digits + item_at i ws * u.value x
  weighted-replace_at ws i x [] e h = ground arith
  weighted-replace_at [] i x (d ∷ digits) e h = ground arith
  weighted-replace_at (w ∷ ws) zero x (d ∷ digits) e h = ground arith
  weighted-replace_at (w ∷ ws) (suc i) x (d ∷ digits) e h =
      omega (arith, weighted-replace_at ws i x digits (omega arith) (omega arith))

  item_below :
      (i : ℕ) (digits : Text)
      → i < length digits
      → all u.is_decimal digits ≡ true
      → u.value (item_at i digits) < 10
  item_below i [] h p = ground arith
  item_below zero (d ∷ digits) h p = laws.value_below d (ground arith)
  item_below (suc i) (d ∷ digits) h p = item_below i digits (omega arith) (ground arith)

  -- A weight of the checksum tells two digits apart.
  weights_differ :
      (i a b t s : ℕ)
      → i < 8
      → a < 10
      → b < 10
      → t % 10 ≡ 0
      → s % 10 ≡ 0
      → s + item_at i (weights u) * a ≡ t + item_at i (weights u) * b
      → a ≡ b
  weights_differ zero a b t s h p q r k e = omega arith
  weights_differ (suc zero) a b t s h p q r k e = omega arith
  weights_differ (suc (suc zero)) a b t s h p q r k e = omega arith
  weights_differ (suc (suc (suc zero))) a b t s h p q r k e = omega arith
  weights_differ (suc (suc (suc (suc zero)))) a b t s h p q r k e = omega arith
  weights_differ (suc (suc (suc (suc (suc zero))))) a b t s h p q r k e = omega arith
  weights_differ (suc (suc (suc (suc (suc (suc zero)))))) a b t s h p q r k e = omega arith
  weights_differ (suc (suc (suc (suc (suc (suc (suc zero))))))) a b t s h p q r k e = omega arith
  weights_differ (suc (suc (suc (suc (suc (suc (suc (suc i)))))))) a b t s h p q r k e = omega arith

  -- Where the values of decimals are from 0 to 9, a change of one of eight digits that pass the
  -- check of the tax number to a decimal of another value makes the check fail.
  pub single_error_found :
      (i x : ℕ) (digits : Text)
      → i < 8
      → checksum_ok u digits ≡ true
      → u.is_decimal x ≡ true
      → u.value x ≢ u.value (item_at i digits)
      → checksum_ok u (replace_at i x digits) ≡ false
  unfolding checksum_ok
  single_error_found i x digits h ok decimal other =
      elim (Bool-cases (checksum_ok u (replace_at i x digits))) [
        | inr bad ↦ bad
        | inl good ↦ absurd (
            other (
              sym (
                weights_differ i (u.value (item_at i digits)) (u.value x)
                  (weighted u (weights u) digits) (weighted u (weights u) (replace_at i x digits)) h
                  (item_below i digits (ground arith) (ground arith)) (laws.value_below x decimal)
                  (ground arith) (ground arith)
                  (weighted-replace_at (weights u) i x digits (ground arith) (ground arith)))))
      ]
