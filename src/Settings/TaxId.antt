-- ===== src/Settings/TaxId.antt =====
-- backend/apps/settings/domain/hu_tax_id.py: the Hungarian tax number. The digits and the upper
-- case of Unicode are parameters.
pub mod Checksum
mod Tests
use nyzrating.Prelude.{
  ℕ, zero, suc, ◌+◌, ◌-◌, ◌*◌, ◌%◌, ◌≤◌, ◌<◌, ◌≡◌, ◌≢◌, refl, Bool, true, false, not, ◌&&◌, ◌||◌,
  Option, none, some, List, [], ◌∷◌, ◌++◌, leb, ltb, keep, all, length, take, drop, ◌==◌,
  if◌then◌else◌, arith,
}
use nyzrating.Prelude.Text.{Text, codes, starts_with, is_space, or_empty}

-- The value of a digit; 0 to 9 for a decimal of any script.
pub record Digits : Type 0 where
  pub is_decimal : ℕ → Bool
  pub value : ℕ → ℕ
  pub upper_text : Text → Text

module _ (u : Digits) where
  abbrev pub without_hu : Text → Text
  without_hu compact = if starts_with compact (codes "HU") then drop 2 compact else compact

  -- `_digits_only`
  unfoldable pub digits_only : Option Text → Text
  digits_only value =
      let compact = u.upper_text (keep (λ c. not (is_space c || c == 46)) (or_empty value)) in
      take 11 (keep u.is_decimal (without_hu compact))

  unfoldable pub normalize_hu_tax_id : Option Text → Text
  normalize_hu_tax_id value =
      let digits = digits_only value in
      if leb (length digits) 8
      then digits
      else if length digits == 9
      then take 8 digits ++ (45 ∷ drop 8 digits)
      else take 8 digits ++ (45 ∷ take 1 (drop 8 digits) ++ (45 ∷ drop 9 digits))

  -- The sum of `_checksum_ok`.
  abbrev pub weighted : List ℕ → Text → ℕ
  weighted [] digits = 0
  weighted (w ∷ weights) [] = 0
  weighted (w ∷ weights) (d ∷ digits) = w * u.value d + weighted weights digits

  abbrev pub weights : List ℕ
  weights = 9 ∷ 7 ∷ 3 ∷ 1 ∷ 9 ∷ 7 ∷ 3 ∷ 1 ∷ []

  unfoldable pub checksum_ok : Text → Bool
  checksum_ok eight_digits =
      length eight_digits == 8
      && all u.is_decimal eight_digits
      && weighted weights eight_digits % 10 == 0

  unfoldable pub is_valid_hu_tax_id : Option Text → Bool
  is_valid_hu_tax_id value =
      let digits = digits_only value in length digits == 11 && checksum_ok (take 8 digits)
