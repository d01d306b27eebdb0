-- ===== src/Traffic/HuMobilePhone.antt =====
-- backend/apps/traffic/domain/hu_mobile_phone.py: Hungarian mobile numbers. The decimals of
-- Unicode are a parameter.
pub mod Normal
pub mod Forms
mod Tests
use nyzrating.Prelude.{
  ℕ, ◌+◌, ◌-◌, Bool, true, false, not, ◌&&◌, ◌||◌, Option, none, some, List, [], ◌∷◌, ◌++◌, leb,
  keep, all, length, take, drop, ◌==◌, if◌then◌else◌,
}
use nyzrating.Prelude.Text.{Text, codes, starts_with, is_space, mem_text, or_empty, truthy}

abbrev pub mobile_prefixes : List Text
mobile_prefixes = codes "20" ∷ codes "30" ∷ codes "31" ∷ codes "50" ∷ codes "70" ∷ []

-- A space, or one of ./()-
unfoldable pub is_separator : ℕ → Bool
is_separator c = is_space c || c == 46 || c == 47 || c == 40 || c == 41 || c == 45

module _ (is_decimal : ℕ → Bool) where
  unfoldable pub digits_of : Text → Text
  digits_of = keep is_decimal

  -- The digits of a number without a plus, with the country's code in front.
  unfoldable pub with_country : Text → Text
  with_country digits =
      if starts_with digits (codes "06")
      then codes "36" ++ drop 2 digits
      else if starts_with digits (codes "6") && length digits == 10
      then 51 ∷ digits
      else if length digits == 9 && mem_text (take 2 digits) mobile_prefixes
      then codes "36" ++ digits
      else digits

  -- After the change of a leading 00 to a plus.
  abbrev pub digits_of_raw : Text → Text
  digits_of_raw raw =
      if starts_with raw (codes "+") then digits_of (drop 1 raw) else with_country (digits_of raw)

  abbrev pub plus_for_zeros : Text → Text
  plus_for_zeros raw = if starts_with raw (codes "00") then 43 ∷ drop 2 raw else raw

  abbrev pub with_plus : Text → Text
  with_plus digits = if starts_with digits (codes "36") then 43 ∷ digits else []

  unfoldable pub normalize_hu_mobile : Option Text → Text
  normalize_hu_mobile value =
      let raw = keep (λ c. not (is_separator c)) (or_empty value) in
      if truthy raw then with_plus (digits_of_raw (plus_for_zeros raw)) else []

  unfoldable pub is_valid_hu_mobile : Option Text → Bool
  is_valid_hu_mobile value =
      let normalized = normalize_hu_mobile value in
      starts_with normalized (codes "+36")
      && length normalized == 12
      && all is_decimal (drop 3 normalized)
      && mem_text (take 2 (drop 3 normalized)) mobile_prefixes

  -- Whether the message is that of a wrong length.
  unfoldable pub is_length_error : Option Text → Bool
  is_length_error value =
      let digits = digits_of (or_empty value) in
      let local_len =
        if starts_with digits (codes "06") || starts_with digits (codes "36")
        then length digits - 2
        else length digits in
      not (local_len == 9)
