-- ===== src/Traffic/HuMobilePhone/Tests.antt =====
-- Runs of the mobile numbers, and their theorem at an example. Here the decimals are those of
-- ASCII.
use nyzrating.Prelude.{◌≡◌, ◌↔◌, refl, true, some, arith}
use nyzrating.Prelude.Text.{codes, is_digit, is_space, starts_with, mem_text, text_eq}
use nyzrating.Traffic.HuMobilePhone.{
  normalize_hu_mobile, is_valid_hu_mobile, is_separator, digits_of, with_country,
}
use nyzrating.Traffic.HuMobilePhone.Normal.{AreDecimals}
use nyzrating.Traffic.HuMobilePhone.Forms.{
  IsLocal, IsNormal, Writes, compact, normalize_hu_mobile_exact,
}

ascii-AreDecimals : AreDecimals is_digit
unfolding is_digit is_separator is_space
ascii-AreDecimals = record { no_separator = λ c h. ground arith; zero_to_nine = λ c h. h }

normal_form : normalize_hu_mobile is_digit (some (codes "06 20/123-4567")) ≡ codes "+36201234567"
unfolding normalize_hu_mobile is_separator is_space starts_with digits_of with_country is_digit
normal_form = refl

valid_number : is_valid_hu_mobile is_digit (some (codes "20 123 4567")) ≡ true
unfolding is_valid_hu_mobile normalize_hu_mobile is_separator is_space starts_with digits_of
    with_country is_digit mem_text text_eq
valid_number = refl

mobile-IsLocal : IsLocal (codes "201234567")
unfolding mem_text text_eq
mobile-IsLocal = (refl, refl)

normalize_hu_mobile_exact_example :
    let n = normalize_hu_mobile is_digit (some (codes "06 20/123-4567")) in
    IsNormal is_digit n
    × (normalize_hu_mobile is_digit (some n) ≡ n)
    × ((n ≡ codes "+36201234567")
        ↔ Writes is_digit (codes "201234567") (compact is_digit (some (codes "06 20/123-4567"))))
normalize_hu_mobile_exact_example =
    normalize_hu_mobile_exact is_digit ascii-AreDecimals (some (codes "06 20/123-4567"))
      (codes "201234567") mobile-IsLocal
