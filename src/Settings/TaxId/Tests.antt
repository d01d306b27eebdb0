-- ===== src/Settings/TaxId/Tests.antt =====
-- Runs of the tax number, and its theorem at an example. Here the decimals are those of ASCII.
use nyzrating.Prelude.{◌-◌, ◌≡◌, refl, true, false, some, arith}
use nyzrating.Prelude.Text.{codes, is_digit, is_space, upper, upper_char, starts_with}
use nyzrating.Settings.TaxId.{
  Digits, digits_only, normalize_hu_tax_id, checksum_ok, is_valid_hu_tax_id,
}
use nyzrating.Settings.TaxId.Checksum.{IsDigits, replace_at, single_error_found}

abbrev ascii : Digits
ascii = record { is_decimal = is_digit; value = λ c. c - 48; upper_text = upper }

ascii-IsDigits : IsDigits ascii
unfolding is_digit
ascii-IsDigits = record { value_below = λ c h. ground arith }

normal_form : normalize_hu_tax_id ascii (some (codes "hu 10773381.2.44")) ≡ codes "10773381-2-44"
unfolding normalize_hu_tax_id digits_only is_digit is_space upper upper_char starts_with
normal_form = refl

valid_number : is_valid_hu_tax_id ascii (some (codes "10773381-2-44")) ≡ true
unfolding is_valid_hu_tax_id digits_only is_digit is_space upper upper_char starts_with checksum_ok
valid_number = refl

passes : checksum_ok ascii (codes "10773381") ≡ true
unfolding checksum_ok is_digit
passes = refl

single_error_found_example : checksum_ok ascii (replace_at 2 52 (codes "10773381")) ≡ false
unfolding is_digit
single_error_found_example =
    single_error_found ascii ascii-IsDigits 2 52 (codes "10773381") (omega arith) passes refl
      (λ e. omega (arith, e))
