-- ===== src/Validation/Tests.antt =====
-- Runs of the validation, and its theorems at examples.
use nyzrating.Prelude.{ℕ, ◌≡◌, refl, ◌&&◌, Bool, none, some, leb}
use nyzrating.Prelude.Text.{codes, text_eq, strip, lower}
use nyzrating.Prelude.Dict.{get}
use nyzrating.Validation.Password.{
  validate_password_policy, check_policy, get_password_policy, password_policies, no_special,
}

abbrev decimal : ℕ → Bool
decimal c = leb 48 c && leb c 57

no_sign :
    validate_password_policy decimal none (some (codes "Budapest1873")) (some (codes " High "))
    ≡ some (some no_special)
unfolding validate_password_policy check_policy get_password_policy password_policies get text_eq
    strip lower
no_sign = refl

passes_high :
    validate_password_policy decimal none (some (codes "Budapest+1873")) (some (codes "high"))
    ≡ some none
unfolding validate_password_policy check_policy get_password_policy password_policies get text_eq
    strip lower
passes_high = refl
