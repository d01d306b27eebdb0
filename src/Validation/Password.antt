-- ===== src/Validation/Password.antt =====
-- backend/shared/validation/password.py: the three levels of the password policy. `is_decimal` is
-- `\d` on one character, which Unicode's digits satisfy too. A message is a constructor, with
-- the number that it names.
use nyzrating.Prelude.{
  ℕ, ◌≤◌, ◌≡◌, ◌↔◌, arith, Bool, true, false, not, ◌&&◌, ◌||◌, Option, none, some, [], ◌∷◌, any,
  length, leb, ltb, if◌then◌else◌, or_else, ap,
}
use mathlib.Core.Option.{some-injective}
use nyzrating.Prelude.Text.{Text, codes, text_eq, strip, lower, text_or, or_empty}
use nyzrating.Prelude.Dict.{Dict, get}

pub record PasswordPolicy : Type 0 where
  pub min_len : ℕ
  pub max_len : ℕ
  pub require_lower : Bool
  pub require_upper : Bool
  pub require_digit : Bool
  pub require_special : Bool

abbrev pub basic : PasswordPolicy
basic = record {
  min_len = 6;
  max_len = 128;
  require_lower = false;
  require_upper = false;
  require_digit = false;
  require_special = false;
}

abbrev pub standard : PasswordPolicy
standard = record {
  min_len = 6;
  max_len = 128;
  require_lower = true;
  require_upper = true;
  require_digit = true;
  require_special = false;
}

abbrev pub high : PasswordPolicy
high = record {
  min_len = 10;
  max_len = 128;
  require_lower = true;
  require_upper = true;
  require_digit = true;
  require_special = true;
}

unfoldable pub password_policies : Dict PasswordPolicy
password_policies =
    (codes "basic", basic) ∷ (codes "standard", standard) ∷ (codes "high", high) ∷ []

-- The level is the argument, or else the setting; `none` is the `ValueError` of an unknown level.
unfoldable pub get_password_policy : Option Text → Option Text → Option PasswordPolicy
get_password_policy setting security_level =
    let level = or_else security_level (or_empty setting) in
    get (lower (strip (text_or level (codes "standard")))) password_policies

pub data Problem : Type 0 where
  missing : Problem
  too_short : ℕ → Problem
  too_long : ℕ → Problem
  no_lower no_upper no_digit no_special : Problem

abbrev pub is_lower : ℕ → Bool
is_lower c = leb 97 c && leb c 122

abbrev pub is_upper : ℕ → Bool
is_upper c = leb 65 c && leb c 90

-- `[^A-Za-z0-9]`
abbrev pub is_special : ℕ → Bool
is_special c = not (is_upper c || is_lower c || leb 48 c && leb c 57)

-- The order of the levels.
pub data IsAbove : Text → Text → Type 0 where
  above_standard : IsAbove (codes "high") (codes "standard")
  above_basic : IsAbove (codes "standard") (codes "basic")
  far_above : IsAbove (codes "high") (codes "basic")

module _ (is_decimal : ℕ → Bool) where
  -- The checks in order; `none` is the pair of `True` and no message.
  unfoldable pub check_policy : PasswordPolicy → Text → Option Problem
  check_policy policy password =
      if ltb (length password) policy.min_len
      then some (too_short policy.min_len)
      else if ltb policy.max_len (length password)
      then some (too_long policy.max_len)
      else if policy.require_lower && not (any is_lower password)
      then some no_lower
      else if policy.require_upper && not (any is_upper password)
      then some no_upper
      else if policy.require_digit && not (any is_decimal password)
      then some no_digit
      else if policy.require_special && not (any is_special password)
      then some no_special
      else none

  abbrev check_with : Option PasswordPolicy → Text → Option (Option Problem)
  check_with none password = none
  check_with (some policy) password = some (check_policy policy password)

  -- The outer `none` is the `ValueError` of an unknown level.
  unfoldable pub validate_password_policy :
      Option Text → Option Text → Option Text → Option (Option Problem)
  unfolding check_policy
  validate_password_policy setting none security_level = some (some missing)
  validate_password_policy setting (some []) security_level = some (some missing)
  validate_password_policy setting (some (c ∷ password)) security_level =
      check_with (get_password_policy setting security_level) (c ∷ password)

  unfoldable pub validate_standard_password_policy :
      Option Text → Option Text → Option (Option Problem)
  unfolding validate_password_policy
  validate_standard_password_policy setting password =
      validate_password_policy setting password (some (codes "standard"))

  unfoldable pub validate_password_strength :
      Option Text → Option Text → Option Text → Option (Option Problem)
  unfolding validate_password_policy
  validate_password_strength = validate_password_policy

  abbrev pub Demands : PasswordPolicy → Text → Type 0
  Demands policy password =
      (policy.min_len ≤ length password)
      × (length password ≤ policy.max_len)
      × (policy.require_lower ≡ true → any is_lower password ≡ true)
      × (policy.require_upper ≡ true → any is_upper password ≡ true)
      × (policy.require_digit ≡ true → any is_decimal password ≡ true)
      × (policy.require_special ≡ true → any is_special password ≡ true)

  -- The checks of a policy find no problem exactly when the password meets every demand of the
  -- policy.
  check_policy_iff :
      (policy : PasswordPolicy) (password : Text)
      → (check_policy policy password ≡ none) ↔ Demands policy password
  unfolding check_policy
  check_policy_iff policy password = (λ h. ground arith, λ h. ground arith)

  high-standard :
      (password : Text) → check_policy high password ≡ none → check_policy standard password ≡ none
  unfolding check_policy
  high-standard password h = ground arith

  standard-basic :
      (password : Text) → check_policy standard password ≡ none → check_policy basic password ≡ none
  unfolding check_policy
  standard-basic password h = ground arith

  -- A password that passes at a level passes at every level below it, with high above standard
  -- and standard above basic.
  levels_ordered :
      (setting password : Option Text) (upper lower_level : Text)
      → IsAbove upper lower_level
      → validate_password_policy setting password (some upper) ≡ some none
      → validate_password_policy setting password (some lower_level) ≡ some none
  unfolding validate_password_policy get_password_policy password_policies get text_eq strip lower
  levels_ordered setting none u l a h = cc
  levels_ordered setting (some []) u l a h = cc
  levels_ordered setting (some (c ∷ password)) _ _ above_standard h =
      ap some (high-standard (c ∷ password) (some-injective _ _ h))
  levels_ordered setting (some (c ∷ password)) _ _ above_basic h =
      ap some (standard-basic (c ∷ password) (some-injective _ _ h))
  levels_ordered setting (some (c ∷ password)) _ _ far_above h =
      ap some (standard-basic (c ∷ password) (high-standard (c ∷ password) (some-injective _ _ h)))
