-- ===== src/Users/Lockout.antt =====
-- Logins that fail one after the other.
use nyzrating.Prelude.{
  ℕ, zero, suc, ◌+◌, ◌≤◌, ◌<◌, ◌≡◌, refl, true, false, ◌&&◌, arith, ltb, if◌then◌else◌, ◌∙◌,
}
use nyzrating.Users.{User, is_owner, evaluate_failed_login, failed_login_row}

-- A number of failures in a row.
pub fail_times : ℕ → User → User
fail_times zero user = user
fail_times (suc n) user = fail_times n (failed_login_row user)

owner_row :
    (user : User)
    → is_owner user ≡ true
    → (is_owner (failed_login_row user) ≡ true)
      × ((failed_login_row user).is_active ≡ user.is_active)
      × ((failed_login_row user).failed_login_attempts ≡ user.failed_login_attempts + 1)
unfolding is_owner failed_login_row evaluate_failed_login
owner_row user h = ground arith

-- Any number of failed logins leaves the owner's account as active as it was, and is counted.
pub owner_not_locked :
    (n : ℕ) (user : User)
    → is_owner user ≡ true
    → ((fail_times n user).is_active ≡ user.is_active)
      × ((fail_times n user).failed_login_attempts ≡ user.failed_login_attempts + n)
unfolding fail_times
owner_not_locked zero user h = (refl, omega arith)
owner_not_locked (suc n) user h =
    let (owner, active, count) = owner_row user h in
    let (rest_active, rest_count) = owner_not_locked n (failed_login_row user) owner in
    (rest_active ∙ active, omega (arith, rest_count, count))

counted_row :
    (user : User)
    → is_owner user ≡ false
    → user.failed_login_attempts + 1 < 5
    → (is_owner (failed_login_row user) ≡ false)
      × ((failed_login_row user).is_active ≡ user.is_active)
      × ((failed_login_row user).failed_login_attempts ≡ user.failed_login_attempts + 1)
unfolding is_owner failed_login_row evaluate_failed_login
counted_row user h p = ground arith

locked_row :
    (user : User)
    → is_owner user ≡ false
    → user.failed_login_attempts + 1 ≡ 5
    → ((failed_login_row user).is_active ≡ false)
      × ((failed_login_row user).failed_login_attempts ≡ 0)
unfolding is_owner failed_login_row evaluate_failed_login
locked_row user h p = ground arith

before_fifth :
    (n : ℕ) (user : User)
    → is_owner user ≡ false
    → user.failed_login_attempts + n < 5
    → ((fail_times n user).is_active ≡ user.is_active)
      × ((fail_times n user).failed_login_attempts ≡ user.failed_login_attempts + n)
unfolding fail_times
before_fifth zero user h p = (refl, omega arith)
before_fifth (suc n) user h p =
    let (other, active, count) = counted_row user h (omega arith) in
    let (a, c) = before_fifth n (failed_login_row user) other (omega (arith, count)) in
    (a ∙ active, omega (arith, c, count))

at_fifth :
    (n : ℕ) (user : User)
    → is_owner user ≡ false
    → user.failed_login_attempts + suc n ≡ 5
    → ((fail_times (suc n) user).is_active ≡ false)
      × ((fail_times (suc n) user).failed_login_attempts ≡ 0)
unfolding fail_times
at_fifth zero user h p = locked_row user h (omega arith)
at_fifth (suc n) user h p =
    let (other, active, count) = counted_row user h (omega arith) in
    at_fifth n (failed_login_row user) other (omega (arith, count))

-- An account that is not the owner's and has fewer than five failures is as active as it was,
-- with its failures counted, while they are fewer than five in all; the fifth deactivates it and
-- clears the count.
pub locked_at_fifth :
    (n : ℕ) (user : User)
    → is_owner user ≡ false
    → user.failed_login_attempts < 5
    → user.failed_login_attempts + n ≤ 5
    → let total = user.failed_login_attempts + n in
      ((fail_times n user).is_active ≡ (ltb total 5 && user.is_active))
      × ((fail_times n user).failed_login_attempts ≡ (if ltb total 5 then total else 0))
locked_at_fifth zero user h p q = ground (arith, before_fifth zero user h)
locked_at_fifth (suc n) user h p q = ground (arith, before_fifth (suc n) user h, at_fifth n user h)
