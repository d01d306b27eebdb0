-- ===== src/Users.antt =====
-- backend/core/modules/users/domain/dto/user.py and domain/policies/login_security_policy.py: the
-- fields of a user that the decisions read, and the lock on an account.
pub mod Lockout
pub mod Profile
mod Tests
use nyzrating.Prelude.{
  ℕ, ◌+◌, ◌≤◌, Bool, true, false, not, ◌&&◌, Option, none, some, List, [], ◌∷◌, leb, ◌==◌,
  if◌then◌else◌,
}
use nyzrating.Prelude.Text.{Text, codes, text_eq, strip, lower}

-- Less the profile and the columns of the change of an e-mail address.
pub record User : Type 0 where
  pub id : ℕ
  pub email : Text
  pub is_active : Bool
  pub role : Text
  pub failed_login_attempts : ℕ
  pub security_version : ℕ
  pub password_hash : Text

unfoldable pub is_owner : User → Bool
is_owner user = text_eq user.role (codes "owner")

pub record FailedLoginDecision : Type 0 where
  pub new_failed_attempts : ℕ
  pub should_lock_account : Bool

abbrev pub failed_login_lockout_threshold : ℕ
failed_login_lockout_threshold = 5

unfoldable pub evaluate_failed_login : ℕ → User → FailedLoginDecision
evaluate_failed_login threshold user =
    let new_count = user.failed_login_attempts + 1 in
    let should_lock = leb threshold new_count && not (is_owner user) in
    record {
      new_failed_attempts = if should_lock then 0 else new_count;
      should_lock_account = should_lock;
    }

-- What `record_failed_login` writes to the row.
unfoldable pub failed_login_row : User → User
failed_login_row user =
    let decision = evaluate_failed_login failed_login_lockout_threshold user in
    record user {
      failed_login_attempts = decision.new_failed_attempts;
      is_active = if decision.should_lock_account then false else user.is_active;
    }

-- What `reset_failed_login` writes to the row.
unfoldable pub reset_login_row : User → User
reset_login_row user = record user { failed_login_attempts = 0 }

unfoldable pub update_user : ℕ → (User → User) → List User → List User
update_user id f [] = []
update_user id f (user ∷ users) =
    if user.id == id then f user ∷ users else user ∷ update_user id f users

-- `UserRepository.get_by_id`
unfoldable pub get_by_id : ℕ → List User → Option User
get_by_id id [] = none
get_by_id id (user ∷ users) = if user.id == id then some user else get_by_id id users

-- A missing user is left missing.
unfoldable pub record_failed_login : ℕ → List User → List User
record_failed_login id = update_user id failed_login_row

unfoldable pub reset_failed_login : ℕ → List User → List User
reset_failed_login id = update_user id reset_login_row

-- `UserRepository.get_by_email`; letters beyond ASCII are compared as they are.
unfoldable pub find_email : Text → List User → Option User
find_email normalized_email [] = none
find_email normalized_email (user ∷ users) =
    if text_eq (lower user.email) normalized_email
    then some user
    else find_email normalized_email users

unfoldable pub get_by_email : Text → List User → Option User
get_by_email email = find_email (lower (strip email))

unfoldable pub next_version_row : User → User
next_version_row user = record user { security_version = user.security_version + 1 }

-- `UserRepository.increment_security_version`
unfoldable pub increment_security_version : ℕ → List User → List User
increment_security_version id = update_user id next_version_row
