-- ===== src/Auth/Login/Reasons.antt =====
-- Why a user may log in.
use nyzrating.Prelude.{ℕ, ◌≡◌, true, false, none, some, ◌⊎◌}
use nyzrating.Prelude.Text.{Text, or_empty}
use nyzrating.Users.{User, get_by_id, get_by_email}
use nyzrating.Auth.TwoFactor.Codes.{TwoFactorCode, get_valid_code}
use nyzrating.Auth.TwoFactor.Pending.{get_user_id}
use nyzrating.Auth.TwoFactor.Authenticators.{get_enabled_secret}
use nyzrating.Auth.TwoFactor.Totp.{verify_authenticator_code}
use nyzrating.Auth.Login.{AuthDb, LoginService, LoginInput}

-- An active user whose password was right, where nothing asks for a second factor.
pub record ByPassword (svc : LoginService) (inp : LoginInput) (db : AuthDb) (user : User)
    : Type 0 where
  pub by_email : get_by_email (or_empty inp.email) db.users ≡ some user
  pub is_active : user.is_active ≡ true
  pub password : svc.verify_password (or_empty inp.password) user.password_hash ≡ true
  pub switched_off : svc.is_two_factor_enabled ≡ false
  pub no_secret : get_enabled_secret user.id db.authenticators ≡ none

-- A code that the authenticator of the user shows, or else a valid e-mailed code.
abbrev pub CodeOk : LoginService → LoginInput → AuthDb → ℕ → Type 0
CodeOk svc inp db user_id =
    ((secret : Text) × (get_enabled_secret user_id db.authenticators ≡ some secret)
      × (verify_authenticator_code svc.crypto inp.now secret (or_empty inp.two_factor_code)
          ≡ some true))
    ⊎ ((code : TwoFactorCode) × (get_enabled_secret user_id db.authenticators ≡ none)
        × (get_valid_code svc.sha256_hex inp.now user_id (or_empty inp.two_factor_code)
              db.factors.code_table
            ≡ some code))

-- An active user of a pending token that has not expired, with a right code.
pub record BySecondFactor (svc : LoginService) (inp : LoginInput) (db : AuthDb) (user : User)
    : Type 0 where
  pub user_id : ℕ
  pub is_pending : get_user_id inp.now (or_empty inp.pending_token) db.pendings ≡ some user_id
  pub by_id : get_by_id user_id db.users ≡ some user
  pub is_active : user.is_active ≡ true
  pub code_ok : CodeOk svc inp db user_id

abbrev pub Why : LoginService → LoginInput → AuthDb → User → Type 0
Why svc inp db user = ByPassword svc inp db user ⊎ BySecondFactor svc inp db user
