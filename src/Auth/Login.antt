-- ===== src/Auth/Login.antt =====
-- backend/core/modules/auth/use_cases/login_service.py and domain/dto: the tables that a login
-- writes, its input and its results, and the tokens that it issues. Logs, metrics and the audit
-- are left out.
pub mod First
pub mod Second
pub mod Entry
pub mod Outcome
pub mod Reasons
pub mod Granted
pub mod Below
pub mod Guesses
mod Tests
use nyzrating.Prelude.{ℕ, ◌+◌, ◌*◌, max, Bool, Option, none, some, List, if◌then◌else◌, ◌==◌}
use nyzrating.Prelude.Text.{Text}
use nyzrating.Users.{User}
use nyzrating.Auth.Tokens.{Claims, Jwt, Config, make_access, make_refresh_pair}
use nyzrating.Auth.Sessions.{Sessions, create, invalidate_all_for_user}
use nyzrating.Auth.TwoFactor.Pending.{PendingLogin}
use nyzrating.Auth.TwoFactor.Authenticators.{Authenticator}
use nyzrating.Auth.TwoFactor.Service.{TwoFactorService, Factors}
use nyzrating.Auth.TwoFactor.Totp.{Crypto}

pub record AuthDb : Type 0 where
  pub users : List User
  pub sessions : Sessions
  pub factors : Factors
  pub pendings : List PendingLogin
  pub authenticators : List Authenticator

-- What the service is built with: SHA-256 and bcrypt, the two-factor service and its switch.
pub record LoginService : Type 0 where
  pub crypto : Crypto
  pub sha256_hex : Text → Text
  pub verify_password : Text → Text → Bool
  pub two_factor_service : Option TwoFactorService
  pub is_two_factor_enabled : Bool

-- The input, with what the call meets: the clock, the identifiers of the new tokens, the number
-- that is drawn for a code, whether an e-mail goes out, and the tenant's security version.
pub record LoginInput : Type 0 where
  pub email : Option Text
  pub password : Option Text
  pub pending_token : Option Text
  pub two_factor_code : Option Text
  pub ip : Option Text
  pub ua : Option Text
  pub auto_login : Bool
  pub now : ℕ
  pub refresh_jti : Text
  pub access_jti : Text
  pub fresh_pending : Text
  pub drawn : ℕ
  pub sends : Text → Text → Bool
  pub tenant_version : ℕ

pub record LoginSuccess (T : Type 0) : Type 0 where
  pub access_token : T
  pub refresh_token : T
  pub user : User
  pub access_jti : Text

-- `refused` is `None`, `too_many_attempts` is its exception, and `failed` is any other one.
pub data LoginResult (T : Type 0) : Type 0 where
  login_success : LoginSuccess T → LoginResult T
  two_factor_required : Text → Text → LoginResult T
  refused : LoginResult T
  too_many_attempts : LoginResult T
  failed : LoginResult T

module _ {T : Type 0} (jwt : Jwt T) (config : Config) where
  abbrev pub after_create :
      LoginInput → User → T → Option Sessions → AuthDb → LoginResult T × AuthDb
  after_create inp user refresh none db = (failed, db)
  after_create inp user refresh (some sessions) db =
      let (access, access_jti) =
        make_access jwt config inp.now inp.access_jti user.id user.security_version
          inp.tenant_version user.role in
      (
        login_success (record {
          access_token = access;
          refresh_token = refresh;
          user = user;
          access_jti = access_jti;
        }),
        record db { sessions = sessions },
      )

  -- `_issue_tokens`, with the success that its callers make of the tokens.
  unfoldable pub issue_tokens : LoginInput → User → AuthDb → LoginResult T × AuthDb
  issue_tokens inp user db =
      let closed = invalidate_all_for_user user.id db.sessions in
      let (refresh, claims) =
        make_refresh_pair jwt config inp.now inp.refresh_jti user.id inp.auto_login
          user.security_version inp.tenant_version in
      after_create inp user refresh
        (create user.id inp.refresh_jti (jwt.hash refresh) claims.exp inp.ip inp.ua closed) db

  -- The transaction of the session factory: an exception undoes every write.
  unfoldable pub transaction : AuthDb → LoginResult T × AuthDb → LoginResult T × AuthDb
  transaction before (login_success r, db) = (login_success r, db)
  transaction before (two_factor_required token challenge, db) =
      (two_factor_required token challenge, db)
  transaction before (refused, db) = (refused, db)
  transaction before (too_many_attempts, db) = (too_many_attempts, before)
  transaction before (failed, db) = (failed, before)
