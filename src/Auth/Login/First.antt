-- ===== src/Auth/Login/First.antt =====
-- `_login_step1` of backend/core/modules/auth/use_cases/login_service.py: an e-mail address and
-- a password.
use nyzrating.Prelude.{ℕ, ◌+◌, ◌*◌, not, ◌&&◌, Option, none, some, is_some, List, if◌then◌else◌}
use nyzrating.Prelude.Text.{Text, codes, truthy, or_empty}
use nyzrating.Users.{User, get_by_email, record_failed_login, reset_failed_login}
use nyzrating.Auth.Tokens.{Jwt, Config, minute}
use nyzrating.Auth.TwoFactor.Pending.{PendingLogin, create_pending}
use nyzrating.Auth.TwoFactor.Authenticators.{get_enabled_secret}
use nyzrating.Auth.TwoFactor.Service.{TwoFactorService, Factors, create_and_send_code}
use nyzrating.Auth.Login.{
  AuthDb, LoginService, LoginInput, LoginResult, two_factor_required, refused, failed, issue_tokens,
}

abbrev pub pending_expire_minutes : ℕ
pending_expire_minutes = 10

module _ {T : Type 0} (jwt : Jwt T) (config : Config) (svc : LoginService) where
  abbrev pub after_send : LoginInput → AuthDb → Option Factors → LoginResult T × AuthDb
  after_send inp db none = (failed, db)
  after_send inp db (some factors) =
      (two_factor_required inp.fresh_pending (codes "email"), record db { factors = factors })

  abbrev pub send_code :
      LoginInput → User → AuthDb → Option TwoFactorService → LoginResult T × AuthDb
  send_code inp user db none = (failed, db)
  send_code inp user db (some s) = after_send inp db (
      create_and_send_code svc.sha256_hex s inp.now inp.drawn inp.sends user.id user.email
        db.factors)

  abbrev pub after_pending :
      LoginInput → User → Option Text → AuthDb → Option (List PendingLogin) → LoginResult T × AuthDb
  after_pending inp user secret db none = (failed, db)
  after_pending inp user (some secret) db (some pendings) = (
    two_factor_required inp.fresh_pending (codes "authenticator"),
    record db { pendings = pendings },
  )
  after_pending inp user none db (some pendings) =
      send_code inp user (record db { pendings = pendings }) svc.two_factor_service

  -- The password was right.
  unfoldable pub challenge : LoginInput → User → AuthDb → LoginResult T × AuthDb
  challenge inp user db =
      let secret = get_enabled_secret user.id db.authenticators in
      if not svc.is_two_factor_enabled && not (is_some secret)
      then issue_tokens jwt config inp user db
      else if not (is_some svc.two_factor_service) && not (is_some secret)
      then (refused, db)
      else after_pending inp user secret db (
          create_pending inp.fresh_pending user.id (inp.now + pending_expire_minutes * minute)
            db.pendings)

  abbrev pub check_password : LoginInput → Option User → AuthDb → LoginResult T × AuthDb
  check_password inp none db = (refused, db)
  check_password inp (some user) db =
      if user.is_active
      then if svc.verify_password (or_empty inp.password) user.password_hash
        then challenge inp user (record db { users = reset_failed_login user.id db.users })
        else (refused, record db { users = record_failed_login user.id db.users })
      else (refused, db)

  unfoldable pub login_step1 : LoginInput → AuthDb → LoginResult T × AuthDb
  login_step1 inp db =
      if truthy (or_empty inp.email) && truthy (or_empty inp.password)
      then check_password inp (get_by_email (or_empty inp.email) db.users) db
      else (refused, db)
