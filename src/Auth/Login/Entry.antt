-- ===== src/Auth/Login/Entry.antt =====
-- The use cases of backend/core/modules/auth/use_cases/login_service.py that run in one
-- transaction: the login, and the life of an authenticator.
use nyzrating.Prelude.{ℕ, ◌+◌, ◌*◌, ◌&&◌, Option, none, some, if◌then◌else◌}
use nyzrating.Prelude.Text.{Text, truthy, or_empty}
use nyzrating.Users.{User, increment_security_version}
use nyzrating.Auth.Tokens.{Jwt, Config, minute}
use nyzrating.Auth.Sessions.{invalidate_all_for_user}
use nyzrating.Auth.TwoFactor.Authenticators.{
  upsert_pending_secret, enable_secret, disable, get_pending_secret,
}
use nyzrating.Auth.TwoFactor.Totp.{verify_authenticator_code}
use nyzrating.Auth.Login.{AuthDb, LoginService, LoginInput, LoginResult, issue_tokens, transaction}
use nyzrating.Auth.Login.First.{login_step1}
use nyzrating.Auth.Login.Second.{login_step2}

module _ {T : Type 0} (jwt : Jwt T) (config : Config) (svc : LoginService) where
  unfoldable pub login : LoginInput → AuthDb → LoginResult T × AuthDb
  login inp db = transaction jwt config db (
      if truthy (or_empty inp.pending_token) && truthy (or_empty inp.two_factor_code)
      then login_step2 jwt config svc inp (or_empty inp.pending_token) db
      else login_step1 jwt config svc inp db)

  unfoldable pub issue_tokens_for_user : LoginInput → User → AuthDb → LoginResult T × AuthDb
  issue_tokens_for_user inp user db =
      transaction jwt config db (issue_tokens jwt config inp user db)

-- The secret is drawn; the link with it is left out.
unfoldable pub start_authenticator_setup : ℕ → Text → ℕ → AuthDb → AuthDb
start_authenticator_setup now secret user_id db = record db {
  authenticators = upsert_pending_secret user_id secret (now + 10 * minute) db.authenticators;
}

-- The end of a change of the second factor: every session of the user is over.
abbrev pub revoke_all : ℕ → AuthDb → AuthDb
revoke_all user_id db = record db {
  users = increment_security_version user_id db.users;
  sessions = invalidate_all_for_user user_id db.sessions;
}

abbrev pub confirm_secret : LoginService → ℕ → ℕ → Text → AuthDb → Option Text → Option AuthDb
confirm_secret svc now user_id code db none = none
confirm_secret svc now user_id code db (some secret) =
    elim (verify_authenticator_code svc.crypto now secret code) [
      | none ↦ none
      | some ok ↦
          if ok
          then some (
              revoke_all user_id
                (record db { authenticators = enable_secret user_id secret db.authenticators }))
          else none
    ]

-- `none` is an error.
unfoldable pub confirm_authenticator_setup : LoginService → ℕ → ℕ → Text → AuthDb → Option AuthDb
confirm_authenticator_setup svc now user_id code db =
    confirm_secret svc now user_id code db (get_pending_secret now user_id db.authenticators)

unfoldable pub disable_authenticator : ℕ → AuthDb → AuthDb
disable_authenticator user_id db =
    revoke_all user_id (record db { authenticators = disable user_id db.authenticators })
