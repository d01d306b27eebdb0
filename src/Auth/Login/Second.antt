-- ===== src/Auth/Login/Second.antt =====
-- `_login_step2` of backend/core/modules/auth/use_cases/login_service.py: the second factor under
-- a pending token.
use nyzrating.Prelude.{
  ℕ, max, Bool, true, false, ◌&&◌, ◌||◌, Option, none, some, List, [], ◌∷◌, ◌==◌, if◌then◌else◌,
}
use nyzrating.Prelude.Text.{Text, codes, truthy, or_empty, strip}
use nyzrating.Users.{User, get_by_id}
use nyzrating.Auth.Tokens.{Jwt, Config}
use nyzrating.Auth.TwoFactor.Attempts.{Attempt, is_blocked, record_failed, reset_for_success, str}
use nyzrating.Auth.TwoFactor.Pending.{get_user_id, consume}
use nyzrating.Auth.TwoFactor.Authenticators.{get_enabled_secret}
use nyzrating.Auth.TwoFactor.Totp.{verify_authenticator_code}
use nyzrating.Auth.TwoFactor.Service.{TwoFactorService, Factors, any_blocked, verify_code}
use nyzrating.Auth.Login.{
  AuthDb, LoginService, LoginInput, LoginResult, refused, too_many_attempts, failed, issue_tokens,
}

-- `_authenticator_attempt_policy`
abbrev pub or_default : ℕ → ℕ → ℕ
or_default n d = if n == 0 then d else n

unfoldable pub authenticator_max_attempts : TwoFactorService → ℕ
authenticator_max_attempts s = max 1 (or_default s.max_attempts 5)

unfoldable pub authenticator_window : TwoFactorService → ℕ
authenticator_window s = max 1 (or_default s.attempt_window_minutes 15)

unfoldable pub authenticator_scopes : ℕ → Text → Option Text → List (Text × Text)
authenticator_scopes user_id pending_token ip =
    (codes "token", strip pending_token)
    ∷ (codes "user", str user_id)
    ∷ (codes "ip", strip (or_empty ip))
    ∷ []

-- `_record_authenticator_failed_attempt`: whether some scope is blocked now, and the rows.
unfoldable pub record_authenticator_failed :
    ℕ → ℕ → ℕ → List (Text × Text) → List Attempt → Bool × List Attempt
record_authenticator_failed now m minutes [] rows = (false, rows)
record_authenticator_failed now m minutes ((scope, key) ∷ rest) rows =
    let written = if truthy key then record_failed now scope key minutes rows else rows in
    let blocked = truthy key && is_blocked now scope key m minutes written in
    let (later, left) = record_authenticator_failed now m minutes rest written in
    (blocked || later, left)

module _ {T : Type 0} (jwt : Jwt T) (config : Config) (svc : LoginService) where
  -- The limit is raised again after the pending token is consumed.
  abbrev pub limited : Text → AuthDb → LoginResult T × AuthDb
  limited token db = (too_many_attempts, record db { pendings = consume token db.pendings })

  abbrev pub log_in : LoginInput → Option User → AuthDb → LoginResult T × AuthDb
  log_in inp none db = (refused, db)
  log_in inp (some user) db =
      if user.is_active then issue_tokens jwt config inp user db else (refused, db)

  -- The second factor was right.
  unfoldable pub after_code : LoginInput → Text → ℕ → AuthDb → LoginResult T × AuthDb
  after_code inp token user_id db =
      log_in inp (get_by_id user_id db.users) (record db { pendings = consume token db.pendings })

  abbrev pub with_attempts : AuthDb → List Attempt → AuthDb
  with_attempts db rows = record db { factors = record db.factors { attempt_rows = rows } }

  abbrev pub wrong_authenticator :
      TwoFactorService → Text → AuthDb → Bool × List Attempt → LoginResult T × AuthDb
  wrong_authenticator s token db (blocked_now, rows) =
      if s.has_attempt_repo
      then if blocked_now
        then limited token (with_attempts db rows)
        else (refused, with_attempts db rows)
      else (refused, db)

  abbrev pub judge_authenticator :
      TwoFactorService → LoginInput → Text → ℕ → AuthDb → Option Bool → LoginResult T × AuthDb
  judge_authenticator s inp token user_id db none = (failed, db)
  judge_authenticator s inp token user_id db (some true) = after_code inp token user_id (
      if s.has_attempt_repo
      then with_attempts db (reset_for_success token user_id inp.ip db.factors.attempt_rows)
      else db)
  judge_authenticator s inp token user_id db (some false) = wrong_authenticator s token db (
      record_authenticator_failed inp.now (authenticator_max_attempts s) (authenticator_window s)
        (authenticator_scopes user_id token inp.ip) db.factors.attempt_rows)

  unfoldable pub check_authenticator :
      TwoFactorService → LoginInput → Text → ℕ → Text → AuthDb → LoginResult T × AuthDb
  check_authenticator s inp token user_id secret db =
      if s.has_attempt_repo
        && any_blocked inp.now (authenticator_max_attempts s) (authenticator_window s)
            (authenticator_scopes user_id token inp.ip) db.factors.attempt_rows
      then limited token db
      else judge_authenticator s inp token user_id db
          (verify_authenticator_code svc.crypto inp.now secret (or_empty inp.two_factor_code))

  abbrev pub judge_email :
      LoginInput → Text → ℕ → AuthDb → Option (Bool × Factors) → LoginResult T × AuthDb
  judge_email inp token user_id db none = limited token db
  judge_email inp token user_id db (some (false, factors)) =
      (refused, record db { factors = factors })
  judge_email inp token user_id db (some (true, factors)) =
      after_code inp token user_id (record db { factors = factors })

  abbrev pub check_factor :
      TwoFactorService → LoginInput → Text → ℕ → Option Text → AuthDb → LoginResult T × AuthDb
  check_factor s inp token user_id (some secret) db =
      check_authenticator s inp token user_id secret db
  check_factor s inp token user_id none db = judge_email inp token user_id db (
      verify_code svc.sha256_hex s inp.now user_id (or_empty inp.two_factor_code) (some token)
        inp.ip db.factors)

  -- A user id of 0 is falsy.
  abbrev pub check_pending :
      Option TwoFactorService → LoginInput → Text → Option ℕ → AuthDb → LoginResult T × AuthDb
  check_pending s inp token none db = (refused, db)
  check_pending none inp token (some user_id) db = (refused, db)
  check_pending (some s) inp token (some user_id) db =
      if user_id == 0
      then (refused, db)
      else check_factor s inp token user_id (get_enabled_secret user_id db.authenticators) db

  unfoldable pub login_step2 : LoginInput → Text → AuthDb → LoginResult T × AuthDb
  login_step2 inp token db =
      check_pending svc.two_factor_service inp token (get_user_id inp.now token db.pendings) db
