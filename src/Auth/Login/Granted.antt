-- ===== src/Auth/Login/Granted.antt =====
-- What a login ends with.
mod FirstStep
mod SecondStep
use nyzrating.Prelude.{
  ℕ, ◌≡◌, refl, Bool, true, false, not, ◌&&◌, ◌||◌, Option, none, some, is_some, List, ◌⊎◌, inl,
  inr, Bool-cases, Option-cases, if◌then◌else◌, ◌==◌, arith, sym, ◌∙◌, subst,
}
use nyzrating.Prelude.Text.{Text, truthy, or_empty}
use nyzrating.Users.{User, get_by_id, get_by_email, record_failed_login, reset_failed_login}
use nyzrating.Auth.Tokens.{Jwt, Config, minute}
use nyzrating.Auth.TwoFactor.Codes.{TwoFactorCode, get_valid_code}
use nyzrating.Auth.TwoFactor.Pending.{PendingLogin, create_pending, get_user_id, consume}
use nyzrating.Auth.TwoFactor.Authenticators.{get_enabled_secret}
use nyzrating.Auth.TwoFactor.Totp.{verify_authenticator_code}
use nyzrating.Auth.TwoFactor.Attempts.{Attempt, reset_for_success}
use nyzrating.Auth.TwoFactor.Service.{
  TwoFactorService, Factors, after_lookup, any_blocked, create_and_send_code, is_limited,
  verify_code,
}
use nyzrating.Auth.Login.{
  AuthDb, LoginService, LoginInput, LoginSuccess, LoginResult, login_success, two_factor_required,
  refused, too_many_attempts, failed, issue_tokens, transaction,
}
use nyzrating.Auth.Login.First.{
  after_send, send_code, after_pending, challenge, check_password, login_step1,
  pending_expire_minutes,
}
use nyzrating.Auth.Login.Second.{
  authenticator_max_attempts, authenticator_window, authenticator_scopes,
  record_authenticator_failed, limited, log_in, after_code, with_attempts, wrong_authenticator,
  judge_authenticator, check_authenticator, judge_email, check_factor, check_pending, login_step2,
}
use nyzrating.Auth.Login.Entry.{login}
use nyzrating.Auth.Login.Outcome.{IsSingle, EndsWell, issue-EndsWell, if-EndsWell, split-EndsWell}
use nyzrating.Auth.Login.Reasons.{ByPassword, CodeOk, BySecondFactor, Why}
use nyzrating.Auth.Login.Granted.FirstStep.{password-EndsWell}
use nyzrating.Auth.Login.Granted.SecondStep.{check_pending-EndsWell}

module _ {T : Type 0} (jwt : Jwt T) (config : Config) (svc : LoginService) where
  transaction-EndsWell :
      (inp : LoginInput) (W : User → Type 0) (db : AuthDb) (x : LoginResult T × AuthDb)
      → EndsWell jwt config inp W db x
      → EndsWell jwt config inp W db (transaction jwt config db x)
  unfolding transaction
  transaction-EndsWell inp W db (login_success r, after) h = h
  transaction-EndsWell inp W db (two_factor_required token challenge, after) h = h
  transaction-EndsWell inp W db (refused, after) h = h
  transaction-EndsWell inp W db (too_many_attempts, after) h = refl
  transaction-EndsWell inp W db (failed, after) h = refl

  login-EndsWell :
      (inp : LoginInput) (db : AuthDb)
      → EndsWell jwt config inp (Why svc inp db) db (login jwt config svc inp db)
  unfolding login login_step1 login_step2
  login-EndsWell inp db = transaction-EndsWell inp (Why svc inp db) db _ (
      if-EndsWell jwt config inp (Why svc inp db) db
        (truthy (or_empty inp.pending_token) && truthy (or_empty inp.two_factor_code)) _ _
        (check_pending-EndsWell jwt config svc inp svc.two_factor_service db _ refl)
        (if-EndsWell jwt config inp (Why svc inp db) db
          (truthy (or_empty inp.email) && truthy (or_empty inp.password)) _ (refused, db)
          (password-EndsWell jwt config svc inp db _ refl) refl))

  -- A login that succeeds is that of an active user: found by the e-mail address, whose password
  -- was right, where the second factor is switched off and the user has no authenticator; or
  -- else the user of a pending token that has not expired, with a code that the authenticator
  -- shows, or, for a user without one, a valid e-mailed code.
  pub login_success-reason :
      (inp : LoginInput) (db after : AuthDb) (r : LoginSuccess T)
      → login jwt config svc inp db ≡ (login_success r, after)
      → Why svc inp db r.user
  login_success-reason inp db after r e =
      (subst (EndsWell jwt config inp (Why svc inp db) db) e (login-EndsWell inp db)).0

  -- After a login that succeeds the user has exactly one open session, and the new jti leads to
  -- an open session of the user with the hash and the expiry of the refresh token.
  pub login_success-IsSingle :
      (inp : LoginInput) (db after : AuthDb) (r : LoginSuccess T)
      → login jwt config svc inp db ≡ (login_success r, after)
      → IsSingle jwt config inp r after
  login_success-IsSingle inp db after r e =
      (subst (EndsWell jwt config inp (Why svc inp db) db) e (login-EndsWell inp db)).1

  abbrev pub succeeds : LoginResult T → Bool
  succeeds (login_success r) = true
  succeeds (two_factor_required token challenge) = false
  succeeds refused = false
  succeeds too_many_attempts = false
  succeeds failed = false

  abbrev pub raises : LoginResult T → Bool
  raises (login_success r) = false
  raises (two_factor_required token challenge) = false
  raises refused = false
  raises too_many_attempts = true
  raises failed = true

  transaction_undone :
      (db after : AuthDb) (x : LoginResult T × AuthDb) (r : LoginResult T)
      → raises r ≡ true
      → transaction jwt config db x ≡ (r, after)
      → after ≡ db
  unfolding transaction
  transaction_undone db after (login_success s, d) r p e = ground arith
  transaction_undone db after (two_factor_required token challenge, d) r p e = ground arith
  transaction_undone db after (refused, d) r p e = ground arith
  transaction_undone db after (too_many_attempts, d) r p e = ground arith
  transaction_undone db after (failed, d) r p e = ground arith

  login_undone :
      (inp : LoginInput) (db after : AuthDb) (r : LoginResult T)
      → raises r ≡ true
      → login jwt config svc inp db ≡ (r, after)
      → after ≡ db
  unfolding login
  login_undone inp db after r p e = transaction_undone db after _ r p e

  same_sessions :
      (inp : LoginInput) (W : User → Type 0) (db after : AuthDb) (r : LoginResult T)
      → succeeds r ≡ false
      → EndsWell jwt config inp W db (r, after)
      → after.sessions ≡ db.sessions
  same_sessions inp W db after (login_success s) p h = cc
  same_sessions inp W db after (two_factor_required token challenge) p h = h
  same_sessions inp W db after refused p h = h
  same_sessions inp W db after too_many_attempts p h = h
  same_sessions inp W db after failed p h = h

  -- A login that does not succeed opens and closes no session, and one that raises an exception
  -- leaves every table as it was, the counts of failed attempts and the pending tokens included.
  pub login_error :
      (inp : LoginInput) (db after : AuthDb) (r : LoginResult T)
      → succeeds r ≡ false
      → login jwt config svc inp db ≡ (r, after)
      → (after.sessions ≡ db.sessions) × ((raises r ≡ false) ⊎ (after ≡ db))
  login_error inp db after r p e = (
    same_sessions inp (Why svc inp db) db after r p
        (subst (EndsWell jwt config inp (Why svc inp db) db) e (login-EndsWell inp db)),
    elim (Bool-cases (raises r)) [
      | inl raised ↦ inr (login_undone inp db after r raised e)
      | inr quiet ↦ inl quiet
    ],
  )
