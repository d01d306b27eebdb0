-- ===== src/Auth/Login/Granted/SecondStep.antt =====
-- What the second step of a login ends with.
use nyzrating.Prelude.{
  ℕ, ◌≡◌, refl, Bool, true, false, ◌&&◌, ◌||◌, Option, none, some, is_some, List, inl, inr,
  Bool-cases, ◌==◌, arith, sym, subst,
}
use nyzrating.Prelude.Text.{Text, truthy, or_empty}
use nyzrating.Users.{User, get_by_id}
use nyzrating.Auth.Tokens.{Jwt, Config}
use nyzrating.Auth.TwoFactor.Codes.{TwoFactorCode, get_valid_code}
use nyzrating.Auth.TwoFactor.Pending.{get_user_id}
use nyzrating.Auth.TwoFactor.Authenticators.{get_enabled_secret}
use nyzrating.Auth.TwoFactor.Totp.{verify_authenticator_code}
use nyzrating.Auth.TwoFactor.Attempts.{Attempt}
use nyzrating.Auth.TwoFactor.Service.{
  TwoFactorService, after_lookup, any_blocked, is_limited, verify_code,
}
use nyzrating.Auth.Login.{AuthDb, LoginService, LoginInput}
use nyzrating.Auth.Login.Second.{
  authenticator_max_attempts, authenticator_window, authenticator_scopes, limited, log_in,
  after_code, wrong_authenticator, judge_authenticator, check_authenticator, judge_email,
  check_factor, check_pending,
}
use nyzrating.Auth.Login.Outcome.{EndsWell, issue-EndsWell, if-EndsWell, split-EndsWell}
use nyzrating.Auth.Login.Reasons.{CodeOk, Why}

module _ {T : Type 0} (jwt : Jwt T) (config : Config) (svc : LoginService) where
  log_in-EndsWell :
      (inp : LoginInput) (before db : AuthDb) (user_id : ℕ) (found : Option User)
      → get_user_id inp.now (or_empty inp.pending_token) before.pendings ≡ some user_id
      → CodeOk svc inp before user_id
      → get_by_id user_id before.users ≡ found
      → db.sessions ≡ before.sessions
      → EndsWell jwt config inp (Why svc inp before) before (log_in jwt config svc inp found db)
  log_in-EndsWell inp before db user_id none p c f e = e
  log_in-EndsWell inp before db user_id (some user) p c f e =
      split-EndsWell jwt config inp (Why svc inp before) before user.is_active _ _
        (λ active.
          issue-EndsWell jwt config inp (Why svc inp before) user before db
            (inr (record {
              user_id = user_id;
              is_pending = p;
              by_id = f;
              is_active = active;
              code_ok = c;
            }))
            e)
        e

  after_code-EndsWell :
      (inp : LoginInput) (before db : AuthDb) (user_id : ℕ)
      → get_user_id inp.now (or_empty inp.pending_token) before.pendings ≡ some user_id
      → CodeOk svc inp before user_id
      → db.users ≡ before.users
      → db.sessions ≡ before.sessions
      → EndsWell jwt config inp
          (Why svc inp before)
          before
          (after_code jwt config svc inp (or_empty inp.pending_token) user_id db)
  unfolding after_code
  after_code-EndsWell inp before db user_id p c u e =
      log_in-EndsWell inp before _ user_id (get_by_id user_id db.users) p c
        (subst (λ us. get_by_id user_id before.users ≡ get_by_id user_id us) (sym u) refl) e

  wrong-EndsWell :
      (inp : LoginInput) (W : User → Type 0) (s : TwoFactorService) (token : Text) (db : AuthDb)
      (r : Bool × List Attempt)
      → EndsWell jwt config inp W db (wrong_authenticator jwt config svc s token db r)
  wrong-EndsWell inp W s token db (blocked_now, rows) =
      if-EndsWell jwt config inp W db s.has_attempt_repo _ _
        (if-EndsWell jwt config inp W db blocked_now _ _ refl refl) refl

  judge_authenticator-EndsWell :
      (inp : LoginInput) (s : TwoFactorService) (db : AuthDb) (user_id : ℕ) (secret : Text)
      (verdict : Option Bool)
      → get_user_id inp.now (or_empty inp.pending_token) db.pendings ≡ some user_id
      → get_enabled_secret user_id db.authenticators ≡ some secret
      → verify_authenticator_code svc.crypto inp.now secret (or_empty inp.two_factor_code) ≡ verdict
      → EndsWell jwt config inp
          (Why svc inp db)
          db
          (judge_authenticator jwt config svc s inp (or_empty inp.pending_token) user_id db verdict)
  judge_authenticator-EndsWell inp s db user_id secret none p q v = refl
  judge_authenticator-EndsWell inp s db user_id secret (some false) p q v =
      wrong-EndsWell inp (Why svc inp db) s (or_empty inp.pending_token) db _
  judge_authenticator-EndsWell inp s db user_id secret (some true) p q v =
      after_code-EndsWell inp db _ user_id p (inl (secret, q, v)) (ground arith) (ground arith)

  lookup-EndsWell :
      (inp : LoginInput) (s : TwoFactorService) (db : AuthDb) (user_id : ℕ)
      (found : Option TwoFactorCode)
      → get_user_id inp.now (or_empty inp.pending_token) db.pendings ≡ some user_id
      → get_enabled_secret user_id db.authenticators ≡ none
      → get_valid_code svc.sha256_hex inp.now user_id
          (or_empty inp.two_factor_code)
          db.factors.code_table
        ≡ found
      → EndsWell jwt config inp (Why svc inp db) db (
          judge_email jwt config svc inp (or_empty inp.pending_token) user_id db (
            some (
              after_lookup svc.sha256_hex s inp.now user_id
                (some (or_empty inp.pending_token))
                inp.ip
                db.factors
                found)))
  lookup-EndsWell inp s db user_id none p q v =
      elim (Bool-cases
        (s.has_attempt_repo && (truthy (or_empty inp.pending_token) || is_some inp.ip))) [
          | inl b ↦ rw b refl
          | inr b ↦ rw b refl
        ]
  lookup-EndsWell inp s db user_id (some code) p q v =
      after_code-EndsWell inp db _ user_id p (inr (code, q, v)) refl refl

  judge_email-EndsWell :
      (inp : LoginInput) (s : TwoFactorService) (db : AuthDb) (user_id : ℕ)
      → get_user_id inp.now (or_empty inp.pending_token) db.pendings ≡ some user_id
      → get_enabled_secret user_id db.authenticators ≡ none
      → EndsWell jwt config inp (Why svc inp db) db (
          judge_email jwt config svc inp (or_empty inp.pending_token) user_id db (
            verify_code svc.sha256_hex s inp.now user_id
              (or_empty inp.two_factor_code)
              (some (or_empty inp.pending_token))
              inp.ip
              db.factors))
  unfolding verify_code
  judge_email-EndsWell inp s db user_id p q =
      elim (Bool-cases (
        is_limited svc.sha256_hex s inp.now user_id (some (or_empty inp.pending_token)) inp.ip
          db.factors)) [
            | inl limited ↦ rw limited refl
            | inr free ↦ rw free (lookup-EndsWell inp s db user_id _ p q refl)
          ]

  check_factor-EndsWell :
      (inp : LoginInput) (s : TwoFactorService) (db : AuthDb) (user_id : ℕ) (secret : Option Text)
      → get_user_id inp.now (or_empty inp.pending_token) db.pendings ≡ some user_id
      → get_enabled_secret user_id db.authenticators ≡ secret
      → EndsWell jwt config inp
          (Why svc inp db)
          db
          (check_factor jwt config svc s inp (or_empty inp.pending_token) user_id secret db)
  unfolding check_authenticator
  check_factor-EndsWell inp s db user_id none p q = judge_email-EndsWell inp s db user_id p q
  check_factor-EndsWell inp s db user_id (some secret) p q =
      if-EndsWell jwt config inp (Why svc inp db) db
        (s.has_attempt_repo
          && any_blocked inp.now (authenticator_max_attempts s) (authenticator_window s)
              (authenticator_scopes user_id (or_empty inp.pending_token) inp.ip)
              db.factors.attempt_rows)
        (limited jwt config svc (or_empty inp.pending_token) db) _ refl
        (judge_authenticator-EndsWell inp s db user_id secret _ p q refl)

  pub check_pending-EndsWell :
      (inp : LoginInput) (s : Option TwoFactorService) (db : AuthDb) (user_id : Option ℕ)
      → get_user_id inp.now (or_empty inp.pending_token) db.pendings ≡ user_id
      → EndsWell jwt config inp
          (Why svc inp db)
          db
          (check_pending jwt config svc s inp (or_empty inp.pending_token) user_id db)
  check_pending-EndsWell inp s db none p = refl
  check_pending-EndsWell inp none db (some user_id) p = refl
  check_pending-EndsWell inp (some s) db (some user_id) p =
      if-EndsWell jwt config inp (Why svc inp db) db (user_id == 0) _ _ refl
        (check_factor-EndsWell inp s db user_id _ p refl)
