-- ===== src/Auth/Login/Granted/FirstStep.antt =====
-- What the first step of a login ends with.
use nyzrating.Prelude.{
  ◌≡◌, refl, false, not, ◌&&◌, Option, none, some, is_some, List, inl, inr, Option-cases, arith,
}
use nyzrating.Prelude.Text.{Text, or_empty}
use nyzrating.Users.{User, get_by_email}
use nyzrating.Auth.Tokens.{Jwt, Config}
use nyzrating.Auth.TwoFactor.Pending.{PendingLogin}
use nyzrating.Auth.TwoFactor.Authenticators.{get_enabled_secret}
use nyzrating.Auth.TwoFactor.Service.{Factors}
use nyzrating.Auth.Login.{AuthDb, LoginService, LoginInput, refused}
use nyzrating.Auth.Login.First.{after_send, after_pending, challenge, check_password}
use nyzrating.Auth.Login.Outcome.{EndsWell, issue-EndsWell, if-EndsWell, split-EndsWell}
use nyzrating.Auth.Login.Reasons.{Why}

module _ {T : Type 0} (jwt : Jwt T) (config : Config) (svc : LoginService) where
  send-EndsWell :
      (inp : LoginInput) (W : User → Type 0) (before db : AuthDb) (user : User)
      (sent : Option Factors)
      → db.sessions ≡ before.sessions
      → EndsWell jwt config inp W before (after_send jwt config svc inp db sent)
  send-EndsWell inp W before db user none e = e
  send-EndsWell inp W before db user (some factors) e = e

  pending-EndsWell :
      (inp : LoginInput) (W : User → Type 0) (before db : AuthDb) (user : User)
      (secret : Option Text) (pendings : Option (List PendingLogin))
      → db.sessions ≡ before.sessions
      → EndsWell jwt config inp W before (after_pending jwt config svc inp user secret db pendings)
  pending-EndsWell inp W before db user secret none e = e
  pending-EndsWell inp W before db user (some secret) (some pendings) e = e
  pending-EndsWell inp W before db user none (some pendings) e =
      elim (Option-cases svc.two_factor_service) [
        | inl off ↦ rw off e
        | inr (s, on) ↦ rw on (send-EndsWell inp W before _ user _ e)
      ]

  challenge-EndsWell :
      (inp : LoginInput) (W : User → Type 0) (before db : AuthDb) (user : User)
      → db.sessions ≡ before.sessions
      → (svc.is_two_factor_enabled ≡ false
          → get_enabled_secret user.id db.authenticators ≡ none
          → W user)
      → EndsWell jwt config inp W before (challenge jwt config svc inp user db)
  unfolding challenge
  challenge-EndsWell inp W before db user e why =
      split-EndsWell jwt config inp W before
        (not svc.is_two_factor_enabled
          && not (is_some (get_enabled_secret user.id db.authenticators)))
        _ _
        (λ b. issue-EndsWell jwt config inp W user before db (why (ground arith) (ground arith)) e)
        (if-EndsWell jwt config inp W before
          (not (is_some svc.two_factor_service)
            && not (is_some (get_enabled_secret user.id db.authenticators)))
          (refused, db) _ e (pending-EndsWell inp W before db user _ _ e))

  pub password-EndsWell :
      (inp : LoginInput) (db : AuthDb) (user : Option User)
      → get_by_email (or_empty inp.email) db.users ≡ user
      → EndsWell jwt config inp (Why svc inp db) db (check_password jwt config svc inp user db)
  password-EndsWell inp db none f = refl
  password-EndsWell inp db (some user) f =
      split-EndsWell jwt config inp (Why svc inp db) db user.is_active _ _
        (λ active.
          split-EndsWell jwt config inp (Why svc inp db) db
            (svc.verify_password (or_empty inp.password) user.password_hash) _ _
            (λ right. challenge-EndsWell inp (Why svc inp db) db _ user refl (λ off secret.
              inl (record {
                by_email = f;
                is_active = active;
                password = right;
                switched_off = off;
                no_secret = secret;
              })))
            refl)
        refl
