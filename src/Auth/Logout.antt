-- ===== src/Auth/Logout.antt =====
-- backend/core/modules/auth/use_cases/logout_service.py: the end of a session. Logs, metrics and
-- the audit are left out.
use nyzrating.Prelude.{ℕ, Bool, true, ◌&&◌, Option, none, some, if◌then◌else◌}
use nyzrating.Prelude.Text.{codes, text_eq, or_empty, truthy}
use nyzrating.Auth.Tokens.{
  Payload, Verdict, accepted, expired, broken, refused, Jwt, Config, verify, decode_ignore_exp,
}
use nyzrating.Auth.Sessions.{Session, Sessions, get_by_jti, update, invalidated}

module _ {T : Type 0} (jwt : Jwt T) (config : Config) where
  -- The session ends when the hash is that of the token.
  abbrev pub close_if : T → Option Session → Sessions → Sessions
  close_if token none t = t
  close_if token (some session) t =
      if text_eq session.token_hash (jwt.hash token) then update (invalidated session) t else t

  abbrev pub close_expired : T → Option Payload → Sessions → Sessions
  close_expired token none t = t
  close_expired token (some payload) t = elim payload.sub [
    | none ↦ t
    | some user_id ↦
        if text_eq (or_empty payload.typ) (codes "refresh") && truthy (or_empty payload.jti)
        then close_if token (get_by_jti payload.jti t) t
        else t
  ]

  -- `_logout_with_expired_token`
  unfoldable pub logout_with_expired_token : ℕ → T → Sessions → Option Bool × Sessions
  logout_with_expired_token now token t =
      (some true, close_expired token (decode_ignore_exp jwt config now token) t)

  abbrev pub logout_subject : T → Payload → Option ℕ → Sessions → Option Bool × Sessions
  logout_subject token payload none t = (none, t)
  logout_subject token payload (some user_id) t =
      (some true, close_if token (get_by_jti payload.jti t) t)

  abbrev pub logout_verdict : ℕ → T → Verdict → Sessions → Option Bool × Sessions
  logout_verdict now token expired t = logout_with_expired_token now token t
  logout_verdict now token broken t = (some true, t)
  logout_verdict now token refused t = (none, t)
  logout_verdict now token (accepted payload) t =
      if text_eq (or_empty payload.typ) (codes "refresh")
      then logout_subject token payload payload.sub t
      else (some true, t)

  -- `none` is an exception that leaves the service.
  unfoldable pub logout : ℕ → T → Sessions → Option Bool × Sessions
  logout now token t = logout_verdict now token (verify jwt config now token) t
