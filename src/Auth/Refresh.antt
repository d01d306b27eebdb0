-- ===== src/Auth/Refresh.antt =====
-- backend/core/modules/auth/use_cases/refresh_service.py: a new pair of tokens for a refresh
-- token. Logs, metrics and the audit are left out.
pub mod Success
pub mod Reuse
pub mod Renewal
pub mod Rotation
use nyzrating.Prelude.{
  ℕ, ◌+◌, ◌≤◌, Bool, true, false, not, ◌&&◌, ◌||◌, Option, none, some, ◌==◌, if◌then◌else◌, or_else,
}
use nyzrating.Prelude.Text.{Text, codes, text_eq, strip, or_empty, truthy}
use nyzrating.Users.{User}
use nyzrating.Auth.Tokens.{
  Payload, Claims, Verdict, accepted, expired, broken, refused, Jwt, Config, verify, make_access,
  make_refresh_pair,
}
use nyzrating.Auth.Sessions.{
  Session, Sessions, get_by_jti, create, update, invalidated, is_expired, invalidate_all_for_user,
}

pub data RefreshFailReason : Type 0 where
  expired_token invalid_token wrong_token_type security_version_mismatch : RefreshFailReason
  unknown_session permissions_changed session_reuse_detected session_expired : RefreshFailReason
  re_2fa_required : RefreshFailReason

pub record RefreshSuccess (T : Type 0) : Type 0 where
  pub access_token : T
  pub refresh_token : T
  pub access_jti : Text
  pub user : Option User
  pub auto_login : Bool

-- `raised` is an exception that leaves the service.
pub data RefreshResult (T : Type 0) : Type 0 where
  refresh_success : RefreshSuccess T → RefreshResult T
  refresh_failed : RefreshFailReason → RefreshResult T
  raised : RefreshResult T

-- Both are recorded, and neither is blank.
abbrev mismatch : Text → Text → Text → Text → Bool
mismatch stored_ip stored_ua ip ua =
    truthy stored_ip && truthy stored_ua && not (text_eq ip stored_ip) && not (text_eq ua stored_ua)

unfoldable pub fingerprint_mismatch : Session → Option Text → Option Text → Bool
fingerprint_mismatch rec ip ua =
    mismatch (strip (or_empty rec.ip)) (strip (or_empty rec.user_agent)) (strip (or_empty ip))
      (strip (or_empty ua))

-- What one call meets: the request, the clock, the identifiers of the two new tokens, the tenant's
-- security version, the user repository, and the users whose permissions have just changed.
pub record Call : Type 0 where
  pub ip : Option Text
  pub ua : Option Text
  pub now : ℕ
  pub refresh_jti : Text
  pub access_jti : Text
  pub tenant_version : Option ℕ
  pub users : Option (ℕ → Option User)
  pub permissions_changed_get : ℕ → Bool

abbrev pub tenant_ver : Call → ℕ
tenant_ver call = or_else call.tenant_version 0

-- `getattr(user, "security_version", 0) if user else 0`
abbrev pub version_of : Option User → ℕ
version_of none = 0
version_of (some user) = user.security_version

abbrev pub role_of : Option User → Text
role_of none = codes "user"
role_of (some user) = user.role

abbrev pub user_of : Option (ℕ → Option User) → ℕ → Option User
user_of none id = none
user_of (some get) id = get id

-- Without a repository no version is checked.
abbrev pub versions_match : Option (ℕ → Option User) → ℕ → Payload → ℕ → Bool
versions_match none id payload tenant = true
versions_match (some get) id payload tenant =
    or_else payload.user_ver 0 == version_of (get id) && or_else payload.tenant_ver 0 == tenant

abbrev pub current_ver : Option (ℕ → Option User) → ℕ → Payload → ℕ
current_ver none id payload = or_else payload.user_ver 0
current_ver (some get) id payload = version_of (get id)

module _ {T : Type 0} (jwt : Jwt T) (config : Config) (call : Call) where
  -- Steps 4 and 5, on a table that holds the new session or has refused it; an error leaves the
  -- table to which the transaction of `refresh` rolls back.
  abbrev pub issue : ℕ → Payload → ℕ → T → Sessions → Option Sessions → RefreshResult T × Sessions
  issue user_id payload user_ver new_refresh before none = (raised, before)
  issue user_id payload user_ver new_refresh before (some u) =
      let user = user_of call.users user_id in
      let access =
        make_access jwt config call.now call.access_jti user_id user_ver (tenant_ver call)
          (role_of user) in
      (
        refresh_success (record {
          access_token = access.0;
          refresh_token = new_refresh;
          access_jti = access.1;
          user = user;
          auto_login = or_else payload.al false;
        }),
        u,
      )

  -- Steps 3 to 5: the old session ends, and a new one begins.
  unfoldable pub rotate : ℕ → Payload → Session → Sessions → RefreshResult T × Sessions
  rotate user_id payload rec t =
      let closed = update (invalidated rec) t in
      let user_ver = current_ver call.users user_id payload in
      let pair =
        make_refresh_pair jwt config call.now call.refresh_jti user_id (or_else payload.al false)
          user_ver (tenant_ver call) in
      issue user_id payload user_ver pair.0 t
        (create user_id call.refresh_jti (jwt.hash pair.0) pair.1.exp call.ip call.ua closed)

  -- The session that was found is checked.
  unfoldable pub check_session : ℕ → Payload → Session → Sessions → RefreshResult T × Sessions
  check_session user_id payload rec t =
      if not rec.valid
      then (if call.permissions_changed_get rec.user_id
          then (refresh_failed permissions_changed, t)
          else (refresh_failed session_reuse_detected, invalidate_all_for_user rec.user_id t))
      else if is_expired call.now rec
      then (refresh_failed session_expired, update (invalidated rec) t)
      else if fingerprint_mismatch rec call.ip call.ua
      then (refresh_failed re_2fa_required, t)
      else rotate user_id payload rec t

  abbrev pub check_found : ℕ → Payload → Option Session → Sessions → RefreshResult T × Sessions
  check_found user_id payload none t = (refresh_failed unknown_session, t)
  check_found user_id payload (some rec) t = check_session user_id payload rec t

  -- `none` is the `KeyError` of a missing subject.
  abbrev pub check_subject : Option ℕ → Payload → Sessions → RefreshResult T × Sessions
  check_subject none payload t = (raised, t)
  check_subject (some user_id) payload t =
      if versions_match call.users user_id payload (tenant_ver call)
      then check_found user_id payload (get_by_jti payload.jti t) t
      else (refresh_failed security_version_mismatch, t)

  abbrev pub check_verdict : Verdict → Sessions → RefreshResult T × Sessions
  check_verdict expired t = (refresh_failed expired_token, t)
  check_verdict broken t = (refresh_failed invalid_token, t)
  check_verdict refused t = (raised, t)
  check_verdict (accepted payload) t =
      if text_eq (or_empty payload.typ) (codes "refresh")
      then check_subject payload.sub payload t
      else (refresh_failed wrong_token_type, t)

  unfoldable pub refresh : T → Sessions → RefreshResult T × Sessions
  refresh token t = check_verdict (verify jwt config call.now token) t
