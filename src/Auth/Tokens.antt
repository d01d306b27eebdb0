-- ===== src/Auth/Tokens.antt =====
-- backend/core/modules/auth/service/token_service.py: the claims of a token. Signing and checking
-- a token are the JWT library's, and hashing it is SHA-256; they are the fields of `Jwt`, over a
-- type of encoded tokens. Instants are microseconds; the identifiers of tokens are arguments.
use nyzrating.Prelude.{ℕ, ◌+◌, ◌*◌, max, Bool, Option, none, some, if◌then◌else◌}
use nyzrating.Prelude.Text.{Text, codes}

abbrev pub minute : ℕ
minute = 60000000

-- The claims that the use cases read; `none` where a token lacks one. A subject is the number that
-- the service has signed.
pub record Payload : Type 0 where
  pub sub : Option ℕ
  pub typ : Option Text
  pub jti : Option Text
  pub user_ver : Option ℕ
  pub tenant_ver : Option ℕ
  pub role : Option Text
  pub al : Option Bool

pub record Claims : Type 0 where
  pub payload : Payload
  pub exp : ℕ
  pub iat : ℕ
  pub nbf : ℕ
  pub iss : Option Text
  pub aud : Option Text

-- What `jwt.decode` says: the payload, an expired signature, a broken token, or another
-- `InvalidTokenError` (issuer, audience, a token that is not valid yet).
pub data Verdict : Type 0 where
  accepted : Payload → Verdict
  expired : Verdict
  broken : Verdict
  refused : Verdict

pub record Jwt (T : Type 0) : Type 0 where
  pub encode : Claims → T
  -- Under the issuer and the audience that are expected, at an instant.
  pub decode : Option Text → Option Text → ℕ → T → Verdict
  pub decode_any_exp : Option Text → Option Text → ℕ → T → Option Payload
  pub hash : T → Text

pub record Config : Type 0 where
  pub issuer : Option Text
  pub audience : Option Text
  pub access_exp : ℕ
  pub refresh_exp : ℕ
  pub refresh_session_exp : ℕ

-- The settings, with the default of `refresh_session_exp_min`.
unfoldable pub token_service : Option Text → Option Text → ℕ → ℕ → Option ℕ → Config
token_service issuer audience access refresh session = record {
  issuer = issuer;
  audience = audience;
  access_exp = access;
  refresh_exp = refresh;
  refresh_session_exp = elim session [ none ↦ max 60 refresh | some m ↦ m ];
}

unfoldable pub access_claims : Config → ℕ → Text → ℕ → ℕ → ℕ → Text → Claims
access_claims c now jti user_id user_ver tenant_ver role = record {
  payload = record {
    sub = some user_id;
    typ = some (codes "access");
    jti = some jti;
    user_ver = some user_ver;
    tenant_ver = some tenant_ver;
    role = some role;
    al = none;
  };
  exp = now + c.access_exp * minute;
  iat = now;
  nbf = now;
  iss = c.issuer;
  aud = c.audience;
}

unfoldable pub refresh_claims : Config → ℕ → Text → ℕ → Bool → ℕ → ℕ → Claims
refresh_claims c now jti user_id auto_login user_ver tenant_ver = record {
  payload = record {
    sub = some user_id;
    typ = some (codes "refresh");
    jti = some jti;
    user_ver = some user_ver;
    tenant_ver = some tenant_ver;
    role = none;
    al = some auto_login;
  };
  exp = now + (if auto_login then c.refresh_exp else c.refresh_session_exp) * minute;
  iat = now;
  nbf = now;
  iss = c.issuer;
  aud = c.audience;
}

module _ {T : Type 0} (jwt : Jwt T) (c : Config) where
  unfoldable pub make_access : ℕ → Text → ℕ → ℕ → ℕ → Text → T × Text
  make_access now jti user_id user_ver tenant_ver role =
      (jwt.encode (access_claims c now jti user_id user_ver tenant_ver role), jti)

  unfoldable pub make_refresh_pair : ℕ → Text → ℕ → Bool → ℕ → ℕ → T × Claims
  make_refresh_pair now jti user_id auto_login user_ver tenant_ver =
      let payload = refresh_claims c now jti user_id auto_login user_ver tenant_ver in
      (jwt.encode payload, payload)

  unfoldable pub verify : ℕ → T → Verdict
  verify now token = jwt.decode c.issuer c.audience now token

  unfoldable pub decode_ignore_exp : ℕ → T → Option Payload
  decode_ignore_exp now token = jwt.decode_any_exp c.issuer c.audience now token
