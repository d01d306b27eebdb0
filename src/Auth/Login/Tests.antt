-- ===== src/Auth/Login/Tests.antt =====
-- Runs of the login, and its theorems at examples. Here a token is the record of its claims, a
-- password is its own hash, and the authenticator always shows six zeros.
use nyzrating.Prelude.{
  ◌≡◌, refl, arith, true, false, none, some, [], ◌∷◌, ltb, leb, if◌then◌else◌, ◌⊎◌, Bool,
}
use nyzrating.Prelude.Text.{
  Text, codes, text_eq, or_empty, is_digit, truthy, strip, lstrip, is_space, lower, lower_char,
  upper, upper_char,
}
use nyzrating.Users.{
  User, get_by_email, find_email, reset_failed_login, update_user, reset_login_row,
}
use nyzrating.Auth.Tokens.{
  access_claims, refresh_claims, make_access, make_refresh_pair, Claims, accepted, expired,
  refused as not_accepted, Jwt, Config,
}
use nyzrating.Auth.Sessions.{
  Session, create, fits, get_by_jti, find_jti, invalidate_all_for_user, invalidated, new_session,
}
use nyzrating.Auth.TwoFactor.Authenticators.{get_enabled_secret, enabled_secret, get_by_user_id}
use nyzrating.Auth.TwoFactor.Attempts.{
  is_blocked, blocked_row, find_attempt, has_key, window_over, str, record_failed, counted,
  new_attempt, current_attempt,
}
use nyzrating.Auth.TwoFactor.Pending.{get_user_id, consume}
use nyzrating.Auth.TwoFactor.Totp.{
  Crypto, hotp, truncate, pack_q, unpack_i, zfill, sanitize_totp_secret, verify_authenticator_code,
}
use nyzrating.Auth.TwoFactor.Service.{TwoFactorService, any_blocked}
use nyzrating.Auth.Login.{
  AuthDb, LoginService, LoginInput, LoginSuccess, login_success, too_many_attempts, transaction,
  issue_tokens,
}
use nyzrating.Auth.Login.First.{login_step1, challenge}
use nyzrating.Auth.Login.Second.{
  login_step2, check_authenticator, authenticator_scopes, authenticator_max_attempts,
  authenticator_window, record_authenticator_failed,
}
use nyzrating.Auth.Login.Entry.{login}
use nyzrating.Auth.Login.Outcome.{IsSingle}
use nyzrating.Auth.Login.Reasons.{Why}
use nyzrating.Auth.Login.Granted.{login_success-reason, login_success-IsSingle, login_error}
use nyzrating.Auth.Login.Below.{AllBelow, rows-AllBelow}
use nyzrating.Auth.Login.Guesses.{IsTry, logins, guesses_not_limited}

abbrev plain : Jwt Claims
plain = record {
  encode = λ c. c;
  decode = λ issuer audience now c.
      if ltb now c.nbf then not_accepted else if leb c.exp now then expired else accepted c.payload;
  decode_any_exp = λ issuer audience now c. some c.payload;
  hash = λ c. or_empty c.payload.jti;
}

abbrev config : Config
config = record {
  issuer = none;
  audience = none;
  access_exp = 15;
  refresh_exp = 43200;
  refresh_session_exp = 1440;
}

abbrev crypto : Crypto
crypto = record {
  is_alnum = λ c. true;
  is_digit_char = is_digit;
  b32decode = λ t. some t;
  hmac_sha1 = λ key msg. 0 ∷ 0 ∷ 0 ∷ 0 ∷ 0 ∷ [];
}

abbrev two_factor : TwoFactorService
two_factor = record {
  has_attempt_repo = true;
  max_attempts = 2;
  attempt_window_minutes = 15;
  code_expiry_minutes = 10;
}

abbrev service : LoginService
service = record {
  crypto = crypto;
  sha256_hex = λ t. t;
  verify_password = text_eq;
  two_factor_service = some two_factor;
  is_two_factor_enabled = false;
}

abbrev bob : User
bob = record {
  id = 7;
  email = codes "bob@b.hu";
  is_active = true;
  role = codes "user";
  failed_login_attempts = 0;
  security_version = 2;
  password_hash = codes "pw";
}

abbrev old_session : Session
old_session = record {
  id = 1;
  user_id = 7;
  jti = codes "j1";
  token_hash = codes "j1";
  valid = true;
  ip = none;
  user_agent = none;
  expires_at = 1000000000000;
}

-- Bob without an authenticator.
abbrev before : AuthDb
before = record {
  users = bob ∷ [];
  sessions = record { rows = old_session ∷ []; next_id = 2 };
  factors = record { code_table = record { rows = []; next_id = 1 }; attempt_rows = [] };
  pendings = [];
  authenticators = [];
}

-- Bob with one, after the first step.
abbrev waiting : AuthDb
waiting = record before {
  pendings = record { token = codes "p"; user_id = 7; expires_at = 600000000 } ∷ [];
  authenticators =
      record {
        user_id = 7;
        secret_base32 = some (codes "AB");
        is_enabled = true;
        pending_secret_base32 = none;
        pending_expires_at = none;
      }
      ∷ [];
}

abbrev by_password : Text → LoginInput
by_password password = record {
  email = some (codes " Bob@b.hu");
  password = some password;
  pending_token = none;
  two_factor_code = none;
  ip = none;
  ua = none;
  auto_login = false;
  now = 100000000;
  refresh_jti = codes "j2";
  access_jti = codes "a";
  fresh_pending = codes "q";
  drawn = 5;
  sends = λ email code. true;
  tenant_version = 0;
}

abbrev by_code : Text → LoginInput
by_code code = record (by_password []) {
  pending_token = some (codes "p");
  two_factor_code = some code;
}

abbrev outcome : LoginSuccess Claims
outcome = record {
  access_token = access_claims config 100000000 (codes "a") 7 2 0 (codes "user");
  refresh_token = refresh_claims config 100000000 (codes "j2") 7 false 2 0;
  user = bob;
  access_jti = codes "a";
}

abbrev after : AuthDb
after = record before {
  sessions = record {
    rows =
        record old_session { valid = false }
        ∷ record {
          id = 2;
          user_id = 7;
          jti = codes "j2";
          token_hash = codes "j2";
          valid = true;
          ip = none;
          user_agent = none;
          expires_at = 86500000000;
        }
        ∷ [];
    next_id = 3;
  };
}

logs_in :
    login plain config service (by_password (codes "pw")) before ≡ (login_success outcome, after)
unfolding login transaction issue_tokens make_access make_refresh_pair access_claims refresh_claims
    create fits get_by_jti find_jti invalidate_all_for_user invalidated new_session text_eq strip
    lstrip is_space lower lower_char get_by_email find_email login_step1 challenge
    get_enabled_secret enabled_secret get_by_user_id reset_failed_login update_user reset_login_row
logs_in = refl

login_success-reason_example : Why service (by_password (codes "pw")) before bob
login_success-reason_example =
    login_success-reason plain config service (by_password (codes "pw")) before after outcome
      logs_in

login_success-IsSingle_example : IsSingle plain config (by_password (codes "pw")) outcome after
login_success-IsSingle_example =
    login_success-IsSingle plain config service (by_password (codes "pw")) before after outcome
      logs_in

-- One failure counts already.
abbrev once_failed : AuthDb
once_failed = record waiting {
  factors = record {
    code_table = record { rows = []; next_id = 1 };
    attempt_rows =
        record {
          scope = codes "user";
          scope_key = codes "7";
          attempts = 1;
          window_start_at = 90000000;
        }
        ∷ [];
  };
}

raises_limit :
    login plain config service (by_code (codes "111111")) once_failed
    ≡ (too_many_attempts, once_failed)
unfolding login transaction login_step2 get_user_id text_eq strip lstrip is_space get_enabled_secret
    enabled_secret get_by_user_id check_authenticator any_blocked authenticator_scopes
    authenticator_max_attempts authenticator_window is_blocked blocked_row find_attempt has_key
    window_over str verify_authenticator_code hotp truncate pack_q unpack_i zfill
    sanitize_totp_secret upper upper_char is_digit record_authenticator_failed record_failed counted
    new_attempt current_attempt consume
raises_limit = refl

login_error_example :
    (once_failed.sessions ≡ once_failed.sessions) × ((true ≡ false) ⊎ (once_failed ≡ once_failed))
login_error_example =
    login_error plain config service (by_code (codes "111111")) once_failed once_failed
      too_many_attempts refl raises_limit

code-IsTry :
    (code : Text) (verdict : Bool)
    → truthy code ≡ true
    → verify_authenticator_code crypto 100000000 (codes "AB") code ≡ some verdict
    → IsTry plain config service two_factor 7 (codes "AB") verdict once_failed (by_code code)
unfolding get_enabled_secret get_user_id enabled_secret get_by_user_id strip lstrip is_space text_eq
code-IsTry code verdict t v = record {
  has_service = refl;
  counts = refl;
  not_zero = refl;
  has_secret = refl;
  has_token = refl;
  has_code = t;
  is_pending = refl;
  verdict_is = v;
}

wrong_code : verify_authenticator_code crypto 100000000 (codes "AB") (codes "111111") ≡ some false
unfolding verify_authenticator_code hotp truncate pack_q unpack_i zfill sanitize_totp_secret upper
    upper_char is_digit str text_eq
wrong_code = refl

right_code : verify_authenticator_code crypto 100000000 (codes "AB") (codes "000000") ≡ some true
unfolding verify_authenticator_code hotp truncate pack_q unpack_i zfill sanitize_totp_secret upper
    upper_char is_digit str text_eq
right_code = refl

once_below : AllBelow (authenticator_max_attempts two_factor) once_failed.factors.attempt_rows
unfolding authenticator_max_attempts
once_below = rows-AllBelow 2 once_failed.factors.attempt_rows (ground arith, tt)

guesses_not_limited_example :
    (login plain config service (by_code (codes "000000")) (
      logins plain config service two_factor 7
        (codes "AB")
        (by_code (codes "111111") ∷ by_code (codes "111111") ∷ by_code (codes "111111") ∷ [])
        once_failed)).0
    ≡ (login plain config service (by_code (codes "000000")) once_failed).0
guesses_not_limited_example =
    guesses_not_limited plain config service two_factor 7 (codes "AB") once_failed
      (by_code (codes "111111") ∷ by_code (codes "111111") ∷ by_code (codes "111111") ∷ [])
      (by_code (codes "000000")) once_below
      (
        code-IsTry (codes "111111") false refl wrong_code,
        (
          code-IsTry (codes "111111") false refl wrong_code,
          (code-IsTry (codes "111111") false refl wrong_code, tt),
        ),
      )
      (code-IsTry (codes "000000") true refl right_code)
