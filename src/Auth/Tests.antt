-- ===== src/Auth/Tests.antt =====
-- Runs of the refresh, and its theorems at examples. Here a token is the record of its claims.
use nyzrating.Prelude.{
  ℕ, ◌+◌, ◌*◌, ◌≡◌, refl, arith, true, false, none, some, [], ◌∷◌, All, ltb, leb, if◌then◌else◌,
  ◌&&◌, ◌||◌, ◌==◌, take, length-take,
}
use nyzrating.Prelude.Text.{Text, codes, text_eq, or_empty, strip}
use nyzrating.Users.{User}
use nyzrating.Auth.Tokens.{
  Payload, Claims, accepted, expired, refused, Jwt, Config, verify, access_claims, refresh_claims,
  make_access, make_refresh_pair, minute,
}
use nyzrating.Auth.Sessions.{
  Session, Sessions, get_by_jti, find_jti, create, fits, new_session, update, invalidated,
  is_expired,
}
use nyzrating.Auth.Refresh.{
  RefreshSuccess, refresh_success, refresh_failed, session_reuse_detected, Call, refresh,
  check_session, rotate, fingerprint_mismatch,
}
use nyzrating.Auth.Refresh.Success.{IsGranted, refresh-IsGranted}
use nyzrating.Auth.Refresh.Rotation.{IsRotated, rotate-IsRotated}
use nyzrating.Auth.Refresh.Reuse.{reuse_closes-All}
use nyzrating.Auth.Refresh.Renewal.{DecodesEncoded, HashesFit, Succeeds, refresh_renews}
use nyzrating.Auth.Logout.{logout}
use nyzrating.Auth.Life.{here, next, logged_out, Bears, refresh_once}

abbrev plain : Jwt Claims
plain = record {
  encode = λ c. c;
  decode = λ issuer audience now c.
      if ltb now c.nbf || ltb now c.iat
      then refused
      else if leb c.exp now
      then expired
      else accepted c.payload;
  decode_any_exp = λ issuer audience now c. some c.payload;
  hash = λ c. take 255 (or_empty c.payload.jti);
}

plain-DecodesEncoded : DecodesEncoded plain
plain-DecodesEncoded c now issued since until = ground arith

plain-HashesFit : HashesFit plain
plain-HashesFit c = length-take 255 (or_empty c.payload.jti)

abbrev config : Config
config = record {
  issuer = none;
  audience = none;
  access_exp = 15;
  refresh_exp = 43200;
  refresh_session_exp = 1440;
}

abbrev bob : User
bob = record {
  id = 7;
  email = codes "bob@b.hu";
  is_active = true;
  role = codes "user";
  failed_login_attempts = 0;
  security_version = 2;
  password_hash = [];
}

abbrev call_at : ℕ → Text → Call
call_at now jti = record {
  ip = some (codes "10.0.0.1");
  ua = some (codes "firefox");
  now = now;
  refresh_jti = jti;
  access_jti = codes "a";
  tenant_version = some 1;
  users = some (λ id. some bob);
  permissions_changed_get = λ id. false;
}

abbrev payload : Payload
payload = record {
  sub = some 7;
  typ = some (codes "refresh");
  jti = some (codes "j1");
  user_ver = some 2;
  tenant_ver = some 1;
  role = none;
  al = some false;
}

abbrev token : Claims
token = record { payload = payload; exp = 1000000000000; iat = 0; nbf = 0; iss = none; aud = none }

abbrev session : Session
session = record {
  id = 1;
  user_id = 7;
  jti = codes "j1";
  token_hash = codes "j1";
  valid = true;
  ip = some (codes "10.0.0.1");
  user_agent = some (codes "firefox");
  expires_at = 1000000000000;
}

abbrev before : Sessions
before = record { rows = session ∷ []; next_id = 2 }

abbrev first : Call
first = call_at 1000 (codes "j2")

abbrev new_token : Claims
new_token = refresh_claims config 1000 (codes "j2") 7 false 2 1

abbrev outcome : RefreshSuccess Claims
outcome = record {
  access_token = access_claims config 1000 (codes "a") 7 2 1 (codes "user");
  refresh_token = new_token;
  access_jti = codes "a";
  user = some bob;
  auto_login = false;
}

abbrev after : Sessions
after = record {
  rows =
      record session { valid = false }
      ∷ record {
        id = 2;
        user_id = 7;
        jti = codes "j2";
        token_hash = codes "j2";
        valid = true;
        ip = some (codes "10.0.0.1");
        user_agent = some (codes "firefox");
        expires_at = 1000 + 1440 * minute;
      }
      ∷ [];
  next_id = 3;
}

ran : refresh plain config first token before ≡ (refresh_success outcome, after)
unfolding refresh verify text_eq get_by_jti find_jti check_session is_expired fingerprint_mismatch
    strip rotate make_access make_refresh_pair update create fits new_session invalidated
    refresh_claims access_claims
ran = refl

refresh-IsGranted_example : IsGranted plain config first token before outcome after
refresh-IsGranted_example = refresh-IsGranted plain config first token before after outcome ran

rotated : rotate plain config first 7 payload session before ≡ (refresh_success outcome, after)
unfolding text_eq get_by_jti find_jti rotate make_access make_refresh_pair update create fits
    new_session invalidated refresh_claims access_claims
rotated = refl

found : get_by_jti (some (codes "j1")) before ≡ some session
unfolding get_by_jti find_jti text_eq
found = refl

rotate-IsRotated_example : IsRotated plain config first 7 payload session outcome after
rotate-IsRotated_example =
    rotate-IsRotated plain config first 7 payload session before after outcome found rotated

token-Bears : Bears plain config token (codes "j1")
unfolding verify
token-Bears now p h = ground arith

stolen : Call
stolen = call_at 5000000 (codes "j9")

abbrev later_table : Sessions
later_table = (logout plain config 2000 new_token after).1

refresh_once_example :
    ¬ (refresh plain config stolen token later_table ≡ (refresh_success outcome, later_table))
refresh_once_example =
    refresh_once plain config (codes "j1") first stolen token token before after later_table
      later_table outcome outcome token-Bears token-Bears ran
      (next here (logged_out 2000 new_token after))

closed_found : get_by_jti (some (codes "j1")) after ≡ some (record session { valid = false })
unfolding get_by_jti find_jti text_eq
closed_found = refl

accepts : verify plain config 2000 token ≡ accepted payload
unfolding verify
accepts = refl

reuse_closes-All_example :
    let end = refresh plain config (call_at 2000 (codes "j3")) token after in
    (end.0 ≡ refresh_failed session_reuse_detected)
    × All (λ s. s.user_id == 7 && s.valid ≡ false) end.1.rows
reuse_closes-All_example =
    reuse_closes-All plain config (call_at 2000 (codes "j3")) token after payload 7
      (record session { valid = false }) accepts refl refl refl closed_found refl refl

fresh_jti : get_by_jti (some (codes "j3")) after ≡ none
unfolding get_by_jti find_jti text_eq
fresh_jti = refl

refresh_renews_example :
    Succeeds plain config
      (some bob)
      false
      (refresh plain config (call_at 2000 (codes "j3")) new_token after)
refresh_renews_example =
    refresh_renews plain config plain-DecodesEncoded plain-HashesFit first
      (call_at 2000 (codes "j3")) token before after after outcome ran refl fresh_jti (omega arith)
      (omega arith) refl refl refl (omega arith) (omega arith)
