-- ===== src/Auth/Refresh/Renewal.antt =====
-- The refresh after a refresh.
use nyzrating.Prelude.{
  ℕ, ◌+◌, ◌*◌, ◌≤◌, ◌<◌, ◌≡◌, refl, Bool, true, false, arith, Option, none, some, [], ◌∷◌, ◌++◌,
  if◌then◌else◌, ◌==◌, sym, ap, ◌∙◌, subst, or_else, length,
}
use nyzrating.Prelude.Text.{Text, text_eq_refl, or_empty, strip}
use nyzrating.Users.{User}
use nyzrating.Auth.Tokens.{
  Payload, Claims, accepted, Jwt, Config, verify, refresh_claims, make_refresh_pair, minute,
}
use nyzrating.Auth.Sessions.{
  Session, Sessions, get_by_jti, create, fits, new_session, written, is_expired, update,
  invalidated,
}
use nyzrating.Auth.Sessions.Rows.{at_rows, at_rows-IsQuiet, written-IsQuiet, find_jti-none}
use nyzrating.Auth.Refresh.{
  RefreshResult, RefreshSuccess, refresh_success, Call, refresh, rotate, issue, check_session,
  tenant_ver, versions_match, current_ver, fingerprint_mismatch, user_of,
}
use nyzrating.Auth.Refresh.Success.{refresh-IsGranted}
use nyzrating.Auth.Refresh.Rotation.{rotate-IsRotated}
use nyzrating.Auth.Refresh.Reuse.{refresh-check_session}

-- What the JWT library promises: from its `iat` and its `nbf` to a second before its `exp`, a token
-- that it has signed is accepted under the issuer and the audience of its claims, with their
-- payload.
abbrev pub DecodesEncoded : {T : Type 0} → Jwt T → Type 0
DecodesEncoded jwt =
    (c : Claims) (now : ℕ)
    → c.iat ≤ now
    → c.nbf ≤ now
    → now + 1000000 ≤ c.exp
    → jwt.decode c.iss c.aud now (jwt.encode c) ≡ accepted c.payload

-- A hash fits its column: SHA-256 is written in 64 characters.
abbrev pub HashesFit : {T : Type 0} → Jwt T → Type 0
HashesFit {T} jwt = (token : T) → length (jwt.hash token) ≤ 255

same_device : (s : Session) (ip ua : Option Text) → s.ip ≡ ip → fingerprint_mismatch s ip ua ≡ false
unfolding fingerprint_mismatch
same_device s ip ua h =
    ground (arith, text_eq_refl (strip (or_empty ip)), ap (λ i. strip (or_empty i)) h)

update-none :
    (jti : Text) (rec : Session) (t : Sessions)
    → get_by_jti (some jti) t ≡ none
    → get_by_jti (some jti) (update (invalidated rec) t) ≡ none
unfolding get_by_jti update invalidated
update-none jti rec t free =
    let test = λ (r : Session). r.id == rec.id in
    find_jti-none (some jti) (at_rows test (written (invalidated rec)))
      (at_rows-IsQuiet test (written (invalidated rec)) (written-IsQuiet rec)) t.rows free

module _ {T : Type 0} (jwt : Jwt T) (config : Config) where
  -- A success, with the user and the setting that it carries on.
  abbrev pub Succeeds : Option User → Bool → RefreshResult T × Sessions → Type 0
  Succeeds user auto_login end =
      (r : RefreshSuccess T) × (end.0 ≡ refresh_success r)
      × (r.user ≡ user)
      × (r.auto_login ≡ auto_login)

  issue-Succeeds :
      (call : Call) (user_id : ℕ) (payload : Payload) (ver : ℕ) (token : T) (t : Sessions)
      (x : Option Sessions) (u : Sessions)
      → x ≡ some u
      → Succeeds
          (user_of call.users user_id)
          (or_else payload.al false)
          (issue jwt config call user_id payload ver token t x)
  issue-Succeeds call user_id payload ver token t none u e = cc
  issue-Succeeds call user_id payload ver token t (some v) u e = (_, refl, refl, refl)

  create_succeeds :
      (user_id : ℕ) (jti hash : Text) (exp : ℕ) (ip ua : Option Text) (t : Sessions)
      → get_by_jti (some jti) t ≡ none
      → fits jti hash ip ua ≡ true
      → (u : Sessions) × (create user_id jti hash exp ip ua t ≡ some u)
  unfolding create
  create_succeeds user_id jti hash exp ip ua t free short =
      let new = new_session t.next_id user_id jti hash exp ip ua in
      (record { rows = t.rows ++ new ∷ []; next_id = t.next_id + 1 }, rw short (rw free refl))

  -- With a fresh jti, and texts that are not too long, the rotation succeeds.
  rotate-Succeeds :
      (call : Call) (user_id : ℕ) (payload : Payload) (rec : Session) (t : Sessions)
      → get_by_jti (some call.refresh_jti) t ≡ none
      → ((token : T) → fits call.refresh_jti (jwt.hash token) call.ip call.ua ≡ true)
      → Succeeds
          (user_of call.users user_id)
          (or_else payload.al false)
          (rotate jwt config call user_id payload rec t)
  unfolding rotate make_refresh_pair
  rotate-Succeeds call user_id payload rec t free short =
      let claims =
        refresh_claims config call.now call.refresh_jti user_id (or_else payload.al false)
          (current_ver call.users user_id payload) (tenant_ver call) in
      let closed = update (invalidated rec) t in
      let (u, e) =
        create_succeeds user_id call.refresh_jti (jwt.hash (jwt.encode claims)) claims.exp call.ip
          call.ua closed (update-none call.refresh_jti rec t free) (short (jwt.encode claims)) in
      issue-Succeeds call user_id payload (current_ver call.users user_id payload)
        (jwt.encode claims) t _ u e

  session-Succeeds :
      (call : Call) (user_id : ℕ) (payload : Payload) (rec : Session) (t : Sessions)
      → rec.valid ≡ true
      → call.now < rec.expires_at
      → rec.ip ≡ call.ip
      → get_by_jti (some call.refresh_jti) t ≡ none
      → ((token : T) → fits call.refresh_jti (jwt.hash token) call.ip call.ua ≡ true)
      → Succeeds
          (user_of call.users user_id)
          (or_else payload.al false)
          (check_session jwt config call user_id payload rec t)
  unfolding check_session is_expired
  session-Succeeds call user_id payload rec t valid fresh ip free short =
      let known = same_device rec call.ip call.ua ip in
      subst (Succeeds (user_of call.users user_id) (or_else payload.al false))
        {x = rotate jwt config call user_id payload rec t}
        {y = check_session jwt config call user_id payload rec t} (ground (arith, known))
        (rotate-Succeeds call user_id payload rec t free short)

  same_versions :
      (users : Option (ℕ → Option User)) (user_id : ℕ) (old new : Payload) (tenant : ℕ)
      → new.user_ver ≡ some (current_ver users user_id old)
      → new.tenant_ver ≡ some tenant
      → versions_match users user_id new tenant ≡ true
  same_versions none user_id old new tenant p q = refl
  same_versions (some get) user_id old new tenant p q = rw (p, q) ground arith

  texts_fit :
      HashesFit jwt
      → (jti hash : Text) (ip ip' ua ua' : Option Text) (token : T) (old : Text)
      → fits old hash ip' ua' ≡ true
      → ip ≡ ip'
      → length jti ≤ 128
      → length (or_empty ua) ≤ 255
      → fits jti (jwt.hash token) ip ua ≡ true
  unfolding fits
  texts_fit hashes jti hash ip ip' ua ua' token old short same h k =
      ground (arith, hashes token, ap (λ i. length (or_empty i)) same)

  -- The refresh token of a successful refresh works in its turn, up to a second before it
  -- expires, from the same address, while the user repository and the version of the tenant are
  -- as they were, the new session is untouched, the next jti is fresh and has at most 128
  -- characters, and the user agent has at most 255; the JWT library is assumed to accept what it
  -- has signed, and a hash to fit its column.
  pub refresh_renews :
      DecodesEncoded jwt
      → HashesFit jwt
      → (call later : Call) (token : T) (t u v : Sessions) (r : RefreshSuccess T)
      → refresh jwt config call token t ≡ (refresh_success r, u)
      → get_by_jti (some call.refresh_jti) v ≡ get_by_jti (some call.refresh_jti) u
      → get_by_jti (some later.refresh_jti) v ≡ none
      → length later.refresh_jti ≤ 128
      → length (or_empty later.ua) ≤ 255
      → later.users ≡ call.users
      → later.tenant_version ≡ call.tenant_version
      → later.ip ≡ call.ip
      → call.now ≤ later.now
      → later.now + 1000000
        ≤ call.now
          + (if r.auto_login then config.refresh_exp else config.refresh_session_exp) * minute
      → Succeeds r.user r.auto_login (refresh jwt config later r.refresh_token v)
  unfolding refresh_claims verify new_session
  refresh_renews decodes hashes call later token t u v r h untouched free id_fits ua_fits users
        tenant ip since until =
      let g = refresh-IsGranted jwt config call token t u r h in
      let rot =
        rotate-IsRotated jwt config call g.user_id g.payload g.rec t u r g.has_session
          g.is_rotated in
      let login = or_else g.payload.al false in
      let ver = current_ver call.users g.user_id g.payload in
      let claims =
        refresh_claims config call.now call.refresh_jti g.user_id login ver (tenant_ver call) in
      let new =
        new_session rot.new_id g.user_id call.refresh_jti (jwt.hash r.refresh_token) claims.exp
          call.ip call.ua in
      let in_time : later.now + 1000000 ≤ claims.exp =
        subst
          (λ b.
            later.now + 1000000
            ≤ call.now + (if b then config.refresh_exp else config.refresh_session_exp) * minute)
          rot.has_login until in
      let accepts : verify jwt config later.now r.refresh_token ≡ accepted claims.payload =
        ap (jwt.decode config.issuer config.audience later.now) rot.is_encoded
        ∙ decodes claims later.now since since in_time in
      let versions : versions_match later.users g.user_id claims.payload (tenant_ver later) ≡ true =
        same_versions later.users g.user_id g.payload claims.payload (tenant_ver later)
          (ap (λ get. some (current_ver get g.user_id g.payload)) (sym users))
          (ap (λ n. some (or_else n 0)) (sym tenant)) in
      let short : (x : T) → fits later.refresh_jti (jwt.hash x) later.ip later.ua ≡ true = λ x.
        texts_fit hashes later.refresh_jti (jwt.hash r.refresh_token) later.ip call.ip later.ua
          call.ua x call.refresh_jti rot.is_short ip id_fits ua_fits in
      let checked =
        refresh-check_session jwt config later r.refresh_token v claims.payload g.user_id new
          accepts refl refl versions (untouched ∙ rot.is_open) in
      let done =
        session-Succeeds later g.user_id claims.payload new v refl (omega (arith, in_time)) (sym ip)
          free short in
      let same_user : user_of later.users g.user_id ≡ r.user =
        ap (λ get. user_of get g.user_id) users ∙ sym rot.has_user in
      subst (Succeeds r.user r.auto_login) (sym checked) (
        subst
          (λ user.
            Succeeds user r.auto_login
              (check_session jwt config later g.user_id claims.payload new v))
          same_user
          (subst
            (λ b.
              Succeeds (user_of later.users g.user_id) b
                (check_session jwt config later g.user_id claims.payload new v))
            (sym rot.has_login) done))
