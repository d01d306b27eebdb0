-- ===== src/Auth/Refresh/Success.antt =====
-- What a refresh that succeeds has checked.
use nyzrating.Prelude.{
  ℕ, ◌<◌, ◌≡◌, refl, inl, inr, true, false, arith, Option, none, some, Bool-cases, Option-cases, ap,
}
use nyzrating.Prelude.Text.{Text, codes, text_eq, text_eq_iff, or_empty}
use nyzrating.Auth.Tokens.{
  Payload, Verdict, accepted, expired, broken, refused, Jwt, Config, verify,
}
use nyzrating.Auth.Sessions.{Session, Sessions, get_by_jti, is_expired}
use nyzrating.Auth.Refresh.{
  RefreshSuccess, refresh_success, Call, refresh, rotate, check_session, check_verdict,
  check_subject, versions_match, tenant_ver, fingerprint_mismatch,
}

module _ {T : Type 0} (jwt : Jwt T) (config : Config) where
  -- What stands behind a success: the payload, the user id and the session.
  pub record IsGranted (call : Call) (token : T) (t : Sessions) (r : RefreshSuccess T)
      (u : Sessions) : Type 0 where
    pub payload : Payload
    pub user_id : ℕ
    pub rec : Session
    pub is_accepted : verify jwt config call.now token ≡ accepted payload
    pub is_refresh : payload.typ ≡ some (codes "refresh")
    pub has_sub : payload.sub ≡ some user_id
    pub has_versions : versions_match call.users user_id payload (tenant_ver call) ≡ true
    pub has_session : get_by_jti payload.jti t ≡ some rec
    pub is_valid : rec.valid ≡ true
    pub is_fresh : call.now < rec.expires_at
    pub is_familiar : fingerprint_mismatch rec call.ip call.ua ≡ false
    pub is_rotated : rotate jwt config call user_id payload rec t ≡ (refresh_success r, u)

  session_checked :
      (call : Call) (user_id : ℕ) (payload : Payload) (rec : Session) (t u : Sessions)
      (r : RefreshSuccess T)
      → check_session jwt config call user_id payload rec t ≡ (refresh_success r, u)
      → (rec.valid ≡ true)
        × (call.now < rec.expires_at)
        × (fingerprint_mismatch rec call.ip call.ua ≡ false)
        × (rotate jwt config call user_id payload rec t ≡ (refresh_success r, u))
  unfolding check_session is_expired
  session_checked call user_id payload rec t u r h = ground arith

  typ_is :
      (typ : Option Text)
      → text_eq (or_empty typ) (codes "refresh") ≡ true
      → typ ≡ some (codes "refresh")
  unfolding text_eq
  typ_is none h = cc
  typ_is (some s) h = ap some ((text_eq_iff s (codes "refresh")).0 h)

  subject_checked :
      (call : Call) (payload : Payload) (sub : Option ℕ) (t u : Sessions) (r : RefreshSuccess T)
      → check_subject jwt config call sub payload t ≡ (refresh_success r, u)
      → (id : ℕ) × (rec : Session) × (sub ≡ some id)
        × (versions_match call.users id payload (tenant_ver call) ≡ true)
        × (get_by_jti payload.jti t ≡ some rec)
        × (check_session jwt config call id payload rec t ≡ (refresh_success r, u))
  subject_checked call payload none t u r h = cc
  subject_checked call payload (some id) t u r h = elim (Option-cases (get_by_jti payload.jti t)) [
    | inl missing ↦ absurd (ground arith)
    | inr (rec, found) ↦ (id, rec, refl, ground arith, found, ground arith)
  ]

  verdict_checked :
      (call : Call) (token : T) (t u : Sessions) (r : RefreshSuccess T) (v : Verdict)
      → verify jwt config call.now token ≡ v
      → check_verdict jwt config call v t ≡ (refresh_success r, u)
      → IsGranted call token t r u
  verdict_checked call token t u r expired e h = cc
  verdict_checked call token t u r broken e h = cc
  verdict_checked call token t u r refused e h = cc
  verdict_checked call token t u r (accepted payload) e h =
      elim (Bool-cases (text_eq (or_empty payload.typ) (codes "refresh"))) [
        | inr other ↦ absurd (ground arith)
        | inl typ ↦
            let (id, rec, sub, versions, found, checked) =
              subject_checked call payload payload.sub t u r (ground arith) in
            let (valid, fresh, familiar, rotated) =
              session_checked call id payload rec t u r checked in
            record {
              payload = payload;
              user_id = id;
              rec = rec;
              is_accepted = e;
              is_refresh = typ_is payload.typ typ;
              has_sub = sub;
              has_versions = versions;
              has_session = found;
              is_valid = valid;
              is_fresh = fresh;
              is_familiar = familiar;
              is_rotated = rotated;
            }
      ]

  -- A refresh that succeeds had an accepted token of type refresh, security versions that match,
  -- a session that is found, open, not expired and of a familiar device, and it has rotated that
  -- session.
  pub refresh-IsGranted :
      (call : Call) (token : T) (t u : Sessions) (r : RefreshSuccess T)
      → refresh jwt config call token t ≡ (refresh_success r, u)
      → IsGranted call token t r u
  unfolding refresh
  refresh-IsGranted call token t u r h =
      verdict_checked call token t u r (verify jwt config call.now token) refl h
