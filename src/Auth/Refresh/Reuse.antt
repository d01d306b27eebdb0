-- ===== src/Auth/Refresh/Reuse.antt =====
-- The refresh that fails: what it leaves, and what a reused token brings about.
use nyzrating.Prelude.{
  ℕ, ◌≡◌, refl, true, false, ◌&&◌, arith, Option, none, some, List, [], ◌∷◌, map, All,
  if◌then◌else◌, ◌==◌, sym, ap, ◌∙◌, subst,
}
use mathlib.Core.Option.{some-injective}
use nyzrating.Prelude.Text.{codes, text_eq, text_eq_refl, or_empty}
use nyzrating.Auth.Tokens.{Payload, accepted, Jwt, Config, verify}
use nyzrating.Auth.Sessions.{Session, Sessions, get_by_jti, invalidated, invalidate_all_for_user}
use nyzrating.Auth.Refresh.{
  RefreshResult, refresh_failed, session_reuse_detected, Call, refresh, check_session,
  check_subject, check_verdict, tenant_ver, versions_match,
}

closes_user :
    (user_id : ℕ) (rows : List Session)
    → All
        (λ s. s.user_id == user_id && s.valid ≡ false)
        (map (λ s. if s.user_id == user_id && s.valid then invalidated s else s) rows)
unfolding invalidated
closes_user user_id [] = tt
closes_user user_id (s ∷ rows) = (ground arith, closes_user user_id rows)

module _ {T : Type 0} (jwt : Jwt T) (config : Config) where
  subject_reaches :
      (call : Call) (payload : Payload) (sub : Option ℕ) (user_id : ℕ) (rec : Session)
      (t : Sessions)
      → sub ≡ some user_id
      → versions_match call.users user_id payload (tenant_ver call) ≡ true
      → get_by_jti payload.jti t ≡ some rec
      → check_subject jwt config call sub payload t
        ≡ check_session jwt config call user_id payload rec t
  subject_reaches call payload none user_id rec t e v f = cc
  subject_reaches call payload (some id) user_id rec t e v f =
      subst
        (λ i.
          check_subject jwt config call (some i) payload t
          ≡ check_session jwt config call user_id payload rec t)
        (sym (some-injective id user_id e)) (rw v (rw f refl))

  -- An accepted refresh token of current versions and of a known session gets to the checks of
  -- the session.
  pub refresh-check_session :
      (call : Call) (token : T) (t : Sessions) (payload : Payload) (user_id : ℕ) (rec : Session)
      → verify jwt config call.now token ≡ accepted payload
      → payload.typ ≡ some (codes "refresh")
      → payload.sub ≡ some user_id
      → versions_match call.users user_id payload (tenant_ver call) ≡ true
      → get_by_jti payload.jti t ≡ some rec
      → refresh jwt config call token t ≡ check_session jwt config call user_id payload rec t
  unfolding refresh
  refresh-check_session call token t payload user_id rec v typ sub ver found =
      let kind : text_eq (or_empty payload.typ) (codes "refresh") ≡ true =
        subst (λ p. text_eq (or_empty p) (codes "refresh") ≡ true) (sym typ)
          (text_eq_refl (codes "refresh")) in
      ap (λ verdict. check_verdict jwt config call verdict t) v
      ∙ rw kind (subject_reaches call payload payload.sub user_id rec t sub ver found)

  closed_session :
      (call : Call) (user_id : ℕ) (payload : Payload) (rec : Session) (t : Sessions)
      → rec.valid ≡ false
      → call.permissions_changed_get rec.user_id ≡ false
      → check_session jwt config call user_id payload rec t
        ≡ (refresh_failed session_reuse_detected, invalidate_all_for_user rec.user_id t)
  unfolding check_session
  closed_session call user_id payload rec t closed unchanged = ground arith

  -- An accepted refresh token of current versions whose session is closed fails with
  -- SESSION_REUSE_DETECTED and leaves no open session of the session's user, unless the
  -- permissions of that user have just changed.
  pub reuse_closes-All :
      (call : Call) (token : T) (t : Sessions) (payload : Payload) (user_id : ℕ) (rec : Session)
      → verify jwt config call.now token ≡ accepted payload
      → payload.typ ≡ some (codes "refresh")
      → payload.sub ≡ some user_id
      → versions_match call.users user_id payload (tenant_ver call) ≡ true
      → get_by_jti payload.jti t ≡ some rec
      → rec.valid ≡ false
      → call.permissions_changed_get rec.user_id ≡ false
      → let end = refresh jwt config call token t in
        (end.0 ≡ refresh_failed session_reuse_detected)
        × All (λ s. s.user_id == rec.user_id && s.valid ≡ false) end.1.rows
  unfolding invalidate_all_for_user
  reuse_closes-All call token t payload user_id rec v typ sub ver found closed unchanged =
      subst
        (λ (e : RefreshResult T × Sessions).
          (e.0 ≡ refresh_failed session_reuse_detected)
          × All (λ s. s.user_id == rec.user_id && s.valid ≡ false) e.1.rows)
        (sym (
          refresh-check_session call token t payload user_id rec v typ sub ver found
          ∙ closed_session call user_id payload rec t closed unchanged))
        (refl, closes_user rec.user_id t.rows)
