-- ===== src/Auth/Refresh/Rotation.antt =====
-- What a rotation leaves in the table of sessions.
use nyzrating.Prelude.{
  ℕ, ◌≡◌, inl, inr, true, false, arith, Option, none, some, Option-cases, ap, ◌∙◌, or_else,
}
use nyzrating.Prelude.Text.{Text, text_eq_refl}
use nyzrating.Auth.Tokens.{Payload, Jwt, Config, refresh_claims, make_refresh_pair}
use nyzrating.Auth.Sessions.{
  Session, Sessions, get_by_jti, find_jti, create, fits, new_session, update, invalidated, written,
}
use nyzrating.Auth.Sessions.Rows.{find_jti-new, find_jti-snoc, update-closes}
use nyzrating.Auth.Refresh.{
  RefreshSuccess, refresh_success, Call, rotate, tenant_ver, current_ver, user_of,
}

pub created_row :
    (user_id : ℕ) (jti hash : Text) (exp : ℕ) (ip ua : Option Text) (t u : Sessions)
    → create user_id jti hash exp ip ua t ≡ some u
    → (fits jti hash ip ua ≡ true)
      × (get_by_jti (some jti) t ≡ none)
      × (get_by_jti (some jti) u ≡ some (new_session t.next_id user_id jti hash exp ip ua))
unfolding create get_by_jti new_session
created_row user_id jti hash exp ip ua t u h = elim (Option-cases (find_jti (some jti) t.rows)) [
  | inr (s, taken) ↦ absurd (ground arith)
  | inl free ↦ (
    ground arith,
    free,
    ground (
      arith,
      find_jti-new (some jti) t.rows (new_session t.next_id user_id jti hash exp ip ua) free
          (text_eq_refl jti),
    ),
  )
]

module _ {T : Type 0} (jwt : Jwt T) (config : Config) where
  -- What a rotation leaves in the table.
  pub record IsRotated (call : Call) (user_id : ℕ) (payload : Payload) (rec : Session)
      (r : RefreshSuccess T) (u : Sessions) : Type 0 where
    pub is_closed : get_by_jti payload.jti u ≡ some (written (invalidated rec) rec)
    pub is_short : fits call.refresh_jti (jwt.hash r.refresh_token) call.ip call.ua ≡ true
    pub new_id : ℕ
    pub is_open :
        get_by_jti (some call.refresh_jti) u
        ≡ some (
            new_session new_id user_id call.refresh_jti
              (jwt.hash r.refresh_token)
              (refresh_claims config call.now call.refresh_jti user_id
                (or_else payload.al false)
                (current_ver call.users user_id payload)
                (tenant_ver call)).exp
              call.ip
              call.ua)
    pub has_user : r.user ≡ user_of call.users user_id
    pub has_login : r.auto_login ≡ or_else payload.al false
    pub is_encoded :
        r.refresh_token
        ≡ jwt.encode (
            refresh_claims config call.now call.refresh_jti user_id
              (or_else payload.al false)
              (current_ver call.users user_id payload)
              (tenant_ver call))

  stays :
      (jti : Option Text) (user_id : ℕ) (new hash : Text) (exp : ℕ) (ip ua : Option Text)
      (t u : Sessions) (s : Session)
      → create user_id new hash exp ip ua t ≡ some u
      → get_by_jti jti t ≡ some s
      → get_by_jti jti u ≡ some s
  unfolding create get_by_jti
  stays jti user_id new hash exp ip ua t u s h found =
      ground
        (arith, find_jti-snoc jti t.rows (new_session t.next_id user_id new hash exp ip ua) s found)

  -- A rotation that succeeds closes the session that was found, and puts into the table an open
  -- one under the new jti, with the hash and the expiry of the token that it returns.
  pub rotate-IsRotated :
      (call : Call) (user_id : ℕ) (payload : Payload) (rec : Session) (t u : Sessions)
      (r : RefreshSuccess T)
      → get_by_jti payload.jti t ≡ some rec
      → rotate jwt config call user_id payload rec t ≡ (refresh_success r, u)
      → IsRotated call user_id payload rec r u
  unfolding rotate make_refresh_pair
  rotate-IsRotated call user_id payload rec t u r found h =
      let claims =
        refresh_claims config call.now call.refresh_jti user_id (or_else payload.al false)
          (current_ver call.users user_id payload) (tenant_ver call) in
      let closed = update (invalidated rec) t in
      let hash = jwt.hash (jwt.encode claims) in
      elim (Option-cases (create user_id call.refresh_jti hash claims.exp call.ip call.ua closed)) [
        | inl taken ↦ absurd (ground arith)
        | inr (v, e) ↦
            let same : v ≡ u = ground arith in
            let token : r.refresh_token ≡ jwt.encode claims = ground arith in
            let (short, free, row) =
              created_row user_id call.refresh_jti hash claims.exp call.ip call.ua closed u
                (e ∙ ap some same) in
            record {
              is_closed =
                  stays payload.jti user_id call.refresh_jti hash claims.exp call.ip call.ua closed
                    u _ (e ∙ ap some same) (update-closes payload.jti rec t found);
              new_id = closed.next_id;
              is_open = rw token row;
              is_short = rw token short;
              has_user = ground arith;
              has_login = ground arith;
              is_encoded = token;
            }
      ]
