-- ===== src/Auth/Login/Outcome.antt =====
-- What the issue of tokens leaves in the table of sessions.
use nyzrating.Prelude.{
  ℕ, ◌+◌, ◌≡◌, refl, Bool, true, false, ◌&&◌, Option, none, some, List, [], ◌∷◌, ◌++◌, map, count,
  arith, if◌then◌else◌, ◌==◌, inl, inr, Option-cases,
}
use nyzrating.Prelude.Text.{Text}
use nyzrating.Users.{User}
use nyzrating.Auth.Tokens.{Claims, Jwt, Config, make_access, make_refresh_pair, refresh_claims}
use nyzrating.Auth.Sessions.{
  Session, Sessions, get_by_jti, create, new_session, invalidated, invalidate_all_for_user,
}
use nyzrating.Auth.Refresh.Rotation.{created_row}
use nyzrating.Auth.Login.{
  AuthDb, LoginInput, LoginSuccess, LoginResult, login_success, two_factor_required, refused,
  too_many_attempts, failed, after_create, issue_tokens,
}

abbrev pub is_open : ℕ → Session → Bool
is_open user_id s = s.user_id == user_id && s.valid

-- The number of a user's open sessions.
abbrev pub open_sessions : ℕ → Sessions → ℕ
open_sessions user_id t = count (is_open user_id) t.rows

none_open :
    (user_id : ℕ) (rows : List Session)
    → count
        (is_open user_id)
        (map (λ s. if s.user_id == user_id && s.valid then invalidated s else s) rows)
      ≡ 0
unfolding invalidated
none_open user_id [] = refl
none_open user_id (s ∷ rows) = ground (arith, none_open user_id rows)

open-snoc :
    (user_id : ℕ) (rows : List Session) (r : Session)
    → is_open user_id r ≡ true
    → count (is_open user_id) (rows ++ r ∷ []) ≡ count (is_open user_id) rows + 1
open-snoc user_id [] r h = ground arith
open-snoc user_id (s ∷ rows) r h = ground (arith, open-snoc user_id rows r h)

own_open :
    (id user_id : ℕ) (jti hash : Text) (exp : ℕ) (ip ua : Option Text)
    → is_open user_id (new_session id user_id jti hash exp ip ua) ≡ true
unfolding new_session
own_open id user_id jti hash exp ip ua = ground arith

single_open :
    (user_id : ℕ) (jti hash : Text) (exp : ℕ) (ip ua : Option Text) (t u : Sessions)
    → create user_id jti hash exp ip ua (invalidate_all_for_user user_id t) ≡ some u
    → open_sessions user_id u ≡ 1
unfolding create invalidate_all_for_user
single_open user_id jti hash exp ip ua t u h =
    let closed = invalidate_all_for_user user_id t in
    let new = new_session t.next_id user_id jti hash exp ip ua in
    elim (Option-cases (get_by_jti (some jti) closed)) [
      | inr (s, taken) ↦ absurd (ground (arith, taken))
      | inl free ↦ ground (
        arith,
        free,
        none_open user_id t.rows,
        open-snoc user_id closed.rows new (own_open t.next_id user_id jti hash exp ip ua),
      )
    ]

module _ {T : Type 0} (jwt : Jwt T) (config : Config) where
  abbrev claims_for : LoginInput → User → Claims
  claims_for inp user =
      refresh_claims config inp.now inp.refresh_jti user.id inp.auto_login user.security_version
        inp.tenant_version

  abbrev token_for : LoginInput → User → T
  token_for inp user = jwt.encode (claims_for inp user)

  abbrev created_for : LoginInput → User → AuthDb → Option Sessions
  created_for inp user db =
      create user.id inp.refresh_jti (jwt.hash (token_for inp user)) (claims_for inp user).exp
        inp.ip inp.ua (invalidate_all_for_user user.id db.sessions)

  -- The user's one open session is that of the refresh token.
  pub record IsSingle (inp : LoginInput) (r : LoginSuccess T) (after : AuthDb) : Type 0 where
    pub one_open : open_sessions r.user.id after.sessions ≡ 1
    pub new_id : ℕ
    pub has_session :
        get_by_jti (some inp.refresh_jti) after.sessions
        ≡ some (
            new_session new_id r.user.id inp.refresh_jti
              (jwt.hash r.refresh_token)
              (refresh_claims config inp.now inp.refresh_jti r.user.id inp.auto_login
                r.user.security_version inp.tenant_version).exp
              inp.ip
              inp.ua)

  -- A success has one open session and a reason, and no other result opens or closes one.
  abbrev pub EndsWell : LoginInput → (User → Type 0) → AuthDb → LoginResult T × AuthDb → Type 0
  EndsWell inp Why before (login_success r, after) = Why r.user × IsSingle inp r after
  EndsWell inp Why before (two_factor_required token challenge, after) =
      after.sessions ≡ before.sessions
  EndsWell inp Why before (refused, after) = after.sessions ≡ before.sessions
  EndsWell inp Why before (too_many_attempts, after) = after.sessions ≡ before.sessions
  EndsWell inp Why before (failed, after) = after.sessions ≡ before.sessions

  create_EndsWell :
      (inp : LoginInput) (Why : User → Type 0) (user : User) (before db : AuthDb)
      → Why user
      → db.sessions ≡ before.sessions
      → (created : Option Sessions) → created_for inp user db ≡ created
      → EndsWell inp Why before (after_create jwt config inp user (token_for inp user) created db)
  create_EndsWell inp Why user before db why same none e = same
  create_EndsWell inp Why user before db why same (some u) e = (
    why,
    record {
      one_open = single_open _ _ _ _ _ _ _ _ e;
      new_id = (invalidate_all_for_user user.id db.sessions).next_id;
      has_session = (created_row _ _ _ _ _ _ _ _ e).2;
    },
  )

  pub issue-EndsWell :
      (inp : LoginInput) (Why : User → Type 0) (user : User) (before db : AuthDb)
      → Why user
      → db.sessions ≡ before.sessions
      → EndsWell inp Why before (issue_tokens jwt config inp user db)
  unfolding issue_tokens make_refresh_pair make_access
  issue-EndsWell inp Why user before db why same =
      create_EndsWell inp Why user before db why same _ refl

  -- Splits of a test, and of a user.
  pub if-EndsWell :
      (inp : LoginInput) (W : User → Type 0) (db : AuthDb) (b : Bool) (x y : LoginResult T × AuthDb)
      → EndsWell inp W db x
      → EndsWell inp W db y
      → EndsWell inp W db (if b then x else y)
  if-EndsWell inp W db true x y p q = p
  if-EndsWell inp W db false x y p q = q

  pub split-EndsWell :
      (inp : LoginInput) (W : User → Type 0) (db : AuthDb) (b : Bool) (x y : LoginResult T × AuthDb)
      → (b ≡ true → EndsWell inp W db x)
      → EndsWell inp W db y
      → EndsWell inp W db (if b then x else y)
  split-EndsWell inp W db true x y p q = p refl
  split-EndsWell inp W db false x y p q = q
