-- ===== src/Auth/Life.antt =====
-- The sessions over time, under every order of logins, refreshes, logouts and revocations.
use nyzrating.Prelude.{ℕ, ◌≡◌, refl, true, false, Option, some, sym, ap, ◌∙◌, subst}
use mathlib.Core.Option.{some-injective}
use nyzrating.Prelude.Text.{Text}
use nyzrating.Auth.Tokens.{Payload, accepted, Jwt, Config, verify}
use nyzrating.Auth.Sessions.{
  Session, Sessions, get_by_jti, create, invalidated, invalidate, written, invalidate_all_for_user,
  invalidate_by_hash,
}
use nyzrating.Auth.Sessions.Rows.{IsClosed, create-IsClosed}
use nyzrating.Auth.Refresh.{RefreshSuccess, refresh_success, Call, refresh}
use nyzrating.Auth.Refresh.Success.{refresh-IsGranted}
use nyzrating.Auth.Refresh.Rotation.{rotate-IsRotated}
use nyzrating.Auth.Logout.{logout}
use nyzrating.Auth.Closed.{
  all-IsClosed, hash-IsClosed, jti-IsClosed, logout-IsClosed, refresh-IsClosed,
}

module _ {T : Type 0} (jwt : Jwt T) (config : Config) where
  -- One use case on the table: a login, a refresh, a logout, or a revocation.
  pub data Step : Sessions → Sessions → Type 0 where
    logged_in :
        (user_id : ℕ) (jti hash : Text) (exp : ℕ) (ip ua : Option Text) (t u : Sessions)
        → create user_id jti hash exp ip ua t ≡ some u
        → Step t u
    refreshed :
        (call : Call) (token : T) (t : Sessions) → Step t (refresh jwt config call token t).1
    logged_out : (now : ℕ) (token : T) (t : Sessions) → Step t (logout jwt config now token t).1
    revoked : (jti : Text) (t : Sessions) → Step t (invalidate jti t)
    all_revoked : (user_id : ℕ) (t : Sessions) → Step t (invalidate_all_for_user user_id t)
    hash_revoked : (hash : Text) (t : Sessions) → Step t (invalidate_by_hash hash t)

  pub data Reach (t : Sessions) : Sessions → Type 0 where
    here : Reach t t
    next : {u v : Sessions} → Reach t u → Step u v → Reach t v

  Step-IsClosed : (jti : Text) {t u : Sessions} → Step t u → IsClosed jti t → IsClosed jti u
  unfolding refresh logout
  Step-IsClosed jti (logged_in id j hash exp ip ua t u e) c =
      create-IsClosed jti id j hash exp ip ua t u e c
  Step-IsClosed jti (refreshed call token t) c =
      refresh-IsClosed jwt config jti call (verify jwt config call.now token) t c
  Step-IsClosed jti (logged_out now token t) c =
      logout-IsClosed jwt config jti now token (verify jwt config now token) t c
  Step-IsClosed jti (revoked j t) c = jti-IsClosed jti j t c
  Step-IsClosed jti (all_revoked id t) c = all-IsClosed jti id t c
  Step-IsClosed jti (hash_revoked hash t) c = hash-IsClosed jti hash t c

  -- A session that is closed is never opened again.
  Reach-IsClosed : (jti : Text) {t u : Sessions} → Reach t u → IsClosed jti t → IsClosed jti u
  Reach-IsClosed jti here c = c
  Reach-IsClosed jti (next r s) c = Step-IsClosed jti s (Reach-IsClosed jti r c)

  -- The token bears this jti, whenever it is checked.
  abbrev pub Bears : T → Text → Type 0
  Bears token jti =
      (now : ℕ) (p : Payload) → verify jwt config now token ≡ accepted p → p.jti ≡ some jti

  same_session :
      (t : Sessions) (j k : Option Text) (r s : Session)
      → j ≡ k
      → get_by_jti j t ≡ some r
      → get_by_jti k t ≡ some s
      → r ≡ s
  same_session t j k r s e p q = some-injective _ _ (sym p ∙ ap (λ i. get_by_jti i t) e ∙ q)

  valid_not_closed : (r s : Session) → r ≡ s → r.valid ≡ true → s.valid ≡ false → ⊥
  valid_not_closed r s e p q = cc

  -- No refresh succeeds on a closed session.
  closed_fails :
      (jti : Text) (call : Call) (token : T) (t u : Sessions) (r : RefreshSuccess T)
      → Bears token jti
      → IsClosed jti t
      → ¬ (refresh jwt config call token t ≡ (refresh_success r, u))
  closed_fails jti call token t u r bears (s, found, closed) h =
      let g = refresh-IsGranted jwt config call token t u r h in
      valid_not_closed g.rec s
        (same_session t g.payload.jti (some jti) g.rec s (bears call.now g.payload g.is_accepted)
          g.has_session found)
        g.is_valid closed

  -- Once a refresh has succeeded with a token, no later refresh with a token of the same jti
  -- succeeds, whatever logins, refreshes, logouts and revocations lie between.
  pub refresh_once :
      (jti : Text) (call later : Call) (token token' : T) (t u v w : Sessions)
      (r r' : RefreshSuccess T)
      → Bears token jti
      → Bears token' jti
      → refresh jwt config call token t ≡ (refresh_success r, u)
      → Reach u v
      → ¬ (refresh jwt config later token' v ≡ (refresh_success r', w))
  unfolding invalidated
  refresh_once jti call later token token' t u v w r r' bears bears' h reach =
      let g = refresh-IsGranted jwt config call token t u r h in
      let rot =
        rotate-IsRotated jwt config call g.user_id g.payload g.rec t u r g.has_session
          g.is_rotated in
      let same = bears call.now g.payload g.is_accepted in
      let closed : IsClosed jti u = (
        written (invalidated g.rec) g.rec,
        subst (λ j. get_by_jti j u ≡ some (written (invalidated g.rec) g.rec)) same rot.is_closed,
        refl,
      ) in
      closed_fails jti later token' v w r' bears' (Reach-IsClosed jti reach closed)
