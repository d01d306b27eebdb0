-- ===== src/Auth/Login/Guesses.antt =====
-- How often the code of an authenticator can be guessed.
use nyzrating.Prelude.{
  ℕ, ◌≡◌, refl, Bool, true, false, ◌&&◌, Option, none, some, List, [], ◌∷◌, All, ◌==◌, inl, inr,
  Bool-cases, sym, ap, ◌∙◌,
}
use nyzrating.Prelude.Text.{Text, truthy, or_empty}
use nyzrating.Users.{User, get_by_id}
use nyzrating.Auth.Tokens.{Jwt, Config}
use nyzrating.Auth.Sessions.{Sessions}
use nyzrating.Auth.TwoFactor.Attempts.{Attempt}
use nyzrating.Auth.TwoFactor.Counters.{same}
use nyzrating.Auth.TwoFactor.Pending.{get_user_id}
use nyzrating.Auth.TwoFactor.Authenticators.{get_enabled_secret}
use nyzrating.Auth.TwoFactor.Totp.{verify_authenticator_code}
use nyzrating.Auth.TwoFactor.Service.{TwoFactorService}
use nyzrating.Auth.Login.{
  AuthDb, LoginService, LoginInput, LoginResult, login_success, two_factor_required, refused,
  too_many_attempts, failed, after_create, issue_tokens, transaction,
}
use nyzrating.Auth.Login.Second.{
  authenticator_max_attempts, authenticator_window, authenticator_scopes,
  record_authenticator_failed, log_in, after_code, with_attempts, judge_authenticator,
  check_authenticator, login_step2,
}
use nyzrating.Auth.Login.Entry.{login}
use nyzrating.Auth.Login.Below.{AllBelow, any_blocked-below, recorded-AllBelow}

module _ {T : Type 0} (jwt : Jwt T) (config : Config) (svc : LoginService) (s : TwoFactorService)
    (user_id : ℕ) (secret : Text) where
  -- A second step for a user with an authenticator, and what the authenticator says of its code.
  pub record IsTry (verdict : Bool) (db : AuthDb) (inp : LoginInput) : Type 0 where
    pub has_service : svc.two_factor_service ≡ some s
    pub counts : s.has_attempt_repo ≡ true
    pub not_zero : user_id == 0 ≡ false
    pub has_secret : get_enabled_secret user_id db.authenticators ≡ some secret
    pub has_token : truthy (or_empty inp.pending_token) ≡ true
    pub has_code : truthy (or_empty inp.two_factor_code) ≡ true
    pub is_pending : get_user_id inp.now (or_empty inp.pending_token) db.pendings ≡ some user_id
    pub verdict_is :
        verify_authenticator_code svc.crypto inp.now secret (or_empty inp.two_factor_code)
        ≡ some verdict

  -- The login reaches the verdict.
  try-judged :
      (verdict : Bool) (db : AuthDb) (rows : List Attempt) (inp : LoginInput)
      → IsTry verdict db inp
      → AllBelow (authenticator_max_attempts s) rows
      → login jwt config svc inp (with_attempts jwt config svc db rows)
        ≡ transaction jwt config (with_attempts jwt config svc db rows) (
            judge_authenticator jwt config svc s inp
              (or_empty inp.pending_token)
              user_id
              (with_attempts jwt config svc db rows)
              (some verdict))
  unfolding login login_step2 check_authenticator
  try-judged verdict db rows inp t below =
      let free =
        any_blocked-below inp.now (authenticator_max_attempts s) (authenticator_window s)
          (authenticator_scopes user_id (or_empty inp.pending_token) inp.ip) rows below in
      simp (
        t.has_token, t.has_code, t.is_pending, t.has_service, t.not_zero, t.has_secret, t.counts,
        free, t.verdict_is, ◌&&◌,
      )

  transaction-result :
      (db : AuthDb) (x : LoginResult T × AuthDb) → (transaction jwt config db x).0 ≡ x.0
  unfolding transaction
  transaction-result db (login_success r, d) = refl
  transaction-result db (two_factor_required token challenge, d) = refl
  transaction-result db (refused, d) = refl
  transaction-result db (too_many_attempts, d) = refl
  transaction-result db (failed, d) = refl

  create-result :
      (inp : LoginInput) (user : User) (refresh : T) (u : Option Sessions) (d d' : AuthDb)
      → (after_create jwt config inp user refresh u d).0
        ≡ (after_create jwt config inp user refresh u d').0
  create-result inp user refresh none d d' = refl
  create-result inp user refresh (some u) d d' = refl

  -- What a login says depends on no count of attempts.
  log_in-result :
      (inp : LoginInput) (user : Option User) (d d' : AuthDb)
      → d.sessions ≡ d'.sessions
      → (log_in jwt config svc inp user d).0 ≡ (log_in jwt config svc inp user d').0
  unfolding issue_tokens
  log_in-result inp none d d' e = refl
  log_in-result inp (some user) d d' e = elim (Bool-cases user.is_active) [
    | inr inactive ↦ simp inactive
    | inl active ↦ simp (active, e) (create-result inp user _ _ d d')
  ]

  right-result :
      (db : AuthDb) (rows : List Attempt) (inp : LoginInput)
      → IsTry true db inp
      → AllBelow (authenticator_max_attempts s) rows
      → (login jwt config svc inp (with_attempts jwt config svc db rows)).0
        ≡ (log_in jwt config svc inp (get_by_id user_id db.users) db).0
  unfolding after_code
  right-result db rows inp t below =
      ap (λ x. x.0) (try-judged true db rows inp t below)
      ∙ transaction-result (with_attempts jwt config svc db rows) _
      ∙ simp t.counts (log_in-result inp (get_by_id user_id db.users) _ db refl)

  -- The counts below the limit that a wrong code leaves.
  wrong-rows :
      (db : AuthDb) (rows : List Attempt) (inp : LoginInput)
      → IsTry false db inp
      → AllBelow (authenticator_max_attempts s) rows
      → (left : List Attempt) × ((login jwt config svc inp (with_attempts jwt config svc db rows)).1
          ≡ with_attempts jwt config svc db left)
        × AllBelow (authenticator_max_attempts s) left
  unfolding transaction
  wrong-rows db rows inp t below =
      let recorded =
        record_authenticator_failed inp.now (authenticator_max_attempts s) (authenticator_window s)
          (authenticator_scopes user_id (or_empty inp.pending_token) inp.ip) rows in
      let judged = ap (λ x. x.1) (try-judged false db rows inp t below) in
      elim (Bool-cases recorded.0) [
        | inl blocked ↦ (rows, judged ∙ simp (t.counts, blocked), below)
        | inr free ↦ (
          recorded.1,
          judged ∙ simp (t.counts, free),
          recorded-AllBelow inp.now (authenticator_max_attempts s) (authenticator_window s)
              (authenticator_scopes user_id (or_empty inp.pending_token) inp.ip) rows below free,
        )
      ]

  -- The tables after logins, whatever they answer.
  unfoldable pub logins : List LoginInput → AuthDb → AuthDb
  logins [] db = db
  logins (inp ∷ inps) db = logins inps (login jwt config svc inp db).1

  wrong-logins :
      (db : AuthDb) (inps : List LoginInput) (rows : List Attempt)
      → All (IsTry false db) inps
      → AllBelow (authenticator_max_attempts s) rows
      → (left : List Attempt) × (logins inps (with_attempts jwt config svc db rows)
          ≡ with_attempts jwt config svc db left)
        × AllBelow (authenticator_max_attempts s) left
  unfolding logins
  wrong-logins db [] rows t below = (rows, refl, below)
  wrong-logins db (inp ∷ inps) rows t below =
      let (next, same, next_below) = wrong-rows db rows inp t.0 below in
      let (left, e, left_below) = wrong-logins db inps next t.1 next_below in
      (left, ap (logins inps) same ∙ e, left_below)

  -- From tables in which no count of attempts has reached the limit, any number of second steps
  -- with wrong authenticator codes for a user, at any times and from any addresses, leaves the
  -- answer to a step with a right code as it would have been at once: the failure that reaches
  -- the limit raises an exception, and that undoes its count.
  pub guesses_not_limited :
      (db : AuthDb) (guesses : List LoginInput) (inp : LoginInput)
      → AllBelow (authenticator_max_attempts s) db.factors.attempt_rows
      → All (IsTry false db) guesses
      → IsTry true db inp
      → (login jwt config svc inp (logins guesses db)).0 ≡ (login jwt config svc inp db).0
  guesses_not_limited db guesses inp below wrong right =
      let (left, e, left_below) = wrong-logins db guesses db.factors.attempt_rows wrong below in
      ap (λ d. (login jwt config svc inp d).0) e
      ∙ right-result db left inp right left_below
      ∙ sym (right-result db db.factors.attempt_rows inp right below)
