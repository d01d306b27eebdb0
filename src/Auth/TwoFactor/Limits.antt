-- ===== src/Auth/TwoFactor/Limits.antt =====
-- How many guesses of a code are answered.
use nyzrating.Prelude.{
  ℕ, ◌+◌, ◌*◌, ◌≤◌, ◌≡◌, refl, Bool, true, false, Option, none, some, List, [], ◌∷◌, ◌++◌, ltb, max,
  All, arith, if◌then◌else◌, ap, ◌∙◌, sym, subst, inl, inr, Bool-cases,
}
use nyzrating.Prelude.Text.{Text, codes, text_eq, text_eq_refl, truthy, or_empty}
use nyzrating.Auth.Tokens.{minute}
use nyzrating.Auth.TwoFactor.Attempts.{Attempt, record_failed, str}
use nyzrating.Auth.TwoFactor.Counters.{
  count_failure, counters, find-counted, count_blocks, blocked-counters,
}
use nyzrating.Auth.TwoFactor.Codes.{CodeTable, get_valid_code}
use nyzrating.Auth.TwoFactor.Service.{
  TwoFactorService, Factors, scopes, any_blocked, record_scopes, is_limited, verify_code,
}

truthy-snoc : (s : Text) (c : ℕ) → truthy (s ++ c ∷ []) ≡ true
truthy-snoc [] c = refl
truthy-snoc (d ∷ s) c = refl

truthy-if :
    (b : Bool) (s t : Text) → truthy s ≡ true → truthy t ≡ true → truthy (if b then s else t) ≡ true
truthy-if true s t p q = p
truthy-if false s t p q = q

-- A number has digits.
truthy-str : (n : ℕ) → truthy (str n) ≡ true
unfolding str
truthy-str n = truthy-if (ltb n 10) _ _ refl (truthy-snoc _ _)

abbrev pub user_count : ℕ → List Attempt → Option (ℕ × ℕ)
user_count user_id rows = counters rows (codes "user") (str user_id)

-- A failure in one scope that is not the user's.
other_scope :
    (b : Bool) (now minutes : ℕ) (s k : Text) (rows : List Attempt) (user_id : ℕ)
    → text_eq s (codes "user") ≡ false
    → user_count user_id (if b then record_failed now s k minutes rows else rows)
      ≡ user_count user_id rows
other_scope b now minutes s k rows user_id h =
    ground (arith, find-counted now s k minutes rows (codes "user") (str user_id))

own_scope :
    (now minutes : ℕ) (rows : List Attempt) (user_id : ℕ)
    → user_count user_id (record_failed now (codes "user") (str user_id) minutes rows)
      ≡ some (count_failure now minutes (user_count user_id rows))
own_scope now minutes rows user_id = ground (
  arith,
  find-counted now (codes "user") (str user_id) minutes rows (codes "user") (str user_id),
  text_eq_refl (codes "user"),
  text_eq_refl (str user_id),
)

pub user_count-record :
    (now minutes user_id : ℕ) (token ip : Option Text) (rows : List Attempt)
    → user_count user_id (record_scopes now minutes (scopes user_id token ip) rows)
      ≡ some (count_failure now minutes (user_count user_id rows))
unfolding record_scopes scopes text_eq
user_count-record now minutes user_id token ip rows =
    let first =
      if truthy (or_empty token)
      then record_failed now (codes "token") (or_empty token) minutes rows
      else rows in
    let second = record_failed now (codes "user") (str user_id) minutes first in
    rw (truthy-str user_id) (
      other_scope (truthy (or_empty ip)) now minutes (codes "ip") (or_empty ip) second user_id refl
      ∙ own_scope now minutes first user_id
      ∙ ap (λ c. some (count_failure now minutes c))
          (other_scope (truthy (or_empty token)) now minutes (codes "token") (or_empty token) rows
            user_id refl))

-- A user whose count blocks meets the limit.
any_blocked-user :
    (now m minutes user_id : ℕ) (token ip : Option Text) (rows : List Attempt)
    → count_blocks now m minutes (user_count user_id rows) ≡ true
    → any_blocked now m minutes (scopes user_id token ip) rows ≡ true
unfolding any_blocked scopes
any_blocked-user now m minutes user_id token ip rows h =
    ground
      (arith, truthy-str user_id, blocked-counters now (codes "user") (str user_id) m minutes rows)

pub record Guess : Type 0 where
  pub now : ℕ
  pub code : Text
  pub token : Text
  pub ip : Option Text

module _ (sha256_hex : Text → Text) (svc : TwoFactorService) (user_id : ℕ) where
  -- A guess that is answered counts, and one over the limit writes nothing.
  unfoldable pub answer : ℕ × Factors → Option (Bool × Factors) → ℕ × Factors
  answer (n, f) none = (n, f)
  answer (n, f) (some (ok, f')) = (n + 1, f')

  -- The number of guesses that are answered, and the tables after them.
  unfoldable pub guess_all : List Guess → ℕ × Factors → ℕ × Factors
  guess_all [] run = run
  guess_all (g ∷ guesses) (n, f) =
      guess_all guesses
        (answer (n, f) (verify_code sha256_hex svc g.now user_id g.code (some g.token) g.ip f))

  -- A guess under a pending token, in a window of time, of a code that is not valid.
  abbrev pub IsWrong : ℕ → CodeTable → Guess → Type 0
  IsWrong since codes_now g =
      (truthy g.token ≡ true)
      × (since ≤ g.now)
      × (g.now ≤ since + svc.attempt_window_minutes * minute)
      × (get_valid_code sha256_hex g.now user_id g.code codes_now ≡ none)

  -- The guesses that are answered fit the limit.
  abbrev Fits : ℕ → ℕ → Option (ℕ × ℕ) → Type 0
  Fits since n none = n ≡ 0
  Fits since n (some (m, start)) = (n ≡ m) × (since ≤ start) × (n ≤ max 1 svc.max_attempts)

  count-Fits :
      (since now n : ℕ) (c : Option (ℕ × ℕ))
      → since ≤ now
      → now ≤ since + svc.attempt_window_minutes * minute
      → count_blocks now svc.max_attempts svc.attempt_window_minutes c ≡ false
      → Fits since n c
      → Fits since (n + 1) (some (count_failure now svc.attempt_window_minutes c))
  unfolding count_blocks count_failure
  count-Fits since now n none p q r h = ground arith
  count-Fits since now n (some (m, start)) p q r h = ground arith

  unlimited-user :
      (now : ℕ) (token ip : Option Text) (f : Factors)
      → svc.has_attempt_repo ≡ true
      → is_limited sha256_hex svc now user_id token ip f ≡ false
      → count_blocks now svc.max_attempts svc.attempt_window_minutes
          (user_count user_id f.attempt_rows)
        ≡ false
  unfolding is_limited
  unlimited-user now token ip f repo h = ground (
    arith,
    any_blocked-user now svc.max_attempts svc.attempt_window_minutes user_id token ip
        f.attempt_rows,
  )

  -- The tables after a wrong guess that is answered.
  abbrev pub after_wrong : Guess → Factors → Factors
  after_wrong g f = record f {
    attempt_rows =
        record_scopes g.now svc.attempt_window_minutes (scopes user_id (some g.token) g.ip)
          f.attempt_rows;
  }

  verify-wrong :
      (f : Factors) (g : Guess)
      → svc.has_attempt_repo ≡ true
      → truthy g.token ≡ true
      → get_valid_code sha256_hex g.now user_id g.code f.code_table ≡ none
      → verify_code sha256_hex svc g.now user_id g.code (some g.token) g.ip f ≡ (
          if is_limited sha256_hex svc g.now user_id (some g.token) g.ip f
          then none
          else some (false, after_wrong g f))
  unfolding verify_code
  verify-wrong f g repo tok wrong = rw (wrong, repo, tok) refl

  answer-Fits :
      (since n : ℕ) (f : Factors) (g : Guess)
      → svc.has_attempt_repo ≡ true
      → IsWrong since f.code_table g
      → Fits since n (user_count user_id f.attempt_rows)
      → let (n', f') =
          answer (n, f) (verify_code sha256_hex svc g.now user_id g.code (some g.token) g.ip f) in
        (f'.code_table ≡ f.code_table) × Fits since n' (user_count user_id f'.attempt_rows)
  unfolding answer
  answer-Fits since n f g repo (tok, p, q, wrong) h =
      elim (Bool-cases (is_limited sha256_hex svc g.now user_id (some g.token) g.ip f)) [
        | inl limited ↦ rw (verify-wrong f g repo tok wrong, limited) (refl, h)
        | inr free ↦
            rw (verify-wrong f g repo tok wrong, free)
              (
                refl,
                subst (Fits since (n + 1))
                    (sym (
                      user_count-record g.now svc.attempt_window_minutes user_id (some g.token) g.ip
                        f.attempt_rows))
                    (count-Fits since g.now n (user_count user_id f.attempt_rows) p q
                      (unlimited-user g.now (some g.token) g.ip f repo free) h),
              )
      ]

  guess_all-Fits :
      (since : ℕ) (t : CodeTable) (guesses : List Guess) (n : ℕ) (f : Factors)
      → svc.has_attempt_repo ≡ true
      → f.code_table ≡ t
      → All (IsWrong since t) guesses
      → Fits since n (user_count user_id f.attempt_rows)
      → let (n', f') = guess_all guesses (n, f) in
        Fits since n' (user_count user_id f'.attempt_rows)
  unfolding guess_all
  guess_all-Fits since t [] n f repo e w h = h
  guess_all-Fits since t (g ∷ guesses) n f repo e w h =
      let (same, fits) =
        answer-Fits since n f g repo (subst (λ c. IsWrong since c g) (sym e) w.0) h in
      guess_all-Fits since t guesses _ _ repo (same ∙ e) w.1 fits

  Fits-bound : (since n : ℕ) (c : Option (ℕ × ℕ)) → Fits since n c → n ≤ max 1 svc.max_attempts
  Fits-bound since n none h = omega arith
  Fits-bound since n (some (m, start)) h = h.2

  -- With a store of attempts in which the user has no count, of any guesses at wrong e-mailed
  -- codes in one window of time, under any pending tokens and addresses and in any order of
  -- their times, the service answers at most the allowed number of attempts, or one when that is
  -- zero; the rest raise.
  pub guesses_bounded :
      (since : ℕ) (guesses : List Guess) (f : Factors)
      → svc.has_attempt_repo ≡ true
      → user_count user_id f.attempt_rows ≡ none
      → All (IsWrong since f.code_table) guesses
      → (guess_all guesses (0, f)).0 ≤ max 1 svc.max_attempts
  guesses_bounded since guesses f repo empty wrong = Fits-bound since _ _ (
      guess_all-Fits since f.code_table guesses 0 f repo refl wrong
        (subst (Fits since 0) (sym empty) refl))
